-- ===== src/Fetch/Served.antt =====
-- Which upstream answers reach the client: `postChatCompletion`, src/providers/fetch.ts.
use msrouter.Prelude.{
  ℕ, ◌≤◌, ◌<◌, ◌≡◌, ◌⊎◌, inl, inr, refl, Bool, true, false, none, some, List, [], ◌++◌, Text, text,
  Map, delete, text_eq,
}
use msrouter.Provider.Status.{
  AttemptOutcome, answer, failed, classify_attempt, classify_attempt_lem,
}
use msrouter.Routing.Entries.{decimal}
use msrouter.Json.{Json, prop, truthy, truthy?}
use msrouter.Fetch.Completion.{is_empty_completion, unwrap_enveloped_data}
use msrouter.Fetch.Stream.{
  Stream, Checked, passed, refused, thrown, check_stream_content, check_stream_content-Delivers,
  Delivers, all_bytes,
}
use msrouter.Fetch.Post.{
  Reply, replied, Body, text_body, byte_body, Response, Platform, is_null_body, caught, respond,
  error_text, post_text, after_check, post_chat_completion,
}

module _ (w : Platform) where
  open w use {parse, stringify}

  -- An error that the upstream reports in a 200 body, whose text cannot be read.
  abbrev pub Unreadable : Json → Type 0
  Unreadable json =
      (e : Json) × (prop (text "error") json ≡ some e) × (truthy e ≡ true) × (error_text w e ≡ none)

  -- the reply as it came
  abbrev pub verbatim : Reply → Response
  verbatim r = record { status = r.status; headers = r.headers; body = text_body r.content }

  -- the reply with the completion that its envelope held
  abbrev pub unwrapped : Reply → Json → Response
  unwrapped r inner = record {
    status = r.status;
    headers = delete (text "content-length") r.headers;
    body = text_body (stringify inner);
  }

  -- A body without an error, whose completion is not empty, and which is served as it came or, if the
  -- completion was wrapped in an envelope, unwrapped.
  abbrev pub Delivered : Reply → Bool → Json → Response → Type 0
  Delivered r unwrap json a =
      (truthy? (prop (text "error") json) ≡ false)
      × (((unwrap_enveloped_data json unwrap ≡ none)
            × (is_empty_completion json ≡ false)
            × (a ≡ verbatim r))
          ⊎ ((inner : Json) × (unwrap_enveloped_data json unwrap ≡ some inner)
              × (is_empty_completion inner ≡ false)
              × (a ≡ unwrapped r inner)))

  abbrev pub Fit : Reply → Bool → Response → Type 0
  Fit r unwrap a =
      ((parse r.content ≡ none) × (a ≡ verbatim r))
      ⊎ ((json : Json) × (parse r.content ≡ some json)
          × ((Unreadable json × (a ≡ verbatim r)) ⊎ Delivered r unwrap json a))

  respond-answer :
      (status : ℕ) (headers : Map Text Text) (body : Body)
      → is_null_body status ≡ false
      → respond w status headers body
        ≡ answer (record { status = status; headers = headers; body = body }) none
  unfolding respond
  respond-answer status headers body h = rw h refl

  success_class : (s : ℕ) (m : Text) → 200 ≤ s → s < 300 → classify_attempt s m ≡ none
  success_class s m low high = (classify_attempt_lem s m).0.1 (low, high)

  after_check-cases :
      (r : Reply) (ms : ℕ) (c : Checked)
      → ((body : List ℕ) × (c ≡ passed body))
        ⊎ ((o : AttemptOutcome) × (after_check w r ms c ≡ failed o))
  unfolding caught
  after_check-cases r ms (passed body) = inl (body, refl)
  after_check-cases r ms (refused reason) = inr (_, refl)
  after_check-cases r ms (thrown message) = inr (_, refl)

  passes :
      (c : Checked)
      → ((body : List ℕ) × (c ≡ passed body)) ⊎ ((body : List ℕ) → c ≡ passed body → ⊥)
  passes (passed body) = inl (body, refl)
  passes (refused reason) = inr (λ body e. cc)
  passes (thrown message) = inr (λ body e. cc)

  -- A request that asks for a stream, with a 2xx reply that may have a body, is answered by the whole
  -- stream under the reply's status and headers if the stream delivers anything, and fails if not.
  post_chat_completion-stream :
      (ms : ℕ) (unwrap : Bool) (r : Reply) (s : Stream)
      → 200 ≤ r.status
      → r.status < 300
      → is_null_body r.status ≡ false
      → r.stream ≡ some s
      → (Delivers parse [] s.chunks
          × (post_chat_completion w true ms unwrap (replied r)
              ≡ answer
                  (record {
                    status = r.status;
                    headers = r.headers;
                    body = byte_body (all_bytes parse s.chunks);
                  })
                  none))
        ⊎ ((¬ Delivers parse [] s.chunks)
            × ((o : AttemptOutcome) × (post_chat_completion w true ms unwrap (replied r)
                  ≡ failed o)))
  unfolding post_chat_completion
  post_chat_completion-stream ms unwrap r s low high bodied streamed =
      let success = success_class r.status (text "upstream " ++ decimal r.status) low high in
      elim (passes (check_stream_content parse (some s))) [
        | inl (body, pass') ↦
            let delivered = ((check_stream_content-Delivers parse s body).0 pass').0 in
            let checked =
              (check_stream_content-Delivers parse s (all_bytes parse s.chunks)).1
                (delivered, refl) in
            inl (
              delivered,
              rw (success, post_chat_completion, streamed, checked)
                  (respond-answer r.status r.headers (byte_body (all_bytes parse s.chunks)) bodied),
            )
        | inr never ↦
            let nothing : ¬ Delivers parse [] s.chunks = λ d.
              never (all_bytes parse s.chunks)
                ((check_stream_content-Delivers parse s (all_bytes parse s.chunks)).1 (d, refl)) in
            inr (
              nothing,
              rw (success, post_chat_completion, streamed)
                  (elim (after_check-cases r ms (check_stream_content parse (some s))) [
                    | inl (body, pass') ↦ absurd (never body pass')
                    | inr failure ↦ failure
                  ]),
            )
      ]

  -- A 2xx reply, of a status that may have a body, that reports an error whose text cannot
  -- be read is served to the client as a success.
  error_served_as_success :
      (ms : ℕ) (unwrap : Bool) (r : Reply) (json : Json)
      → 200 ≤ r.status
      → r.status < 300
      → is_null_body r.status ≡ false
      → parse r.content ≡ some json
      → Unreadable json
      → post_chat_completion w false ms unwrap (replied r)
        ≡ answer
            (record { status = r.status; headers = r.headers; body = text_body r.content })
            none
  unfolding post_chat_completion post_text
  error_served_as_success ms unwrap r json low high bodied good (e, here, bad, unread) =
      rw
        (
          success_class r.status (text "upstream " ++ decimal r.status) low high,
          post_chat_completion,
          post_text,
          good,
          here,
          bad,
          unread,
        )
        (respond-answer r.status r.headers (text_body r.content) bodied)
