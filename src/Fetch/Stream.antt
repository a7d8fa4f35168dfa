-- ===== src/Fetch/Stream.antt =====
-- Whether a stream of server-sent events has anything to deliver: `checkStreamContent`,
-- src/providers/stream-check.ts. A chunk comes with the text that the decoder makes of it; `JSON.parse`
-- is a parameter.
use msrouter.Prelude.{
  ℕ, ◌≡◌, ◌⊎◌, ◌↔◌, inl, inr, refl, ap, sym, ◌∙◌, Bool, true, false, not, ◌||◌, Option, none, some,
  List, [], ◌∷◌, ◌++◌, ◌==◌, text_eq, if◌then◌else◌, drop, Text, text, starts_with, trim, is_set,
  includes, split,
}
use mathlib.Core.List.{append_assoc}
use msrouter.Json.{
  Json, Items, nil, cons, array, prop, prop?, truthy?, is_filled_string, is_filled_array,
}

pub record Chunk : Type 0 where
  pub bytes : List ℕ
  pub decoded : Text

-- What the reader gives: the chunks, and the error that breaks the stream off, if one does.
pub record Stream : Type 0 where
  pub chunks : List Chunk
  pub broken : Option Text

pub data Verdict : Type 0 where
  undecided has_content has_error : Verdict

pub data Checked : Type 0 where
  passed : (body : List ℕ) → Checked
  refused : (reason : Text) → Checked
  thrown : (message : Text) → Checked

-- what stands between two events
abbrev pub blank_line : Text
blank_line = 10 ∷ 10 ∷ []

abbrev pub delta_delivers : Json → Bool
delta_delivers c =
    let delta = prop (text "delta") c in
    is_filled_string (prop? (text "content") delta)
    || is_filled_array (prop? (text "tool_calls") delta)

abbrev pub some_delivers : Items → Bool
some_delivers nil = false
some_delivers (cons c cs) = delta_delivers c || some_delivers cs

abbrev pub list_delivers : Option Json → Bool
list_delivers (some (array cs)) = some_delivers cs
list_delivers _ = false

unfoldable pub event_verdict : Json → Verdict
event_verdict parsed =
    if truthy? (prop (text "error") parsed)
    then has_error
    else if list_delivers (prop (text "choices") parsed)
    then has_content
    else undecided

-- stop at the first verdict
abbrev pub or_later : Verdict → Verdict → Verdict
or_later undecided later = later
or_later has_content later = has_content
or_later has_error later = has_error

module _ (parse : Text → Option Json) where
  unfoldable pub line_verdict : Text → Verdict
  unfolding event_verdict
  line_verdict line =
      if not (starts_with (text "data: ") line)
      then undecided
      else let json_str = trim (drop 6 line) in
        if json_str == text "[DONE]"
        then undecided
        else elim (parse json_str) [ none ↦ undecided | some parsed ↦ event_verdict parsed ]

  unfoldable pub lines_verdict : List Text → Verdict
  unfolding line_verdict
  lines_verdict [] = undecided
  lines_verdict (l ∷ ls) = or_later (line_verdict l) (lines_verdict ls)

  unfoldable pub events_verdict : List Text → Verdict
  unfolding lines_verdict
  events_verdict [] = undecided
  events_verdict (ev ∷ evs) =
      let later = events_verdict evs in
      if not (is_set (trim ev)) || ev == text "[DONE]"
      then later
      else or_later (lines_verdict (split (10 ∷ []) ev)) later

  unfoldable pub scan : Text → Verdict
  unfolding events_verdict
  scan buffer =
      if includes blank_line buffer then events_verdict (split blank_line buffer) else undecided

  abbrev pub all_bytes : List Chunk → List ℕ
  all_bytes [] = []
  all_bytes (c ∷ cs) = c.bytes ++ all_bytes cs

  -- a refusal, once the rest has been read off, which fails on a broken stream
  abbrev pub refuse : Option Text → Text → Checked
  refuse none reason = refused reason
  refuse (some message) reason = thrown message

  abbrev pub ended : Option Text → Bool → Checked
  ended broken true = refuse broken (text "SSE stream had no content or tool call tokens")
  ended broken false = refuse broken (text "stream ended with no data")

  -- The reading loop; `some_read` when a chunk was read, `seen` what was read, `buffer` its text.
  unfoldable pub read_loop : Option Text → Bool → List ℕ → Text → List Chunk → Checked
  unfolding scan
  read_loop broken some_read seen buffer [] = ended broken some_read
  read_loop broken some_read seen buffer (c ∷ cs) = elim (scan (buffer ++ c.decoded)) [
    | undecided ↦ read_loop broken true (seen ++ c.bytes) (buffer ++ c.decoded) cs
    | has_error ↦ refuse broken (text "SSE stream contained an error response")
    | has_content ↦ passed ((seen ++ c.bytes) ++ all_bytes cs)
  ]

  unfoldable pub check_stream_content : Option Stream → Checked
  unfolding read_loop
  check_stream_content none = refused (text "no response body")
  check_stream_content (some s) = read_loop s.broken false [] [] s.chunks

  -- Some beginning of the stream holds an event that delivers, and no beginning before it settles
  -- the question.
  abbrev pub Delivers : Text → List Chunk → Type 0
  Delivers buffer [] = ⊥
  Delivers buffer (c ∷ cs) =
      (scan (buffer ++ c.decoded) ≡ has_content)
      ⊎ ((scan (buffer ++ c.decoded) ≡ undecided) × Delivers (buffer ++ c.decoded) cs)

  Verdict-cases : (v : Verdict) → (v ≡ undecided) ⊎ ((v ≡ has_content) ⊎ (v ≡ has_error))
  Verdict-cases undecided = inl refl
  Verdict-cases has_content = inr (inl refl)
  Verdict-cases has_error = inr (inr refl)

  refuse-not_passed :
      (broken : Option Text) (reason : Text) (body : List ℕ)
      → refuse broken reason ≡ passed body
      → ⊥
  refuse-not_passed none reason body e = cc
  refuse-not_passed (some m) reason body e = cc

  ended-not_passed :
      (broken : Option Text) (b : Bool) (body : List ℕ) → ended broken b ≡ passed body → ⊥
  ended-not_passed broken true body e = refuse-not_passed broken _ body e
  ended-not_passed broken false body e = refuse-not_passed broken _ body e

  passed-inj : (a b : List ℕ) → passed a ≡ passed b → a ≡ b
  passed-inj a b e = cc e

  -- A passed stream is whole, and has something to deliver.
  read_loop-passed :
      (broken : Option Text) (some_read : Bool) (seen : List ℕ) (buffer : Text) (cs : List Chunk)
      (body : List ℕ)
      → read_loop broken some_read seen buffer cs ≡ passed body
      → Delivers buffer cs × (body ≡ seen ++ all_bytes cs)
  unfolding read_loop
  read_loop-passed broken some_read seen buffer [] body e =
      absurd (ended-not_passed broken some_read body e)
  read_loop-passed broken some_read seen buffer (c ∷ cs) body e =
      elim (Verdict-cases (scan (buffer ++ c.decoded))) [
        | inl more ↦
            let r =
              read_loop-passed broken true (seen ++ c.bytes) (buffer ++ c.decoded) cs body
                (rw (more, read_loop) at e) in
            (inr (more, r.0), r.1 ∙ append_assoc seen c.bytes (all_bytes cs))
        | inr (inl found) ↦ (
          inl found,
          sym (passed-inj _ _ (rw (found, read_loop) at e))
              ∙ append_assoc seen c.bytes (all_bytes cs),
        )
        | inr (inr bad) ↦ absurd (refuse-not_passed broken _ body (rw (bad, read_loop) at e))
      ]

  read_loop-Delivers :
      (broken : Option Text) (some_read : Bool) (seen : List ℕ) (buffer : Text) (cs : List Chunk)
      → Delivers buffer cs
      → read_loop broken some_read seen buffer cs ≡ passed (seen ++ all_bytes cs)
  unfolding read_loop
  read_loop-Delivers broken some_read seen buffer [] d = absurd d
  read_loop-Delivers broken some_read seen buffer (c ∷ cs) (inl found) =
      rw (found, read_loop) (ap passed (append_assoc seen c.bytes (all_bytes cs)))
  read_loop-Delivers broken some_read seen buffer (c ∷ cs) (inr (more, d)) =
      rw (more, read_loop)
        (read_loop-Delivers broken true (seen ++ c.bytes) (buffer ++ c.decoded) cs d
          ∙ ap passed (append_assoc seen c.bytes (all_bytes cs)))

  -- What passes is the whole stream, if some beginning of it settles the question with content.
  pub check_stream_content-Delivers :
      (s : Stream) (body : List ℕ)
      → (check_stream_content (some s) ≡ passed body)
        ↔ (Delivers [] s.chunks × (body ≡ all_bytes s.chunks))
  unfolding check_stream_content
  check_stream_content-Delivers s body = (
    read_loop-passed s.broken false [] [] s.chunks body,
    λ d. read_loop-Delivers s.broken false [] [] s.chunks d.0 ∙ ap passed (sym d.1),
  )
