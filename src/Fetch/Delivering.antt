-- ===== src/Fetch/Delivering.antt =====
-- That a stream passes exactly if it delivers something: `checkStreamContent`,
-- src/providers/stream-check.ts.
use msrouter.Prelude.{
  ℕ, ◌≡◌, ◌⊎◌, ◌↔◌, inl, inr, refl, ap, sym, ◌∙◌, Bool, not, ◌||◌, Option, List, [], ◌∷◌, ◌++◌, map,
  ◌==◌, text_eq, if◌then◌else◌, Text, text, trim, is_set, includes, split, keep, concat, All,
  Bool-cases, subst, some,
}
use msrouter.Json.{Json}
use msrouter.Fetch.Stream.{
  Chunk, Stream, Verdict, undecided, has_content, has_error, passed, blank_line, or_later,
  line_verdict, lines_verdict, events_verdict, scan, all_bytes, check_stream_content,
  check_stream_content-Delivers, Delivers,
}
use msrouter.Fetch.Delivery.{ErrorLine, ContentLine, Means, line_verdict-Means}

-- an event that is looked into
abbrev is_event : Text → Bool
is_event ev = not (not (is_set (trim ev)) || ev == text "[DONE]")

-- The lines of the events of a text, the last one included, if the text has a blank line.
abbrev pub event_lines : Text → List Text
event_lines t =
    if includes blank_line t
    then concat (map (split (10 ∷ [])) (keep is_event (split blank_line t)))
    else []

Means-cases :
    (bad good : Type 0) (v : Verdict)
    → Means bad good v
    → ((v ≡ undecided) × (¬ bad) × (¬ good))
      ⊎ (((v ≡ has_content) × (¬ bad) × good) ⊎ ((v ≡ has_error) × bad × (¬ good)))
Means-cases bad good undecided (nb, ng) = inl (refl, nb, ng)
Means-cases bad good has_content (nb, full) = inr (inl (refl, nb, full))
Means-cases bad good has_error (worse, ng) = inr (inr (refl, worse, ng))

or_later_assoc : (a b c : Verdict) → or_later (or_later a b) c ≡ or_later a (or_later b c)
or_later_assoc undecided b c = refl
or_later_assoc has_content b c = refl
or_later_assoc has_error b c = refl

module _ (parse : Text → Option Json) where
  lines_verdict-append :
      (xs ys : List Text)
      → lines_verdict parse (xs ++ ys) ≡ or_later (lines_verdict parse xs) (lines_verdict parse ys)
  unfolding lines_verdict
  lines_verdict-append [] ys = refl
  lines_verdict-append (x ∷ xs) ys =
      ap (or_later (line_verdict parse x)) (lines_verdict-append xs ys)
      ∙ sym (or_later_assoc (line_verdict parse x) _ _)

  events_verdict-lines :
      (evs : List Text)
      → events_verdict parse evs
        ≡ lines_verdict parse (concat (map (split (10 ∷ [])) (keep is_event evs)))
  unfolding events_verdict lines_verdict
  events_verdict-lines [] = refl
  events_verdict-lines (ev ∷ evs) =
      elim (Bool-cases (not (is_set (trim ev)) || ev == text "[DONE]")) [
        | inl skipped ↦ rw (skipped, events_verdict) (events_verdict-lines evs)
        | inr event ↦
            rw (event, events_verdict)
              (ap (or_later (lines_verdict parse (split (10 ∷ []) ev))) (events_verdict-lines evs)
                ∙ sym (lines_verdict-append (split (10 ∷ []) ev) _))
      ]

  scan-lines : (t : Text) → scan parse t ≡ lines_verdict parse (event_lines t)
  unfolding scan lines_verdict
  scan-lines t = elim (Bool-cases (includes blank_line t)) [
    | inl split' ↦ rw (split', scan) (events_verdict-lines (split blank_line t))
    | inr whole ↦ rw (whole, scan) refl
  ]

  -- Of some lines, one holds content, and none before it holds an error.
  pub data ContentFirst : List Text → Type 0 where
    here : {l : Text} {ls : List Text} → ContentLine parse l → ContentFirst (l ∷ ls)
    there :
        {l : Text} {ls : List Text}
        → (ErrorLine parse l → ⊥)
        → ContentFirst ls
        → ContentFirst (l ∷ ls)

  -- No line holds an error.
  abbrev pub NoError : List Text → Type 0
  NoError = All (λ l. ¬ ErrorLine parse l)

  -- Reading on from a text, some beginning has lines of which content comes first, and no shorter
  -- one has a line that holds an error.
  pub data DeliversFrom : Text → List Chunk → Type 0 where
    now :
        {t : Text} {c : Chunk} {cs : List Chunk}
        → ContentFirst (event_lines (t ++ c.decoded))
        → DeliversFrom t (c ∷ cs)
    later :
        {t : Text} {c : Chunk} {cs : List Chunk}
        → NoError (event_lines (t ++ c.decoded))
        → DeliversFrom (t ++ c.decoded) cs
        → DeliversFrom t (c ∷ cs)

  -- what the verdict on some lines says of them
  abbrev LinesMeans : Verdict → List Text → Type 0
  LinesMeans undecided ls = NoError ls × (ContentFirst ls → ⊥)
  LinesMeans has_content ls = ContentFirst ls
  LinesMeans has_error ls = (NoError ls → ⊥) × (ContentFirst ls → ⊥)

  later-Means :
      (l : Text) (ls : List Text) (v : Verdict)
      → ¬ ErrorLine parse l
      → ¬ ContentLine parse l
      → LinesMeans v ls
      → LinesMeans v (l ∷ ls)
  later-Means l ls undecided nb ng (no_error, none_first) =
      ((nb, no_error), λ c. elim c [ here x ↦ ng x | there _ x ↦ none_first x ])
  later-Means l ls has_content nb ng h = there nb h
  later-Means l ls has_error nb ng (some_error, none_first) =
      (λ n. some_error n.1, λ c. elim c [ here x ↦ ng x | there _ x ↦ none_first x ])

  lines_verdict-Means : (ls : List Text) → LinesMeans (lines_verdict parse ls) ls
  unfolding lines_verdict
  lines_verdict-Means [] = (tt, λ c. elim c [ ])
  lines_verdict-Means (l ∷ ls) =
      elim (Means-cases _ _ (line_verdict parse l) (line_verdict-Means parse l)) [
        | inl (v, nb, ng) ↦ rw v (later-Means l ls _ nb ng (lines_verdict-Means ls))
        | inr (inl (v, nb, full)) ↦ rw v (here full)
        | inr (inr (v, worse, ng)) ↦
            rw v (λ n. n.0 worse, λ c. elim c [ here x ↦ ng x | there nb _ ↦ nb worse ])
      ]

  content-verdict :
      (v : Verdict) (ls : List Text) → LinesMeans v ls → ContentFirst ls → v ≡ has_content
  content-verdict undecided ls (_, n) c = absurd (n c)
  content-verdict has_content ls h c = refl
  content-verdict has_error ls (_, n) c = absurd (n c)

  quiet-verdict :
      (v : Verdict) (ls : List Text)
      → LinesMeans v ls
      → NoError ls
      → (v ≡ undecided) ⊎ (v ≡ has_content)
  quiet-verdict undecided ls h n = inl refl
  quiet-verdict has_content ls h n = inr refl
  quiet-verdict has_error ls (worse, _) n = absurd (worse n)

  scan-Means : (t : Text) → LinesMeans (scan parse t) (event_lines t)
  scan-Means t =
      subst (λ v. LinesMeans v (event_lines t)) (sym (scan-lines t))
        (lines_verdict-Means (event_lines t))

  Delivers-From : (t : Text) (cs : List Chunk) → Delivers parse t cs → DeliversFrom t cs
  Delivers-From t [] d = absurd d
  Delivers-From t (c ∷ cs) (inl found) =
      now (
        subst (λ v. LinesMeans v (event_lines (t ++ c.decoded))) found
          (scan-Means (t ++ c.decoded)))
  Delivers-From t (c ∷ cs) (inr (more, d)) =
      later
        (subst (λ v. LinesMeans v (event_lines (t ++ c.decoded))) more
          (scan-Means (t ++ c.decoded))).0
        (Delivers-From (t ++ c.decoded) cs d)

  From-Delivers : (t : Text) (cs : List Chunk) → DeliversFrom t cs → Delivers parse t cs
  From-Delivers t [] d = elim d [ ]
  From-Delivers t (c ∷ cs) (now found) =
      inl (content-verdict _ _ (scan-Means (t ++ c.decoded)) found)
  From-Delivers t (c ∷ cs) (later quiet d) =
      elim (quiet-verdict _ _ (scan-Means (t ++ c.decoded)) quiet) [
        | inl more ↦ inr (more, From-Delivers (t ++ c.decoded) cs d)
        | inr found ↦ inl found
      ]

  -- A stream passes exactly if some beginning of it, which ends with a chunk and holds a blank line,
  -- has among the lines of its events one with a delta that has text or tool calls, with no error in a
  -- line before it, and no shorter beginning has a line with an error; and what is then forwarded is
  -- the whole stream, no byte lost, added or repeated.
  pub check_stream_content_lem :
      (s : Stream) (body : List ℕ)
      → (check_stream_content parse (some s) ≡ passed body)
        ↔ (DeliversFrom [] s.chunks × (body ≡ all_bytes parse s.chunks))
  check_stream_content_lem s body =
      let (to, from) = check_stream_content-Delivers parse s body in
      (
        λ h. (Delivers-From [] s.chunks (to h).0, (to h).1),
        λ h. from (From-Delivers [] s.chunks h.0, h.1),
      )
