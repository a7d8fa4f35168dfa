-- ===== src/Director/Events.antt =====
-- What the Director reads of a campaign's event file: `parseEventsLine` and `tailEvents`,
-- src/director/observe.ts. `JSON.parse` and the length of a text in bytes are parameters; a file that
-- can be opened is its size and the text that stands after the offset.
use msrouter.Prelude.{
  ℕ, zero, suc, ◌+◌, ◌-◌, ◌≤◌, ◌<◌, ◌≡◌, refl, ap, sym, ◌∙◌, inl, inr, Bool, true, false, Option,
  none, some, List, [], ◌∷◌, arith, ◌==◌, nat_eq, leb, if◌then◌else◌, length, split, take, trim,
  Text, text, is_set, Bool-cases, Option-cases,
}
use msrouter.Json.{Json, string, prop, is_object?}

pub record CampaignEvent : Type 0 where
  pub at : Text
  pub action : Text
  pub record_of : Json

abbrev pub event_if : Option Json → Option Json → Option Json → Option CampaignEvent
event_if (some (string at)) (some (string action)) (some r) =
    if is_object? (some r) then some (record { at = at; action = action; record_of = r }) else none
event_if _ _ _ = none

abbrev event_of : Option Json → Option CampaignEvent
event_of none = none
event_of (some v) = event_if (prop (text "at") v) (prop (text "action") v) (prop (text "record") v)

abbrev newline : Text
newline = 10 ∷ []

abbrev pub last_line : List Text → Text
last_line [] = []
last_line (l ∷ []) = l
last_line (l ∷ m ∷ ls) = last_line (m ∷ ls)

abbrev ends_line : Text → Bool
ends_line [] = false
ends_line (c ∷ []) = c == 10
ends_line (c ∷ d ∷ s) = ends_line (d ∷ s)

-- the text without a record that is still being written
unfoldable pub consumed_text : Text → Text
consumed_text s =
    if ends_line s then s else take (length s - length (last_line (split newline s))) s

take-nil : {A : Type 0} (n : ℕ) → take {A = A} n [] ≡ []
take-nil zero = refl
take-nil (suc n) = refl

length-take : {A : Type 0} (n : ℕ) (xs : List A) → length (take n xs) ≤ n
length-take zero xs = omega arith
length-take (suc n) [] = omega arith
length-take (suc n) (x ∷ xs) = omega (arith, length-take n xs)

leb_refl : (n : ℕ) → leb n n ≡ true
leb_refl n = ground arith

module _ (parse : Text → Option Json) (byte_length : Text → ℕ) where
  unfoldable pub parse_events_line : Text → Option CampaignEvent
  parse_events_line line = if is_set (trim line) then event_of (parse (trim line)) else none

  -- the loop, with the number of the events that it has
  unfoldable pub events_loop : ℕ → ℕ → List Text → List CampaignEvent
  unfolding parse_events_line
  events_loop max n [] = []
  events_loop max n (line ∷ lines) = elim (leb max n) [
    | true ↦ []
    | false ↦ elim (parse_events_line line) [
      | none ↦ events_loop max n lines
      | some e ↦ e ∷ events_loop max (n + 1) lines
    ]
  ]

  unfoldable pub tail_events : Option (ℕ × Text) → ℕ → ℕ → List CampaignEvent × ℕ
  unfolding events_loop consumed_text
  tail_events none offset max = ([], offset)
  tail_events (some (size, s)) offset max = if leb size offset then ([], offset) else (
    events_loop max 0 (split newline (consumed_text s)),
    offset + byte_length (consumed_text s),
  )

  -- All the events of some lines.
  abbrev cons_event : Option CampaignEvent → List CampaignEvent → List CampaignEvent
  cons_event none es = es
  cons_event (some e) es = e ∷ es

  abbrev pub events_in : List Text → List CampaignEvent
  events_in [] = []
  events_in (line ∷ lines) = cons_event (parse_events_line line) (events_in lines)

  events_loop-take :
      (max n : ℕ) (lines : List Text) → events_loop max n lines ≡ take (max - n) (events_in lines)
  unfolding events_loop
  events_loop-take max n [] = sym (take-nil (max - n))
  events_loop-take max n (line ∷ lines) = elim (Bool-cases (leb max n)) [
    | inl full ↦ let all_read : max - n ≡ 0 = ground arith in rw (events_loop, full, all_read) refl
    | inr room ↦
        let one_more : max - n ≡ suc (max - (n + 1)) = ground arith in
        elim (Option-cases (parse_events_line line)) [
          | inl skipped ↦ rw (events_loop, room, skipped) (events_loop-take max n lines)
          | inr (e, parsed) ↦
              rw (events_loop, room, parsed, one_more)
                (ap (◌∷◌ e) (events_loop-take max (n + 1) lines))
        ]
  ]

  -- A read of a file that has grown returns the first events, up to the maximum, of the complete lines
  -- after the offset, and moves the offset past all of those lines.
  tail_events_lem :
      (size offset max : ℕ) (s : Text)
      → offset < size
      → tail_events (some (size, s)) offset max ≡ (
        take max (events_in (split newline (consumed_text s))),
        offset + byte_length (consumed_text s),
      )
  unfolding tail_events
  tail_events_lem size offset max s more =
      let open_ended : leb size offset ≡ false = ground (arith, more) in
      let none_before : max - 0 ≡ max = omega arith in
      rw (open_ended, events_loop-take max 0 (split newline (consumed_text s)), none_before) refl

  tail_events-end : (size max : ℕ) (s : Text) → length (tail_events (some (size, s)) size max).0 ≡ 0
  unfolding tail_events
  tail_events-end size max s = rw (leb_refl size) refl

  -- Where the lines of a file that has grown, and ends with a complete line, hold more than the maximum
  -- of events, a read and the next one of the same file together return fewer events than there are:
  -- the others are lost.
  pub tail_events-loses :
      (size offset max : ℕ) (s : Text) (after : Text)
      → offset < size
      → ends_line s ≡ true
      → size ≡ offset + byte_length s
      → max < length (events_in (split newline s))
      → let first = tail_events (some (size, s)) offset max in
        length first.0 + length (tail_events (some (size, after)) first.1 max).0
        < length (events_in (split newline s))
  unfolding consumed_text
  tail_events-loses size offset max s after more whole sized many =
      let first = tail_events_lem size offset max s more in
      let all : consumed_text s ≡ s = rw whole refl in
      let read : length (tail_events (some (size, s)) offset max).0 ≤ max =
        rw first (length-take max (events_in (split newline (consumed_text s)))) in
      let past : (tail_events (some (size, s)) offset max).1 ≡ size =
        ap (λ r. r.1) first ∙ ap (λ t. offset + byte_length t) all ∙ sym sized in
      let nothing =
        ap (λ o. length (tail_events (some (size, after)) o max).0) past
        ∙ tail_events-end size max after in
      omega (arith, read, nothing, many)
