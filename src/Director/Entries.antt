-- ===== src/Director/Entries.antt =====
-- What merging and sorting do to the entries of the overrides file: src/director/apply.ts.
use msrouter.Prelude.{
  get-set, ◌≡◌, refl, ap, ◌∙◌, inl, inr, true, false, ◌||◌, Option, none, some, List, [], ◌∷◌,
  arith, ◌==◌, nat_eq, text_eq, if◌then◌else◌, split, contains, trim, Text, Map, get, set,
  Bool-cases, text_beq_iff,
}
use msrouter.Routing.Distinct.{Distinct}
use msrouter.Director.Patches.{is_key}
use msrouter.Director.Overrides.{
  entry_in, set_entry, read_lines, read_overrides, insert_entry, sorted, merged, text_leb,
}
use msrouter.Director.Lines.{Writable, keys, IsValue}

pub get-merged :
    (q : Text) (n m : Map Text Text)
    → Distinct (keys n)
    → get q (merged m n) ≡ (if contains q (keys n) then get q n else get q m)
get-merged q [] m d = refl
get-merged q ((k, v) ∷ n) m d =
    get-merged q n (set k v m) d.1 ∙ rw (get-set q k v m) (ground (arith, d.0, text_beq_iff k q))

contains-insert_entry :
    (q : Text) (x : Text × Text) (m : Map Text Text)
    → contains q (keys (insert_entry x m)) ≡ (x.0 == q || contains q (keys m))
contains-insert_entry q x [] = refl
contains-insert_entry q x (y ∷ m) = ground (arith, contains-insert_entry q x m)

contains-sorted :
    (q : Text) (m : Map Text Text) → contains q (keys (sorted m)) ≡ contains q (keys m)
contains-sorted q [] = refl
contains-sorted q (x ∷ m) =
    contains-insert_entry q x (sorted m) ∙ ap (λ b. x.0 == q || b) (contains-sorted q m)

get-insert_entry :
    (q k v : Text) (m : Map Text Text)
    → contains k (keys m) ≡ false
    → get q (insert_entry (k, v) m) ≡ (if k == q then some v else get q m)
get-insert_entry q k v [] h = refl
get-insert_entry q k v ((j, w) ∷ m) h = elim (Bool-cases (text_leb k j)) [
  | inl first ↦ rw first refl
  | inr later ↦
      rw (later, get-insert_entry q k v m (ground (arith, h)))
        (ground (arith, h, text_beq_iff k q, text_beq_iff j q, text_beq_iff j k))
]

insert_entry-Distinct :
    (x : Text × Text) (m : Map Text Text)
    → contains x.0 (keys m) ≡ false
    → Distinct (keys m)
    → Distinct (keys (insert_entry x m))
insert_entry-Distinct x [] h d = (refl, tt)
insert_entry-Distinct x (y ∷ m) h d = elim (Bool-cases (text_leb x.0 y.0)) [
  | inl first ↦ rw first (h, d)
  | inr later ↦ rw later (
    contains-insert_entry y.0 x m
        ∙ ground (arith, h, d.0, text_beq_iff x.0 y.0, text_beq_iff y.0 x.0),
    insert_entry-Distinct x m (ground (arith, h)) d.1,
  )
]

pub sorted-Distinct : (m : Map Text Text) → Distinct (keys m) → Distinct (keys (sorted m))
sorted-Distinct [] d = tt
sorted-Distinct (x ∷ m) d =
    insert_entry-Distinct x (sorted m) (contains-sorted x.0 m ∙ d.0) (sorted-Distinct m d.1)

pub get-sorted : (q : Text) (m : Map Text Text) → Distinct (keys m) → get q (sorted m) ≡ get q m
get-sorted q [] d = refl
get-sorted q ((k, v) ∷ m) d =
    get-insert_entry q k v (sorted m) (contains-sorted k m ∙ d.0) ∙ rw (get-sorted q m d.1) refl

insert_entry-Writable :
    (x : Text × Text) (m : Map Text Text)
    → (is_key x.0 ≡ true) × IsValue x.1
    → Writable m
    → Writable (insert_entry x m)
insert_entry-Writable x [] h w = (h, tt)
insert_entry-Writable x (y ∷ m) h w = elim (Bool-cases (text_leb x.0 y.0)) [
  | inl first ↦ rw first (h, w)
  | inr later ↦ rw later (w.0, insert_entry-Writable x m h w.1)
]

pub sorted-Writable : (m : Map Text Text) → Writable m → Writable (sorted m)
sorted-Writable [] w = tt
sorted-Writable (x ∷ m) w = insert_entry-Writable x (sorted m) w.0 (sorted-Writable m w.1)

contains-set :
    (q k v : Text) (m : Map Text Text)
    → contains q (keys (set k v m)) ≡ (contains q (keys m) || k == q)
contains-set q k v [] = ground arith
contains-set q k v ((j, w) ∷ m) =
    ground (arith, contains-set q k v m, text_beq_iff j k, text_beq_iff k q, text_beq_iff j q)

set-Distinct : (k v : Text) (m : Map Text Text) → Distinct (keys m) → Distinct (keys (set k v m))
set-Distinct k v [] d = (refl, tt)
set-Distinct k v ((j, w) ∷ m) d = elim (Bool-cases (j == k)) [
  | inl same ↦ rw same d
  | inr other ↦ rw other (
    contains-set j k v m ∙ ground (arith, d.0, other, text_beq_iff j k, text_beq_iff k j),
    set-Distinct k v m d.1,
  )
]

set-Writable :
    (k v : Text) (m : Map Text Text)
    → (is_key k ≡ true) × IsValue v
    → Writable m
    → Writable (set k v m)
set-Writable k v [] h w = (h, tt)
set-Writable k v ((j, x) ∷ m) h w = elim (Bool-cases (j == k)) [
  | inl same ↦ rw same ((w.0.0, h.1), w.1)
  | inr other ↦ rw other (w.0, set-Writable k v m h w.1)
]

pub merged-Distinct : (n m : Map Text Text) → Distinct (keys m) → Distinct (keys (merged m n))
merged-Distinct [] m d = d
merged-Distinct ((k, v) ∷ n) m d = merged-Distinct n (set k v m) (set-Distinct k v m d)

pub merged-Writable : (n m : Map Text Text) → Writable n → Writable m → Writable (merged m n)
merged-Writable [] m h w = w
merged-Writable ((k, v) ∷ n) m h w = merged-Writable n (set k v m) h.1 (set-Writable k v m h.0 w)

set_entry-Distinct :
    (e : Option (Text × Text)) (m : Map Text Text)
    → Distinct (keys m)
    → Distinct (keys (set_entry e m))
set_entry-Distinct none m d = d
set_entry-Distinct (some (k, v)) m d = set-Distinct k v m d

read_lines-Distinct :
    (ls : List Text) (m : Map Text Text) → Distinct (keys m) → Distinct (keys (read_lines ls m))
unfolding read_lines
read_lines-Distinct [] m d = d
read_lines-Distinct (l ∷ ls) m d =
    read_lines-Distinct ls (set_entry (entry_in (trim l)) m)
      (set_entry-Distinct (entry_in (trim l)) m d)

pub read_overrides-Distinct : (file : Option Text) → Distinct (keys (read_overrides file))
unfolding read_overrides
read_overrides-Distinct none = tt
read_overrides-Distinct (some raw) = read_lines-Distinct (split (10 ∷ []) raw) [] tt

found_or_none :
    (q : Text) (m : Map Text Text) → (if contains q (keys m) then get q m else none) ≡ get q m
found_or_none q [] = refl
found_or_none q ((k, v) ∷ m) = ground (arith, found_or_none q m)

pub get-merged_nil :
    (q : Text) (m : Map Text Text) → Distinct (keys m) → get q (merged [] m) ≡ get q m
get-merged_nil q m d = get-merged q m [] d ∙ found_or_none q m
