-- ===== src/Director/Ledger.antt =====
-- The proposals that a ledger leaves open: `readPending`, src/director/ledger.ts, over the entries that
-- `readLedger` returns. A patch is any type; an absent or empty id is the empty text. Reading and
-- parsing the file is left out.
use msrouter.Prelude.{
  ◌≡◌, refl, ◌∙◌, inl, inr, Bool, true, false, not, ◌||◌, ◌&&◌, Option, none, some, List, [], ◌∷◌,
  map, arith, ◌==◌, text_eq, if◌then◌else◌, keep, contains, Text, is_set, Map, get, set, get-set,
  some_of, Bool-cases, &&-true, text_beq_iff,
}

-- `kind`
pub data LedgerKind : Type 0 where
  proposed decided applied restart observation error : LedgerKind

pub record LedgerEntry (P : Type 0) : Type 0 where
  pub kind : LedgerKind
  pub patch_id : Text
  -- `decision?.decision === 'approved'`
  pub approved : Bool
  pub patch : Option P

abbrev pub is_decided : LedgerKind → Bool
is_decided decided = true
is_decided _ = false

-- a patch under its id, from an entry that proposes one
abbrev pub proposal : {P : Type 0} → LedgerKind → Text → Option P → Map Text P → Map Text P
proposal proposed (c ∷ cs) (some p) m = set (c ∷ cs) p m
proposal _ _ _ m = m

module _ {P : Type 0} where
  -- the loop of `readPending`, with the sets `decided` and `proposed`
  unfoldable pub pending_loop :
      List (LedgerEntry P) → List Text → Map Text P → List Text × Map Text P
  pending_loop [] ids m = (ids, m)
  pending_loop (e ∷ es) ids m =
      if is_decided e.kind && is_set e.patch_id
      then pending_loop es (e.patch_id ∷ ids) m
      else pending_loop es ids (proposal e.kind e.patch_id e.patch m)

  abbrev pub undecided : List Text × Map Text P → Map Text P
  undecided r = keep (λ x. not (contains x.0 r.0)) r.1

  unfoldable pub open_proposals : List (LedgerEntry P) → Map Text P
  unfolding pending_loop
  open_proposals es = undecided (pending_loop es [] [])

  unfoldable pub read_pending : List (LedgerEntry P) → List P
  unfolding open_proposals
  read_pending es = map (λ x. x.1) (open_proposals es)

  -- What a ledger says of one id: whether some entry decides it, and the last patch proposed under it.
  abbrev pub decides : Text → LedgerEntry P → Bool
  decides id e = is_decided e.kind && (is_set e.patch_id && e.patch_id == id)

  abbrev pub proposed_in : Text → LedgerKind → Text → Option P → Option P → Option P
  proposed_in id proposed (c ∷ cs) (some p) before = if (c ∷ cs) == id then some p else before
  proposed_in id _ _ _ before = before

  abbrev pub last_proposed : Text → Option P → List (LedgerEntry P) → Option P
  last_proposed id before [] = before
  last_proposed id before (e ∷ es) =
      last_proposed id (proposed_in id e.kind e.patch_id e.patch before) es

  pub get-proposal :
      (id : Text) (k : LedgerKind) (name : Text) (p : Option P) (m : Map Text P)
      → get id (proposal k name p m) ≡ proposed_in id k name p (get id m)
  get-proposal id proposed (c ∷ cs) (some p) m = get-set id (c ∷ cs) p m
  get-proposal id proposed [] p m = refl
  get-proposal id proposed (c ∷ cs) none m = refl
  get-proposal id _ name p m = refl

  get-undecided :
      (id : Text) (ids : List Text) (m : Map Text P)
      → get id (undecided (ids, m)) ≡ (if contains id ids then none else get id m)
  get-undecided id ids [] = ground arith
  get-undecided id ids ((j, p) ∷ m) = elim (Bool-cases (j == id)) [
    | inl same ↦ rw ((text_beq_iff j id).0 same) (ground (arith, get-undecided id ids m))
    | inr other ↦ ground (arith, get-undecided id ids m)
  ]

  pub proposed_in-decided :
      (id : Text) (k : LedgerKind) (name : Text) (p before : Option P)
      → is_decided k ≡ true
      → proposed_in id k name p before ≡ before
  proposed_in-decided id decided name p before h = refl
  proposed_in-decided id _ name p before h = cc

  get-pending_loop :
      (id : Text) (es : List (LedgerEntry P)) (ids : List Text) (m : Map Text P)
      → get id (undecided (pending_loop es ids m)) ≡ (
          if contains id ids || some_of (decides id) es
          then none
          else last_proposed id (get id m) es)
  unfolding pending_loop
  get-pending_loop id [] ids m = get-undecided id ids m ∙ ground arith
  get-pending_loop id (e ∷ es) ids m = elim (Bool-cases (is_decided e.kind && is_set e.patch_id)) [
    | inl decision ↦
        let kind_ok : is_decided e.kind ≡ true =
          (&&-true (is_decided e.kind) (is_set e.patch_id) decision).0 in
        let id_ok : is_set e.patch_id ≡ true =
          (&&-true (is_decided e.kind) (is_set e.patch_id) decision).1 in
        let same = proposed_in-decided id e.kind e.patch_id e.patch (get id m) kind_ok in
        rw decision
          (get-pending_loop id es (e.patch_id ∷ ids) m ∙ rw same (ground (arith, kind_ok, id_ok)))
    | inr neither ↦ rw neither (
        get-pending_loop id es ids (proposal e.kind e.patch_id e.patch m)
        ∙ rw (get-proposal id e.kind e.patch_id e.patch m) (ground arith))
  ]

  -- A proposal is open exactly if no entry of the ledger, before or after it, decides its id; it is then
  -- the last patch that was proposed under that id.
  pub open_proposals_lem :
      (id : Text) (es : List (LedgerEntry P))
      → get id (open_proposals es)
        ≡ (if some_of (decides id) es then none else last_proposed id none es)
  unfolding open_proposals
  open_proposals_lem id es = get-pending_loop id es [] []
