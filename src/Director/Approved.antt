-- ===== src/Director/Approved.antt =====
-- The patches that wait to be applied: `readApprovedPatches`, src/director/ledger.ts, over the entries
-- that `readLedger` returns. The sets of ids keep the order in which they were added.
use msrouter.Prelude.{
  ◌≡◌, refl, ◌∙◌, inl, inr, Bool, true, false, not, ◌||◌, ◌&&◌, Option, none, some, List, [], ◌∷◌,
  map, arith, ◌==◌, text_eq, if◌then◌else◌, keep, contains, Text, is_set, Map, get, some_of,
  text_beq_iff, contains-add, add, contains-keep, Option-cases, ap,
}
use msrouter.Director.Ledger.{
  LedgerKind, applied, LedgerEntry, is_decided, proposal, last_proposed, proposed_in, get-proposal,
  proposed_in-decided,
}

abbrev pub is_applied : LedgerKind → Bool
is_applied applied = true
is_applied _ = false

pub record Noted (P : Type 0) : Type 0 where
  pub applied_ids : List Text
  pub approved_ids : List Text
  pub patches : Map Text P

not_both : (k : LedgerKind) → is_applied k ≡ true → is_decided k ≡ false
not_both applied h = refl
not_both _ h = cc

module _ {P : Type 0} where
  -- one round of the loop
  abbrev pub note_entry : LedgerEntry P → Noted P → Noted P
  note_entry e s =
      if is_applied e.kind && is_set e.patch_id
      then record s { applied_ids = add e.patch_id s.applied_ids }
      else if is_decided e.kind && (is_set e.patch_id && e.approved)
      then record s { approved_ids = add e.patch_id s.approved_ids }
      else record s { patches = proposal e.kind e.patch_id e.patch s.patches }

  unfoldable pub note_entries : List (LedgerEntry P) → Noted P → Noted P
  note_entries [] s = s
  note_entries (e ∷ es) s = note_entries es (note_entry e s)

  abbrev pub cons_found : Text → Option P → Map Text P → Map Text P
  cons_found id none m = m
  cons_found id (some p) m = (id, p) ∷ m

  -- the patch of each id that has one
  abbrev pub found : Map Text P → List Text → Map Text P
  found m [] = []
  found m (id ∷ ids) = cons_found id (get id m) (found m ids)

  abbrev pub waiting : Noted P → Map Text P
  waiting s = found s.patches (keep (λ id. not (contains id s.applied_ids)) s.approved_ids)

  unfoldable pub open_approvals : List (LedgerEntry P) → Map Text P
  unfolding note_entries
  open_approvals es =
      waiting (note_entries es (record { applied_ids = []; approved_ids = []; patches = [] }))

  unfoldable pub read_approved_patches : List (LedgerEntry P) → List P
  unfolding open_approvals
  read_approved_patches es = map (λ x. x.1) (open_approvals es)

  -- What a ledger says of one id: whether some entry applies it, and whether some entry approves it.
  abbrev pub applies : Text → LedgerEntry P → Bool
  applies id e = is_applied e.kind && (is_set e.patch_id && e.patch_id == id)

  abbrev pub approves : Text → LedgerEntry P → Bool
  approves id e = is_decided e.kind && ((is_set e.patch_id && e.approved) && e.patch_id == id)

  proposed_in-applied :
      (id : Text) (k : LedgerKind) (name : Text) (p before : Option P)
      → is_applied k ≡ true
      → proposed_in id k name p before ≡ before
  proposed_in-applied id applied name p before h = refl
  proposed_in-applied id _ name p before h = cc

  applied_ids-note :
      (id : Text) (e : LedgerEntry P) (s : Noted P)
      → contains id (note_entry e s).applied_ids ≡ (contains id s.applied_ids || applies id e)
  applied_ids-note id e s = ground (arith, contains-add id e.patch_id s.applied_ids)

  approved_ids-note :
      (id : Text) (e : LedgerEntry P) (s : Noted P)
      → contains id (note_entry e s).approved_ids ≡ (contains id s.approved_ids || approves id e)
  approved_ids-note id e s =
      ground (arith, contains-add id e.patch_id s.approved_ids, not_both e.kind)

  patches-note :
      (id : Text) (e : LedgerEntry P) (s : Noted P)
      → get id (note_entry e s).patches
        ≡ proposed_in id e.kind e.patch_id e.patch (get id s.patches)
  patches-note id e s = ground (
    arith,
    get-proposal id e.kind e.patch_id e.patch s.patches,
    proposed_in-applied id e.kind e.patch_id e.patch (get id s.patches),
    proposed_in-decided id e.kind e.patch_id e.patch (get id s.patches),
  )

  get-found :
      (id : Text) (m : Map Text P) (ids : List Text)
      → get id (found m ids) ≡ (if contains id ids then get id m else none)
  get-found id m [] = refl
  get-found id m (j ∷ ids) = elim (Option-cases (get j m)) [
    | inl missing ↦ rw missing (ground (arith, get-found id m ids, text_beq_iff j id))
    | inr (p, there) ↦ rw there (ground (arith, get-found id m ids, text_beq_iff j id))
  ]

  get-waiting :
      (id : Text) (s : Noted P)
      → get id (waiting s) ≡ (
          if contains id s.approved_ids && not (contains id s.applied_ids)
          then get id s.patches
          else none)
  get-waiting id s =
      let ids = keep (λ name. not (contains name s.applied_ids)) s.approved_ids in
      get-found id s.patches ids
      ∙ ap (λ b. if b then get id s.patches else none)
          (contains-keep (λ name. not (contains name s.applied_ids)) id s.approved_ids)

  get-note_entries :
      (id : Text) (es : List (LedgerEntry P)) (s : Noted P)
      → get id (waiting (note_entries es s)) ≡ (
          if (contains id s.approved_ids || some_of (approves id) es)
            && not (contains id s.applied_ids || some_of (applies id) es)
          then last_proposed id (get id s.patches) es
          else none)
  unfolding note_entries
  get-note_entries id [] s = get-waiting id s ∙ ground arith
  get-note_entries id (e ∷ es) s =
      get-note_entries id es (note_entry e s)
      ∙ rw (applied_ids-note id e s, approved_ids-note id e s, patches-note id e s) (ground arith)

  -- A patch waits to be applied under an id exactly if some entry of the ledger approves the id, no
  -- entry says that it was applied, and it is the last patch that was proposed under it; a rejection,
  -- before or after the approval, changes nothing.
  pub open_approvals_lem :
      (id : Text) (es : List (LedgerEntry P))
      → get id (open_approvals es) ≡ (
          if some_of (approves id) es && not (some_of (applies id) es)
          then last_proposed id none es
          else none)
  unfolding open_approvals
  open_approvals_lem id es =
      get-note_entries id es (record { applied_ids = []; approved_ids = []; patches = [] })
