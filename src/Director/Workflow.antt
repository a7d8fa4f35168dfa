-- ===== src/Director/Workflow.antt =====
-- The life of a patch as an abstract machine, and how the reads of src/director/ledger.ts see it.
use msrouter.Prelude.{
  ◌≡◌, refl, ap, sym, ◌∙◌, inl, inr, Bool, true, false, not, ◌||◌, ◌&&◌, Option, none, some, List,
  [], ◌∷◌, arith, ◌==◌, text_eq, if◌then◌else◌, Text, is_set, get, some_of, Bool-cases,
}
use msrouter.Director.Ledger.{
  LedgerKind, proposed, decided, applied, LedgerEntry, is_decided, decides, proposed_in,
  last_proposed, open_proposals, open_proposals_lem,
}
use msrouter.Director.Approved.{is_applied, applies, approves, open_approvals, open_approvals_lem}

-- What is known of the patch under one id.
pub record Status (P : Type 0) : Type 0 where
  pub patch : Option P
  pub is_ruled : Bool
  pub is_approved : Bool
  pub is_done : Bool

module _ {P : Type 0} where
  abbrev pub unknown : Status P
  unknown = record { patch = none; is_ruled = false; is_approved = false; is_done = false }

  abbrev pub replaced : Option P → Option P → Option P
  replaced none before = before
  replaced (some p) before = some p

  -- an entry of its id
  abbrev pub react : LedgerKind → (says_yes : Bool) → Option P → Status P → Status P
  react proposed b p s = record s { patch = replaced p s.patch }
  react decided b p s = record s { is_ruled = true; is_approved = s.is_approved || b }
  react applied b p s = record s { is_done = true }
  react _ b p s = s

  abbrev pub step : Text → LedgerEntry P → Status P → Status P
  step id e s =
      if is_set e.patch_id && e.patch_id == id then react e.kind e.approved e.patch s else s

  abbrev pub replay : Text → Status P → List (LedgerEntry P) → Status P
  replay id s [] = s
  replay id s (e ∷ es) = replay id (step id e s) es

  -- what waits for a ruling, and what waits to be applied
  abbrev pub pending : Status P → Option P
  pending s = if s.is_ruled then none else s.patch

  abbrev pub due : Status P → Option P
  due s = if s.is_approved && not s.is_done then s.patch else none

  -- each field of a step
  abbrev Steps : Text → LedgerEntry P → Status P → Type 0
  Steps id e s =
      ((step id e s).patch ≡ proposed_in id e.kind e.patch_id e.patch s.patch)
      × ((step id e s).is_ruled ≡ (s.is_ruled || decides id e))
      × ((step id e s).is_approved ≡ (s.is_approved || approves id e))
      × ((step id e s).is_done ≡ (s.is_done || applies id e))

  proposed_in-other :
      (id : Text) (k : LedgerKind) (name : Text) (p before : Option P)
      → (is_set name && name == id) ≡ false
      → proposed_in id k name p before ≡ before
  proposed_in-other id proposed (c ∷ cs) (some p) before h = ground (arith, h)
  proposed_in-other id proposed [] p before h = refl
  proposed_in-other id proposed (c ∷ cs) none before h = refl
  proposed_in-other id _ name p before h = refl

  proposed_in-same :
      (id : Text) (k : LedgerKind) (b : Bool) (name : Text) (p : Option P) (s : Status P)
      → (is_set name && name == id) ≡ true
      → proposed_in id k name p s.patch ≡ (react k b p s).patch
  proposed_in-same id proposed b (c ∷ cs) (some p) s h = ground (arith, h)
  proposed_in-same id proposed b (c ∷ cs) none s h = refl
  proposed_in-same id proposed b [] p s h = cc
  proposed_in-same id decided b name p s h = refl
  proposed_in-same id applied b name p s h = refl
  proposed_in-same id _ b name p s h = refl

  react-flags :
      (k : LedgerKind) (b : Bool) (p : Option P) (s : Status P)
      → ((react k b p s).is_ruled ≡ (s.is_ruled || is_decided k))
        × ((react k b p s).is_approved ≡ (s.is_approved || (is_decided k && b)))
        × ((react k b p s).is_done ≡ (s.is_done || is_applied k))
  react-flags decided b p s = (ground arith, refl, ground arith)
  react-flags applied b p s = (ground arith, ground arith, ground arith)
  react-flags _ b p s = (ground arith, ground arith, ground arith)

  step-Steps : (id : Text) (e : LedgerEntry P) (s : Status P) → Steps id e s
  step-Steps id e s = elim (Bool-cases (is_set e.patch_id && e.patch_id == id)) [
    | inl same ↦
        let flags = react-flags e.kind e.approved e.patch s in
        rw same (
          sym (proposed_in-same id e.kind e.approved e.patch_id e.patch s same),
          ground (arith, flags.0, same),
          ground (arith, flags.1, same),
          ground (arith, flags.2, same),
        )
    | inr other ↦ rw other (
      sym (proposed_in-other id e.kind e.patch_id e.patch s.patch other),
      ground (arith, other),
      ground (arith, other),
      ground (arith, other),
    )
  ]

  replay-fields :
      (id : Text) (es : List (LedgerEntry P)) (s : Status P)
      → ((replay id s es).patch ≡ last_proposed id s.patch es)
        × ((replay id s es).is_ruled ≡ (s.is_ruled || some_of (decides id) es))
        × ((replay id s es).is_approved ≡ (s.is_approved || some_of (approves id) es))
        × ((replay id s es).is_done ≡ (s.is_done || some_of (applies id) es))
  replay-fields id [] s = (refl, ground arith, ground arith, ground arith)
  replay-fields id (e ∷ es) s =
      let f = step-Steps id e s in
      let g = replay-fields id es (step id e s) in
      (
        g.0 ∙ ap (λ p. last_proposed id p es) f.0,
        g.1 ∙ rw f.1 (ground arith),
        g.2 ∙ rw f.2 (ground arith),
        g.3 ∙ rw f.3 (ground arith),
      )

  -- Under every id, the reads of a ledger see what the machine for that id has come to: the open
  -- proposals are the patches that wait for a ruling, and the open approvals are those that wait to
  -- be applied.
  pub ledger_refines :
      (id : Text) (es : List (LedgerEntry P))
      → (get id (open_proposals es) ≡ pending (replay id unknown es))
        × (get id (open_approvals es) ≡ due (replay id unknown es))
  ledger_refines id es =
      let f = replay-fields id es unknown in
      (
        open_proposals_lem id es ∙ sym (rw (f.0, f.1) refl),
        open_approvals_lem id es ∙ sym (rw (f.0, f.2, f.3) refl),
      )
