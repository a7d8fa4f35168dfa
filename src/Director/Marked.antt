-- ===== src/Director/Marked.antt =====
-- A ledger to which an entry was added for each patch that waited: `readApprovedPatches`,
-- src/director/ledger.ts.
use msrouter.Prelude.{
  ◌≡◌, refl, ap, sym, ◌∙◌, inl, inr, Bool, true, false, not, ◌||◌, ◌&&◌, Option, none, some, List,
  [], ◌∷◌, ◌++◌, map, arith, ◌==◌, text_eq, if◌then◌else◌, Text, is_set, Map, get, some_of,
  Bool-cases, All, text_beq_iff, text_beq_refl, &&-true,
}
use msrouter.Director.Ledger.{
  LedgerKind, proposed, applied, LedgerEntry, last_proposed, proposed_in,
}
use msrouter.Director.Approved.{
  applies, approves, open_approvals, open_approvals_lem, read_approved_patches,
}
use msrouter.Director.Patches.{Patch}
use msrouter.Director.Supervision.{entry_of}

-- the entry that says that a patch was applied
abbrev pub done : Patch → LedgerEntry Patch
done p = entry_of applied p.id false none

-- An entry that proposes a patch does so under the patch's own id.
abbrev pub Owns : LedgerKind → Text → Option Patch → Type 0
Owns proposed name (some p) = p.id ≡ name
Owns _ name p = Unit

abbrev pub OwnsAll : List (LedgerEntry Patch) → Type 0
OwnsAll = All (λ e. Owns e.kind e.patch_id e.patch)

-- `p`, if there is one, has the id
abbrev Bears : Text → Option Patch → Type 0
Bears id none = Unit
Bears id (some p) = p.id ≡ id

proposed_in-Bears :
    (id : Text) (k : LedgerKind) (name : Text) (p before : Option Patch)
    → Owns k name p
    → Bears id before
    → Bears id (proposed_in id k name p before)
proposed_in-Bears id proposed (c ∷ cs) (some p) before h g = elim (Bool-cases ((c ∷ cs) == id)) [
  | inl same ↦ rw same (h ∙ (text_beq_iff (c ∷ cs) id).0 same)
  | inr other ↦ rw other g
]
proposed_in-Bears id proposed [] p before h g = g
proposed_in-Bears id proposed (c ∷ cs) none before h g = g
proposed_in-Bears id _ name p before h g = g

last_proposed-Bears :
    (id : Text) (es : List (LedgerEntry Patch)) (before : Option Patch)
    → OwnsAll es
    → Bears id before
    → Bears id (last_proposed id before es)
last_proposed-Bears id [] before h g = g
last_proposed-Bears id (e ∷ es) before h g =
    last_proposed-Bears id es _ h.1 (proposed_in-Bears id e.kind e.patch_id e.patch before h.0 g)

last_proposed-done :
    (id : Text) (es : List (LedgerEntry Patch)) (ps : List Patch) (before : Option Patch)
    → last_proposed id before (es ++ map done ps) ≡ last_proposed id before es
last_proposed-done id [] [] before = refl
last_proposed-done id [] (p ∷ ps) before = last_proposed-done id [] ps before
last_proposed-done id (e ∷ es) ps before = last_proposed-done id es ps _

approves-done :
    (id : Text) (es : List (LedgerEntry Patch)) (ps : List Patch)
    → some_of (approves id) (es ++ map done ps) ≡ some_of (approves id) es
approves-done id [] [] = refl
approves-done id [] (p ∷ ps) = approves-done id [] ps
approves-done id (e ∷ es) ps = ap (λ b. approves id e || b) (approves-done id es ps)

applies-append :
    (id : Text) (es fs : List (LedgerEntry Patch))
    → some_of (applies id) (es ++ fs) ≡ (some_of (applies id) es || some_of (applies id) fs)
applies-append id [] fs = refl
applies-append id (e ∷ es) fs = ground (arith, applies-append id es fs)

approves-is_set :
    (id : Text) (es : List (LedgerEntry Patch)) → some_of (approves id) es ≡ true → is_set id ≡ true
approves-is_set id [] h = cc
approves-is_set id (e ∷ es) h = elim (Bool-cases (approves id e)) [
  | inl this ↦
      let all = (&&-true _ _ this).1 in
      let same = (text_beq_iff e.patch_id id).0 (&&-true _ _ all).1 in
      ap is_set (sym same) ∙ (&&-true _ _ (&&-true _ _ all).0).0
  | inr other ↦ approves-is_set id es (rw other at h)
]

or_true : (b : Bool) → (b || true) ≡ true
or_true true = refl
or_true false = refl

abbrev id_or : Text → Option Patch → Text
id_or other none = other
id_or other (some p) = p.id

applies-found :
    (id : Text) (p : Patch) (m : Map Text Patch)
    → is_set id ≡ true
    → p.id ≡ id
    → get id m ≡ some p
    → some_of (applies id) (map done (map (λ x. x.1) m)) ≡ true
applies-found id p [] s own h = cc
applies-found id p ((j, q) ∷ m) s own h = elim (Bool-cases (j == id)) [
  | inl same ↦
      let its : q.id ≡ id = ap (id_or []) (rw same at h) ∙ own in rw (its, s, text_beq_refl id) refl
  | inr other ↦
      let later : some_of (applies id) (map done (map (λ x. x.1) m)) ≡ true =
        applies-found id p m s own (rw other at h) in
      rw later (or_true (is_set q.id && q.id == id))
]

nothing_due :
    (id : Text) (es : List (LedgerEntry Patch)) (a d : Bool) (o : Option Patch)
    → some_of (approves id) es ≡ a
    → some_of (applies id) es ≡ d
    → last_proposed id none es ≡ o
    → OwnsAll es
    → (if a && not (d || some_of (applies id) (map done (read_approved_patches es)))
        then o
        else none)
      ≡ none
unfolding read_approved_patches
nothing_due id es false d o ea ed eo own = refl
nothing_due id es true true o ea ed eo own = refl
nothing_due id es true false none ea ed eo own = ground arith
nothing_due id es true false (some p) ea ed eo own =
    let here : get id (open_approvals es) ≡ some p =
      open_approvals_lem id es ∙ rw (ea, ed, eo) refl in
    let bears : Bears id (last_proposed id none es) = last_proposed-Bears id es none own tt in
    rw (applies-found id p (open_approvals es) (approves-is_set id es ea) (rw eo at bears) here)
      refl

-- With each waiting patch marked as applied, none waits.
pub settled :
    (id : Text) (es : List (LedgerEntry Patch))
    → OwnsAll es
    → get id (open_approvals (es ++ map done (read_approved_patches es))) ≡ none
settled id es own =
    open_approvals_lem id (es ++ map done (read_approved_patches es))
    ∙ rw
        (
          approves-done id es (read_approved_patches es),
          applies-append id es (map done (read_approved_patches es)),
          last_proposed-done id es (read_approved_patches es) none,
        )
        (nothing_due id es _ _ _ refl refl refl own)
