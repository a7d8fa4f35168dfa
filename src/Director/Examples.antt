-- ===== src/Director/Examples.antt =====
-- Tests of the ledger, src/director/ledger.ts: patches are numbers.
use msrouter.Prelude.{ℕ, ◌≡◌, refl, true, false, none, some, List, [], ◌∷◌, text_eq, text}
use msrouter.Director.Ledger.{LedgerEntry, proposed, decided, read_pending}

abbrev log : List (LedgerEntry ℕ)
log =
    record { kind = proposed; patch_id = text "a"; approved = false; patch = some 1 }
    ∷ record { kind = proposed; patch_id = text "b"; approved = false; patch = some 2 }
    ∷ record { kind = decided; patch_id = text "a"; approved = true; patch = none }
    ∷ []

pending_b : read_pending log ≡ 2 ∷ []
unfolding read_pending
pending_b = refl
