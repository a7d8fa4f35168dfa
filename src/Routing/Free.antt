-- ===== src/Routing/Free.antt =====
-- `withFree`, src/providers/openrouter.ts.
use msrouter.Prelude.{
  ◌≡◌, refl, inl, inr, Bool, true, false, ◌||◌, ◌++◌, arith, ◌==◌, nat_eq, text_eq, if◌then◌else◌,
  contains, contains-append, Text, text, starts_with, Bool-cases,
}

-- `model.includes(':')`
abbrev pub has_variant : Text → Bool
has_variant model = contains b':' model

-- the auto-routers and the namespace of previews
abbrev pub is_exempt : Text → Bool
is_exempt model =
    model == text "openrouter/free"
    || model == text "openrouter/auto"
    || starts_with (text "stealth/") model

unfoldable pub with_free : Text → Bool → Text
with_free model force =
    if force
    then if has_variant model || is_exempt model then model else model ++ text ":free"
    else model

-- A forced id always carries a variant or is exempt: no request that is forced free leaves as a bare
-- paid id.
with_free_lem :
    (model : Text) → (has_variant (with_free model true) || is_exempt (with_free model true)) ≡ true
unfolding with_free
with_free_lem model = elim (Bool-cases (has_variant model || is_exempt model)) [
  | inl settled ↦ rw settled settled
  | inr bare ↦ rw (bare, contains-append b':' model (text ":free")) (ground arith)
]

-- Forcing is idempotent: two applications are one with either flag set.
with_free_idem :
    (model : Text) (force force' : Bool)
    → with_free (with_free model force) force' ≡ with_free model (force || force')
unfolding with_free
with_free_idem model false force' = refl
with_free_idem model true false = refl
with_free_idem model true true = elim (Bool-cases (has_variant model || is_exempt model)) [
  | inl settled ↦ rw (settled, settled)
  | inr bare ↦ rw (bare, contains-append b':' model (text ":free")) (ground arith)
]
