-- ===== src/Chain/Skipping.antt =====
-- What the skipper of a pass may skip: `MidWalkParkSkipper`, src/providers/failure-axes.ts, and lists.
use msrouter.Prelude.{
  ℕ, ◌<◌, ◌≡◌, refl, ap, sym, ◌∙◌, inl, inr, Bool, true, false, not, ◌||◌, ◌&&◌, List, [], ◌∷◌,
  arith, ◌==◌, nat_eq, nat_beq_iff, if◌then◌else◌, keep, contains, length, length-keep-le,
  Bool-cases, All, All-append, beq-false, &&-true,
}
use msrouter.Provider.{RoutingEntry}
use msrouter.Provider.Ids.{ProviderId, provider_eq, same_id_iff}
use msrouter.Rotation.{RotationQueue, snapshot, is_parked}
use msrouter.Failure.{Skipper, on_attempt_failed, same_provider, is_entry_level}

-- Nothing that the skipper holds belongs to this provider.
module _ (entry_of : ℕ → RoutingEntry) (p : ProviderId) where
  abbrev pub IsOther : ℕ → Type 0
  IsOther e = ((entry_of e).provider == p) ≡ false

  abbrev pub Spares : Skipper → Type 0
  Spares k = All IsOther k.skipped

  pub not_skipped :
      (ref : ℕ) (xs : List ℕ)
      → All IsOther xs
      → (entry_of ref).provider ≡ p
      → contains ref xs ≡ false
  not_skipped ref [] h e = refl
  not_skipped ref (x ∷ xs) h e = elim (Bool-cases (x == ref)) [
    | inl same ↦ absurd (
        cc (
          h.0,
          ap (λ r. (entry_of r).provider == p) ((nat_beq_iff x ref).0 same),
          (same_id_iff (entry_of ref).provider p).1 e,
        ))
    | inr other ↦ rw other (not_skipped ref xs h.1 e)
  ]

  -- What a failure of another provider adds is of that provider.
  All-siblings :
      (x : RoutingEntry) (pre : List ℕ) (xs : List ℕ)
      → (x.provider == p) ≡ false
      → All IsOther (keep (λ e. same_provider entry_of x e && not (contains e pre)) xs)
  All-siblings x pre [] h = tt
  All-siblings x pre (e ∷ es) h =
      elim (Bool-cases (same_provider entry_of x e && not (contains e pre))) [
        | inl added ↦ rw added (sibling e added, All-siblings x pre es h)
        | inr left ↦ rw left (All-siblings x pre es h)
      ]
    where
      sibling : (a : ℕ) → (same_provider entry_of x a && not (contains a pre)) ≡ true → IsOther a
      sibling a added = beq-false (entry_of a).provider p (λ same. absurd (
          cc (
            h,
            (same_id_iff x.provider p).1 (
                sym ((same_id_iff (entry_of a).provider x.provider).0 (&&-true _ _ added).0)
                ∙ same),
          )))

  pub on_attempt_failed-Spares :
      (now ref : ℕ) (k : Skipper) (q : RotationQueue ℕ)
      → ((entry_of ref).provider == p) ≡ false
      → Spares k
      → Spares (on_attempt_failed entry_of now ref k q)
  unfolding on_attempt_failed
  on_attempt_failed-Spares now ref k q h sp =
      branch (contains ref k.pre_parked || not (is_parked now ref q)) k _ sp (
        branch (is_entry_level (entry_of ref).provider) k _ sp (
          All-append IsOther _ k.skipped (All-siblings (entry_of ref) k.pre_parked (snapshot q) h)
            sp))
    where
      branch :
          (b : Bool) (k' k'' : Skipper) → Spares k' → Spares k'' → Spares (if b then k' else k'')
      branch true k' k'' h' h'' = h'
      branch false k' k'' h' h'' = h''

pub length-keep-lt :
    (test : ℕ → Bool) (a : ℕ) (xs : List ℕ)
    → contains a xs ≡ true
    → test a ≡ false
    → length (keep test xs) < length xs
length-keep-lt test a [] h t = cc
length-keep-lt test a (x ∷ xs) h t = elim (Bool-cases (x == a)) [
  | inl same ↦ rw ((nat_beq_iff x a).0 same, t) (omega (arith, length-keep-le test xs))
  | inr other ↦ ground (arith, length-keep-lt test a xs)
]
