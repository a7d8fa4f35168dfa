-- ===== src/Routing/Resolution.antt =====
-- What a client may rely on when it names a model: `resolveModel` against `buildModelList`.
use msrouter.Prelude.{
  ◌≡◌, ◌⊎◌, ap, ◌∙◌, refl, inl, inr, Bool, true, false, ◌&&◌, ◌||◌, List, [], ◌∷◌, map, arith, ◌==◌,
  text_eq, contains, contains-append, Text, text, is_set, All, All-concat, contains-concat, concat,
  Bool-cases, beq_refl, &&-true, some_of,
}
use mathlib.Core.List.{map-append}
use msrouter.Config.{Env}
use msrouter.Provider.Ids.{id_name}
use msrouter.Routing.Extras.{ProviderModel, extra_default_models}
use msrouter.Routing.Entries.{when}
use msrouter.Routing.Models.{
  known_models, known_blocks, model_blocks, first_alias, is_direct, resolve_model, ModelInfo, info,
  build_model_list,
}

module _ (e : Env) where
  -- The ids that pass unchanged: an alias, a pin, or a known default.
  abbrev pub IsRecognised : Text → Type 0
  IsRecognised m =
      (contains m e.walk_alias ≡ true)
      ⊎ ((is_direct m ≡ true) ⊎ (contains m (known_models e) ≡ true))

  -- A requested id comes through unchanged if it is recognised; any other becomes the first walk
  -- alias, `mst/free` where none is configured.
  pub resolve_model-IsRecognised :
      (m : Text)
      → (IsRecognised m × (resolve_model e m ≡ m))
        ⊎ (¬ IsRecognised m × (resolve_model e m ≡ first_alias e.walk_alias))
  unfolding resolve_model
  resolve_model-IsRecognised m = elim (Bool-cases (contains m e.walk_alias)) [
    | inl alias ↦ inl (inl alias, rw alias)
    | inr no_alias ↦ elim (Bool-cases (is_direct m)) [
      | inl direct ↦ inl (inr (inl direct), rw (no_alias, direct))
      | inr no_direct ↦ elim (Bool-cases (contains m (known_models e))) [
        | inl known ↦ inl (inr (inr known), rw (no_alias, no_direct, known))
        | inr unknown ↦ inr (λ r. ground arith, rw (no_alias, no_direct, unknown))
      ]
    ]
  ]

  -- Resolving a resolved id changes nothing, whatever the environment.
  resolve_model_idem : (m : Text) → resolve_model e (resolve_model e m) ≡ resolve_model e m
  resolve_model_idem m = elim (resolve_model-IsRecognised m) [
    | inl (ok, same) ↦ ap (resolve_model e) same
    | inr (bad, alias) ↦ rw alias (resolve-first_alias e.walk_alias refl)
  ]
    where
      resolve-first_alias :
          (as' : List Text)
          → e.walk_alias ≡ as'
          → resolve_model e (first_alias as') ≡ first_alias as'
      resolve-first_alias [] h = elim (resolve_model-IsRecognised (text "mst/free")) [
        | inl (ok, same) ↦ same
        | inr (bad, alias) ↦ alias ∙ ap first_alias h
      ]
      resolve-first_alias (a ∷ as') h = elim (resolve_model-IsRecognised a) [
        | inl (ok, same) ↦ same
        | inr (bad, alias) ↦ alias ∙ ap first_alias h
      ]

  -- an id that is recognised, or an additional OpenRouter model
  abbrev IsAccepted : Text → Type 0
  IsAccepted m = IsRecognised m ⊎ (contains m e.openrouter_models ≡ true)

  abbrev Accepts : ModelInfo → Type 0
  Accepts x = IsAccepted x.id

  contains→IsAccepted : (m : Text) → contains m (known_models e) ≡ true → IsAccepted m
  contains→IsAccepted m h = inl (inr (inr h))

  All-info :
      (owner : Text) (xs ys : List Text)
      → ((m : Text) → contains m ys ≡ true → IsAccepted m)
      → ((m : Text) → contains m xs ≡ true → contains m ys ≡ true)
      → All Accepts (map (info owner) xs)
  All-info owner [] ys f sub = tt
  All-info owner (x ∷ xs) ys f sub = (
    f x (sub x (ground (arith, beq_refl x))),
    All-info owner xs ys f (λ m h. sub m (ground arith)),
  )

  All-extra :
      (xs : List ProviderModel) (ys : List Text)
      → ((m : Text)
          → contains m (map (λ x. x.model) xs) ≡ true
          → contains m (known_models e) ≡ true)
      → All Accepts (map (λ x. info (id_name x.provider) x.model) xs)
  All-extra [] ys sub = tt
  All-extra (x ∷ xs) ys sub = (
    contains→IsAccepted x.model (sub x.model (ground (arith, beq_refl x.model))),
    All-extra xs ys (λ m h. sub m (ground arith)),
  )

  -- a conditional row of the list
  All-when :
      (b : Bool) (owner m : Text)
      → (b ≡ true → contains m (known_models e) ≡ true)
      → All Accepts (when b (info owner m ∷ []))
  All-when false owner m h = tt
  All-when true owner m h = (contains→IsAccepted m (h refl), tt)

  -- the members of the set, one disjunct for each line of the code that adds one
  abbrev pub named_models : List Text
  named_models =
      e.openrouter_model ∷ e.openai_model ∷ e.zai_model ∷ e.tokenrouter_model ∷ e.opencodego_model
      ∷ e.local_model ∷ e.lmstudio_model ∷ e.laptop_model ∷ []

  abbrev pub optional : Text → Text → Bool
  optional m slot = is_set slot && slot == m

  contains-when : (m slot : Text) → contains m (when (is_set slot) (slot ∷ [])) ≡ optional m slot
  contains-when m [] = refl
  contains-when m (c ∷ s) = ground arith

  pub contains-known_models :
      (m : Text)
      → contains m (known_models e) ≡ (
          contains m named_models
          || (contains m (map (λ x. x.model) (extra_default_models e))
              || (optional m e.opencode_model
                  || (optional m e.zai_model_2 || (optional m e.opencodego_model_2 || false)))))
  unfolding known_models known_blocks
  contains-known_models m =
      contains-concat m (known_blocks e)
      ∙ rw (
        contains-when m e.opencode_model,
        contains-when m e.zai_model_2,
        contains-when m e.opencodego_model_2,
      )

  known-named : (m : Text) → contains m named_models ≡ true → contains m (known_models e) ≡ true
  known-named m h = rw (contains-known_models m, h)

  known-extra :
      (m : Text)
      → contains m (map (λ x. x.model) (extra_default_models e)) ≡ true
      → contains m (known_models e) ≡ true
  known-extra m h = rw (contains-known_models m, h) (ground arith)

  known-opencode :
      is_set e.opencode_model ≡ true → contains e.opencode_model (known_models e) ≡ true
  known-opencode h =
      rw (contains-known_models e.opencode_model, h, beq_refl e.opencode_model) (ground arith)

  known-zai_2 : is_set e.zai_model_2 ≡ true → contains e.zai_model_2 (known_models e) ≡ true
  known-zai_2 h = rw (contains-known_models e.zai_model_2, h, beq_refl e.zai_model_2) (ground arith)

  known-opencodego_2 :
      is_set e.opencodego_model_2 ≡ true → contains e.opencodego_model_2 (known_models e) ≡ true
  known-opencodego_2 h =
      rw (contains-known_models e.opencodego_model_2, h, beq_refl e.opencodego_model_2)
        (ground arith)

  IsAccepted-named : (m : Text) → contains m named_models ≡ true → IsAccepted m
  IsAccepted-named m h = contains→IsAccepted m (known-named m h)

  model_blocks-IsAccepted : All (All Accepts) (model_blocks e)
  unfolding model_blocks
  model_blocks-IsAccepted = (
    All-info (text "msrouter") e.walk_alias e.walk_alias (λ m h. inl (inl h)) (λ m h. h),
    (
      (
        IsAccepted-named e.openrouter_model (ground (arith, beq_refl e.openrouter_model)),
        All-info (text "openrouter") e.openrouter_models e.openrouter_models (λ m h. inr h)
            (λ m h. h),
      ),
      (
        All-when (is_set e.openai_api_key) (text "openai") e.openai_model
            (λ _. known-named e.openai_model (ground (arith, beq_refl e.openai_model))),
        (
          All-when (is_set e.zai_api_key) (text "zai") e.zai_model
              (λ _. known-named e.zai_model (ground (arith, beq_refl e.zai_model))),
          (
            All-when (is_set e.zai_api_key && is_set e.zai_model_2) (text "zai") e.zai_model_2
                (λ h. known-zai_2 (&&-true _ _ h).1),
            (
              All-when (is_set e.tokenrouter_api_key) (text "tokenrouter") e.tokenrouter_model (λ _.
                  known-named e.tokenrouter_model (ground (arith, beq_refl e.tokenrouter_model))),
              (
                All-when (is_set e.opencodego_api_key) (text "opencodego") e.opencodego_model (λ _.
                    known-named e.opencodego_model (ground (arith, beq_refl e.opencodego_model))),
                (
                  All-when (is_set e.opencodego_api_key && is_set e.opencodego_model_2)
                      (text "opencodego") e.opencodego_model_2
                      (λ h. known-opencodego_2 (&&-true _ _ h).1),
                  (
                    All-when (is_set e.opencode_api_key && is_set e.opencode_model)
                        (text "opencode") e.opencode_model (λ h. known-opencode (&&-true _ _ h).1),
                    (
                      All-extra (extra_default_models e) [] known-extra,
                      (
                        All-when e.local_enabled (text "local") e.local_model (λ _.
                            known-named e.local_model (ground (arith, beq_refl e.local_model))),
                        (
                          All-when e.lmstudio_enabled (text "lmstudio") e.lmstudio_model (λ _.
                              known-named e.lmstudio_model
                                (ground (arith, beq_refl e.lmstudio_model))),
                          (
                            All-when e.laptop_enabled (text "laptop") e.laptop_model (λ _.
                                known-named e.laptop_model
                                  (ground (arith, beq_refl e.laptop_model))),
                            tt,
                          ),
                        ),
                      ),
                    ),
                  ),
                ),
              ),
            ),
          ),
        ),
      ),
    ),
  )

  IsAccepted-resolve :
      (m : Text) → IsAccepted m → (resolve_model e m ≡ m) ⊎ (contains m e.openrouter_models ≡ true)
  IsAccepted-resolve m (inr additional) = inr additional
  IsAccepted-resolve m (inl ok) = elim (resolve_model-IsRecognised m) [
    | inl (_, same) ↦ inl same
    | inr (bad, _) ↦ absurd (bad ok)
  ]

  Accepts-resolve :
      (xs : List ModelInfo)
      → All Accepts xs
      → All (λ x. (resolve_model e x.id ≡ x.id) ⊎ (contains x.id e.openrouter_models ≡ true)) xs
  Accepts-resolve [] h = tt
  Accepts-resolve (x ∷ xs) h = (IsAccepted-resolve x.id h.0, Accepts-resolve xs h.1)

  -- Every model that is advertised is accepted unchanged, unless it is one of the additional
  -- OpenRouter models.
  advertised-resolve :
      All
        (λ x. (resolve_model e x.id ≡ x.id) ⊎ (contains x.id e.openrouter_models ≡ true))
        (build_model_list e)
  unfolding build_model_list
  advertised-resolve =
      Accepts-resolve (build_model_list e)
        (All-concat Accepts (model_blocks e) model_blocks-IsAccepted)

  contains-info :
      (owner m : Text) (xs : List Text)
      → contains m (map (λ x. x.id) (map (info owner) xs)) ≡ contains m xs
  contains-info owner m [] = refl
  contains-info owner m (x ∷ xs) = ap (λ t. x == m || t) (contains-info owner m xs)

  contains-map-concat :
      (m : Text) (xss : List (List ModelInfo))
      → contains m (map (λ x. x.id) (concat xss))
        ≡ some_of (λ xs. contains m (map (λ x. x.id) xs)) xss
  contains-map-concat m [] = refl
  contains-map-concat m (xs ∷ xss) = ground (
    arith,
    map-append (λ (x : ModelInfo). x.id) xs (concat xss),
    contains-append m (map (λ (x : ModelInfo). x.id) xs)
        (map (λ (x : ModelInfo). x.id) (concat xss)),
    contains-map-concat m xss,
  )

  additional-advertised :
      (m : Text)
      → contains m e.openrouter_models ≡ true
      → some_of (λ xs. contains m (map (λ x. x.id) xs)) (model_blocks e) ≡ true
  unfolding model_blocks
  additional-advertised m h =
      rw (contains-info (text "openrouter") m e.openrouter_models, h) (ground arith)

  -- An additional OpenRouter model that is neither an alias, nor a pin, nor a known default is
  -- advertised, yet a request for it is rewritten to the first walk alias.
  pub advertised_rewritten :
      (m : Text)
      → contains m e.openrouter_models ≡ true
      → ¬ IsRecognised m
      → (contains m (map (λ x. x.id) (build_model_list e)) ≡ true)
        × (resolve_model e m ≡ first_alias e.walk_alias)
  unfolding build_model_list
  advertised_rewritten m h bad = (advertised, rewritten)
    where
      advertised : contains m (map (λ x. x.id) (build_model_list e)) ≡ true
      advertised = contains-map-concat m (model_blocks e) ∙ additional-advertised m h

      rewritten : resolve_model e m ≡ first_alias e.walk_alias
      rewritten = elim (resolve_model-IsRecognised m) [
        | inl (ok, _) ↦ absurd (bad ok)
        | inr (_, alias) ↦ alias
      ]
