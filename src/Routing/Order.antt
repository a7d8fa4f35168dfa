-- ===== src/Routing/Order.antt =====
-- The order and the make-up of the initial queue: `buildRoutingEntries` and `extraRoutingEntries`.
use msrouter.Prelude.{
  ℕ, ◌+◌, ◌≡◌, refl, inl, inr, Bool, true, false, ◌&&◌, List, [], ◌∷◌, ◌++◌, map, text_eq, Text,
  is_set, trim, All, All-append, All-concat, Bool-cases, &&-true,
}
use msrouter.Provider.{RoutingEntry}
use msrouter.Provider.Ids.{
  ProviderId, openrouter, openai, zai, tokenrouter, opencodego, opencode, unorouter, groq,
  sambanova, mistral, gemini, cline, cloudflare, is_local_tail,
}
use msrouter.Routing.Extras.{
  ResolvedConfig, available, slot_models, extra_entry, slot_entries, slot, extra_blocks,
  extra_routing_entries,
}
use msrouter.Routing.Entries.{
  when, entry, key_entries, openrouter_entries, remote_blocks, remote_entries, tail_blocks,
  tail_entries, build_routing_entries,
}

-- What holds of every remote entry: it is not of the local tail, and its provider is configured.
abbrev IsRemote : ResolvedConfig → RoutingEntry → Type 0
IsRemote c x = (is_local_tail x.provider ≡ false) × (available c x.provider ≡ true)

abbrev IsTail : ResolvedConfig → RoutingEntry → Type 0
IsTail c x = (is_local_tail x.provider ≡ true) × (available c x.provider ≡ true)

-- After the first entry of the local tail only such entries follow.
abbrev pub TailLast : List RoutingEntry → Type 0
TailLast [] = Unit
TailLast (x ∷ xs) =
    (is_local_tail x.provider ≡ true → All (λ y. is_local_tail y.provider ≡ true) xs) × TailLast xs

module _ {ℓ} (P : RoutingEntry → Type ℓ) where
  All-when : (b : Bool) (xs : List RoutingEntry) → (b ≡ true → All P xs) → All P (when b xs)
  All-when false xs h = tt
  All-when true xs h = h refl

  All-extra_entry :
      (p : ProviderId)
      → ((label model : Text) (i : ℕ) → P (entry p label model i))
      → (ms : List Text) → All P (map (extra_entry p false) ms)
  All-extra_entry p h [] = tt
  All-extra_entry p h (m ∷ ms) = (h _ m 0, All-extra_entry p h ms)

  All-slot_entries :
      (p : ProviderId)
      → ((label model : Text) (i : ℕ) → P (entry p label model i))
      → (ms : List Text) → All P (slot_entries p ms)
  All-slot_entries p h [] = tt
  All-slot_entries p h (m ∷ ms) = (h _ m 0, All-extra_entry p h ms)

  All-slot :
      (p : ProviderId) (b : Bool) (model : Text) (more : List Text)
      → (b ≡ true → (label m : Text) (i : ℕ) → P (entry p label m i))
      → All P (slot p b model more)
  unfolding slot
  All-slot p b model more h = elim (Bool-cases (b && is_set (trim model))) [
    | inl on ↦ rw on (All-slot_entries p (h (&&-true b _ on).0) (slot_models (trim model) more))
    | inr off ↦ rw off tt
  ]

  All-key_entries :
      ((label model : Text) (i : ℕ) → P (entry openrouter label model i))
      → (model : Text) (i : ℕ) (ks : List Text) → All P (key_entries model i ks)
  unfolding key_entries
  All-key_entries h model i [] = tt
  All-key_entries h model i (k ∷ ks) = (h _ model i, All-key_entries h model (i + 1) ks)

  All-openrouter_entries :
      (c : ResolvedConfig)
      → ((label model : Text) (i : ℕ) → P (entry openrouter label model i))
      → (models : List Text) → All P (openrouter_entries c models)
  unfolding openrouter_entries
  All-openrouter_entries c h [] = tt
  All-openrouter_entries c h (m ∷ ms) =
      All-append P _ _ (All-key_entries h _ 0 c.openrouter_keys) (All-openrouter_entries c h ms)

module _ (c : ResolvedConfig) where
  open c use {env}

  remote :
      (p : ProviderId)
      → is_local_tail p ≡ false
      → available c p ≡ true
      → (label model : Text) (i : ℕ) → IsRemote c (entry p label model i)
  remote p far on label model i = (far, on)

  extra_routing_entries-IsRemote : All (IsRemote c) (extra_routing_entries env)
  unfolding extra_routing_entries extra_blocks available is_local_tail
  extra_routing_entries-IsRemote = All-concat (IsRemote c) (extra_blocks env) (
    All-slot (IsRemote c) unorouter (is_set env.unorouter_api_key) env.unorouter_model
        env.unorouter_models (remote unorouter refl),
    (
      All-slot (IsRemote c) groq (is_set env.groq_api_key) env.groq_model env.groq_models
          (remote groq refl),
      (
        All-slot (IsRemote c) sambanova (is_set env.sambanova_api_key) env.sambanova_model
            env.sambanova_models (remote sambanova refl),
        (
          All-slot (IsRemote c) mistral (is_set env.mistral_api_key) env.mistral_model
              env.mistral_models (remote mistral refl),
          (
            All-slot (IsRemote c) gemini (is_set env.gemini_api_key) env.gemini_model
                env.gemini_models (remote gemini refl),
            (
              All-slot (IsRemote c) cline (is_set env.cline_api_key) env.cline_model
                  env.cline_models (remote cline refl),
              (
                All-slot (IsRemote c) cloudflare
                    (is_set env.cloudflare_api_key && is_set env.cloudflare_account_id)
                    env.cloudflare_model env.cloudflare_models
                    (λ h.
                      remote cloudflare refl
                        (&&-true (is_set env.cloudflare_api_key) (is_set env.cloudflare_account_id)
                          h).0),
                tt,
              ),
            ),
          ),
        ),
      ),
    ),
  )

  remote_entries-IsRemote : All (IsRemote c) (remote_entries c)
  unfolding remote_entries remote_blocks is_local_tail
  remote_entries-IsRemote = All-concat (IsRemote c) (remote_blocks c) (
    All-when (IsRemote c) (available c zai) _ (λ on.
        ((refl, on), All-when (IsRemote c) (is_set env.zai_model_2) _ (λ _. ((refl, on), tt)))),
    (
      All-when (IsRemote c) (available c openrouter) _
          (λ on. All-openrouter_entries (IsRemote c) c (remote openrouter refl on) _),
      (
        All-when (IsRemote c) (available c openai) _ (λ on. ((refl, on), tt)),
        (
          All-when (IsRemote c) (available c tokenrouter) _ (λ on. ((refl, on), tt)),
          (
            All-when (IsRemote c) (available c opencodego) _ (λ on. (
              (refl, on),
              All-when (IsRemote c) (is_set env.opencodego_model_2) _ (λ _. ((refl, on), tt)),
            )),
            (
              All-when (IsRemote c) (available c opencode && is_set (trim env.opencode_model)) _
                  (λ on. ((refl, (&&-true _ _ on).0), tt)),
              (extra_routing_entries-IsRemote, tt),
            ),
          ),
        ),
      ),
    ),
  )

  tail_entries-IsTail : All (IsTail c) (tail_entries c)
  unfolding tail_entries tail_blocks is_local_tail available
  tail_entries-IsTail = All-concat (IsTail c) (tail_blocks c) (
    All-when (IsTail c) env.local_enabled _ (λ _. ((refl, refl), tt)),
    (
      All-when (IsTail c) env.lmstudio_enabled _ (λ _. ((refl, refl), tt)),
      (All-when (IsTail c) env.laptop_enabled _ (λ _. ((refl, refl), tt)), tt),
    ),
  )

  IsTail-TailLast : (xs : List RoutingEntry) → All (IsTail c) xs → TailLast xs
  IsTail-TailLast [] h = tt
  IsTail-TailLast (x ∷ xs) h = (λ _. tails xs h.1, IsTail-TailLast xs h.1)
    where
      tails :
          (ys : List RoutingEntry)
          → All (IsTail c) ys
          → All (λ y. is_local_tail y.provider ≡ true) ys
      tails [] h = tt
      tails (y ∷ ys) h = (h.0.0, tails ys h.1)

  TailLast-append :
      (xs ys : List RoutingEntry) → All (IsRemote c) xs → TailLast ys → TailLast (xs ++ ys)
  TailLast-append [] ys h t = t
  TailLast-append (x ∷ xs) ys h t = (λ near. cc (h.0.0), TailLast-append xs ys h.1 t)

  All-available :
      (P : RoutingEntry → Type 0) (xs : List RoutingEntry)
      → ((x : RoutingEntry) → P x → available c x.provider ≡ true)
      → All P xs
      → All (λ x. available c x.provider ≡ true) xs
  All-available P [] f h = tt
  All-available P (x ∷ xs) f h = (f x h.0, All-available P xs f h.1)

  -- In the initial queue every entry's provider is configured, and the local tail comes last: no
  -- remote entry follows a local one.
  build_routing_entries_lem :
      All (λ x. available c x.provider ≡ true) (build_routing_entries c)
      × TailLast (build_routing_entries c)
  unfolding build_routing_entries
  build_routing_entries_lem = (
    All-append (λ x. available c x.provider ≡ true) (remote_entries c) (tail_entries c)
        (All-available (IsRemote c) (remote_entries c) (λ x h. h.1) remote_entries-IsRemote)
        (All-available (IsTail c) (tail_entries c) (λ x h. h.1) tail_entries-IsTail),
    TailLast-append (remote_entries c) (tail_entries c) remote_entries-IsRemote
        (IsTail-TailLast (tail_entries c) tail_entries-IsTail),
  )
