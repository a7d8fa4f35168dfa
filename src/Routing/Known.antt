-- ===== src/Routing/Known.antt =====
-- Which model ids a request may name, said without the code's own tests: `resolveModel`,
-- src/gateway/model-list.ts.
use msrouter.Prelude.{
  or-cases, ◌≡◌, ◌⊎◌, ap, sym, ◌∙◌, refl, inl, inr, Bool, true, ◌&&◌, ◌||◌, List, [], ◌∷◌, ◌++◌,
  map, Memᴰ, contains→Memᴰ, Memᴰ→contains, arith, subst, nat_beq, ◌==◌, text_eq, nat_beq_iff,
  text_beq_iff, contains, Text, text, is_set, starts_with, to_lower, lower_unit, &&-true,
}
use msrouter.Config.{Env}
use msrouter.Routing.Extras.{ProviderModel, extra_default_models}
use msrouter.Routing.Models.{known_models, first_alias, is_direct, resolve_model}
use msrouter.Routing.Resolution.{
  IsRecognised, resolve_model-IsRecognised, contains-known_models, named_models, optional,
}

-- The default models, one constructor for each setting that names one; the settings that may be empty
-- name one only if they are not.
pub data IsDefault (e : Env) (m : Text) : Type 0 where
  openrouter_default : m ≡ e.openrouter_model → IsDefault e m
  openai_default : m ≡ e.openai_model → IsDefault e m
  zai_default : m ≡ e.zai_model → IsDefault e m
  tokenrouter_default : m ≡ e.tokenrouter_model → IsDefault e m
  opencodego_default : m ≡ e.opencodego_model → IsDefault e m
  local_default : m ≡ e.local_model → IsDefault e m
  lmstudio_default : m ≡ e.lmstudio_model → IsDefault e m
  laptop_default : m ≡ e.laptop_model → IsDefault e m
  extra_default :
      (x : ProviderModel) → Memᴰ x (extra_default_models e) → m ≡ x.model → IsDefault e m
  opencode_default : is_set m ≡ true → m ≡ e.opencode_model → IsDefault e m
  second_zai_default : is_set m ≡ true → m ≡ e.zai_model_2 → IsDefault e m
  second_opencodego_default : is_set m ≡ true → m ≡ e.opencodego_model_2 → IsDefault e m

-- The ids that mean something to the gateway: a walk alias, `direct:` in any case with whatever follows,
-- or a default model.
pub data IsKnown (e : Env) (m : Text) : Type 0 where
  alias : Memᴰ m e.walk_alias → IsKnown e m
  direct : (p rest : Text) → m ≡ p ++ rest → to_lower p ≡ text "direct:" → IsKnown e m
  default : IsDefault e m → IsKnown e m

-- a text whose lower case starts with another one
starts_with-split :
    (p m : Text)
    → starts_with p (to_lower m) ≡ true
    → (d : Text) × (rest : Text) × (m ≡ d ++ rest) × (to_lower d ≡ p)
starts_with-split [] m h = ([], m, refl, refl)
starts_with-split (c ∷ p) [] h = cc
starts_with-split (c ∷ p) (x ∷ m) h =
    let (same, more) = &&-true (nat_beq c (lower_unit x)) _ h in
    let (d, rest, whole, low) = starts_with-split p m more in
    (
      x ∷ d,
      rest,
      ap (◌∷◌ x) whole,
      rw low (ap (λ y. y ∷ p) (sym ((nat_beq_iff c (lower_unit x)).0 same))),
    )

starts_with-to_lower : (d rest : Text) → starts_with (to_lower d) (to_lower (d ++ rest)) ≡ true
starts_with-to_lower [] [] = refl
starts_with-to_lower [] (c ∷ rest) = refl
starts_with-to_lower (x ∷ d) rest =
    rw ((nat_beq_iff (lower_unit x) (lower_unit x)).1 refl) (starts_with-to_lower d rest)

extra-Memᴰ :
    (m : Text) (xs : List ProviderModel)
    → contains m (map (λ x. x.model) xs) ≡ true
    → (x : ProviderModel) × Memᴰ x xs × (m ≡ x.model)
extra-Memᴰ m [] h = cc
extra-Memᴰ m (x ∷ xs) h = elim (or-cases (x.model == m) _ h) [
  | inl here ↦ (x, Memᴰ.head refl, sym ((text_beq_iff x.model m).0 here))
  | inr later ↦ let (y, there, same) = extra-Memᴰ m xs later in (y, Memᴰ.tail there, same)
]

Memᴰ-extra :
    (m : Text) (x : ProviderModel) (xs : List ProviderModel)
    → Memᴰ x xs
    → m ≡ x.model
    → contains m (map (λ x. x.model) xs) ≡ true
Memᴰ-extra m x [] h same = elim h [ ]
Memᴰ-extra m x (y ∷ ys) (Memᴰ.head h) same =
    ground (arith, (text_beq_iff y.model m).1 (ap (λ z. z.model) (sym h) ∙ sym same))
Memᴰ-extra m x (y ∷ ys) (Memᴰ.tail h) same = ground (arith, Memᴰ-extra m x ys h same)

optional-cases :
    (m slot : Text) → (is_set slot && slot == m) ≡ true → (is_set m ≡ true) × (m ≡ slot)
optional-cases m slot h =
    let (filled, same) = &&-true (is_set slot) _ h in
    let here = (text_beq_iff slot m).0 same in (ap is_set (sym here) ∙ filled, sym here)

cases-optional : (m slot : Text) → is_set m ≡ true → m ≡ slot → (is_set slot && slot == m) ≡ true
cases-optional m slot filled same = rw (sym same, filled) ((text_beq_iff m m).1 refl)

named : (m slot : Text) (b : Bool) → m ≡ slot → ((slot == m) || b) ≡ true
named m slot b same = rw ((text_beq_iff slot m).1 (sym same)) refl

named-IsDefault : (e : Env) (m : Text) → contains m (named_models e) ≡ true → IsDefault e m
named-IsDefault e m h = elim (contains→Memᴰ m (named_models e) h) [
  | Memᴰ.head s ↦ openrouter_default s
  | Memᴰ.tail (Memᴰ.head s) ↦ openai_default s
  | Memᴰ.tail (Memᴰ.tail (Memᴰ.head s)) ↦ zai_default s
  | Memᴰ.tail (Memᴰ.tail (Memᴰ.tail (Memᴰ.head s))) ↦ tokenrouter_default s
  | Memᴰ.tail (Memᴰ.tail (Memᴰ.tail (Memᴰ.tail (Memᴰ.head s)))) ↦ opencodego_default s
  | Memᴰ.tail (Memᴰ.tail (Memᴰ.tail (Memᴰ.tail (Memᴰ.tail (Memᴰ.head s))))) ↦ local_default s
  | Memᴰ.tail (Memᴰ.tail (Memᴰ.tail (Memᴰ.tail (Memᴰ.tail (Memᴰ.tail (Memᴰ.head s)))))) ↦
      lmstudio_default s
  | Memᴰ.tail
        (Memᴰ.tail (Memᴰ.tail (Memᴰ.tail (Memᴰ.tail (Memᴰ.tail (Memᴰ.tail (Memᴰ.head s))))))) ↦
      laptop_default s
  | Memᴰ.tail
        (Memᴰ.tail (Memᴰ.tail (Memᴰ.tail (Memᴰ.tail (Memᴰ.tail (Memᴰ.tail (Memᴰ.tail x))))))) ↦
      elim x [ ]
]

known-IsDefault : (e : Env) (m : Text) → contains m (known_models e) ≡ true → IsDefault e m
known-IsDefault e m h =
    elim (or-cases (contains m (named_models e)) _ (sym (contains-known_models e m) ∙ h)) [
      | inl row ↦ named-IsDefault e m row
      | inr h ↦ elim (or-cases (contains m (map (λ x. x.model) (extra_default_models e))) _ h) [
        | inl extra ↦
            let (x, there, same) = extra-Memᴰ m (extra_default_models e) extra in
            extra_default x there same
        | inr h ↦ elim (or-cases (optional e m e.opencode_model) _ h) [
          | inl o ↦
              let (filled, same) = optional-cases m e.opencode_model o in
              opencode_default filled same
          | inr h ↦ elim (or-cases (optional e m e.zai_model_2) _ h) [
            | inl o ↦
                let (filled, same) = optional-cases m e.zai_model_2 o in
                second_zai_default filled same
            | inr h ↦ elim (or-cases (optional e m e.opencodego_model_2) _ h) [
              | inl o ↦
                  let (filled, same) = optional-cases m e.opencodego_model_2 o in
                  second_opencodego_default filled same
              | inr h ↦ cc
            ]
          ]
        ]
      ]
    ]

named-known : (e : Env) (m : Text) → Memᴰ m (named_models e) → contains m (known_models e) ≡ true
named-known e m h = contains-known_models e m ∙ rw (Memᴰ→contains m (named_models e) h) refl

IsDefault-known : (e : Env) (m : Text) → IsDefault e m → contains m (known_models e) ≡ true
IsDefault-known e m (openrouter_default s) = named-known e m (Memᴰ.head s)
IsDefault-known e m (openai_default s) = named-known e m (Memᴰ.tail (Memᴰ.head s))
IsDefault-known e m (zai_default s) = named-known e m (Memᴰ.tail (Memᴰ.tail (Memᴰ.head s)))
IsDefault-known e m (tokenrouter_default s) =
    named-known e m (Memᴰ.tail (Memᴰ.tail (Memᴰ.tail (Memᴰ.head s))))
IsDefault-known e m (opencodego_default s) =
    named-known e m (Memᴰ.tail (Memᴰ.tail (Memᴰ.tail (Memᴰ.tail (Memᴰ.head s)))))
IsDefault-known e m (local_default s) =
    named-known e m (Memᴰ.tail (Memᴰ.tail (Memᴰ.tail (Memᴰ.tail (Memᴰ.tail (Memᴰ.head s))))))
IsDefault-known e m (lmstudio_default s) =
    named-known e m
      (Memᴰ.tail (Memᴰ.tail (Memᴰ.tail (Memᴰ.tail (Memᴰ.tail (Memᴰ.tail (Memᴰ.head s)))))))
IsDefault-known e m (laptop_default s) = named-known e m (
    Memᴰ.tail (Memᴰ.tail (Memᴰ.tail (Memᴰ.tail (Memᴰ.tail (Memᴰ.tail (Memᴰ.tail (Memᴰ.head s))))))))
IsDefault-known e m (extra_default x there same) =
    contains-known_models e m
    ∙ rw (Memᴰ-extra m x (extra_default_models e) there same) (ground arith)
IsDefault-known e m (opencode_default filled same) =
    contains-known_models e m ∙ rw (cases-optional m e.opencode_model filled same) (ground arith)
IsDefault-known e m (second_zai_default filled same) =
    contains-known_models e m ∙ rw (cases-optional m e.zai_model_2 filled same) (ground arith)
IsDefault-known e m (second_opencodego_default filled same) =
    contains-known_models e m
    ∙ rw (cases-optional m e.opencodego_model_2 filled same) (ground arith)

IsKnown-IsRecognised : (e : Env) (m : Text) → IsKnown e m → IsRecognised e m
unfolding is_direct
IsKnown-IsRecognised e m (alias h) = inl (Memᴰ→contains m e.walk_alias h)
IsKnown-IsRecognised e m (direct p rest whole low) = inr (
    inl (
      subst (λ x. starts_with x (to_lower m) ≡ true) low
        (subst (λ x. starts_with (to_lower p) (to_lower x) ≡ true) (sym whole)
          (starts_with-to_lower p rest))))
IsKnown-IsRecognised e m (default h) = inr (inr (IsDefault-known e m h))

IsRecognised-IsKnown : (e : Env) (m : Text) → IsRecognised e m → IsKnown e m
unfolding is_direct
IsRecognised-IsKnown e m (inl h) = alias (contains→Memᴰ m e.walk_alias h)
IsRecognised-IsKnown e m (inr (inl h)) =
    let (p, rest, whole, low) = starts_with-split (text "direct:") m h in direct p rest whole low
IsRecognised-IsKnown e m (inr (inr h)) = default (known-IsDefault e m h)

-- A requested id comes through unchanged if it is known: a walk alias, an id that starts with `direct:`
-- in any case, one of the default models of the settings, or one of those that may be empty and is
-- not. Any other becomes the first walk alias, `mst/free` where there is none.
pub resolve_model_lem :
    (e : Env) (m : Text)
    → (IsKnown e m × (resolve_model e m ≡ m))
      ⊎ (¬ IsKnown e m × (resolve_model e m ≡ first_alias e.walk_alias))
resolve_model_lem e m = elim (resolve_model-IsRecognised e m) [
  | inl (ok, same) ↦ inl (IsRecognised-IsKnown e m ok, same)
  | inr (bad, first) ↦ inr (λ h. bad (IsKnown-IsRecognised e m h), first)
]
