-- ===== src/Routing/Pins.antt =====
-- `shortCircuit`, src/providers/shortcircuit.ts. Its ladder of prefix tests is a table of rules that
-- is tried from the top.
use msrouter.Prelude.{
  ℕ, zero, suc, ◌+◌, ◌≡◌, refl, sym, ap, ◌∙◌, Option, none, some, List, [], ◌∷◌, ◌++◌, map, arith,
  if◌then◌else◌, length, drop, Text, text, starts_with, to_lower, lower_unit, drop-append,
}
use msrouter.Config.{Env}
use msrouter.Provider.Ids.{
  ProviderId, openrouter, openai, zai, tokenrouter, opencodego, opencode, local, lmstudio, laptop,
  extra_provider_order, id_name,
}
use msrouter.Routing.Free.{with_free}

pub record Pin : Type 0 where
  pub provider : ProviderId
  pub model : Text

-- A rule: if the lowered rest starts so, pin the provider, with this model.
record Rule : Type 0 where
  starts : Text
  pinned : ProviderId
  model_of : Text → Text

abbrev stripped : Text → Text → Text
stripped starts rest = drop (length starts) rest

abbrev strip_rule : Text → ProviderId → Rule
strip_rule starts p = record { starts = starts; pinned = p; model_of = stripped starts }

abbrev extra_rule : ProviderId → Rule
extra_rule p = strip_rule (id_name p ++ text "/") p

abbrev rules : Env → List Rule
rules e =
    strip_rule (text "openai/") openai
    ∷ strip_rule (text "opencode/") opencode
    ∷ record {
      starts = text "opencodego/";
      pinned = opencodego;
      model_of = λ rest. to_lower (stripped (text "opencodego/") rest);
    }
    ∷ strip_rule (text "zai/") zai
    ∷ record { starts = text "glm-"; pinned = zai; model_of = λ rest. rest }
    ∷ strip_rule (text "tokenrouter/") tokenrouter
    ∷ record {
      starts = text "openrouter/";
      pinned = openrouter;
      model_of = λ rest. with_free (stripped (text "openrouter/") rest) e.force_free;
    }
    ∷ strip_rule (text "local/") local
    ∷ strip_rule (text "lmstudio/") lmstudio
    ∷ strip_rule (text "laptop/") laptop
    ∷ map extra_rule extra_provider_order

-- the first rule that fits the lowered rest
abbrev first_rule : List Rule → Text → Text → Option Pin
first_rule [] rest_lower rest = none
first_rule (r ∷ rs) rest_lower rest =
    let later = first_rule rs rest_lower rest in
    if starts_with r.starts rest_lower
    then some (record { provider = r.pinned; model = r.model_of rest })
    else later

abbrev pin_rest : Env → Text → Option Pin
pin_rest e rest = first_rule (rules e) (to_lower rest) rest

unfoldable pub short_circuit : Env → Text → Option Pin
short_circuit e model =
    if starts_with (text "direct:") (to_lower model)
    then pin_rest e (drop (length (text "direct:")) model)
    else none

-- What a pin sends upstream: OpenCodeGo lowers the id, OpenRouter forces the free variant.
unfoldable pub pinned_model : Env → ProviderId → Text → Text
pinned_model e opencodego model = to_lower model
pinned_model e openrouter model = with_free model e.force_free
pinned_model e _ model = model

abbrev pin_prefix : ProviderId → Text
pin_prefix p = text "direct:" ++ id_name p ++ text "/"

to_lower-drop : (n : ℕ) (s : Text) → to_lower (drop n s) ≡ drop n (to_lower s)
to_lower-drop zero s = refl
to_lower-drop (suc n) [] = refl
to_lower-drop (suc n) (c ∷ s) = to_lower-drop n s

to_lower-append : (s t : Text) → to_lower (s ++ t) ≡ to_lower s ++ to_lower t
to_lower-append [] t = refl
to_lower-append (c ∷ s) t = ap (◌∷◌ (lower_unit c)) (to_lower-append s t)

length-to_lower : (s : Text) → length (to_lower s) ≡ length s
length-to_lower [] = refl
length-to_lower (c ∷ s) = omega (arith, length-to_lower s)

to_lower-prefixed : (p d m : Text) → to_lower d ≡ p → to_lower (d ++ m) ≡ p ++ to_lower m
to_lower-prefixed p d m h = rw (to_lower-append d m, h)

-- The tests of the ladder, once the lowered text is known.
pin_of_lower : Env → Text → Text → Option Pin
pin_of_lower e lowered model =
    if starts_with (text "direct:") lowered
    then first_rule (rules e) (drop 7 lowered) (drop 7 model)
    else none

short_circuit-pin_of_lower :
    (e : Env) (model : Text) → short_circuit e model ≡ pin_of_lower e (to_lower model) model
unfolding short_circuit pin_of_lower
short_circuit-pin_of_lower e model = rw (to_lower-drop 7 model)

drop-prefixed : (n : ℕ) (d m : Text) → length d ≡ n → drop n (d ++ m) ≡ m
drop-prefixed n d m h = rw (← h) (drop-append d m)

drop-both : (n k : ℕ) (d m : Text) → length d ≡ n + k → drop k (drop n (d ++ m)) ≡ m
drop-both zero k d m h = drop-prefixed k d m (omega arith)
drop-both (suc n) k [] m h = absurd (omega arith)
drop-both (suc n) k (c ∷ d) m h = drop-both n k d m (omega arith)

pin_of_lower-pin_prefix :
    (e : Env) (p : ProviderId) (m model : Text)
    → drop (length (id_name p ++ text "/")) (drop 7 model) ≡ m
    → pin_of_lower e (pin_prefix p ++ to_lower m) model
      ≡ some (record { provider = p; model = pinned_model e p m })
unfolding pin_of_lower pinned_model
pin_of_lower-pin_prefix e openrouter m model h = rw h
pin_of_lower-pin_prefix e openai m model h = rw h
pin_of_lower-pin_prefix e _ m model h = rw h

length-pin_prefix : (p : ProviderId) → length (pin_prefix p) ≡ 7 + length (id_name p ++ text "/")
length-pin_prefix openrouter = refl
length-pin_prefix _ = refl

-- `direct:<provider>/<model>` pins exactly that provider, for every provider and model, however the
-- prefix is cased; the model keeps its case but for OpenCodeGo's, which is lowered, and OpenRouter's
-- gets the free variant when that is forced.
short_circuit-pin_prefix :
    (e : Env) (p : ProviderId) (d m : Text)
    → to_lower d ≡ pin_prefix p
    → short_circuit e (d ++ m) ≡ some (record { provider = p; model = pinned_model e p m })
short_circuit-pin_prefix e p d m h =
    short_circuit-pin_of_lower e (d ++ m)
    ∙ rw (to_lower-prefixed (pin_prefix p) d m h) (
        pin_of_lower-pin_prefix e p m (d ++ m) (
          drop-both 7 (length (id_name p ++ text "/")) d m
            (sym (length-to_lower d) ∙ ap length h ∙ length-pin_prefix p)))
