-- ===== src/Provider/Ids.antt =====
-- The provider identifiers, src/providers/chain-routing.ts and src/providers/extras.ts.
use msrouter.Prelude.{
  ℕ, ◌≡◌, ◌↔◌, refl, ap, Bool, true, some, List, [], ◌∷◌, arith, Eq, nat_beq, contains, Text, text,
  get_elem?,
}

pub data ProviderId : Type 0 where
  openrouter openai zai tokenrouter opencodego opencode local lmstudio laptop : ProviderId
  unorouter groq sambanova mistral gemini cline cloudflare : ProviderId

abbrev rank : ProviderId → ℕ
rank openrouter = 0
rank openai = 1
rank zai = 2
rank tokenrouter = 3
rank opencodego = 4
rank opencode = 5
rank local = 6
rank lmstudio = 7
rank laptop = 8
rank unorouter = 9
rank groq = 10
rank sambanova = 11
rank mistral = 12
rank gemini = 13
rank cline = 14
rank cloudflare = 15

abbrev all_ids : List ProviderId
all_ids =
    openrouter ∷ openai ∷ zai ∷ tokenrouter ∷ opencodego ∷ opencode ∷ local ∷ lmstudio ∷ laptop
    ∷ unorouter ∷ groq ∷ sambanova ∷ mistral ∷ gemini ∷ cline ∷ cloudflare ∷ []

get_elem?-rank : (p : ProviderId) → get_elem? all_ids (rank p) ≡ some p
get_elem?-rank openrouter = refl
get_elem?-rank _ = refl

rank-injective : (p q : ProviderId) → rank p ≡ rank q → p ≡ q
rank-injective p q h = cc (get_elem?-rank p, get_elem?-rank q, ap (get_elem? all_ids) h)

-- `===` on identifiers
abbrev pub same_id : ProviderId → ProviderId → Bool
same_id p q = nat_beq (rank p) (rank q)

pub same_id_iff : (p q : ProviderId) → (same_id p q ≡ true) ↔ (p ≡ q)
same_id_iff p q = (λ h. rank-injective p q (ground arith), λ e. rw e (ground arith))

instance abbrev pub provider_eq : Eq ProviderId
provider_eq = record { beq = same_id; beq_iff = same_id_iff }

abbrev pub extra_provider_order : List ProviderId
extra_provider_order = unorouter ∷ groq ∷ sambanova ∷ mistral ∷ gemini ∷ cline ∷ cloudflare ∷ []

unfoldable pub is_extra_provider : ProviderId → Bool
is_extra_provider p = contains p extra_provider_order

-- `LOCAL_TAIL.has`
unfoldable pub is_local_tail : ProviderId → Bool
is_local_tail p = contains p (local ∷ lmstudio ∷ laptop ∷ [])

-- The text of an identifier.
abbrev pub id_name : ProviderId → Text
id_name openrouter = text "openrouter"
id_name openai = text "openai"
id_name zai = text "zai"
id_name tokenrouter = text "tokenrouter"
id_name opencodego = text "opencodego"
id_name opencode = text "opencode"
id_name local = text "local"
id_name lmstudio = text "lmstudio"
id_name laptop = text "laptop"
id_name unorouter = text "unorouter"
id_name groq = text "groq"
id_name sambanova = text "sambanova"
id_name mistral = text "mistral"
id_name gemini = text "gemini"
id_name cline = text "cline"
id_name cloudflare = text "cloudflare"
