-- ===== src/Director/Overrides.antt =====
-- The overrides file of the campaign: src/director/apply.ts. The file is its text, `none` if it cannot
-- be read; a patch is applied by a rename, at once.
use msrouter.Prelude.{
  ℕ, suc, Bool, true, false, not, ◌&&◌, ◌||◌, Option, none, some, List, [], ◌∷◌, ◌++◌, ◌==◌, nat_eq,
  text_eq, ltb, if◌then◌else◌, drop, take, split, starts_with, index_of, trim, Text, text, is_set,
  Map, set,
}
use msrouter.Director.Patches.{Patch}

-- the two sides of the first `=`, which does not come first
abbrev pub entry_if : Text → Text → Option (Text × Text)
entry_if key value = if is_set key then some (key, value) else none

abbrev pub key_at : Option ℕ → Text → Option (Text × Text)
key_at (some (suc i)) s = entry_if (trim (take (suc i) s)) (trim (drop (suc (suc i)) s))
key_at _ s = none

-- what a line that is trimmed says
abbrev pub entry_in : Text → Option (Text × Text)
entry_in s = if not (is_set s) || starts_with (text "#") s then none else key_at (index_of b'=' s) s

abbrev pub set_entry : Option (Text × Text) → Map Text Text → Map Text Text
set_entry none m = m
set_entry (some (k, v)) m = set k v m

unfoldable pub read_lines : List Text → Map Text Text → Map Text Text
read_lines [] m = m
read_lines (line ∷ lines) m = read_lines lines (set_entry (entry_in (trim line)) m)

-- `readOverrides`
unfoldable pub read_overrides : Option Text → Map Text Text
read_overrides none = []
read_overrides (some raw) = read_lines (split (10 ∷ []) raw) []

-- `a <= b` of texts
abbrev pub text_leb : Text → Text → Bool
text_leb [] t = true
text_leb (c ∷ s) [] = false
text_leb (c ∷ s) (d ∷ t) = ltb c d || (c == d && text_leb s t)

abbrev pub insert_entry : Text × Text → Map Text Text → Map Text Text
insert_entry x [] = x ∷ []
insert_entry x (y ∷ m) =
    let rest = insert_entry x m in if text_leb x.0 y.0 then x ∷ y ∷ m else y ∷ rest

-- the entries in the order of their keys
abbrev pub sorted : Map Text Text → Map Text Text
sorted [] = []
sorted (x ∷ m) = insert_entry x (sorted m)

abbrev pub line_of : Text × Text → Text
line_of x = x.0 ++ (61 ∷ x.1)

-- lines with a line break between them
abbrev pub joined : Map Text Text → Text
joined [] = []
joined (x ∷ []) = line_of x
joined (x ∷ y ∷ m) = line_of x ++ (10 ∷ joined (y ∷ m))

-- `serializeOverrides`
unfoldable pub serialize_overrides : Map Text Text → Text
serialize_overrides m = joined (sorted m) ++ (10 ∷ [])

-- `{ ...m, ...n }`
abbrev pub merged : Map Text Text → Map Text Text → Map Text Text
merged m [] = m
merged m ((k, v) ∷ n) = merged (set k v m) n

-- `applyPatch`: the text of the file after it
unfoldable pub apply_overrides : Patch → Option Text → Text
apply_overrides p file = serialize_overrides (merged (read_overrides file) p.overrides)
