-- ===== src/Director/Written.antt =====
-- What is written to the overrides file is read back: src/director/apply.ts.
use mathlib.Core.List.{append_assoc}
use msrouter.Prelude.{
  ◌≡◌, refl, ap, sym, ◌∙◌, true, false, Option, none, some, [], ◌∷◌, ◌++◌, arith, ◌==◌, nat_eq,
  text_eq, if◌then◌else◌, contains, Text, Map, get, text_beq_iff, text_beq_refl,
}
use msrouter.Routing.Distinct.{Distinct}
use msrouter.Director.Patches.{Patch, is_key}
use msrouter.Director.Overrides.{
  read_lines, read_overrides, sorted, line_of, joined, serialize_overrides, merged, apply_overrides,
}
use msrouter.Director.Lines.{Writable, keys, IsValue, split-joined, read_lines-lines}
use msrouter.Director.Entries.{
  get-merged, sorted-Distinct, get-sorted, sorted-Writable, merged-Distinct, merged-Writable,
  read_overrides-Distinct, get-merged_nil,
}

read-joined :
    (m : Map Text Text) → Writable m → read_overrides (some (joined m ++ (10 ∷ []))) ≡ merged [] m
unfolding read_overrides read_lines
read-joined [] w = refl
read-joined (x ∷ m) w =
    ap (λ ls. read_lines ls []) (split-joined x m w) ∙ read_lines-lines (x ∷ m) [] w

-- Entries whose keys are names of variables, each of them once, with values that have no line break
-- and no blank at either end, are read back from the file that is written of them, whatever their order.
pub read_overrides-serialize_overrides :
    (m : Map Text Text) (q : Text)
    → Distinct (keys m)
    → Writable m
    → get q (read_overrides (some (serialize_overrides m))) ≡ get q m
unfolding serialize_overrides
read_overrides-serialize_overrides m q d w =
    ap (get q) (read-joined (sorted m) (sorted-Writable m w))
    ∙ get-merged_nil q (sorted m) (sorted-Distinct m d)
    ∙ get-sorted q m d

-- After a patch was applied, its overrides are read where it has one, and those of the file as it was
-- where it has none, if the patch has each key once, and the keys and values of both can be written.
pub apply_overrides_lem :
    (p : Patch) (file : Option Text) (q : Text)
    → Distinct (keys p.overrides)
    → Writable p.overrides
    → Writable (read_overrides file)
    → get q (read_overrides (some (apply_overrides p file)))
      ≡ (if contains q (keys p.overrides) then get q p.overrides else get q (read_overrides file))
unfolding apply_overrides
apply_overrides_lem p file q d w old =
    read_overrides-serialize_overrides (merged (read_overrides file) p.overrides) q
      (merged-Distinct p.overrides (read_overrides file) (read_overrides-Distinct file))
      (merged-Writable p.overrides (read_overrides file) w old)
    ∙ get-merged q p.overrides (read_overrides file) d

-- Where there is no file yet, a patch whose only value holds a line break with a line after it sets a
-- second variable, which the patch has no key for.
pub apply_overrides-injects :
    (p : Patch) (k v j w : Text)
    → is_key k ≡ true
    → IsValue v
    → is_key j ≡ true
    → IsValue w
    → (j == k) ≡ false
    → p.overrides ≡ (k, v ++ (10 ∷ line_of (j, w))) ∷ []
    → (get j p.overrides ≡ none) × (get j (read_overrides (some (apply_overrides p none))) ≡ some w)
unfolding apply_overrides serialize_overrides read_overrides
apply_overrides-injects p k v j w hk hv hj hw apart e =
    let other : (k == j) ≡ false = ground (arith, apart, text_beq_iff j k, text_beq_iff k j) in
    let two : Map Text Text = (k, v) ∷ (j, w) ∷ [] in
    (
      rw e (rw other refl),
      ap (λ o. get j (read_overrides (some (serialize_overrides (merged (read_overrides none) o)))))
            e
          ∙ ap (λ l. get j (read_overrides (some (l ++ (10 ∷ [])))))
              (sym (append_assoc k (61 ∷ v) (10 ∷ line_of (j, w))))
          ∙ ap (get j) (read-joined two ((hk, hv), ((hj, hw), tt)))
          ∙ rw other (rw (other, text_beq_refl j) refl),
    )
