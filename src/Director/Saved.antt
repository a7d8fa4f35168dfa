-- ===== src/Director/Saved.antt =====
-- Tests of the overrides file and of the poller: src/director/apply.ts, src/director/slack-poller.ts.
use msrouter.Prelude.{
  ◌≡◌, refl, none, some, List, [], ◌∷◌, ◌++◌, get, if◌then◌else◌, contains, text_eq, Text, text,
  Map, true, false,
}
use msrouter.Json.{Json, string, bool, object, array, nil, cons, end, field}
use msrouter.Director.Patches.{Patch, low}
use msrouter.Director.Overrides.{read_overrides, apply_overrides, line_of}
use msrouter.Director.Lines.{IsValue, keys}
use msrouter.Director.Written.{apply_overrides_lem, apply_overrides-injects}
use msrouter.Director.Poller.{
  Poller, Event, timer, reply, drain, happen, take_messages, brought_over,
}

abbrev one : IsValue (text "1")
one = record { starts = refl; ends = refl; one_line = refl }

abbrev two_overrides : Map Text Text
two_overrides = (text "KEY_B", text "1") ∷ (text "KEY_A", text "1") ∷ []

abbrev patch_of : Map Text Text → Patch
patch_of m = record {
  id = text "a";
  created_at = text "t";
  overrides = m;
  rationale = text "r";
  risk = low;
}

apply_overrides_lem_example :
    get (text "KEY_A") (read_overrides (some (apply_overrides (patch_of two_overrides) none))) ≡ (
      if contains (text "KEY_A") (keys two_overrides)
      then get (text "KEY_A") two_overrides
      else get (text "KEY_A") (read_overrides none))
unfolding read_overrides
apply_overrides_lem_example =
    apply_overrides_lem (patch_of two_overrides) none (text "KEY_A") (refl, (refl, tt))
      ((refl, one), ((refl, one), tt)) tt

abbrev two_lines : Map Text Text
two_lines = (text "KEY_A", text "1" ++ (10 ∷ line_of (text "KEY_B", text "1"))) ∷ []

apply_overrides-injects_example :
    (get (text "KEY_B") two_lines ≡ none)
    × (get (text "KEY_B") (read_overrides (some (apply_overrides (patch_of two_lines) none)))
        ≡ some (text "1"))
apply_overrides-injects_example =
    apply_overrides-injects (patch_of two_lines) (text "KEY_A") (text "1") (text "KEY_B") (text "1")
      refl one refl one refl refl

abbrev spoken : Json
spoken = object (
    field (text "ok") (bool true) (
      field (text "messages")
        (array (
          cons
            (object (
              field (text "ts") (string (text "5")) (field (text "text") (string (text "hi")) end)))
            nil))
        end))

abbrev at_rest : Poller
at_rest = record { queue = []; last_ts = none; busy = false }

abbrev happenings : List Event
happenings = timer ∷ reply (some spoken) ∷ drain ∷ timer ∷ reply none ∷ []

something_drained : (brought_over happenings at_rest ≡ []) → ⊥
unfolding brought_over happen take_messages
something_drained h = cc
