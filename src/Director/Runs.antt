-- ===== src/Director/Runs.antt =====
-- Tests of the Director's agent and of its reading of events: src/director/agent-loop.ts,
-- src/director/observe.ts. The agent's chain answers nothing but "no".
use msrouter.Prelude.{
  ℕ, ◌+◌, List, lower_unit, ◌<◌, ◌≡◌, refl, false, Option, none, some, [], ◌∷◌, arith, ◌==◌,
  text_eq, if◌then◌else◌, length, split, All, Text, text,
}
use msrouter.Json.{Json, string, object, array, nil, cons, end, field}
use msrouter.Director.Patches.{parse_agent_patches, IsFit, parse_agent_patches-IsFit}
use msrouter.Director.Agent.{Surroundings, message, run_director_agent}
use msrouter.Director.Bounds.{EndsWithin, run_director_agent-terminates}
use msrouter.Director.Outbox.{
  OutboxEntry, Slack, approved, rejected, decision_of, decisions_of, flushes, flushes-empty,
}
use msrouter.Director.Events.{tail_events, events_in, tail_events-loses, parse_events_line}

abbrev quiet : Surroundings
quiet = record {
  World = ℕ;
  aborted = λ w. false;
  call = λ ms w. (message (record { content = some (text "no"); tool_calls = [] }), w + 1);
  sleep = λ n w. w;
  call_tool = λ name given w. ([], w);
  parse = λ s. none;
  new_id = λ w n. [];
  now_iso = λ w. [];
}

run_director_agent-terminates_example :
    EndsWithin quiet
      (λ w. w)
      (λ ms w. refl)
      (λ n w. refl)
      (λ name given w. refl)
      3
      (run_director_agent quiet (text "s") (text "g") 3)
run_director_agent-terminates_example =
    run_director_agent-terminates quiet (λ w. w) (λ ms w. refl) (λ n w. refl) (λ name given w. refl)
      (text "s") (text "g") 3

-- {"patches":[{"overrides":{"A":"1"}}]}
abbrev written : Json
written = object (
    field (text "patches")
      (array (
        cons
          (object
            (field (text "overrides") (object (field (text "A") (string (text "1")) end)) end))
          nil))
      end)

abbrev wrote : Text
wrote = text "so: {\"patches\":[{\"overrides\":{\"A\":\"1\"}}]} ok"

parse_agent_patches-IsFit_example :
    All IsFit (parse_agent_patches (λ s. some written) (λ n. text "id") (text "t") wrote)
parse_agent_patches-IsFit_example =
    parse_agent_patches-IsFit (λ s. some written) (λ n. text "id") (text "t") wrote

abbrev event : Json
event = object (
    field (text "at") (string (text "t"))
      (field (text "action") (string (text "submitted")) (field (text "record") (object end) end)))

abbrev parse_event : Text → Option Json
parse_event s = if s == text "e" then some event else none

abbrev three_lines : Text
three_lines = 101 ∷ 10 ∷ 101 ∷ 10 ∷ 101 ∷ 10 ∷ []

tail_events-loses_example :
    length (tail_events parse_event length (some (9, three_lines)) 3 2).0
      + length
          (tail_events parse_event length
            (some (9, []))
            (tail_events parse_event length (some (9, three_lines)) 3 2).1
            2).0
    < length (events_in parse_event length (split (10 ∷ []) three_lines))
unfolding parse_events_line
tail_events-loses_example =
    tail_events-loses parse_event length 9 3 2 three_lines [] (omega arith) refl refl (omega arith)

abbrev never : Slack
never = record {
  World = ℕ;
  deliver_to_slack = λ m w. (false, w + 1);
  now_iso = λ w. [];
  new_id = λ w. text "id";
}

abbrev waiting : List OutboxEntry
waiting = record { id = text "a"; message = text "m"; attempts = 4; last_error_at = [] } ∷ []

flushes-empty_example : (flushes never 10 waiting 0).0 ≡ []
flushes-empty_example = flushes-empty never waiting 0 ((omega arith, omega arith), tt)

decided :
    decisions_of (text " Approve  ab-1 please" ∷ text "hello" ∷ text "reject x" ∷ [])
    ≡ (text "ab-1", approved) ∷ (text "x", rejected) ∷ []
unfolding decisions_of decision_of lower_unit
decided = refl
