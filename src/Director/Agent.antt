-- ===== src/Director/Agent.antt =====
-- The Director's agent: `runDirectorAgent`, src/director/agent-loop.ts. The chain with the body of its
-- answer, the tools, the abort signal and the sleeping are the parameter `Surroundings`; an answer has
-- the type that the source gives it. Logging is left out. The loop is given fuel
-- for one step more than the source allows.
use msrouter.Prelude.{
  ℕ, zero, suc, ◌+◌, ◌*◌, Bool, Option, none, some, List, [], ◌∷◌, ◌++◌, leb, ltb, if◌then◌else◌,
  Text, text, is_set,
}
use msrouter.Json.{Json, string, object, Fields, end, field}
use msrouter.Director.Patches.{Patch, parse_agent_patches}

pub record ToolCall : Type 0 where
  pub id : Text
  pub name : Text
  pub arguments : Text

pub record Assistant : Type 0 where
  pub content : Option Text
  pub tool_calls : List ToolCall

pub data Message : Type 0 where
  system : Text → Message
  assistant : Assistant → Message
  tool : ToolCall → (content : Text) → Message

-- what a call of the chain comes to
pub data Turn : Type 0 where
  threw : Turn
  no_message : Turn
  message : Assistant → Turn

pub record Surroundings : Type 1 where
  pub World : Type 0
  pub aborted : World → Bool
  pub call : List Message → World → Turn × World
  pub sleep : ℕ → World → World
  pub call_tool : Text → Fields → World → Text × World
  pub parse : Text → Option Json
  pub new_id : World → ℕ → Text
  pub now_iso : World → Text

unfoldable pub max_steps : ℕ
max_steps = 10

abbrev text_of : Option Text → Text
text_of none = []
text_of (some s) = s

abbrev args_of : Text → Option Json → Fields
args_of raw none = field (text "_raw") (string raw) end
args_of raw (some (object fs)) = fs
args_of raw (some v) = field (text "_value") v end

abbrev min_five : ℕ → ℕ
min_five n = if leb n 5 then n else 5

module _ (u : Surroundings) where
  open u use {World, aborted, call, sleep, call_tool, parse, new_id, now_iso}

  pub record Ended : Type 0 where
    pub steps : ℕ
    pub patches : List Patch
    pub transcript : Text
    pub world : World

  pub data Run : Type 0 where
    finished : Ended → Run
    out_of_fuel : Run

  pub record Talk : Type 0 where
    pub messages : List Message
    pub transcript : Text
    pub world : World

  abbrev pub args : ToolCall → Fields
  args c = if is_set c.arguments then args_of c.arguments (parse c.arguments) else end

  unfoldable pub run_tools : List ToolCall → Talk → Talk
  run_tools [] t = t
  run_tools (c ∷ cs) t =
      let (content, w) = call_tool c.name (args c) t.world in
      run_tools cs (record {
        messages = t.messages ++ tool c content ∷ [];
        transcript =
            t.transcript ++ (text "[tool " ++ (c.name ++ (text "]: " ++ (content ++ (10 ∷ [])))));
        world = w;
      })

  abbrev pub ends_with : ℕ → List Patch → Talk → Run
  ends_with steps patches t =
      finished
        (record { steps = steps; patches = patches; transcript = t.transcript; world = t.world })

  abbrev pub heard : Assistant → Talk → Talk
  heard a t = record t {
    messages = t.messages ++ assistant a ∷ [];
    transcript = t.transcript ++ (text_of a.content ++ (10 ∷ []));
  }

  abbrev pub settle_text : ℕ → List Patch → Talk → (Talk → Run) → Run
  settle_text steps (p ∷ ps) t again = ends_with steps (p ∷ ps) t
  settle_text steps [] t again = if leb max_steps steps then ends_with steps [] t else again t

  -- what is done with an answer: its tools are run and the loop goes on, or its text ends it
  abbrev pub on_message : ℕ → List ToolCall → Assistant → Talk → (Talk → Run) → Run
  on_message steps (c ∷ cs) a t again = again (run_tools (c ∷ cs) (heard a t))
  on_message steps [] a t again =
      settle_text steps
        (parse_agent_patches parse (new_id t.world) (now_iso t.world) (text_of a.content))
        (heard a t) again

  abbrev pub on_turn : ℕ → Turn → Talk → (Talk → Run) → Run
  on_turn steps threw t again = again (record t { world = sleep (2000 * min_five steps) t.world })
  on_turn steps no_message t again = ends_with steps [] t
  on_turn steps (message a) t again = on_message steps a.tool_calls a t again

  abbrev pub called : Talk → Turn × Talk
  called t = let (turn, w) = call t.messages t.world in (turn, record t { world = w })

  unfoldable pub agent_loop : ℕ → ℕ → Talk → Run
  unfolding run_tools max_steps parse_agent_patches
  agent_loop zero steps t = out_of_fuel
  agent_loop (suc fuel) steps t =
      let again = agent_loop fuel (steps + 1) in
      if ltb steps max_steps
      then if aborted t.world
        then ends_with steps [] t
        else on_turn (steps + 1) (called t).0 (called t).1 again
      else ends_with steps [] t

  abbrev pub prompt : Text → Text → List Message
  prompt system_prompt [] = system system_prompt ∷ []
  prompt system_prompt goal = system system_prompt ∷ system (text "Goal: " ++ goal) ∷ []

  unfoldable pub run_director_agent : Text → Text → World → Run
  unfolding agent_loop
  run_director_agent system_prompt goal w =
      agent_loop (max_steps + 1) 0
        (record { messages = prompt system_prompt goal; transcript = []; world = w })
