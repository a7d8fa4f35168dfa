-- ===== src/Director/Bounds.antt =====
-- The Director's agent ends: `runDirectorAgent`, src/director/agent-loop.ts.
use msrouter.Prelude.{
  ℕ, zero, suc, ◌+◌, ◌≤◌, ◌<◌, ◌≡◌, refl, ◌∙◌, inl, inr, List, [], ◌∷◌, arith, ltb, leb, Text,
  Bool-cases,
}
use msrouter.Json.{Fields}
use msrouter.Director.Patches.{Patch}
use msrouter.Director.Agent.{
  ToolCall, Message, Turn, threw, no_message, message, Surroundings, max_steps, Ended, Run,
  finished, Talk, args, run_tools, heard, settle_text, on_message, on_turn, called, agent_loop,
  run_director_agent,
}

module _ (u : Surroundings) (count : u.World → ℕ)
    (counted : (ms : List Message) (w : u.World) → count (u.call ms w).1 ≡ count w + 1)
    (slept : (ms : ℕ) (w : u.World) → count (u.sleep ms w) ≡ count w)
    (worked : (name : Text) (given : Fields) (w : u.World)
      → count (u.call_tool name given w).1 ≡ count w) where
  -- A run that ended, after no more than ten steps, each with one call since the count was `start`.
  abbrev pub EndsWithin : ℕ → Run u → Type 0
  EndsWithin start r =
      (e : Ended u) × (r ≡ finished e) × (e.steps ≤ 10) × (count e.world ≡ start + e.steps)

  run_tools-count :
      (cs : List ToolCall) (t : Talk u) → count (run_tools u cs t).world ≡ count t.world
  unfolding run_tools
  run_tools-count [] t = refl
  run_tools-count (c ∷ cs) t = run_tools-count cs _ ∙ worked c.name (args u c) t.world

  settle_text-EndsWithin :
      (start steps : ℕ) (ps : List Patch) (t : Talk u) (again : Talk u → Run u)
      → steps ≤ 10
      → count t.world ≡ start + steps
      → ((t' : Talk u) → count t'.world ≡ start + steps → EndsWithin start (again t'))
      → EndsWithin start (settle_text u steps ps t again)
  settle_text-EndsWithin start steps (p ∷ ps) t again few now later = (_, refl, few, now)
  settle_text-EndsWithin start steps [] t again few now later =
      elim (Bool-cases (leb max_steps steps)) [
        | inl last ↦ rw last (_, refl, few, now)
        | inr more ↦ rw more (later t now)
      ]

  on_turn-EndsWithin :
      (start steps : ℕ) (turn : Turn) (t : Talk u) (again : Talk u → Run u)
      → steps ≤ 10
      → count t.world ≡ start + steps
      → ((t' : Talk u) → count t'.world ≡ start + steps → EndsWithin start (again t'))
      → EndsWithin start (on_turn u steps turn t again)
  on_turn-EndsWithin start steps threw t again few now later = later _ (slept _ t.world ∙ now)
  on_turn-EndsWithin start steps no_message t again few now later = (_, refl, few, now)
  on_turn-EndsWithin start steps (message a) t again few now later = said a.tool_calls
    where
      said : (cs : List ToolCall) → EndsWithin start (on_message u steps cs a t again)
      said [] = settle_text-EndsWithin start steps _ (heard u a t) again few now later
      said (c ∷ cs) = later _ (run_tools-count (c ∷ cs) (heard u a t) ∙ now)

  agent_loop-EndsWithin :
      (start fuel steps : ℕ) (t : Talk u)
      → 10 < fuel + steps
      → steps ≤ 10
      → count t.world ≡ start + steps
      → EndsWithin start (agent_loop u fuel steps t)
  unfolding agent_loop max_steps
  agent_loop-EndsWithin start zero steps t enough few now = absurd (omega arith)
  agent_loop-EndsWithin start (suc fuel) steps t enough few now = elim (Bool-cases (ltb steps 10)) [
    | inr over ↦ rw over (_, refl, few, now)
    | inl under ↦ elim (Bool-cases (u.aborted t.world)) [
      | inl gone ↦ rw (under, gone) (_, refl, few, now)
      | inr here ↦
          rw (under, here)
            (on_turn-EndsWithin start (steps + 1) (called u t).0 (called u t).1
              (agent_loop u fuel (steps + 1)) (ground arith)
              (counted t.messages t.world ∙ omega (arith, now))
              (λ t' now'.
                agent_loop-EndsWithin start fuel (steps + 1) t' (omega arith) (ground arith) now'))
    ]
  ]

  -- For a count that each call of the chain raises by one, and sleeping and tools leave as it is:
  -- whatever the chain and the tools answer, a run of the agent ends, after at most ten steps, and it
  -- calls the chain once for each of them.
  pub run_director_agent-terminates :
      (system_prompt goal : Text) (w : u.World)
      → EndsWithin (count w) (run_director_agent u system_prompt goal w)
  unfolding run_director_agent max_steps
  run_director_agent-terminates system_prompt goal w =
      agent_loop-EndsWithin (count w) (max_steps + 1) 0 _ (omega arith) (omega arith) (omega arith)
