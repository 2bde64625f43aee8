-- ===== src/Tests/Turns.antt =====
-- One turn of the agent tool loop (backend/app/services/agents/tools/loop.py).
use gummy_os.Common.{
  ℕ, suc, Text, codes, Bool, true, false, List, [], ◌∷◌, ◌++◌, Option, none, some, Result, ok, err,
  ◌≡◌, refl,
}
use gummy_os.Actions.{ToolInvocation}
use gummy_os.Actions.Interface.{to_execution}
use gummy_os.Actions.Loop.{
  ToolCall, ToolCallResponse, Generate, given, assistant, tool_result, tool_requested, tool_running,
  needs_approval, Turn, ToolLoopResult, run_tool_loop,
}
use gummy_os.Actions.Loop.Limits.{IsLimited, run_tool_loop-IsLimited}
use gummy_os.Actions.Loop.Trail.{IsTrail, run_tool_loop-IsTrail}
use gummy_os.Tests.ToolCalls.{tools, writer, note_args, caller, no_db, note_result, prompted}

abbrev note_call : ToolCall
note_call = record { id = codes "c"; name = "note"; arguments = note_args }

abbrev asks : ToolCallResponse
asks = record {
  text = [];
  tool_calls = note_call ∷ [];
  model = codes "m";
  input_tokens = 1;
  output_tokens = 2;
}

abbrev answers : ToolCallResponse
answers = record {
  text = codes "done";
  tool_calls = [];
  model = codes "m";
  input_tokens = 1;
  output_tokens = 2;
}

-- A provider that asks for the note until it is told to answer, and counts its turns.
abbrev provider : Generate ℕ
provider said true history = ok (answers, suc said)
provider said false history = ok (asks, suc said)

abbrev result : ToolLoopResult
result = record {
  text = codes "done";
  model = codes "m";
  input_tokens = 2;
  output_tokens = 4;
  iterations = 2;
  executions = to_execution note_result ∷ [];
  hit_iteration_cap = false;
}

abbrev last : Turn ℕ ℕ
last = record {
  history =
      given (codes "hi")
      ∷ assistant [] (note_call ∷ [])
      ∷ tool_result (codes "c") "note" (to_execution note_result)
      ∷ [];
  executions = to_execution note_result ∷ [];
  events =
      tool_requested "note"
      ∷ tool_running "note" "Note"
      ∷ needs_approval "note" "Note" (some 0)
      ∷ [];
  total_input = 2;
  total_output = 4;
  iteration = 2;
  response = some answers;
  hit_cap = false;
  provider = 2;
  db = prompted;
}

turn-returns :
    run_tool_loop tools
      (writer ∷ [])
      caller
      ("note" ∷ [])
      (some provider)
      2
      (given (codes "hi") ∷ [])
      0
      no_db
    ≡ ok (some result, last)
unfolding run_tool_loop gummy_os.Tools.Catalog.function_schemas gummy_os.Tools.Catalog.resolve
    gummy_os.Tools.Catalog.get gummy_os.Tools.is_executable gummy_os.Actions.Interface.invoke
    gummy_os.Agents.Registry.get gummy_os.Actions.Interface.invoke_known
    gummy_os.Actions.Interface.branch gummy_os.Agents.Policy.evaluate
    gummy_os.Actions.Interface.conclude gummy_os.Actions.Branches.prompt_branch
    gummy_os.Actions.record_invocation gummy_os.Actions.create_pending
    gummy_os.Tools.Arguments.redact_args gummy_os.Common.text_eq gummy_os.Common.lower to_execution
turn-returns = refl

run_tool_loop-IsLimited_example :
    (generate : Generate ℕ) × (◌≡◌ {A = Option (Generate ℕ)} (some provider) (some generate))
    × IsLimited generate 2 0 2 result
run_tool_loop-IsLimited_example =
    run_tool_loop-IsLimited tools (writer ∷ []) caller ("note" ∷ []) (some provider) 2
      (given (codes "hi") ∷ []) 0 no_db result last turn-returns

run_tool_loop-IsTrail_example :
    (rows : List ToolInvocation) × (last.db.invocations ≡ no_db.invocations ++ rows)
    × IsTrail rows result.executions
run_tool_loop-IsTrail_example =
    run_tool_loop-IsTrail tools (writer ∷ []) caller ("note" ∷ []) (some provider) 2
      (given (codes "hi") ∷ []) 0 no_db result last turn-returns
