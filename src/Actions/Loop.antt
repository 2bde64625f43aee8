-- ===== src/Actions/Loop.antt =====
-- The agent tool loop (backend/app/services/agents/tools/loop.py). The provider is a parameter: a
-- function of its own state, of whether the closing note is appended to the system prompt, and of
-- the history. One instant stands for the whole turn (`Caller.now`). An exception of the provider
-- or of `invoke` leaves the loop, and the caller's transaction with it.
pub mod Limits
pub mod Trail
use gummy_os.Common.{
  ℕ, zero, suc, ◌+◌, ◌==◌, String, Text, codes, Bool, true, false, ◌&&◌, List, [], ◌∷◌, ◌++◌, take,
  Option, none, some, Result, ok, err, if◌then◌else◌,
}
use gummy_os.Tools.{Args, ToolSpec}
use gummy_os.Tools.Catalog.{get, function_schemas}
use gummy_os.Tools.Executor.{ToolOutcome, approval_required, ok_outcome}
use gummy_os.Agents.{AgentManifest}
use gummy_os.Actions.{Db}
use gummy_os.Actions.Branches.{InvokeError, Caller}
use gummy_os.Actions.Interface.{ResultExecution, to_execution, invoke}

-- `MAX_TOOL_ITERATIONS` and `MAX_TOOL_CALLS_PER_STEP` of backend/app/core/constants.py
abbrev max_tool_iterations : ℕ
max_tool_iterations = 4

abbrev pub max_tool_calls_per_step : ℕ
max_tool_calls_per_step = 3

-- `ToolCall` and `ToolCallResponse` of backend/app/services/llm/base.py
pub record ToolCall : Type 0 where
  pub id : Text
  pub name : String
  pub arguments : Args

pub record ToolCallResponse : Type 0 where
  pub text : Text
  pub tool_calls : List ToolCall
  pub model : Text
  pub input_tokens : ℕ
  pub output_tokens : ℕ

unfoldable pub wants_tools : ToolCallResponse → Bool
wants_tools response = elim response.tool_calls [ [] ↦ false | c ∷ rest ↦ true ]

-- A message of the history: one that was there, the model's own turn, or a tool's result.
pub data Message : Type 0 where
  given : Text → Message
  assistant : (text : Text) → List ToolCall → Message
  tool_result : (tool_call_id : Text) (name : String) → ResultExecution → Message

-- The progress events.
pub data ToolStatus : Type 0 where
  tool_requested : (tool : String) → ToolStatus
  tool_running : (tool label : String) → ToolStatus
  needs_approval : (tool label : String) (approval_id : Option ℕ) → ToolStatus
  tool_completed : (tool label : String) (duration_ms : ℕ) → ToolStatus
  tool_failed : (tool label : String) → ToolOutcome → ToolStatus

pub record ToolLoopResult : Type 0 where
  pub text : Text
  pub model : Text
  pub input_tokens : ℕ
  pub output_tokens : ℕ
  pub iterations : ℕ
  pub executions : List ResultExecution
  pub hit_iteration_cap : Bool

pub data LoopError : Type 0 where
  provider_error : Text → LoopError
  invoke_error : InvokeError → LoopError

-- The local variables of the loop, the provider's state and the tables.
pub record Turn (W L : Type 0) : Type 0 where
  pub history : List Message
  pub executions : List ResultExecution
  pub events : List ToolStatus
  pub total_input : ℕ
  pub total_output : ℕ
  pub iteration : ℕ
  pub response : Option ToolCallResponse
  pub hit_cap : Bool
  pub provider : L
  pub db : Db W

-- `generate_with_tools`
abbrev pub Generate : Type 0 → Type 0
Generate L = L → (is_final : Bool) → List Message → Result Text (ToolCallResponse × L)

-- The event that ends a call.
unfoldable ended_event : (tool label : String) → ResultExecution → ToolStatus
ended_event tool label result = elim result.outcome [
  | approval_required ↦ needs_approval tool label result.approval_id
  | outcome ↦
      if ok_outcome outcome
      then tool_completed tool label result.duration_ms
      else tool_failed tool label outcome
]

-- The answer where the cap fired and the model wrote no text.
abbrev cap_answer : Text
cap_answer =
    codes
      "I gathered what I could but wasn't able to finish that investigation. Could you narrow the question a little?"

module _ {W L : Type 0} where
  -- The turn after the model's response.
  unfoldable pub heard : ToolCallResponse → L → Turn W L → Turn W L
  heard response provider turn = record turn {
    total_input = turn.total_input + response.input_tokens;
    total_output = turn.total_output + response.output_tokens;
    iteration = suc turn.iteration;
    response = some response;
    provider = provider;
  }

  -- `history.append(_assistant_message(response))`
  unfoldable pub echoed : ToolCallResponse → Turn W L → Turn W L
  echoed response turn = record turn {
    history = turn.history ++ assistant response.text response.tool_calls ∷ [];
  }

  unfoldable pub start : List Message → L → Db W → Turn W L
  start messages provider db = record {
    history = messages;
    executions = [];
    events = [];
    total_input = 0;
    total_output = 0;
    iteration = 0;
    response = none;
    hit_cap = false;
    provider = provider;
    db = db;
  }

  -- `text`, with the answer of the cap.
  unfoldable pub text_of : Turn W L → Text
  text_of turn =
      let text : Text = elim turn.response [ none ↦ [] | some response ↦ response.text ] in
      if turn.hit_cap then elim text [ [] ↦ cap_answer | c ∷ s ↦ c ∷ s ] else text

  unfoldable pub result_of : Turn W L → ToolLoopResult
  unfolding text_of
  result_of turn = record {
    text = text_of turn;
    model = elim turn.response [ none ↦ [] | some response ↦ response.model ];
    input_tokens = turn.total_input;
    output_tokens = turn.total_output;
    iterations = turn.iteration;
    executions = turn.executions;
    hit_iteration_cap = turn.hit_cap;
  }

module _ {W : Type 0} (tools : List (ToolSpec W)) (registry : List AgentManifest)
    (caller : Caller) where
  unfoldable label_of : String → String
  label_of name = elim (get tools name) [ none ↦ name | some spec ↦ spec.name ]

  module _ {L : Type 0} where
    -- The body of `for call in calls`.
    unfoldable pub run_call : ToolCall → Turn W L → Result LoopError (Turn W L)
    unfolding label_of ended_event to_execution
    run_call call turn = elim (invoke tools registry caller call.name call.arguments turn.db) [
      | err e ↦ err (invoke_error e)
      | ok (gate, db) ↦
          let result = to_execution gate in
          ok (record turn {
            history = turn.history ++ tool_result call.id call.name result ∷ [];
            executions = turn.executions ++ result ∷ [];
            events =
                turn.events
                ++ tool_requested call.name
                  ∷ tool_running call.name (label_of call.name)
                  ∷ ended_event call.name (label_of call.name) result
                  ∷ [];
            db = db;
          })
    ]

    unfoldable pub run_calls : List ToolCall → Turn W L → Result LoopError (Turn W L)
    unfolding run_call
    run_calls [] turn = ok turn
    run_calls (call ∷ rest) turn = elim (run_call call turn) [
      | err e ↦ err e
      | ok next ↦ run_calls rest next
    ]

    -- The `while` loop with `remaining` iterations to go, and its `else`.
    unfoldable pub iterate : Generate L → (remaining : ℕ) → Turn W L → Result LoopError (Turn W L)
    unfolding run_calls heard echoed wants_tools
    iterate generate zero turn = ok (record turn { hit_cap = true })
    iterate generate (suc remaining) turn =
        elim (generate turn.provider (remaining == 0) turn.history) [
          | err e ↦ err (provider_error e)
          | ok (response, provider) ↦
              let turn1 = heard response provider turn in
              elim (wants_tools response) [
                | false ↦ ok turn1
                | true ↦
                    elim (run_calls (take max_tool_calls_per_step response.tool_calls)
                      (echoed response turn1)) [
                        | err e ↦ err e
                        | ok turn2 ↦ iterate generate remaining turn2
                      ]
              ]
        ]

    -- A provider that cannot call tools is `none`; then, and without a tool to offer, there is no
    -- result and nothing happens.
    unfoldable pub run_tool_loop :
        (tool_keys : List String)
        → Option (Generate L)
        → (max_iterations : ℕ) → List Message
        → L
        → Db W
        → Result LoopError (Option ToolLoopResult × Turn W L)
    unfolding iterate start result_of
    run_tool_loop tool_keys llm max_iterations messages provider db =
        elim (function_schemas tools tool_keys) [
          | [] ↦ ok (none, start messages provider db)
          | schema ∷ rest ↦ elim llm [
            | none ↦ ok (none, start messages provider db)
            | some generate ↦ elim (iterate generate max_iterations (start messages provider db)) [
              | err e ↦ err e
              | ok turn ↦ ok (some (result_of turn), turn)
            ]
          ]
        ]
