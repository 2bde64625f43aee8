-- ===== src/Orchestration/Terminal.antt =====
-- The last step of a plan: `_run_terminal_streaming` of
-- backend/app/services/agents/orchestrator_service.py. What it calls is a parameter: the handlers, the tool
-- loop and the model's stream. The generator's events are a list.
use gummy_os.Common.{
  ℕ, String, Text, Bool, ◌&&◌, List, [], ◌∷◌, ◌++◌, map, Option, none, some, if◌then◌else◌, Result,
  ok, err,
}
use gummy_os.Routing.{RouteStep}
use gummy_os.Tools.{Value}
use gummy_os.Tools.Executor.{ToolOutcome}
use gummy_os.Orchestration.{Trace, AgentResult, AgentTask, Scratch}
use gummy_os.Orchestration.Steps.{
  RunGuard, check_before_dispatch, intent_of, Results, begin_step, close_step,
}

pub data TurnEvent : Type 0 where
  status : (stage : String) (agent : Option String) → TurnEvent
  delta : Text → TurnEvent
  tool_status : Value → TurnEvent

pub record LoopResult : Type 0 where
  pub text : Text
  pub model : Text
  pub input_tokens : ℕ
  pub output_tokens : ℕ
  pub executions : List (String × ToolOutcome)

pub record LlmResponse : Type 0 where
  pub text : Text
  pub model : Text
  pub input_tokens : ℕ
  pub output_tokens : ℕ

-- What the turn calls, over its state `L`; `P` is a turn that `handlers.prepare` made ready.
pub record Calls (L P : Type 0) : Type 0 where
  pub build : L → Result Text (Unit {0}) × L
  pub dispatch : AgentTask → L → Result Text AgentResult × L
  pub gather : List AgentTask → L → List (Result Text AgentResult) × L
  pub prepare : AgentTask → L → Result Text (Option P) × L
  pub has_tools : (agent_key : String) → Bool
  pub run_tool_loop :
      (agent_key : String) → P → L → (List Value × Result Text (Option LoopResult)) × L
  pub stream : P → L → (List Text × Result Text (Unit {0})) × L
  pub finish : P → LlmResponse → AgentResult
  pub system_tokens : P → ℕ
  pub estimate_tokens : Text → ℕ
  pub default_model : Text
  pub supports_tool_calling : Bool
  pub supports_streaming : Bool
  pub synthesize_parallel : Results → (failures : List (String × Text)) → L → Text × L

unfoldable join_chunks : List Text → Text
join_chunks [] = []
join_chunks (chunk ∷ rest) = chunk ++ join_chunks rest

-- The result of an answer that the tool loop made.
unfoldable with_tools : LoopResult → AgentResult → AgentResult
with_tools answer result = record result {
  output = record result.output { tools_used = answer.executions };
}

module _ {L P : Type 0} (calls : Calls L P) where
  unfoldable run_model : AgentTask → P → L → (List TurnEvent × Result Text AgentResult) × L
  unfolding join_chunks
  run_model task prepared l =
      let ((chunks, ended), l') = calls.stream prepared l in
      let text = join_chunks chunks in
      let events = map TurnEvent.delta chunks in
      elim ended [
        | err e ↦ ((events, err e), l')
        | ok done ↦ (
          (
            events,
            ok (
                calls.finish prepared record {
                  text = text;
                  model = calls.default_model;
                  input_tokens = calls.system_tokens prepared;
                  output_tokens = calls.estimate_tokens text;
                }),
          ),
          l',
        )
      ]

  unfoldable run_dispatch : AgentTask → L → (List TurnEvent × Result Text AgentResult) × L
  run_dispatch task l =
      let (outcome, l') = calls.dispatch task l in
      elim outcome [
        | err e ↦ (([], err e), l')
        | ok result ↦ ((TurnEvent.delta result.output.reply ∷ [], ok result), l')
      ]

  -- Without an answer of the tool loop: the provider's stream, where it has one.
  unfoldable run_untooled : AgentTask → P → L → (List TurnEvent × Result Text AgentResult) × L
  unfolding run_model run_dispatch
  run_untooled task prepared l =
      if calls.supports_streaming then run_model task prepared l else run_dispatch task l

  -- A tool loop that has no tool to offer gives no result.
  unfoldable run_tools : AgentTask → P → L → (List TurnEvent × Result Text AgentResult) × L
  unfolding with_tools run_untooled
  run_tools task prepared l =
      let ((seen, ended), l') = calls.run_tool_loop task.agent_key prepared l in
      let events = map TurnEvent.tool_status seen in
      elim ended [
        | err e ↦ ((events, err e), l')
        | ok none ↦
            let ((more, outcome), l'') = run_untooled task prepared l' in
            ((events ++ more, outcome), l'')
        | ok (some answer) ↦ (
          (
            events ++ TurnEvent.delta answer.text ∷ [],
            ok (
                with_tools answer (
                  calls.finish prepared record {
                    text = answer.text;
                    model = answer.model;
                    input_tokens = answer.input_tokens;
                    output_tokens = answer.output_tokens;
                  })),
          ),
          l',
        )
      ]

  -- The body of the `try`.
  unfoldable pub answer : AgentTask → L → (List TurnEvent × Result Text AgentResult) × L
  unfolding run_tools run_dispatch run_untooled
  answer task l =
      let (made, l') = calls.prepare task l in
      elim made [
        | err e ↦ (([], err e), l')
        | ok none ↦ run_dispatch task l'
        | ok (some prepared) ↦
            if calls.has_tools task.agent_key && calls.supports_tool_calling
            then run_tools task prepared l'
            else run_untooled task prepared l'
      ]

  unfoldable pub run_terminal :
      (run_id : ℕ) (message : Text)
      → RouteStep
      → (scratch : List Scratch) → RunGuard
      → Trace L
      → (List TurnEvent × Result Text AgentResult) × Trace L
  unfolding check_before_dispatch intent_of begin_step close_step answer
  run_terminal run_id message route_step scratch guard t = elim (check_before_dispatch 1 guard) [
    | err e ↦ (([], err e), t)
    | ok checked ↦
        let key = route_step.agent_key in
        let (step_id, opened) = begin_step run_id key t in
        let ((events, outcome), l) =
          answer
            record {
              run_id = run_id;
              agent_key = key;
              intent = intent_of message route_step;
              scratch = scratch;
            }
            opened.handlers in
        ((events, outcome), close_step run_id key step_id outcome record opened { handlers = l })
  ]
