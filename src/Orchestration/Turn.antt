-- ===== src/Orchestration/Turn.antt =====
-- `orchestrate_stream` and `orchestrate` of backend/app/services/agents/orchestrator_service.py, from the
-- router's decision on. Spans, analytics and the metadata that repeats the decision are left out.
use gummy_os.Common.{
  ℕ, ◌+◌, max, String, Text, codes, strip, Bool, true, false, List, [], ◌∷◌, ◌++◌, Option, none,
  some, if◌then◌else◌, Result, ok, err,
}
use gummy_os.Models.{PlanShape}
use gummy_os.Routing.{RouteStep, RoutingDecision}
use gummy_os.Tools.{Value}
use gummy_os.Orchestration.{Trace, AgentResult}
use gummy_os.Orchestration.Recorder.{open_run, close_run_success, close_run_failure}
use gummy_os.Orchestration.Handoff.{terminal_scratch}
use gummy_os.Orchestration.Steps.{RunGuard, Results, run_sequential, run_parallel}
use gummy_os.Orchestration.Terminal.{TurnEvent, Calls, run_terminal}

pub record OrchestrationResult : Type 0 where
  pub reply : Text
  pub run_id : ℕ
  pub proposed_actions : List Value
  pub proposed_memories : List Value
  pub citations : List Value
  pub tokens : ℕ
  pub usd : ℕ
  pub agent_key : String
  pub web_sources : List Value
  pub grounding_memories : List Text
  pub model : Text
  pub memories_used : ℕ
  pub input_tokens : ℕ
  pub output_tokens : ℕ

-- `xs[:-1]` and `xs[-1]`
unfoldable pub split_last {ℓ} : {A : Type ℓ} → List A → Option (List A × A)
split_last [] = none
split_last (x ∷ rest) = elim (split_last rest) [
  | none ↦ some ([], x)
  | some (front, last) ↦ some (x ∷ front, last)
]

unfoldable pub is_parallel : PlanShape → Bool
is_parallel PlanShape.parallel = true
is_parallel PlanShape.single = false
is_parallel PlanShape.pipeline = false

unfoldable pub total : (AgentResult → ℕ) → Results → ℕ
total f [] = 0
total f ((key, r) ∷ rest) = f r + total f rest

unfoldable collect {ℓ} : {A : Type ℓ} → (AgentResult → List A) → Results → List A
collect f [] = []
collect f ((key, r) ∷ rest) = f r ++ collect f rest

-- The first result that names its model.
unfoldable first_model : Results → Text
first_model [] = []
first_model ((key, r) ∷ rest) =
    let further = first_model rest in elim r.output.model [ [] ↦ further | c ∷ s ↦ c ∷ s ]

unfoldable most_memories : Results → ℕ
most_memories [] = 0
most_memories ((key, r) ∷ rest) = max r.output.memories_used (most_memories rest)

-- backend/app/services/agents/compose.py
abbrev empty_reply_fallback : String
empty_reply_fallback =
    "I wasn't able to put an answer together for that one. Could you try rephrasing it, or narrowing it to the part you most want?"

-- `compose_reply` of a plan that is not parallel.
unfoldable compose_reply : (last : AgentResult) → Text
compose_reply last = elim (strip last.output.reply) [
  | [] ↦ codes empty_reply_fallback
  | c ∷ s ↦ c ∷ s
]

abbrev pub new_guard : RunGuard
new_guard = record { steps = 0; cost_tokens = 0 }

pub record Executed : Type 0 where
  pub results : Results
  pub failures : List (String × Text)

unfoldable pub result_of :
    (parallel : Bool) (run_id : ℕ) (reply : Text)
    → Results
    → (last : String × AgentResult) → OrchestrationResult
unfolding total collect first_model most_memories
result_of parallel run_id reply results (key, last) = record {
  reply = reply;
  run_id = run_id;
  proposed_actions = collect (λ r. r.proposed_actions) results;
  proposed_memories = collect (λ r. r.proposed_memories) results;
  citations = collect (λ r. r.citations) results;
  tokens = total (λ r. r.tokens) results;
  usd = total (λ r. r.usd) results;
  agent_key = key;
  web_sources = collect (λ r. r.output.web_sources) results;
  grounding_memories = collect (λ r. r.output.grounding_memories) results;
  model = if parallel then first_model results else last.output.model;
  memories_used = if parallel then most_memories results else last.output.memories_used;
  input_tokens =
      if parallel then total (λ r. r.output.input_tokens) results else last.output.input_tokens;
  output_tokens =
      if parallel then total (λ r. r.output.output_tokens) results else last.output.output_tokens;
}

unfoldable gathering : (head : List RouteStep) → List TurnEvent
gathering [] = []
gathering (step ∷ rest) = TurnEvent.status "gathering" (some step.agent_key) ∷ []

module _ {L P : Type 0} (calls : Calls L P) (stream : Bool) (run_id : ℕ) (message : Text) where
  unfoldable pub execute_branches :
      (selected : String)
      → List RouteStep
      → Trace L
      → (List TurnEvent × Result Text Executed) × Trace L
  unfolding run_parallel
  execute_branches selected steps t =
      let events = TurnEvent.status "delegating" (some selected) ∷ [] in
      let (outcome, last) = run_parallel calls.gather run_id message steps new_guard t in
      elim outcome [
        | err e ↦ ((events, err e), last)
        | ok g ↦ ((events, ok record { results = g.results; failures = g.failures }), last)
      ]

  -- The deltas of a caller that does not stream: the reply at the end.
  unfoldable pub shown : List TurnEvent → AgentResult → List TurnEvent
  shown events result = if stream then events else TurnEvent.delta result.output.reply ∷ []

  unfoldable pub execute_steps :
      (head : List RouteStep) (last : RouteStep)
      → Trace L
      → (List TurnEvent × Result Text Executed) × Trace L
  unfolding run_sequential run_terminal terminal_scratch shown gathering
  execute_steps head last t =
      let (first, before) = run_sequential calls.dispatch run_id message head [] [] new_guard t in
      elim first [
        | err e ↦ ((gathering head, err e), before)
        | ok (results, guard) ↦
            let ((events, outcome), after) =
              run_terminal calls run_id message last (terminal_scratch results) guard before in
            let answering =
              gathering head ++ TurnEvent.status "answering" (some last.agent_key) ∷ [] in
            elim outcome [
              | err e ↦ ((answering ++ (if stream then events else []), err e), after)
              | ok result ↦ (
                (
                  answering ++ shown events result,
                  ok record { results = results ++ (last.agent_key, result) ∷ []; failures = [] },
                ),
                after,
              )
            ]
      ]

module _ {L P : Type 0} (calls : Calls L P) where
  abbrev Outcome : Type 0
  Outcome = (List TurnEvent × Result Text OrchestrationResult) × Trace L

  -- The reply of a run that succeeded.
  unfoldable pub reply_to :
      (parallel : Bool) (selected : String)
      → Executed
      → AgentResult
      → Trace L
      → (List TurnEvent × Text) × Trace L
  unfolding compose_reply
  reply_to true selected e last t =
      let (reply, l) = calls.synthesize_parallel e.results e.failures t.handlers in
      (
        (TurnEvent.status "synthesizing" (some selected) ∷ TurnEvent.delta reply ∷ [], reply),
        record t { handlers = l },
      )
  reply_to false selected e last t = (([], compose_reply last), t)

  unfoldable pub conclude :
      (parallel : Bool) (run_id : ℕ) (selected : String) (events : List TurnEvent)
      → Executed
      → Trace L
      → Outcome
  unfolding split_last result_of reply_to close_run_success close_run_failure
  conclude parallel run_id selected events e t = elim (split_last e.results) [
    | none ↦
        let error = codes "router produced an empty route plan" in
        ((events, err error), close_run_failure run_id error t)
    | some (front, last) ↦
        let ((more, reply), t') =
          reply_to parallel selected e last.1 (close_run_success run_id t) in
        ((events ++ more, ok (result_of parallel run_id reply e.results last)), t')
  ]

  unfoldable pub orchestrate_stream :
      (stream : Bool) (user_id conversation_id : ℕ) (message : Text)
      → RoutingDecision
      → Trace L
      → Outcome
  unfolding split_last is_parallel open_run execute_branches execute_steps conclude
      close_run_failure
  orchestrate_stream stream user_id conversation_id message decision t =
      let understanding = TurnEvent.status "understanding" none ∷ [] in
      elim (split_last decision.steps) [
        | none ↦ ((understanding, err (codes "list index out of range")), t)
        | some (head, last) ↦
            let (run_id, opened) = open_run user_id (some conversation_id) t in
            let (built, l) = calls.build opened.handlers in
            let ready = record opened { handlers = l } in
            let begun = understanding ++ TurnEvent.status "retrieving_context" none ∷ [] in
            let parallel = is_parallel decision.plan_shape in
            elim built [
              | err e ↦ ((begun, err e), close_run_failure run_id e ready)
              | ok done ↦
                  let ((events, outcome), ran) =
                    if parallel
                    then execute_branches calls stream run_id message last.agent_key decision.steps
                        ready
                    else execute_steps calls stream run_id message head last ready in
                  elim outcome [
                    | err e ↦ ((begun ++ events, err e), close_run_failure run_id e ran)
                    | ok e ↦ conclude parallel run_id last.agent_key (begun ++ events) e ran
                  ]
            ]
      ]

  -- The drain of the events.
  unfoldable pub orchestrate :
      (user_id conversation_id : ℕ) (message : Text)
      → RoutingDecision
      → Trace L
      → Result Text OrchestrationResult × Trace L
  unfolding orchestrate_stream
  orchestrate user_id conversation_id message decision t =
      let ((events, result), t') =
        orchestrate_stream false user_id conversation_id message decision t in
      (result, t')
