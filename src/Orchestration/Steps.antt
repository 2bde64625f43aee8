-- ===== src/Orchestration/Steps.antt =====
-- The steps of a run (backend/app/services/agents/orchestrator_service.py): the guard of its caps, the
-- steps in order, and the branches that run at once. The agents' handlers are parameters, with the state
-- that they reach; `gather` is `asyncio.gather` over them.
use gummy_os.Common.{
  ℕ, ◌+◌, String, Text, codes, leb, ltb, List, [], ◌∷◌, ◌++◌, length, none, some, if◌then◌else◌,
  Result, ok, err,
}
use gummy_os.Models.{AgentMessageRole}
use gummy_os.Routing.{RouteStep}
use gummy_os.Orchestration.{Trace, AgentResult, AgentTask, Scratch}
use gummy_os.Orchestration.Recorder.{
  open_step, close_step_success, close_step_failure, append_message,
}
use gummy_os.Orchestration.Handoff.{build_handoff}

abbrev pub agent_max_run_steps : ℕ
agent_max_run_steps = 8

abbrev agent_max_run_cost_tokens : ℕ
agent_max_run_cost_tokens = 60000

abbrev orchestrator_actor : String
orchestrator_actor = "orchestrator"

pub record RunGuard : Type 0 where
  pub steps : ℕ
  pub cost_tokens : ℕ

unfoldable pub check_before_dispatch : (branch_count : ℕ) → RunGuard → Result Text (Unit {0})
check_before_dispatch branch_count guard =
    if ltb agent_max_run_steps (guard.steps + branch_count)
    then err (codes "run step cap reached (8)")
    else if leb agent_max_run_cost_tokens guard.cost_tokens
    then err (codes "run cost cap reached (60000 tokens)")
    else ok tt

unfoldable pub record_result : AgentResult → RunGuard → RunGuard
record_result result guard = record guard {
  steps = guard.steps + 1;
  cost_tokens = guard.cost_tokens + result.tokens;
}

-- `route_step.intent or message`
unfoldable pub intent_of : (message : Text) → RouteStep → Text
intent_of message step = elim step.intent [
  | none ↦ message
  | some text ↦ elim text [ [] ↦ message | c ∷ s ↦ c ∷ s ]
]

abbrev pub Results : Type 0
Results = List (String × AgentResult)

-- The agent that the hand-off is for, or "".
unfoldable next_agent : List RouteStep → String
next_agent [] = ""
next_agent (step ∷ rest) = step.agent_key

unfoldable hand_over : (agent_key : String) → AgentResult → (rest : List RouteStep) → Scratch
unfolding build_handoff next_agent
hand_over agent_key result rest = record {
  agent_key = agent_key;
  output = result.output;
  handoff = some (build_handoff agent_key (next_agent rest) result);
}

pub record Branch : Type 0 where
  pub agent_key : String
  pub intent : Text
  pub step_id : ℕ

pub record Gathered : Type 0 where
  pub guard : RunGuard
  pub results : Results
  pub failures : List (String × Text)

unfoldable pub note_outcome : Branch → Result Text AgentResult → Gathered → Gathered
unfolding record_result
note_outcome b (err e) g = record g { failures = g.failures ++ (b.agent_key, e) ∷ [] }
note_outcome b (ok result) g = record g {
  guard = record_result result g.guard;
  results = g.results ++ (b.agent_key, result) ∷ [];
}

unfoldable pub branch_tasks : (run_id : ℕ) → List Branch → List AgentTask
branch_tasks run_id [] = []
branch_tasks run_id (b ∷ rest) =
    record { run_id = run_id; agent_key = b.agent_key; intent = b.intent; scratch = [] }
    ∷ branch_tasks run_id rest

unfoldable failure_details : List (String × Text) → Text
failure_details [] = []
failure_details ((key, error) ∷ []) = codes key ++ codes ": " ++ error
failure_details ((key, error) ∷ next ∷ rest) =
    codes key ++ codes ": " ++ error ++ codes "; " ++ failure_details (next ∷ rest)

unfoldable pub some_result : Gathered → Result Text Gathered
unfolding failure_details
some_result g = elim g.results [
  | [] ↦ err (codes "all parallel branches failed: " ++ failure_details g.failures)
  | r ∷ more ↦ ok g
]

module _ {L : Type 0} where
  -- A step is opened, and its task sent.
  unfoldable pub begin_step : (run_id : ℕ) (agent_key : String) → Trace L → ℕ × Trace L
  unfolding open_step append_message
  begin_step run_id agent_key t =
      let (step_id, t') = open_step run_id agent_key t in
      (step_id, append_message run_id orchestrator_actor (some agent_key) AgentMessageRole.task t')

  unfoldable pub fail_step :
      (run_id : ℕ) (agent_key : String) (step_id : ℕ) (error : Text) → Trace L → Trace L
  unfolding close_step_failure append_message
  fail_step run_id agent_key step_id error t =
      append_message run_id agent_key none AgentMessageRole.error
        (close_step_failure step_id error t)

  unfoldable pub pass_step :
      (run_id : ℕ) (agent_key : String) (step_id : ℕ) → AgentResult → Trace L → Trace L
  unfolding close_step_success append_message
  pass_step run_id agent_key step_id result t =
      append_message run_id agent_key none AgentMessageRole.result
        (close_step_success run_id step_id result.tokens result.usd t)

  -- A step is closed by how its agent ended.
  unfoldable pub close_step :
      (run_id : ℕ) (agent_key : String) (step_id : ℕ) → Result Text AgentResult → Trace L → Trace L
  unfolding fail_step pass_step
  close_step run_id agent_key step_id (err error) t = fail_step run_id agent_key step_id error t
  close_step run_id agent_key step_id (ok result) t = pass_step run_id agent_key step_id result t

  module _ (dispatch : AgentTask → L → Result Text AgentResult × L) (run_id : ℕ)
      (message : Text) where
    -- One turn of the loop, past the guard.
    unfoldable pub run_step :
        RouteStep → (scratch : List Scratch) → Trace L → Result Text AgentResult × Trace L
    unfolding intent_of begin_step close_step
    run_step route_step scratch t =
        let key = route_step.agent_key in
        let (step_id, opened) = begin_step run_id key t in
        let (outcome, l) =
          dispatch
            record {
              run_id = run_id;
              agent_key = key;
              intent = intent_of message route_step;
              scratch = scratch;
            }
            opened.handlers in
        (outcome, close_step run_id key step_id outcome record opened { handlers = l })

    unfoldable pub run_sequential :
        List RouteStep
        → (scratch : List Scratch) (results : Results) → RunGuard
        → Trace L
        → Result Text (Results × RunGuard) × Trace L
    unfolding check_before_dispatch record_result run_step hand_over
    run_sequential [] scratch results guard t = (ok (results, guard), t)
    run_sequential (route_step ∷ rest) scratch results guard t =
        elim (check_before_dispatch 1 guard) [
          | err e ↦ (err e, t)
          | ok checked ↦
              let (outcome, ran) = run_step route_step scratch t in
              elim outcome [
                | err e ↦ (err e, ran)
                | ok result ↦
                    run_sequential rest (scratch ++ hand_over route_step.agent_key result rest ∷ [])
                      (results ++ (route_step.agent_key, result) ∷ []) (record_result result guard)
                      ran
              ]
        ]

  module _ (run_id : ℕ) where
    unfoldable pub open_branches :
        (message : Text) → List RouteStep → Trace L → List Branch × Trace L
    unfolding begin_step intent_of
    open_branches message [] t = ([], t)
    open_branches message (route_step ∷ rest) t =
        let (step_id, opened) = begin_step run_id route_step.agent_key t in
        let (branches, last) = open_branches message rest opened in
        (
          record {
            agent_key = route_step.agent_key;
            intent = intent_of message route_step;
            step_id = step_id;
          }
              ∷ branches,
          last,
        )

    -- `zip(..., strict=True)` raises when one of the lists is shorter.
    unfoldable pub close_branches :
        List Branch
        → (outcomes : List (Result Text AgentResult)) → Gathered
        → Trace L
        → Result Text Gathered × Trace L
    unfolding note_outcome close_step
    close_branches [] [] g t = (ok g, t)
    close_branches [] (o ∷ more) g t = (err (codes "zip() argument 2 is longer than argument 1"), t)
    close_branches (b ∷ rest) [] g t =
        (err (codes "zip() argument 2 is shorter than argument 1"), t)
    close_branches (b ∷ rest) (outcome ∷ more) g t =
        close_branches rest more (note_outcome b outcome g)
          (close_step run_id b.agent_key b.step_id outcome t)

  unfoldable pub run_parallel :
      (gather : List AgentTask → L → List (Result Text AgentResult) × L) (run_id : ℕ)
      (message : Text)
      → List RouteStep
      → RunGuard
      → Trace L
      → Result Text Gathered × Trace L
  unfolding check_before_dispatch open_branches branch_tasks close_branches some_result
  run_parallel gather run_id message steps guard t =
      elim (check_before_dispatch (length steps) guard) [
        | err e ↦ (err e, t)
        | ok checked ↦
            let (branches, opened) = open_branches run_id message steps t in
            let (outcomes, l) = gather (branch_tasks run_id branches) opened.handlers in
            let (closed, last) =
              close_branches run_id branches outcomes
                record { guard = guard; results = []; failures = [] }
                record opened { handlers = l } in
            elim closed [ err e ↦ (err e, last) | ok g ↦ (some_result g, last) ]
      ]
