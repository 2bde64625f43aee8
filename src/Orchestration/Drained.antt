-- ===== src/Orchestration/Drained.antt =====
-- The turn that streams and the turn that does not
-- (backend/app/services/agents/orchestrator_service.py).
use gummy_os.Common.{
  ℕ, ◌≡◌, refl, ap, ◌∙◌, String, Text, Bool, true, false, List, [], if◌then◌else◌, Option-cases,
  some, inl, inr, Result, Result-cases,
}
use gummy_os.Routing.{RouteStep, RoutingDecision}
use gummy_os.Orchestration.{Trace}
use gummy_os.Orchestration.Recorder.{open_run}
use gummy_os.Orchestration.Steps.{run_sequential, run_parallel}
use gummy_os.Orchestration.Handoff.{terminal_scratch}
use gummy_os.Orchestration.Terminal.{TurnEvent, Calls, run_terminal}
use gummy_os.Orchestration.Turn.{
  execute_branches, execute_steps, conclude, orchestrate_stream, orchestrate, split_last,
  is_parallel, new_guard, Executed,
}

-- A turn without its events.
abbrev pub drain :
    {A L : Type 0} → (List TurnEvent × Result Text A) × Trace L → Result Text A × Trace L
drain outcome = (outcome.0.1, outcome.1)

module _ {L P : Type 0} (calls : Calls L P) (message : Text) where
  execute_steps-drain :
      (run_id : ℕ) (head : List RouteStep) (last : RouteStep) (t : Trace L)
      → drain (execute_steps calls true run_id message head last t)
        ≡ drain (execute_steps calls false run_id message head last t)
  unfolding execute_steps
  execute_steps-drain run_id head last t =
      let first = run_sequential calls.dispatch run_id message head [] [] new_guard t in
      elim (Result-cases first.0) [
        | inr (e, failed) ↦ rw (execute_steps, failed) refl
        | inl ((results, guard), made) ↦
            elim (Result-cases
              (run_terminal calls run_id message last (terminal_scratch results) guard
                first.1).0.1) [
                  | inr (e, failed) ↦ rw (execute_steps, made, failed) refl
                  | inl (result, answered) ↦ rw (execute_steps, made, answered) refl
                ]
      ]

  execute_branches-drain :
      (run_id : ℕ) (selected : String) (steps : List RouteStep) (t : Trace L)
      → drain (execute_branches calls true run_id message selected steps t)
        ≡ drain (execute_branches calls false run_id message selected steps t)
  unfolding execute_branches
  execute_branches-drain run_id selected steps t =
      elim (Result-cases (run_parallel calls.gather run_id message steps new_guard t).0) [
        | inr (e, failed) ↦ rw (execute_branches, failed) refl
        | inl (g, made) ↦ rw (execute_branches, made) refl
      ]

  abbrev execute :
      (stream parallel : Bool) (run_id : ℕ) (steps head : List RouteStep) (last : RouteStep)
      (t : Trace L)
      → (List TurnEvent × Result Text Executed) × Trace L
  execute stream parallel run_id steps head last t =
      if parallel
      then execute_branches calls stream run_id message last.agent_key steps t
      else execute_steps calls stream run_id message head last t

  execute-drain :
      (parallel : Bool) (run_id : ℕ) (steps head : List RouteStep) (last : RouteStep) (t : Trace L)
      → drain (execute true parallel run_id steps head last t)
        ≡ drain (execute false parallel run_id steps head last t)
  execute-drain true run_id steps head last t = execute_branches-drain run_id last.agent_key steps t
  execute-drain false run_id steps head last t = execute_steps-drain run_id head last t

  conclude-drain :
      (parallel : Bool) (run_id : ℕ) (selected : String) (events events' : List TurnEvent)
      (e : Executed) (t : Trace L)
      → drain (conclude calls parallel run_id selected events e t)
        ≡ drain (conclude calls parallel run_id selected events' e t)
  unfolding conclude
  conclude-drain parallel run_id selected events events' e t =
      elim (Option-cases (split_last e.results)) [
        | inl empty ↦ rw (conclude, empty) refl
        | inr ((front, last), there) ↦ rw (conclude, there) refl
      ]

  -- `orchestrate`, which holds the text back, returns the result of the turn that streams, or raises its
  -- error, and leaves the same trace and the same state of all that the turn calls.
  pub orchestrate-drains_stream :
      (user_id conversation_id : ℕ) (decision : RoutingDecision) (t : Trace L)
      → orchestrate calls user_id conversation_id message decision t
        ≡ drain (orchestrate_stream calls true user_id conversation_id message decision t)
  unfolding orchestrate orchestrate_stream
  orchestrate-drains_stream user_id conversation_id decision t =
      elim (Option-cases (split_last decision.steps)) [
        | inl empty ↦ rw (orchestrate_stream, empty) refl
        | inr ((head, last), there) ↦
            let opened = (open_run user_id (some conversation_id) t).1 in
            let built = calls.build opened.handlers in
            let ready = record opened { handlers = built.1 } in
            let parallel = is_parallel decision.plan_shape in
            elim (Result-cases built.0) [
              | inr (e, raised) ↦ rw (orchestrate_stream, there, raised) refl
              | inl (done, made) ↦
                  let streamed = execute true parallel t.next_id decision.steps head last ready in
                  let held = execute false parallel t.next_id decision.steps head last ready in
                  let same = execute-drain parallel t.next_id decision.steps head last ready in
                  let outcome : streamed.0.1 ≡ held.0.1 = ap (λ d. d.0) same in
                  let trace : streamed.1 ≡ held.1 = ap (λ d. d.1) same in
                  elim (Result-cases held.0.1) [
                    | inr (e, failed) ↦
                        rw (orchestrate_stream, there, made, outcome ∙ failed, failed, trace) refl
                    | inl (e, passed) ↦
                        rw (orchestrate_stream, there, made, outcome ∙ passed, passed, trace)
                          (conclude-drain parallel t.next_id last.agent_key _ _ e held.1)
                  ]
            ]
      ]
