-- ===== src/Orchestration/Concluded.antt =====
-- How a turn ends (backend/app/services/agents/orchestrator_service.py).
use gummy_os.Common.{
  ℕ, ◌≡◌, refl, String, Text, Bool, true, false, ◌==◌, List, [], if◌then◌else◌, All, All-imp,
  All-append, All-update-split, Option, Option-cases, none, some, inl, inr, arith, Result-cases,
}
use gummy_os.Models.{RunStatus}
use gummy_os.Routing.{RouteStep, RoutingDecision}
use gummy_os.Orchestration.{Trace, AgentResult}
use gummy_os.Orchestration.Recorder.{
  is_end, create_run, set_status, open_run, close_run_success, close_run_failure,
}
use gummy_os.Orchestration.Terminal.{TurnEvent, Calls}
use gummy_os.Orchestration.Turn.{
  execute_branches, execute_steps, conclude, orchestrate_stream, split_last, is_parallel, Executed,
  reply_to,
}
use gummy_os.Orchestration.Closed.{IsTraced, RunIsEnded, StepIsFinished, with-handlers-IsTraced}
use gummy_os.Orchestration.Executed.{GathersAll, execute_steps-IsTraced, execute_branches-IsTraced}

-- No run is running, and no step.
pub record IsConcluded {L : Type 0} (t : Trace L) : Type 0 where
  pub runs : All (λ r. is_end r.status ≡ true) t.runs
  pub steps : All (λ s. s.finished ≡ true) t.steps

module _ {L : Type 0} where
  open_run-IsTraced :
      (user_id : ℕ) (conversation_id : Option ℕ) (t : Trace L)
      → IsConcluded t
      → IsTraced t.next_id [] (open_run user_id conversation_id t).1
  unfolding open_run create_run
  open_run-IsTraced user_id conversation_id t h = record {
    runs =
        All-append (RunIsEnded t.next_id) t.runs _
          (All-imp (λ r. is_end r.status ≡ true) (RunIsEnded t.next_id) t.runs (λ r k. ground arith)
            h.runs)
          (ground arith, tt);
    steps =
        All-imp (λ s. s.finished ≡ true) (StepIsFinished t.next_id []) t.steps (λ s k. ground arith)
          h.steps;
  }

  set_status-IsConcluded :
      (run_id : ℕ) (status : RunStatus) (error : Option Text) (t : Trace L)
      → is_end status ≡ true
      → IsTraced run_id [] t
      → IsConcluded (set_status run_id status error t)
  unfolding set_status
  set_status-IsConcluded run_id status error t ended h = record {
    runs =
        All-update-split (RunIsEnded run_id) (λ r. is_end r.status ≡ true) (λ r. r.id == run_id) _
          t.runs (λ r hit k. ended) (λ r miss k. ground arith) h.runs;
    steps =
        All-imp (StepIsFinished run_id []) (λ s. s.finished ≡ true) t.steps (λ s k. ground arith)
          h.steps;
  }

  close_run_failure-IsConcluded :
      (run_id : ℕ) (error : Text) (t : Trace L)
      → IsTraced run_id [] t
      → IsConcluded (close_run_failure run_id error t)
  unfolding close_run_failure is_end
  close_run_failure-IsConcluded run_id error t =
      set_status-IsConcluded run_id RunStatus.failed (some error) t refl

  close_run_success-IsConcluded :
      (run_id : ℕ) (t : Trace L) → IsTraced run_id [] t → IsConcluded (close_run_success run_id t)
  unfolding close_run_success is_end
  close_run_success-IsConcluded run_id t =
      set_status-IsConcluded run_id RunStatus.succeeded none t refl

  module _ {P : Type 0} (calls : Calls L P) (message : Text) where
    reply_to-IsConcluded :
        (parallel : Bool) (selected : String) (e : Executed) (last : AgentResult) (t : Trace L)
        → IsConcluded t
        → IsConcluded (reply_to calls parallel selected e last t).1
    unfolding reply_to
    reply_to-IsConcluded true selected e last t h = record { runs = h.runs; steps = h.steps }
    reply_to-IsConcluded false selected e last t h = h

    conclude-IsConcluded :
        (parallel : Bool) (run_id : ℕ) (selected : String) (events : List TurnEvent) (e : Executed)
        (t : Trace L)
        → IsTraced run_id [] t
        → IsConcluded (conclude calls parallel run_id selected events e t).1
    unfolding conclude
    conclude-IsConcluded parallel run_id selected events e t h =
        elim (Option-cases (split_last e.results)) [
          | inl empty ↦ rw (conclude, empty) (close_run_failure-IsConcluded run_id _ t h)
          | inr ((front, last), there) ↦
              rw (conclude, there)
                (reply_to-IsConcluded parallel selected e last.1 _
                  (close_run_success-IsConcluded run_id t h))
        ]

    execute-IsTraced :
        GathersAll calls.gather
        → (stream parallel : Bool) (run_id : ℕ) (steps head : List RouteStep) (last : RouteStep)
          (t : Trace L)
        → IsTraced run_id [] t
        → IsTraced run_id []
            (if parallel
              then execute_branches calls stream run_id message last.agent_key steps t
              else execute_steps calls stream run_id message head last t).1
    execute-IsTraced all stream true run_id steps head last t h =
        execute_branches-IsTraced run_id calls message all stream last.agent_key steps t h
    execute-IsTraced all stream false run_id steps head last t h =
        execute_steps-IsTraced run_id calls message stream head last t h

    -- Where no run was running and no step was unfinished, a turn leaves it so: whether it succeeds or
    -- raises, streams or not, and whatever the handlers, the tool loop, the model and the context do, its
    -- run has an end status and each of its steps is finished. `gather` has one outcome for each task.
    pub orchestrate_stream-IsConcluded :
        GathersAll calls.gather
        → (stream : Bool) (user_id conversation_id : ℕ) (decision : RoutingDecision) (t : Trace L)
        → IsConcluded t
        → IsConcluded (orchestrate_stream calls stream user_id conversation_id message decision t).1
    unfolding orchestrate_stream
    orchestrate_stream-IsConcluded all stream user_id conversation_id decision t h =
        elim (Option-cases (split_last decision.steps)) [
          | inl empty ↦ rw (orchestrate_stream, empty) h
          | inr ((head, last), there) ↦
              let opened = (open_run user_id (some conversation_id) t).1 in
              let built = calls.build opened.handlers in
              let ready = record opened { handlers = built.1 } in
              let parallel = is_parallel decision.plan_shape in
              let begun =
                with-handlers-IsTraced t.next_id [] opened built.1
                  (open_run-IsTraced user_id (some conversation_id) t h) in
              elim (Result-cases built.0) [
                | inr (e, raised) ↦
                    rw (orchestrate_stream, there, raised)
                      (close_run_failure-IsConcluded t.next_id e ready begun)
                | inl (done, made) ↦
                    let executed =
                      if parallel
                      then execute_branches calls stream t.next_id message last.agent_key
                          decision.steps ready
                      else execute_steps calls stream t.next_id message head last ready in
                    let ran =
                      execute-IsTraced all stream parallel t.next_id decision.steps head last ready
                        begun in
                    elim (Result-cases executed.0.1) [
                      | inr (e, failed) ↦
                          rw (orchestrate_stream, there, made, failed)
                            (close_run_failure-IsConcluded t.next_id e executed.1 ran)
                      | inl (e, passed) ↦
                          rw (orchestrate_stream, there, made, passed)
                            (conclude-IsConcluded parallel t.next_id last.agent_key _ e executed.1
                              ran)
                    ]
              ]
        ]
