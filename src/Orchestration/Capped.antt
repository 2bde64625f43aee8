-- ===== src/Orchestration/Capped.antt =====
-- The cap on the steps of a turn (`_RunGuard` of backend/app/services/agents/orchestrator_service.py).
use gummy_os.Common.{
  ℕ, ◌+◌, ◌≤◌, ◌≡◌, refl, String, Text, Bool, true, false, List, length, if◌then◌else◌,
  Option-cases, some, inl, inr, arith, Result-cases,
}
use gummy_os.Routing.{RoutingDecision}
use gummy_os.Orchestration.{Trace}
use gummy_os.Orchestration.Recorder.{
  create_run, set_status, open_run, close_run_success, close_run_failure,
}
use gummy_os.Orchestration.Terminal.{TurnEvent, Calls}
use gummy_os.Orchestration.Turn.{
  execute_branches, execute_steps, conclude, orchestrate_stream, split_last, is_parallel, Executed,
  reply_to,
}
use gummy_os.Orchestration.Counted.{execute-few}

module _ {L P : Type 0} (calls : Calls L P) (message : Text) where
  conclude-steps :
      (parallel : Bool) (run_id : ℕ) (selected : String) (events : List TurnEvent) (e : Executed)
      (t : Trace L)
      → (conclude calls parallel run_id selected events e t).1.steps ≡ t.steps
  unfolding conclude close_run_success close_run_failure set_status reply_to
  conclude-steps true run_id selected events e t = elim (Option-cases (split_last e.results)) [
    | inl empty ↦ rw (conclude, empty) refl
    | inr ((front, last), there) ↦ rw (conclude, there) refl
  ]
  conclude-steps false run_id selected events e t = elim (Option-cases (split_last e.results)) [
    | inl empty ↦ rw (conclude, empty) refl
    | inr ((front, last), there) ↦ rw (conclude, there) refl
  ]

  -- However many steps the plan has, a turn records at most eight steps, and whatever the handlers do.
  pub orchestrate_stream-capped :
      (stream : Bool) (user_id conversation_id : ℕ) (decision : RoutingDecision) (t : Trace L)
      → length (orchestrate_stream calls stream user_id conversation_id message decision t).1.steps
        ≤ length t.steps + 8
  unfolding orchestrate_stream open_run create_run close_run_failure set_status
  orchestrate_stream-capped stream user_id conversation_id decision t =
      elim (Option-cases (split_last decision.steps)) [
        | inl empty ↦ rw (orchestrate_stream, empty) (omega arith)
        | inr ((head, last), there) ↦
            let opened = (open_run user_id (some conversation_id) t).1 in
            let built = calls.build opened.handlers in
            let ready = record opened { handlers = built.1 } in
            let parallel = is_parallel decision.plan_shape in
            elim (Result-cases built.0) [
              | inr (e, raised) ↦ rw (orchestrate_stream, there, raised) (omega arith)
              | inl (done, made) ↦
                  let executed =
                    if parallel
                    then execute_branches calls stream t.next_id message last.agent_key
                        decision.steps ready
                    else execute_steps calls stream t.next_id message head last ready in
                  let few =
                    execute-few t.next_id calls message stream parallel decision.steps head last
                      ready in
                  elim (Result-cases executed.0.1) [
                    | inr (e, failed) ↦ rw (orchestrate_stream, there, made, failed) few
                    | inl (e, passed) ↦
                        rw (orchestrate_stream, there, made, passed)
                          (rw (conclude-steps parallel t.next_id last.agent_key _ e executed.1) few)
                  ]
            ]
      ]
