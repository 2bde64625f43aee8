-- ===== src/Orchestration/Accounted.antt =====
-- A turn that returns (backend/app/services/agents/orchestrator_service.py): its run's row against its
-- result.
use mathlib.Core.Path.{subst}
use gummy_os.Common.{
  ℕ, ◌≡◌, refl, String, Text, Bool, true, false, List, [], ◌∷◌, find, find-some, find-append,
  find-update, if◌then◌else◌, Option, Option-cases, none, some, inl, inr, arith, Result-cases, ok,
  ok-injective,
}
use gummy_os.Models.{RunTrigger, RunStatus}
use gummy_os.Routing.{RoutingDecision}
use gummy_os.Orchestration.{AgentRun, Trace, AgentResult}
use gummy_os.Orchestration.Recorder.{is_end, create_run, set_status, open_run, close_run_success}
use gummy_os.Orchestration.Terminal.{TurnEvent, Calls}
use gummy_os.Orchestration.Turn.{
  total, result_of, execute_branches, execute_steps, conclude, orchestrate_stream, split_last,
  is_parallel, Executed, reply_to, OrchestrationResult,
}
use gummy_os.Orchestration.Costs.{is_run, IsCosted, with-handlers-IsCosted}
use gummy_os.Orchestration.Recorded.{execute-IsCosted}

-- The row of the result's run: it succeeded, at the result's cost.
pub record IsAccounted {L : Type 0} (result : OrchestrationResult) (t : Trace L) : Type 0 where
  pub row : AgentRun
  pub there : find (is_run result.run_id) t.runs ≡ some row
  pub succeeded : row.status ≡ RunStatus.succeeded
  pub finished : row.finished ≡ true
  pub tokens : row.cost_tokens ≡ result.tokens
  pub usd : row.cost_usd ≡ result.usd

module _ {L : Type 0} where
  open_run-IsCosted :
      (user_id : ℕ) (conversation_id : Option ℕ) (t : Trace L)
      → find (is_run t.next_id) t.runs ≡ none
      → IsCosted t.next_id [] (open_run user_id conversation_id t).1
  unfolding open_run create_run total
  open_run-IsCosted user_id conversation_id t fresh =
      let begun : AgentRun = record {
        id = t.next_id;
        user_id = user_id;
        conversation_id = conversation_id;
        trigger = RunTrigger.chat;
        status = RunStatus.running;
        error = none;
        cost_tokens = 0;
        cost_usd = 0;
        finished = false;
      } in
      record {
        row = begun;
        there = rw (find-append (is_run t.next_id) t.runs (begun ∷ []), fresh) (ground arith);
        tokens = refl;
        usd = refl;
      }

module _ {L P : Type 0} (calls : Calls L P) (message : Text) where
  reply_to-IsAccounted :
      (parallel : Bool) (run_id : ℕ) (selected : String) (e : Executed)
      (last : String × AgentResult) (t : Trace L)
      → IsCosted run_id e.results t
      → let ((more, reply), t') =
          reply_to calls parallel selected e last.1 (close_run_success run_id t) in
        IsAccounted (result_of parallel run_id reply e.results last) t'
  unfolding reply_to result_of close_run_success set_status is_end
  reply_to-IsAccounted true run_id selected e last t h = record {
    row = record h.row { status = RunStatus.succeeded; error = none; finished = true };
    there =
        find-update (is_run run_id) _ t.runs h.row h.there
          (find-some (is_run run_id) t.runs h.row h.there);
    succeeded = refl;
    finished = refl;
    tokens = h.tokens;
    usd = h.usd;
  }
  reply_to-IsAccounted false run_id selected e last t h = record {
    row = record h.row { status = RunStatus.succeeded; error = none; finished = true };
    there =
        find-update (is_run run_id) _ t.runs h.row h.there
          (find-some (is_run run_id) t.runs h.row h.there);
    succeeded = refl;
    finished = refl;
    tokens = h.tokens;
    usd = h.usd;
  }

  conclude-IsAccounted :
      (parallel : Bool) (run_id : ℕ) (selected : String) (events : List TurnEvent) (e : Executed)
      (t : Trace L) (result : OrchestrationResult)
      → IsCosted run_id e.results t
      → (conclude calls parallel run_id selected events e t).0.1 ≡ ok result
      → IsAccounted result (conclude calls parallel run_id selected events e t).1
  unfolding conclude
  conclude-IsAccounted parallel run_id selected events e t result h same =
      elim (Option-cases (split_last e.results)) [
        | inl empty ↦ absurd (let no = rw (conclude, empty) at same in cc)
        | inr ((front, last), there) ↦
            let ended = rw (conclude, there) at same in
            rw (conclude, there)
              (subst
                (λ x.
                  IsAccounted x
                    (reply_to calls parallel selected e last.1 (close_run_success run_id t)).1)
                (ok-injective ended) (reply_to-IsAccounted parallel run_id selected e last t h))
      ]

  -- A turn that returns a result, where the id that is free is no run's yet, leaves the row of the result's
  -- run succeeded and finished, and with the cost of the result, in tokens and in dollars: no step's cost
  -- is lost or counted twice, of a single agent, of a pipeline and of branches.
  pub orchestrate_stream-IsAccounted :
      (stream : Bool) (user_id conversation_id : ℕ) (decision : RoutingDecision) (t : Trace L)
      (result : OrchestrationResult)
      → find (is_run t.next_id) t.runs ≡ none
      → (orchestrate_stream calls stream user_id conversation_id message decision t).0.1 ≡ ok result
      → IsAccounted result
          (orchestrate_stream calls stream user_id conversation_id message decision t).1
  unfolding orchestrate_stream
  orchestrate_stream-IsAccounted stream user_id conversation_id decision t result fresh same =
      elim (Option-cases (split_last decision.steps)) [
        | inl empty ↦ absurd (let no = rw (orchestrate_stream, empty) at same in cc)
        | inr ((head, last), there) ↦
            let opened = (open_run user_id (some conversation_id) t).1 in
            let built = calls.build opened.handlers in
            let ready = record opened { handlers = built.1 } in
            let parallel = is_parallel decision.plan_shape in
            let begun =
              with-handlers-IsCosted t.next_id [] opened built.1
                (open_run-IsCosted user_id (some conversation_id) t fresh) in
            elim (Result-cases built.0) [
              | inr (e, raised) ↦
                  absurd (let no = rw (orchestrate_stream, there, raised) at same in cc)
              | inl (done, made) ↦
                  let executed =
                    if parallel
                    then execute_branches calls stream t.next_id message last.agent_key
                        decision.steps ready
                    else execute_steps calls stream t.next_id message head last ready in
                  elim (Result-cases executed.0.1) [
                    | inr (e, failed) ↦
                        absurd (let no = rw (orchestrate_stream, there, made, failed) at same in cc)
                    | inl (e, passed) ↦
                        rw (orchestrate_stream, there, made, passed)
                          (conclude-IsAccounted parallel t.next_id last.agent_key _ e executed.1
                            result
                            (execute-IsCosted t.next_id calls message stream parallel decision.steps
                              head last ready e begun passed)
                            (rw (orchestrate_stream, there, made, passed) at same))
                  ]
            ]
      ]
