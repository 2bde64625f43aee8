-- ===== src/Orchestration/Closed.antt =====
-- The trace that a turn leaves (backend/app/services/agents/orchestrator_service.py over run_recorder.py).
use gummy_os.Common.{
  ℕ, ◌≡◌, refl, String, Text, Bool, Bool-cases, true, ◌||◌, ◌==◌, List, [], ◌∷◌, ◌++◌, any, All,
  All-imp, All-append, All-update, All-update-split, Option, none, some, inl, inr, arith, Result,
  Result-cases, ok, err,
}
use gummy_os.Models.{StepStatus}
use gummy_os.Routing.{RouteStep}
use gummy_os.Orchestration.{AgentRun, AgentStep, Trace, AgentResult, AgentTask, Scratch}
use gummy_os.Orchestration.Recorder.{
  is_end, add_cost, append_step, finish_step, append_message, open_step, close_step_success,
  close_step_failure,
}
use gummy_os.Orchestration.Steps.{
  RunGuard, check_before_dispatch, Results, begin_step, fail_step, pass_step, close_step, run_step,
  run_sequential,
}

any-front : (p : ℕ → Bool) (front rest : List ℕ) → any p front ≡ true → any p (front ++ rest) ≡ true
any-front p [] rest h = absurd (ground arith)
any-front p (i ∷ front) rest h = elim (Bool-cases (p i)) [
  | inl here ↦ ground arith
  | inr there ↦ ground (arith, any-front p front rest)
]

any-last : (p : ℕ → Bool) (front : List ℕ) (i : ℕ) → p i ≡ true → any p (front ++ i ∷ []) ≡ true
any-last p [] i h = ground arith
any-last p (j ∷ front) i h = elim (Bool-cases (p j)) [
  | inl here ↦ ground arith
  | inr there ↦ ground (arith, any-last p front i)
]

module _ (run_id : ℕ) where
  abbrev pub RunIsEnded : AgentRun → Type 0
  RunIsEnded r = (is_end r.status || r.id == run_id) ≡ true

  abbrev pub StepIsFinished : List ℕ → AgentStep → Type 0
  StepIsFinished pending s = (s.finished || any (λ i. s.id == i) pending) ≡ true

  -- Only the run `run_id` may be unfinished, and the steps `pending`.
  pub record IsTraced {L : Type 0} (pending : List ℕ) (t : Trace L) : Type 0 where
    pub runs : All RunIsEnded t.runs
    pub steps : All (StepIsFinished pending) t.steps

  module _ {L : Type 0} where
    pub begin_step-IsTraced :
        (front : List ℕ) (key : String) (t : Trace L)
        → IsTraced front t
        → IsTraced (front ++ t.next_id ∷ []) (begin_step run_id key t).1
    unfolding begin_step open_step append_step append_message
    begin_step-IsTraced front key t h = record {
      runs = h.runs;
      steps =
          All-append (StepIsFinished (front ++ t.next_id ∷ [])) t.steps _
            (All-imp (StepIsFinished front) (StepIsFinished (front ++ t.next_id ∷ [])) t.steps
              (λ s k. elim (Bool-cases s.finished) [
                | inl done ↦ ground arith
                | inr unfinished ↦ ground (arith, any-front (λ i. s.id == i) front (t.next_id ∷ []))
              ])
              h.steps)
            (any-last (λ i. t.next_id == i) front t.next_id (ground arith), tt);
    }

    finish_step-steps :
        (id : ℕ) (rest : List ℕ) (status : StepStatus) (error : Option Text) (tokens usd : ℕ)
        (t : Trace L)
        → All (StepIsFinished (id ∷ rest)) t.steps
        → All (StepIsFinished rest) (finish_step id status error tokens usd t).steps
    unfolding finish_step
    finish_step-steps id rest status error tokens usd t h =
        All-update-split (StepIsFinished (id ∷ rest)) (StepIsFinished rest) (λ s. s.id == id) _
          t.steps (λ s hit k. refl) (λ s miss k. ground arith) h

    fail_step-IsTraced :
        (id : ℕ) (rest : List ℕ) (key : String) (error : Text) (t : Trace L)
        → IsTraced (id ∷ rest) t
        → IsTraced rest (fail_step run_id key id error t)
    unfolding fail_step close_step_failure append_message
    fail_step-IsTraced id rest key error t h = record {
      runs = unfold finish_step in h.runs;
      steps = finish_step-steps id rest StepStatus.failed (some error) 0 0 t h.steps;
    }

    pass_step-IsTraced :
        (id : ℕ) (rest : List ℕ) (key : String) (result : AgentResult) (t : Trace L)
        → IsTraced (id ∷ rest) t
        → IsTraced rest (pass_step run_id key id result t)
    unfolding pass_step close_step_success append_message add_cost
    pass_step-IsTraced id rest key result t h = record {
      runs =
          unfold finish_step in
          All-update RunIsEnded (λ r. r.id == run_id) _ t.runs (λ r hit k. k) h.runs;
      steps =
          finish_step-steps id rest StepStatus.succeeded none result.tokens result.usd t h.steps;
    }

    pub close_step-IsTraced :
        (id : ℕ) (rest : List ℕ) (key : String) (outcome : Result Text AgentResult) (t : Trace L)
        → IsTraced (id ∷ rest) t
        → IsTraced rest (close_step run_id key id outcome t)
    unfolding close_step
    close_step-IsTraced id rest key (err e) t h = fail_step-IsTraced id rest key e t h
    close_step-IsTraced id rest key (ok result) t h = pass_step-IsTraced id rest key result t h

    -- The handlers keep off the trace.
    pub with-handlers-IsTraced :
        (pending : List ℕ) (t : Trace L) (l : L)
        → IsTraced pending t
        → IsTraced pending (record t { handlers = l })
    with-handlers-IsTraced pending t l h = record { runs = h.runs; steps = h.steps }

    module _ (dispatch : AgentTask → L → Result Text AgentResult × L) (message : Text) where
      run_step-IsTraced :
          (s : RouteStep) (scratch : List Scratch) (t : Trace L)
          → IsTraced [] t
          → IsTraced [] (run_step dispatch run_id message s scratch t).1
      unfolding run_step
      run_step-IsTraced s scratch t h =
          close_step-IsTraced _ [] s.agent_key _ _
            (with-handlers-IsTraced _ _ _ (begin_step-IsTraced [] s.agent_key t h))

      pub run_sequential-IsTraced :
          (steps : List RouteStep) (scratch : List Scratch) (results : Results) (guard : RunGuard)
          (t : Trace L)
          → IsTraced [] t
          → IsTraced [] (run_sequential dispatch run_id message steps scratch results guard t).1
      unfolding run_sequential
      run_sequential-IsTraced [] scratch results guard t h = h
      run_sequential-IsTraced (s ∷ rest) scratch results guard t h =
          let ran = run_step-IsTraced s scratch t h in
          elim (Result-cases (check_before_dispatch 1 guard)) [
            | inr (e, halted) ↦ rw (run_sequential, halted) h
            | inl (checked, passed) ↦
                elim (Result-cases (run_step dispatch run_id message s scratch t).0) [
                  | inr (e, failed) ↦ rw (run_sequential, passed, failed) ran
                  | inl (result, made) ↦
                      rw (run_sequential, passed, made) (run_sequential-IsTraced rest _ _ _ _ ran)
                ]
          ]
