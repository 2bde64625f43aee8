-- ===== src/Orchestration/Counted.antt =====
-- What the guard of a run counts (`_RunGuard` of backend/app/services/agents/orchestrator_service.py).
use gummy_os.Common.{
  ℕ, ◌+◌, ◌≤◌, ◌≡◌, refl, sym, ap, ◌∙◌, String, Text, Bool, Bool-cases, true, false, ◌==◌, ltb,
  List, [], ◌∷◌, length, length-append, length-update, if◌then◌else◌, inl, inr, arith, Result,
  Result-cases, ok, err, ok-injective,
}
use gummy_os.Routing.{RouteStep}
use gummy_os.Orchestration.{Trace, AgentResult, AgentTask, Scratch}
use gummy_os.Orchestration.Recorder.{
  add_cost, finish_step, append_step, append_message, open_step, close_step_success,
  close_step_failure,
}
use gummy_os.Orchestration.Steps.{
  RunGuard, check_before_dispatch, record_result, Results, Branch, Gathered, branch_tasks,
  begin_step, fail_step, pass_step, close_step, run_step, open_branches, close_branches,
  run_parallel, run_sequential, agent_max_run_steps,
}
use gummy_os.Orchestration.Handoff.{terminal_scratch}
use gummy_os.Orchestration.Terminal.{Calls, run_terminal}
use gummy_os.Orchestration.Turn.{execute_branches, execute_steps, new_guard}

-- The guard lets no dispatch through that would pass the cap.
check_before_dispatch-room :
    (n : ℕ) (guard : RunGuard) (checked : Unit {0})
    → check_before_dispatch n guard ≡ ok checked
    → guard.steps + n ≤ 8
unfolding check_before_dispatch
check_before_dispatch-room n guard checked h =
    elim (Bool-cases (ltb agent_max_run_steps (guard.steps + n))) [
      | inl over ↦ absurd (let refused = rw over at h in cc)
      | inr room ↦ ground arith
    ]

module _ {L : Type 0} (run_id : ℕ) where
  begin_step-length :
      (key : String) (t : Trace L) → length (begin_step run_id key t).1.steps ≡ length t.steps + 1
  unfolding begin_step open_step append_step append_message
  begin_step-length key t = length-append t.steps _

  close_step-length :
      (key : String) (id : ℕ) (outcome : Result Text AgentResult) (t : Trace L)
      → length (close_step run_id key id outcome t).steps ≡ length t.steps
  unfolding close_step fail_step pass_step close_step_success close_step_failure append_message
      add_cost finish_step
  close_step-length key id (err e) t = length-update (λ s. s.id == id) _ t.steps
  close_step-length key id (ok result) t = length-update (λ s. s.id == id) _ t.steps

  -- The guard counts the steps of a run that goes on.
  record IsCounted (base : ℕ) (r : Result Text (Results × RunGuard) × Trace L) : Type 0 where
    few : length r.1.steps ≤ base + 8
    exact :
        (results : Results) (guard : RunGuard)
        → r.0 ≡ ok (results, guard)
        → length r.1.steps ≡ base + guard.steps

  module _ (dispatch : AgentTask → L → Result Text AgentResult × L) (message : Text) where
    run_step-length :
        (s : RouteStep) (scratch : List Scratch) (t : Trace L)
        → length (run_step dispatch run_id message s scratch t).1.steps ≡ length t.steps + 1
    unfolding run_step
    run_step-length s scratch t =
        close_step-length s.agent_key _ _ _ ∙ begin_step-length s.agent_key t

    run_sequential-IsCounted :
        (base : ℕ) (steps : List RouteStep) (scratch : List Scratch) (results : Results)
        (guard : RunGuard) (t : Trace L)
        → length t.steps ≡ base + guard.steps
        → guard.steps ≤ 8
        → IsCounted base (run_sequential dispatch run_id message steps scratch results guard t)
    unfolding run_sequential
    run_sequential-IsCounted base [] scratch results guard t counted room = record {
      few = omega arith;
      exact = λ results' guard' same.
          (let g : guard ≡ guard' = ap (λ p. p.1) (ok-injective same) in rw (sym g) counted);
    }
    run_sequential-IsCounted base (s ∷ rest) scratch results guard t counted room =
        elim (Result-cases (check_before_dispatch 1 guard)) [
          | inr (e, halted) ↦
              rw (run_sequential, halted)
                record { few = omega arith; exact = λ results' guard' same. absurd cc }
          | inl (checked, passed) ↦
              let ran = run_step dispatch run_id message s scratch t in
              let longer : length ran.1.steps ≡ length t.steps + 1 = run_step-length s scratch t in
              let fits = check_before_dispatch-room 1 guard checked passed in
              elim (Result-cases ran.0) [
                | inr (e, failed) ↦
                    rw (run_sequential, passed, failed)
                      record { few = omega arith; exact = λ results' guard' same. absurd cc }
                | inl (result, made) ↦
                    rw (run_sequential, passed, made)
                      (run_sequential-IsCounted base rest _ _ (record_result result guard) ran.1
                        (unfold record_result in omega arith) (unfold record_result in omega arith))
              ]
        ]

  open_branches-length :
      (message : Text) (steps : List RouteStep) (t : Trace L)
      → length (open_branches run_id message steps t).1.steps ≡ length t.steps + length steps
  unfolding open_branches
  open_branches-length message [] t = omega arith
  open_branches-length message (s ∷ rest) t =
      let opened = (begin_step run_id s.agent_key t).1 in
      let here : length opened.steps ≡ length t.steps + 1 = begin_step-length s.agent_key t in
      let there : length (open_branches run_id message rest opened).1.steps
          ≡ length opened.steps + length rest =
        open_branches-length message rest opened in
      there ∙ omega arith

  close_branches-length :
      (branches : List Branch) (outcomes : List (Result Text AgentResult)) (g : Gathered)
      (t : Trace L)
      → length (close_branches run_id branches outcomes g t).1.steps ≡ length t.steps
  unfolding close_branches
  close_branches-length [] [] g t = refl
  close_branches-length [] (o ∷ more) g t = refl
  close_branches-length (b ∷ rest) [] g t = refl
  close_branches-length (b ∷ rest) (outcome ∷ more) g t =
      close_branches-length rest more _ _ ∙ close_step-length b.agent_key b.step_id outcome t

  run_parallel-few :
      (gather : List AgentTask → L → List (Result Text AgentResult) × L) (message : Text)
      (steps : List RouteStep) (t : Trace L)
      → length (run_parallel gather run_id message steps new_guard t).1.steps ≤ length t.steps + 8
  unfolding run_parallel
  run_parallel-few gather message steps t =
      let opened = open_branches run_id message steps t in
      let gathered = gather (branch_tasks run_id opened.0) opened.1.handlers in
      let begun : Gathered = record { guard = new_guard; results = []; failures = [] } in
      let closed =
        close_branches run_id opened.0 gathered.0 begun record opened.1 { handlers = gathered.1 } in
      let kept : length closed.1.steps ≡ length t.steps + length steps =
        close_branches-length opened.0 gathered.0 begun _ ∙ open_branches-length message steps t in
      elim (Result-cases (check_before_dispatch (length steps) new_guard)) [
        | inr (e, halted) ↦ rw (run_parallel, halted) (omega arith)
        | inl (checked, passed) ↦
            let room : length steps ≤ 8 =
              omega (arith, check_before_dispatch-room (length steps) new_guard checked passed) in
            let fits : length closed.1.steps ≤ length t.steps + 8 = omega arith in
            elim (Result-cases closed.0) [
              | inr (e, raised) ↦ rw (run_parallel, passed, raised) fits
              | inl (g, made) ↦ rw (run_parallel, passed, made) fits
            ]
      ]

  module _ {P : Type 0} (calls : Calls L P) (message : Text) where
    run_terminal-few :
        (base : ℕ) (s : RouteStep) (scratch : List Scratch) (guard : RunGuard) (t : Trace L)
        → length t.steps ≡ base + guard.steps
        → length t.steps ≤ base + 8
        → length (run_terminal calls run_id message s scratch guard t).1.steps ≤ base + 8
    unfolding run_terminal
    run_terminal-few base s scratch guard t counted few =
        elim (Result-cases (check_before_dispatch 1 guard)) [
          | inr (e, halted) ↦ rw (run_terminal, halted) few
          | inl (checked, passed) ↦
              let fits = check_before_dispatch-room 1 guard checked passed in
              rw (run_terminal, passed)
                (rw (close_step-length s.agent_key t.next_id _ _, begin_step-length s.agent_key t)
                  (omega arith))
        ]

    execute_steps-few :
        (stream : Bool) (head : List RouteStep) (last : RouteStep) (t : Trace L)
        → length (execute_steps calls stream run_id message head last t).1.steps
          ≤ length t.steps + 8
    unfolding execute_steps
    execute_steps-few stream head last t =
        let first = run_sequential calls.dispatch run_id message head [] [] new_guard t in
        let counted : IsCounted (length t.steps) first =
          run_sequential-IsCounted calls.dispatch message (length t.steps) head [] [] new_guard t
            (omega arith) (omega arith) in
        elim (Result-cases first.0) [
          | inr (e, failed) ↦ rw (execute_steps, failed) counted.few
          | inl ((results, guard), made) ↦
              let after =
                run_terminal-few (length t.steps) last (terminal_scratch results) guard first.1
                  (counted.exact results guard made) counted.few in
              elim (Result-cases
                (run_terminal calls run_id message last (terminal_scratch results) guard
                  first.1).0.1) [
                    | inr (e, failed) ↦ rw (execute_steps, made, failed) after
                    | inl (result, answered) ↦ rw (execute_steps, made, answered) after
                  ]
        ]

    execute_branches-few :
        (stream : Bool) (selected : String) (steps : List RouteStep) (t : Trace L)
        → length (execute_branches calls stream run_id message selected steps t).1.steps
          ≤ length t.steps + 8
    unfolding execute_branches
    execute_branches-few stream selected steps t =
        let few = run_parallel-few calls.gather message steps t in
        elim (Result-cases (run_parallel calls.gather run_id message steps new_guard t).0) [
          | inr (e, failed) ↦ rw (execute_branches, failed) few
          | inl (g, made) ↦ rw (execute_branches, made) few
        ]

    pub execute-few :
        (stream parallel : Bool) (steps head : List RouteStep) (last : RouteStep) (t : Trace L)
        → length
            (if parallel
              then execute_branches calls stream run_id message last.agent_key steps t
              else execute_steps calls stream run_id message head last t).1.steps
          ≤ length t.steps + 8
    execute-few stream true steps head last t = execute_branches-few stream last.agent_key steps t
    execute-few stream false steps head last t = execute_steps-few stream head last t
