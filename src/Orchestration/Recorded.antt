-- ===== src/Orchestration/Recorded.antt =====
-- The cost of a plan that was executed, in its run's row
-- (backend/app/services/agents/orchestrator_service.py).
use mathlib.Core.Path.{subst}
use gummy_os.Common.{
  ℕ, ◌≡◌, String, Text, Bool, true, false, List, [], ◌∷◌, ◌++◌, if◌then◌else◌, inl, inr,
  Result-cases, ok, ok-injective,
}
use gummy_os.Routing.{RouteStep}
use gummy_os.Orchestration.{Trace, AgentResult, Scratch}
use gummy_os.Orchestration.Steps.{
  RunGuard, check_before_dispatch, Results, close_step, run_parallel, run_sequential,
}
use gummy_os.Orchestration.Handoff.{terminal_scratch}
use gummy_os.Orchestration.Terminal.{Calls, run_terminal}
use gummy_os.Orchestration.Turn.{execute_branches, execute_steps, new_guard, Executed}
use gummy_os.Orchestration.Costs.{
  IsCosted, begin_step-IsCosted, pass_step-IsCosted, with-handlers-IsCosted,
  run_sequential-IsCosted, run_parallel-IsCosted,
}

module _ {L : Type 0} (run_id : ℕ) where
  module _ {P : Type 0} (calls : Calls L P) (message : Text) where
    run_terminal-IsCosted :
        (s : RouteStep) (scratch : List Scratch) (guard : RunGuard) (results : Results)
        (t : Trace L) (r : AgentResult)
        → IsCosted run_id results t
        → (run_terminal calls run_id message s scratch guard t).0.1 ≡ ok r
        → IsCosted run_id
            (results ++ (s.agent_key, r) ∷ [])
            (run_terminal calls run_id message s scratch guard t).1
    unfolding run_terminal close_step
    run_terminal-IsCosted s scratch guard results t r h same =
        elim (Result-cases (check_before_dispatch 1 guard)) [
          | inr (e, halted) ↦ absurd (let no = rw (run_terminal, halted) at same in cc)
          | inl (checked, passed) ↦
              let answered = rw (run_terminal, passed) at same in
              rw (run_terminal, passed, answered)
                (pass_step-IsCosted run_id results s.agent_key t.next_id r _ (
                  with-handlers-IsCosted run_id results _ _
                    (begin_step-IsCosted run_id results s.agent_key t h)))
        ]

    execute_steps-IsCosted :
        (stream : Bool) (head : List RouteStep) (last : RouteStep) (t : Trace L) (e : Executed)
        → IsCosted run_id [] t
        → (execute_steps calls stream run_id message head last t).0.1 ≡ ok e
        → IsCosted run_id e.results (execute_steps calls stream run_id message head last t).1
    unfolding execute_steps
    execute_steps-IsCosted stream head last t e h same =
        let first = run_sequential calls.dispatch run_id message head [] [] new_guard t in
        elim (Result-cases first.0) [
          | inr (x, failed) ↦ absurd (let no = rw (execute_steps, failed) at same in cc)
          | inl ((results, guard), made) ↦
              let before : IsCosted run_id results first.1 =
                run_sequential-IsCosted run_id calls.dispatch message head [] [] new_guard t results
                  guard h made in
              elim (Result-cases
                (run_terminal calls run_id message last (terminal_scratch results) guard
                  first.1).0.1) [
                    | inr (x, failed) ↦
                        absurd (let no = rw (execute_steps, made, failed) at same in cc)
                    | inl (r, answered) ↦
                        let ended = rw (execute_steps, made, answered) at same in
                        rw (execute_steps, made, answered)
                          (subst
                            (λ x.
                              IsCosted run_id x.results
                                (run_terminal calls run_id message last (terminal_scratch results)
                                  guard first.1).1)
                            (ok-injective ended)
                            (run_terminal-IsCosted last (terminal_scratch results) guard results
                              first.1 r before answered))
                  ]
        ]

    execute_branches-IsCosted :
        (stream : Bool) (selected : String) (steps : List RouteStep) (t : Trace L) (e : Executed)
        → IsCosted run_id [] t
        → (execute_branches calls stream run_id message selected steps t).0.1 ≡ ok e
        → IsCosted run_id e.results
            (execute_branches calls stream run_id message selected steps t).1
    unfolding execute_branches
    execute_branches-IsCosted stream selected steps t e h same =
        let ran = run_parallel calls.gather run_id message steps new_guard t in
        elim (Result-cases ran.0) [
          | inr (x, failed) ↦ absurd (let no = rw (execute_branches, failed) at same in cc)
          | inl (g, made) ↦
              let ended = rw (execute_branches, made) at same in
              rw (execute_branches, made)
                (subst (λ x. IsCosted run_id x.results ran.1) (ok-injective ended)
                  (run_parallel-IsCosted run_id calls.gather message steps t g h made))
        ]

    pub execute-IsCosted :
        (stream parallel : Bool) (steps head : List RouteStep) (last : RouteStep) (t : Trace L)
        (e : Executed)
        → IsCosted run_id [] t
        → let executed =
            if parallel
            then execute_branches calls stream run_id message last.agent_key steps t
            else execute_steps calls stream run_id message head last t in
          executed.0.1 ≡ ok e → IsCosted run_id e.results executed.1
    execute-IsCosted stream true steps head last t e h same =
        execute_branches-IsCosted stream last.agent_key steps t e h same
    execute-IsCosted stream false steps head last t e h same =
        execute_steps-IsCosted stream head last t e h same
