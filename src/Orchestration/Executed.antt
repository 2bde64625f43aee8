-- ===== src/Orchestration/Executed.antt =====
-- The plan of a turn over the trace of Closed: its branches, its steps and the last one
-- (backend/app/services/agents/orchestrator_service.py).
use gummy_os.Common.{
  ℕ, ◌≡◌, refl, sym, ◌∙◌, String, Text, Bool, List, [], ◌∷◌, ◌++◌, map, length, append_assoc,
  append-nil, inl, inr, arith, Result, Result-cases,
}
use gummy_os.Routing.{RouteStep}
use gummy_os.Orchestration.{Trace, AgentResult, AgentTask, Scratch}
use gummy_os.Orchestration.Steps.{
  RunGuard, check_before_dispatch, Branch, Gathered, branch_tasks, begin_step, open_branches,
  close_branches, run_parallel, run_sequential,
}
use gummy_os.Orchestration.Handoff.{terminal_scratch}
use gummy_os.Orchestration.Terminal.{Calls, run_terminal}
use gummy_os.Orchestration.Turn.{execute_branches, execute_steps, new_guard}
use gummy_os.Orchestration.Closed.{
  IsTraced, begin_step-IsTraced, close_step-IsTraced, with-handlers-IsTraced,
  run_sequential-IsTraced,
}

abbrev id_of : Branch → ℕ
id_of b = b.step_id

-- `asyncio.gather` has one outcome for each task.
abbrev pub GathersAll :
    {L : Type 0} → (List AgentTask → L → List (Result Text AgentResult) × L) → Type 0
GathersAll {L} gather = (tasks : List AgentTask) (l : L) → length (gather tasks l).0 ≡ length tasks

branch_tasks-length :
    (run_id : ℕ) (branches : List Branch) → length (branch_tasks run_id branches) ≡ length branches
unfolding branch_tasks
branch_tasks-length run_id [] = refl
branch_tasks-length run_id (b ∷ rest) = omega (arith, branch_tasks-length run_id rest)

module _ (run_id : ℕ) {L : Type 0} where
  open_branches-IsTraced :
      (message : Text) (steps : List RouteStep) (front : List ℕ) (t : Trace L)
      → IsTraced run_id front t
      → let (branches, opened) = open_branches run_id message steps t in
        IsTraced run_id (front ++ map id_of branches) opened
  unfolding open_branches
  open_branches-IsTraced message [] front t h = rw (append-nil front) h
  open_branches-IsTraced message (s ∷ rest) front t h =
      rw
        (sym (
          append_assoc front (t.next_id ∷ [])
            (map id_of (open_branches run_id message rest (begin_step run_id s.agent_key t).1).0)))
        (open_branches-IsTraced message rest (front ++ t.next_id ∷ []) _
          (begin_step-IsTraced run_id front s.agent_key t h))

  close_branches-IsTraced :
      (branches : List Branch) (outcomes : List (Result Text AgentResult)) (g : Gathered)
      (t : Trace L)
      → length outcomes ≡ length branches
      → IsTraced run_id (map id_of branches) t
      → IsTraced run_id [] (close_branches run_id branches outcomes g t).1
  unfolding close_branches
  close_branches-IsTraced [] [] g t same h = h
  close_branches-IsTraced [] (o ∷ more) g t same h = absurd (omega arith)
  close_branches-IsTraced (b ∷ rest) [] g t same h = absurd (omega arith)
  close_branches-IsTraced (b ∷ rest) (outcome ∷ more) g t same h =
      close_branches-IsTraced rest more _ _ (omega arith)
        (close_step-IsTraced run_id b.step_id _ b.agent_key outcome t h)

  run_parallel-IsTraced :
      (gather : List AgentTask → L → List (Result Text AgentResult) × L)
      → GathersAll gather
      → (message : Text) (steps : List RouteStep) (guard : RunGuard) (t : Trace L)
      → IsTraced run_id [] t
      → IsTraced run_id [] (run_parallel gather run_id message steps guard t).1
  unfolding run_parallel
  run_parallel-IsTraced gather all message steps guard t h =
      let opened = open_branches run_id message steps t in
      let gathered = gather (branch_tasks run_id opened.0) opened.1.handlers in
      let begun : Gathered = record { guard = guard; results = []; failures = [] } in
      let closed =
        close_branches-IsTraced opened.0 gathered.0 begun _
          (all (branch_tasks run_id opened.0) opened.1.handlers
            ∙ branch_tasks-length run_id opened.0)
          (with-handlers-IsTraced run_id _ opened.1 gathered.1
            (open_branches-IsTraced message steps [] t h)) in
      elim (Result-cases (check_before_dispatch (length steps) guard)) [
        | inr (e, halted) ↦ rw (run_parallel, halted) h
        | inl (checked, passed) ↦
            elim (Result-cases
              (close_branches run_id opened.0 gathered.0 begun
                record opened.1 { handlers = gathered.1 }).0) [
                  | inr (e, raised) ↦ rw (run_parallel, passed, raised) closed
                  | inl (g, made) ↦ rw (run_parallel, passed, made) closed
                ]
      ]

  module _ {P : Type 0} (calls : Calls L P) (message : Text) where
    run_terminal-IsTraced :
        (s : RouteStep) (scratch : List Scratch) (guard : RunGuard) (t : Trace L)
        → IsTraced run_id [] t
        → IsTraced run_id [] (run_terminal calls run_id message s scratch guard t).1
    unfolding run_terminal
    run_terminal-IsTraced s scratch guard t h =
        elim (Result-cases (check_before_dispatch 1 guard)) [
          | inr (e, halted) ↦ rw (run_terminal, halted) h
          | inl (checked, passed) ↦
              rw (run_terminal, passed)
                (close_step-IsTraced run_id t.next_id [] s.agent_key _ _ (
                  with-handlers-IsTraced run_id _ _ _
                    (begin_step-IsTraced run_id [] s.agent_key t h)))
        ]

    pub execute_steps-IsTraced :
        (stream : Bool) (head : List RouteStep) (last : RouteStep) (t : Trace L)
        → IsTraced run_id [] t
        → IsTraced run_id [] (execute_steps calls stream run_id message head last t).1
    unfolding execute_steps
    execute_steps-IsTraced stream head last t h =
        let first = run_sequential calls.dispatch run_id message head [] [] new_guard t in
        let before =
          run_sequential-IsTraced run_id calls.dispatch message head [] [] new_guard t h in
        elim (Result-cases first.0) [
          | inr (e, failed) ↦ rw (execute_steps, failed) before
          | inl ((results, guard), made) ↦
              let after =
                run_terminal-IsTraced last (terminal_scratch results) guard first.1 before in
              elim (Result-cases
                (run_terminal calls run_id message last (terminal_scratch results) guard
                  first.1).0.1) [
                    | inr (e, failed) ↦ rw (execute_steps, made, failed) after
                    | inl (result, answered) ↦ rw (execute_steps, made, answered) after
                  ]
        ]

    pub execute_branches-IsTraced :
        GathersAll calls.gather
        → (stream : Bool) (selected : String) (steps : List RouteStep) (t : Trace L)
        → IsTraced run_id [] t
        → IsTraced run_id [] (execute_branches calls stream run_id message selected steps t).1
    unfolding execute_branches
    execute_branches-IsTraced all stream selected steps t h =
        let last = run_parallel-IsTraced calls.gather all message steps new_guard t h in
        elim (Result-cases (run_parallel calls.gather run_id message steps new_guard t).0) [
          | inr (e, failed) ↦ rw (execute_branches, failed) last
          | inl (g, made) ↦ rw (execute_branches, made) last
        ]
