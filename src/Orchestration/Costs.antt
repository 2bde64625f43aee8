-- ===== src/Orchestration/Costs.antt =====
-- The cost of a run so far, in its row (backend/app/services/agents/orchestrator_service.py over
-- run_recorder.py).
use mathlib.Core.Path.{subst}
use gummy_os.Common.{
  ℕ, ◌+◌, ◌≡◌, sym, ap, String, Text, Bool, ◌==◌, List, [], ◌∷◌, ◌++◌, List-cases, length, find,
  find-some, find-update, some, inl, inr, arith, Result, Result-cases, ok, err, ok-injective,
}
use gummy_os.Routing.{RouteStep}
use gummy_os.Orchestration.{AgentRun, Trace, AgentResult, AgentTask, Scratch}
use gummy_os.Orchestration.Recorder.{
  add_cost, finish_step, append_step, append_message, open_step, close_step_success,
  close_step_failure,
}
use gummy_os.Orchestration.Steps.{
  RunGuard, check_before_dispatch, Results, Branch, Gathered, branch_tasks, begin_step, fail_step,
  pass_step, close_step, note_outcome, run_step, open_branches, close_branches, some_result,
  run_parallel, run_sequential,
}
use gummy_os.Orchestration.Turn.{total, new_guard}

abbrev tokens_of : AgentResult → ℕ
tokens_of r = r.tokens

abbrev usd_of : AgentResult → ℕ
usd_of r = r.usd

total-snoc :
    (f : AgentResult → ℕ) (results : Results) (key : String) (r : AgentResult)
    → total f (results ++ (key, r) ∷ []) ≡ total f results + f r
unfolding total
total-snoc f [] key r = omega arith
total-snoc f ((k, s) ∷ rest) key r = omega (arith, total-snoc f rest key r)

abbrev pub is_run : ℕ → AgentRun → Bool
is_run run_id r = r.id == run_id

some_result-same : (g g' : Gathered) → some_result g ≡ ok g' → g ≡ g'
unfolding some_result
some_result-same g g' same = elim (List-cases g.results) [
  | inl empty ↦ absurd (let no = rw (some_result, empty) at same in cc)
  | inr (r, more, there) ↦ ok-injective (rw (some_result, there) at same)
]

module _ {L : Type 0} (run_id : ℕ) where
  -- The run's row has the cost of the results so far.
  pub record IsCosted (results : Results) (t : Trace L) : Type 0 where
    pub row : AgentRun
    pub there : find (is_run run_id) t.runs ≡ some row
    pub tokens : row.cost_tokens ≡ total tokens_of results
    pub usd : row.cost_usd ≡ total usd_of results

  pub begin_step-IsCosted :
      (results : Results) (key : String) (t : Trace L)
      → IsCosted results t
      → IsCosted results (begin_step run_id key t).1
  unfolding begin_step open_step append_step append_message
  begin_step-IsCosted results key t h = record {
    row = h.row;
    there = h.there;
    tokens = h.tokens;
    usd = h.usd;
  }

  pub with-handlers-IsCosted :
      (results : Results) (t : Trace L) (l : L)
      → IsCosted results t
      → IsCosted results record t { handlers = l }
  with-handlers-IsCosted results t l h = record {
    row = h.row;
    there = h.there;
    tokens = h.tokens;
    usd = h.usd;
  }

  fail_step-IsCosted :
      (results : Results) (key : String) (id : ℕ) (error : Text) (t : Trace L)
      → IsCosted results t
      → IsCosted results (fail_step run_id key id error t)
  unfolding fail_step close_step_failure finish_step append_message
  fail_step-IsCosted results key id error t h = record {
    row = h.row;
    there = h.there;
    tokens = h.tokens;
    usd = h.usd;
  }

  pub pass_step-IsCosted :
      (results : Results) (key : String) (id : ℕ) (r : AgentResult) (t : Trace L)
      → IsCosted results t
      → IsCosted (results ++ (key, r) ∷ []) (pass_step run_id key id r t)
  unfolding pass_step close_step_success finish_step append_message add_cost
  pass_step-IsCosted results key id r t h = record {
    row = record h.row {
      cost_tokens = h.row.cost_tokens + r.tokens;
      cost_usd = h.row.cost_usd + r.usd;
    };
    there =
        find-update (is_run run_id) _ t.runs h.row h.there
          (find-some (is_run run_id) t.runs h.row h.there);
    tokens = omega (arith, h.tokens, total-snoc tokens_of results key r);
    usd = omega (arith, h.usd, total-snoc usd_of results key r);
  }

  module _ (dispatch : AgentTask → L → Result Text AgentResult × L) (message : Text) where
    run_step-IsCosted :
        (s : RouteStep) (scratch : List Scratch) (results : Results) (t : Trace L) (r : AgentResult)
        → IsCosted results t
        → (run_step dispatch run_id message s scratch t).0 ≡ ok r
        → IsCosted
            (results ++ (s.agent_key, r) ∷ [])
            (run_step dispatch run_id message s scratch t).1
    unfolding run_step close_step
    run_step-IsCosted s scratch results t r h made = rw made (
        pass_step-IsCosted results s.agent_key _ r _
          (with-handlers-IsCosted results _ _ (begin_step-IsCosted results s.agent_key t h)))

    pub run_sequential-IsCosted :
        (steps : List RouteStep) (scratch : List Scratch) (results : Results) (guard : RunGuard)
        (t : Trace L) (results' : Results) (guard' : RunGuard)
        → IsCosted results t
        → (run_sequential dispatch run_id message steps scratch results guard t).0
          ≡ ok (results', guard')
        → IsCosted results' (run_sequential dispatch run_id message steps scratch results guard t).1
    unfolding run_sequential
    run_sequential-IsCosted [] scratch results guard t results' guard' h same =
        subst (λ rs. IsCosted rs t) (ap (λ p. p.0) (ok-injective same)) h
    run_sequential-IsCosted (s ∷ rest) scratch results guard t results' guard' h same =
        elim (Result-cases (check_before_dispatch 1 guard)) [
          | inr (e, halted) ↦ absurd (let no = rw (run_sequential, halted) at same in cc)
          | inl (checked, passed) ↦
              elim (Result-cases (run_step dispatch run_id message s scratch t).0) [
                | inr (e, failed) ↦
                    absurd (let no = rw (run_sequential, passed, failed) at same in cc)
                | inl (r, made) ↦
                    rw (run_sequential, passed, made)
                      (run_sequential-IsCosted rest _ _ _ _ results' guard'
                        (run_step-IsCosted s scratch results t r h made)
                        (rw (run_sequential, passed, made) at same))
              ]
        ]

  open_branches-IsCosted :
      (message : Text) (steps : List RouteStep) (results : Results) (t : Trace L)
      → IsCosted results t
      → IsCosted results (open_branches run_id message steps t).1
  unfolding open_branches
  open_branches-IsCosted message [] results t h = h
  open_branches-IsCosted message (s ∷ rest) results t h =
      open_branches-IsCosted message rest results _ (begin_step-IsCosted results s.agent_key t h)

  close_branches-IsCosted :
      (branches : List Branch) (outcomes : List (Result Text AgentResult)) (g g' : Gathered)
      (t : Trace L)
      → IsCosted g.results t
      → (close_branches run_id branches outcomes g t).0 ≡ ok g'
      → IsCosted g'.results (close_branches run_id branches outcomes g t).1
  unfolding close_branches note_outcome close_step
  close_branches-IsCosted [] [] g g' t h same =
      subst (λ k. IsCosted k.results t) (ok-injective same) h
  close_branches-IsCosted [] (o ∷ more) g g' t h same = absurd cc
  close_branches-IsCosted (b ∷ rest) [] g g' t h same = absurd cc
  close_branches-IsCosted (b ∷ rest) (err e ∷ more) g g' t h same =
      close_branches-IsCosted rest more _ g' _
        (fail_step-IsCosted g.results b.agent_key b.step_id e t h) same
  close_branches-IsCosted (b ∷ rest) (ok r ∷ more) g g' t h same =
      close_branches-IsCosted rest more _ g' _
        (pass_step-IsCosted g.results b.agent_key b.step_id r t h) same

  pub run_parallel-IsCosted :
      (gather : List AgentTask → L → List (Result Text AgentResult) × L) (message : Text)
      (steps : List RouteStep) (t : Trace L) (g' : Gathered)
      → IsCosted [] t
      → (run_parallel gather run_id message steps new_guard t).0 ≡ ok g'
      → IsCosted g'.results (run_parallel gather run_id message steps new_guard t).1
  unfolding run_parallel
  run_parallel-IsCosted gather message steps t g' h same =
      let opened = open_branches run_id message steps t in
      let gathered = gather (branch_tasks run_id opened.0) opened.1.handlers in
      let begun : Gathered = record { guard = new_guard; results = []; failures = [] } in
      let ready = record opened.1 { handlers = gathered.1 } in
      let closed = close_branches run_id opened.0 gathered.0 begun ready in
      let ready-IsCosted =
        with-handlers-IsCosted [] opened.1 gathered.1
          (open_branches-IsCosted message steps [] t h) in
      elim (Result-cases (check_before_dispatch (length steps) new_guard)) [
        | inr (e, halted) ↦ absurd (let no = rw (run_parallel, halted) at same in cc)
        | inl (checked, passed) ↦ elim (Result-cases closed.0) [
          | inr (e, raised) ↦ absurd (let no = rw (run_parallel, passed, raised) at same in cc)
          | inl (g, made) ↦
              let kept : some_result g ≡ ok g' = rw (run_parallel, passed, made) at same in
              rw (run_parallel, passed, made)
                (rw (sym (some_result-same g g' kept))
                  (close_branches-IsCosted opened.0 gathered.0 begun g ready ready-IsCosted made))
        ]
      ]
