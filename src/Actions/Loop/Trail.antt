-- ===== src/Actions/Loop/Trail.antt =====
-- The tool calls of a turn and the audit trail.
use mathlib.Core.Path.{subst}
use gummy_os.Common.{
  ℕ, zero, suc, ◌≡◌, ◌∙◌, refl, sym, ap, String, Bool-cases, List, [], ◌∷◌, ◌++◌, List-cases, take,
  append_assoc, append-nil, Option, some, Option-cases, inl, inr, Result-cases, ok, arith, ◌==◌,
}
use gummy_os.Tools.{ToolSpec}
use gummy_os.Tools.Catalog.{function_schemas}
use gummy_os.Agents.{AgentManifest}
use gummy_os.Actions.{ToolInvocation, Db}
use gummy_os.Actions.Branches.{Caller}
use gummy_os.Actions.Interface.{ResultExecution, to_execution, invoke}
use gummy_os.Actions.Interface.Gate.{invoke-IsAudited}
use gummy_os.Actions.Loop.{
  Message, ToolCall, wants_tools, max_tool_calls_per_step, ToolLoopResult, Turn, Generate, run_call,
  run_calls, heard, echoed, iterate, start, result_of, run_tool_loop,
}

-- The rows tell, in order, what the executions tell.
pub IsTrail : List ToolInvocation → List ResultExecution → Type 0
IsTrail [] [] = Unit
IsTrail [] (r ∷ results) = ⊥
IsTrail (row ∷ rows) [] = ⊥
IsTrail (row ∷ rows) (r ∷ results) =
    ((r.invocation_id ≡ some row.id) × (row.tool_key ≡ r.tool_key)) × IsTrail rows results

IsTrail-append :
    (rows more : List ToolInvocation) (results others : List ResultExecution)
    → IsTrail rows results
    → IsTrail more others
    → IsTrail (rows ++ more) (results ++ others)
unfolding IsTrail
IsTrail-append [] more [] others h k = k
IsTrail-append [] more (r ∷ results) others h k = absurd h
IsTrail-append (row ∷ rows) more [] others h k = absurd h
IsTrail-append (row ∷ rows) more (r ∷ results) others h k =
    (h.0, IsTrail-append rows more results others h.1 k)

-- The trail grew by rows that tell the executions that the turn grew by.
record IsTraced {W L : Type 0} (turn next : Turn W L) : Type 0 where
  rows : List ToolInvocation
  results : List ResultExecution
  trail_eq : next.db.invocations ≡ turn.db.invocations ++ rows
  results_eq : next.executions ≡ turn.executions ++ results
  told : IsTrail rows results

module _ {W L : Type 0} where
  IsTraced-refl :
      (turn next : Turn W L)
      → next.db ≡ turn.db
      → next.executions ≡ turn.executions
      → IsTraced turn next
  IsTraced-refl turn next same_db same = record {
    rows = [];
    results = [];
    trail_eq = ap (λ (d : Db W). d.invocations) same_db ∙ sym (append-nil turn.db.invocations);
    results_eq = same ∙ sym (append-nil turn.executions);
    told = unfold IsTrail in tt;
  }

  IsTraced-trans : (a b c : Turn W L) → IsTraced a b → IsTraced b c → IsTraced a c
  IsTraced-trans a b c h k = record {
    rows = h.rows ++ k.rows;
    results = h.results ++ k.results;
    trail_eq =
        k.trail_eq ∙ ap (λ l. l ++ k.rows) h.trail_eq ∙ append_assoc a.db.invocations h.rows k.rows;
    results_eq =
        k.results_eq
        ∙ ap (λ l. l ++ k.results) h.results_eq
        ∙ append_assoc a.executions h.results k.results;
    told = IsTrail-append h.rows k.rows h.results k.results h.told k.told;
  }

  module _ (tools : List (ToolSpec W)) (registry : List AgentManifest) (caller : Caller) where
    run_call-IsTraced :
        (call : ToolCall) (turn next : Turn W L)
        → run_call tools registry caller call turn ≡ ok next
        → IsTraced turn next
    unfolding run_call
    run_call-IsTraced call turn next e =
        elim (Result-cases (invoke tools registry caller call.name call.arguments turn.db)) [
          | inl ((result, db), ran) ↦
              let audited =
                invoke-IsAudited tools registry caller call.name call.arguments turn.db result db
                  ran in
              let written : next.db ≡ db = ground arith in
              record {
                rows = audited.row ∷ [];
                results = to_execution result ∷ [];
                trail_eq = ap (λ (d : Db W). d.invocations) written ∙ audited.appended;
                results_eq = ground arith;
                told =
                    unfold IsTrail to_execution in
                    ((sym (ap (λ n. some n) audited.same_id), audited.same_key), tt);
              }
          | inr (x, raised) ↦ absurd (ground arith)
        ]

    run_calls-IsTraced :
        (calls : List ToolCall) (turn next : Turn W L)
        → run_calls tools registry caller calls turn ≡ ok next
        → IsTraced turn next
    unfolding run_calls
    run_calls-IsTraced [] turn next e = IsTraced-refl turn next (ground arith) (ground arith)
    run_calls-IsTraced (call ∷ rest) turn next e =
        elim (Result-cases (run_call tools registry caller call turn)) [
          | inl (mid, ran) ↦
              IsTraced-trans turn mid next (run_call-IsTraced call turn mid ran)
                (run_calls-IsTraced rest mid next (ground arith))
          | inr (x, raised) ↦ absurd (ground arith)
        ]

    iterate-IsTraced :
        (generate : Generate L) (remaining : ℕ) (turn next : Turn W L)
        → iterate tools registry caller generate remaining turn ≡ ok next
        → IsTraced turn next
    unfolding iterate
    iterate-IsTraced generate zero turn next e =
        IsTraced-refl turn next (ground arith) (ground arith)
    iterate-IsTraced generate (suc remaining) turn next e =
        elim (Result-cases (generate turn.provider (remaining == 0) turn.history)) [
          | inr (x, raised) ↦ absurd (ground arith)
          | inl ((response, provider), said) ↦
              let turn1 = heard response provider turn in
              let calls = take max_tool_calls_per_step response.tool_calls in
              elim (Bool-cases (wants_tools response)) [
                | inr done ↦
                    IsTraced-refl turn next (unfold heard in ground arith)
                      (unfold heard in ground arith)
                | inl wants ↦
                    elim (Result-cases
                      (run_calls tools registry caller calls (echoed response turn1))) [
                        | inr (x, raised) ↦ absurd (ground arith)
                        | inl (turn2, ran) ↦
                            let ready : IsTraced turn (echoed response turn1) =
                              unfold heard echoed in
                              IsTraced-refl turn (echoed response turn1) refl refl in
                            IsTraced-trans turn (echoed response turn1) next ready (
                              IsTraced-trans (echoed response turn1) turn2 next
                                (run_calls-IsTraced calls (echoed response turn1) turn2 ran)
                                (iterate-IsTraced generate remaining turn2 next (ground arith)))
                      ]
              ]
        ]

    -- A turn that returns a result leaves the audit trail longer by one row for each execution of the
    -- result, in order, whose invocation is that row and whose tool is that of the row, and by no other row.
    pub run_tool_loop-IsTrail :
        (tool_keys : List String) (llm : Option (Generate L)) (max_iterations : ℕ)
        (messages : List Message) (provider : L) (db : Db W) (result : ToolLoopResult)
        (turn : Turn W L)
        → run_tool_loop tools registry caller tool_keys llm max_iterations messages provider db
          ≡ ok (some result, turn)
        → (rows : List ToolInvocation) × (turn.db.invocations ≡ db.invocations ++ rows)
          × IsTrail rows result.executions
    unfolding run_tool_loop
    run_tool_loop-IsTrail tool_keys llm max_iterations messages provider db result turn e =
        elim (List-cases (function_schemas tools tool_keys)) [
          | inl nothing ↦ absurd (ground arith)
          | inr (schema, others, offered) ↦ elim (Option-cases llm) [
            | inl unable ↦ absurd (ground arith)
            | inr (generate, able) ↦
                elim (Result-cases (
                  iterate tools registry caller generate max_iterations
                    (start messages provider db))) [
                      | inr (x, raised) ↦ absurd (ground arith)
                      | inl (last, ran) ↦
                          let h =
                            iterate-IsTraced generate max_iterations (start messages provider db)
                              last ran in
                          let end : last ≡ turn = ground arith in
                          let same : h.results ≡ result.executions =
                            unfold start result_of in ground (arith, h.results_eq) in
                          (
                            h.rows,
                            ap (λ (t : Turn W L). t.db.invocations) (sym end)
                                ∙ unfold start in h.trail_eq,
                            subst (IsTrail h.rows) same h.told,
                          )
                    ]
          ]
        ]
