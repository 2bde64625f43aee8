-- ===== src/Actions/Loop/Limits.antt =====
-- The bounds of the agent tool loop, and how it ends.
use mathlib.Core.Path.{subst}
use gummy_os.Common.{
  ℕ, zero, suc, sym, Bool, false, ◌+◌, ◌*◌, ◌≤◌, ◌≡◌, ◌∙◌, refl, String, true, Bool-cases, List, [],
  ◌∷◌, List-cases, length, length-append, length-take-le, take, Option, some, Option-cases, inl,
  inr, ◌⊎◌, Result-cases, ok, arith, ◌==◌,
}
use gummy_os.Tools.{ToolSpec}
use gummy_os.Tools.Catalog.{function_schemas}
use gummy_os.Agents.{AgentManifest}
use gummy_os.Actions.{Db}
use gummy_os.Actions.Branches.{Caller}
use gummy_os.Actions.Interface.{to_execution, invoke}
use gummy_os.Actions.Loop.{
  Message, ToolCall, ToolCallResponse, wants_tools, max_tool_calls_per_step, ToolLoopResult, Turn,
  Generate, run_call, run_calls, heard, echoed, iterate, start, text_of, result_of, run_tool_loop,
}

-- The provider answered, and got from one state to the other by it.
pub record IsAnswer {L : Type 0} (generate : Generate L) (before after : L) (r : ToolCallResponse)
    : Type 0 where
  pub is_final : Bool
  pub history : List Message
  pub said : generate before is_final history ≡ ok (r, after)

-- `n` calls of the model, one after the other, lead from one state of the provider to the other.
pub IsTalk : {L : Type 0} (generate : Generate L) (n : ℕ) (before after : L) → Type 0
IsTalk generate zero before after = after ≡ before
IsTalk {L} generate (suc n) before after =
    (mid : L) × IsTalk generate n before mid
    × ((r : ToolCallResponse) × IsAnswer generate mid after r)

pub record IsLimited {L : Type 0} (generate : Generate L) (max_iterations : ℕ) (before after : L)
    (result : ToolLoopResult) : Type 0 where
  pub talk : IsTalk generate result.iterations before after
  pub iterations_le : result.iterations ≤ max_iterations
  pub executions_le : length result.executions ≤ max_tool_calls_per_step * result.iterations
  pub ending :
      ((result.hit_iteration_cap ≡ true) × (result.iterations ≡ max_iterations))
      ⊎ ((result.hit_iteration_cap ≡ false)
          × (mid : L) × (r : ToolCallResponse) × IsAnswer generate mid after r
          × (wants_tools r ≡ false)
          × (result.text ≡ r.text))

module _ {W L : Type 0} (tools : List (ToolSpec W)) (registry : List AgentManifest)
    (caller : Caller) where
  -- Running calls adds one execution each, and leaves the loop's other variables alone.
  record IsRun (calls : List ToolCall) (turn next : Turn W L) : Type 0 where
    executed : length next.executions ≡ length turn.executions + length calls
    iteration_eq : next.iteration ≡ turn.iteration
    hit_cap_eq : next.hit_cap ≡ turn.hit_cap
    provider_eq : next.provider ≡ turn.provider

  run_call-IsRun :
      (call : ToolCall) (turn next : Turn W L)
      → run_call tools registry caller call turn ≡ ok next
      → IsRun (call ∷ []) turn next
  unfolding run_call
  run_call-IsRun call turn next e =
      elim (Result-cases (invoke tools registry caller call.name call.arguments turn.db)) [
        | inl ((result, db), ran) ↦ record {
          executed = ground (arith, length-append turn.executions (to_execution result ∷ []));
          iteration_eq = ground arith;
          hit_cap_eq = ground arith;
          provider_eq = ground arith;
        }
        | inr (x, raised) ↦ absurd (ground arith)
      ]

  run_calls-IsRun :
      (calls : List ToolCall) (turn next : Turn W L)
      → run_calls tools registry caller calls turn ≡ ok next
      → IsRun calls turn next
  unfolding run_calls
  run_calls-IsRun [] turn next e = record {
    executed = ground arith;
    iteration_eq = ground arith;
    hit_cap_eq = ground arith;
    provider_eq = ground arith;
  }
  run_calls-IsRun (call ∷ rest) turn next e =
      elim (Result-cases (run_call tools registry caller call turn)) [
        | inl (mid, ran) ↦
            let one = run_call-IsRun call turn mid ran in
            let more = run_calls-IsRun rest mid next (ground arith) in
            record {
              executed = omega (arith, one.executed, more.executed);
              iteration_eq = more.iteration_eq ∙ one.iteration_eq;
              hit_cap_eq = more.hit_cap_eq ∙ one.hit_cap_eq;
              provider_eq = more.provider_eq ∙ one.provider_eq;
            }
        | inr (x, raised) ↦ absurd (ground arith)
      ]

  -- The cap was hit after all the iterations, or the last response asked for no tool.
  abbrev HasEnded : (generate : Generate L) (remaining : ℕ) → Turn W L → Turn W L → Type 0
  HasEnded generate remaining turn next =
      ((next.hit_cap ≡ true) × (next.iteration ≡ turn.iteration + remaining))
      ⊎ ((next.hit_cap ≡ false)
          × (mid : L) × (r : ToolCallResponse) × IsAnswer generate mid next.provider r
          × (next.response ≡ some r)
          × (wants_tools r ≡ false))

  record IsIterated (generate : Generate L) (remaining : ℕ) (turn next : Turn W L) : Type 0 where
    iterations : next.iteration ≤ turn.iteration + remaining
    executed :
        length next.executions + max_tool_calls_per_step * turn.iteration
        ≤ length turn.executions + max_tool_calls_per_step * next.iteration
    ended : HasEnded generate remaining turn next
    talked :
        (before : L)
        → IsTalk generate turn.iteration before turn.provider
        → IsTalk generate next.iteration before next.provider

  iterate-IsIterated :
      (generate : Generate L) (remaining : ℕ) (turn next : Turn W L)
      → turn.hit_cap ≡ false
      → iterate tools registry caller generate remaining turn ≡ ok next
      → IsIterated generate remaining turn next
  unfolding iterate
  iterate-IsIterated generate zero turn next uncapped e = record {
    iterations = ground arith;
    executed = ground arith;
    ended = inl (ground arith, ground arith);
    talked = λ before talk.
        (let same : turn.iteration ≡ next.iteration = ground arith in
          let there : turn.provider ≡ next.provider = ground arith in
          subst (λ n. IsTalk generate n before next.provider) same
            (subst (λ l. IsTalk generate turn.iteration before l) there talk));
  }
  iterate-IsIterated generate (suc remaining) turn next uncapped e =
      elim (Result-cases (generate turn.provider (remaining == 0) turn.history)) [
        | inr (x, raised) ↦ absurd (ground arith)
        | inl ((response, provider), said) ↦
            let turn1 = heard response provider turn in
            let heard_it : IsAnswer generate turn.provider provider response = record {
              is_final = remaining == 0;
              history = turn.history;
              said = said;
            } in
            let longer : (before : L)
                → IsTalk generate turn.iteration before turn.provider
                → IsTalk generate (suc turn.iteration) before provider =
              λ before talk. unfold IsTalk in (turn.provider, talk, (response, heard_it)) in
            elim (Bool-cases (wants_tools response)) [
              | inr done ↦ record {
                iterations = unfold heard in ground arith;
                executed = unfold heard in ground arith;
                ended =
                    unfold heard in
                    inr (
                      ground arith,
                      turn.provider,
                      response,
                      (let there : provider ≡ next.provider = ground arith in
                          subst (λ l. IsAnswer generate turn.provider l response) there heard_it),
                      ground arith,
                      done,
                    );
                talked = λ before talk.
                    unfold heard in
                    (let same : suc turn.iteration ≡ next.iteration = ground arith in
                      let there : provider ≡ next.provider = ground arith in
                      subst (λ n. IsTalk generate n before next.provider) same
                        (subst (λ l. IsTalk generate (suc turn.iteration) before l) there
                          (longer before talk)));
              }
              | inl wants ↦
                  elim (Result-cases (
                    run_calls tools registry caller
                      (take max_tool_calls_per_step response.tool_calls) (echoed response turn1))) [
                        | inr (x, raised) ↦ absurd (ground arith)
                        | inl (turn2, ran) ↦
                            let calls =
                              run_calls-IsRun (take max_tool_calls_per_step response.tool_calls)
                                (echoed response turn1) turn2 ran in
                            let rest =
                              iterate-IsIterated generate remaining turn2 next
                                (calls.hit_cap_eq ∙ unfold echoed heard in uncapped)
                                (ground arith) in
                            let before : turn2.iteration ≡ suc turn.iteration =
                              calls.iteration_eq ∙ unfold echoed heard in refl in
                            let added : length turn2.executions
                                ≤ length turn.executions + max_tool_calls_per_step =
                              unfold echoed heard in
                              omega (
                                arith,
                                calls.executed,
                                length-take-le max_tool_calls_per_step response.tool_calls,
                              ) in
                            record {
                              iterations = omega (arith, rest.iterations, before);
                              executed = omega (arith, rest.executed, added, before);
                              ended = elim rest.ended [
                                | inl capped ↦ inl (capped.0, omega (arith, capped.1, before))
                                | inr more ↦ inr more
                              ];
                              talked = λ origin talk. rest.talked origin (
                                  subst (λ n. IsTalk generate n origin turn2.provider) (sym before)
                                    (subst (λ l. IsTalk generate (suc turn.iteration) origin l)
                                      (sym (calls.provider_eq ∙ unfold echoed heard in refl))
                                      (longer origin talk)));
                            }
                      ]
            ]
      ]

  result_of-IsLimited :
      (generate : Generate L) (max_iterations : ℕ) (messages : List Message) (provider : L)
      (db : Db W) (last : Turn W L)
      → IsIterated generate max_iterations (start messages provider db) last
      → IsLimited generate max_iterations provider last.provider (result_of last)
  unfolding result_of start text_of
  result_of-IsLimited generate max_iterations messages provider db last h = record {
    talk = h.talked provider (unfold IsTalk in refl);
    iterations_le = omega (arith, h.iterations);
    executions_le = omega (arith, h.executed);
    ending = elim h.ended [
      | inl (capped, all) ↦ inl (capped, omega arith)
      | inr (uncapped, mid, r, said, heard_last, done) ↦
          inr (uncapped, mid, r, said, done, ground arith)
    ];
  }

  -- A turn that returns a result had a provider that can call tools, and made exactly as many calls of the
  -- model as the result tells, at most `max_iterations`, and at most three executions for each of them.
  -- Either the cap is reported, and all the iterations were used, or it is not, and the text is that of
  -- the model's last response, which asked for no tool.
  pub run_tool_loop-IsLimited :
      (tool_keys : List String) (llm : Option (Generate L)) (max_iterations : ℕ)
      (messages : List Message) (provider : L) (db : Db W) (result : ToolLoopResult)
      (turn : Turn W L)
      → run_tool_loop tools registry caller tool_keys llm max_iterations messages provider db
        ≡ ok (some result, turn)
      → (generate : Generate L) × (llm ≡ some generate)
        × IsLimited generate max_iterations provider turn.provider result
  unfolding run_tool_loop
  run_tool_loop-IsLimited tool_keys llm max_iterations messages provider db result turn e =
      elim (List-cases (function_schemas tools tool_keys)) [
        | inl nothing ↦ absurd (ground arith)
        | inr (schema, others, offered) ↦ elim (Option-cases llm) [
          | inl unable ↦ absurd (ground arith)
          | inr (generate, able) ↦
              elim (Result-cases (
                iterate tools registry caller generate max_iterations
                  (start messages provider db))) [
                    | inr (x, raised) ↦ absurd (ground arith)
                    | inl (last, ran) ↦
                        let h =
                          iterate-IsIterated generate max_iterations (start messages provider db)
                            last (unfold start in refl) ran in
                        let same : result_of last ≡ result = ground arith in
                        let end : last ≡ turn = ground arith in
                        (
                          generate,
                          able,
                          subst (IsLimited generate max_iterations provider turn.provider) same (
                              subst
                                (λ (t : Turn W L).
                                  IsLimited generate max_iterations provider t.provider
                                    (result_of last))
                                end
                                (result_of-IsLimited generate max_iterations messages provider db
                                  last h)),
                        )
                  ]
        ]
      ]
