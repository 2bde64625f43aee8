-- ===== src/Routing/Routed.antt =====
-- What a routing decision is (backend/app/services/agents/router.py).
use mathlib.Core.Path.{subst}
use gummy_os.Common.{
  ℕ, ◌≤◌, String, ◌==ₛ◌, ◌≡◌, refl, ap, Text, codes, lower, strip, contains, Bool-cases, true,
  false, ◌||◌, not, ltb, List, [], ◌∷◌, map, take, length, All, Option, none, some, Option-cases,
  inl, inr, arith,
}
use gummy_os.Models.{PlanShape, AgentContext}
use gummy_os.Agents.{AgentManifest}
use gummy_os.Agents.Registry.{has_agent}
use gummy_os.Routing.{
  RouteStep, RoutingDecision, Rationale, low_confidence, general_agent_key, recall_agent_key,
}
use gummy_os.Routing.Clauses.{segments}
use gummy_os.Routing.Planned.{
  IsAlternating, IsTasks, HeadsDiffer, key_of, best_specialist-IsKnown, resolve_clauses-IsTasks,
  reverse_onto-IsTasks, take-IsTasks,
}
use gummy_os.Routing.Plans.{
  Resolved, max_steps, single, single_step, recall_pipeline, best_specialist, to_step,
  resolve_clauses, reverse_onto, is_one_agent, compound_decision, plan_compound, score_agents,
  confidence_for, override_by, fallback_decision, leads_to_general, is_research, route_scored,
  route, any_dependent,
}

abbrev keys_of : List RouteStep → List String
keys_of = map (λ (s : RouteStep). s.agent_key)

-- Two or three steps, no agent twice in a row.
abbrev IsTeam : List RouteStep → Type 0
IsTeam steps = (2 ≤ length steps) × (length steps ≤ 3) × IsAlternating (keys_of steps)

-- One step runs alone; a pipeline and a fan-out have a team.
abbrev IsShaped : PlanShape → List RouteStep → Type 0
IsShaped PlanShape.single steps = length steps ≡ 1
IsShaped PlanShape.pipeline steps = IsTeam steps
IsShaped PlanShape.parallel steps = IsTeam steps

module _ (registry : List AgentManifest) where
  pub record IsPlan (d : RoutingDecision) : Type 0 where
    pub known : All (λ (s : RouteStep). has_agent registry s.agent_key ≡ true) d.steps
    pub shaped : IsShaped d.plan_shape d.steps
    pub confident : d.confidence ≤ 100

  single_step-IsPlan :
      (key : String) (rationale : Rationale) (confidence : ℕ) (keywords : List Text)
      → has_agent registry key ≡ true
      → confidence ≤ 100
      → IsPlan (single_step key rationale confidence keywords)
  unfolding single_step
  single_step-IsPlan key rationale confidence keywords known small = record {
    known = (known, tt);
    shaped = refl;
    confident = small;
  }

  tasks-known :
      (tasks : List Resolved)
      → All (λ r. has_agent registry r.agent_key ≡ true) tasks
      → All (λ (s : RouteStep). has_agent registry s.agent_key ≡ true) (map to_step tasks)
  unfolding to_step
  tasks-known [] h = tt
  tasks-known (r ∷ rest) h = (h.0, tasks-known rest h.1)

  tasks-keys : (tasks : List Resolved) → keys_of (map to_step tasks) ≡ map (key_of registry) tasks
  unfolding to_step
  tasks-keys [] = refl
  tasks-keys (r ∷ rest) = ap (r.agent_key ∷◌) (tasks-keys rest)

  length-steps : (tasks : List Resolved) → length (map to_step tasks) ≡ length tasks
  length-steps [] = refl
  length-steps (r ∷ rest) = omega (arith, length-steps rest)

  -- At least two of three tasks stay.
  take_team :
      (tasks : List Resolved)
      → is_one_agent tasks ≡ false
      → (2 ≤ length (take max_steps tasks)) × (length (take max_steps tasks) ≤ 3)
  unfolding is_one_agent
  take_team [] h = absurd (ground arith)
  take_team (r ∷ []) h = absurd (ground arith)
  take_team (r ∷ s ∷ []) h = (omega arith, omega arith)
  take_team (r ∷ s ∷ t ∷ []) h = (omega arith, omega arith)
  take_team (r ∷ s ∷ t ∷ u ∷ rest) h = (omega arith, omega arith)

  tasks-IsTeam :
      (tasks : List Resolved)
      → IsTasks registry tasks
      → (2 ≤ length tasks) × (length tasks ≤ 3)
      → IsTeam (map to_step tasks)
  tasks-IsTeam tasks h size = (
    omega (arith, length-steps tasks, size.0),
    omega (arith, length-steps tasks, size.1),
    rw (tasks-keys tasks) h.alternating,
  )

  compound-IsPlan :
      (tasks : List Resolved)
      → IsTasks registry tasks
      → (2 ≤ length tasks) × (length tasks ≤ 3)
      → IsPlan (compound_decision tasks)
  unfolding compound_decision
  compound-IsPlan tasks h size =
      let team = tasks-IsTeam tasks h size in
      record {
        known = tasks-known tasks h.known;
        shaped = elim (Bool-cases (any_dependent tasks)) [
          | inl dependent ↦ rw dependent team
          | inr free ↦ rw free team
        ];
        confident = omega arith;
      }

  no_heads : (tasks : List Resolved) → HeadsDiffer registry tasks []
  no_heads [] = tt
  no_heads (r ∷ rest) = tt

  plan_compound-IsPlan :
      (intent : Text) (d : RoutingDecision) → plan_compound intent registry ≡ some d → IsPlan d
  unfolding plan_compound
  plan_compound-IsPlan intent d e =
      let clauses = segments intent in
      let resolved = reverse_onto (resolve_clauses registry [] clauses) [] in
      elim (Bool-cases (ltb (length clauses) 2 || is_one_agent resolved)) [
        | inl no_plan ↦ absurd (ground arith)
        | inr team ↦
            let h =
              reverse_onto-IsTasks registry (resolve_clauses registry [] clauses) []
                (resolve_clauses-IsTasks registry [] clauses
                  (record { known = tt; alternating = tt }))
                (record { known = tt; alternating = tt })
                (no_heads (resolve_clauses registry [] clauses)) in
            let made : compound_decision (take max_steps resolved) ≡ d = ground arith in
            subst IsPlan made (
              compound-IsPlan (take max_steps resolved) (take-IsTasks registry max_steps resolved h)
                (take_team resolved (ground arith)))
      ]

  module _ (general : has_agent registry general_agent_key ≡ true)
      (recall : has_agent registry recall_agent_key ≡ true) where
    single-IsPlan :
        (rationale : Rationale) (confidence : ℕ)
        → confidence ≤ 100
        → IsPlan (single rationale confidence)
    unfolding single
    single-IsPlan rationale confidence small =
        single_step-IsPlan general_agent_key rationale confidence [] general small

    recall_pipeline-IsPlan :
        (rationale : Rationale) (confidence : ℕ)
        → confidence ≤ 100
        → IsPlan (recall_pipeline rationale confidence)
    unfolding recall_pipeline
    recall_pipeline-IsPlan rationale confidence small = record {
      known = (recall, (general, tt));
      shaped = (omega arith, omega arith, (refl, tt));
      confident = small;
    }

    fallback-IsPlan : (verdict : Option Text) → IsPlan (fallback_decision verdict)
    unfolding fallback_decision
    fallback-IsPlan none = single-IsPlan _ 30 (omega arith)
    fallback-IsPlan (some text) =
        elim (Bool-cases (contains (codes "recall") (lower (strip text)))) [
          | inl asked ↦ rw asked (recall_pipeline-IsPlan _ 60 (omega arith))
          | inr other ↦ elim (Bool-cases (contains (codes "general") (lower (strip text)))) [
            | inl plain ↦ rw (other, plain) (single-IsPlan _ 60 (omega arith))
            | inr unsure ↦ rw (other, unsure) (single-IsPlan _ 30 (omega arith))
          ]
        ]

    score_agents-IsPlan : (intent : Text) → IsPlan (score_agents intent registry)
    unfolding score_agents
    score_agents-IsPlan intent = elim (Option-cases (best_specialist intent registry)) [
      | inl nobody ↦ rw (nobody, score_agents) (single-IsPlan _ 30 (omega arith))
      | inr (b, found) ↦
          rw (found, score_agents)
            (single_step-IsPlan b.key _ (confidence_for b.score) b.matched
              (best_specialist-IsKnown registry intent b found)
              (unfold confidence_for in omega arith))
    ]

    override-IsPlan : (forced : String) → IsPlan (override_by forced registry)
    unfolding override_by
    override-IsPlan forced = elim (Bool-cases (forced ==ₛ general_agent_key)) [
      | inl same ↦ rw same (single-IsPlan _ 100 (omega arith))
      | inr other ↦ elim (Bool-cases (has_agent registry forced)) [
        | inl known ↦ rw (other, known) (single_step-IsPlan forced _ 100 [] known (omega arith))
        | inr unknown ↦ rw (other, unknown) (single-IsPlan _ 100 (omega arith))
      ]
    ]

    asked-IsPlan :
        (intent : Text) (llm : Option (Text → Option Text))
        → IsPlan (elim llm [
          | none ↦ single low_confidence 30
          | some generate ↦ fallback_decision (generate (take 1000 intent))
        ])
    asked-IsPlan intent none = single-IsPlan _ 30 (omega arith)
    asked-IsPlan intent (some generate) = fallback-IsPlan (generate (take 1000 intent))

    route_scored-IsPlan :
        (intent : Text) (llm : Option (Text → Option Text))
        → IsPlan (route_scored intent registry llm)
    unfolding route_scored
    route_scored-IsPlan intent llm = elim (Option-cases (plan_compound intent registry)) [
      | inr (d, planned) ↦ rw (planned, route_scored) (plan_compound-IsPlan intent d planned)
      | inl one_task ↦ elim (Bool-cases (not (leads_to_general (score_agents intent registry)))) [
        | inl special ↦ rw (one_task, special, route_scored) (score_agents-IsPlan intent)
        | inr plain ↦ rw (one_task, plain, route_scored) (asked-IsPlan intent llm)
      ]
    ]

    -- Where the general and the recall agent are registered, routing never fails a request: every decision
    -- has registered agents only, one step if its shape is single and otherwise two or three steps with no
    -- agent twice in a row, and a confidence of at most one.
    pub route-IsPlan :
        (intent : Text) (context : Option AgentContext) (forced_agent_key : Option String)
        (llm : Option (Text → Option Text))
        → IsPlan (route intent registry context forced_agent_key llm)
    unfolding route
    route-IsPlan intent context (some forced) llm = override-IsPlan forced
    route-IsPlan intent context none llm = elim (Bool-cases (is_research context)) [
      | inl hinted ↦ rw hinted (recall_pipeline-IsPlan _ 95 (omega arith))
      | inr other ↦ rw other (route_scored-IsPlan intent llm)
    ]
