-- ===== src/Routing/Plans.antt =====
-- The plans (backend/app/services/agents/router.py): compound requests, the best specialist, and `route`.
use gummy_os.Common.{
  ℕ, ◌+◌, ◌*◌, String, ◌==ₛ◌, Text, codes, lower, strip, contains, sorted_set, Bool, true, false,
  ◌||◌, not, ltb, min, List, [], ◌∷◌, ◌++◌, map, any, take, length, Option, none, some,
  if◌then◌else◌,
}
use gummy_os.Models.{PlanShape, AgentContext}
use gummy_os.Agents.{AgentManifest}
use gummy_os.Agents.Registry.{has_agent}
use gummy_os.Routing.{
  RouteStep, RoutingDecision, Rationale, override_general, override, override_unknown,
  research_hint, no_match, fallback, low_confidence, matched, compound, independent,
  general_agent_key, recall_agent_key, specialist_agent_keys,
}
use gummy_os.Routing.Keywords.{Best, best_of}
use gummy_os.Routing.Clauses.{segments, depends_on_earlier}

-- COMPOUND_MAX_STEPS
abbrev pub max_steps : ℕ
max_steps = 3

unfoldable step_for : (agent_key : String) → RouteStep
step_for agent_key = record { agent_key = agent_key; intent = none }

unfoldable pub single_step :
    (agent_key : String) → Rationale → (confidence : ℕ) → List Text → RoutingDecision
unfolding step_for
single_step agent_key rationale confidence keywords = record {
  plan_shape = PlanShape.single;
  steps = step_for agent_key ∷ [];
  rationale = rationale;
  confidence = confidence;
  matched_keywords = keywords;
}

-- `_single`
unfoldable pub single : Rationale → (confidence : ℕ) → RoutingDecision
unfolding single_step
single rationale confidence = single_step general_agent_key rationale confidence []

unfoldable pub recall_pipeline : Rationale → (confidence : ℕ) → RoutingDecision
unfolding step_for
recall_pipeline rationale confidence = record {
  plan_shape = PlanShape.pipeline;
  steps = step_for recall_agent_key ∷ step_for general_agent_key ∷ [];
  rationale = rationale;
  confidence = confidence;
  matched_keywords = [];
}

-- One task of a compound request: the entry of `resolved`.
pub record Resolved : Type 0 where
  pub agent_key : String
  pub intent : Text
  pub matched : List Text
  pub dependent : Bool

unfoldable pub best_specialist : (intent : Text) → List AgentManifest → Option Best
unfolding best_of lower
best_specialist intent registry = best_of registry (lower intent) none specialist_agent_keys

-- A clause is folded into the task before it.
unfoldable pub fold_clause : (clause : Text) (more : List Text) → Resolved → Resolved
fold_clause clause more r = record r { intent = r.intent ++ (codes ". " ++ clause); matched = more }

-- `resolved[-1]`, which stands first here, takes the clause of no specialist.
unfoldable pub fold_last : (clause : Text) → List Resolved → List Resolved
unfolding fold_clause
fold_last clause [] = []
fold_last clause (r ∷ rest) = fold_clause clause r.matched r ∷ rest

-- A task of the same agent as the last is folded into it, any other is a new one.
unfoldable pub add_task : (clause : Text) (dependent : Bool) → Best → List Resolved → List Resolved
unfolding fold_clause sorted_set
add_task clause dependent b [] =
    record { agent_key = b.key; intent = clause; matched = b.matched; dependent = dependent } ∷ []
add_task clause dependent b (r ∷ rest) =
    if r.agent_key ==ₛ b.key
    then fold_clause clause (sorted_set (r.matched ++ b.matched)) r ∷ rest
    else record { agent_key = b.key; intent = clause; matched = b.matched; dependent = dependent }
      ∷ r
      ∷ rest

-- The body of the loop over the clauses; `resolved` has the last task first.
unfoldable pub resolve_clause :
    List AgentManifest → List Resolved → (clause join : Text) → List Resolved
unfolding best_specialist depends_on_earlier fold_last add_task
resolve_clause registry resolved clause join = elim (best_specialist clause registry) [
  | none ↦ fold_last clause resolved
  | some b ↦ add_task clause (depends_on_earlier clause join) b resolved
]

unfoldable pub resolve_clauses :
    List AgentManifest → List Resolved → List (Text × Text) → List Resolved
unfolding resolve_clause
resolve_clauses registry resolved [] = resolved
resolve_clauses registry resolved ((clause, join) ∷ rest) =
    resolve_clauses registry (resolve_clause registry resolved clause join) rest

-- The tasks in the order of the request.
unfoldable pub reverse_onto : List Resolved → List Resolved → List Resolved
reverse_onto [] acc = acc
reverse_onto (r ∷ rest) acc = reverse_onto rest (r ∷ acc)

-- `len({key for ...}) < 2`
unfoldable pub is_one_agent : List Resolved → Bool
is_one_agent [] = true
is_one_agent (r ∷ rest) = not (any (λ (x : Resolved). not (x.agent_key ==ₛ r.agent_key)) rest)

unfoldable pub any_dependent : List Resolved → Bool
any_dependent [] = false
any_dependent (r ∷ rest) = any (λ (x : Resolved). x.dependent) rest

unfoldable all_matched : List Resolved → List Text
all_matched [] = []
all_matched (r ∷ rest) = r.matched ++ all_matched rest

unfoldable pub to_step : Resolved → RouteStep
to_step r = record { agent_key = r.agent_key; intent = some r.intent }

-- The decision on the tasks that are kept.
unfoldable pub compound_decision : List Resolved → RoutingDecision
unfolding any_dependent all_matched sorted_set to_step
compound_decision tasks =
    let agents = map (λ (r : Resolved). r.agent_key) tasks in
    let dependent = any_dependent tasks in
    record {
      plan_shape = if dependent then PlanShape.pipeline else PlanShape.parallel;
      steps = map to_step tasks;
      rationale = if dependent then compound agents else independent agents;
      confidence = 90;
      matched_keywords = sorted_set (all_matched tasks);
    }

unfoldable pub plan_compound : (intent : Text) → List AgentManifest → Option RoutingDecision
unfolding segments resolve_clauses reverse_onto is_one_agent compound_decision
plan_compound intent registry =
    let clauses = segments intent in
    let resolved = reverse_onto (resolve_clauses registry [] clauses) [] in
    if ltb (length clauses) 2 || is_one_agent resolved
    then none
    else some (compound_decision (take max_steps resolved))

-- `min(0.95, 0.6 + 0.12 * score)`
unfoldable pub confidence_for : (score : ℕ) → ℕ
confidence_for score = min 95 (60 + 12 * score)

unfoldable pub score_agents : (intent : Text) → List AgentManifest → RoutingDecision
unfolding best_specialist single single_step confidence_for
score_agents intent registry = elim (best_specialist intent registry) [
  | none ↦ single no_match 30
  | some b ↦ single_step b.key (matched b.matched) (confidence_for b.score) b.matched
]

unfoldable pub override_by : (forced_agent_key : String) → List AgentManifest → RoutingDecision
unfolding single single_step
override_by forced_agent_key registry =
    if forced_agent_key ==ₛ general_agent_key
    then single override_general 100
    else if has_agent registry forced_agent_key
    then single_step forced_agent_key override 100 []
    else single (override_unknown forced_agent_key) 100

-- The verdict of the model, as it was generated; `none` is an exception.
unfoldable pub fallback_decision : Option Text → RoutingDecision
unfolding contains lower strip single recall_pipeline
fallback_decision none = single low_confidence 30
fallback_decision (some text) =
    let verdict = lower (strip text) in
    if contains (codes "recall") verdict
    then recall_pipeline fallback 60
    else if contains (codes "general") verdict
    then single fallback 60
    else single low_confidence 30

-- `decision.steps[0].agent_key == GENERAL_AGENT_KEY`
unfoldable pub leads_to_general : RoutingDecision → Bool
leads_to_general decision = elim decision.steps [
  | [] ↦ false
  | step ∷ rest ↦ step.agent_key ==ₛ general_agent_key
]

unfoldable pub is_research : Option AgentContext → Bool
is_research none = false
is_research (some context) = elim context [ AgentContext.research ↦ true | _ ↦ false ]

-- From the compound plan on; `llm`, where one is given, answers the first thousand characters.
unfoldable pub route_scored :
    (intent : Text) → List AgentManifest → (llm : Option (Text → Option Text)) → RoutingDecision
unfolding plan_compound score_agents leads_to_general single fallback_decision
route_scored intent registry llm = elim (plan_compound intent registry) [
  | some decision ↦ decision
  | none ↦
      let decision = score_agents intent registry in
      if not (leads_to_general decision) then decision else elim llm [
        | none ↦ single low_confidence 30
        | some generate ↦ fallback_decision (generate (take 1000 intent))
      ]
]

unfoldable pub route :
    (intent : Text)
    → List AgentManifest
    → Option AgentContext
    → (forced_agent_key : Option String) → (llm : Option (Text → Option Text)) → RoutingDecision
unfolding override_by is_research recall_pipeline route_scored
route intent registry context (some forced) llm = override_by forced registry
route intent registry context none llm =
    if is_research context
    then recall_pipeline research_hint 95
    else route_scored intent registry llm
