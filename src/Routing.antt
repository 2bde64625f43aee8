-- ===== src/Routing.antt =====
-- The agent router (backend/app/services/agents/router.py): who runs, and in what shape. A confidence is
-- a number of hundredths. The fallback on a model is a parameter of `route`.
pub mod Keywords
pub mod Clauses
pub mod Plans
pub mod Best
pub mod Planned
pub mod Routed
use gummy_os.Common.{ℕ, String, Text, List, [], ◌∷◌, Option}
use gummy_os.Models.{PlanShape}

pub record RouteStep : Type 0 where
  pub agent_key : String
  pub intent : Option Text

-- The rationale, with what its text names.
pub data Rationale : Type 0 where
  override_general override : Rationale
  override_unknown : (forced_agent_key : String) → Rationale
  research_hint no_match fallback low_confidence : Rationale
  matched : List Text → Rationale
  compound : (agents : List String) → Rationale
  independent : (agents : List String) → Rationale

pub record RoutingDecision : Type 0 where
  pub plan_shape : PlanShape
  pub steps : List RouteStep
  pub rationale : Rationale
  pub confidence : ℕ
  pub matched_keywords : List Text

-- backend/app/services/agents/manifests.py
abbrev pub general_agent_key : String
general_agent_key = "general"

abbrev pub recall_agent_key : String
recall_agent_key = "recall"

abbrev pub specialist_agent_keys : List String
specialist_agent_keys =
    "career" ∷ "learning" ∷ "planner" ∷ "memory" ∷ "research" ∷ "automation" ∷ "engineer" ∷ []
