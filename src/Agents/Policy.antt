-- ===== src/Agents/Policy.antt =====
-- The policy engine (backend/app/services/agents/policy_engine.py).
pub mod Verdicts
use gummy_os.Common.{String, List, Bool, ltb, if◌then◌else◌, not}
use gummy_os.Models.{PermissionTier}
use gummy_os.Agents.{AgentManifest, tier_order, mem_key}

pub data PolicyDecision : Type 0 where
  allow prompt block : PolicyDecision

-- `PolicyVerdict.reason`: the parts of the sentence.
pub data Reason : Type 0 where
  not_in_manifest : (tool_key agent_key : String) → Reason
  above_ceiling : PermissionTier → (agent_key : String) → PermissionTier → Reason
  green_read_only yellow_standing_allowance yellow_confirmation red_always : Reason

pub record PolicyVerdict : Type 0 where
  pub decision : PolicyDecision
  pub reason : Reason

unfoldable pub evaluate_tier : String → PermissionTier → List String → PolicyVerdict
evaluate_tier tool_key PermissionTier.green allowances = record {
  decision = allow;
  reason = green_read_only;
}
evaluate_tier tool_key PermissionTier.yellow allowances =
    if mem_key tool_key allowances
    then record { decision = allow; reason = yellow_standing_allowance }
    else record { decision = prompt; reason = yellow_confirmation }
evaluate_tier tool_key PermissionTier.red allowances = record {
  decision = prompt;
  reason = red_always;
}

unfoldable pub evaluate : AgentManifest → String → PermissionTier → List String → PolicyVerdict
unfolding evaluate_tier
evaluate manifest tool_key tool_tier standing_allowances =
    if not (mem_key tool_key manifest.tools)
    then record { decision = block; reason = not_in_manifest tool_key manifest.key }
    else if ltb (tier_order manifest.ceiling) (tier_order tool_tier)
    then record { decision = block; reason = above_ceiling tool_tier manifest.key manifest.ceiling }
    else evaluate_tier tool_key tool_tier standing_allowances
