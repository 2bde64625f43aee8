-- ===== src/Agents/Policy/Verdicts.antt =====
-- Exactly when the gate allows, prompts and blocks.
use gummy_os.Common.{String, List, ◌≡◌, ◌≤◌, ◌↔◌, true, arith}
use gummy_os.Models.{PermissionTier}
use gummy_os.Agents.{AgentManifest, tier_order, mem_key}
use gummy_os.Agents.Policy.{evaluate, allow, prompt, block}

-- The agent may ask for the tool: it declares it, and the tool is not above its ceiling.
abbrev pub Permits : AgentManifest → String → PermissionTier → Type 0
Permits manifest key tier =
    (mem_key key manifest.tools ≡ true) × (tier_order tier ≤ tier_order manifest.ceiling)

-- The tier runs without a human: green, or yellow under a standing allowance; never red.
abbrev pub RunsAlone : String → PermissionTier → List String → Type 0
RunsAlone key PermissionTier.green allowances = Unit
RunsAlone key PermissionTier.yellow allowances = mem_key key allowances ≡ true
RunsAlone key PermissionTier.red allowances = ⊥

-- The gate allows a call exactly if the agent's manifest declares the tool, the tool's tier is not
-- above the agent's ceiling, and the tier is green, or yellow with a standing allowance (so never
-- red); it blocks exactly if one of the first two fails; and it prompts in all other cases.
pub evaluate_iff :
    (manifest : AgentManifest) (key : String) (tier : PermissionTier) (allowances : List String)
    → ((evaluate manifest key tier allowances).decision ≡ allow
        ↔ (Permits manifest key tier × RunsAlone key tier allowances))
      × ((evaluate manifest key tier allowances).decision ≡ block ↔ (¬ Permits manifest key tier))
      × ((evaluate manifest key tier allowances).decision ≡ prompt
          ↔ (Permits manifest key tier × (¬ RunsAlone key tier allowances)))
unfolding evaluate
evaluate_iff manifest key PermissionTier.green allowances = grind arith
evaluate_iff manifest key PermissionTier.yellow allowances = ground arith
evaluate_iff manifest key PermissionTier.red allowances = grind arith
