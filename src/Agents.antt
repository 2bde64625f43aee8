-- ===== src/Agents.antt =====
-- The agents' capability model: manifests (backend/app/schemas/agents.py), the policy gate and the
-- registry.
pub mod Policy
pub mod Registry
pub mod Manifests
use gummy_os.Common.{ℕ, String, Text, List, Bool, ◌==ₛ◌, any}
use gummy_os.Models.{PermissionTier}

-- The fields of `AgentManifest` that decide what an agent may do and where a request goes; those that
-- only describe are left out. Every manifest has a priority of zero or more.
pub record AgentManifest : Type 0 where
  pub key : String
  pub ceiling : PermissionTier
  pub tools : List String
  pub keywords : List Text
  pub priority : ℕ

-- `_TIER_ORDER`.
abbrev pub tier_order : PermissionTier → ℕ
tier_order PermissionTier.green = 0
tier_order PermissionTier.yellow = 1
tier_order PermissionTier.red = 2

-- `key in keys`.
abbrev pub mem_key : String → List String → Bool
mem_key key keys = any (λ k. k ==ₛ key) keys
