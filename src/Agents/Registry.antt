-- ===== src/Agents/Registry.antt =====
-- The agent registry (backend/app/services/agents/registry.py). `_manifests` is a dict that is only
-- ever extended by a new key, so it is the list of the accepted manifests.
pub mod Declared
use gummy_os.Common.{
  String, List, [], ◌∷◌, ◌++◌, Bool, ◌==ₛ◌, any, find, Option, none, some, Result, ok, err, ◌>>=◌,
  ltb, if◌then◌else◌,
}
use gummy_os.Models.{PermissionTier}
use gummy_os.Agents.{AgentManifest, tier_order}

pub data ManifestValidationError : Type 0 where
  duplicate_agent_key : String → ManifestValidationError
  unknown_tool : (agent_key tool_key : String) → ManifestValidationError
  ceiling_below_tool :
      (agent_key : String)
      → PermissionTier
      → (tool_key : String) → PermissionTier
      → ManifestValidationError

abbrev pub Tiers : Type 0
Tiers = List (String × PermissionTier)

unfoldable pub tier_of : Tiers → String → Option PermissionTier
tier_of [] key = none
tier_of ((k, tier) ∷ rest) key = if k ==ₛ key then some tier else tier_of rest key

unfoldable pub has_agent : List AgentManifest → String → Bool
has_agent manifests key = any (λ m. m.key ==ₛ key) manifests

-- The body of the loop over `manifest.tools`.
unfoldable pub validate_tool :
    AgentManifest → Tiers → String → Result ManifestValidationError (Unit {0})
validate_tool manifest known_tools tool_key = elim (tier_of known_tools tool_key) [
  | none ↦ err (unknown_tool manifest.key tool_key)
  | some tier ↦
      if ltb (tier_order manifest.ceiling) (tier_order tier)
      then err (ceiling_below_tool manifest.key manifest.ceiling tool_key tier)
      else ok tt
]

unfoldable pub validate_tools :
    AgentManifest → Tiers → List String → Result ManifestValidationError (Unit {0})
validate_tools manifest known_tools [] = ok tt
validate_tools manifest known_tools (tool_key ∷ rest) =
    validate_tool manifest known_tools tool_key >>= λ _. validate_tools manifest known_tools rest

unfoldable pub validate :
    List AgentManifest → AgentManifest → Tiers → Result ManifestValidationError (Unit {0})
validate manifests manifest known_tools =
    if has_agent manifests manifest.key
    then err (duplicate_agent_key manifest.key)
    else validate_tools manifest known_tools manifest.tools

-- `AgentRegistry.__init__`, from the manifests accepted so far.
unfoldable pub init_from :
    List AgentManifest
    → List AgentManifest
    → Tiers
    → Result ManifestValidationError (List AgentManifest)
init_from accepted [] known_tools = ok accepted
init_from accepted (manifest ∷ rest) known_tools = validate accepted manifest known_tools >>= λ _.
    init_from (accepted ++ manifest ∷ []) rest known_tools

unfoldable pub init :
    List AgentManifest → Tiers → Result ManifestValidationError (List AgentManifest)
init manifests known_tools = init_from [] manifests known_tools

-- `AgentRegistry.get`; `none` is a `KeyError`.
unfoldable pub get : List AgentManifest → String → Option AgentManifest
get manifests agent_key = find (λ m. m.key ==ₛ agent_key) manifests
