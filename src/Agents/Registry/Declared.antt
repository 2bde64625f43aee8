-- ===== src/Agents/Registry/Declared.antt =====
-- What an accepted registry guarantees at the gate.
use mathlib.Core.Path.{subst}
use gummy_os.Common.{
  String, List, [], ◌∷◌, ◌++◌, All, All-append, All-find, find-some, ◌≡◌, ◌≢◌, true, ◌==ₛ◌, eq_iff,
  some, Option-cases, Bool-cases, inl, inr, ok, >>=-eq-ok, ok-injective, arith, ◌≤◌,
}
use gummy_os.Models.{PermissionTier}
use gummy_os.Agents.{AgentManifest, tier_order, mem_key}
use gummy_os.Agents.Policy.{evaluate, block}
use gummy_os.Agents.Policy.Verdicts.{evaluate_iff}
use gummy_os.Agents.Registry.{
  Tiers, tier_of, validate_tool, validate_tools, validate, init_from, init, get,
}

module _ (known_tools : Tiers) where
  -- The tool exists, and is not above the ceiling.
  pub record IsGranted (ceiling : PermissionTier) (tool_key : String) : Type 0 where
    pub tier : PermissionTier
    pub known : tier_of known_tools tool_key ≡ some tier
    pub within : tier_order tier ≤ tier_order ceiling

  abbrev IsSound : AgentManifest → Type 0
  IsSound m = All (IsGranted m.ceiling) m.tools

  validate_tool-IsGranted :
      (m : AgentManifest) (tool_key : String)
      → validate_tool m known_tools tool_key ≡ ok tt
      → IsGranted m.ceiling tool_key
  validate_tool-IsGranted m tool_key h = elim (Option-cases (tier_of known_tools tool_key)) [
    | inl unknown ↦ absurd (unfold validate_tool in ground arith)
    | inr (tier, known) ↦ record {
      tier = tier;
      known = known;
      within = unfold validate_tool in ground arith;
    }
  ]

  validate_tools-IsGranted :
      (m : AgentManifest) (keys : List String)
      → validate_tools m known_tools keys ≡ ok tt
      → All (IsGranted m.ceiling) keys
  unfolding validate_tools
  validate_tools-IsGranted m [] h = tt
  validate_tools-IsGranted m (key ∷ keys) h =
      let (_, first, rest) = >>=-eq-ok (validate_tool m known_tools key) _ h in
      (validate_tool-IsGranted m key first, validate_tools-IsGranted m keys rest)

  validate-IsSound :
      (accepted : List AgentManifest) (m : AgentManifest)
      → validate accepted m known_tools ≡ ok tt
      → IsSound m
  unfolding validate
  validate-IsSound accepted m h = validate_tools-IsGranted m m.tools (ground arith)

  init_from-IsSound :
      (accepted manifests registry : List AgentManifest)
      → All IsSound accepted
      → init_from accepted manifests known_tools ≡ ok registry
      → All IsSound registry
  unfolding init_from
  init_from-IsSound accepted [] registry a h = subst (All IsSound) (ok-injective h) a
  init_from-IsSound accepted (m ∷ rest) registry a h =
      let (_, valid, h') = >>=-eq-ok (validate accepted m known_tools) _ h in
      init_from-IsSound (accepted ++ m ∷ []) rest registry
        (All-append IsSound accepted (m ∷ []) a (validate-IsSound accepted m valid, tt)) h'

  All-mem_key :
      (P : String → Type 0) (keys : List String) (key : String)
      → All P keys
      → mem_key key keys ≡ true
      → P key
  All-mem_key P [] key a h = absurd (ground arith)
  All-mem_key P (k ∷ keys) key a h = elim (Bool-cases (k ==ₛ key)) [
    | inl same ↦ subst P ((eq_iff k key).0 same) a.0
    | inr other ↦ All-mem_key P keys key a.1 (ground arith)
  ]

-- The gate never blocks an agent of an accepted registry from a tool that its manifest declares:
-- the registry refused at startup every manifest that declares an unknown tool or one above its own
-- ceiling. The manifest found under a key carries that key.
pub get-declared-ne-block :
    (known_tools : Tiers) (manifests registry : List AgentManifest) (agent_key : String)
    (m : AgentManifest) (tool_key : String) (tier : PermissionTier) (allowances : List String)
    → init manifests known_tools ≡ ok registry
    → get registry agent_key ≡ some m
    → mem_key tool_key m.tools ≡ true
    → tier_of known_tools tool_key ≡ some tier
    → ((evaluate m tool_key tier allowances).decision ≢ block) × (m.key ≡ agent_key)
unfolding init get
get-declared-ne-block known_tools manifests registry agent_key m tool_key tier allowances i g d t =
    let sound : All (IsSound known_tools) registry =
      init_from-IsSound known_tools [] manifests registry tt i in
    let granted =
      All-mem_key known_tools (IsGranted known_tools m.ceiling) m.tools tool_key
        (All-find (IsSound known_tools) (λ a. a.key ==ₛ agent_key) registry m sound g) d in
    (
      λ blocked. (((evaluate_iff m tool_key tier allowances).1).0 blocked) (d, within granted),
      (eq_iff m.key agent_key).0 (find-some (λ a. a.key ==ₛ agent_key) registry m g),
    )
  where
    within : IsGranted known_tools m.ceiling tool_key → tier_order tier ≤ tier_order m.ceiling
    within granted =
        let same : granted.tier ≡ tier = ground (arith, granted.known) in
        subst (λ x. tier_order x ≤ tier_order m.ceiling) same granted.within
