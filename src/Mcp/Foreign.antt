-- ===== src/Mcp/Foreign.antt =====
-- What an external tool is (backend/app/services/mcp/registry.py).
use gummy_os.Common.{
  ℕ, suc, ◌+◌, get_elem?, ap, ◌∙◌, ◌≡◌, refl, Text, Bool, Bool-cases, true, List, [], ◌∷◌, All,
  All-append, Option, some, Option-cases, inl, inr, arith,
}
use gummy_os.Tools.{Value}
use gummy_os.Mcp.{Transport, McpServerConfig, McpToolDefinition, DiscoveredTool}
use gummy_os.Mcp.Config.{tool_key}
use gummy_os.Mcp.Discovery.{tier_of, to_discovered_all, list_tools, discover, discover_all}

module _ (float_bool : Text → Bool) (str_of : Value → Option Text) (dial : Transport → Option Value)
    (Configured : McpServerConfig → Type 0) where
  -- A tool that an enabled and configured server lists when it is asked, under its namespaced key, in the
  -- tier that the server's configuration gives it.
  pub record IsForeign (tool : DiscoveredTool) : Type 0 where
    pub configured : Configured tool.server
    pub on : tool.server.enabled ≡ true
    pub result : Value
    pub replied : dial tool.server.transport ≡ some result
    pub definitions : List McpToolDefinition
    pub read : list_tools float_bool str_of result ≡ some definitions
    pub position : ℕ
    pub listed : get_elem? definitions position ≡ some tool.definition
    pub named : tool.key ≡ tool_key tool.server.name tool.definition.name
    pub tiered : tool.tier ≡ tier_of tool.server tool.key

  module _ (server : McpServerConfig) (configured : Configured server) (on : server.enabled ≡ true)
      (result : Value) (replied : dial server.transport ≡ some result)
      (definitions : List McpToolDefinition)
      (read : list_tools float_bool str_of result ≡ some definitions) where
    to_discovered_all-IsForeign :
        (position : ℕ) (rest : List McpToolDefinition)
        → ((i : ℕ) → get_elem? definitions (position + i) ≡ get_elem? rest i)
        → All IsForeign (to_discovered_all server rest)
    unfolding to_discovered_all
    to_discovered_all-IsForeign position [] h = tt
    to_discovered_all-IsForeign position (definition ∷ rest) h = (
      record {
        configured = configured;
        on = on;
        result = result;
        replied = replied;
        definitions = definitions;
        read = read;
        position = position;
        listed =
            (let same : position ≡ position + 0 = omega arith in
              ap (λ n. get_elem? definitions n) same ∙ h 0);
        named = refl;
        tiered = refl;
      },
      to_discovered_all-IsForeign (suc position) rest (λ i.
          (let same : suc position + i ≡ position + suc i = omega arith in
            ap (λ n. get_elem? definitions n) same ∙ h (suc i))),
    )

  discover-IsForeign :
      (server : McpServerConfig)
      → Configured server
      → All IsForeign (discover float_bool str_of dial server)
  unfolding discover
  discover-IsForeign server h = elim (Bool-cases server.enabled) [
    | inr off ↦ rw (off, discover) tt
    | inl on ↦ elim (Option-cases (dial server.transport)) [
      | inl down ↦ rw (on, down, discover) tt
      | inr (result, up) ↦ elim (Option-cases (list_tools float_bool str_of result)) [
        | inl bad ↦ rw (on, up, bad, discover) tt
        | inr (definitions, good) ↦
            rw (on, up, good, discover)
              (to_discovered_all-IsForeign server h on result up definitions good 0 definitions
                (λ i.
                  (let same : 0 + i ≡ i = omega arith in ap (λ n. get_elem? definitions n) same)))
      ]
    ]
  ]

  pub discover_all-IsForeign :
      (servers : List McpServerConfig)
      → All Configured servers
      → All IsForeign (discover_all float_bool str_of dial servers)
  unfolding discover_all
  discover_all-IsForeign [] h = tt
  discover_all-IsForeign (server ∷ rest) h =
      All-append _ _ _ (discover-IsForeign server h.0) (discover_all-IsForeign rest h.1)
