-- ===== src/Mcp/Installed.antt =====
-- The catalog after startup installed the tools of the configured servers
-- (backend/app/services/mcp/bridge.py).
use gummy_os.Common.{String, ◌≡◌, ◌⊎◌, Text, text_eq, Bool, not, List, any, Option, none, some}
use gummy_os.Tools.{Value, Args, ToolSpec, requires_approval}
use gummy_os.Tools.Catalog.{Catalog, get}
use gummy_os.Mcp.{Transport, DiscoveredTool}
use gummy_os.Mcp.Discovery.{tier_of}
use gummy_os.Mcp.Bridge.{Called, to_spec}
use gummy_os.Mcp.Configured.{IsConfigured}
use gummy_os.Mcp.Foreign.{IsForeign}

module _ {W : Type 0} (call_tool : Transport → (name : Text) → Args → W → Called × W)
    (IsOffered : DiscoveredTool → Type 0)
    (tiered : (tool : DiscoveredTool)
      → IsOffered tool
      → tool.tier ≡ tier_of tool.server tool.key) where
  -- An entry made from a discovered tool; it asks for approval exactly where the operator's list for
  -- its server does not name its key.
  pub record IsExternal (spec : ToolSpec W) : Type 0 where
    pub tool : DiscoveredTool
    pub offered : IsOffered tool
    pub made : to_spec call_tool tool ≡ spec
    pub gated : requires_approval spec ≡ not (any (text_eq tool.key) tool.server.green)

  -- The entry under a key is as it was, or it is a new external one.
  abbrev pub KeepsOrAdds : (before after : List (ToolSpec W)) → String → Type 0
  KeepsOrAdds before after key =
      (get after key ≡ get before key)
      ⊎ ((spec : ToolSpec W) × (get before key ≡ none)
          × (get after key ≡ some spec)
          × IsExternal spec)

module _ {W : Type 0} (call_tool : Transport → (name : Text) → Args → W → Called × W)
    (float_bool : Text → Bool) (str_of : Value → Option Text) (dial : Transport → Option Value)
    (read_text : Text → Option Text) (loads : Text → Option Value) where
  -- The tools of the servers that the setting configures.
  abbrev pub IsListed : (setting : Option Text) → DiscoveredTool → Type 0
  IsListed setting =
      IsForeign float_bool str_of dial (IsConfigured float_bool str_of read_text loads setting)
