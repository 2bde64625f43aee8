-- ===== src/Mcp/Bridge.antt =====
-- The installation of the discovered tools (backend/app/services/mcp/bridge.py and the `parameters` of
-- `DiscoveredTool`). `call_tool` is how a call over a fresh connection ends.
use gummy_os.Common.{
  ℕ, String, Text, codes, text_eq, to_string, Bool, false, List, [], ◌∷◌, ◌++◌, map, take, Option,
  some, Result, ok, err, if◌then◌else◌,
}
use gummy_os.Tools.{
  Value, bool, str, obj, Fields, end, field, Args, Reply, returned, timed_out, raised, ToolSpec,
}
use gummy_os.Tools.Values.{get_field, field_or}
use gummy_os.Tools.Catalog.{Catalog, install_external_tools}
use gummy_os.Mcp.{Transport, DiscoveredTool, ConfigError, config_error, uncaught}
use gummy_os.Mcp.Config.{parse_config}
use gummy_os.Mcp.Discovery.{discover_all}

abbrev external_tool_timeout_seconds : ℕ
external_tool_timeout_seconds = 60

unfoldable is_object_schema : Fields → Bool
unfolding get_field text_eq
is_object_schema schema = elim (get_field (codes "type") schema) [
  | str t ↦ text_eq t (codes "object")
  | _ ↦ false
]

-- `DiscoveredTool.parameters`: a schema that is not one of an object keeps its properties only.
unfoldable pub parameters : DiscoveredTool → Fields
unfolding is_object_schema field_or
parameters tool =
    let schema = tool.definition.input_schema in
    if is_object_schema schema
    then schema
    else field (codes "type") (str (codes "object"))
        (field (codes "properties") (field_or (obj end) (codes "properties") schema) end)

-- What `MCPClient.call_tool` returns.
pub record ToolResult : Type 0 where
  pub content : Text
  pub truncated : Bool
  pub is_error : Bool

-- How the connection and the call end, with the elapsed time.
pub data Called : Type 0 where
  answered : ToolResult → ℕ → Called
  expired : ℕ → Called
  failed : (class text : Text) → ℕ → Called

-- An error that the server reports in its answer is raised.
unfoldable reply_of : DiscoveredTool → Called → Reply
reply_of tool (answered result elapsed) =
    if result.is_error
    then raised (codes "MCPError")
        (tool.definition.name ++ (codes " failed: " ++ take 300 result.content)) elapsed
    else returned
        (obj (
          field (codes "server") (str tool.server.name) (
            field (codes "tool") (str tool.definition.name) (
              field (codes "content") (str result.content)
                (field (codes "truncated") (bool result.truncated) end)))))
        elapsed
reply_of tool (expired elapsed) = timed_out elapsed
reply_of tool (failed class text elapsed) = raised class text elapsed

module _ {W : Type 0} (call_tool : Transport → (name : Text) → Args → W → Called × W) where
  unfoldable make_executor : DiscoveredTool → W → Args → Reply × W
  unfolding reply_of
  make_executor tool w args =
      let (called, w') = call_tool tool.server.transport tool.definition.name args w in
      (reply_of tool called, w')

  unfoldable pub to_spec : DiscoveredTool → ToolSpec W
  unfolding to_string make_executor parameters
  to_spec tool = record {
    key = to_string tool.key;
    tier = tool.tier;
    name = to_string (tool.definition.name ++ (codes " (" ++ (tool.server.name ++ codes ")")));
    executor = some (make_executor tool);
    parameters = parameters tool;
    timeout_seconds = external_tool_timeout_seconds;
  }

  -- The tools that are found go into the catalog, unless startup has run before.
  unfoldable pub install_discovered : List DiscoveredTool → Catalog W → Catalog W × List String
  unfolding to_spec install_external_tools
  install_discovered [] c = (c, [])
  install_discovered (tool ∷ rest) c = elim (install_external_tools c (map to_spec (tool ∷ rest))) [
    | ok (c', installed) ↦ (c', installed)
    | err e ↦ (c, [])
  ]

  module _ (float_bool : Text → Bool) (str_of : Value → Option Text)
      (dial : Transport → Option Value) where
    module _ (read_text : Text → Option Text) (loads : Text → Option Value) where
      unfoldable pub install_configured_servers :
          (mcp_enabled : Bool) (mcp_servers : Option Text)
          → Catalog W
          → Result ConfigError (Catalog W × List String)
      unfolding parse_config discover_all install_discovered
      install_configured_servers mcp_enabled mcp_servers c =
          if mcp_enabled
          then elim (parse_config float_bool str_of read_text loads mcp_servers) [
            | err config_error ↦ ok (c, [])
            | err uncaught ↦ err uncaught
            | ok servers ↦ ok (install_discovered (discover_all float_bool str_of dial servers) c)
          ]
          else ok (c, [])
