-- ===== src/Mcp/Discovery.antt =====
-- What the servers advertise: `list_tools` of backend/app/services/mcp/client.py, `discover` and
-- `discover_all` of registry.py.
use gummy_os.Common.{
  ℕ, zero, suc, Text, codes, text_eq, Bool, List, [], ◌∷◌, ◌++◌, any, take, Option, none, some, ok,
  err, if◌then◌else◌,
}
use mathlib.Core.Option
use gummy_os.Models.{PermissionTier}
use gummy_os.Tools.{Value, str, arr, obj, Items, nil, cons, Fields, end}
use gummy_os.Tools.Values.{get_field, field_or, truthy}
use gummy_os.Mcp.{Transport, McpServerConfig, McpToolDefinition, DiscoveredTool}
use gummy_os.Mcp.Config.{tool_key, print}

abbrev max_description_chars : ℕ
max_description_chars = 800

abbrev max_tools_per_server : ℕ
max_tools_per_server = 64

-- `raw_tools[:n]`
unfoldable take_items : ℕ → Items → Items
take_items zero items = nil
take_items (suc n) nil = nil
take_items (suc n) (cons v rest) = cons v (take_items n rest)

unfoldable pub tier_of : McpServerConfig → (key : Text) → PermissionTier
tier_of server key =
    if any (text_eq key) server.green then PermissionTier.green else PermissionTier.yellow

unfoldable to_discovered : McpServerConfig → McpToolDefinition → DiscoveredTool
unfolding tier_of tool_key
to_discovered server definition =
    let key = tool_key server.name definition.name in
    record { key = key; server = server; definition = definition; tier = tier_of server key }

unfoldable pub to_discovered_all : McpServerConfig → List McpToolDefinition → List DiscoveredTool
unfolding to_discovered
to_discovered_all server [] = []
to_discovered_all server (definition ∷ rest) =
    to_discovered server definition ∷ to_discovered_all server rest

module _ (float_bool : Text → Bool) (str_of : Value → Option Text) where
  unfoldable schema_of : Fields → Fields
  unfolding get_field truthy
  schema_of raw =
      let camel = get_field (codes "inputSchema") raw in
      let chosen =
        if truthy float_bool camel then camel else get_field (codes "input_schema") raw in
      elim chosen [ obj fields ↦ fields | _ ↦ end ]

  -- The body of the loop: `some none` skips the entry, `none` is an exception.
  unfoldable read_tool : Value → Option (Option McpToolDefinition)
  unfolding get_field field_or print schema_of
  read_tool v = elim v [
    | obj raw ↦ elim (get_field (codes "name") raw) [
      | str [] ↦ some none
      | str (c ∷ s) ↦ elim (print float_bool str_of (field_or (str []) (codes "description") raw)) [
        | err e ↦ none
        | ok text ↦ some (
            some (record {
              name = c ∷ s;
              description = take max_description_chars text;
              input_schema = schema_of raw;
            }))
      ]
      | _ ↦ some none
    ]
    | _ ↦ some none
  ]

  unfoldable read_tools : Items → Option (List McpToolDefinition)
  unfolding read_tool
  read_tools nil = some []
  read_tools (cons v rest) = elim (read_tool v) [
    | none ↦ none
    | some none ↦ read_tools rest
    | some (some definition) ↦ Option.map (λ ds. definition ∷ ds) (read_tools rest)
  ]

  -- The answer to `tools/list`; a value with no `get`, and one that is no list, raise.
  unfoldable pub list_tools : Value → Option (List McpToolDefinition)
  unfolding truthy field_or read_tools take_items
  list_tools result = elim (if truthy float_bool result then result else obj end) [
    | obj fields ↦ elim (field_or (arr nil) (codes "tools") fields) [
      | arr items ↦ read_tools (take_items max_tools_per_server items)
      | _ ↦ none
    ]
    | _ ↦ none
  ]

  -- `dial` connects and asks for the tools; `none` is an exception, and any exception is caught.
  module _ (dial : Transport → Option Value) where
    unfoldable pub discover : McpServerConfig → List DiscoveredTool
    unfolding list_tools to_discovered_all
    discover server =
        if server.enabled
        then elim (dial server.transport) [
          | none ↦ []
          | some result ↦ elim (list_tools result) [
            | none ↦ []
            | some definitions ↦ to_discovered_all server definitions
          ]
        ]
        else []

    unfoldable pub discover_all : List McpServerConfig → List DiscoveredTool
    unfolding discover
    discover_all [] = []
    discover_all (server ∷ rest) = discover server ++ discover_all rest
