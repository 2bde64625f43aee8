-- ===== src/Tests/Servers.antt =====
-- backend/app/services/mcp at one configured server.
use gummy_os.Common.{
  Text, codes, text_eq, all_codes, true, false, [], ◌∷◌, ◌++◌, Option, none, some, err, ◌≡◌, refl,
  arith,
}
use gummy_os.Models.{PermissionTier}
use gummy_os.Tools.{
  Fields, Value, str, arr, obj, bool, int, natural, nil, cons, end, field, Args, ToolSpec, negative,
}
use gummy_os.Tools.Catalog.{Catalog}
use gummy_os.Mcp.{Transport, http, DiscoveredTool, uncaught}
use gummy_os.Mcp.Config.{
  is_server_id, is_safe_code, is_id_code, is_lower_alnum, tool_key, parse_entry,
}
use gummy_os.Mcp.Naming.{tool_key-collides}
use gummy_os.Mcp.Bridge.{Called, answered, to_spec}

-- The server `fs` with the tool `read__file`, and the server `fs__read` with the tool `file`.
tool_key-collides_example :
    (is_server_id (codes "fs" ++ (codes "__" ++ codes "read")) ≡ true)
    × (tool_key (codes "fs" ++ (codes "__" ++ codes "read")) (codes "file")
        ≡ tool_key (codes "fs") (codes "read" ++ (codes "__" ++ codes "file")))
tool_key-collides_example =
    tool_key-collides (codes "fs") (codes "read") (codes "file")
      (unfold is_server_id is_lower_alnum is_id_code all_codes in refl)
      (unfold all_codes is_id_code is_lower_alnum in refl)
      (unfold all_codes is_safe_code is_lower_alnum in refl) (omega arith) (omega arith)

-- Nothing is printed but texts.
abbrev str_of : Value → Option Text
str_of v = none

-- A number in the list `green` is no `MCPConfigError`.
bad_green :
    parse_entry
      (λ _. true)
      str_of
      (obj (
        field (codes "name") (str (codes "fs")) (
          field
            (codes "url")
            (str (codes "u"))
            (field (codes "green") (arr (cons (int (natural 1)) nil)) end))))
    ≡ err uncaught
unfolding parse_entry text_eq
bad_green = refl

abbrev State : Type 0
State = Unit

abbrev call_tool : Transport → (name : Text) → Args → State → Called × State
call_tool transport name args w =
    (answered (record { content = name; truncated = false; is_error = false }) 1, w)

-- The server lists one tool.
abbrev dial : Transport → Option Value
dial transport = some (
    obj (
      field (codes "tools") (arr (cons (obj (field (codes "name") (str (codes "ls")) end)) nil))
        end))

abbrev loads : Text → Option Value
loads text =
    some (obj (field (codes "name") (str (codes "fs")) (field (codes "url") (str (codes "u")) end)))

abbrev calculator : ToolSpec State
calculator = record {
  key = "calculator";
  tier = PermissionTier.green;
  name = "Calculator";
  executor = none;
  parameters = Fields.end;
  timeout_seconds = 10;
}

abbrev built_in : Catalog State
built_in = record {
  tools = calculator ∷ [];
  tiers = ("calculator", PermissionTier.green) ∷ [];
  external_installed = false;
}

abbrev listed : DiscoveredTool
listed = record {
  key = codes "mcp__fs__ls";
  server = record {
    name = codes "fs";
    transport = http (codes "u") Value.null;
    green = [];
    enabled = true;
  };
  definition = record { name = codes "ls"; description = []; input_schema = end };
  tier = PermissionTier.yellow;
}

abbrev extended : Catalog State
extended = record {
  tools = calculator ∷ to_spec call_tool listed ∷ [];
  tiers = ("calculator", PermissionTier.green) ∷ ("mcp__fs__ls", PermissionTier.yellow) ∷ [];
  external_installed = true;
}
