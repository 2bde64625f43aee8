-- ===== src/Mcp/Config.antt =====
-- The configuration of the servers (backend/app/services/mcp/registry.py). Reading a file and decoding
-- JSON are parameters, and so is how Python reads a float's truth and prints a value that is no text.
use gummy_os.Common.{
  starts_with, ℕ, Text, codes, text_eq, lower, strip, Bool, true, false, ◌&&◌, ◌||◌, not, ◌==◌, leb,
  List, [], ◌∷◌, ◌++◌, map, any, take, length, all_codes, Option, none, some, Result, ok, err,
  ◌>>=◌, if◌then◌else◌,
}
use gummy_os.Tools.{Value, bool, str, arr, obj, Items, nil, cons, Fields}
use gummy_os.Tools.Values.{get_field, field_or, truthy}
use gummy_os.Mcp.{Transport, http, stdio, McpServerConfig, ConfigError, config_error, uncaught}

abbrev pub tool_prefix : Text
tool_prefix = codes "mcp__"

unfoldable pub is_lower_alnum : ℕ → Bool
is_lower_alnum c = leb b'a' c && leb c b'z' || leb b'0' c && leb c b'9'

-- `[a-z0-9_-]`
unfoldable pub is_id_code : ℕ → Bool
unfolding is_lower_alnum
is_id_code c = is_lower_alnum c || c == b'_' || c == b'-'

-- `_SERVER_ID_PATTERN`, at a text with no white space around.
unfoldable pub is_server_id : Text → Bool
unfolding is_lower_alnum is_id_code all_codes
is_server_id [] = false
is_server_id (c ∷ s) = is_lower_alnum c && all_codes is_id_code s && leb (length s) 23

-- `[a-zA-Z0-9_]`
unfoldable pub is_safe_code : ℕ → Bool
unfolding is_lower_alnum
is_safe_code c = is_lower_alnum c || leb b'A' c && leb c b'Z' || c == b'_'

-- `re.sub(r"[^a-zA-Z0-9_]", "_", tool_name)`
unfoldable pub sanitize : Text → Text
unfolding is_safe_code
sanitize = map (λ c. if is_safe_code c then c else b'_')

unfoldable pub tool_key : (server_name tool_name : Text) → Text
unfolding sanitize
tool_key server_name tool_name =
    tool_prefix ++ (server_name ++ (codes "__" ++ take 32 (sanitize tool_name)))

-- The set comprehension over `raw_green`: an item that is no text has no `startswith`.
unfoldable pub green_keys : (name : Text) → Items → Result ConfigError (List Text)
unfolding starts_with
green_keys name nil = ok []
green_keys name (cons v rest) = elim v [
  | str g ↦ green_keys name rest >>= λ keys.
      ok ((if starts_with tool_prefix g then g else tool_key name g) ∷ keys)
  | _ ↦ err uncaught
]

unfoldable pub read_green : (name : Text) → Value → Result ConfigError (List Text)
unfolding green_keys
read_green name v = elim v [ arr items ↦ green_keys name items | _ ↦ err config_error ]

module _ (float_bool : Text → Bool) (str_of : Value → Option Text) where
  -- `str(value)`
  unfoldable pub print : Value → Result ConfigError Text
  print value = elim value [
    | str text ↦ ok text
    | v ↦ elim (str_of v) [ none ↦ err uncaught | some text ↦ ok text ]
  ]

  unfoldable print_all : Items → Result ConfigError (List Text)
  unfolding print
  print_all nil = ok []
  print_all (cons v rest) = print v >>= λ text. print_all rest >>= λ texts. ok (text ∷ texts)

  unfoldable read_command : (command args : Value) → Result ConfigError Transport
  unfolding print print_all
  read_command command args = elim args [
    | arr items ↦ print command >>= λ c. print_all items >>= λ xs. ok (stdio c xs)
    | _ ↦ err config_error
  ]

  unfoldable pub read_transport : Fields → Result ConfigError Transport
  unfolding get_field field_or truthy print read_command
  read_transport entry =
      let url = get_field (codes "url") entry in
      let command = get_field (codes "command") entry in
      if truthy float_bool url
      then (print url >>= λ text. ok (http text (get_field (codes "token") entry)))
      else if truthy float_bool command
      then read_command command (field_or (arr nil) (codes "args") entry)
      else err config_error

  unfoldable pub parse_object : Fields → Result ConfigError McpServerConfig
  unfolding field_or print is_server_id read_transport read_green truthy lower strip
  parse_object entry = print (field_or (str []) (codes "name") entry) >>= λ shown.
      let name = lower (strip shown) in
      if not (is_server_id name)
      then err config_error
      else (read_transport entry >>= λ transport.
          read_green name (field_or (arr nil) (codes "green") entry) >>= λ green. ok (record {
            name = name;
            transport = transport;
            green = green;
            enabled = truthy float_bool (field_or (bool true) (codes "enabled") entry);
          }))

  unfoldable pub parse_entry : Value → Result ConfigError McpServerConfig
  unfolding parse_object
  parse_entry entry = elim entry [ obj fields ↦ parse_object fields | _ ↦ err config_error ]

  -- The loop over the entries, with the names that were seen.
  unfoldable pub parse_entries :
      (seen : List Text) → Items → Result ConfigError (List McpServerConfig)
  unfolding parse_entry
  parse_entries seen nil = ok []
  parse_entries seen (cons entry rest) = elim (parse_entry entry) [
    | err config_error ↦ parse_entries seen rest
    | err uncaught ↦ err uncaught
    | ok server ↦ elim (any (text_eq server.name) seen) [
      | true ↦ parse_entries seen rest
      | false ↦ parse_entries (server.name ∷ seen) rest >>= λ servers. ok (server ∷ servers)
    ]
  ]

  unfoldable pub parse_value : Value → Result ConfigError (List McpServerConfig)
  unfolding parse_entries
  parse_value v = elim v [
    | obj fields ↦ parse_entries [] (cons (obj fields) nil)
    | arr items ↦ parse_entries [] items
    | _ ↦ err config_error
  ]

  module _ (read_text : Text → Option Text) (loads : Text → Option Value) where
    unfoldable pub parse_text : Text → Result ConfigError (List McpServerConfig)
    unfolding parse_value
    parse_text text = elim (loads text) [ none ↦ err config_error | some v ↦ parse_value v ]

    -- A text that begins as JSON is inline; any other is a path.
    unfoldable pub parse_config : Option Text → Result ConfigError (List McpServerConfig)
    unfolding strip parse_text
    parse_config none = ok []
    parse_config (some raw) = elim (strip raw) [
      | [] ↦ ok []
      | c ∷ rest ↦
          if c == b'[' || c == b'{'
          then parse_text (c ∷ rest)
          else elim (read_text (c ∷ rest)) [ none ↦ err config_error | some text ↦ parse_text text ]
    ]
