-- ===== src/Mcp/Configured.antt =====
-- What a configured server has of the configuration (backend/app/services/mcp/registry.py).
use mathlib.Core.Path.{subst}
use gummy_os.Common.{
  starts_with, if◌then◌else◌, ◌⊎◌, sym, All-imp, ◌≡◌, refl, Text, text_eq, Bool, Bool-cases, true,
  List, [], ◌∷◌, any, List-cases, ◌==◌, ◌||◌, All, codes, lower, strip, Option, none, some,
  Option-cases, inl, inr, Result-cases, ok, >>=-eq-ok, ok-injective, arith,
}
use gummy_os.Tools.{Value, null, bool, int, float, str, arr, obj, Items, nil, cons, Fields}
use gummy_os.Tools.Values.{field_or, truthy}
use gummy_os.Mcp.{McpServerConfig, config_error, uncaught}
use gummy_os.Mcp.Config.{
  is_server_id, tool_key, parse_object, parse_entry, parse_entries, parse_value, parse_text,
  parse_config, print, read_transport, read_green, green_keys, tool_prefix,
}

-- The operator's list, as the server's keys: an entry of it is a full key, or a name that is made one.
abbrev pub IsGreen : (name : Text) → Items → (keys : List Text) → Type 0
IsGreen name nil [] = Unit
IsGreen name (cons (str g) rest) (key ∷ keys) =
    (key ≡ (if starts_with tool_prefix g then g else tool_key name g)) × IsGreen name rest keys
IsGreen name items keys = ⊥

-- The entry is one of the items.
abbrev pub IsEntry : Items → Fields → Type 0
IsEntry nil entry = ⊥
IsEntry (cons v rest) entry = (v ≡ obj entry) ⊎ IsEntry rest entry

module _ (float_bool : Text → Bool) (str_of : Value → Option Text) where
  -- What the server has of its entry: the name in lower case and stripped, the transport, whether it is
  -- enabled, and the list of the tools that need no approval.
  pub record IsReading (entry : Fields) (server : McpServerConfig) : Type 0 where
    pub shown : Text
    pub printed : print float_bool str_of (field_or (str []) (codes "name") entry) ≡ ok shown
    pub name_eq : server.name ≡ lower (strip shown)
    pub valid : is_server_id server.name ≡ true
    pub reached : read_transport float_bool str_of entry ≡ ok server.transport
    pub enabled_eq :
        server.enabled ≡ truthy float_bool (field_or (bool true) (codes "enabled") entry)
    pub list : Items
    pub list_eq : field_or (arr nil) (codes "green") entry ≡ arr list
    pub green_eq : IsGreen server.name list server.green

  abbrev pub IsFrom : Items → McpServerConfig → Type 0
  IsFrom items server = (entry : Fields) × IsEntry items entry × IsReading entry server

  green_keys-IsGreen :
      (name : Text) (items : Items) (keys : List Text)
      → green_keys name items ≡ ok keys
      → IsGreen name items keys
  unfolding green_keys
  green_keys-IsGreen name nil [] e = tt
  green_keys-IsGreen name nil (key ∷ keys) e = absurd cc
  green_keys-IsGreen name (cons (str g) rest) keys e =
      let (more, read, made) = >>=-eq-ok (green_keys name rest) _ e in
      subst (IsGreen name (cons (str g) rest)) (ok-injective made)
        (refl, green_keys-IsGreen name rest more read)
  green_keys-IsGreen name (cons null rest) keys e = absurd cc
  green_keys-IsGreen name (cons (bool b) rest) keys e = absurd cc
  green_keys-IsGreen name (cons (int n) rest) keys e = absurd cc
  green_keys-IsGreen name (cons (float n) rest) keys e = absurd cc
  green_keys-IsGreen name (cons (arr l) rest) keys e = absurd cc
  green_keys-IsGreen name (cons (obj l) rest) keys e = absurd cc

  read_green-list :
      (name : Text) (v : Value) (keys : List Text)
      → read_green name v ≡ ok keys
      → (items : Items) × (v ≡ arr items) × IsGreen name items keys
  unfolding read_green
  read_green-list name (arr items) keys e = (items, refl, green_keys-IsGreen name items keys e)
  read_green-list name null keys e = absurd cc
  read_green-list name v keys e = absurd cc

  parse_object-IsReading :
      (fields : Fields) (server : McpServerConfig)
      → parse_object float_bool str_of fields ≡ ok server
      → IsReading fields server
  unfolding parse_object
  parse_object-IsReading fields server e =
      let (shown, printed, more) =
        >>=-eq-ok (print float_bool str_of (field_or (str []) (codes "name") fields)) _ e in
      let name = lower (strip shown) in
      elim (Bool-cases (is_server_id name)) [
        | inr bad ↦ absurd (ground (arith, more))
        | inl valid ↦
            let made = rw valid at more in
            let (transport, read, rest) =
              >>=-eq-ok (read_transport float_bool str_of fields) _ made in
            let (green, named, last) =
              >>=-eq-ok (read_green name (field_or (arr nil) (codes "green") fields)) _ rest in
            let (items, list_eq, greens) = read_green-list name _ green named in
            subst (IsReading fields) (ok-injective last) record {
              shown = shown;
              printed = printed;
              name_eq = refl;
              valid = valid;
              reached = read;
              enabled_eq = refl;
              list = items;
              list_eq = list_eq;
              green_eq = greens;
            }
      ]

  parse_entry-IsReading :
      (v : Value) (server : McpServerConfig)
      → parse_entry float_bool str_of v ≡ ok server
      → (entry : Fields) × (v ≡ obj entry) × IsReading entry server
  unfolding parse_entry
  parse_entry-IsReading (obj fields) server e =
      (fields, refl, parse_object-IsReading fields server e)
  parse_entry-IsReading null server e = absurd (ground arith)
  parse_entry-IsReading v server e = absurd (ground arith)

  later-IsFrom :
      (v : Value) (rest : Items) (servers : List McpServerConfig)
      → All (IsFrom rest) servers
      → All (IsFrom (cons v rest)) servers
  later-IsFrom v rest servers h =
      All-imp (IsFrom rest) (IsFrom (cons v rest)) servers (λ s k. (k.0, inr k.1, k.2)) h

  parse_entries-IsFrom :
      (seen : List Text) (items : Items) (servers : List McpServerConfig)
      → parse_entries float_bool str_of seen items ≡ ok servers
      → All (IsFrom items) servers
  unfolding parse_entries
  parse_entries-IsFrom seen nil servers e =
      let none_read : [] ≡ servers = ground arith in subst (All (IsFrom nil)) none_read tt
  parse_entries-IsFrom seen (cons v rest) servers e =
      elim (Result-cases (parse_entry float_bool str_of v)) [
        | inr (config_error, bad) ↦
            later-IsFrom v rest servers (parse_entries-IsFrom seen rest servers (ground arith))
        | inr (uncaught, bad) ↦ absurd (ground arith)
        | inl (server, good) ↦ elim (Bool-cases (any (text_eq server.name) seen)) [
          | inl again ↦
              later-IsFrom v rest servers (parse_entries-IsFrom seen rest servers (ground arith))
          | inr fresh ↦
              let (more, read, made) =
                >>=-eq-ok (parse_entries float_bool str_of (server.name ∷ seen) rest)
                  (λ l. ok (server ∷ l)) (rw (good, fresh, parse_entries) at e) in
              let (entry, here, reading) = parse_entry-IsReading v server good in
              subst (All (IsFrom (cons v rest))) (ok-injective made) (
                (entry, inl here, reading),
                later-IsFrom v rest more (parse_entries-IsFrom (server.name ∷ seen) rest more read),
              )
        ]
      ]

  module _ (read_text : Text → Option Text) (loads : Text → Option Value) where
    -- The text of the configuration: the setting itself, or the file that it names.
    pub record IsConfigured (setting : Option Text) (server : McpServerConfig) : Type 0 where
      pub raw : Text
      pub given : setting ≡ some raw
      pub text : Text
      pub text_of : (text ≡ strip raw) ⊎ (read_text (strip raw) ≡ some text)
      pub value : Value
      pub decoded : loads text ≡ some value
      pub entry : Fields
      pub written :
          (value ≡ obj entry) ⊎ ((items : Items) × (value ≡ arr items) × IsEntry items entry)
      pub reading : IsReading entry server

    -- The entries of a value: itself, or those of its list.
    abbrev IsIn : Value → McpServerConfig → Type 0
    IsIn v server =
        (entry : Fields) × ((v ≡ obj entry)
          ⊎ ((items : Items) × (v ≡ arr items) × IsEntry items entry))
        × IsReading entry server

    one_entry :
        (fields : Fields) (server : McpServerConfig)
        → IsFrom (cons (obj fields) nil) server
        → IsIn (obj fields) server
    one_entry fields server (entry, inl same, reading) = (entry, inl same, reading)
    one_entry fields server (entry, inr never, reading) = absurd never

    parse_value-IsIn :
        (v : Value) (servers : List McpServerConfig)
        → parse_value float_bool str_of v ≡ ok servers
        → All (IsIn v) servers
    unfolding parse_value
    parse_value-IsIn (obj fields) servers e =
        All-imp (IsFrom (cons (obj fields) nil)) (IsIn (obj fields)) servers (one_entry fields)
          (parse_entries-IsFrom [] (cons (obj fields) nil) servers e)
    parse_value-IsIn (arr items) servers e =
        All-imp (IsFrom items) (IsIn (arr items)) servers
          (λ s k. (k.0, inr (items, refl, k.1), k.2)) (parse_entries-IsFrom [] items servers e)
    parse_value-IsIn null servers e = absurd (ground arith)
    parse_value-IsIn v servers e = absurd (ground arith)

    parse_text-IsConfigured :
        (raw text : Text) (servers : List McpServerConfig)
        → (text ≡ strip raw) ⊎ (read_text (strip raw) ≡ some text)
        → parse_text float_bool str_of read_text loads text ≡ ok servers
        → All (IsConfigured (some raw)) servers
    unfolding parse_text
    parse_text-IsConfigured raw text servers from e = elim (Option-cases (loads text)) [
      | inl bad ↦ absurd (ground arith)
      | inr (v, good) ↦
          All-imp (IsIn v) (IsConfigured (some raw)) servers
            (λ s k. record {
              raw = raw;
              given = refl;
              text = text;
              text_of = from;
              value = v;
              decoded = good;
              entry = k.0;
              written = k.1;
              reading = k.2;
            })
            (parse_value-IsIn v servers (ground arith))
    ]

    pub parse_config-IsConfigured :
        (setting : Option Text) (servers : List McpServerConfig)
        → parse_config float_bool str_of read_text loads setting ≡ ok servers
        → All (IsConfigured setting) servers
    unfolding parse_config
    parse_config-IsConfigured none servers e =
        let empty : [] ≡ servers = ground arith in subst (All (IsConfigured none)) empty tt
    parse_config-IsConfigured (some raw) servers e = elim (List-cases (strip raw)) [
      | inl blank ↦
          let empty : [] ≡ servers = ground arith in subst (All (IsConfigured (some raw))) empty tt
      | inr (c, rest, shape) ↦ elim (Bool-cases (c == b'[' || c == b'{')) [
        | inl inline ↦
            parse_text-IsConfigured raw (c ∷ rest) servers (inl (sym shape)) (ground arith)
        | inr path ↦ elim (Option-cases (read_text (c ∷ rest))) [
          | inl bad ↦ absurd (ground arith)
          | inr (text, good) ↦
              parse_text-IsConfigured raw text servers (inr (rw shape good)) (ground arith)
        ]
      ]
    ]
