-- ===== src/Tools/Arguments.antt =====
-- The arguments of a tool call (backend/app/services/agents/tools/executor.py): redaction for the
-- audit row, and validation against the declared schema.
pub mod Redaction
pub mod Unreadable
use gummy_os.Common.{
  ℕ, String, Text, codes, text_eq, lower, is_digit, int_of, Bool, true, false, List, [], ◌∷◌, ◌++◌,
  map, any, length, take, Option, none, some, Result, ok, err, ◌>>=◌, ◌==ₛ◌, ltb, to_string,
  if◌then◌else◌, not, ◌||◌,
}
use gummy_os.Tools.Values.{get_field, field_or}
use gummy_os.Tools.{
  Value, null, bool, int, float, str, arr, obj, PyInt, natural, Args, Reply, returned, timed_out,
  raised, ToolSpec, is_executable, Fields, Items, nil, cons, end, field,
}

abbrev pub max_arg_chars : ℕ
max_arg_chars = 2000

abbrev pub redacted_keys : List Text
redacted_keys =
    codes "password"
    ∷ codes "passwd"
    ∷ codes "secret"
    ∷ codes "token"
    ∷ codes "api_key"
    ∷ codes "apikey"
    ∷ codes "access_token"
    ∷ codes "refresh_token"
    ∷ codes "authorization"
    ∷ codes "credential"
    ∷ codes "credentials"
    ∷ codes "private_key"
    ∷ codes "session"
    ∷ codes "cookie"
    ∷ []

abbrev pub redacted : Text
redacted = codes "[REDACTED]"

abbrev pub truncated : Text
truncated = codes "…[truncated]"

unfoldable pub is_secret : Text → Bool
is_secret key = any (text_eq (lower key)) redacted_keys

-- `safe[key] = value[:_MAX_ARG_CHARS] + "…[truncated]"` where the value is a longer text.
unfoldable pub bound_value : Value → Value
bound_value (str s) =
    if ltb max_arg_chars (length s) then str (take max_arg_chars s ++ truncated) else str s
bound_value v = v

unfoldable pub redact_args : Args → Args
unfolding is_secret bound_value
redact_args [] = []
redact_args ((key, value) ∷ rest) =
    (key, if is_secret key then str redacted else bound_value value) ∷ redact_args rest

-- One line of `ValidationResult.errors`.
pub data ArgError : Type 0 where
  missing : Value → ArgError
  wrong_type : (name : Text) → (declared : String) → ArgError

-- The tuple of Python types that `type_checks` gives for a declared type.
pub data Expected : Type 0 where
  str_type int_type number_type bool_type list_type dict_type : Expected

unfoldable pub type_check : String → Option Expected
type_check declared =
    if declared ==ₛ "string"
    then some str_type
    else if declared ==ₛ "integer"
    then some int_type
    else if declared ==ₛ "number"
    then some number_type
    else if declared ==ₛ "boolean"
    then some bool_type
    else if declared ==ₛ "array"
    then some list_type
    else if declared ==ₛ "object"
    then some dict_type
    else none

-- `isinstance(value, expected)`; `bool` is a subclass of `int`.
unfoldable pub is_instance : Expected → Value → Bool
is_instance str_type (str _) = true
is_instance int_type (int _) = true
is_instance int_type (bool _) = true
is_instance number_type (int _) = true
is_instance number_type (bool _) = true
is_instance number_type (float _) = true
is_instance bool_type (bool _) = true
is_instance list_type (arr _) = true
is_instance dict_type (obj _) = true
is_instance _ _ = false

unfoldable pub lookup_arg {ℓ} : {V : Type ℓ} → Text → List (Text × V) → Option V
lookup_arg name [] = none
lookup_arg name ((key, value) ∷ rest) =
    if text_eq key name then some value else lookup_arg name rest

-- `name not in args or args[name] is None or args[name] == ""`.
unfoldable pub is_missing : Args → Text → Bool
is_missing args name = elim (lookup_arg name args) [
  | none ↦ true
  | some value ↦ elim value [ null ↦ true | str s ↦ text_eq s [] | _ ↦ false ]
]

-- What the body of the second loop does with one argument.
pub data Checked : Type 0 where
  dropped : Checked
  coerced : Value → Checked
  refused : ArgError → Checked

-- An exception that leaves the function: the `ValueError` of `int(value)`; an `AttributeError` of a `get`
-- on what is no dict; a `TypeError` of a loop over what is no iterable, and of a test for a key that is a
-- list or a dict.
pub data ValidationError : Type 0 where
  invalid_literal : Text → ValidationError
  attribute_error type_error : ValidationError

unfoldable pub list_items : Items → List Value
list_items nil = []
list_items (cons v rest) = v ∷ list_items rest

unfoldable pub field_names : Fields → List Value
field_names end = []
field_names (field name v rest) = str name ∷ field_names rest

-- What `for name in required` goes through: a list, the characters of a text, or the keys of a dict.
unfoldable pub iterated : Value → Result ValidationError (List Value)
unfolding list_items field_names
iterated (arr items) = ok (list_items items)
iterated (str s) = ok (map (λ c. str (c ∷ [])) s)
iterated (obj fields) = ok (field_names fields)
iterated v = err type_error

-- The body of the first loop; a name that is no text is no key of `args`.
unfoldable pub missing_error : Args → Value → Result ValidationError (List ArgError)
missing_error args (str name) = ok (if is_missing args name then missing (str name) ∷ [] else [])
missing_error args (arr items) = err type_error
missing_error args (obj fields) = err type_error
missing_error args v = ok (missing v ∷ [])

unfoldable pub missing_errors : Args → List Value → Result ValidationError (List ArgError)
missing_errors args [] = ok []
missing_errors args (name ∷ rest) = do
  here ← missing_error args name
  later ← missing_errors args rest
  ok (here ++ later)

-- `str(declared.get("type", ""))`, for the six types: a value that is no text prints as none of them.
unfoldable pub type_name : Fields → String
type_name declared = elim (field_or (str []) (codes "type") declared) [
  | str t ↦ to_string t
  | _ ↦ ""
]

-- `expected == (int,) and isinstance(value, str) and value.isdigit()`, then `int(value)`.
unfoldable pub coerce_int : Text → String → Expected → Value → Result ValidationError Checked
coerce_int name declared int_type (str s) =
    if is_digit s
    then elim (int_of s) [
      | none ↦ err (invalid_literal s)
      | some n ↦ ok (coerced (int (natural n)))
    ]
    else ok (refused (wrong_type name declared))
coerce_int name declared _ _ = ok (refused (wrong_type name declared))

unfoldable pub check_type : Text → String → Value → Result ValidationError Checked
check_type name declared value = elim (type_check declared) [
  | none ↦ ok (coerced value)
  | some expected ↦
      if is_instance expected value
      then ok (coerced value)
      else coerce_int name declared expected value
]

-- A property that is absent or null is unknown.
unfoldable pub check_property : Text → (declared value : Value) → Result ValidationError Checked
check_property name null value = ok dropped
check_property name (obj declared) value = check_type name (type_name declared) value
check_property name declared value = err attribute_error

unfoldable pub check_arg : (properties : Value) → Text → Value → Result ValidationError Checked
unfolding check_property
check_arg properties name value = elim properties [
  | obj fields ↦ check_property name (get_field name fields) value
  | _ ↦ err attribute_error
]

pub record ValidationResult : Type 0 where
  pub errors : List ArgError
  pub coerced : Args

unfoldable pub add_checked : Text → Checked → ValidationResult → ValidationResult
add_checked name dropped r = r
add_checked name (coerced v) r = record r { coerced = (name, v) ∷ r.coerced }
add_checked name (refused e) r = record r { errors = e ∷ r.errors }

unfoldable pub check_args : (properties : Value) → Args → Result ValidationError ValidationResult
check_args properties [] = ok (record { errors = []; coerced = [] })
check_args properties ((name, value) ∷ rest) = do
  checked ← check_arg properties name value
  later ← check_args properties rest
  ok (add_checked name checked later)

module _ {W : Type 0} where
  unfoldable pub validate_args : ToolSpec W → Args → Result ValidationError ValidationResult
  validate_args spec args = do
    names ← iterated (field_or (arr nil) (codes "required") spec.parameters)
    absent ← missing_errors args names
    r ← check_args (field_or (obj end) (codes "properties") spec.parameters) args
    ok (record r { errors = absent ++ r.errors })
