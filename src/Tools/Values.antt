-- ===== src/Tools/Values.antt =====
-- Python's reads of a JSON value: a key of a dict, and the truth of a value.
use gummy_os.Common.{Text, text_eq, Bool, true, false, not, ◌==◌, [], ◌∷◌, if◌then◌else◌}
use gummy_os.Tools.{
  Value, null, bool, int, float, str, arr, obj, PyInt, natural, nil, cons, Fields, end, field,
}

-- `payload.get(key)`
unfoldable pub get_field : Text → Fields → Value
get_field key end = null
get_field key (field k v rest) =
    let found = get_field key rest in if text_eq k key then v else found

-- `bool(value)`; a float's is that of the number its literal stands for.
unfoldable pub truthy : (Text → Bool) → Value → Bool
truthy float_bool null = false
truthy float_bool (bool b) = b
truthy float_bool (int (natural n)) = not (n == 0)
truthy float_bool (int (PyInt.negative n)) = true
truthy float_bool (float literal) = float_bool literal
truthy float_bool (str []) = false
truthy float_bool (str (c ∷ s)) = true
truthy float_bool (arr nil) = false
truthy float_bool (arr (cons v vs)) = true
truthy float_bool (obj end) = false
truthy float_bool (obj (field k v rest)) = true

-- `payload.get(key, default)`
unfoldable pub field_or : (default : Value) (key : Text) → Fields → Value
field_or default key end = default
field_or default key (field k v rest) =
    let found = field_or default key rest in if text_eq k key then v else found
