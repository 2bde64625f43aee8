-- ===== src/Tools/Arguments/Unreadable.antt =====
-- When the validation itself raises: at a schema of another shape, and at texts that `str.isdigit`
-- accepts and `int` does not.
use mathlib.Core.Bool.{not}
use mathlib.Core.Path.{subst, sym}
use gummy_os.Common.{
  String, Text, codes, to_string, map, Result, Result-cases, ◌>>=◌, ◌≡◌, ◌≢◌, refl, Bool, true,
  false, List, [], ◌∷◌, any, length, arith, Bool-cases, inl, inr, Option, none, some, is_ok,
  is_digit, int_of, is_decimal, all_codes, max_str_digits, ltb, ◌&&◌, ◌||◌, ◌==ₛ◌, eq_iff,
}
use gummy_os.Tools.{
  Value, null, str, arr, obj, Items, nil, cons, Fields, end, field, Args, ToolSpec,
}
use gummy_os.Tools.Values.{get_field, field_or}
use gummy_os.Tools.Arguments.{
  type_check, is_instance, type_name, check_property, check_type, check_arg, ValidationError,
  iterated, list_items, field_names, missing_error, missing_errors, check_args, validate_args,
  coerce_int, Expected, int_type, str_type,
}

-- The text passes `isdigit` and holds a superscript digit, or more digits than `int` converts.
abbrev is_unreadable_text : Text → Bool
is_unreadable_text s = is_digit s && (not (all_codes is_decimal s) || ltb max_str_digits (length s))

abbrev pub is_unreadable : (whole : Bool) → Value → Bool
is_unreadable whole (str s) = whole && is_unreadable_text s
is_unreadable whole v = false

abbrev pub is_integer : Fields → Bool
is_integer declared = elim (field_or (str []) (codes "type") declared) [
  | str t ↦ to_string t ==ₛ "integer"
  | _ ↦ false
]

-- The argument's property is neither absent, nor null, nor an object; or it is an integer's, and the
-- argument is such a text.
abbrev pub property_raises : (declared value : Value) → Bool
property_raises null value = false
property_raises (obj declared) value = is_unreadable (is_integer declared) value
property_raises declared value = true

-- Where the properties are no object, every argument raises.
abbrev pub argument_raises : (properties : Value) → Text × Value → Bool
argument_raises (obj fields) (name, value) = property_raises (get_field name fields) value
argument_raises properties a = true

abbrev pub has_container : Items → Bool
has_container nil = false
has_container (cons (arr items) rest) = true
has_container (cons (obj fields) rest) = true
has_container (cons v rest) = has_container rest

-- The required names are no list, no text and no object; or a list that holds a list or an object.
abbrev pub required_raises : Value → Bool
required_raises (arr items) = has_container items
required_raises (str s) = false
required_raises (obj fields) = false
required_raises v = true

module _ (name : Text) (declared : String) where
  coerce_int_str :
      (e : Expected) (s : Text)
      → is_ok (coerce_int name declared e (str s))
        ≡ elim e [ int_type ↦ not (is_unreadable_text s) | _ ↦ true ]
  unfolding coerce_int int_of
  coerce_int_str int_type s = ground arith
  coerce_int_str _ s = refl

  type_check-integer : type_check declared ≡ some int_type → (declared ==ₛ "integer") ≡ true
  unfolding type_check
  type_check-integer h = ground arith

  type_check-not_integer : (declared ==ₛ "integer") ≡ true → type_check declared ≡ some int_type
  unfolding type_check
  type_check-not_integer h =
      subst (λ d. type_check d ≡ some int_type) (sym ((eq_iff declared "integer").0 h)) refl

  not_integer :
      (s : Text) (e : Option Expected)
      → (declared ==ₛ "integer") ≡ false
      → type_check declared ≡ e
      → is_ok (check_type name declared (str s)) ≡ true
  unfolding check_type is_instance
  not_integer s none other h = rw (h, check_type)
  not_integer s (some int_type) other h = absurd (ground (arith, type_check-integer h))
  not_integer s (some str_type) other h = rw (h, check_type)
  not_integer s (some e) other h = rw (h, check_type) (coerce_int_str e s)

  check_type_str :
      (s : Text)
      → is_ok (check_type name declared (str s))
        ≡ not (declared ==ₛ "integer" && is_unreadable_text s)
  unfolding check_type is_instance
  check_type_str s = elim (Bool-cases (declared ==ₛ "integer")) [
    | inl whole ↦ rw (type_check-not_integer whole, check_type, whole) (coerce_int_str int_type s)
    | inr other ↦ rw other (not_integer s (type_check declared) other refl)
  ]

  -- Only a text can be unreadable.
  check_type_value :
      (value : Value) → ((s : Text) → value ≢ str s) → is_ok (check_type name declared value) ≡ true
  unfolding check_type coerce_int
  check_type_value (str s) other = absurd (other s refl)
  check_type_value null other = ground arith
  check_type_value _ other = ground arith

  check_type_any :
      (value : Value)
      → is_ok (check_type name declared value) ≡ not (is_unreadable (declared ==ₛ "integer") value)
  check_type_any (str s) = check_type_str s
  check_type_any null = check_type_value null (λ s e. cc)
  check_type_any value = check_type_value value (λ s e. cc)

type_name-is_integer :
    (declared : Fields) → (type_name declared ==ₛ "integer") ≡ is_integer declared
unfolding type_name
type_name-is_integer declared = type_value (field_or (str []) (codes "type") declared)
  where
    type_value :
        (v : Value)
        → ((elim v [ str t ↦ to_string t | _ ↦ "" ]) ==ₛ "integer")
          ≡ elim v [ str t ↦ to_string t ==ₛ "integer" | _ ↦ false ]
    type_value (str t) = refl
    type_value v = refl

is_ok-check_property :
    (name : Text) (declared value : Value)
    → is_ok (check_property name declared value) ≡ not (property_raises declared value)
unfolding check_property
is_ok-check_property name (obj declared) value =
    rw (sym (type_name-is_integer declared)) (check_type_any name (type_name declared) value)
is_ok-check_property name null value = refl
is_ok-check_property name declared value = refl

is_ok-check_arg :
    (properties : Value) (name : Text) (value : Value)
    → is_ok (check_arg properties name value) ≡ not (argument_raises properties (name, value))
unfolding check_arg
is_ok-check_arg (obj fields) name value = is_ok-check_property name (get_field name fields) value
is_ok-check_arg properties name value = refl

is_ok-check_args :
    (properties : Value) (args : Args)
    → is_ok (check_args properties args) ≡ not (any (argument_raises properties) args)
unfolding check_args
is_ok-check_args properties [] = refl
is_ok-check_args properties ((name, value) ∷ rest) =
    ground (arith, is_ok-check_arg properties name value, is_ok-check_args properties rest)

-- The names gone through can each be looked up.
names_ok : Args → Result ValidationError (List Value) → Bool
names_ok args names = is_ok (names >>= λ ns. missing_errors args ns)

missing_texts :
    (args : Args) (s : Text) → is_ok (missing_errors args (map (λ c. str (c ∷ [])) s)) ≡ true
unfolding missing_errors missing_error
missing_texts args [] = refl
missing_texts args (c ∷ s) = ground (arith, missing_texts args s)

missing_names :
    (args : Args) (fields : Fields) → is_ok (missing_errors args (field_names fields)) ≡ true
unfolding missing_errors missing_error field_names
missing_names args end = refl
missing_names args (field name v rest) = ground (arith, missing_names args rest)

missing_items :
    (args : Args) (items : Items)
    → is_ok (missing_errors args (list_items items)) ≡ not (has_container items)
unfolding missing_errors missing_error list_items
missing_items args nil = refl
missing_items args (cons (arr items) rest) = refl
missing_items args (cons (obj fields) rest) = refl
missing_items args (cons null rest) = ground (arith, missing_items args rest)
missing_items args (cons v rest) = ground (arith, missing_items args rest)

is_ok-iterated :
    (args : Args) (required : Value)
    → names_ok args (iterated required) ≡ not (required_raises required)
unfolding names_ok iterated
is_ok-iterated args (arr items) = missing_items args items
is_ok-iterated args (str s) = missing_texts args s
is_ok-iterated args (obj fields) = missing_names args fields
is_ok-iterated args null = refl
is_ok-iterated args v = refl

-- `validate_args` returns exactly when the required names can be gone through and no argument raises.
pub is_ok-validate_args :
    {W : Type 0} (spec : ToolSpec W) (args : Args)
    → is_ok (validate_args spec args) ≡ (
        not (required_raises (field_or (arr nil) (codes "required") spec.parameters))
        && not
            (any (argument_raises (field_or (obj end) (codes "properties") spec.parameters)) args))
unfolding validate_args names_ok
is_ok-validate_args spec args =
    let required = field_or (arr nil) (codes "required") spec.parameters in
    let properties = field_or (obj end) (codes "properties") spec.parameters in
    let names = is_ok-iterated args required in
    let checked = is_ok-check_args properties args in
    elim (Result-cases (iterated required)) [
      | inr (e, raised) ↦ ground (arith, names)
      | inl (ns, went) ↦ elim (Result-cases (missing_errors args ns)) [
        | inr (e, raised) ↦ ground (arith, names)
        | inl (absent, looked) ↦ elim (Result-cases (check_args properties args)) [
          | inr (e, raised) ↦ ground (arith, names)
          | inl (r, made) ↦ ground (arith, names)
        ]
      ]
    ]
