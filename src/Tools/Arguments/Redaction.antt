-- ===== src/Tools/Arguments/Redaction.antt =====
-- What `redact_args` lets through to an audit row.
use mathlib.Core.Path.{subst}
use gummy_os.Common.{
  any, text_eq, lower, false, ℕ, ◌+◌, ◌≤◌, Text, length, length-append, length-take-le, take, ◌≡◌,
  refl, true, [], ◌∷◌, All, map, arith, Bool-cases, inl, inr, if◌then◌else◌, ltb,
}
use gummy_os.Tools.{Value, null, str, Args}
use gummy_os.Tools.Arguments.{
  redact_args, redacted_keys, is_secret, bound_value, redacted, truncated, max_arg_chars,
}

-- The longest text that an audit row can hold: the bound and the mark behind it.
abbrev max_audit_chars : ℕ
max_audit_chars = max_arg_chars + 12

abbrev IsBounded : Value → Type 0
IsBounded (str s) = length s ≤ max_audit_chars
IsBounded _ = Unit

-- Under a key that is a secret's in lower case stands the mark alone, and an argument that is a text is
-- bounded.
abbrev pub IsSafe : Text × Value → Type 0
IsSafe (key, value) =
    ((secret : Text)
      → any (text_eq secret) redacted_keys ≡ true
      → lower key ≡ secret
      → value ≡ str redacted)
    × IsBounded value

bound_value-IsBounded : (v : Value) → IsBounded (bound_value v)
unfolding bound_value
bound_value-IsBounded (str s) = elim (Bool-cases (ltb max_arg_chars (length s))) [
  | inl long ↦ rw long (
      omega (arith, length-append (take max_arg_chars s) truncated, length-take-le max_arg_chars s))
  | inr short ↦ rw short (ground arith)
]
bound_value-IsBounded null = tt
bound_value-IsBounded _ = tt

redact_one-IsSafe :
    (key : Text) (v : Value) → IsSafe (key, (if is_secret key then str redacted else bound_value v))
unfolding is_secret
redact_one-IsSafe key v = elim (Bool-cases (is_secret key)) [
  | inl hidden ↦ rw hidden ((λ secret named same. refl), omega arith)
  | inr plain ↦ rw plain (
    (λ secret named same.
        (let no : any (text_eq secret) redacted_keys ≡ false =
            subst (λ k. any (text_eq k) redacted_keys ≡ false) same plain in
          absurd (ground arith))),
    bound_value-IsBounded v,
  )
]

-- In what `redact_args` returns, an argument under a secret's key, compared in lower case, is the mark
-- alone, and an argument that is a text has at most 2012 characters; what stands inside a list or an
-- object is not looked at. The keys are those of the arguments, in their order.
pub redact_args-IsSafe :
    (args : Args)
    → All IsSafe (redact_args args) × (map (λ a. a.0) (redact_args args) ≡ map (λ a. a.0) args)
unfolding redact_args
redact_args-IsSafe [] = (tt, refl)
redact_args-IsSafe ((key, v) ∷ rest) =
    let ih = redact_args-IsSafe rest in ((redact_one-IsSafe key v, ih.0), λ i. key ∷ ih.1 i)
