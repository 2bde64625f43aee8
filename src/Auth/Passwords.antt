-- ===== src/Auth/Passwords.antt =====
-- backend/app/services/auth/password_service.py. PBKDF2 and base64 are parameters, and the random salt
-- is an argument. A password is its UTF-8 bytes.
pub mod Verified
use gummy_os.Common.{
  ℕ, zero, suc, Text, codes, text_eq, split, ℤ, pos, negsuc, int, Bool, true, false, ◌||◌, not, leb,
  ltb, List, [], ◌∷◌, ◌++◌, length, Option, none, some, Result, ok, err, if◌then◌else◌,
}

-- `_ITERATIONS`, `_HASH_BYTES` and `_ALGORITHM`.
abbrev pub iterations : ℕ
iterations = 600000

abbrev pub hash_bytes : ℕ
hash_bytes = 32

abbrev pub algorithm : Text
algorithm = codes "pbkdf2_sha256"

-- What `hashlib.pbkdf2_hmac` raises of a count or a length below one, and `int` of no number.
pub data HashError : Type 0 where
  value_error : HashError

-- The parts of a stored hash that `verify_password` reads in its `try`.
pub record StoredHash : Type 0 where
  pub rounds : ℤ
  pub salt : Text
  pub expected : Text

module _ (b64 : Text → Text) where
  -- `f"{_ALGORITHM}${_ITERATIONS}${_b64(salt)}${_b64(digest)}"`
  unfoldable pub format_hash : (salt digest : Text) → Text
  format_hash salt digest =
      algorithm ++ b'$' ∷ (codes "600000" ++ b'$' ∷ (b64 salt ++ b'$' ∷ b64 digest))

  module _ (pbkdf2 : (password salt : Text) (rounds dklen : ℕ) → Text) where
    unfoldable pub hash_password : (salt password : Text) → Text
    unfolding format_hash
    hash_password salt password = format_hash salt (pbkdf2 password salt iterations hash_bytes)

module _ (unb64 : Text → Option Text) where
  -- `none` where the `try` returns `False`.
  unfoldable pub read_parts : List Text → Option StoredHash
  unfolding text_eq int
  read_parts (name ∷ rounds ∷ salt ∷ digest ∷ []) =
      if not (text_eq name algorithm) then none else elim (int rounds) [
        | none ↦ none
        | some n ↦ elim (unb64 salt) [
          | none ↦ none
          | some salt' ↦ elim (unb64 digest) [
            | none ↦ none
            | some expected ↦ some (record { rounds = n; salt = salt'; expected = expected })
          ]
        ]
      ]
  read_parts parts = none

  module _ (pbkdf2 : (password salt : Text) (rounds dklen : ℕ) → Text) where
    -- The call of `pbkdf2_hmac`, which stands after the `try`, and the comparison.
    unfoldable pub matches : (password : Text) → StoredHash → ℤ → Result HashError Bool
    unfolding text_eq
    matches password parts (negsuc n) = err value_error
    matches password parts (pos zero) = err value_error
    matches password parts (pos (suc n)) =
        if ltb 0 (length parts.expected)
        then ok
            (text_eq (pbkdf2 password parts.salt (suc n) (length parts.expected)) parts.expected)
        else err value_error

    unfoldable pub verify_stored : (password stored : Text) → Result HashError Bool
    unfolding read_parts matches split
    verify_stored password stored = elim (read_parts (split b'$' stored)) [
      | none ↦ ok false
      | some parts ↦ matches password parts parts.rounds
    ]

    -- `if not stored` takes a missing hash and an empty one.
    unfoldable pub verify_password :
        (password : Text) (stored : Option Text) → Result HashError Bool
    unfolding verify_stored
    verify_password password none = ok false
    verify_password password (some []) = ok false
    verify_password password (some (c ∷ stored)) = verify_stored password (c ∷ stored)

-- `int(iterations_raw) < _ITERATIONS`
unfoldable is_weaker : ℤ → Bool
is_weaker (pos n) = ltb n iterations
is_weaker (negsuc n) = true

unfoldable needs_rehash_parts : List Text → Result HashError Bool
unfolding text_eq int is_weaker
needs_rehash_parts (name ∷ rounds ∷ salt ∷ digest ∷ []) =
    if not (text_eq name algorithm)
    then ok true
    else elim (int rounds) [ none ↦ err value_error | some n ↦ ok (is_weaker n) ]
needs_rehash_parts parts = ok true

unfoldable pub needs_rehash : (stored : Option Text) → Result HashError Bool
unfolding needs_rehash_parts split
needs_rehash none = ok false
needs_rehash (some []) = ok false
needs_rehash (some (c ∷ stored)) = needs_rehash_parts (split b'$' (c ∷ stored))
