-- ===== src/Auth/Passwords/Verified.antt =====
-- A hash that `hash_password` made, read back (backend/app/services/auth/password_service.py).
use gummy_os.Common.{
  ℕ, ◌≡◌, refl, ap, ◌∙◌, Text, codes, text_eq, text_eq_refl, split, split-append, all_codes,
  is_decimal, int, pos, ◌==◌, true, false, not, [], ◌∷◌, ◌++◌, length, Option, some, ok, arith,
}
use gummy_os.Auth.Passwords.{
  StoredHash, iterations, hash_bytes, algorithm, format_hash, hash_password, read_parts, matches,
  verify_stored, verify_password, needs_rehash,
}

-- A text with no `$`, as the alphabet of base64 has none.
abbrev pub HasNoDollar : Text → Type 0
HasNoDollar s = all_codes (λ c. not (c == b'$')) s ≡ true

split-none : (sep : ℕ) (s : Text) → all_codes (λ c. not (c == sep)) s ≡ true → split sep s ≡ s ∷ []
unfolding split all_codes
split-none sep [] h = refl
split-none sep (c ∷ s) h = ground (arith, split-none sep s)

module _ (b64 : Text → Text) (plain : (s : Text) → HasNoDollar (b64 s)) where
  -- A formatted hash has its four parts back.
  split-format_hash :
      (salt digest : Text)
      → split b'$' (format_hash b64 salt digest)
        ≡ algorithm ∷ codes "600000" ∷ b64 salt ∷ b64 digest ∷ []
  unfolding format_hash
  split-format_hash salt digest =
      let last = split-none b'$' (b64 digest) (plain digest) in
      let third = split-append b'$' (b64 salt) (b64 digest) (plain salt) in
      let second =
        split-append b'$' (codes "600000") (b64 salt ++ b'$' ∷ b64 digest)
          (unfold all_codes in refl) in
      let first =
        split-append b'$' algorithm (codes "600000" ++ b'$' ∷ (b64 salt ++ b'$' ∷ b64 digest))
          (unfold all_codes in refl) in
      cc

int-rounds : int (codes "600000") ≡ some (pos iterations)
unfolding int is_decimal
int-rounds = refl

-- What the code relies on of base64 and PBKDF2: the alphabet has no `$`, decoding undoes encoding, and
-- a digest has the length that was asked for.
pub record Codecs (b64 : Text → Text) (unb64 : Text → Option Text)
    (pbkdf2 : (password salt : Text) (rounds dklen : ℕ) → Text) : Type 0 where
  pub plain : (s : Text) → HasNoDollar (b64 s)
  pub decodes : (s : Text) → unb64 (b64 s) ≡ some s
  pub sized :
      (password salt : Text) (rounds dklen : ℕ) → length (pbkdf2 password salt rounds dklen) ≡ dklen

module _ (b64 : Text → Text) (unb64 : Text → Option Text)
    (pbkdf2 : (password salt : Text) (rounds dklen : ℕ) → Text)
    (laws : Codecs b64 unb64 pbkdf2) where
  read-hash_password :
      (salt password : Text)
      → read_parts unb64 (split b'$' (hash_password b64 pbkdf2 salt password))
        ≡ some (record {
          rounds = pos iterations;
          salt = salt;
          expected = pbkdf2 password salt iterations hash_bytes;
        })
  unfolding hash_password read_parts
  read-hash_password salt password =
      let digest = pbkdf2 password salt iterations hash_bytes in
      rw (split-format_hash b64 laws.plain salt digest)
        (ground (arith, int-rounds, text_eq_refl algorithm, laws.decodes salt, laws.decodes digest))

  verified-stored :
      (other stored : Text) (parts : StoredHash)
      → read_parts unb64 (split b'$' stored) ≡ some parts
      → verify_stored unb64 pbkdf2 other stored ≡ matches unb64 pbkdf2 other parts parts.rounds
  unfolding verify_stored
  verified-stored other stored parts h = ground arith

  nonempty :
      (other salt digest : Text)
      → verify_password unb64 pbkdf2 other (some (format_hash b64 salt digest))
        ≡ verify_stored unb64 pbkdf2 other (format_hash b64 salt digest)
  unfolding verify_password format_hash
  nonempty other salt digest = refl

  tested :
      (salt password other : Text)
      → verify_password unb64 pbkdf2 other (some (hash_password b64 pbkdf2 salt password))
        ≡ ok (
            text_eq
              (pbkdf2 other salt iterations hash_bytes)
              (pbkdf2 password salt iterations hash_bytes))
  tested salt password other =
      let digest = pbkdf2 password salt iterations hash_bytes in
      let size : length digest ≡ 32 = laws.sized password salt iterations hash_bytes in
      unfold hash_password in
      nonempty other salt digest
      ∙ verified-stored other (hash_password b64 pbkdf2 salt password) _
          (read-hash_password salt password)
      ∙ unfold matches in ground (arith, size)

  fresh :
      (salt password : Text)
      → needs_rehash (some (hash_password b64 pbkdf2 salt password)) ≡ ok false
  unfolding needs_rehash hash_password
  fresh salt password =
      rw (split-format_hash b64 laws.plain salt (pbkdf2 password salt iterations hash_bytes))
        (ground (arith, int-rounds, text_eq_refl algorithm))

  -- Where base64 decodes what it encoded, with no `$` in it, and PBKDF2 gives the length asked for,
  -- a hash that was made from a password verifies that password, is not due for a new hash, and
  -- verifies another password just where PBKDF2 with the same salt gives the same digest.
  pub verify_password-hash_password :
      (salt password : Text)
      → (verify_password unb64 pbkdf2 password (some (hash_password b64 pbkdf2 salt password))
          ≡ ok true)
        × (needs_rehash (some (hash_password b64 pbkdf2 salt password)) ≡ ok false)
        × ((other : Text)
            → verify_password unb64 pbkdf2 other (some (hash_password b64 pbkdf2 salt password))
              ≡ ok (
                  text_eq
                    (pbkdf2 other salt iterations hash_bytes)
                    (pbkdf2 password salt iterations hash_bytes)))
  verify_password-hash_password salt password = (
    tested salt password password
        ∙ ap ok (text_eq_refl (pbkdf2 password salt iterations hash_bytes)),
    fresh salt password,
    tested salt password,
  )
