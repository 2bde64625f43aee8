-- ===== src/Auth/Reset.antt =====
-- backend/app/services/auth/reset_service.py: password recovery. SHA-256, PBKDF2 and base64 are
-- parameters; the random token and salt, and the times that a request reads, are arguments.
pub mod Tokens
pub mod Spent
pub mod Single
pub mod Sessions
use gummy_os.Common.{
  is_given, ℕ, suc, ◌+◌, ◌*◌, Text, codes, text_eq, lower, strip, Bool, true, false, ◌&&◌, ◌||◌,
  not, ◌==◌, leb, List, [], ◌∷◌, ◌++◌, any, find, update, Option, none, some, Result, ok, err,
  if◌then◌else◌,
}
use gummy_os.Auth.Passwords.{hash_password}
use gummy_os.Auth.{
  User, PasswordResetToken, RefreshToken, Db, ResetError, invalid_token, integrity_error,
}

unfoldable pub expired : (now : ℕ) → PasswordResetToken → Bool
expired now record_ = leb record_.expires_at now

-- What the mail says beside its fixed text.
pub record Message : Type 0 where
  pub to : Text
  pub token : Text

-- A live link of the user.
unfoldable pub is_live : (user_id : ℕ) → PasswordResetToken → Bool
is_live user_id t = t.user_id == user_id && not (is_given t.used_at)

unfoldable pub supersede : (user_id now : ℕ) → List PasswordResetToken → List PasswordResetToken
unfolding is_live
supersede user_id now tokens =
    update (is_live user_id) (λ t. record t { used_at = some now }) tokens

unfoldable pub revoke : (user_id now : ℕ) → List RefreshToken → List RefreshToken
revoke user_id now tokens =
    update (λ t. t.user_id == user_id && not (is_given t.revoked_at))
      (λ t. record t { revoked_at = some now }) tokens

abbrev pub minute : ℕ
minute = 60000000

pub data ResetRequest : Type 0 where
  forgot : (email raw : Text) (ttl_minutes now later : ℕ) → ResetRequest
  reset : (token new_password salt : Text) (now : ℕ) → ResetRequest

-- The three writes of a redemption.
unfoldable pub redeem :
    (record_ : PasswordResetToken) (user : User) (digest : Text) (now : ℕ) → Db → Db
unfolding revoke
redeem record_ user digest now db = record db {
  users =
      update (λ (u : User). u.id == user.id) (λ u. record u { password_hash = some digest })
        db.users;
  reset_tokens =
      update (λ (t : PasswordResetToken). t.id == record_.id) (λ t. record t { used_at = some now })
        db.reset_tokens;
  refresh_tokens = revoke user.id now db.refresh_tokens;
}

module _ (sha256 : Text → Text) where
  unfoldable pub hash_reset_token : (token : Text) → Text
  hash_reset_token token = sha256 token

  unfoldable pub find_token : (token : Text) → List PasswordResetToken → Option PasswordResetToken
  unfolding hash_reset_token
  find_token token tokens = find (λ t. text_eq t.token_hash (hash_reset_token token)) tokens

  -- The insert of a link, and the mail that carries it; a hash that is there already is refused.
  unfoldable pub issue :
      (user : User) (raw : Text) (expires_at : ℕ) → Db → Result ResetError (Option Message × Db)
  unfolding hash_reset_token
  issue user raw expires_at db =
      if any (λ t. text_eq t.token_hash (hash_reset_token raw)) db.reset_tokens
      then err integrity_error
      else ok (
        some (record { to = user.email; token = raw }),
        record db {
          reset_tokens =
              db.reset_tokens
              ++ record {
                id = db.next_id;
                user_id = user.id;
                token_hash = hash_reset_token raw;
                expires_at = expires_at;
                used_at = none;
              }
                ∷ [];
          next_id = suc db.next_id;
        },
      )

  -- `datetime.now` is read twice: `now` for the links before, `later` for the new one.
  unfoldable pub request_password_reset :
      (email raw : Text) (ttl_minutes now later : ℕ) → Db → Result ResetError (Option Message × Db)
  unfolding issue supersede lower strip
  request_password_reset email raw ttl_minutes now later db =
      elim (find (λ (u : User). text_eq u.email (lower (strip email))) db.users) [
        | none ↦ ok (none, db)
        | some user ↦
            if not (is_given user.password_hash) && is_given user.google_sub
            then ok (none, db)
            else issue user raw (later + ttl_minutes * minute)
                (record db { reset_tokens = supersede user.id now db.reset_tokens })
      ]

  module _ (pbkdf2 : (password salt : Text) (rounds dklen : ℕ) → Text) (b64 : Text → Text) where
    unfoldable pub reset_password :
        (token new_password salt : Text) (now : ℕ) → Db → Result ResetError (User × Db)
    unfolding find_token expired redeem hash_password
    reset_password token new_password salt now db = elim (find_token token db.reset_tokens) [
      | none ↦ err invalid_token
      | some record_ ↦
          if is_given record_.used_at || expired now record_
          then err invalid_token
          else elim (find (λ (u : User). u.id == record_.user_id) db.users) [
            | none ↦ err invalid_token
            | some user ↦
                let digest = hash_password b64 pbkdf2 salt new_password in
                ok (record user { password_hash = some digest }, redeem record_ user digest now db)
          ]
    ]

    -- The tables after a request; one that raises leaves them as they are.
    unfoldable pub handle : ResetRequest → Db → Db
    unfolding request_password_reset reset_password
    handle (forgot email raw ttl_minutes now later) db =
        elim (request_password_reset email raw ttl_minutes now later db) [
          | ok (sent, d) ↦ d
          | err e ↦ db
        ]
    handle (reset token new_password salt now) db =
        elim (reset_password token new_password salt now db) [ ok (user, d) ↦ d | err e ↦ db ]

    unfoldable pub serve : List ResetRequest → Db → Db
    unfolding handle
    serve [] db = db
    serve (request ∷ rest) db = serve rest (handle request db)
