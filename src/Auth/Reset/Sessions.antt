-- ===== src/Auth/Reset/Sessions.antt =====
-- What a redemption leaves of the account's password and sessions
-- (backend/app/services/auth/reset_service.py).
use gummy_os.Common.{
  is_given, ℕ, ◌≡◌, refl, Text, Bool-cases, true, ◌==◌, not, List, [], ◌∷◌, All, filter, update,
  some, inl, inr, ok, arith,
}
use gummy_os.Auth.{User, PasswordResetToken, RefreshToken, Db}
use gummy_os.Auth.Passwords.{hash_password}
use gummy_os.Auth.Reset.{revoke, redeem, reset_password}
use gummy_os.Auth.Reset.Tokens.{reset_password-IsRedeemed}

revoke-own :
    (user_id now : ℕ) (tokens : List RefreshToken)
    → All
        (λ t. (t.user_id == user_id) ≡ true → is_given t.revoked_at ≡ true)
        (revoke user_id now tokens)
unfolding revoke
revoke-own user_id now [] = tt
revoke-own user_id now (t ∷ rest) = ((λ own. ground arith), revoke-own user_id now rest)

revoke-others :
    (user_id now : ℕ) (tokens : List RefreshToken)
    → filter (λ t. not (t.user_id == user_id)) (revoke user_id now tokens)
      ≡ filter (λ t. not (t.user_id == user_id)) tokens
unfolding revoke
revoke-others user_id now [] = refl
revoke-others user_id now (t ∷ rest) = elim (Bool-cases (t.user_id == user_id)) [
  | inl own ↦ ground (arith, revoke-others user_id now rest)
  | inr other ↦ ground (arith, revoke-others user_id now rest)
]

set_password-own :
    (id : ℕ) (digest : Text) (users : List User)
    → All
        (λ (u : User). (u.id == id) ≡ true → u.password_hash ≡ some digest)
        (update (λ u. u.id == id) (λ u. record u { password_hash = some digest }) users)
set_password-own id digest [] = tt
set_password-own id digest (u ∷ rest) = ((λ own. ground arith), set_password-own id digest rest)

set_password-others :
    (id : ℕ) (digest : Text) (users : List User)
    → filter
        (λ (u : User). not (u.id == id))
        (update (λ u. u.id == id) (λ u. record u { password_hash = some digest }) users)
      ≡ filter (λ u. not (u.id == id)) users
set_password-others id digest [] = refl
set_password-others id digest (u ∷ rest) = elim (Bool-cases (u.id == id)) [
  | inl own ↦ ground (arith, set_password-others id digest rest)
  | inr other ↦ ground (arith, set_password-others id digest rest)
]

-- The tables after the password of the user was set to the digest.
pub record IsReset (user_id : ℕ) (digest : Text) (db d : Db) : Type 0 where
  pub password_set :
      All (λ (u : User). (u.id == user_id) ≡ true → u.password_hash ≡ some digest) d.users
  pub sessions_ended :
      All (λ t. (t.user_id == user_id) ≡ true → is_given t.revoked_at ≡ true) d.refresh_tokens
  pub other_users :
      filter (λ (u : User). not (u.id == user_id)) d.users
      ≡ filter (λ (u : User). not (u.id == user_id)) db.users
  pub other_sessions :
      filter (λ (t : RefreshToken). not (t.user_id == user_id)) d.refresh_tokens
      ≡ filter (λ (t : RefreshToken). not (t.user_id == user_id)) db.refresh_tokens

redeem-IsReset :
    (row : PasswordResetToken) (user : User) (digest : Text) (now : ℕ) (db : Db)
    → IsReset user.id digest db (redeem row user digest now db)
unfolding redeem
redeem-IsReset row user digest now db = record {
  password_set = set_password-own user.id digest db.users;
  sessions_ended = revoke-own user.id now db.refresh_tokens;
  other_users = set_password-others user.id digest db.users;
  other_sessions = revoke-others user.id now db.refresh_tokens;
}

module _ (sha256 : Text → Text) (pbkdf2 : (password salt : Text) (rounds dklen : ℕ) → Text)
    (b64 : Text → Text) where
  -- A redemption that returns a user sets that user's password to the digest of the new one and revokes
  -- every refresh token of the user; the rows of other users and their refresh tokens stay as they were.
  pub reset_password-IsReset :
      (token new_password salt : Text) (now : ℕ) (db : Db) (user : User) (d : Db)
      → reset_password sha256 pbkdf2 b64 token new_password salt now db ≡ ok (user, d)
      → IsReset user.id (hash_password b64 pbkdf2 salt new_password) db d
  reset_password-IsReset token new_password salt now db user d done =
      let h =
        reset_password-IsRedeemed sha256 pbkdf2 b64 token new_password salt now db user d done in
      rw h.saved (redeem-IsReset h.row user (hash_password b64 pbkdf2 salt new_password) now db)
