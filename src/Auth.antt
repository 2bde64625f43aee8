-- ===== src/Auth.antt =====
-- The tables of the accounts and their tokens (backend/app/models/user.py, password_reset_token.py and
-- refresh_token.py).
pub mod Passwords
pub mod Reset
pub mod Accounts
use gummy_os.Common.{ℕ, Text, List, Option}

pub record User : Type 0 where
  pub id : ℕ
  pub email : Text
  pub password_hash : Option Text
  pub display_name : Option Text
  pub avatar_url : Option Text
  pub google_sub : Option Text
  pub last_login_at : Option ℕ

pub record PasswordResetToken : Type 0 where
  pub id : ℕ
  pub user_id : ℕ
  pub token_hash : Text
  pub expires_at : ℕ
  pub used_at : Option ℕ

pub record RefreshToken : Type 0 where
  pub id : ℕ
  pub user_id : ℕ
  pub token_hash : Text
  pub expires_at : ℕ
  pub revoked_at : Option ℕ

pub record Db : Type 0 where
  pub users : List User
  pub reset_tokens : List PasswordResetToken
  pub refresh_tokens : List RefreshToken
  pub next_id : ℕ

-- `integrity_error` is the unique index on `token_hash`.
pub data ResetError : Type 0 where
  invalid_token integrity_error : ResetError
