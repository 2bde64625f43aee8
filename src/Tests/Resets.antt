-- ===== src/Tests/Resets.antt =====
-- backend/app/services/auth/reset_service.py at one account.
use gummy_os.Common.{
  ℕ, Text, codes, text_eq, Bool-cases, ◌==◌, inl, inr, List, [], ◌∷◌, ◌++◌, none, some, ok, err,
  ◌≡◌, refl, arith,
}
use gummy_os.Auth.{User, Db, invalid_token}
use gummy_os.Auth.Reset as Resets
use gummy_os.Auth.Passwords.{hash_password}
use gummy_os.Auth.Reset.{ResetRequest, is_live, reset_password}
use gummy_os.Auth.Reset.Spent.{reset-once}
use gummy_os.Auth.Reset.Single.{IsSingle, serve-IsSingle}
use gummy_os.Auth.Reset.Sessions.{IsReset, reset_password-IsReset}

-- Enough of the hashes for a test.
abbrev sha256 : Text → Text
sha256 token = codes "#" ++ token

abbrev pbkdf2 : (password salt : Text) (rounds dklen : ℕ) → Text
pbkdf2 password salt rounds dklen = salt ++ password

abbrev b64 : Text → Text
b64 raw = raw

abbrev account : User
account = record {
  id = 7;
  email = codes "ann@x";
  password_hash = some (codes "old");
  display_name = none;
  avatar_url = none;
  google_sub = none;
  last_login_at = none;
}

-- A link "abc" that lives until 100, and a session.
abbrev asked : Db
asked = record {
  users = account ∷ [];
  reset_tokens =
      record { id = 0; user_id = 7; token_hash = codes "#abc"; expires_at = 100; used_at = none }
      ∷ [];
  refresh_tokens =
      record {
        id = 1;
        user_id = 7;
        token_hash = codes "#session";
        expires_at = 1000;
        revoked_at = none;
      }
      ∷ [];
  next_id = 2;
}

abbrev digest : Text
digest = codes "pbkdf2_sha256$600000$salt$saltnew"

abbrev renewed : User
renewed = record account { password_hash = some digest }

abbrev redeemed : Db
redeemed = record {
  users = renewed ∷ [];
  reset_tokens =
      record { id = 0; user_id = 7; token_hash = codes "#abc"; expires_at = 100; used_at = some 50 }
      ∷ [];
  refresh_tokens =
      record {
        id = 1;
        user_id = 7;
        token_hash = codes "#session";
        expires_at = 1000;
        revoked_at = some 50;
      }
      ∷ [];
  next_id = 2;
}

redeems :
    reset_password sha256 pbkdf2 b64 (codes "abc") (codes "new") (codes "salt") 50 asked
    ≡ ok (renewed, redeemed)
unfolding reset_password text_eq
redeems = refl

-- At its expiry a link is refused.
expires :
    reset_password sha256 pbkdf2 b64 (codes "abc") (codes "new") (codes "salt") 100 asked
    ≡ err invalid_token
unfolding reset_password text_eq
expires = refl

abbrev requests : List ResetRequest
requests =
    ResetRequest.forgot (codes " Ann@X ") (codes "def") 30 60 61
    ∷ ResetRequest.reset (codes "abc") (codes "evil") (codes "salt") 62
    ∷ ResetRequest.forgot (codes "bob@x") (codes "ghi") 30 63 64
    ∷ []

reset-once_example :
    reset_password sha256 pbkdf2 b64
      (codes "abc")
      (codes "evil")
      (codes "salt")
      70
      (Resets.serve sha256 pbkdf2 b64 requests redeemed)
    ≡ err invalid_token
reset-once_example =
    reset-once sha256 pbkdf2 b64 (codes "abc") (codes "new") (codes "salt") 50 asked renewed
      redeemed redeems requests (codes "evil") (codes "salt") 70

reset_password-IsReset_example :
    IsReset 7 (hash_password b64 pbkdf2 (codes "salt") (codes "new")) asked redeemed
reset_password-IsReset_example =
    reset_password-IsReset sha256 pbkdf2 b64 (codes "abc") (codes "new") (codes "salt") 50 asked
      renewed redeemed redeems

asked-IsSingle : IsSingle asked.reset_tokens
unfolding IsSingle is_live
asked-IsSingle user_id = elim (Bool-cases (7 == user_id)) [
  | inl own ↦ ground arith
  | inr other ↦ ground arith
]

serve-IsSingle_example : IsSingle (Resets.serve sha256 pbkdf2 b64 requests asked).reset_tokens
serve-IsSingle_example = serve-IsSingle sha256 pbkdf2 b64 requests asked asked-IsSingle
