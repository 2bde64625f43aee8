-- ===== src/Tests/Accounts.antt =====
-- backend/app/services/auth at one account.
use gummy_os.Common.{
  ℕ, zero, suc, ◌+◌, ◌-◌, ◌≡◌, refl, Text, codes, text_eq, all_codes, is_decimal, length, true,
  false, List, [], ◌∷◌, ◌++◌, map, Option, none, some, ok, err, arith,
}
use gummy_os.Auth.{User, Db}
use gummy_os.Auth.Passwords.{
  value_error, iterations, hash_bytes, hash_password, verify_password, needs_rehash,
}
use gummy_os.Auth.Passwords.Verified.{HasNoDollar, Codecs, verify_password-hash_password}
use gummy_os.Auth.Accounts.{AuthResult, Clock, Settings, invalid_refresh_token, refresh_session}
use gummy_os.Auth.Accounts.Requests.{AuthRequest, Services, serve}
use gummy_os.Auth.Accounts.Rotation.{Ended, refresh_session_ended}

-- Enough of the codecs for a test.
abbrev b64 : Text → Text
b64 = map (λ c. c + 37)

abbrev unb64 : Text → Option Text
unb64 s = some (map (λ c. c - 37) s)

abbrev pbkdf2 : (password salt : Text) (rounds dklen : ℕ) → Text
pbkdf2 password salt rounds zero = []
pbkdf2 [] salt rounds (suc n) = 0 ∷ pbkdf2 [] salt rounds n
pbkdf2 (c ∷ password) salt rounds (suc n) = c ∷ pbkdf2 password salt rounds n

b64-HasNoDollar : (s : Text) → HasNoDollar (b64 s)
unfolding all_codes
b64-HasNoDollar [] = refl
b64-HasNoDollar (c ∷ s) = ground (arith, b64-HasNoDollar s)

unb64-b64 : (s : Text) → unb64 (b64 s) ≡ some s
unb64-b64 [] = refl
unb64-b64 (c ∷ s) = ground (arith, unb64-b64 s)

length-pbkdf2 :
    (password salt : Text) (rounds dklen : ℕ) → length (pbkdf2 password salt rounds dklen) ≡ dklen
length-pbkdf2 password salt rounds zero = refl
length-pbkdf2 [] salt rounds (suc n) = omega (arith, length-pbkdf2 [] salt rounds n)
length-pbkdf2 (c ∷ password) salt rounds (suc n) =
    omega (arith, length-pbkdf2 password salt rounds n)

abbrev codecs : Codecs b64 unb64 pbkdf2
codecs = record { plain = b64-HasNoDollar; decodes = unb64-b64; sized = length-pbkdf2 }

verify_password-hash_password_example :
    (verify_password unb64 pbkdf2
        (codes "secret")
        (some (hash_password b64 pbkdf2 (codes "salt") (codes "secret")))
      ≡ ok true)
    × (needs_rehash (some (hash_password b64 pbkdf2 (codes "salt") (codes "secret"))) ≡ ok false)
    × ((other : Text)
        → verify_password unb64 pbkdf2 other
            (some (hash_password b64 pbkdf2 (codes "salt") (codes "secret")))
          ≡ ok (
              text_eq
                (pbkdf2 other (codes "salt") iterations hash_bytes)
                (pbkdf2 (codes "secret") (codes "salt") iterations hash_bytes)))
verify_password-hash_password_example =
    verify_password-hash_password b64 unb64 pbkdf2 codecs (codes "salt") (codes "secret")

-- A stored hash with no digest raises, and does not just fail to verify.
empty_digest :
    verify_password unb64 pbkdf2 (codes "secret") (some (codes "pbkdf2_sha256$600000$xyz$"))
    ≡ err value_error
unfolding verify_password is_decimal
empty_digest = refl

abbrev services : Services
services = record {
  sha256 = λ token. codes "#" ++ token;
  encode = λ payload. payload.iss;
  pbkdf2 = pbkdf2;
  b64 = b64;
  unb64 = unb64;
}

abbrev settings : Settings
settings = record { access_ttl_minutes = 15; refresh_ttl_days = 1; issuer = codes "gummy" }

abbrev at_five : Clock
at_five = record { checked_at = 5; access_at = 5; refresh_at = 5; login_at = 5 }

abbrev account : User
account = record {
  id = 7;
  email = codes "ann@x";
  password_hash = none;
  display_name = none;
  avatar_url = none;
  google_sub = some (codes "g");
  last_login_at = none;
}

-- An account with a session "abc".
abbrev signed_in : Db
signed_in = record {
  users = account ∷ [];
  reset_tokens = [];
  refresh_tokens =
      record { id = 0; user_id = 7; token_hash = codes "#abc"; expires_at = 100; revoked_at = none }
      ∷ [];
  next_id = 1;
}

abbrev rotated : Db
rotated = record {
  users = record account { last_login_at = some 5 } ∷ [];
  reset_tokens = [];
  refresh_tokens =
      record {
        id = 0;
        user_id = 7;
        token_hash = codes "#abc";
        expires_at = 100;
        revoked_at = some 5;
      }
      ∷ record {
        id = 1;
        user_id = 7;
        token_hash = codes "#def";
        expires_at = 86400000005;
        revoked_at = none;
      }
      ∷ [];
  next_id = 2;
}

abbrev session : AuthResult
session = record {
  user = record account { last_login_at = some 5 };
  session = record { access_token = codes "gummy"; refresh_token = codes "def"; expires_in = 900 };
}

rotates :
    refresh_session services.sha256 services.encode settings
      (codes "abc")
      (codes "def")
      at_five
      signed_in
    ≡ ok (session, rotated)
unfolding refresh_session text_eq
rotates = refl

abbrev requests : List AuthRequest
requests =
    AuthRequest.register (codes "bob@x") (codes "pw") none (codes "s") (codes "ghi") at_five
    ∷ AuthRequest.refresh (codes "abc") (codes "jkl") at_five
    ∷ AuthRequest.logout (codes "def") 6
    ∷ []

refresh_session_ended_example :
    refresh_session services.sha256 services.encode settings
      (codes "abc")
      (codes "mno")
      at_five
      (serve services settings requests rotated)
    ≡ err invalid_refresh_token
refresh_session_ended_example =
    refresh_session_ended services settings (codes "abc") signed_in rotated
      (Ended.rotated (codes "def") at_five session rotated rotates) requests (codes "mno") at_five
