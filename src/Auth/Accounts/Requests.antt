-- ===== src/Auth/Accounts/Requests.antt =====
-- The requests that the services of backend/app/services/auth serve, one at a time; one that raises
-- leaves the tables as they are.
use gummy_os.Common.{ℕ, Text, List, [], ◌∷◌, Option, Result, ok, err}
use gummy_os.Auth.{Db}
use gummy_os.Auth.Reset as Reset
use gummy_os.Auth.Reset.{ResetRequest}
use gummy_os.Auth.Accounts.{
  AuthError, Clock, Settings, Payload, AuthResult, GoogleIdentity, sign_up, sign_in,
  sign_in_with_google, refresh_session, revoke_session,
}

pub data AuthRequest : Type 0 where
  register :
      (email password : Text) (display_name : Option Text) (salt raw : Text) → Clock → AuthRequest
  login : (email password salt raw : Text) → Clock → AuthRequest
  google : GoogleIdentity → (raw : Text) → Clock → AuthRequest
  refresh : (refresh_token raw : Text) → Clock → AuthRequest
  logout : (refresh_token : Text) (now : ℕ) → AuthRequest
  recover : ResetRequest → AuthRequest

unfoldable pub kept : Db → Result AuthError (AuthResult × Db) → Db
kept db (ok (result, d)) = d
kept db (err e) = db

-- The services that the code calls and does not implement.
pub record Services : Type 0 where
  pub sha256 : Text → Text
  pub encode : Payload → Text
  pub pbkdf2 : (password salt : Text) (rounds dklen : ℕ) → Text
  pub b64 : Text → Text
  pub unb64 : Text → Option Text

module _ (x : Services) (settings : Settings) where
  unfoldable pub handle : AuthRequest → Db → Db
  unfolding kept
  handle (register email password display_name salt raw clock) db = kept db (
      sign_up x.sha256 x.encode settings x.pbkdf2 x.b64 email password display_name salt raw clock
        db)
  handle (login email password salt raw clock) db =
      kept db
        (sign_in x.sha256 x.encode settings x.pbkdf2 x.b64 x.unb64 email password salt raw clock db)
  handle (google identity raw clock) db =
      kept db (sign_in_with_google x.sha256 x.encode settings identity raw clock db)
  handle (refresh refresh_token raw clock) db =
      kept db (refresh_session x.sha256 x.encode settings refresh_token raw clock db)
  handle (logout refresh_token now) db = revoke_session x.sha256 refresh_token now db
  handle (recover request) db = Reset.handle x.sha256 x.pbkdf2 x.b64 request db

  unfoldable pub serve : List AuthRequest → Db → Db
  unfolding handle
  serve [] db = db
  serve (request ∷ rest) db = serve rest (handle request db)
