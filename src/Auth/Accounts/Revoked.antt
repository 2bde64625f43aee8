-- ===== src/Auth/Accounts/Revoked.antt =====
-- A revoked row of the refresh tokens, over the requests of backend/app/services/auth.
use mathlib.Core.Path.{subst}
use gummy_os.Common.{
  ℕ, ◌≡◌, refl, Text, text_eq, is_given, Bool, Bool-cases, true, false, ◌||◌, List, [], ◌∷◌, any,
  update, found, found-update, found-append, Option, some, Option-cases, inl, inr, Result-cases, ok,
  arith,
}
use gummy_os.Auth.{User, RefreshToken, Db}
use gummy_os.Auth.Passwords.{verify_password}
use gummy_os.Auth.Reset as Reset
use gummy_os.Auth.Reset.{
  Message, ResetRequest, forgot, reset, revoke, request_password_reset, issue, reset_password,
  redeem,
}
use gummy_os.Auth.Reset.Tokens.{reset_password-IsRedeemed}
use gummy_os.Auth.Accounts.{
  Clock, Settings, GoogleIdentity, expired, save_user, user_by_email, normalize_email,
  get_user_by_id, insert_user, revoke_token, hash_refresh_token, find_refresh, revoke_session,
  issue_session, refresh_session, google_account, password_account, link_google, resolve_google,
  sign_in_with_google, sign_up, upgrade, sign_in,
}
use gummy_os.Auth.Accounts.Requests.{
  AuthRequest, register, login, google, refresh, logout, recover, kept, Services, handle, serve,
}

-- The row found under the hash is revoked.
module _ (hash : Text) where
  abbrev pub is_revoked : List RefreshToken → Bool
  is_revoked = found (λ t. text_eq t.token_hash hash) (λ t. is_given t.revoked_at)

  pub revoked-mark :
      (p : RefreshToken → Bool) (now : ℕ) (tokens : List RefreshToken)
      → is_revoked tokens ≡ true
      → is_revoked (update p (λ t. record t { revoked_at = some now }) tokens) ≡ true
  revoked-mark p now = found-update _ _ p _ (λ t. refl) (λ t h. refl)

  module _ (x : Services) (settings : Settings) where
    -- A session that is issued leaves the rows that there are.
    pub issued-revoked :
        (user : User) (raw : Text) (clock : Clock) (before db : Db)
        → is_revoked before.refresh_tokens ≡ true
        → is_revoked db.refresh_tokens ≡ true
        → is_revoked
            (kept before
              (issue_session x.sha256 x.encode settings user raw clock db)).refresh_tokens
          ≡ true
    unfolding issue_session kept save_user
    issued-revoked user raw clock before db old h =
        elim (Bool-cases (
          any (λ (t : RefreshToken). text_eq t.token_hash (hash_refresh_token x.sha256 raw))
            db.refresh_tokens)) [
              | inl taken ↦ rw taken old
              | inr free ↦ rw free (found-append _ _ db.refresh_tokens _ h)
            ]

    module _ (db : Db) (h : is_revoked db.refresh_tokens ≡ true) where
      requested-refresh :
          (email raw : Text) (ttl_minutes now later : ℕ) (sent : Option Message) (d : Db)
          → request_password_reset x.sha256 email raw ttl_minutes now later db ≡ ok (sent, d)
          → db.refresh_tokens ≡ d.refresh_tokens
      unfolding request_password_reset
      requested-refresh email raw ttl_minutes now later sent d done = ground arith

      reset-revoked :
          (request : ResetRequest)
          → is_revoked (Reset.handle x.sha256 x.pbkdf2 x.b64 request db).refresh_tokens ≡ true
      unfolding Reset.handle
      reset-revoked (forgot email raw ttl_minutes now later) =
          elim (Result-cases (request_password_reset x.sha256 email raw ttl_minutes now later db)) [
            | inl ((sent, d), done) ↦
                rw (done, Reset.handle)
                  (subst (λ ts. is_revoked ts ≡ true)
                    (requested-refresh email raw ttl_minutes now later sent d done) h)
            | inr (e, failed) ↦ rw (failed, Reset.handle) h
          ]
      reset-revoked (reset token new_password salt now) =
          elim (Result-cases
            (reset_password x.sha256 x.pbkdf2 x.b64 token new_password salt now db)) [
              | inl ((user, d), done) ↦
                  let r =
                    reset_password-IsRedeemed x.sha256 x.pbkdf2 x.b64 token new_password salt now db
                      user d done in
                  rw (done, Reset.handle)
                    (rw r.saved (unfold redeem revoke in revoked-mark _ now db.refresh_tokens h))
              | inr (e, failed) ↦ rw (failed, Reset.handle) h
            ]

      google-revoked :
          (identity : GoogleIdentity) (raw : Text) (clock : Clock)
          → is_revoked
              (kept db (
                sign_in_with_google x.sha256 x.encode settings identity raw clock
                  db)).refresh_tokens
            ≡ true
      unfolding sign_in_with_google insert_user save_user kept
      google-revoked identity raw clock = elim (Option-cases (resolve_google identity db)) [
        | inl fresh ↦
            rw (fresh, sign_in_with_google, kept)
              (issued-revoked (google_account db.next_id identity) raw clock db _ h h)
        | inr (user, there) ↦
            rw (there, sign_in_with_google, kept)
              (issued-revoked (link_google identity user) raw clock db _ h h)
      ]

      register-revoked :
          (email password : Text) (display_name : Option Text) (salt raw : Text) (clock : Clock)
          → is_revoked
              (kept db (
                sign_up x.sha256 x.encode settings x.pbkdf2 x.b64 email password display_name salt
                  raw clock db)).refresh_tokens
            ≡ true
      unfolding sign_up kept insert_user
      register-revoked email password display_name salt raw clock =
          elim (Bool-cases (is_given (user_by_email (normalize_email email) db))) [
            | inl taken ↦ rw (taken, sign_up, kept) h
            | inr free ↦
                rw (free, sign_up, kept)
                  (issued-revoked
                    (password_account x.pbkdf2 x.b64 db.next_id email password display_name salt)
                    raw clock db _ h h)
          ]

      login-revoked :
          (email password salt raw : Text) (clock : Clock)
          → is_revoked
              (kept db (
                sign_in x.sha256 x.encode settings x.pbkdf2 x.b64 x.unb64 email password salt raw
                  clock db)).refresh_tokens
            ≡ true
      unfolding sign_in kept save_user
      login-revoked email password salt raw clock =
          elim (Option-cases (user_by_email (normalize_email email) db)) [
            | inl missing ↦ rw (missing, sign_in, kept) h
            | inr (user, there) ↦
                elim (Result-cases (verify_password x.unb64 x.pbkdf2 password user.password_hash)) [
                  | inr (e, raised) ↦ rw (there, raised, sign_in, kept) h
                  | inl (false, wrong) ↦ rw (there, wrong, sign_in, kept) h
                  | inl (true, right) ↦
                      elim (Result-cases (upgrade x.pbkdf2 x.b64 password salt user)) [
                        | inr (e, raised) ↦ rw (there, right, raised, sign_in, kept) h
                        | inl (upgraded, good) ↦
                            rw (there, right, good, sign_in, kept)
                              (issued-revoked upgraded raw clock db _ h h)
                      ]
                ]
          ]

      refresh-revoked :
          (refresh_token raw : Text) (clock : Clock)
          → is_revoked
              (kept db (
                refresh_session x.sha256 x.encode settings refresh_token raw clock
                  db)).refresh_tokens
            ≡ true
      unfolding refresh_session kept revoke_token
      refresh-revoked refresh_token raw clock =
          elim (Option-cases (find_refresh x.sha256 refresh_token db)) [
            | inl missing ↦ rw (missing, refresh_session, kept) h
            | inr (t, there) ↦
                elim (Bool-cases (is_given t.revoked_at || expired clock.checked_at t)) [
                  | inl bad ↦ rw (there, bad, refresh_session, kept) h
                  | inr good ↦ elim (Option-cases (get_user_by_id t.user_id db)) [
                    | inl gone ↦ rw (there, good, gone, refresh_session, kept) h
                    | inr (user, known) ↦
                        rw (there, good, known, refresh_session, kept)
                          (issued-revoked user raw clock db _ h
                            (revoked-mark _ clock.checked_at db.refresh_tokens h))
                  ]
                ]
          ]

      logout-revoked :
          (refresh_token : Text) (now : ℕ)
          → is_revoked (revoke_session x.sha256 refresh_token now db).refresh_tokens ≡ true
      unfolding revoke_session revoke_token
      logout-revoked refresh_token now =
          elim (Option-cases (find_refresh x.sha256 refresh_token db)) [
            | inl missing ↦ rw (missing, revoke_session) h
            | inr (t, there) ↦ elim (Bool-cases (is_given t.revoked_at)) [
              | inl done ↦ rw (there, done, revoke_session) h
              | inr live ↦ rw (there, live, revoke_session) (revoked-mark _ now db.refresh_tokens h)
            ]
          ]

      handle-revoked :
          (request : AuthRequest) → is_revoked (handle x settings request db).refresh_tokens ≡ true
      unfolding handle
      handle-revoked (register email password display_name salt raw clock) =
          register-revoked email password display_name salt raw clock
      handle-revoked (login email password salt raw clock) =
          login-revoked email password salt raw clock
      handle-revoked (google identity raw clock) = google-revoked identity raw clock
      handle-revoked (refresh refresh_token raw clock) = refresh-revoked refresh_token raw clock
      handle-revoked (logout refresh_token now) = logout-revoked refresh_token now
      handle-revoked (recover request) = reset-revoked request

    pub serve-revoked :
        (requests : List AuthRequest) (db : Db)
        → is_revoked db.refresh_tokens ≡ true
        → is_revoked (serve x settings requests db).refresh_tokens ≡ true
    unfolding serve
    serve-revoked [] db h = h
    serve-revoked (request ∷ rest) db h =
        serve-revoked rest (handle x settings request db) (handle-revoked db h request)
