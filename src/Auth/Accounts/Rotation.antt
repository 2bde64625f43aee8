-- ===== src/Auth/Accounts/Rotation.antt =====
-- A refresh token that has ended (backend/app/services/auth/auth_service.py).
use mathlib.Core.Path.{subst}
use gummy_os.Common.{
  ℕ, ◌≡◌, refl, Text, is_given, Bool-cases, true, ◌==◌, ==-refl, ◌&&◌, ◌||◌, not, List, found-mark,
  some, Option-cases, inl, inr, ok, err, arith,
}
use gummy_os.Auth.{User, RefreshToken, Db}
use gummy_os.Auth.Reset.{revoke, reset_password, redeem}
use gummy_os.Auth.Reset.Tokens.{reset_password-IsRedeemed}
use gummy_os.Auth.Accounts.{
  invalid_refresh_token, Clock, Settings, AuthResult, expired, get_user_by_id, revoke_token,
  hash_refresh_token, find_refresh, revoke_session, issue_session, refresh_session,
}
use gummy_os.Auth.Accounts.Requests.{AuthRequest, kept, Services, serve}
use gummy_os.Auth.Accounts.Revoked.{is_revoked, revoked-mark, issued-revoked, serve-revoked}

-- How a token can end: it is rotated, it is signed out, or the password of its account is reset.
pub data Ended (x : Services) (settings : Settings) (token : Text) (db : Db) : Db → Type 0 where
  rotated :
      (raw : Text) (clock : Clock) (result : AuthResult) (d : Db)
      → refresh_session x.sha256 x.encode settings token raw clock db ≡ ok (result, d)
      → Ended x settings token db d
  signed_out :
      (now : ℕ) (t : RefreshToken)
      → find_refresh x.sha256 token db ≡ some t
      → Ended x settings token db (revoke_session x.sha256 token now db)
  recovered :
      (link new_password salt : Text) (now : ℕ) (t : RefreshToken) (user : User) (d : Db)
      → find_refresh x.sha256 token db ≡ some t
      → reset_password x.sha256 x.pbkdf2 x.b64 link new_password salt now db ≡ ok (user, d)
      → t.user_id ≡ user.id
      → Ended x settings token db d

module _ (x : Services) (settings : Settings) (token : Text) (db : Db) where
  marked :
      (t : RefreshToken) (now : ℕ)
      → find_refresh x.sha256 token db ≡ some t
      → is_revoked (hash_refresh_token x.sha256 token) (revoke_token t now db).refresh_tokens ≡ true
  unfolding find_refresh revoke_token
  marked t now there =
      found-mark _ _ (λ y. y.id == t.id) _ (λ y. refl) (λ y. refl) db.refresh_tokens t there
        (==-refl t.id)

  already :
      (t : RefreshToken)
      → find_refresh x.sha256 token db ≡ some t
      → is_given t.revoked_at ≡ true
      → is_revoked (hash_refresh_token x.sha256 token) db.refresh_tokens ≡ true
  unfolding find_refresh
  already t there done = ground arith

  rotated-revoked :
      (raw : Text) (clock : Clock) (result : AuthResult) (d : Db)
      → refresh_session x.sha256 x.encode settings token raw clock db ≡ ok (result, d)
      → is_revoked (hash_refresh_token x.sha256 token) d.refresh_tokens ≡ true
  unfolding refresh_session kept
  rotated-revoked raw clock result d done = elim (Option-cases (find_refresh x.sha256 token db)) [
    | inl missing ↦ absurd (ground arith)
    | inr (t, there) ↦ elim (Bool-cases (is_given t.revoked_at || expired clock.checked_at t)) [
      | inl bad ↦ absurd (ground arith)
      | inr good ↦ elim (Option-cases (get_user_by_id t.user_id db)) [
        | inl gone ↦ absurd (ground arith)
        | inr (user, known) ↦
            let mid = revoke_token t clock.checked_at db in
            let saved : issue_session x.sha256 x.encode settings user raw clock mid
                ≡ ok (result, d) =
              ground arith in
            let m = marked t clock.checked_at there in
            subst
              (λ r.
                is_revoked (hash_refresh_token x.sha256 token) (kept mid r).refresh_tokens ≡ true)
              saved
              (issued-revoked (hash_refresh_token x.sha256 token) x settings user raw clock mid mid
                m m)
      ]
    ]
  ]

  recovered-revoked :
      (now : ℕ) (t : RefreshToken) (user_id : ℕ)
      → find_refresh x.sha256 token db ≡ some t
      → t.user_id ≡ user_id
      → is_revoked (hash_refresh_token x.sha256 token) (revoke user_id now db.refresh_tokens) ≡ true
  unfolding revoke find_refresh
  recovered-revoked now t user_id there own = elim (Bool-cases (is_given t.revoked_at)) [
    | inl done ↦ revoked-mark _ _ now db.refresh_tokens (already t there done)
    | inr live ↦
        found-mark _ _ (λ y. y.user_id == user_id && not (is_given y.revoked_at)) _ (λ y. refl)
          (λ y. refl) db.refresh_tokens t there (ground (arith, own, live))
  ]

  ended-revoked :
      (d : Db)
      → Ended x settings token db d
      → is_revoked (hash_refresh_token x.sha256 token) d.refresh_tokens ≡ true
  unfolding revoke_session redeem
  ended-revoked d (rotated raw clock result d' done) = rotated-revoked raw clock result d done
  ended-revoked d (signed_out now t there) = elim (Bool-cases (is_given t.revoked_at)) [
    | inl done ↦ rw (there, done, revoke_session) (already t there done)
    | inr live ↦ rw (there, live, revoke_session) (marked t now there)
  ]
  ended-revoked d (recovered link new_password salt now t user d' there done own) =
      let r =
        reset_password-IsRedeemed x.sha256 x.pbkdf2 x.b64 link new_password salt now db user d
          done in
      rw r.saved (recovered-revoked now t user.id there own)

  revoked-refused :
      (d : Db) (raw : Text) (clock : Clock)
      → is_revoked (hash_refresh_token x.sha256 token) d.refresh_tokens ≡ true
      → refresh_session x.sha256 x.encode settings token raw clock d ≡ err invalid_refresh_token
  unfolding refresh_session find_refresh
  revoked-refused d raw clock h = elim (Option-cases (find_refresh x.sha256 token d)) [
    | inl missing ↦ ground arith
    | inr (t, there) ↦ ground arith
  ]

  -- A refresh token that has ended opens no session again: once it was rotated, signed out, or its
  -- account's password was reset, it is refused after any requests that the services for accounts and
  -- password recovery serve, whatever the time.
  pub refresh_session_ended :
      (d : Db)
      → Ended x settings token db d
      → (requests : List AuthRequest) (raw : Text) (clock : Clock)
      → refresh_session x.sha256 x.encode settings token raw clock (serve x settings requests d)
        ≡ err invalid_refresh_token
  refresh_session_ended d ended requests raw clock =
      revoked-refused (serve x settings requests d) raw clock (
        serve-revoked (hash_refresh_token x.sha256 token) x settings requests d
          (ended-revoked d ended))
