-- ===== src/Auth/Reset/Tokens.antt =====
-- What a request does to the table of reset links (backend/app/services/auth/reset_service.py).
use mathlib.Core.Path.{subst}
use gummy_os.Common.{
  is_given, ℕ, ◌+◌, ◌*◌, ◌≡◌, Text, text_eq, lower, strip, Bool, Bool-cases, false, ◌==◌, ◌&&◌,
  ◌||◌, not, List, [], ◌∷◌, ◌++◌, any, find, find-some, ap, update, Option, none, some,
  Option-cases, inl, inr, Result-cases, ok, arith,
}
use gummy_os.Auth.{User, PasswordResetToken, Db}
use gummy_os.Auth.Passwords.{hash_password}
use gummy_os.Auth.Reset.{
  Message, ResetRequest, forgot, reset, supersede, minute, hash_reset_token, find_token, issue,
  request_password_reset, redeem, expired, reset_password, handle,
}

module _ (sha256 : Text → Text) (pbkdf2 : (password salt : Text) (rounds dklen : ℕ) → Text)
    (b64 : Text → Text) where
  -- A redemption that returns found a link by the hash that can be used, and its user.
  pub record IsRedeemed (token new_password salt : Text) (now : ℕ) (db : Db) (user : User) (d : Db)
      : Type 0 where
    pub row : PasswordResetToken
    pub found : find_token sha256 token db.reset_tokens ≡ some row
    pub usable : (is_given row.used_at || expired now row) ≡ false
    pub id_eq : user.id ≡ row.user_id
    pub password_eq : user.password_hash ≡ some (hash_password b64 pbkdf2 salt new_password)
    pub saved : d ≡ redeem row user (hash_password b64 pbkdf2 salt new_password) now db

  pub reset_password-IsRedeemed :
      (token new_password salt : Text) (now : ℕ) (db : Db) (user : User) (d : Db)
      → reset_password sha256 pbkdf2 b64 token new_password salt now db ≡ ok (user, d)
      → IsRedeemed token new_password salt now db user d
  unfolding reset_password redeem
  reset_password-IsRedeemed token new_password salt now db user d done =
      elim (Option-cases (find_token sha256 token db.reset_tokens)) [
        | inl missing ↦ absurd (ground arith)
        | inr (r, found) ↦ elim (Bool-cases (is_given r.used_at || expired now r)) [
          | inl bad ↦ absurd (ground arith)
          | inr good ↦ elim (Option-cases (find (λ (u : User). u.id == r.user_id) db.users)) [
            | inl gone ↦ absurd (ground arith)
            | inr (u, there) ↦
                let own = find-some (λ (u : User). u.id == r.user_id) db.users u there in
                record {
                  row = r;
                  found = found;
                  usable = good;
                  id_eq = ground arith;
                  password_eq = ground arith;
                  saved = ground arith;
                }
          ]
        ]
      ]

  pub redeemed-tokens :
      (token new_password salt : Text) (now : ℕ) (db : Db) (user : User) (d : Db)
      (h : IsRedeemed token new_password salt now db user d)
      → d.reset_tokens
        ≡ update (λ t. t.id == h.row.id) (λ t. record t { used_at = some now }) db.reset_tokens
  unfolding redeem
  redeemed-tokens token new_password salt now db user d h = ap (λ (x : Db). x.reset_tokens) h.saved

  -- A request leaves the links, marks some as used, or supersedes those of a user and adds one.
  module _ {ℓ} (P : List PasswordResetToken → Type ℓ) (db : Db) (same : P db.reset_tokens)
      (mark : (p : PasswordResetToken → Bool) (now : ℕ)
        → P (update p (λ t. record t { used_at = some now }) db.reset_tokens))
      (add : (now : ℕ) (row : PasswordResetToken)
        → P (supersede row.user_id now db.reset_tokens ++ row ∷ [])) where
    request-tokens :
        (email raw : Text) (ttl_minutes now later : ℕ) (sent : Option Message) (d : Db)
        → request_password_reset sha256 email raw ttl_minutes now later db ≡ ok (sent, d)
        → P d.reset_tokens
    unfolding request_password_reset issue
    request-tokens email raw ttl_minutes now later sent d done =
        elim (Option-cases (find (λ (u : User). text_eq u.email (lower (strip email))) db.users)) [
          | inl missing ↦
              (let eq : db.reset_tokens ≡ d.reset_tokens = ground arith in subst P eq same)
          | inr (user, found) ↦
              elim (Bool-cases (not (is_given user.password_hash) && is_given user.google_sub)) [
                | inl google ↦
                    (let eq : db.reset_tokens ≡ d.reset_tokens = ground arith in subst P eq same)
                | inr own ↦
                    elim (Bool-cases (
                      any (λ t. text_eq t.token_hash (hash_reset_token sha256 raw))
                        (supersede user.id now db.reset_tokens))) [
                          | inl taken ↦ absurd (ground arith)
                          | inr free ↦
                              let row : PasswordResetToken = record {
                                id = db.next_id;
                                user_id = user.id;
                                token_hash = hash_reset_token sha256 raw;
                                expires_at = later + ttl_minutes * minute;
                                used_at = none;
                              } in
                              let eq : supersede user.id now db.reset_tokens ++ row ∷ []
                                  ≡ d.reset_tokens =
                                ground arith in
                              subst P eq (add now row)
                        ]
              ]
        ]

    pub handle-tokens :
        (request : ResetRequest) → P (handle sha256 pbkdf2 b64 request db).reset_tokens
    unfolding handle
    handle-tokens (forgot email raw ttl_minutes now later) =
        elim (Result-cases (request_password_reset sha256 email raw ttl_minutes now later db)) [
          | inl ((sent, d), done) ↦
              rw (handle, done) (request-tokens email raw ttl_minutes now later sent d done)
          | inr (e, failed) ↦ rw (handle, failed) same
        ]
    handle-tokens (reset token new_password salt now) =
        elim (Result-cases (reset_password sha256 pbkdf2 b64 token new_password salt now db)) [
          | inl ((user, d), done) ↦
              let h = reset_password-IsRedeemed token new_password salt now db user d done in
              let eq = redeemed-tokens token new_password salt now db user d h in
              rw (handle, done) (rw eq (mark (λ t. t.id == h.row.id) now))
          | inr (e, failed) ↦ rw (handle, failed) same
        ]
