-- ===== src/Auth/Reset/Spent.antt =====
-- A redeemed reset link, over the later requests (backend/app/services/auth/reset_service.py).
use gummy_os.Common.{
  is_given, ℕ, ◌≡◌, Text, text_eq, Bool, true, ◌==◌, ==-refl, List, [], ◌∷◌, find, update, found,
  found-update, found-append, found-mark, refl, some, Option-cases, inl, inr, ok, err, arith,
}
use gummy_os.Auth.{User, PasswordResetToken, Db, invalid_token}
use gummy_os.Auth.Reset.{
  ResetRequest, supersede, hash_reset_token, find_token, reset_password, handle, serve,
}
use gummy_os.Auth.Reset.Tokens.{reset_password-IsRedeemed, redeemed-tokens, handle-tokens}

module _ (hash : Text) where
  -- The row found under the hash has been used.
  abbrev is_spent : List PasswordResetToken → Bool
  is_spent = found (λ t. text_eq t.token_hash hash) (λ t. is_given t.used_at)

  spent-mark :
      (p : PasswordResetToken → Bool) (now : ℕ) (tokens : List PasswordResetToken)
      → is_spent tokens ≡ true
      → is_spent (update p (λ t. record t { used_at = some now }) tokens) ≡ true
  spent-mark p now = found-update _ _ p _ (λ t. refl) (λ t h. refl)

  spent-redeemed :
      (now : ℕ) (tokens : List PasswordResetToken) (r : PasswordResetToken)
      → find (λ t. text_eq t.token_hash hash) tokens ≡ some r
      → is_spent (update (λ t. t.id == r.id) (λ t. record t { used_at = some now }) tokens) ≡ true
  spent-redeemed now tokens r there =
      found-mark _ _ (λ t. t.id == r.id) _ (λ t. refl) (λ t. refl) tokens r there (==-refl r.id)

module _ (sha256 : Text → Text) (pbkdf2 : (password salt : Text) (rounds dklen : ℕ) → Text)
    (b64 : Text → Text) where
  handle-is_spent :
      (hash : Text) (request : ResetRequest) (db : Db)
      → is_spent hash db.reset_tokens ≡ true
      → is_spent hash (handle sha256 pbkdf2 b64 request db).reset_tokens ≡ true
  handle-is_spent hash request db h =
      handle-tokens sha256 pbkdf2 b64 (λ tokens. is_spent hash tokens ≡ true) db h
        (λ p now. spent-mark hash p now db.reset_tokens h)
        (λ now row.
          found-append (λ t. text_eq t.token_hash hash) (λ t. is_given t.used_at) _ (row ∷ [])
            (unfold supersede in spent-mark hash _ now db.reset_tokens h))
        request

  serve-is_spent :
      (hash : Text) (requests : List ResetRequest) (db : Db)
      → is_spent hash db.reset_tokens ≡ true
      → is_spent hash (serve sha256 pbkdf2 b64 requests db).reset_tokens ≡ true
  unfolding serve
  serve-is_spent hash [] db h = h
  serve-is_spent hash (request ∷ rest) db h =
      serve-is_spent hash rest (handle sha256 pbkdf2 b64 request db)
        (handle-is_spent hash request db h)

  spent-refused :
      (token new_password salt : Text) (now : ℕ) (db : Db)
      → is_spent (hash_reset_token sha256 token) db.reset_tokens ≡ true
      → reset_password sha256 pbkdf2 b64 token new_password salt now db ≡ err invalid_token
  unfolding reset_password find_token
  spent-refused token new_password salt now db h =
      elim (Option-cases (find_token sha256 token db.reset_tokens)) [
        | inl missing ↦ ground arith
        | inr (r, found) ↦ ground arith
      ]

  -- A reset link works once: after a redemption that returns, and any requests for links and
  -- redemptions after it, the same token is refused as invalid, whatever the password and the time.
  pub reset-once :
      (token first_password salt : Text) (now : ℕ) (db : Db) (user : User) (d : Db)
      → reset_password sha256 pbkdf2 b64 token first_password salt now db ≡ ok (user, d)
      → (requests : List ResetRequest) (new_password new_salt : Text) (later : ℕ)
      → reset_password sha256 pbkdf2 b64 token new_password new_salt later
          (serve sha256 pbkdf2 b64 requests d)
        ≡ err invalid_token
  reset-once token first_password salt now db user d done requests new_password new_salt later =
      let h =
        reset_password-IsRedeemed sha256 pbkdf2 b64 token first_password salt now db user d done in
      let eq = redeemed-tokens sha256 pbkdf2 b64 token first_password salt now db user d h in
      spent-refused token new_password new_salt later (serve sha256 pbkdf2 b64 requests d) (
        serve-is_spent (hash_reset_token sha256 token) requests d (
          rw eq (
            spent-redeemed (hash_reset_token sha256 token) now db.reset_tokens h.row
              (unfold find_token in h.found))))
