-- ===== src/Auth/Reset/Single.antt =====
-- How many live reset links a user has (backend/app/services/auth/reset_service.py).
use gummy_os.Common.{
  ℕ, ◌≤◌, ◌≡◌, refl, Text, Bool, Bool-cases, false, ◌==◌, List, [], ◌∷◌, ◌++◌, update, count_if,
  count_if-snoc, some, inl, inr, arith,
}
use gummy_os.Auth.{PasswordResetToken, Db}
use gummy_os.Auth.Reset.{ResetRequest, is_live, supersede, handle, serve}
use gummy_os.Auth.Reset.Tokens.{handle-tokens}

-- A mark makes no link live.
count-mark-le :
    (user_id : ℕ) (p : PasswordResetToken → Bool) (now : ℕ) (tokens : List PasswordResetToken)
    → count_if (is_live user_id) (update p (λ t. record t { used_at = some now }) tokens)
      ≤ count_if (is_live user_id) tokens
unfolding is_live
count-mark-le user_id p now [] = omega arith
count-mark-le user_id p now (t ∷ rest) = elim (Bool-cases (p t)) [
  | inl hit ↦ ground (arith, count-mark-le user_id p now rest)
  | inr miss ↦ ground (arith, count-mark-le user_id p now rest)
]

count-superseded :
    (user_id now : ℕ) (tokens : List PasswordResetToken)
    → count_if (is_live user_id) (supersede user_id now tokens) ≡ 0
unfolding supersede is_live
count-superseded user_id now [] = refl
count-superseded user_id now (t ∷ rest) = elim (Bool-cases (is_live user_id t)) [
  | inl hit ↦ ground (arith, count-superseded user_id now rest)
  | inr miss ↦ ground (arith, count-superseded user_id now rest)
]

unfoldable pub IsSingle : List PasswordResetToken → Type 0
IsSingle tokens = (user_id : ℕ) → count_if (is_live user_id) tokens ≤ 1

add-IsSingle :
    (now : ℕ) (row : PasswordResetToken) (tokens : List PasswordResetToken)
    → IsSingle tokens
    → IsSingle (supersede row.user_id now tokens ++ row ∷ [])
unfolding IsSingle
add-IsSingle now row tokens h user_id = elim (Bool-cases (row.user_id == user_id)) [
  | inl own ↦
      let none_left : count_if (is_live user_id) (supersede user_id now tokens) ≡ 0 =
        count-superseded user_id now tokens in
      let same : row.user_id ≡ user_id = ground arith in
      ground (
        arith,
        same,
        none_left,
        count_if-snoc (is_live user_id) (supersede row.user_id now tokens) row,
      )
  | inr other ↦
      let not_live : is_live user_id row ≡ false = unfold is_live in ground arith in
      let fewer : count_if (is_live user_id) (supersede row.user_id now tokens)
          ≤ count_if (is_live user_id) tokens =
        unfold supersede in count-mark-le user_id _ now tokens in
      ground (
        arith,
        not_live,
        fewer,
        h user_id,
        count_if-snoc (is_live user_id) (supersede row.user_id now tokens) row,
      )
]

module _ (sha256 : Text → Text) (pbkdf2 : (password salt : Text) (rounds dklen : ℕ) → Text)
    (b64 : Text → Text) where
  handle-IsSingle :
      (request : ResetRequest) (db : Db)
      → IsSingle db.reset_tokens
      → IsSingle (handle sha256 pbkdf2 b64 request db).reset_tokens
  handle-IsSingle request db h =
      handle-tokens sha256 pbkdf2 b64 IsSingle db h
        (λ p now.
          unfold IsSingle in
          (λ user_id. omega (arith, h user_id, count-mark-le user_id p now db.reset_tokens)))
        (λ now row. add-IsSingle now row db.reset_tokens h) request

  -- A newer link supersedes the older ones: if every user has at most one link that has not been used,
  -- that is so after any requests for links and redemptions.
  pub serve-IsSingle :
      (requests : List ResetRequest) (db : Db)
      → IsSingle db.reset_tokens
      → IsSingle (serve sha256 pbkdf2 b64 requests db).reset_tokens
  unfolding serve
  serve-IsSingle [] db h = h
  serve-IsSingle (request ∷ rest) db h =
      serve-IsSingle rest (handle sha256 pbkdf2 b64 request db) (handle-IsSingle request db h)
