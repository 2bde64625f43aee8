-- ===== src/Mcp/Naming.antt =====
-- The catalog keys of external tools (backend/app/services/mcp/registry.py).
use gummy_os.Common.{
  ℕ, zero, suc, ◌+◌, ◌≤◌, ◌≡◌, refl, ap, ◌∙◌, Text, codes, Bool, true, List, [], ◌∷◌, ◌++◌,
  append_assoc, take, length, length-append, length-take-le, all_codes, arith,
}
use gummy_os.Mcp.Config.{
  tool_prefix, is_safe_code, is_server_id, is_lower_alnum, is_id_code, sanitize, tool_key,
}

-- The key of a tool of a server with a valid id fits the 64 characters of the column.
tool_key-le :
    (server_name tool_name : Text)
    → is_server_id server_name ≡ true
    → length (tool_key server_name tool_name) ≤ 63
unfolding tool_key is_server_id
tool_key-le [] tool_name h = absurd (ground arith)
tool_key-le (c ∷ s) tool_name h =
    let short : length s ≤ 23 = ground arith in
    omega (
      arith,
      length-append {0} s (codes "__" ++ take 32 (sanitize tool_name)),
      length-take-le {0} 32 (sanitize tool_name),
      short,
    )

take-all {ℓ} : {A : Type ℓ} (n : ℕ) (xs : List A) → length xs ≤ n → take n xs ≡ xs
take-all zero [] h = refl
take-all zero (x ∷ xs) h = absurd (omega arith)
take-all (suc n) [] h = refl
take-all (suc n) (x ∷ xs) h = ap (◌∷◌ x) (take-all n xs (omega arith))

length-sanitize : (s : Text) → length (sanitize s) ≡ length s
unfolding sanitize
length-sanitize [] = refl
length-sanitize (c ∷ s) = omega (arith, length-sanitize s)

-- Safe code points stay.
sanitize-append :
    (b t : Text) → all_codes is_safe_code b ≡ true → sanitize (b ++ t) ≡ b ++ sanitize t
unfolding sanitize all_codes
sanitize-append [] t h = refl
sanitize-append (c ∷ b) t h = ground (arith, sanitize-append b t)

all_codes-append :
    (p : ℕ → Bool) (s t : Text)
    → all_codes p s ≡ true
    → all_codes p t ≡ true
    → all_codes p (s ++ t) ≡ true
unfolding all_codes
all_codes-append p [] t h k = k
all_codes-append p (c ∷ s) t h k = ground (arith, all_codes-append p s t)

joined-is_server_id :
    (a b : Text)
    → is_server_id a ≡ true
    → all_codes is_id_code b ≡ true
    → length a + 2 + length b ≤ 24
    → is_server_id (a ++ (codes "__" ++ b)) ≡ true
unfolding is_server_id
joined-is_server_id [] b h k l = absurd (ground arith)
joined-is_server_id (c ∷ s) b h k l =
    let tail : all_codes is_id_code (codes "__" ++ b) ≡ true =
      unfold all_codes is_id_code is_lower_alnum in ground arith in
    let whole = all_codes-append is_id_code s (codes "__" ++ b) (ground arith) tail in
    let size = length-append s (codes "__" ++ b) in ground (arith, whole, size)

joined-tool_key :
    (a b t : Text)
    → all_codes is_safe_code b ≡ true
    → length b + 2 + length t ≤ 32
    → tool_key (a ++ (codes "__" ++ b)) t ≡ tool_key a (b ++ (codes "__" ++ t))
unfolding tool_key
joined-tool_key a b t safe small =
    let tail : sanitize (codes "__" ++ t) ≡ codes "__" ++ sanitize t =
      unfold sanitize is_safe_code in refl in
    let clean : sanitize (b ++ (codes "__" ++ t)) ≡ b ++ (codes "__" ++ sanitize t) =
      sanitize-append b (codes "__" ++ t) safe ∙ ap (b ++◌) tail in
    let size = length-append {0} b (codes "__" ++ sanitize t) in
    let left : take 32 (sanitize t) ≡ sanitize t =
      take-all 32 (sanitize t) (omega (arith, length-sanitize t)) in
    let right : take 32 (b ++ (codes "__" ++ sanitize t)) ≡ b ++ (codes "__" ++ sanitize t) =
      take-all 32 _ (omega (arith, size, length-sanitize t)) in
    rw (clean, left, right)
      (ap (tool_prefix ++◌) (append_assoc a (codes "__" ++ b) (codes "__" ++ sanitize t)))

-- The keys of two servers can be the same: where `a` and the longer `a__b` are both valid ids, the tool
-- `t` of the server `a__b` has the key of the tool `b__t` of the server `a`, provided that `b` has no
-- dash and that the names are short.
pub tool_key-collides :
    (a b t : Text)
    → is_server_id a ≡ true
    → all_codes is_id_code b ≡ true
    → all_codes is_safe_code b ≡ true
    → length a + 2 + length b ≤ 24
    → length b + 2 + length t ≤ 32
    → (is_server_id (a ++ (codes "__" ++ b)) ≡ true)
      × (tool_key (a ++ (codes "__" ++ b)) t ≡ tool_key a (b ++ (codes "__" ++ t)))
tool_key-collides a b t valid ids safe fits small =
    (joined-is_server_id a b valid ids fits, joined-tool_key a b t safe small)
