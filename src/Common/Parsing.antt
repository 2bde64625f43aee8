-- ===== src/Common/Parsing.antt =====
-- `str.split` at one code point, and `int` of any text.
use Prim.Native.Nat.{ℕ, zero, suc}
use mathlib.Core.Path.{◌≡◌, refl}
use mathlib.Core.Bool.{Bool, true, false, ◌&&◌, ◌||◌, not}
use mathlib.Core.Option
use mathlib.Core.Option.{Option, none, some}
use mathlib.Core.List.{List, [], ◌∷◌, ◌++◌}
use native.Mathlib.Omega.{arith}
use gummy_os.Common.Tests.{if◌then◌else◌, leb, ltb, ◌==◌, ==-refl, Bool-cases}
use mathlib.Core.Logic.{inl, inr}
use gummy_os.Common.Lists.{length}
use gummy_os.Common.Chars.{
  Text, text_eq, strip, is_decimal, all_codes, digits_value, max_str_digits,
}

-- `text.split(sep)`: the parts between the separators, at least one.
unfoldable pub split : (sep : ℕ) → Text → List Text
split sep [] = [] ∷ []
split sep (c ∷ s) = elim (split sep s) [
  | [] ↦ (c ∷ []) ∷ []
  | part ∷ rest ↦ if c == sep then [] ∷ part ∷ rest else (c ∷ part) ∷ rest
]

-- There is a first part.
split-cons : (sep : ℕ) (s : Text) → (part : Text) × (rest : List Text) × (split sep s ≡ part ∷ rest)
unfolding split
split-cons sep [] = ([], [], refl)
split-cons sep (c ∷ s) =
    let (part, rest, e) = split-cons sep s in
    elim (Bool-cases (c == sep)) [
      | inl hit ↦ ([], part ∷ rest, ground arith)
      | inr miss ↦ (c ∷ part, rest, ground arith)
    ]

-- A text with no separator is the first part of what it begins.
pub split-append :
    (sep : ℕ) (s t : Text)
    → all_codes (λ c. not (c == sep)) s ≡ true
    → split sep (s ++ sep ∷ t) ≡ s ∷ split sep t
unfolding split all_codes
split-append sep [] t h = let (part, rest, e) = split-cons sep t in ground (arith, e, ==-refl sep)
split-append sep (c ∷ s) t h = ground (arith, split-append sep s t)

-- The digits of a literal with its underscores left out; `after_digit` tells whether one may follow.
unfoldable pub literal_digits : (after_digit : Bool) → Text → Option Text
literal_digits after_digit [] = if after_digit then some [] else none
literal_digits after_digit (c ∷ s) = elim (is_decimal c) [
  | true ↦ elim (literal_digits true s) [ none ↦ none | some digits ↦ some (c ∷ digits) ]
  | false ↦ elim (c == 95 && after_digit) [ true ↦ literal_digits false s | false ↦ none ]
]

-- The magnitude of a literal with no sign; `none` is a `ValueError`.
unfoldable pub magnitude : Text → Option ℕ
unfolding literal_digits digits_value
magnitude s = elim (literal_digits false s) [
  | none ↦ none
  | some digits ↦ if leb (length digits) max_str_digits then some (digits_value 0 digits) else none
]

-- `negsuc n` is -(n + 1).
pub data ℤ : Type 0 where
  pos : ℕ → ℤ
  negsuc : ℕ → ℤ

unfoldable pub negate : ℕ → ℤ
negate zero = pos 0
negate (suc n) = negsuc n

-- `int(text)`: white space around, one sign, and digits that single underscores may part.
unfoldable pub int : Text → Option ℤ
unfolding magnitude strip negate
int s = elim (strip s) [
  | [] ↦ none
  | c ∷ rest ↦
      if c == b'-'
      then Option.map negate (magnitude rest)
      else Option.map pos (magnitude (if c == b'+' then rest else c ∷ rest))
]

-- `text.startswith(prefix)`
unfoldable pub starts_with : (prefix : Text) → Text → Bool
starts_with [] s = true
starts_with (c ∷ p) [] = false
starts_with (c ∷ p) (d ∷ s) = c == d && starts_with p s

-- `needle in text`
unfoldable pub contains : (needle : Text) → Text → Bool
unfolding starts_with
contains needle [] = starts_with needle []
contains needle (c ∷ s) = starts_with needle (c ∷ s) || contains needle s

-- `text.strip(chars)`, the characters given by a test.
unfoldable pub lstrip_of : (ℕ → Bool) → Text → Text
lstrip_of p [] = []
lstrip_of p (c ∷ s) = let rest = lstrip_of p s in if p c then rest else c ∷ s

unfoldable pub rstrip_of : (ℕ → Bool) → Text → Text
rstrip_of p [] = []
rstrip_of p (c ∷ s) = elim (rstrip_of p s) [ [] ↦ if p c then [] else c ∷ [] | d ∷ t ↦ c ∷ d ∷ t ]

unfoldable pub strip_of : (ℕ → Bool) → Text → Text
unfolding lstrip_of rstrip_of
strip_of p s = rstrip_of p (lstrip_of p s)

-- The order of two texts by code points, and a set of texts in that order.
unfoldable pub text_lt : Text → Text → Bool
text_lt s [] = false
text_lt [] (d ∷ t) = true
text_lt (c ∷ s) (d ∷ t) = ltb c d || c == d && text_lt s t

unfoldable pub insert_text : Text → List Text → List Text
unfolding text_lt text_eq
insert_text s [] = s ∷ []
insert_text s (t ∷ rest) =
    if text_eq s t then t ∷ rest else if text_lt s t then s ∷ t ∷ rest else t ∷ insert_text s rest

-- `sorted(set(texts))`
unfoldable pub sorted_set : List Text → List Text
unfolding insert_text
sorted_set [] = []
sorted_set (s ∷ rest) = insert_text s (sorted_set rest)
