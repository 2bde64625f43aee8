-- ===== src/Common/Chars.antt =====
-- Python text as a list of code points. The values are those of the Latin-1 range (below 256):
-- `lower`, `isdigit` and `int` follow Python there.
use Prim.Native.Nat.{Ordering, compare, ℕ, ◌+◌, ◌-◌, ◌*◌}
use Prim.Native.Char.{Char, char, nul, code}
use Prim.Native.String.{String}
use mathlib.Core.Path.{◌≡◌, refl}
use mathlib.Core.Bool.{Bool, true, false, ◌&&◌, ◌||◌, not}
use mathlib.Core.Option.{Option, none, some}
use mathlib.Core.List.{List, [], ◌∷◌, map}
use native.Mathlib.Omega.{arith}
use gummy_os.Common.Tests.{if◌then◌else◌, leb, ◌==◌}
use gummy_os.Common.Lists.{length}

abbrev pub Text : Type 0
Text = List ℕ

-- The code points of a literal.
abbrev pub codes : String → Text
codes String.[] = []
codes (String.◌∷◌ c s) = code c ∷ codes s

unfoldable pub text_eq : Text → Text → Bool
text_eq [] [] = true
text_eq [] (d ∷ t) = false
text_eq (c ∷ s) [] = false
text_eq (c ∷ s) (d ∷ t) = c == d && text_eq s t

pub text_eq→≡ : (s t : Text) → text_eq s t ≡ true → s ≡ t
unfolding text_eq
text_eq→≡ [] [] h = refl
text_eq→≡ [] (d ∷ t) h = ground arith
text_eq→≡ (c ∷ s) [] h = ground arith
text_eq→≡ (c ∷ s) (d ∷ t) h = ground (arith, text_eq→≡ s t)

pub text_eq_refl : (s : Text) → text_eq s s ≡ true
unfolding text_eq
text_eq_refl [] = refl
text_eq_refl (c ∷ s) = ground (arith, text_eq_refl s)

-- `str.lower` on one code point.
unfoldable pub lower_code : ℕ → ℕ
lower_code c =
    if leb 65 c && leb c 90
    then c + 32
    else if leb 192 c && leb c 222 && not (c == 215)
    then c + 32
    else c

unfoldable pub lower : Text → Text
unfolding lower_code
lower = map lower_code

-- `str.isdecimal` on one code point: what `int` accepts.
unfoldable pub is_decimal : ℕ → Bool
is_decimal c = leb 48 c && leb c 57

-- `str.isdigit` on one code point: the superscripts ², ³ and ¹ count too.
unfoldable pub is_digit_code : ℕ → Bool
unfolding is_decimal
is_digit_code c = is_decimal c || c == 178 || c == 179 || c == 185

unfoldable pub all_codes : (ℕ → Bool) → Text → Bool
all_codes p [] = true
all_codes p (c ∷ s) = p c && all_codes p s

-- `str.isdigit`: not empty, and every code point a digit.
unfoldable pub is_digit : Text → Bool
unfolding is_digit_code all_codes
is_digit [] = false
is_digit (c ∷ s) = is_digit_code c && all_codes is_digit_code s

-- The value of decimal digits, most significant first.
unfoldable pub digits_value : ℕ → Text → ℕ
digits_value n [] = n
digits_value n (c ∷ s) = digits_value (n * 10 + (c - 48)) s

-- The longest text of digits that `int` converts (`sys.int_info.default_max_str_digits`).
abbrev pub max_str_digits : ℕ
max_str_digits = 4300

-- `int(text)` at a text that passed `isdigit`; `none` is a `ValueError`.
unfoldable pub int_of : Text → Option ℕ
unfolding all_codes is_decimal digits_value
int_of s =
    if all_codes is_decimal s && leb (length s) max_str_digits
    then some (digits_value 0 s)
    else none

-- `str.isspace` on one code point.
unfoldable pub is_space_code : ℕ → Bool
is_space_code c = leb 9 c && leb c 13 || leb 28 c && leb c 32 || c == 133 || c == 160

unfoldable pub lstrip : Text → Text
unfolding is_space_code
lstrip [] = []
lstrip (c ∷ s) = let rest = lstrip s in if is_space_code c then rest else c ∷ s

unfoldable pub rstrip : Text → Text
unfolding is_space_code
rstrip [] = []
rstrip (c ∷ s) = elim (rstrip s) [ [] ↦ if is_space_code c then [] else c ∷ [] | d ∷ t ↦ c ∷ d ∷ t ]

-- `str.strip`
unfoldable pub strip : Text → Text
unfolding lstrip rstrip
strip s = rstrip (lstrip s)

-- A text as a native one; a code point beyond the range of these texts gives U+0000.
to_char : (c : ℕ) (o : Ordering) → compare c 55296 ≡ o → Char
to_char c Ordering.lt e = char c (rw e tt)
to_char c Ordering.eq e = nul
to_char c Ordering.gt e = nul

unfoldable pub to_string : Text → String
unfolding to_char
to_string [] = String.[]
to_string (c ∷ s) = String.◌∷◌ (to_char c (compare c 55296) refl) (to_string s)
