-- ===== src/Common/Found.antt =====
-- A test of the first row that another test finds, over the writes of a table.
use mathlib.Core.Path.{◌≡◌}
use mathlib.Core.Bool.{Bool, true, false}
use mathlib.Core.Logic.{inl, inr}
use mathlib.Core.Option.{none, some}
use mathlib.Core.List.{List, [], ◌∷◌, ◌++◌}
use native.Mathlib.Omega.{arith}
use gummy_os.Common.Tests.{Bool-cases}
use gummy_os.Common.Tables.{find, update}

module _ {ℓ} {A : Type ℓ} (p q : A → Bool) where
  abbrev pub found : List A → Bool
  found xs = elim (find p xs) [ none ↦ false | some a ↦ q a ]

  -- The row found passes: so it does after a write that keeps the key and what passed.
  pub found-update :
      (r : A → Bool) (f : A → A)
      → ((a : A) → p (f a) ≡ p a)
      → ((a : A) → q a ≡ true → q (f a) ≡ true)
      → (xs : List A) → found xs ≡ true
      → found (update r f xs) ≡ true
  found-update r f key keeps [] h = h
  found-update r f key keeps (x ∷ xs) h = elim (Bool-cases (p x)) [
    | inl own ↦ elim (Bool-cases (r x)) [
      | inl hit ↦ ground (arith, key x, keeps x)
      | inr miss ↦ ground arith
    ]
    | inr other ↦ elim (Bool-cases (r x)) [
      | inl hit ↦ ground (arith, key x, found-update r f key keeps xs)
      | inr miss ↦ ground (arith, found-update r f key keeps xs)
    ]
  ]

  pub found-append : (xs ys : List A) → found xs ≡ true → found (xs ++ ys) ≡ true
  found-append [] ys h = absurd (ground arith)
  found-append (x ∷ xs) ys h = elim (Bool-cases (p x)) [
    | inl own ↦ ground arith
    | inr other ↦ ground (arith, found-append xs ys)
  ]

  -- A write that makes rows pass, and that reaches the row found.
  pub found-mark :
      (r : A → Bool) (f : A → A)
      → ((a : A) → p (f a) ≡ p a)
      → ((a : A) → q (f a) ≡ true)
      → (xs : List A) (a : A) → find p xs ≡ some a
      → r a ≡ true
      → found (update r f xs) ≡ true
  found-mark r f key passes [] a e hit = absurd (ground arith)
  found-mark r f key passes (x ∷ xs) a e hit = elim (Bool-cases (p x)) [
    | inl own ↦ (let same : x ≡ a = ground arith in ground (arith, key x, passes x))
    | inr other ↦ elim (Bool-cases (r x)) [
      | inl reached ↦ ground (arith, key x, found-mark r f key passes xs a)
      | inr missed ↦ ground (arith, found-mark r f key passes xs a)
    ]
  ]
