-- ===== src/Common/Tables.antt =====
-- A table as a list of rows: the reads by key and the in-place writes that the repositories make.
use mathlib.Core.Path.{◌≡◌, refl, subst}
use Prim.Native.Nat.{ℕ, zero, suc, ◌≤◌}
use mathlib.Core.Bool.{Bool, true, false}
use mathlib.Core.Logic.{inl, inr}
use mathlib.Core.Option.{Option, none, some}
use mathlib.Core.List.{List, [], ◌∷◌, ◌++◌}
use native.Mathlib.Omega.{arith}
use gummy_os.Common.Tests.{if◌then◌else◌, Bool-cases}
use gummy_os.Common.Lists.{length, All, All-imp, any, count_if, filter, take}

module _ {ℓ} {A : Type ℓ} where
  -- The first row that passes the test (`scalar_one_or_none`).
  abbrev pub find : (A → Bool) → List A → Option A
  find p [] = none
  find p (x ∷ xs) = if p x then some x else find p xs

  -- A mutation of every row that passes the test.
  abbrev pub update : (A → Bool) → (A → A) → List A → List A
  update p f [] = []
  update p f (x ∷ xs) = (if p x then f x else x) ∷ update p f xs

module _ {ℓ} {A : Type ℓ} where
  pub length-update : (p : A → Bool) (f : A → A) (xs : List A) → length (update p f xs) ≡ length xs
  length-update p f [] = refl
  length-update p f (x ∷ xs) = omega (arith, length-update p f xs)

  pub find-some : (p : A → Bool) (xs : List A) (a : A) → find p xs ≡ some a → p a ≡ true
  find-some p [] a h = ground arith
  find-some p (x ∷ xs) a h = ground (arith, find-some p xs a)

  pub find-append :
      (p : A → Bool) (xs ys : List A)
      → find p (xs ++ ys) ≡ elim (find p xs) [ none ↦ find p ys | some a ↦ some a ]
  find-append p [] ys = refl
  find-append p (x ∷ xs) ys = ground (arith, find-append p xs ys)

  pub All-find {κ} :
      (P : A → Type κ) (p : A → Bool) (xs : List A) (a : A) → All P xs → find p xs ≡ some a → P a
  All-find P p [] a h e = cc
  All-find P p (x ∷ xs) a h e = elim (Bool-cases (p x)) [
    | inl hit ↦ (let same : x ≡ a = ground arith in subst P same h.0)
    | inr miss ↦ All-find P p xs a h.1 (rw miss at e)
  ]

  pub All-update {κ} :
      (P : A → Type κ) (p : A → Bool) (f : A → A) (xs : List A)
      → ((a : A) → p a ≡ true → P a → P (f a))
      → All P xs
      → All P (update p f xs)
  All-update P p f [] k h = tt
  All-update P p f (x ∷ xs) k h = (
    elim (Bool-cases (p x)) [ inl hit ↦ rw hit (k x hit h.0) | inr miss ↦ rw miss h.0 ],
    All-update P p f xs k h.1,
  )

  pub All-update-split {κ μ} :
      (P : A → Type κ) (Q : A → Type μ) (p : A → Bool) (f : A → A) (xs : List A)
      → ((a : A) → p a ≡ true → P a → Q (f a))
      → ((a : A) → p a ≡ false → P a → Q a)
      → All P xs
      → All Q (update p f xs)
  All-update-split P Q p f [] k l h = tt
  All-update-split P Q p f (x ∷ xs) k l h = (
    elim (Bool-cases (p x)) [ inl hit ↦ rw hit (k x hit h.0) | inr miss ↦ rw miss (l x miss h.0) ],
    All-update-split P Q p f xs k l h.1,
  )

  -- The row read is the row written.
  pub find-update :
      (p : A → Bool) (f : A → A) (xs : List A) (a : A)
      → find p xs ≡ some a
      → p (f a) ≡ true
      → find p (update p f xs) ≡ some (f a)
  find-update p f [] a e k = cc
  find-update p f (x ∷ xs) a e k = ground (arith, find-update p f xs a)

  pub count_if-update :
      (p q : A → Bool) (f : A → A) (xs : List A)
      → ((a : A) → p (f a) ≡ p a)
      → count_if p (update q f xs) ≡ count_if p xs
  count_if-update p q f [] k = refl
  count_if-update p q f (x ∷ xs) k = ground (arith, k x, count_if-update p q f xs k)

  pub count_if-filter-le : (p q : A → Bool) (xs : List A) → count_if p (filter q xs) ≤ count_if p xs
  count_if-filter-le p q [] = omega arith
  count_if-filter-le p q (x ∷ xs) = ground (arith, count_if-filter-le p q xs)

  pub count_if-none : (p : A → Bool) (xs : List A) → any p xs ≡ false → count_if p xs ≡ 0
  count_if-none p [] h = refl
  count_if-none p (x ∷ xs) h = ground (arith, count_if-none p xs)

  pub All-filter {κ} :
      (P : A → Type κ) (q : A → Bool) (xs : List A)
      → All P xs
      → All (λ a. (q a ≡ true) × P a) (filter q xs)
  All-filter P q [] h = tt
  All-filter P q (x ∷ xs) h = elim (Bool-cases (q x)) [
    | inl kept ↦ rw kept ((kept, h.0), All-filter P q xs h.1)
    | inr dropped ↦ rw dropped (All-filter P q xs h.1)
  ]

  pub All-kept {κ} : (P : A → Type κ) (q : A → Bool) (xs : List A) → All P xs → All P (filter q xs)
  All-kept P q xs h =
      All-imp (λ a. (q a ≡ true) × P a) P (filter q xs) (λ a k. k.1) (All-filter P q xs h)

  pub All-take {κ} : (P : A → Type κ) (n : ℕ) (xs : List A) → All P xs → All P (take n xs)
  All-take P zero xs h = tt
  All-take P (suc n) [] h = tt
  All-take P (suc n) (x ∷ xs) h = (h.0, All-take P n xs h.1)

  pub find-any : (p : A → Bool) (xs : List A) (a : A) → find p xs ≡ some a → any p xs ≡ true
  find-any p [] a h = ground arith
  find-any p (x ∷ xs) a h = ground (arith, find-any p xs a)

  -- A count that looks only at rows that a write leaves alone.
  pub count_if-update-All :
      (p q : A → Bool) (f : A → A) (xs : List A)
      → All (λ x. q x ≡ true → p (f x) ≡ p x) xs
      → count_if p (update q f xs) ≡ count_if p xs
  count_if-update-All p q f [] h = refl
  count_if-update-All p q f (x ∷ xs) h = ground (arith, h.0, count_if-update-All p q f xs h.1)

  pub count_if-filter-All :
      (p q : A → Bool) (xs : List A)
      → All (λ x. q x ≡ false → p x ≡ false) xs
      → count_if p (filter q xs) ≡ count_if p xs
  count_if-filter-All p q [] h = refl
  count_if-filter-All p q (x ∷ xs) h = ground (arith, h.0, count_if-filter-All p q xs h.1)

  pub count_if-All-none :
      (p : A → Bool) (xs : List A) → All (λ x. p x ≡ false) xs → count_if p xs ≡ 0
  count_if-All-none p [] h = refl
  count_if-All-none p (x ∷ xs) h = ground (arith, h.0, count_if-All-none p xs h.1)
