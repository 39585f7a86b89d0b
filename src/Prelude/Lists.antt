-- ===== src/Prelude/Lists.antt =====
-- Lists measured by native numbers, comprehensions with a Boolean test, and predicates on lists.
use Prim.Native.Nat.{ℕ, suc, ◌+◌, ◌≤◌}
use mathlib.Core.Path.{◌≡◌, refl}
use mathlib.Core.Logic.{◌⊎◌, inl, inr}
use mathlib.Core.Bool.{Bool, true, false, not, ◌&&◌, ◌||◌}
use mathlib.Core.List.{List, [], ◌∷◌, ◌++◌, Perm, perm_middle}
use mathlib.Core.List.Perm
use native.Mathlib.Omega.{arith}
use codearts_bridge.Prelude.Tests.{if◌then◌else◌, Bool-cases}

module _ {ℓ} {A : Type ℓ} where
  abbrev pub length : List A → ℕ
  length [] = 0
  length (x ∷ xs) = suc (length xs)

  -- `[x for x in xs if test(x)]`
  unfoldable pub keep : (A → Bool) → List A → List A
  keep test [] = []
  keep test (x ∷ xs) = let rest = keep test xs in if test x then x ∷ rest else rest

  -- `all(test(x) for x in xs)` and `any(...)`
  abbrev pub all : (A → Bool) → List A → Bool
  all test [] = true
  all test (x ∷ xs) = test x && all test xs

  abbrev pub any : (A → Bool) → List A → Bool
  any test [] = false
  any test (x ∷ xs) = test x || any test xs

  pub length-append : (xs ys : List A) → length (xs ++ ys) ≡ length xs + length ys
  length-append [] ys = omega arith
  length-append (x ∷ xs) ys = omega (arith, length-append xs ys)

  pub keep-append :
      (test : A → Bool) (xs ys : List A) → keep test (xs ++ ys) ≡ keep test xs ++ keep test ys
  unfolding keep
  keep-append test [] ys = refl
  keep-append test (x ∷ xs) ys = ground (arith, keep-append test xs ys)

  pub length-keep-le : (test : A → Bool) (xs : List A) → length (keep test xs) ≤ length xs
  unfolding keep
  length-keep-le test [] = omega arith
  length-keep-le test (x ∷ xs) = ground (arith, length-keep-le test xs)

  -- A comprehension and its complement hold the items between them.
  pub keep-append-perm :
      (test : A → Bool) (xs : List A) → Perm (keep test xs ++ keep (λ x. not (test x)) xs) xs
  unfolding keep
  keep-append-perm test [] = Perm.refl []
  keep-append-perm test (x ∷ xs) =
      let ih = keep-append-perm test xs in
      elim (Bool-cases (test x)) [
        | inl e ↦ rw e (Perm.cons x ih)
        | inr e ↦ rw e (Perm.trans (perm_middle (keep test xs) _) (Perm.cons x ih))
      ]

module _ {ℓ κ} {A : Type ℓ} where
  -- Every item satisfies `P`.
  abbrev pub All : (A → Type κ) → List A → Type κ
  All P [] = Unit
  All P (x ∷ xs) = P x × All P xs

  pub All-append : (P : A → Type κ) (xs ys : List A) → All P xs → All P ys → All P (xs ++ ys)
  All-append P [] ys hx hy = hy
  All-append P (x ∷ xs) ys hx hy = (hx.0, All-append P xs ys hx.1 hy)

  pub All-split : (P : A → Type κ) (xs ys : List A) → All P (xs ++ ys) → All P xs × All P ys
  All-split P [] ys h = (tt, h)
  All-split P (x ∷ xs) ys h = let (px, py) = All-split P xs ys h.1 in ((h.0, px), py)

  pub All-keep : (P : A → Type κ) (test : A → Bool) (xs : List A) → All P xs → All P (keep test xs)
  unfolding keep
  All-keep P test [] h = h
  All-keep P test (x ∷ xs) h = elim (Bool-cases (test x)) [
    | inl e ↦ rw e (h.0, All-keep P test xs h.1)
    | inr e ↦ rw e (All-keep P test xs h.1)
  ]

module _ {ℓ κ μ} {A : Type ℓ} where
  pub All-mono :
      (P : A → Type κ) (Q : A → Type μ)
      → ((x : A) → P x → Q x)
      → (xs : List A) → All P xs
      → All Q xs
  All-mono P Q f [] h = tt
  All-mono P Q f (x ∷ xs) h = (f x h.0, All-mono P Q f xs h.1)

module _ {ℓ} {A : Type ℓ} where
  -- What a comprehension keeps passes its test.
  pub keep-All : (test : A → Bool) (xs : List A) → All (λ x. test x ≡ true) (keep test xs)
  unfolding keep
  keep-All test [] = tt
  keep-All test (x ∷ xs) = elim (Bool-cases (test x)) [
    | inl e ↦ rw e (e, keep-All test xs)
    | inr e ↦ rw e (keep-All test xs)
  ]

module _ {ℓ} {A : Type ℓ} where
  -- Some item satisfies `P`.
  abbrev pub Some : (A → Type 0) → List A → Type 0
  Some P [] = ⊥
  Some P (x ∷ xs) = P x ⊎ Some P xs

  -- Filtering keeps an item that satisfies `P`, where `P` implies the test.
  pub Some-keep :
      (test : A → Bool) (P : A → Type 0) (xs : List A)
      → ((x : A) → P x → test x ≡ true)
      → Some P xs
      → Some P (keep test xs)
  unfolding keep
  Some-keep test P [] h s = s
  Some-keep test P (x ∷ xs) h (inl p) = let e = h x p in rw e (inl p)
  Some-keep test P (x ∷ xs) h (inr s) =
      let rest = Some-keep test P xs h s in
      elim (Bool-cases (test x)) [ inl e ↦ rw e (inr rest) | inr e ↦ rw e rest ]

  pub Some-append-left : (P : A → Type 0) (xs ys : List A) → Some P xs → Some P (xs ++ ys)
  Some-append-left P [] ys h = elim h [ ]
  Some-append-left P (x ∷ xs) ys (inl h) = inl h
  Some-append-left P (x ∷ xs) ys (inr h) = inr (Some-append-left P xs ys h)

  pub Some-append-right : (P : A → Type 0) (xs ys : List A) → Some P ys → Some P (xs ++ ys)
  Some-append-right P [] ys h = h
  Some-append-right P (x ∷ xs) ys h = inr (Some-append-right P xs ys h)

module _ {ℓ κ} {A : Type ℓ} where
  -- A comprehension adds its test to what holds of every item.
  pub All-keep_test :
      (P : A → Type κ) (test : A → Bool) (xs : List A)
      → All P xs
      → All (λ x. P x × (test x ≡ true)) (keep test xs)
  unfolding keep
  All-keep_test P test [] h = tt
  All-keep_test P test (x ∷ xs) h = elim (Bool-cases (test x)) [
    | inl e ↦ rw e ((h.0, e), All-keep_test P test xs h.1)
    | inr e ↦ rw e (All-keep_test P test xs h.1)
  ]

module _ {A : Type 0} where
  -- `x` is one of the items.
  abbrev pub Listed : List A → A → Type 0
  Listed [] x = ⊥
  Listed (y ∷ ys) x = (y ≡ x) ⊎ Listed ys x

module _ {ℓ κ} {A : Type ℓ} where
  -- A comprehension and its complement hold every item between them.
  pub All-keep_back :
      (P : A → Type κ) (test : A → Bool) (xs : List A)
      → All P (keep test xs ++ keep (λ x. not (test x)) xs)
      → All P xs
  unfolding keep
  All-keep_back P test [] h = h
  All-keep_back P test (x ∷ xs) h = elim (Bool-cases (test x)) [
    | inl e ↦
        let split : P x × All P (keep test xs ++ keep (λ y. not (test y)) xs) = rw e at h in
        (split.0, All-keep_back P test xs split.1)
    | inr e ↦
        let parts : All P (keep test xs) × All P (x ∷ keep (λ y. not (test y)) xs) =
          All-split P (keep test xs) _ (rw e at h) in
        (parts.1.0, All-keep_back P test xs (All-append P (keep test xs) _ parts.0 parts.1.1))
  ]

pub length-snoc {ℓ} : {A : Type ℓ} (xs : List A) (x : A) → length (xs ++ x ∷ []) ≡ suc (length xs)
length-snoc xs x = omega (arith, length-append xs (x ∷ []))
