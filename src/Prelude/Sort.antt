-- ===== src/Prelude/Sort.antt =====
-- `sorted(xs, key=...)`: a stable sort, by insertion, for the order of the keys as a test.
use mathlib.Core.List.{Perm}
use mathlib.Core.List.Perm
use mathlib.Core.Logic.{◌⊎◌, inl, inr}
use mathlib.Core.Path.{◌≡◌, refl}
use mathlib.Core.Bool.{Bool, true, false}
use mathlib.Core.List.{List, [], ◌∷◌}
use Prim.Native.Nat.{suc}
use native.Mathlib.Omega.{arith}
use codearts_bridge.Prelude.Lists.{All, Some, All-mono, length}
use codearts_bridge.Prelude.Tests.{if◌then◌else◌, Bool-cases}

module _ {ℓ} {A : Type ℓ} (le : A → A → Bool) where
  unfoldable pub insert : A → List A → List A
  insert x [] = x ∷ []
  insert x (y ∷ ys) = if le x y then x ∷ y ∷ ys else y ∷ insert x ys

  unfoldable pub sort : List A → List A
  unfolding insert
  sort [] = []
  sort (x ∷ xs) = insert x (sort xs)

  insert-perm : (x : A) (ys : List A) → Perm (insert x ys) (x ∷ ys)
  unfolding insert
  insert-perm x [] = Perm.refl (x ∷ [])
  insert-perm x (y ∷ ys) = elim (Bool-cases (le x y)) [
    | inl e ↦ rw e (Perm.refl (x ∷ y ∷ ys))
    | inr e ↦ rw e (Perm.trans (Perm.cons y (insert-perm x ys)) (Perm.swap x y ys))
  ]

  -- The sorted list holds the same items, each as often.
  pub sort-perm : (xs : List A) → Perm (sort xs) xs
  unfolding sort
  sort-perm [] = Perm.refl []
  sort-perm (x ∷ xs) = Perm.trans (insert-perm x (sort xs)) (Perm.cons x (sort-perm xs))

module _ {ℓ κ} {A : Type ℓ} (le : A → A → Bool) (P : A → Type κ) where
  All-insert : (x : A) (ys : List A) → P x → All P ys → All P (insert le x ys)
  unfolding insert
  All-insert x [] p h = (p, h)
  All-insert x (y ∷ ys) p h = elim (Bool-cases (le x y)) [
    | inl e ↦ rw e (p, h)
    | inr e ↦ rw e (h.0, All-insert x ys p h.1)
  ]

  pub All-sort : (xs : List A) → All P xs → All P (sort le xs)
  unfolding sort
  All-sort [] h = h
  All-sort (x ∷ xs) h = All-insert x (sort le xs) h.0 (All-sort xs h.1)

-- What a sorted list begins with comes before every item, in a total and transitive order.
module _ {ℓ} {A : Type ℓ} (le : A → A → Bool) (total : (x y : A) → le x y ≡ false → le y x ≡ true)
    (trans : (x y z : A) → le x y ≡ true → le y z ≡ true → le x z ≡ true) where
  -- Each item comes before all that stand behind it.
  abbrev pub IsSorted : List A → Type ℓ
  IsSorted [] = Unit
  IsSorted (x ∷ xs) = All (λ y. le x y ≡ true) xs × IsSorted xs

  insert-IsSorted : (x : A) (ys : List A) → IsSorted ys → IsSorted (insert le x ys)
  unfolding insert
  insert-IsSorted x [] s = (tt, tt)
  insert-IsSorted x (y ∷ ys) s = elim (Bool-cases (le x y)) [
    | inl e ↦ rw e ((e, All-mono _ _ (λ z h. trans x y z e h) ys s.0), s)
    | inr e ↦
        rw e (All-insert le (λ z. le y z ≡ true) x ys (total x y e) s.0, insert-IsSorted x ys s.1)
  ]

  pub sort-IsSorted : (xs : List A) → IsSorted (sort le xs)
  unfolding sort
  sort-IsSorted [] = tt
  sort-IsSorted (x ∷ xs) = insert-IsSorted x (sort le xs) (sort-IsSorted xs)

module _ {ℓ κ} {A : Type ℓ} (le : A → A → Bool) (P : A → Type κ) where
  All-insert_back : (x : A) (ys : List A) → All P (insert le x ys) → P x × All P ys
  unfolding insert
  All-insert_back x [] h = h
  All-insert_back x (y ∷ ys) h = elim (Bool-cases (le x y)) [
    | inl e ↦ rw e at h
    | inr e ↦
        let both : P y × All P (insert le x ys) = rw e at h in
        let (px, pys) = All-insert_back x ys both.1 in (px, (both.0, pys))
  ]

  -- What holds of every item of the sorted list holds of every item.
  pub All-sort_back : (xs : List A) → All P (sort le xs) → All P xs
  unfolding sort
  All-sort_back [] h = h
  All-sort_back (x ∷ xs) h =
      let (px, rest) = All-insert_back x (sort le xs) h in (px, All-sort_back xs rest)

module _ {ℓ} {A : Type ℓ} (le : A → A → Bool) where
  length-insert : (x : A) (ys : List A) → length (insert le x ys) ≡ suc (length ys)
  unfolding insert
  length-insert x [] = refl
  length-insert x (y ∷ ys) = ground (arith, length-insert x ys)

  pub length-sort : (xs : List A) → length (sort le xs) ≡ length xs
  unfolding sort
  length-sort [] = refl
  length-sort (x ∷ xs) = omega (arith, length-insert x (sort le xs), length-sort xs)

module _ {ℓ} {A : Type ℓ} (le : A → A → Bool) (P : A → Type 0) where
  Some-insert : (x : A) (ys : List A) → P x ⊎ Some P ys → Some P (insert le x ys)
  unfolding insert
  Some-insert x [] h = h
  Some-insert x (y ∷ ys) h = elim (Bool-cases (le x y)) [
    | inl e ↦ rw e h
    | inr e ↦ rw e (elim h [
      | inl p ↦ inr (Some-insert x ys (inl p))
      | inr (inl q) ↦ inl q
      | inr (inr r) ↦ inr (Some-insert x ys (inr r))
    ])
  ]

  -- An item that satisfies `P` is still there in the sorted list.
  pub Some-sort : (xs : List A) → Some P xs → Some P (sort le xs)
  unfolding sort
  Some-sort [] h = h
  Some-sort (x ∷ xs) (inl p) = Some-insert x (sort le xs) (inl p)
  Some-sort (x ∷ xs) (inr r) = Some-insert x (sort le xs) (inr (Some-sort xs r))
