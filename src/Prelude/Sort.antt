-- ===== src/Prelude/Sort.antt =====
-- Python's `sorted` and `min` with a key: a stable sort and the first least element, over a Boolean
-- comparison of the keys.
use Prim.Native.Nat.{ℕ}
use mathlib.Core.List.{Perm}
use mathlib.Core.List.Perm
use agentic_guide_system.Prelude.Tests.{if◌then◌else◌, Bool-cases}
use agentic_guide_system.Prelude.Lists.{All, count_by, sum_by}
use mathlib.Core.Path.{◌≡◌, refl}
use mathlib.Core.Logic.{inl, inr}
use mathlib.Core.Bool.{Bool, true, false}
use mathlib.Core.List.{List, [], ◌∷◌}
use native.Mathlib.Omega.{arith}

module _ {ℓ} {A : Type ℓ} (le : A → A → Bool) where
  -- An element goes before those that are not below it: equal keys keep their order.
  unfoldable pub insert_by : A → List A → List A
  insert_by x [] = x ∷ []
  insert_by x (y ∷ ys) = let rest = insert_by x ys in if le x y then x ∷ y ∷ ys else y ∷ rest

  unfoldable pub sort_by : List A → List A
  unfolding insert_by
  sort_by [] = []
  sort_by (x ∷ xs) = insert_by x (sort_by xs)

  -- The first element that no later one is strictly below.
  unfoldable pub min_by : A → List A → A
  min_by best [] = best
  min_by best (x ∷ xs) = min_by (if le best x then best else x) xs

  abbrev pub AllAbove : A → List A → Type 0
  AllAbove x [] = Unit
  AllAbove x (y ∷ ys) = (le x y ≡ true) × AllAbove x ys

  abbrev pub Sorted : List A → Type 0
  Sorted [] = Unit
  Sorted (x ∷ xs) = AllAbove x xs × Sorted xs

  insert_by-ne-nil : (x : A) (ys : List A) → ¬ (insert_by x ys ≡ [])
  unfolding insert_by
  insert_by-ne-nil x [] e = cc
  insert_by-ne-nil x (y ∷ ys) e = ground arith

  pub sort_by-nil : (xs : List A) → sort_by xs ≡ [] → xs ≡ []
  unfolding sort_by
  sort_by-nil [] e = refl
  sort_by-nil (x ∷ xs) e = absurd (insert_by-ne-nil x (sort_by xs) e)

  insert_by-perm : (x : A) (ys : List A) → Perm (insert_by x ys) (x ∷ ys)
  unfolding insert_by
  insert_by-perm x [] = Perm.refl (x ∷ [])
  insert_by-perm x (y ∷ ys) = elim (Bool-cases (le x y)) [
    | inl e ↦ rw e (Perm.refl (x ∷ y ∷ ys))
    | inr e ↦ rw e (Perm.trans (Perm.cons y (insert_by-perm x ys)) (Perm.swap x y ys))
  ]

  pub sort_by-perm : (xs : List A) → Perm (sort_by xs) xs
  unfolding sort_by
  sort_by-perm [] = Perm.refl []
  sort_by-perm (x ∷ xs) = Perm.trans (insert_by-perm x (sort_by xs)) (Perm.cons x (sort_by-perm xs))

-- What a comparison of keys must satisfy for its sort to sort.
pub record IsTotalPreorder {ℓ} {A : Type ℓ} (le : A → A → Bool) : Type ℓ where
  pub total : (x y : A) → le x y ≡ false → le y x ≡ true
  pub trans : (x y z : A) → le x y ≡ true → le y z ≡ true → le x z ≡ true

module _ {ℓ} {A : Type ℓ} (le : A → A → Bool) (law : IsTotalPreorder le) where
  AllAbove-trans : (x y : A) (zs : List A) → le x y ≡ true → AllAbove le y zs → AllAbove le x zs
  AllAbove-trans x y [] h hs = tt
  AllAbove-trans x y (z ∷ zs) h hs = (law.trans x y z h hs.0, AllAbove-trans x y zs h hs.1)

  AllAbove-insert_by :
      (x y : A) (zs : List A) → le x y ≡ true → AllAbove le x zs → AllAbove le x (insert_by le y zs)
  unfolding insert_by
  AllAbove-insert_by x y [] h hs = (h, tt)
  AllAbove-insert_by x y (z ∷ zs) h hs = elim (Bool-cases (le y z)) [
    | inl e ↦ rw e (h, hs)
    | inr e ↦ rw e (hs.0, AllAbove-insert_by x y zs h hs.1)
  ]

  insert_by-Sorted : (x : A) (ys : List A) → Sorted le ys → Sorted le (insert_by le x ys)
  unfolding insert_by
  insert_by-Sorted x [] s = (tt, tt)
  insert_by-Sorted x (y ∷ ys) s = elim (Bool-cases (le x y)) [
    | inl e ↦ rw e ((e, AllAbove-trans x y ys e s.0), s)
    | inr e ↦ rw e (AllAbove-insert_by y x ys (law.total x y e) s.0, insert_by-Sorted x ys s.1)
  ]

  pub sort_by-Sorted : (xs : List A) → Sorted le (sort_by le xs)
  unfolding sort_by
  sort_by-Sorted [] = tt
  sort_by-Sorted (x ∷ xs) = insert_by-Sorted x (sort_by le xs) (sort_by-Sorted xs)

module _ {ℓ κ} {A : Type ℓ} (le : A → A → Bool) (P : A → Type κ) where
  All-insert_by : (x : A) (ys : List A) → P x → All P ys → All P (insert_by le x ys)
  unfolding insert_by
  All-insert_by x [] h hs = (h, tt)
  All-insert_by x (y ∷ ys) h hs = elim (Bool-cases (le x y)) [
    | inl e ↦ rw e (h, hs)
    | inr e ↦ rw e (hs.0, All-insert_by x ys h hs.1)
  ]

  pub All-sort_by : (xs : List A) → All P xs → All P (sort_by le xs)
  unfolding sort_by
  All-sort_by [] h = tt
  All-sort_by (x ∷ xs) h = All-insert_by x (sort_by le xs) h.0 (All-sort_by xs h.1)

  All-of_insert_by : (x : A) (ys : List A) → All P (insert_by le x ys) → P x × All P ys
  unfolding insert_by
  All-of_insert_by x [] h = (h.0, tt)
  All-of_insert_by x (y ∷ ys) h = elim (Bool-cases (le x y)) [
    | inl e ↦ rw e at h
    | inr e ↦ let (a, b) = rw e at h in let (c, d) = All-of_insert_by x ys b in (c, (a, d))
  ]

  pub All-min_by : (best : A) (xs : List A) → P best → All P xs → P (min_by le best xs)
  unfolding min_by
  All-min_by best [] h hs = h
  All-min_by best (x ∷ xs) h hs =
      All-min_by (if le best x then best else x) xs (either (le best x)) hs.1
    where
      either : (b : Bool) → P (if b then best else x)
      either true = h
      either false = hs.0

  -- What holds of all of the sorted list held of all before.
  pub All-of_sort_by : (xs : List A) → All P (sort_by le xs) → All P xs
  unfolding sort_by
  All-of_sort_by [] h = tt
  All-of_sort_by (x ∷ xs) h =
      let (a, b) = All-of_insert_by x (sort_by le xs) h in (a, All-of_sort_by xs b)

module _ {ℓ} {A : Type ℓ} (le : A → A → Bool) (p : A → Bool) where
  count_by-insert_by : (x : A) (ys : List A) → count_by p (insert_by le x ys) ≡ count_by p (x ∷ ys)
  unfolding insert_by
  count_by-insert_by x [] = refl
  count_by-insert_by x (y ∷ ys) = ground (arith, count_by-insert_by x ys)

  pub count_by-sort_by : (xs : List A) → count_by p (sort_by le xs) ≡ count_by p xs
  unfolding sort_by
  count_by-sort_by [] = refl
  count_by-sort_by (x ∷ xs) =
      ground (arith, count_by-sort_by xs, count_by-insert_by x (sort_by le xs))

module _ {ℓ} {A : Type ℓ} (le : A → A → Bool) (f : A → ℕ) where
  sum_by-insert_by : (x : A) (ys : List A) → sum_by f (insert_by le x ys) ≡ sum_by f (x ∷ ys)
  unfolding insert_by
  sum_by-insert_by x [] = refl
  sum_by-insert_by x (y ∷ ys) = ground (arith, sum_by-insert_by x ys)

  pub sum_by-sort_by : (xs : List A) → sum_by f (sort_by le xs) ≡ sum_by f xs
  unfolding sort_by
  sum_by-sort_by [] = refl
  sum_by-sort_by (x ∷ xs) = ground (arith, sum_by-sort_by xs, sum_by-insert_by x (sort_by le xs))
