-- ===== src/Trips/Queries.antt =====
-- What a query for one row finds in a table that was filtered, sorted, mapped or extended: the lemmas
-- behind src/trips/repository.py.
use agentic_guide_system.Prelude.{
  ◌≤◌, ◌≡◌, refl, ap, ◌∙◌, inl, inr, Option, none, some, Bool, true, false, ◌&&◌, List, [], ◌∷◌,
  ◌++◌, map, keep, any, count_by, arith, Bool-cases, if◌then◌else◌,
}
use agentic_guide_system.Prelude.Sort.{insert_by, sort_by, count_by-sort_by}
use agentic_guide_system.Prelude.Dict.Keys.{keep_some}
use agentic_guide_system.Trips.Repository.{find_by}

abbrev pub or_else {ℓ} : {A : Type ℓ} → Option A → Option A → Option A
or_else none b = b
or_else (some a) b = some a

abbrev pub over {ℓ κ} : {A : Type ℓ} {B : Type κ} → (A → B) → Option A → Option B
over f none = none
over f (some a) = some (f a)

module _ {ℓ} {A : Type ℓ} where
  pub find_by-same :
      (p q : A → Bool) (xs : List A) → ((x : A) → p x ≡ q x) → find_by p xs ≡ find_by q xs
  unfolding find_by
  find_by-same p q [] h = refl
  find_by-same p q (x ∷ xs) h = ground (arith, h x, find_by-same p q xs h)

  pub find_by-keep :
      (q k : A → Bool) (xs : List A) → find_by q (keep k xs) ≡ find_by (λ x. k x && q x) xs
  unfolding find_by
  find_by-keep q k [] = refl
  find_by-keep q k (x ∷ xs) = elim (Bool-cases (k x)) [
    | inl kept ↦ rw kept (ap (λ rest. if q x then some x else rest) (find_by-keep q k xs))
    | inr left ↦ rw left (find_by-keep q k xs)
  ]

  pub count_by-keep :
      (q k : A → Bool) (xs : List A) → count_by q (keep k xs) ≡ count_by (λ x. k x && q x) xs
  count_by-keep q k [] = refl
  count_by-keep q k (x ∷ xs) = elim (Bool-cases (k x)) [
    | inl kept ↦ rw kept (ground (arith, count_by-keep q k xs))
    | inr left ↦ rw left (count_by-keep q k xs)
  ]

  pub count_by-narrow :
      (p q : A → Bool) (xs : List A)
      → ((x : A) → p x ≡ true → q x ≡ true)
      → count_by p xs ≤ count_by q xs
  count_by-narrow p q [] h = omega arith
  count_by-narrow p q (x ∷ xs) h = ground (arith, h x, count_by-narrow p q xs h)

  pub find_by-none : (q : A → Bool) (xs : List A) → count_by q xs ≡ 0 → find_by q xs ≡ none
  unfolding find_by
  find_by-none q [] e = refl
  find_by-none q (x ∷ xs) e = elim (Bool-cases (q x)) [
    | inl hit ↦ ground arith
    | inr miss ↦ rw miss (find_by-none q xs (rw miss at e))
  ]

  -- Where one row at most passes the test, the order of the rows does not matter.
  find_by-insert_by :
      (le : A → A → Bool) (q : A → Bool) (x : A) (ys : List A)
      → count_by q (x ∷ ys) ≤ 1
      → find_by q (insert_by le x ys) ≡ find_by q (x ∷ ys)
  unfolding find_by insert_by
  find_by-insert_by le q x [] h = refl
  find_by-insert_by le q x (y ∷ ys) h = elim (Bool-cases (le x y)) [
    | inl before ↦ rw before refl
    | inr after ↦ rw after (elim (Bool-cases (q y)) [
      | inl hit ↦ rw hit (rw (alone hit) refl)
      | inr miss ↦ rw miss (find_by-insert_by le q x ys (fewer miss))
    ])
  ]
    where
      alone : q y ≡ true → q x ≡ false
      alone hit = ground arith

      fewer : q y ≡ false → count_by q (x ∷ ys) ≤ 1
      fewer miss = ground arith

  pub find_by-sort_by :
      (le : A → A → Bool) (q : A → Bool) (xs : List A)
      → count_by q xs ≤ 1
      → find_by q (sort_by le xs) ≡ find_by q xs
  unfolding find_by sort_by
  find_by-sort_by le q [] h = refl
  find_by-sort_by le q (x ∷ xs) h =
      find_by-insert_by le q x (sort_by le xs) (ground (arith, count_by-sort_by le q xs))
      ∙ ap (λ rest. if q x then some x else rest) (find_by-sort_by le q xs (ground arith))

  -- A further condition on the one row that passes.
  pub find_by-and :
      (k q : A → Bool) (xs : List A)
      → count_by q xs ≤ 1
      → find_by (λ x. k x && q x) xs ≡ keep_some k (find_by q xs)
  unfolding find_by
  find_by-and k q [] h = refl
  find_by-and k q (x ∷ xs) h = elim (Bool-cases (k x)) [
    | inl kept ↦ elim (Bool-cases (q x)) [
      | inl hit ↦ rw (hit, kept) refl
      | inr miss ↦ rw (kept, miss) (find_by-and k q xs (fewer miss))
    ]
    | inr left ↦ elim (Bool-cases (q x)) [
      | inl hit ↦ rw (hit, left) (find_by-none (λ x. k x && q x) xs (nothing hit))
      | inr miss ↦ rw (left, miss) (find_by-and k q xs (fewer miss))
    ]
  ]
    where
      fewer : q x ≡ false → count_by q xs ≤ 1
      fewer miss = ground arith

      nothing : q x ≡ true → count_by (λ x. k x && q x) xs ≡ 0
      nothing hit = ground (arith, count_by-narrow (λ x. k x && q x) q xs (λ x h. ground arith))

  pub find_by-append :
      (q : A → Bool) (xs ys : List A) → find_by q (xs ++ ys) ≡ or_else (find_by q xs) (find_by q ys)
  unfolding find_by
  find_by-append q [] ys = refl
  find_by-append q (x ∷ xs) ys = elim (Bool-cases (q x)) [
    | inl hit ↦ rw hit refl
    | inr miss ↦ rw miss (find_by-append q xs ys)
  ]

  pub find_by-any : (q : A → Bool) (xs : List A) → any q xs ≡ false → find_by q xs ≡ none
  unfolding find_by
  find_by-any q [] e = refl
  find_by-any q (x ∷ xs) e = ground (arith, find_by-any q xs)

module _ {ℓ κ} {A : Type ℓ} {B : Type κ} (f : A → B) where
  pub find_by-over :
      (q : B → Bool) (xs : List A) → find_by q (map f xs) ≡ over f (find_by (λ x. q (f x)) xs)
  unfolding find_by
  find_by-over q [] = refl
  find_by-over q (x ∷ xs) = elim (Bool-cases (q (f x))) [
    | inl hit ↦ rw hit refl
    | inr miss ↦ rw miss (find_by-over q xs)
  ]

  pub count_by-map :
      (q : B → Bool) (xs : List A) → count_by q (map f xs) ≡ count_by (λ x. q (f x)) xs
  count_by-map q [] = refl
  count_by-map q (x ∷ xs) = ground (arith, count_by-map q xs)
