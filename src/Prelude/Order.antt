-- ===== src/Prelude/Order.antt =====
-- Python's comparison of tuples of keys: lexicographic composition of three-way comparisons, on
-- numbers and on texts (by code point).
use Prim.Native.Char.{code}
use Prim.Native.String.{String}
use Prim.Native.Nat.{ℕ, compare, Ordering}
use mathlib.Core.Path.{◌≡◌, refl}
use mathlib.Core.Bool.{Bool, true, false}
use mathlib.Core.List.{List, [], ◌∷◌}
use native.Mathlib.Omega.{arith}
use agentic_guide_system.Prelude.Sort.{IsTotalPreorder}

abbrev pub codes : String → List ℕ
codes String.[] = []
codes (String.◌∷◌ c s) = code c ∷ codes s

-- The second comparison decides where the first one ties.
abbrev pub and_then : Ordering → Ordering → Ordering
and_then Ordering.eq b = b
and_then Ordering.lt b = Ordering.lt
and_then Ordering.gt b = Ordering.gt

abbrev pub flip : Ordering → Ordering
flip Ordering.lt = Ordering.gt
flip Ordering.eq = Ordering.eq
flip Ordering.gt = Ordering.lt

abbrev pub at_most : Ordering → Bool
at_most Ordering.gt = false
at_most _ = true

unfoldable pub compare_codes : List ℕ → List ℕ → Ordering
compare_codes [] [] = Ordering.eq
compare_codes [] (y ∷ ys) = Ordering.lt
compare_codes (x ∷ xs) [] = Ordering.gt
compare_codes (x ∷ xs) (y ∷ ys) = and_then (compare x y) (compare_codes xs ys)

-- How the comparison of the ends follows from the comparisons with a value between them.
abbrev pub Consistent : Ordering → Ordering → Ordering → Type 0
Consistent Ordering.eq b c = c ≡ b
Consistent Ordering.lt Ordering.gt c = Unit
Consistent Ordering.lt _ c = c ≡ Ordering.lt
Consistent Ordering.gt Ordering.lt c = Unit
Consistent Ordering.gt _ c = c ≡ Ordering.gt

pub record IsComparison {ℓ} {A : Type ℓ} (cmp : A → A → Ordering) : Type ℓ where
  pub flips : (x y : A) → cmp y x ≡ flip (cmp x y)
  pub chains : (x y z : A) → Consistent (cmp x y) (cmp y z) (cmp x z)

flip-and_then : (a b : Ordering) → flip (and_then a b) ≡ and_then (flip a) (flip b)
flip-and_then Ordering.lt b = refl
flip-and_then Ordering.eq b = refl
flip-and_then Ordering.gt b = refl

Consistent-and_then :
    (a b c a' b' c' : Ordering)
    → Consistent a b c
    → Consistent a' b' c'
    → Consistent (and_then a a') (and_then b b') (and_then c c')
Consistent-and_then Ordering.eq Ordering.eq c a' b' c' h h' = ground arith
Consistent-and_then Ordering.eq Ordering.lt c Ordering.lt b' c' h h' = ground arith
Consistent-and_then Ordering.eq Ordering.lt c Ordering.eq b' c' h h' = ground arith
Consistent-and_then Ordering.eq Ordering.lt c Ordering.gt b' c' h h' = tt
Consistent-and_then Ordering.eq Ordering.gt c Ordering.lt b' c' h h' = tt
Consistent-and_then Ordering.eq Ordering.gt c Ordering.eq b' c' h h' = ground arith
Consistent-and_then Ordering.eq Ordering.gt c Ordering.gt b' c' h h' = ground arith
Consistent-and_then Ordering.lt Ordering.lt c a' b' c' h h' = ground arith
Consistent-and_then Ordering.lt Ordering.eq c a' Ordering.lt c' h h' = ground arith
Consistent-and_then Ordering.lt Ordering.eq c a' Ordering.eq c' h h' = ground arith
Consistent-and_then Ordering.lt Ordering.eq c a' Ordering.gt c' h h' = tt
Consistent-and_then Ordering.lt Ordering.gt c a' b' c' h h' = tt
Consistent-and_then Ordering.gt Ordering.lt c a' b' c' h h' = tt
Consistent-and_then Ordering.gt Ordering.eq c a' Ordering.lt c' h h' = tt
Consistent-and_then Ordering.gt Ordering.eq c a' Ordering.eq c' h h' = ground arith
Consistent-and_then Ordering.gt Ordering.eq c a' Ordering.gt c' h h' = ground arith
Consistent-and_then Ordering.gt Ordering.gt c a' b' c' h h' = ground arith

compare-flips : (x y : ℕ) → compare y x ≡ flip (compare x y)
compare-flips x y = ground arith

compare-chains : (x y z : ℕ) → Consistent (compare x y) (compare y z) (compare x z)
compare-chains x y z = ground arith

pub compare-IsComparison : IsComparison compare
compare-IsComparison = record { flips = compare-flips; chains = compare-chains }

at_most_total : (o : Ordering) → at_most o ≡ false → at_most (flip o) ≡ true
at_most_total o h = ground arith

at_most_trans :
    (a b c : Ordering) → Consistent a b c → at_most a ≡ true → at_most b ≡ true → at_most c ≡ true
at_most_trans a b c h p q = ground arith

module _ {ℓ} {A : Type ℓ} where
  pub and_then-IsComparison :
      {f g : A → A → Ordering}
      → IsComparison f
      → IsComparison g
      → IsComparison (λ x y. and_then (f x y) (g x y))
  and_then-IsComparison {f} {g} p q = record {
    flips = λ x y. ground (arith, p.flips x y, q.flips x y, flip-and_then (f x y) (g x y));
    chains = λ x y z.
        Consistent-and_then (f x y) (f y z) (f x z) (g x y) (g y z) (g x z) (p.chains x y z)
          (q.chains x y z);
  }

  pub on-IsComparison {κ} :
      {B : Type κ} {f : B → B → Ordering} (k : A → B)
      → IsComparison f
      → IsComparison (λ x y. f (k x) (k y))
  on-IsComparison k p = record {
    flips = λ x y. p.flips (k x) (k y);
    chains = λ x y z. p.chains (k x) (k y) (k z);
  }

  -- The reversed order of a key, as Python writes `-key`.
  pub down-IsComparison : {f : A → A → Ordering} → IsComparison f → IsComparison (λ x y. f y x)
  down-IsComparison p = record {
    flips = λ x y. p.flips y x;
    chains = λ x y z. Consistent-turn _ _ _ (p.chains z y x);
  }
    where
      Consistent-turn : (a b c : Ordering) → Consistent a b c → Consistent b a c
      Consistent-turn Ordering.lt Ordering.lt c h = h
      Consistent-turn Ordering.lt Ordering.eq c h = h
      Consistent-turn Ordering.lt Ordering.gt c h = tt
      Consistent-turn Ordering.eq Ordering.lt c h = h
      Consistent-turn Ordering.eq Ordering.eq c h = h
      Consistent-turn Ordering.eq Ordering.gt c h = h
      Consistent-turn Ordering.gt Ordering.lt c h = tt
      Consistent-turn Ordering.gt Ordering.eq c h = h
      Consistent-turn Ordering.gt Ordering.gt c h = h

  pub at_most-IsTotalPreorder :
      {f : A → A → Ordering} → IsComparison f → IsTotalPreorder (λ x y. at_most (f x y))
  at_most-IsTotalPreorder {f} p = record {
    total = λ x y h. ground (arith, p.flips x y, at_most_total (f x y));
    trans = λ x y z h k. at_most_trans (f x y) (f y z) (f x z) (p.chains x y z) h k;
  }

compare_codes-flips : (xs ys : List ℕ) → compare_codes ys xs ≡ flip (compare_codes xs ys)
unfolding compare_codes
compare_codes-flips [] [] = refl
compare_codes-flips [] (y ∷ ys) = refl
compare_codes-flips (x ∷ xs) [] = refl
compare_codes-flips (x ∷ xs) (y ∷ ys) = ground (
  arith,
  compare-flips x y,
  compare_codes-flips xs ys,
  flip-and_then (compare x y) (compare_codes xs ys),
)

compare_codes-chains :
    (xs ys zs : List ℕ)
    → Consistent (compare_codes xs ys) (compare_codes ys zs) (compare_codes xs zs)
unfolding compare_codes
compare_codes-chains [] [] zs = refl
compare_codes-chains [] (y ∷ ys) [] = tt
compare_codes-chains [] (y ∷ ys) (z ∷ zs) = ground arith
compare_codes-chains (x ∷ xs) [] [] = refl
compare_codes-chains (x ∷ xs) [] (z ∷ zs) = tt
compare_codes-chains (x ∷ xs) (y ∷ ys) [] = ground arith
compare_codes-chains (x ∷ xs) (y ∷ ys) (z ∷ zs) =
    Consistent-and_then (compare x y) (compare y z) (compare x z) (compare_codes xs ys)
      (compare_codes ys zs) (compare_codes xs zs) (compare-chains x y z)
      (compare_codes-chains xs ys zs)

-- Python's order of `str`.
unfoldable pub compare_text : String → String → Ordering
unfolding compare_codes
compare_text s t = compare_codes (codes s) (codes t)

pub compare_text-IsComparison : IsComparison compare_text
unfolding compare_text
compare_text-IsComparison =
    on-IsComparison codes (record { flips = compare_codes-flips; chains = compare_codes-chains })
