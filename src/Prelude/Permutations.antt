-- ===== src/Prelude/Permutations.antt =====
-- `itertools.permutations`: all orders of a list, by the positions of the elements picked.
use mathlib.Core.List.{Perm, Memᴰ}
use mathlib.Core.List.Perm
use mathlib.Core.Logic.{∥∥₁_elim}
use Prim.Native.Nat.{ℕ, zero, suc}
use mathlib.Core.Path.{◌≡◌, refl, sym, ap, subst}
use mathlib.Core.List.{List, [], ◌∷◌, ◌++◌, map}
use native.Mathlib.Omega.{arith}
use agentic_guide_system.Prelude.Lists.{All, length, All-append}

module _ {ℓ} {A : Type ℓ} where
  -- Every way to take one element out.
  pub picks : List A → List (A × List A)
  picks [] = []
  picks (x ∷ xs) = (x, xs) ∷ map (λ p. (p.0, x ∷ p.1)) (picks xs)

  pub extend : (List A → List (List A)) → List (A × List A) → List (List A)
  extend orders [] = []
  extend orders (p ∷ ps) = map (λ rest. p.0 ∷ rest) (orders p.1) ++ extend orders ps

  permutations_of : ℕ → List A → List (List A)
  unfolding picks extend
  permutations_of zero xs = [] ∷ []
  permutations_of (suc n) xs = extend (permutations_of n) (picks xs)

  unfoldable pub permutations : List A → List (List A)
  unfolding permutations_of
  permutations xs = permutations_of (length xs) xs

  All-map_pick {κ} :
      (P : A × List A → Type κ) (Q : A × List A → Type κ) (f : A × List A → A × List A)
      (h : (p : A × List A) → P p → Q (f p)) (ps : List (A × List A))
      → All P ps
      → All Q (map f ps)
  All-map_pick P Q f h [] a = tt
  All-map_pick P Q f h (p ∷ ps) a = (h p a.0, All-map_pick P Q f h ps a.1)

  abbrev IsPick : List A → A × List A → Type ℓ
  IsPick xs p = Perm (p.0 ∷ p.1) xs × (suc (length p.1) ≡ length xs)

  picks-IsPick : (xs : List A) → All (IsPick xs) (picks xs)
  unfolding picks
  picks-IsPick [] = tt
  picks-IsPick (x ∷ xs) = (
    (Perm.refl (x ∷ xs), refl),
    All-map_pick (IsPick xs) (IsPick (x ∷ xs)) (λ p. (p.0, x ∷ p.1))
        (λ p h. (Perm.trans (Perm.swap x p.0 p.1) (Perm.cons x h.0), ap suc h.1)) (picks xs)
        (picks-IsPick xs),
  )

  -- Every result is a rearrangement of the list.
  module _ (xs : List A) where
    abbrev IsOrder : List A → Type ℓ
    IsOrder q = Perm q xs

  All-map_cons {κ} :
      (P Q : List A → Type κ) (x : A) (h : (q : List A) → P q → Q (x ∷ q)) (qs : List (List A))
      → All P qs
      → All Q (map (λ rest. x ∷ rest) qs)
  All-map_cons P Q x h [] a = tt
  All-map_cons P Q x h (q ∷ qs) a = (h q a.0, All-map_cons P Q x h qs a.1)

  All-extend {κ} :
      (P : A × List A → Type κ) (Q : List A → Type κ) (orders : List A → List (List A))
      (h : (p : A × List A) → P p → All Q (map (λ rest. p.0 ∷ rest) (orders p.1)))
      (ps : List (A × List A))
      → All P ps
      → All Q (extend orders ps)
  unfolding extend
  All-extend P Q orders h [] a = tt
  All-extend P Q orders h (p ∷ ps) a =
      All-append Q (map (λ rest. p.0 ∷ rest) (orders p.1)) (extend orders ps) (h p a.0)
        (All-extend P Q orders h ps a.1)

  permutations_of-perm :
      (n : ℕ) (xs : List A) → length xs ≡ n → All (IsOrder xs) (permutations_of n xs)
  unfolding permutations_of
  permutations_of-perm zero [] e = (Perm.refl [], tt)
  permutations_of-perm zero (x ∷ xs) e = absurd (omega arith)
  permutations_of-perm (suc n) xs e =
      All-extend (IsPick xs) (IsOrder xs) (permutations_of n)
        (λ p h.
          All-map_cons (IsOrder p.1) (IsOrder xs) p.0 (λ q o. Perm.trans (Perm.cons p.0 o) h.0)
            (permutations_of n p.1) (permutations_of-perm n p.1 (omega arith)))
        (picks xs) (picks-IsPick xs)

  pub permutations-perm : (xs : List A) → All (λ q. Perm q xs) (permutations xs)
  unfolding permutations
  permutations-perm xs = permutations_of-perm (length xs) xs refl

  All-mem {κ} : (P : A → Type κ) {x : A} {xs : List A} → Memᴰ x xs → All P xs → P x
  All-mem P (Memᴰ.head e) h = subst P (sym e) h.0
  All-mem P (Memᴰ.tail m) h = All-mem P m h.1

module _ {ℓ} {A : Type ℓ} where
  pick_shift :
      {p : A × List A} (x : A) {ps : List (A × List A)}
      → Memᴰ p ps
      → Memᴰ {A = A × List A} (p.0, x ∷ p.1) (map (λ p. (p.0, x ∷ p.1)) ps)
  pick_shift x (Memᴰ.head e) = Memᴰ.head (ap (λ (p : A × List A). (p.0, x ∷ p.1)) e)
  pick_shift x (Memᴰ.tail m) = Memᴰ.tail (pick_shift x m)

  pick_of_mem :
      {y : A} {xs : List A}
      → Memᴰ y xs
      → (rest : List A) × Memᴰ {A = A × List A} (y, rest) (picks xs)
  unfolding picks
  pick_of_mem (Memᴰ.head {xs = xs} e) = (xs, Memᴰ.head (ap (λ a. (a, xs)) e))
  pick_of_mem (Memᴰ.tail {x = x} m) =
      let (rest, m') = pick_of_mem m in (x ∷ rest, Memᴰ.tail (pick_shift x m'))

  All-left {κ} : (P : List A → Type κ) (xs ys : List (List A)) → All P (xs ++ ys) → All P xs
  All-left P [] ys h = tt
  All-left P (x ∷ xs) ys h = (h.0, All-left P xs ys h.1)

  All-right {κ} : (P : List A → Type κ) (xs ys : List (List A)) → All P (xs ++ ys) → All P ys
  All-right P [] ys h = h
  All-right P (x ∷ xs) ys h = All-right P xs ys h.1

  All-of_map_cons {κ} :
      (Q : List A → Type κ) (x : A) (qs : List (List A))
      → All Q (map (λ rest. x ∷ rest) qs)
      → All (λ q. Q (x ∷ q)) qs
  All-of_map_cons Q x [] h = tt
  All-of_map_cons Q x (q ∷ qs) h = (h.0, All-of_map_cons Q x qs h.1)

  All-of_extend {κ} :
      (Q : List A → Type κ) (orders : List A → List (List A)) {p : A × List A}
      {ps : List (A × List A)}
      → Memᴰ p ps
      → All Q (extend orders ps)
      → All (λ q. Q (p.0 ∷ q)) (orders p.1)
  unfolding extend
  All-of_extend Q orders {p} (Memᴰ.head {x = p'} {xs = ps} e) h =
      subst (λ (r : A × List A). All (λ q. Q (r.0 ∷ q)) (orders r.1)) (sym e)
        (All-of_map_cons Q p'.0 (orders p'.1)
          (All-left Q (map (λ rest. p'.0 ∷ rest) (orders p'.1)) (extend orders ps) h))
  All-of_extend Q orders (Memᴰ.tail {x = p'} {xs = ps} m) h =
      All-of_extend Q orders m
        (All-right Q (map (λ rest. p'.0 ∷ rest) (orders p'.1)) (extend orders ps) h)

  permutations_of-complete {κ} :
      (q : List A) (Q : List A → Type κ) (Q-prop : (t : List A) → IsProp (Q t)) (n : ℕ)
      (xs : List A)
      → length xs ≡ n
      → All Q (permutations_of n xs)
      → Perm q xs
      → Q q
  unfolding permutations_of
  permutations_of-complete [] Q Q-prop zero xs e h p = h.0
  permutations_of-complete [] Q Q-prop (suc n) [] e h p = absurd (omega arith)
  permutations_of-complete [] Q Q-prop (suc n) (x ∷ xs) e h p = cc (Perm.nil-eq p)
  permutations_of-complete (y ∷ ys) Q Q-prop zero [] e h p = cc (Perm.eq-nil p)
  permutations_of-complete (y ∷ ys) Q Q-prop zero (x ∷ xs) e h p = absurd (omega arith)
  permutations_of-complete (y ∷ ys) Q Q-prop (suc n) xs e h p =
      ∥∥₁_elim (Perm.subset p y ∣ Memᴰ.head refl ∣₁) (Q-prop (y ∷ ys)) λ m.
        let (rest, picked) = pick_of_mem m in
        let ok = All-mem (IsPick xs) picked (picks-IsPick xs) in
        permutations_of-complete ys (λ t. Q (y ∷ t)) (λ t. Q-prop (y ∷ t)) n rest (omega arith)
          (All-of_extend Q (permutations_of n) picked h)
          (Perm.cons_inv (Perm.trans p (Perm.symm ok.0)))

  -- What holds of all results holds of every rearrangement of the list.
  pub permutations-complete {κ} :
      (Q : List A → Type κ) (Q-prop : (t : List A) → IsProp (Q t)) (xs : List A)
      → All Q (permutations xs)
      → (q : List A) → Perm q xs
      → Q q
  unfolding permutations
  permutations-complete Q Q-prop xs h q p =
      permutations_of-complete q Q Q-prop (length xs) xs refl h p
