-- ===== src/Travel/Route/Victims.antt =====
-- What is left of a day without its lowest-scored stop (src/travel_engine/route_optimizer.py).
use mathlib.Core.List.{Perm}
use mathlib.Core.List.Perm
use agentic_guide_system.Prelude.{
  ℕ, ◌+◌, ◌≤◌, ◌≡◌, refl, ap, ◌⊎◌, inl, inr, Bool, true, false, not, List, [], ◌∷◌, map, length,
  length-keep-le, keep, ◌==◌, ==_iff, All, All-keep, arith, Bool-cases,
}
use agentic_guide_system.Prelude.Sort.{All-min_by}
use agentic_guide_system.Travel.Places.{ScoredPlace}
use agentic_guide_system.Travel.Route.{DroppedStop, pick_lowest_scored, weaker_leb, without}

abbrev pub ids : List ScoredPlace → List ℕ
ids places = map (λ s. s.place.id) places

abbrev pub dropped_ids : List DroppedStop → List ℕ
dropped_ids dropped = map (λ d. d.place_id) dropped

-- No two places have one id.
abbrev pub DistinctIds : List ScoredPlace → Type 0
DistinctIds [] = Unit
DistinctIds (x ∷ xs) = All (λ y. (y.place.id == x.place.id) ≡ false) xs × DistinctIds xs

module _ (victim : ScoredPlace) where
  pub keep_others :
      (xs : List ScoredPlace)
      → All (λ y. (y.place.id == victim.place.id) ≡ false) xs
      → without victim xs ≡ xs
  keep_others [] h = refl
  keep_others (x ∷ xs) h = rw h.0 (ap (λ ys. x ∷ ys) (keep_others xs h.1))

  pub same_id :
      (x y : ScoredPlace)
      → (x.place.id == victim.place.id) ≡ true
      → (y.place.id == x.place.id) ≡ false
      → (y.place.id == victim.place.id) ≡ false
  same_id x y h k = ground arith

  pub others_differ :
      (x : ScoredPlace) (xs : List ScoredPlace)
      → (x.place.id == victim.place.id) ≡ true
      → All (λ y. (y.place.id == x.place.id) ≡ false) xs
      → All (λ y. (y.place.id == victim.place.id) ≡ false) xs
  others_differ x [] h k = tt
  others_differ x (y ∷ ys) h k = (same_id x y h k.0, others_differ x ys h k.1)

  -- Some place of the list has the victim's id.
  abbrev pub HasVictim : List ScoredPlace → Type 0
  HasVictim [] = ⊥
  HasVictim (x ∷ xs) = ((x.place.id == victim.place.id) ≡ true) ⊎ HasVictim xs

  -- With distinct ids the filter takes out exactly the victim.
  pub ids-without-perm :
      (xs : List ScoredPlace)
      → DistinctIds xs
      → HasVictim xs
      → Perm (victim.place.id ∷ ids (without victim xs)) (ids xs)
  ids-without-perm [] d h = absurd h
  ids-without-perm (x ∷ xs) d h = elim (Bool-cases (x.place.id == victim.place.id)) [
    | inl e ↦
        rw (e, keep_others xs (others_differ x xs e d.0), (==_iff x.place.id victim.place.id).0 e)
          (Perm.refl (victim.place.id ∷ ids xs))
    | inr e ↦
        let h' : HasVictim xs = elim h [ inl f ↦ cc | inr m ↦ m ] in
        rw e (
          Perm.trans (Perm.swap x.place.id victim.place.id (ids (without victim xs)))
            (Perm.cons x.place.id (ids-without-perm xs d.1 h')))
  ]

pub DistinctIds-keep :
    (p : ScoredPlace → Bool) (xs : List ScoredPlace) → DistinctIds xs → DistinctIds (keep p xs)
DistinctIds-keep p [] d = tt
DistinctIds-keep p (x ∷ xs) d = elim (Bool-cases (p x)) [
  | inl e ↦
      rw e (All-keep (λ y. (y.place.id == x.place.id) ≡ false) p xs d.0, DistinctIds-keep p xs d.1)
  | inr e ↦ rw e (DistinctIds-keep p xs d.1)
]

pub ==-refl : (n : ℕ) → (n == n) ≡ true
==-refl n = ground arith

pub HasVictim-All :
    (xs ys : List ScoredPlace)
    → ((v : ScoredPlace) → HasVictim v xs → HasVictim v ys)
    → All (λ v. HasVictim v ys) xs
HasVictim-All [] ys f = tt
HasVictim-All (x ∷ xs) ys f =
    (f x (inl (==-refl x.place.id)), HasVictim-All xs ys (λ v m. f v (inr m)))

pub pick-HasVictim :
    (s : ScoredPlace) (rest : List ScoredPlace) → HasVictim (pick_lowest_scored s rest) (s ∷ rest)
unfolding pick_lowest_scored
pick-HasVictim s rest =
    let all = HasVictim-All (s ∷ rest) (s ∷ rest) (λ v m. m) in
    All-min_by weaker_leb (λ v. HasVictim v (s ∷ rest)) s rest all.0 all.1

pub length-without :
    (victim : ScoredPlace) (xs : List ScoredPlace)
    → HasVictim victim xs
    → length (without victim xs) + 1 ≤ length xs
length-without victim [] h = absurd h
length-without victim (x ∷ xs) (inl e) =
    rw e (omega (arith, length-keep-le (λ s. not (s.place.id == victim.place.id)) xs))
length-without victim (x ∷ xs) (inr h) = ground (arith, length-without victim xs h)
