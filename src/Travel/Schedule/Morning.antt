-- ===== src/Travel/Schedule/Morning.antt =====
-- `_extract_morning_first` (src/travel_engine/schedule_builder.py).
use agentic_guide_system.Prelude.{
  ℕ, zero, suc, ◌≡◌, refl, ap, inl, inr, Bool, true, false, not, List, [], ◌∷◌, ◌++◌, keep, take,
  drop, All, is_empty, arith, if_cases, Bool-cases,
}
use mathlib.Core.List.{append-nil}
use agentic_guide_system.Travel.Places.{ScoredPlace}
use agentic_guide_system.Travel.Days.{is_morning_only}
use agentic_guide_system.Travel.Schedule.{extract_morning_first}

abbrev is_other : ScoredPlace → Bool
is_other s = not (is_morning_only s)

module _ {A : Type 0} (p : A → Bool) where
  keep-All : (xs : List A) → All (λ x. p x ≡ true) (keep p xs)
  keep-All [] = tt
  keep-All (x ∷ xs) = elim (Bool-cases (p x)) [
    | inl e ↦ rw e (e, keep-All xs)
    | inr e ↦ rw e (keep-All xs)
  ]

  keep-All' : (xs : List A) → All (λ x. p x ≡ true) xs → keep p xs ≡ xs
  keep-All' [] h = refl
  keep-All' (x ∷ xs) h = rw h.0 (ap (λ ys. x ∷ ys) (keep-All' xs h.1))

  keep_none : (xs : List A) → All (λ x. p x ≡ false) xs → keep p xs ≡ []
  keep_none [] h = refl
  keep_none (x ∷ xs) h = rw h.0 (keep_none xs h.1)

  keep-append : (xs ys : List A) → keep p (xs ++ ys) ≡ keep p xs ++ keep p ys
  keep-append [] ys = refl
  keep-append (x ∷ xs) ys = ground (arith, keep-append xs ys)

  none_kept : (xs : List A) → keep p xs ≡ [] → All (λ x. p x ≡ false) xs
  none_kept [] e = tt
  none_kept (x ∷ xs) e = elim (Bool-cases (p x)) [
    | inl h ↦ cc (rw h at e)
    | inr h ↦ (h, none_kept xs (rw h at e))
  ]

All-take {ℓ} : {A : Type ℓ} (P : A → Type 0) (n : ℕ) (xs : List A) → All P xs → All P (take n xs)
All-take P zero xs h = tt
All-take P (suc n) [] h = tt
All-take P (suc n) (x ∷ xs) h = (h.0, All-take P n xs h.1)

All-not :
    (xs : List ScoredPlace)
    → All (λ x. is_morning_only x ≡ true) xs
    → All (λ x. is_other x ≡ false) xs
All-not [] h = tt
All-not (x ∷ xs) h = (ground (arith, h.0), All-not xs h.1)

All-other :
    (xs : List ScoredPlace)
    → All (λ x. is_other x ≡ true) xs
    → All (λ x. is_morning_only x ≡ false) xs
All-other [] h = tt
All-other (x ∷ xs) h = (ground (arith, h.0), All-other xs h.1)

All-drop_two :
    (xs ys : List ScoredPlace)
    → All (λ x. is_morning_only x ≡ false) ys
    → All (λ x. is_morning_only x ≡ false) (drop 2 (take 2 xs ++ ys))
All-drop_two [] [] h = tt
All-drop_two [] (y ∷ []) h = tt
All-drop_two [] (y ∷ z ∷ zs) h = h.1.1
All-drop_two (x ∷ []) [] h = tt
All-drop_two (x ∷ []) (y ∷ ys) h = h.1
All-drop_two (x ∷ w ∷ ws) ys h = h

-- What `_extract_morning_first` promises of its result.
pub record IsMorningFirst (stops result : List ScoredPlace) : Type 0 where
  pub others : keep is_other result ≡ keep is_other stops
  pub mornings : keep is_morning_only result ≡ take 2 (keep is_morning_only stops)
  pub late : All (λ s. is_morning_only s ≡ false) (drop 2 result)

All-drop {κ} : {A : Type 0} (P : A → Type κ) (n : ℕ) (xs : List A) → All P xs → All P (drop n xs)
All-drop P zero xs h = h
All-drop P (suc n) [] h = tt
All-drop P (suc n) (x ∷ xs) h = All-drop P n xs h.1

morning_first :
    (stops : List ScoredPlace)
    → IsMorningFirst stops (take 2 (keep is_morning_only stops) ++ keep is_other stops)
morning_first stops =
    let early = take 2 (keep is_morning_only stops) in
    let mornings = All-take (λ x. is_morning_only x ≡ true) 2 _ (keep-All is_morning_only stops) in
    let others = keep-All is_other stops in
    record {
      others =
          rw
            (
              keep-append is_other early (keep is_other stops),
              keep_none is_other early (All-not early mornings),
            )
            (keep-All' is_other (keep is_other stops) others);
      mornings = rw (
        keep-append is_morning_only early (keep is_other stops),
        keep-All' is_morning_only early mornings,
        keep_none is_morning_only (keep is_other stops) (All-other _ others),
        append-nil,
      );
      late = All-drop_two (keep is_morning_only stops) (keep is_other stops) (All-other _ others);
    }

empty-eq-nil {ℓ} : {A : Type ℓ} (xs : List A) → is_empty xs ≡ true → xs ≡ []
empty-eq-nil [] h = refl
empty-eq-nil (x ∷ xs) h = cc

-- The result keeps the stops that are not morning-only and the first two that are, each kind in its
-- order, and has no morning-only stop behind its second slot.
pub extract_morning_first-IsMorningFirst :
    (stops : List ScoredPlace) → IsMorningFirst stops (extract_morning_first stops)
unfolding extract_morning_first
extract_morning_first-IsMorningFirst stops =
    if_cases (IsMorningFirst stops) (is_empty (keep is_morning_only stops))
      (λ none.
        let e = empty-eq-nil _ none in
        record {
          others = refl;
          mornings = rw e;
          late =
              All-drop (λ s. is_morning_only s ≡ false) 2 stops (none_kept is_morning_only stops e);
        })
      (λ _. morning_first stops)
