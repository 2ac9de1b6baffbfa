-- ===== src/Travel/Days/Closing.antt =====
-- How a day that cannot take a place stays closed to it, and how one placement (src/travel_engine/day_allocator.py)
-- changes what holds of the days.
use agentic_guide_system.Prelude.{
  ℕ, zero, suc, ◌+◌, ◌≤◌, ◌<◌, ◌≡◌, refl, ◌⊎◌, inl, inr, Bool, false, List, [], ◌∷◌, ◌++◌, length,
  All, All-index, length-append, sum_by-append, count_by, count_by-append, sum_by, arith,
}
use agentic_guide_system.Travel.Rules.{visit_duration_min}
use agentic_guide_system.Travel.Places.{ScoredPlace}
use agentic_guide_system.Travel.Days.{
  is_morning_only, day_visit_min, morning_count, can_add, append_at,
}
use agentic_guide_system.Travel.Days.Placement.{Placed, placed, omitted, length-append_at}

abbrev pub In : {A : Type 0} → A → List A → Type 0
In x [] = ⊥
In x (y ∷ ys) = (y ≡ x) ⊎ In x ys

abbrev pub InSome : ScoredPlace → List (List ScoredPlace) → Type 0
InSome x [] = ⊥
InSome x (day ∷ days) = In x day ⊎ InSome x days

-- The place is in some day, or no day can take it.
abbrev pub Settled : List (List ScoredPlace) → ScoredPlace → Type 0
Settled days x = InSome x days ⊎ All (λ day. can_add day x ≡ false) days

-- A day that is too full stays too full.
pub can_add_shrinks :
    (day : List ScoredPlace) (x y : ScoredPlace)
    → can_add day x ≡ false
    → can_add (day ++ y ∷ []) x ≡ false
unfolding can_add day_visit_min morning_count
can_add_shrinks day x y h = ground (
  arith,
  length-append day (y ∷ []),
  sum_by-append (λ s. visit_duration_min s.place.category) day (y ∷ []),
  count_by-append is_morning_only day (y ∷ []),
)

pub closed_append_at :
    (x y : ScoredPlace) (days : List (List ScoredPlace)) (i : ℕ)
    → All (λ day. can_add day x ≡ false) days
    → All (λ day. can_add day x ≡ false) (append_at days i y)
closed_append_at x y [] i h = tt
closed_append_at x y (day ∷ days) zero h = (can_add_shrinks day x y h.0, h.1)
closed_append_at x y (day ∷ days) (suc i) h = (h.0, closed_append_at x y days i h.1)

pub In-append : {A : Type 0} (x y : A) (xs : List A) → In x xs → In x (xs ++ y ∷ [])
In-append x y [] m = elim m [ ]
In-append x y (z ∷ zs) (inl e) = inl e
In-append x y (z ∷ zs) (inr m) = inr (In-append x y zs m)

pub In-last : {A : Type 0} (y : A) (xs : List A) → In y (xs ++ y ∷ [])
In-last y [] = inl refl
In-last y (x ∷ xs) = inr (In-last y xs)

pub InSome-append_at :
    (x y : ScoredPlace) (days : List (List ScoredPlace)) (i : ℕ)
    → InSome x days
    → InSome x (append_at days i y)
InSome-append_at x y [] i m = elim m [ ]
InSome-append_at x y (day ∷ days) zero (inl m) = inl (In-append x y day m)
InSome-append_at x y (day ∷ days) zero (inr m) = inr m
InSome-append_at x y (day ∷ days) (suc i) (inl m) = inl m
InSome-append_at x y (day ∷ days) (suc i) (inr m) = inr (InSome-append_at x y days i m)

pub InSome-placed :
    (y : ScoredPlace) (days : List (List ScoredPlace)) (i : ℕ)
    → i < length days
    → InSome y (append_at days i y)
InSome-placed y [] i lt = elim lt [ ]
InSome-placed y (day ∷ days) zero lt = inl (In-last y day)
InSome-placed y (day ∷ days) (suc i) lt = inr (InSome-placed y days i (omega arith))

-- One more item keeps what is settled, and settles itself.
pub Placed-Settled :
    (days : List (List ScoredPlace)) (item x : ScoredPlace) {after : List (List ScoredPlace)}
    → Placed days item after
    → Settled days x
    → Settled after x
Placed-Settled days item x (placed i lt can) (inl m) = inl (InSome-append_at x item days i m)
Placed-Settled days item x (placed i lt can) (inr h) = inr (closed_append_at x item days i h)
Placed-Settled days item x (omitted closed) s = s

pub Placed-Settled_self :
    (days : List (List ScoredPlace)) (item : ScoredPlace) {after : List (List ScoredPlace)}
    → Placed days item after
    → Settled after item
Placed-Settled_self days item (placed i lt can) = inl (InSome-placed item days i lt)
Placed-Settled_self days item (omitted closed) = inr (All-index _ [] days closed)

pub Placed-length :
    (days : List (List ScoredPlace)) (item : ScoredPlace) {after : List (List ScoredPlace)}
    → Placed days item after
    → length after ≡ length days
Placed-length days item (placed i lt can) = length-append_at days i item
Placed-length days item (omitted closed) = refl

-- A count over all days.
abbrev pub total : (ScoredPlace → Bool) → List (List ScoredPlace) → ℕ
total p days = sum_by (count_by p) days

pub total-append_at :
    (p : ScoredPlace → Bool) (days : List (List ScoredPlace)) (i : ℕ) (item : ScoredPlace)
    → total p (append_at days i item) ≤ total p days + count_by p (item ∷ [])
total-append_at p [] i item = ground arith
total-append_at p (day ∷ days) zero item = ground (arith, count_by-append p day (item ∷ []))
total-append_at p (day ∷ days) (suc i) item = omega (arith, total-append_at p days i item)

pub Placed-total :
    (p : ScoredPlace → Bool) (days : List (List ScoredPlace)) (item : ScoredPlace)
    {after : List (List ScoredPlace)}
    → Placed days item after
    → total p after ≤ total p days + count_by p (item ∷ [])
Placed-total p days item (placed i lt can) = total-append_at p days i item
Placed-total p days item (omitted closed) = omega arith
