-- ===== src/Travel/Days/Placement.antt =====
-- Where `allocate_days` puts one place: into a day that can take it, or nowhere if none can.
use agentic_guide_system.Prelude.{
  ℕ, zero, suc, ◌+◌, ◌-◌, ◌≤◌, ◌<◌, ◌≡◌, refl, ap, inl, inr, Bool, true, false, List, [], ◌∷◌,
  length, keep, All, arith, Bool-cases,
}
use native.Mathlib.Nat.{zero-add}
use agentic_guide_system.Prelude.Sort.{sort_by, All-min_by, All-sort_by, sort_by-nil}
use agentic_guide_system.Travel.Places.{ScoredPlace}
use agentic_guide_system.Travel.Days.{
  Geometry, can_add, range_from, day_at, append_at, spill_leb, spill, place_item, underfilled_day,
}

-- The two outcomes for one item.
pub data Placed (days : List (List ScoredPlace)) (item : ScoredPlace)
    : List (List ScoredPlace) → Type 0 where
  placed :
      (i : ℕ)
      → i < length days
      → can_add (day_at days i) item ≡ true
      → Placed days item (append_at days i item)
  omitted :
      ((i : ℕ) → i < length days → can_add (day_at days i) item ≡ false) → Placed days item days

All-keep-true :
    (p : ℕ → Bool) (k n : ℕ) → All (λ i. (i < k + n) × (p i ≡ true)) (keep p (range_from k n))
All-keep-true p k zero = tt
All-keep-true p k (suc n) =
    let e : suc k + n ≡ k + suc n = omega arith in
    let rest = subst_All e (All-keep-true p (suc k) n) in
    elim (Bool-cases (p k)) [ inl h ↦ rw h ((omega arith, h), rest) | inr h ↦ rw h rest ]
  where
    subst_All :
        {a b : ℕ}
        → a ≡ b
        → All (λ i. (i < a) × (p i ≡ true)) (keep p (range_from (suc k) n))
        → All (λ i. (i < b) × (p i ≡ true)) (keep p (range_from (suc k) n))
    subst_All e h = rw e at h

keep-nil : (p : ℕ → Bool) (k n i : ℕ) → keep p (range_from k n) ≡ [] → i < n → p (k + i) ≡ false
keep-nil p k zero i h lt = elim lt [ ]
keep-nil p k (suc n) zero h lt = let e : k + 0 ≡ k = omega arith in rw e (ground arith)
keep-nil p k (suc n) (suc i) h lt =
    let e : k + suc i ≡ suc k + i = omega arith in
    rw e (keep-nil p (suc k) n i (ground arith) (omega arith))

module _ (days : List (List ScoredPlace)) (item : ScoredPlace) where
  abbrev Takes : ℕ → Type 0
  Takes i = (i < 0 + length days) × (can_add (day_at days i) item ≡ true)

  spill-Placed :
      (candidates : List ℕ)
      → All Takes candidates
      → (candidates ≡ [] → (i : ℕ) → i < length days → can_add (day_at days i) item ≡ false)
      → Placed days item (spill days item candidates)
  unfolding spill
  spill-Placed [] h none_left = omitted (none_left refl)
  spill-Placed (di ∷ rest) h none_left = placed di (omega (arith, h.0.0)) h.0.1

  -- An item goes to the preferred day, to another day that can take it, or nowhere.
  pub place_item-Placed :
      (geo : Geometry) (preferred : ℕ)
      → preferred < length days
      → Placed days item (place_item geo preferred days item)
  unfolding place_item
  place_item-Placed geo preferred lt = elim (Bool-cases (can_add (day_at days preferred) item)) [
    | inl e ↦ rw e (placed preferred lt e)
    | inr e ↦
        let open_days = keep (λ di. can_add (day_at days di) item) (range_from 0 (length days)) in
        let le = spill_leb geo days item in
        rw e (
          spill-Placed (sort_by le open_days)
            (All-sort_by le Takes open_days
              (All-keep-true (λ di. can_add (day_at days di) item) 0 (length days)))
            (λ empty i lt'. rw zero-add at (
              keep-nil (λ di. can_add (day_at days di) item) 0 (length days) i
                (sort_by-nil le open_days empty) lt')))
  ]

range_from-lt : (k n b : ℕ) → k + n ≤ b → All (λ i. i < b) (range_from k n)
range_from-lt k zero b h = tt
range_from-lt k (suc n) b h = (omega arith, range_from-lt (suc k) n b (omega arith))

pub underfilled_day-lt :
    (geo : Geometry) (days : List (List ScoredPlace))
    → 0 < length days
    → underfilled_day geo days < length days
unfolding underfilled_day
underfilled_day-lt geo days h =
    All-min_by _ (λ i. i < length days) 0 _ h
      (range_from-lt 1 (length days - 1) (length days) (omega arith))

pub length-append_at :
    (days : List (List ScoredPlace)) (i : ℕ) (item : ScoredPlace)
    → length (append_at days i item) ≡ length days
length-append_at [] i item = refl
length-append_at (day ∷ days) zero item = refl
length-append_at (day ∷ days) (suc i) item = ap suc (length-append_at days i item)
