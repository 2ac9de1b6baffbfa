-- ===== src/Trips/Found.antt =====
-- What the queries of src/trips/repository.py find.
use agentic_guide_system.Prelude.{
  ℕ, ◌≡◌, refl, ap, ◌∙◌, subst, inl, inr, Option, none, some, Bool, true, List, [], ◌∷◌, map, arith,
  Bool-cases, Option-cases, some-eq-some,
}
use agentic_guide_system.Prelude.Result.{ok, ok-eq-ok}
use agentic_guide_system.Trips.{Trip, LoadedTrip, Store}
use agentic_guide_system.Trips.Repository.{
  find_by, is_live, load_places, get_with_places, load_or_404,
}

pub find_by-true {ℓ} :
    {A : Type ℓ} (p : A → Bool) (xs : List A) {x : A} → find_by p xs ≡ some x → p x ≡ true
unfolding find_by
find_by-true p [] e = cc
find_by-true p (y ∷ ys) {x} e = elim (Bool-cases (p y)) [
  | inl hit ↦ subst (λ z. p z ≡ true) (some-eq-some y x (rw hit at e)) hit
  | inr miss ↦ find_by-true p ys (rw miss at e)
]

abbrev pub map_some {ℓ} : {A : Type ℓ} → (A → A) → Option A → Option A
map_some f none = none
map_some f (some a) = some (f a)

-- A change that the test does not see is a change of what is found.
pub find_by-map {ℓ} :
    {A : Type ℓ} (p : A → Bool) (f : A → A) (xs : List A)
    → ((x : A) → p (f x) ≡ p x)
    → find_by p (map f xs) ≡ map_some f (find_by p xs)
unfolding find_by
find_by-map p f [] h = refl
find_by-map p f (x ∷ xs) h = elim (Bool-cases (p x)) [
  | inl hit ↦ rw (h x, hit) refl
  | inr miss ↦ rw (h x, miss) (find_by-map p f xs h)
]

pub load_or_404-found :
    (trip_id : ℕ) (store : Store) {trip : LoadedTrip}
    → load_or_404 trip_id store ≡ ok trip
    → find_by (is_live trip_id) store.trips ≡ some trip.trip
unfolding load_or_404 get_with_places load_places
load_or_404-found trip_id store {trip} e =
    elim (Option-cases (find_by (is_live trip_id) store.trips)) [
      | inl gone ↦ cc (rw gone at e)
      | inr (t, found) ↦ found ∙ ap (λ (l : LoadedTrip). some l.trip) (ok-eq-ok (rw found at e))
    ]

pub is_live-id : (trip_id : ℕ) (t : Trip) → is_live trip_id t ≡ true → t.id ≡ trip_id
is_live-id trip_id t h = ground arith
