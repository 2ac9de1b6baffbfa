-- ===== src/Trips/Access.antt =====
-- src/trips/service.py: who may read, claim and delete a trip.
pub mod Claims
use agentic_guide_system.Prelude.{
  ℕ, String, Option, none, some, Bool, true, false, not, ◌&&◌, map, ◌==◌, str_eq, if◌then◌else◌,
}
use agentic_guide_system.Prelude.Result.{Result, ok, err}
use agentic_guide_system.Trips.{
  Trip, LoadedTrip, Store, TripError, trip_forbidden, trip_already_claimed,
}
use agentic_guide_system.Trips.Repository.{
  Db, ◌>>=◌, reading, writing, commit, load_or_404, reload, soft_delete,
}

-- `session_id and session_id == trip.session_id`: an empty id never matches.
unfoldable pub matches_session : Option String → Trip → Bool
matches_session none trip = false
matches_session (some session_id) trip =
    not (str_eq session_id "") && str_eq session_id trip.session_id

abbrev pub is_owner : Option ℕ → ℕ → Bool
is_owner none user_id = false
is_owner (some owner) user_id = owner == user_id

abbrev pub is_unclaimed : Option ℕ → Bool
is_unclaimed none = true
is_unclaimed (some owner) = false

abbrev allowed_if : Bool → Result TripError (Unit {0})
allowed_if true = ok tt
allowed_if false = err trip_forbidden

unfoldable pub assert_can_access : Trip → Option ℕ → Option String → Result TripError (Unit {0})
unfolding matches_session
assert_can_access trip none session_id = allowed_if (matches_session session_id trip)
assert_can_access trip (some user_id) session_id =
    if is_owner trip.user_id user_id
    then ok tt
    else allowed_if (is_unclaimed trip.user_id && matches_session session_id trip)

-- The loaded trip, where the check passes.
abbrev pub given {ℓ} : {A : Type ℓ} → Result TripError (Unit {0}) → A → Result TripError A
given (ok _) a = ok a
given (err e) a = err e

unfoldable pub get_for_access : ℕ → Option ℕ → Option String → Db LoadedTrip
unfolding load_or_404 assert_can_access
get_for_access trip_id user_id session_id = do
  trip ← reading (load_or_404 trip_id)
  reading (λ store. given (assert_can_access trip.trip user_id session_id) trip)

unfoldable pub get_trip_or_404 : ℕ → Db LoadedTrip
unfolding load_or_404
get_trip_or_404 trip_id = reading (load_or_404 trip_id)

unfoldable pub soft_delete_for_user : ℕ → ℕ → Option String → Db (Unit {0})
unfolding load_or_404 assert_can_access soft_delete commit
soft_delete_for_user trip_id user_id session_id = do
  trip ← reading (load_or_404 trip_id)
  _ ← reading (λ store. assert_can_access trip.trip (some user_id) session_id)
  _ ← soft_delete trip_id
  commit

-- `trip.user_id = user_id`
unfoldable pub set_owner : ℕ → ℕ → Store → Store
set_owner trip_id user_id store = record store {
  trips = map (λ t. if t.id == trip_id then record t { user_id = some user_id } else t) store.trips;
}

-- The two guards of `claim_for_user`.
unfoldable pub check_claim : Trip → String → Result TripError (Unit {0})
check_claim trip session_id =
    if not (is_unclaimed trip.user_id)
    then err (trip_already_claimed trip.id)
    else if not (str_eq session_id trip.session_id)
    then err trip_forbidden
    else ok tt

unfoldable pub claim_for_user : Trip → ℕ → String → Db LoadedTrip
unfolding check_claim set_owner commit reload
claim_for_user trip user_id session_id = do
  _ ← reading (λ store. check_claim trip session_id)
  _ ← writing (set_owner trip.id user_id)
  _ ← commit
  reload trip.id

unfoldable pub claim_trip : ℕ → ℕ → String → Db LoadedTrip
unfolding load_or_404 claim_for_user
claim_trip trip_id user_id session_id = do
  trip ← reading (load_or_404 trip_id)
  claim_for_user trip.trip user_id session_id
