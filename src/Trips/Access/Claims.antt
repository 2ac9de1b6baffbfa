-- ===== src/Trips/Access/Claims.antt =====
-- src/trips/service.py: the access rule as a description, and what claiming a trip changes.
use agentic_guide_system.Prelude.{
  ℕ, ◌≡◌, ◌≢◌, ◌↔◌, refl, ap, subst, inl, inr, String, Option, none, some, true, false, ◌&&◌, not,
  List, [], ◌∷◌, map, ◌==◌, ==_iff, str_eq, eq_iff, if◌then◌else◌, arith, Bool-cases, Option-cases,
  &&-eq-true,
}
use agentic_guide_system.Prelude.Result.{Result, ok, err}
use agentic_guide_system.Trips.{
  Trip, LoadedTrip, Store, TripError, trip_forbidden, trip_already_claimed, trip_not_found,
  assertion_failed,
}
use agentic_guide_system.Trips.Repository.{
  Session, find_by, is_live, load_places, get_with_places, load_or_404, commit, reload,
  mark_deleted, soft_delete, found_or,
}
use agentic_guide_system.Trips.Steps.{after_reading, reading-ok}
use agentic_guide_system.Trips.Found.{find_by-true, find_by-map, is_live-id, load_or_404-found}
use agentic_guide_system.Trips.Access.{
  matches_session, is_owner, is_unclaimed, assert_can_access, check_claim, set_owner, allowed_if,
  claim_for_user, claim_trip, get_for_access, soft_delete_for_user,
}

-- Who may access a trip.
pub data CanAccess (trip : Trip) : Option ℕ → Option String → Type 0 where
  as_owner :
      {u : ℕ} {session : Option String} → trip.user_id ≡ some u → CanAccess trip (some u) session
  as_guest :
      {session : String}
      → session ≢ ""
      → session ≡ trip.session_id
      → CanAccess trip none (some session)
  as_claimant :
      {u : ℕ} {session : String}
      → trip.user_id ≡ none
      → session ≢ ""
      → session ≡ trip.session_id
      → CanAccess trip (some u) (some session)

matches_session_iff :
    (session : String) (trip : Trip)
    → (matches_session (some session) trip ≡ true) ↔ ((session ≢ "") × (session ≡ trip.session_id))
unfolding matches_session
matches_session_iff session trip = ground (arith, eq_iff session "", eq_iff session trip.session_id)

passes :
    (trip : Trip) (user_id : Option ℕ) (session_id : Option String)
    → assert_can_access trip user_id session_id ≡ ok tt
    → CanAccess trip user_id session_id
unfolding assert_can_access matches_session
passes trip none none e = cc
passes trip none (some session) e = elim (Bool-cases (matches_session (some session) trip)) [
  | inl same ↦ let (filled, eq) = (matches_session_iff session trip).0 same in as_guest filled eq
  | inr other ↦ cc (rw other at e)
]
passes trip (some u) session_id e = elim (Bool-cases (is_owner trip.user_id u)) [
  | inl owner ↦ as_owner (owner_is trip.user_id u owner)
  | inr other ↦ claimant session_id (rw other at e)
]
  where
    owner_is : (owner : Option ℕ) (u : ℕ) → is_owner owner u ≡ true → owner ≡ some u
    owner_is none u h = cc
    owner_is (some o) u h = ap some ((==_iff o u).0 h)

    no_owner : (owner : Option ℕ) → is_unclaimed owner ≡ true → owner ≡ none
    no_owner none h = refl
    no_owner (some o) h = cc

    by_session :
        (session : Option String)
        → matches_session session trip ≡ true
        → trip.user_id ≡ none
        → CanAccess trip (some u) session
    by_session none same free = cc
    by_session (some session) same free =
        let (filled, eq) = (matches_session_iff session trip).0 same in as_claimant free filled eq

    claimant :
        (session : Option String)
        → allowed_if (is_unclaimed trip.user_id && matches_session session trip) ≡ ok tt
        → CanAccess trip (some u) session
    claimant session e =
        elim (Bool-cases (is_unclaimed trip.user_id && matches_session session trip)) [
          | inr miss ↦ cc (rw miss at e)
          | inl hit ↦
              let (free, same) =
                &&-eq-true (is_unclaimed trip.user_id) (matches_session session trip) hit in
              by_session session same (no_owner trip.user_id free)
        ]

lets_in :
    (trip : Trip) (user_id : Option ℕ) (session_id : Option String)
    → CanAccess trip user_id session_id
    → assert_can_access trip user_id session_id ≡ ok tt
unfolding assert_can_access
lets_in trip _ _ (as_owner {u} {session} owner) = rw (owner, (==_iff u u).1 refl) refl
lets_in trip _ _ (as_guest {session} filled same) =
    rw ((matches_session_iff session trip).1 (filled, same)) refl
lets_in trip _ _ (as_claimant {u} {session} free filled same) =
    rw (free, (matches_session_iff session trip).1 (filled, same)) refl

-- A caller passes the access check exactly where the description lets it in.
pub assert_can_access-CanAccess :
    (trip : Trip) (user_id : Option ℕ) (session_id : Option String)
    → (assert_can_access trip user_id session_id ≡ ok tt) ↔ CanAccess trip user_id session_id
assert_can_access-CanAccess trip user_id session_id =
    (passes trip user_id session_id, lets_in trip user_id session_id)

abbrev owned_by : ℕ → Trip → Trip
owned_by u t = record t { user_id = some u }

found_owner :
    (u : ℕ) (trip_id : ℕ) (trips : List Trip) (t : Trip)
    → find_by (is_live trip_id) trips ≡ some t
    → find_by (is_live trip_id) (map (λ x. if x.id == t.id then owned_by u x else x) trips)
      ≡ some (owned_by u t)
found_owner u trip_id trips t e =
    rw
      (
        find_by-map (is_live trip_id) (λ x. if x.id == t.id then owned_by u x else x) trips
            (λ x. ground arith),
        e,
        (==_iff t.id t.id).1 refl,
      )
      refl

-- The state after a claim: the trip was live and unclaimed in the caller's session, its owner is
-- committed, and nothing else changed.
pub record IsClaimed (trip_id user_id : ℕ) (session_id : String) (s s' : Session) : Type 0 where
  pub trip : Trip
  pub was_live : find_by (is_live trip_id) s.current.trips ≡ some trip
  pub was_free : trip.user_id ≡ none
  pub same_session : session_id ≡ trip.session_id
  pub written : s'.current ≡ set_owner trip.id user_id s.current
  pub stored : s'.committed ≡ s'.current
  pub owned :
      find_by (is_live trip_id) s'.current.trips ≡ some (record trip { user_id = some user_id })

check_claim-ok :
    (trip : Trip) (session_id : String)
    → check_claim trip session_id ≡ ok tt
    → (trip.user_id ≡ none) × (session_id ≡ trip.session_id)
unfolding check_claim
check_claim-ok trip session_id e = elim (Option-cases trip.user_id) [
  | inr (owner, taken) ↦ cc (rw taken at e)
  | inl free ↦ elim (Bool-cases (str_eq session_id trip.session_id)) [
    | inl same ↦ (free, (eq_iff session_id trip.session_id).0 same)
    | inr other ↦ cc (rw (free, other) at e)
  ]
]

pub claim_trip-IsClaimed :
    (trip_id user_id : ℕ) (session_id : String) (s : Session) {trip : LoadedTrip} {s' : Session}
    → claim_trip trip_id user_id session_id s ≡ (ok trip, s')
    → IsClaimed trip_id user_id session_id s s'
unfolding claim_trip claim_for_user commit reload set_owner
claim_trip-IsClaimed trip_id user_id session_id s {trip} {s'} e =
    let (l, loaded, e') = after_reading (load_or_404 trip_id) _ s e in
    let (_, checked, e'') = after_reading (λ store. check_claim l.trip session_id) _ s e' in
    let (free, same) = check_claim-ok l.trip session_id checked in
    let found = load_or_404-found trip_id s.current loaded in
    let after : Store = set_owner l.trip.id user_id s.current in
    let (_, ended) =
      reading-ok (λ store. found_or assertion_failed (get_with_places store l.trip.id))
        (record { committed = after; current = after }) e'' in
    subst (IsClaimed trip_id user_id session_id s) ended (record {
      trip = l.trip;
      was_live = found;
      was_free = free;
      same_session = same;
      written = refl;
      stored = refl;
      owned = found_owner user_id trip_id s.current.trips l.trip found;
    })

module _ (trip_id : ℕ) (s : Session) {t : Trip}
    (live : find_by (is_live trip_id) s.current.trips ≡ some t) where
  claim_refused :
      {owner : ℕ} (user_id : ℕ) (session_id : String)
      → t.user_id ≡ some owner
      → claim_trip trip_id user_id session_id s ≡ (err (trip_already_claimed trip_id), s)
  unfolding claim_trip claim_for_user load_or_404 get_with_places load_places check_claim
  claim_refused user_id session_id taken =
      rw (live, taken, is_live-id trip_id t (find_by-true (is_live trip_id) s.current.trips live))
        refl

  served_by_owner :
      {owner : ℕ} (user_id : ℕ) (session_id : Option String)
      → t.user_id ≡ some owner
      → get_for_access trip_id (some user_id) session_id s
        ≡ (if owner == user_id then (ok (load_places s.current t), s) else (err trip_forbidden, s))
  unfolding get_for_access load_or_404 get_with_places load_places assert_can_access
  served_by_owner {owner} user_id session_id taken = elim (Bool-cases (owner == user_id)) [
    | inl same ↦ rw (live, taken, same) refl
    | inr other ↦ rw (live, taken, other) refl
  ]

  served_to_guest :
      (session_id : String)
      → get_for_access trip_id none (some session_id) s ≡ (
          if not (str_eq session_id "") && str_eq session_id t.session_id
          then (ok (load_places s.current t), s)
          else (err trip_forbidden, s))
  unfolding get_for_access load_or_404 get_with_places load_places assert_can_access matches_session
  served_to_guest session_id =
      elim (Bool-cases (not (str_eq session_id "") && str_eq session_id t.session_id)) [
        | inl same ↦ rw (live, same) refl
        | inr other ↦ rw (live, other) refl
      ]

  refused_without_session : get_for_access trip_id none none s ≡ (err trip_forbidden, s)
  unfolding get_for_access load_or_404 get_with_places load_places assert_can_access matches_session
  refused_without_session = rw live refl

-- How a trip with an owner is served: every claim is refused as already claimed; the owner reads the
-- trip in any session, and any other signed-in user is refused in any session; a guest reads it in the
-- session of the trip and is refused in any other.
pub record IsOwned (trip_id owner : ℕ) (session_id : String) (s : Session) : Type 0 where
  pub claims :
      (user_id : ℕ) (session : String)
      → claim_trip trip_id user_id session s ≡ (err (trip_already_claimed trip_id), s)
  pub trip : LoadedTrip
  pub users :
      (user_id : ℕ) (session : Option String)
      → get_for_access trip_id (some user_id) session s
        ≡ (if owner == user_id then (ok trip, s) else (err trip_forbidden, s))
  pub guests :
      (session : String)
      → get_for_access trip_id none (some session) s ≡ (
          if not (str_eq session "") && str_eq session session_id
          then (ok trip, s)
          else (err trip_forbidden, s))
  pub strangers : get_for_access trip_id none none s ≡ (err trip_forbidden, s)

-- In the state after a claim that succeeded, every further claim is refused as already claimed. The
-- user reads the trip in any session, and every other signed-in user is refused in any session. A guest
-- still reads it in the session of the trip, and is refused in any other and without one.
pub claim_trip-IsOwned :
    (trip_id user_id : ℕ) (session_id : String) (s : Session) {trip : LoadedTrip} {s' : Session}
    → claim_trip trip_id user_id session_id s ≡ (ok trip, s')
    → IsOwned trip_id user_id session_id s'
claim_trip-IsOwned trip_id user_id session_id s {trip} {s'} e =
    let c = claim_trip-IsClaimed trip_id user_id session_id s e in
    record {
      claims = λ v session. claim_refused trip_id s' c.owned v session refl;
      trip = load_places s'.current (record c.trip { user_id = some user_id });
      users = λ v session. served_by_owner trip_id s' c.owned v session refl;
      guests = λ session. rw c.same_session (served_to_guest trip_id s' c.owned session);
      strangers = refused_without_session trip_id s' c.owned;
    }

deleted_gone :
    (trip_id : ℕ) (trips : List Trip)
    → find_by
        (is_live trip_id)
        (map (λ t. if is_live trip_id t then record t { is_deleted = true } else t) trips)
      ≡ none
unfolding find_by
deleted_gone trip_id [] = refl
deleted_gone trip_id (t ∷ ts) =
    let rest = deleted_gone trip_id ts in
    elim (Bool-cases (is_live trip_id t)) [
      | inl live ↦ rw live (rw (dead t) rest)
      | inr dead_before ↦ rw dead_before (rw dead_before rest)
    ]
  where
    dead : (t : Trip) → is_live trip_id (record t { is_deleted = true }) ≡ false
    dead t = ground arith

-- How a trip that is gone is served: reading, claiming and deleting it answer that it is not found.
pub record IsGone (trip_id : ℕ) (s : Session) : Type 0 where
  pub reads :
      (caller : Option ℕ) (session_id : Option String)
      → get_for_access trip_id caller session_id s ≡ (err (trip_not_found trip_id), s)
  pub claims :
      (user_id : ℕ) (session_id : String)
      → claim_trip trip_id user_id session_id s ≡ (err (trip_not_found trip_id), s)
  pub deletes :
      (user_id : ℕ) (session_id : Option String)
      → soft_delete_for_user trip_id user_id session_id s ≡ (err (trip_not_found trip_id), s)

missing-IsGone :
    (trip_id : ℕ) (s : Session)
    → find_by (is_live trip_id) s.current.trips ≡ none
    → IsGone trip_id s
unfolding get_for_access claim_trip soft_delete_for_user load_or_404 get_with_places
missing-IsGone trip_id s gone = record {
  reads = λ caller session_id. rw gone refl;
  claims = λ user_id session_id. rw gone refl;
  deletes = λ user_id session_id. rw gone refl;
}

-- A deletion by soft_delete_for_user that succeeds is committed, and the trip is gone afterwards: it
-- can be neither read nor claimed nor deleted again.
pub soft_delete_for_user-IsGone :
    (trip_id user_id : ℕ) (session_id : Option String) (s : Session) {s' : Session}
    → soft_delete_for_user trip_id user_id session_id s ≡ (ok tt, s')
    → (s'.committed ≡ s'.current) × IsGone trip_id s'
unfolding soft_delete_for_user soft_delete mark_deleted commit
soft_delete_for_user-IsGone trip_id user_id session_id s {s'} e =
    let (l, loaded, e') = after_reading (load_or_404 trip_id) _ s e in
    let (_, _, e'') =
      after_reading (λ store. assert_can_access l.trip (some user_id) session_id) _ s e' in
    let after : Store = mark_deleted trip_id s.current in
    let done : Session = record { committed = after; current = after } in
    let found = load_or_404-found trip_id s.current loaded in
    let ended : done ≡ s' =
      ap (λ (t : Result TripError (Unit {0}) × Session). t.1) (rw found at e'') in
    subst (λ t. (t.committed ≡ t.current) × IsGone trip_id t) ended
      (refl, missing-IsGone trip_id done (deleted_gone trip_id s.current.trips))
