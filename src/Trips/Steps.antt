-- ===== src/Trips/Steps.antt =====
-- What a method of src/trips/service.py that gives a value went through, step by step.
use agentic_guide_system.Prelude.{◌≡◌, refl, ap}
use agentic_guide_system.Prelude.Result.{Result, ok, err}
use agentic_guide_system.Trips.{Store, TripError}
use agentic_guide_system.Trips.Repository.{
  Db, Session, ◌>>=◌, continue, reading, or_rollback, undone,
}

module _ {A B : Type 0} where
  -- The steps of a block that gives a value.
  pub record Steps (first : Db A) (rest : A → Db B) (s : Session) (b : B) (s' : Session)
      : Type 0 where
    pub value : A
    pub between : Session
    pub ran : first s ≡ (ok value, between)
    pub went_on : rest value between ≡ (ok b, s')

  continue-ok :
      (first : Db A) (rest : A → Db B) (s : Session) {b : B} {s' : Session}
      (out : Result TripError A × Session)
      → first s ≡ out
      → continue out rest ≡ (ok b, s')
      → Steps first rest s b s'
  continue-ok first rest s (ok a, mid) ran e = record {
    value = a;
    between = mid;
    ran = ran;
    went_on = e;
  }
  continue-ok first rest s (err x, mid) ran e = cc

  pub >>=-Steps :
      (first : Db A) (rest : A → Db B) (s : Session) {b : B} {s' : Session}
      → (first >>= rest) s ≡ (ok b, s')
      → Steps first rest s b s'
  >>=-Steps first rest s e = continue-ok first rest s (first s) refl e

  read_ok :
      (rest : A → Db B) (s : Session) {b : B} {s' : Session} (out : Result TripError A)
      → continue (out, s) rest ≡ (ok b, s')
      → (a : A) × (out ≡ ok a) × (rest a s ≡ (ok b, s'))
  read_ok rest s (ok a) e = (a, refl, e)
  read_ok rest s (err x) e = cc

  -- A block that starts by reading gave a value, and the rest ran in the same session.
  pub after_reading :
      (f : Store → Result TripError A) (rest : A → Db B) (s : Session) {b : B} {s' : Session}
      → (reading f >>= rest) s ≡ (ok b, s')
      → (a : A) × (f s.current ≡ ok a) × (rest a s ≡ (ok b, s'))
  after_reading f rest s e = read_ok rest s (f s.current) e

module _ {A : Type 0} where
  -- A step that reads leaves the session alone.
  pub reading-ok :
      (f : Store → Result TripError A) (s : Session) {a : A} {s' : Session}
      → reading f s ≡ (ok a, s')
      → (f s.current ≡ ok a) × (s ≡ s')
  reading-ok f s e = (
    ap (λ (t : Result TripError A × Session). t.0) e,
    ap (λ (t : Result TripError A × Session). t.1) e,
  )

  undone-ok :
      (out : Result TripError A × Session) {a : A} {s' : Session}
      → undone out ≡ (ok a, s')
      → out ≡ (ok a, s')
  undone-ok (ok a, mid) e = e
  undone-ok (err x, mid) e = cc

  pub or_rollback-ok :
      (body : Db A) (s : Session) {a : A} {s' : Session}
      → or_rollback body s ≡ (ok a, s')
      → body s ≡ (ok a, s')
  or_rollback-ok body s e = undone-ok (body s) e
