-- ===== src/Coordinator/Uploads/Provenance.antt =====
-- For internal/coordinator/measurement.go: the observation that a stored measurement comes from.
use vpsa_network_discovery.Prelude.{
  ℕ, suc, ◌+◌, ◌≡◌, refl, sym, ap, ◌∙◌, subst, ◌⊎◌, inl, inr, Bool, true, false, not, ◌||◌, Option,
  none, some, List, [], ◌∷◌, ◌++◌, Bytes, length, ◌==◌, if◌then◌else◌, arith,
}
use vpsa_network_discovery.Database.{Database, Measurement, WorkerState}
use vpsa_network_discovery.Sql.{Result, ok, err, Conn}
use vpsa_network_discovery.Sql.Table.{select}
use vpsa_network_discovery.Sql.Counting.{exists-select_and}
use vpsa_network_discovery.Registry.{active_keys, valid_keys}
use vpsa_network_discovery.Coordinator.Auth.Admission.{active_keys-found}
use vpsa_network_discovery.Observations.{Observation}
use vpsa_network_discovery.Coordinator.Leasing.{held_by}
use vpsa_network_discovery.Coordinator.Uploads.{
  UploadLibrary, UploadRequest, problem, accepted, held_rows, lookup, verify_obs, measurement_of,
  validate, upload_tx, after_keys, upload_observations,
}
use vpsa_network_discovery.Coordinator.Uploads.Held.{Held, lookup-held_rows, lookup-Held}
use vpsa_network_discovery.Coordinator.Uploads.Batches.{checked, Stores, upload-Stores}

-- A measurement is the one of an observation that a key of the worker verifies, of a well-formed
-- target, under an assignment that the worker holds.
pub record IsFrom (lib : UploadLibrary) (keys : List Bytes) (db : Database) (w : ℕ)
    (m : Measurement) (o : Observation) : Type 0 where
  pub signed : verify_obs lib keys o ≡ true
  pub address : lib.is_address o.target ≡ true
  pub held : Held db w o.assignment m.provider
  pub row : m ≡ measurement_of w o m.provider

-- An observation that no key of the worker verifies, whose target is ill-formed, or whose assignment
-- the worker does not hold.
abbrev pub IsRejected : UploadLibrary → List Bytes → Database → ℕ → Observation → Type 0
IsRejected lib keys db w o =
    (verify_obs lib keys o ≡ false)
    ⊎ (lib.is_address o.target ≡ false)
    ⊎ ((provider : ℕ) → Held db w o.assignment provider → ⊥)

-- A batch, its measurements and the number rejected: in the order of the batch, each observation is
-- either rejected or the next measurement is its own.
pub data Matches (lib : UploadLibrary) (keys : List Bytes) (db : Database) (w : ℕ)
    : List Observation → List Measurement → ℕ → Type 0 where
  done : Matches lib keys db w [] [] 0
  stores :
      (o : Observation) (os : List Observation) (m : Measurement) (ms : List Measurement) (n : ℕ)
      → IsFrom lib keys db w m o
      → Matches lib keys db w os ms n
      → Matches lib keys db w (o ∷ os) (m ∷ ms) n
  rejects :
      (o : Observation) (os : List Observation) (ms : List Measurement) (n : ℕ)
      → IsRejected lib keys db w o
      → Matches lib keys db w os ms n
      → Matches lib keys db w (o ∷ os) ms (suc n)

module _ (lib : UploadLibrary) (keys : List Bytes) (db : Database) (w : ℕ) where
  validate_total :
      (held : List (ℕ × ℕ)) (os : List Observation)
      → length (validate lib keys held w os).0 + (validate lib keys held w os).1 ≡ length os
  unfolding validate
  validate_total held [] = omega arith
  validate_total held (o ∷ os) = ground (arith, validate_total held os)

  validate-Matches :
      (os : List Observation)
      → Matches lib keys db w os
          (validate lib keys (held_rows db.assignments (select (held_by w) db.leases)) w os).0
          (validate lib keys (held_rows db.assignments (select (held_by w) db.leases)) w os).1
  unfolding validate
  validate-Matches [] = done
  validate-Matches (o ∷ os) =
      by_tests (validate-Matches os) (verify_obs lib keys o) refl (lib.is_address o.target) refl
        (lookup (held_rows db.assignments (select (held_by w) db.leases)) o.assignment) refl
    where
      before : List Measurement × ℕ
      before = validate lib keys (held_rows db.assignments (select (held_by w) db.leases)) w os

      tested : Bool → Bool → Option ℕ → List Measurement × ℕ
      tested b t p =
          if not b
          then (before.0, suc before.1)
          else if not t
          then (before.0, suc before.1)
          else elim p [
            | none ↦ (before.0, suc before.1)
            | some provider ↦ (measurement_of w o provider ∷ before.0, before.1)
          ]

      by_tests :
          Matches lib keys db w os before.0 before.1
          → (b : Bool) → verify_obs lib keys o ≡ b
          → (t : Bool) → lib.is_address o.target ≡ t
          → (p : Option ℕ)
          → lookup (held_rows db.assignments (select (held_by w) db.leases)) o.assignment ≡ p
          → Matches lib keys db w (o ∷ os) (tested b t p).0 (tested b t p).1
      by_tests a false v t u p q = rejects o os before.0 before.1 (inl v) a
      by_tests a true v false u p q = rejects o os before.0 before.1 (inr (inl u)) a
      by_tests a true v true u none q =
          rejects o os before.0 before.1 (inr (inr (lookup-Held db w o.assignment q))) a
      by_tests a true v true u (some provider) q =
          let (x, y) =
            lookup-held_rows db.assignments (select (held_by w) db.leases) o.assignment provider
              q in
          stores o os (measurement_of w o provider) before.0 before.1
            (record {
              signed = v;
              address = u;
              held = record {
                leased =
                    exists-select_and (λ l. l.assignment == o.assignment) (held_by w) db.leases x;
                assigned = y;
              };
              row = refl;
            })
            a

-- What an accepted reply says of its batch, with the number taken and the number rejected.
pub record IsAccounted (lib : UploadLibrary) (now w : ℕ) (req : UploadRequest) (db db' : Database)
    (a n : ℕ) : Type 0 where
  pub rows : List Measurement
  pub appended : db'.measurements ≡ db.measurements ++ rows
  pub counted : length rows ≡ a
  pub total : a + n ≡ length req.observations
  pub matched : Matches lib (valid_keys now w db.keys) db w req.observations rows n

tx-IsAccounted :
    (lib : UploadLibrary) (now w : ℕ) (req : UploadRequest) (keys : List Bytes) (db : Database)
    (c : Conn Database) (a n : ℕ)
    → c.db ≡ db
    → valid_keys now w db.keys ≡ keys
    → (upload_tx lib keys w req c).0 ≡ accepted a n
    → IsAccounted lib now w req db (upload_tx lib keys w req c).1.db a n
tx-IsAccounted lib now w req keys db c a n e k h =
    subst (λ (d : Database). IsAccounted lib now w req d (upload_tx lib keys w req c).1.db a n) e
      (record {
        rows = (checked lib keys w req c.db).0;
        appended = ap (λ (d : Database). d.measurements) s.leaves;
        counted = sym s.taken;
        total = omega (
          arith,
          s.taken,
          s.refused,
          validate_total lib keys c.db w
              (held_rows c.db.assignments (select (held_by w) c.db.leases)) req.observations,
        );
        matched =
            subst
              (λ (ks : List Bytes).
                Matches lib ks c.db w req.observations (checked lib keys w req c.db).0 n)
              (sym (ap (λ (d : Database). valid_keys now w d.keys) e ∙ k))
              (subst
                (λ (r : ℕ).
                  Matches lib keys c.db w req.observations (checked lib keys w req c.db).0 r)
                (sym s.refused) (validate-Matches lib keys c.db w req.observations));
      })
  where
    s : Stores lib keys w req c.db (upload_tx lib keys w req c).1.db a n
    s = upload-Stores lib keys w req c a n h

-- An upload that is accepted accounts for every observation of its batch, in order: either it is
-- rejected, and then no valid key of the worker verifies it, its target is ill-formed or the
-- worker has no live lease on its assignment, or the next measurement is its own, and then a valid
-- key verifies it, its target is well-formed and the worker has a live lease on its assignment.
-- The measurements are appended to those before, and the two numbers in the answer are theirs and
-- that of the rejected.
pub upload-IsAccounted :
    (lib : UploadLibrary) (now w : ℕ) (req : UploadRequest) (c : Conn Database) (a n : ℕ)
    → (upload_observations lib now w (some req) c).0 ≡ accepted a n
    → IsAccounted lib now w req c.db (upload_observations lib now w (some req) c).1.db a n
unfolding upload_observations after_keys
upload-IsAccounted lib now w req c a n h =
    by_guard (length req.batch_id == 0 || length req.observations == 0) h
  where
    got : Result (List Bytes × WorkerState)
    got = (active_keys now w c).0

    by_keys :
        (r : Result (List Bytes × WorkerState))
        → got ≡ r
        → (after_keys lib w req r (active_keys now w c).1).0 ≡ accepted a n
        → IsAccounted lib now w req c.db (after_keys lib w req r (active_keys now w c).1).1.db a n
    by_keys (err e) q k = cc
    by_keys (ok (keys, s)) q k =
        let ((row, f, t, v), same) = active_keys-found now w c keys s q in
        tx-IsAccounted lib now w req keys c.db (active_keys now w c).1 a n same v k

    by_guard :
        (b : Bool)
        → (if b then (problem 422, c) else after_keys lib w req got (active_keys now w c).1).0
          ≡ accepted a n
        → IsAccounted lib now w req c.db
            (if b then (problem 422, c) else after_keys lib w req got (active_keys now w c).1).1.db
            a
            n
    by_guard true k = cc
    by_guard false k = by_keys got refl k
