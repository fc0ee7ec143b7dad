-- ===== src/Coordinator/Uploads.antt =====
-- internal/coordinator/measurement.go: the upload of a batch of observations.
pub mod Batches
pub mod Held
pub mod Provenance
pub mod Once
use vpsa_network_discovery.Prelude.{
  ℕ, zero, suc, ◌+◌, ◌≡◌, Bool, true, false, not, ◌&&◌, ◌||◌, Option, none, some, List, [], ◌∷◌,
  ◌++◌, Bytes, length, ◌==◌, if◌then◌else◌, is_none, map,
}
use vpsa_network_discovery.Database.{
  Database, Assignment, Lease, Measurement, UploadBatch, WorkerState,
}
use vpsa_network_discovery.Sql.{Result, ok, err, db_error, M, Conn, exec, pure, close, ◌>>=◌, ◌>>◌}
use vpsa_network_discovery.Sql.Table.{select, exists, find}
use vpsa_network_discovery.Registry.{active_keys}
use vpsa_network_discovery.Observations.{
  Observation, Codec, Verdict, verify, verified, unsigned, bad_encoding, bad_json, bad_signature,
}
use vpsa_network_discovery.Coordinator.Leasing.{held_by, has_id}

-- What the handler takes from the Go library: Verify of an observation, netip.ParseAddr (only
-- whether it succeeds), and the cast of the batch id to a uuid, which is PostgreSQL's.
pub record UploadLibrary : Type 0 where
  pub codec : Codec
  pub is_address : Bytes → Bool
  pub parse_uuid : Bytes → Option ℕ

-- uploadRequest
pub record UploadRequest : Type 0 where
  pub batch_id : Bytes
  pub observations : List Observation

pub data UploadReply : Type 0 where
  problem : ℕ → UploadReply
  duplicate : UploadReply
  accepted : ℕ → ℕ → UploadReply

abbrev pub is_batch : ℕ → UploadBatch → Bool
is_batch b r = r.batch == b

-- insert … on conflict (batch_id) do nothing; the number of rows affected
unfoldable pub insert_batch : Option ℕ → ℕ → ℕ → Database → Result (Bool × Database)
insert_batch none w n db = err db_error
insert_batch (some b) w n db =
    if exists (is_batch b) db.batches
    then ok (false, db)
    else ok (
      true,
      record db { batches = db.batches ++ record { batch = b; worker = w; observations = n } ∷ [] },
    )

-- The rows of the assignments that the worker holds, with their providers.
unfoldable pub held_rows : List Assignment → List Lease → List (ℕ × ℕ)
held_rows as_ [] = []
held_rows as_ (l ∷ ls) =
    let rest = held_rows as_ ls in
    elim (find (has_id l.assignment) as_) [ none ↦ rest | some a ↦ (a.id, a.provider) ∷ rest ]

unfoldable pub select_held : ℕ → Database → Result (List (ℕ × ℕ) × Database)
unfolding held_rows
select_held w db = ok (held_rows db.assignments (select (held_by w) db.leases), db)

-- held[id]: the map is filled row by row, so the last row of an id counts.
unfoldable pub lookup : List (ℕ × ℕ) → ℕ → Option ℕ
lookup [] id = none
lookup (r ∷ rs) id =
    let later = lookup rs id in if is_none later && r.0 == id then some r.1 else later

unfoldable pub passes : Verdict → Bool
passes verified = true
passes unsigned = false
passes bad_encoding = false
passes bad_json = false
passes bad_signature = false

-- verifyObs: some key of the worker verifies the observation.
unfoldable pub verify_obs : UploadLibrary → List Bytes → Observation → Bool
unfolding passes
verify_obs lib [] o = false
verify_obs lib (k ∷ ks) o = passes (verify lib.codec o k) || verify_obs lib ks o

unfoldable pub measurement_of : ℕ → Observation → ℕ → Measurement
measurement_of w o provider = record {
  worker = w;
  assignment = o.assignment;
  provider = provider;
  target = o.target;
  ok = o.ok;
}

-- The loop of the validation: the rows to store, and the number rejected.
unfoldable pub validate :
    UploadLibrary → List Bytes → List (ℕ × ℕ) → ℕ → List Observation → List Measurement × ℕ
unfolding verify_obs measurement_of
validate lib keys held w [] = ([], 0)
validate lib keys held w (o ∷ os) =
    let (rows, rejected) = validate lib keys held w os in
    if not (verify_obs lib keys o)
    then (rows, suc rejected)
    else if not (lib.is_address o.target)
    then (rows, suc rejected)
    else elim (lookup held o.assignment) [
      | none ↦ (rows, suc rejected)
      | some provider ↦ (measurement_of w o provider ∷ rows, rejected)
    ]

-- CopyFrom
unfoldable pub copy_rows : List Measurement → Database → Result (Unit {0} × Database)
copy_rows rows db = ok (tt, record db { measurements = db.measurements ++ rows })

pub data Outcome : Type 0 where
  known : Outcome
  stored : ℕ → ℕ → Outcome

-- if len(accepted) > 0
unfoldable pub copy_any : List Measurement → M Database (Unit {0})
unfolding copy_rows
copy_any [] = pure tt
copy_any (r ∷ rows) = exec (copy_rows (r ∷ rows))

unfoldable pub store : ℕ → List Measurement × ℕ → M Database Outcome
unfolding copy_any
store w (rows, rejected) = do copy_any rows; pure (stored (length rows) rejected)

unfoldable pub upload_body : UploadLibrary → List Bytes → ℕ → UploadRequest → M Database Outcome
unfolding insert_batch select_held validate store
upload_body lib keys w req = do
  fresh ← exec (insert_batch (lib.parse_uuid req.batch_id) w (length req.observations))
  if fresh
      then exec (select_held w) >>= (λ held. store w (validate lib keys held w req.observations))
      else pure known

-- The reply, by what the body did and what Commit said; for a known batch that is ignored.
unfoldable pub upload_reply : Result Outcome → Result Outcome → UploadReply
upload_reply (ok known) r = duplicate
upload_reply (ok (stored a n)) (ok o) = accepted a n
upload_reply (ok (stored a n)) (err e) = problem 500
upload_reply (err e) r = problem 500

unfoldable pub upload_run :
    UploadLibrary → List Bytes → ℕ → UploadRequest → Conn Database → UploadReply × Conn Database
unfolding upload_body upload_reply
upload_run lib keys w req c =
    let (r, c') = upload_body lib keys w req c in
    let (r', c'') = close c.db r c' in (upload_reply r r', c'')

-- Begin, which may fail, and the rest.
unfoldable pub upload_tx :
    UploadLibrary → List Bytes → ℕ → UploadRequest → Conn Database → UploadReply × Conn Database
unfolding upload_run
upload_tx lib keys w req c = elim c.faults [
  | [] ↦ upload_run lib keys w req c
  | failed ∷ fs ↦
      if failed
      then (problem 500, record { db = c.db; faults = fs })
      else upload_run lib keys w req (record { db = c.db; faults = fs })
]

unfoldable pub after_keys :
    UploadLibrary
    → ℕ
    → UploadRequest
    → Result (List Bytes × WorkerState)
    → Conn Database
    → UploadReply × Conn Database
unfolding upload_tx
after_keys lib w req (err e) c = (problem 401, c)
after_keys lib w req (ok (keys, s)) c = upload_tx lib keys w req c

-- uploadObservations, behind the authentication of the worker `w`; the request is `none` where
-- the body does not decode.
unfoldable pub upload_observations :
    UploadLibrary → ℕ → ℕ → Option UploadRequest → Conn Database → UploadReply × Conn Database
unfolding after_keys
upload_observations lib now w none c = (problem 400, c)
upload_observations lib now w (some req) c =
    let (r, c') = active_keys now w c in
    if length req.batch_id == 0 || length req.observations == 0
    then (problem 422, c)
    else after_keys lib w req r c'
