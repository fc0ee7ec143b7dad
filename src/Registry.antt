-- ===== src/Registry.antt =====
-- internal/registry/registry.go: enrollment tokens, keys, lifecycle, heartbeats and nonces. A
-- method is an action on the database; `now` is the transaction's now(), and what the method
-- draws at random (the token, the worker's uuid) is an argument.
pub mod Runs
pub mod Statements
pub mod Replay
pub mod Tokens
pub mod Quiet
pub mod Lifecycle
pub mod Keys
use vpsa_network_discovery.Prelude.{
  ℕ, ◌+◌, ◌≡◌, Bool, true, false, not, ◌&&◌, ◌||◌, Option, none, some, List, [], ◌∷◌, ◌++◌, Bytes,
  bytes_eq, ltb, leb, ◌==◌, if◌then◌else◌, is_none, some_and, none_or, map, length,
}
use mathlib.Core.List.{reverse}
use vpsa_network_discovery.Database.{
  Database, Worker, WorkerKey, Token, Nonce, TrustEvent, EventType, registered, key_rotated,
  state_set, WorkerState, pending, active, suspended, quarantined, retired, same_state,
}
use vpsa_network_discovery.Sql.{
  Result, ok, err, Error, db_error, bad_token, unknown_worker, bad_transition, bad_token_hash, M,
  exec, transact, pure, raise, ◌>>=◌, ◌>>◌, continue, recover,
}
use vpsa_network_discovery.Sql.Table.{select, update, delete, exists, find}

abbrev pub Action : Type 0 → Type 0
Action A = M Database A

abbrev pub is_worker : ℕ → Worker → Bool
is_worker w r = r.id == w

abbrev pub new_worker : ℕ → ℕ → Bytes → Worker
new_worker w operator name = record {
  id = w;
  operator = operator;
  name = name;
  state = pending;
  state_reason = [];
  software = [];
  source_asn = none;
  approved_at = none;
  retired_at = none;
  last_heartbeat = none;
  rotate_requested = false;
}

-- insert into registry.worker; the id is the primary key
unfoldable pub insert_worker : Worker → Database → Result (Unit {0} × Database)
insert_worker r db =
    if exists (is_worker r.id) db.workers
    then err db_error
    else ok (tt, record db { workers = db.workers ++ r ∷ [] })

abbrev pub has_hash : Bytes → Token → Bool
has_hash h t = bytes_eq t.token_hash h

-- insert into registry.enrollment_token; the hash is the primary key
unfoldable pub insert_token : Token → Database → Result (Unit {0} × Database)
insert_token t db =
    if exists (has_hash t.token_hash) db.tokens
    then err db_error
    else ok (tt, record db { tokens = db.tokens ++ t ∷ [] })

-- insert into registry.trust_event; the worker is a foreign key
unfoldable pub insert_event : ℕ → EventType → ℕ → Database → Result (Unit {0} × Database)
insert_event w e now db =
    if exists (is_worker w) db.workers
    then ok (
      tt,
      record db {
        events = db.events ++ record { worker = w; event_type = e; created_at = now } ∷ [];
      },
    )
    else err db_error

abbrev pub is_current : ℕ → WorkerKey → Bool
is_current w k = k.worker == w && is_none k.valid_until && is_none k.revoked_at

-- insert into registry.worker_key, under the unique index one_current_key
unfoldable pub insert_key : ℕ → Bytes → ℕ → Database → Result (Unit {0} × Database)
insert_key w pub_key now db =
    if exists (is_current w) db.keys || not (exists (is_worker w) db.workers)
    then err db_error
    else ok (
      tt,
      record db {
        keys =
            db.keys
            ++ record {
              worker = w;
              public_key = pub_key;
              valid_from = now;
              valid_until = none;
              revoked_at = none;
            }
              ∷ [];
      },
    )

unfoldable pub update_workers :
    (Worker → Bool) → (Worker → Worker) → Database → Result (Unit {0} × Database)
update_workers p f db = ok (tt, record db { workers = update p f db.workers })

unfoldable pub update_keys :
    (WorkerKey → Bool) → (WorkerKey → WorkerKey) → Database → Result (Unit {0} × Database)
update_keys p f db = ok (tt, record db { keys = update p f db.keys })

-- update … where id = w returning …; no row is an error
unfoldable pub update_worker_returning :
    ℕ → (Worker → Worker) → Database → Result (Worker × Database)
update_worker_returning w f db = elim (find (is_worker w) db.workers) [
  | none ↦ err unknown_worker
  | some r ↦ ok (f r, record db { workers = update (is_worker w) f db.workers })
]

-- CreateWorker. `clock` is the program's own time.Now().
unfoldable pub create_worker : (Bytes → Bytes) → ℕ → ℕ → Bytes → ℕ → Bytes → ℕ → Action (ℕ × Bytes)
unfolding insert_worker insert_token
create_worker sha256 w operator name clock token ttl = transact (do
  exec (insert_worker (new_worker w operator name))
  exec (
      insert_token (record {
        token_hash = sha256 token;
        worker = w;
        expires_at = clock + ttl;
        used_at = none;
      }))
  pure (w, token))

abbrev pub redeemable : ℕ → Bytes → Token → Bool
redeemable now h t = bytes_eq t.token_hash h && is_none t.used_at && ltb now t.expires_at

-- update registry.enrollment_token set used_at = now() where … returning worker_id
unfoldable pub redeem : ℕ → Bytes → Database → Result (ℕ × Database)
redeem now h db = elim (find (redeemable now h) db.tokens) [
  | none ↦ err bad_token
  | some t ↦ ok (
    t.worker,
    record db {
      tokens = update (redeemable now h) (λ u. record u { used_at = some now }) db.tokens;
    },
  )
]

-- Register
unfoldable pub register : (Bytes → Bytes) → ℕ → Bytes → Bytes → Bytes → Action (ℕ × WorkerState)
unfolding redeem insert_key update_worker_returning insert_event
register sha256 now token pub_key software = transact (do
  w ← exec (redeem now (sha256 token))
  exec (insert_key w pub_key now)
  r ← exec (update_worker_returning w (λ r. record r { software = software }))
  exec (insert_event w registered now)
  pure (w, r.state))

-- transitions
abbrev pub transitions : WorkerState → List WorkerState
transitions pending = active ∷ suspended ∷ retired ∷ []
transitions active = suspended ∷ quarantined ∷ retired ∷ []
transitions suspended = active ∷ retired ∷ []
transitions quarantined = active ∷ suspended ∷ retired ∷ []
transitions retired = []

-- The loop over `transitions[current]`. The name asked for may be of no state.
unfoldable pub allowed : WorkerState → Option WorkerState → Bool
allowed current none = false
allowed current (some new) = exists (same_state new) (transitions current)

unfoldable pub select_state : ℕ → Database → Result (WorkerState × Database)
select_state w db = elim (find (is_worker w) db.workers) [
  | none ↦ err unknown_worker
  | some r ↦ ok (r.state, db)
]

abbrev pub with_state : WorkerState → WorkerState → Bytes → ℕ → Worker → Worker
with_state current new reason now r = record r {
  state = new;
  state_reason = reason;
  approved_at =
      if same_state new active && same_state current pending then some now else r.approved_at;
  retired_at = if same_state new retired then some now else r.retired_at;
}

abbrev pub revocable : ℕ → WorkerKey → Bool
revocable w k = k.worker == w && is_none k.revoked_at

-- The statements behind the check of the transition.
unfoldable pub move_worker : ℕ → ℕ → WorkerState → WorkerState → Bytes → Action (Unit {0})
unfolding update_workers update_keys insert_event
move_worker now w current new reason = do
  exec (update_workers (is_worker w) (with_state current new reason now))
  if same_state new retired
      then exec (update_keys (revocable w) (λ k. record k { revoked_at = some now }))
      else pure tt
  exec (insert_event w (state_set current new) now)

unfoldable pub check_transition :
    ℕ → ℕ → WorkerState → Option WorkerState → Bytes → Action (Unit {0})
unfolding move_worker
check_transition now w current none reason = raise bad_transition
check_transition now w current (some new) reason =
    if allowed current (some new)
    then move_worker now w current new reason
    else raise bad_transition

-- SetState
unfoldable pub set_state : ℕ → ℕ → Option WorkerState → Bytes → Action (Unit {0})
unfolding select_state check_transition
set_state now w new reason =
    transact (do current ← exec (select_state w); check_transition now w current new reason)

-- Heartbeat
unfoldable pub heartbeat : ℕ → ℕ → Bytes → Action Worker
unfolding update_worker_returning
heartbeat now w software =
    exec
      (update_worker_returning w (λ r. record r { last_heartbeat = some now; software = software }))

-- The `where` of ActiveKeys.
abbrev pub is_valid_key : ℕ → ℕ → WorkerKey → Bool
is_valid_key now w k =
    k.worker == w
    && (is_none k.revoked_at && (leb k.valid_from now && none_or k.valid_until (ltb now)))

-- The keys of a worker that verify at a time, newest first: rows of another length are skipped.
unfoldable pub valid_keys : ℕ → ℕ → List WorkerKey → List Bytes
valid_keys now w ks =
    reverse
      (map (λ k. k.public_key) (select (λ k. is_valid_key now w k && length k.public_key == 32) ks))

unfoldable pub found_keys :
    WorkerState → List Bytes → Database → Result ((List Bytes × WorkerState) × Database)
found_keys s [] db = err unknown_worker
found_keys s (k ∷ ks) db = ok ((k ∷ ks, s), db)

unfoldable pub select_keys : ℕ → ℕ → Database → Result ((List Bytes × WorkerState) × Database)
unfolding found_keys
select_keys now w db = elim (find (is_worker w) db.workers) [
  | none ↦ err unknown_worker
  | some r ↦ found_keys r.state (valid_keys now w db.keys) db
]

-- ActiveKeys
unfoldable pub active_keys : ℕ → ℕ → Action (List Bytes × WorkerState)
unfolding select_keys
active_keys now w = exec (select_keys now w)

abbrev pub expire_key : ℕ → WorkerKey → WorkerKey
expire_key until k = record k { valid_until = some until }

-- RotateKey
unfoldable pub rotate_key : ℕ → ℕ → Bytes → ℕ → Action (Unit {0})
unfolding update_keys insert_key update_workers insert_event
rotate_key now w next_pub overlap = transact (do
  exec (update_keys (is_current w) (expire_key (now + overlap)))
  exec (insert_key w next_pub now)
  exec (update_workers (is_worker w) (λ r. record r { rotate_requested = false }))
  exec (insert_event w key_rotated now))

unfoldable pub flag_rotation : ℕ → Database → Result (Unit {0} × Database)
flag_rotation w db =
    if exists (is_worker w) db.workers
    then ok (
      tt,
      record db {
        workers = update (is_worker w) (λ r. record r { rotate_requested = true }) db.workers;
      },
    )
    else err unknown_worker

-- RequestRotation
unfoldable pub request_rotation : ℕ → Action (Unit {0})
unfolding flag_rotation
request_rotation w = exec (flag_rotation w)

abbrev pub is_nonce : ℕ → Bytes → Nonce → Bool
is_nonce w n r = r.worker == w && bytes_eq r.nonce n

-- insert … on conflict do nothing: whether no row went in
unfoldable pub insert_nonce : ℕ → ℕ → Bytes → Database → Result (Bool × Database)
insert_nonce now w n db =
    if exists (is_nonce w n) db.nonces
    then ok (true, db)
    else if exists (is_worker w) db.workers
    then ok (
      false,
      record db { nonces = db.nonces ++ record { worker = w; nonce = n; seen_at = now } ∷ [] },
    )
    else err db_error

-- SeenNonce
unfoldable pub seen_nonce : ℕ → ℕ → Bytes → Action Bool
unfolding insert_nonce
seen_nonce now w n = exec (insert_nonce now w n)

-- PruneNonces: seen_at < now() - window
unfoldable pub prune_nonces : ℕ → ℕ → Action (Unit {0})
prune_nonces now window =
    exec
      (λ db. ok (tt, record db { nonces = delete (λ r. ltb (r.seen_at + window) now) db.nonces }))

unfoldable pub insert_worker_once : Worker → Database → Result (Bool × Database)
insert_worker_once r db =
    if exists (is_worker r.id) db.workers
    then ok (false, db)
    else ok (true, record db { workers = db.workers ++ r ∷ [] })

unfoldable pub insert_token_once : Token → Database → Result (Unit {0} × Database)
insert_token_once t db =
    if exists (has_hash t.token_hash) db.tokens
    then ok (tt, db)
    else ok (tt, record db { tokens = db.tokens ++ t ∷ [] })

-- IngestEnrollment, given the decoded hash (none: it is not hexadecimal)
unfoldable pub ingest_enrollment : ℕ → ℕ → Bytes → Option Bytes → ℕ → Action Bool
unfolding insert_worker_once insert_token_once
ingest_enrollment w operator name none expires_at = raise bad_token_hash
ingest_enrollment w operator name (some hash) expires_at =
    if length hash == 32
    then transact (do
      created ← exec (insert_worker_once (new_worker w operator name))
      exec (
          insert_token_once
            (record { token_hash = hash; worker = w; expires_at = expires_at; used_at = none }))
      pure created)
    else raise bad_token_hash

unfoldable pub is_named : WorkerState → Option WorkerState → Bool
is_named s none = false
is_named s (some t) = same_state s t

-- ApplyDecision: any failure to read the state is an unknown worker
unfoldable pub apply_decision : ℕ → ℕ → Option WorkerState → Bytes → Action (Unit {0})
unfolding select_state is_named
apply_decision now w state reason = do
  current ← recover unknown_worker (exec (select_state w))
  if is_named current state then pure tt else set_state now w state reason

-- RecordTrustEvent: the outcome of the insert is ignored
unfoldable pub record_trust_event : ℕ → ℕ → EventType → Action (Unit {0})
unfolding insert_event
record_trust_event now w e c = (ok tt, (exec (insert_event w e now) c).1)
