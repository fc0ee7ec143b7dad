-- ===== src/Registry/Quiet.antt =====
-- For internal/registry/registry.go: the states of workers, statement by statement.
use vpsa_network_discovery.Prelude.{
  ℕ, ◌≡◌, refl, Bool, true, Option, none, some, List, [], ◌∷◌, ◌++◌, Bytes, arith,
}
use vpsa_network_discovery.Database.{
  Database, Worker, WorkerKey, Token, EventType, registered, key_rotated, WorkerState,
}
use vpsa_network_discovery.Sql.{ok, Conn, exec}
use vpsa_network_discovery.Sql.Keeps.{
  Keeps, Keeps-exec, Keeps-raise, Keeps-bind, Keeps-pure, Keeps-transact, keeps_rules,
}
use vpsa_network_discovery.Sql.Table.{update, find, find-append, find-update}
use vpsa_network_discovery.Registry.{
  create_worker, register, heartbeat, rotate_key, request_rotation, seen_nonce, prune_nonces,
  ingest_enrollment, record_trust_event, active_keys, is_worker, insert_worker, insert_token,
  insert_event, insert_key, update_workers, update_worker_returning, redeem, flag_rotation,
  insert_nonce, insert_worker_once, insert_token_once, update_keys, select_keys, found_keys,
}
use vpsa_network_discovery.Registry.Runs.{
  Call, creates, registers, sets_state, beats, reads_keys, rotates, requests_rotation, sees_nonce,
  prunes, ingests, decides, records, perform,
}

-- The state of a worker, if it is registered.
abbrev pub state_of : ℕ → List Worker → Option WorkerState
state_of w ws = elim (find (is_worker w) ws) [ none ↦ none | some r ↦ some r.state ]

pub state_of-append :
    (w : ℕ) (ws ys : List Worker) (s : WorkerState)
    → state_of w ws ≡ some s
    → state_of w (ws ++ ys) ≡ some s
state_of-append w ws ys s h = ground (arith, find-append (is_worker w) ws ys)

state_of-update :
    (w v : ℕ) (f : Worker → Worker) (ws : List Worker) (s : WorkerState)
    → ((r : Worker) → (f r).id ≡ r.id)
    → ((r : Worker) → (f r).state ≡ r.state)
    → state_of w ws ≡ some s
    → state_of w (update (is_worker v) f ws) ≡ some s
state_of-update w v f ws s same_id same h = state_at (find (is_worker w) ws) refl
  where
    state_at :
        (o : Option Worker)
        → find (is_worker w) ws ≡ o
        → state_of w (update (is_worker v) f ws) ≡ some s
    state_at none e = ground (arith, h)
    state_at (some r) e =
        ground
          (arith, h, same r, find-update (is_worker w) (is_worker v) f ws (λ x. rw (same_id x)))

select_keys_reads :
    (now v : ℕ) (db : Database) (a : List Bytes × WorkerState) (db' : Database)
    → select_keys now v db ≡ ok (a, db')
    → db' ≡ db
unfolding select_keys found_keys
select_keys_reads now v db a db' e = ground arith

-- The calls that do not ask for a change of state.
abbrev pub Quiet : Call → Type 0
Quiet (sets_state now v new reason) = ⊥
Quiet (decides now v state reason) = ⊥
Quiet _ = Unit

-- Every call but a change of state leaves the state of every worker alone.
abbrev pub In : ℕ → WorkerState → Database → Type 0
In w s db = state_of w db.workers ≡ some s

module _ (w : ℕ) (s : WorkerState) where
  insert_worker-In : (r : Worker) → Keeps (In w s) (exec (insert_worker r))
  unfolding insert_worker
  insert_worker-In r =
      Keeps-exec _ λ db a db' h e. ground (arith, state_of-append w db.workers (r ∷ []) s h)

  insert_worker_once-In : (r : Worker) → Keeps (In w s) (exec (insert_worker_once r))
  unfolding insert_worker_once
  insert_worker_once-In r =
      Keeps-exec _ λ db a db' h e. ground (arith, state_of-append w db.workers (r ∷ []) s h)

  insert_token-In : (t : Token) → Keeps (In w s) (exec (insert_token t))
  unfolding insert_token
  insert_token-In t = Keeps-exec _ λ db a db' h e. ground arith

  insert_token_once-In : (t : Token) → Keeps (In w s) (exec (insert_token_once t))
  unfolding insert_token_once
  insert_token_once-In t = Keeps-exec _ λ db a db' h e. ground arith

  insert_event-In : (v : ℕ) (t : EventType) (now : ℕ) → Keeps (In w s) (exec (insert_event v t now))
  unfolding insert_event
  insert_event-In v t now = Keeps-exec _ λ db a db' h e. ground arith

  insert_key-In : (v : ℕ) (k : Bytes) (now : ℕ) → Keeps (In w s) (exec (insert_key v k now))
  unfolding insert_key
  insert_key-In v k now = Keeps-exec _ λ db a db' h e. ground arith

  update_keys-In :
      (p : WorkerKey → Bool) (f : WorkerKey → WorkerKey) → Keeps (In w s) (exec (update_keys p f))
  unfolding update_keys
  update_keys-In p f = Keeps-exec _ λ db a db' h e. ground arith

  redeem-In : (now : ℕ) (h : Bytes) → Keeps (In w s) (exec (redeem now h))
  unfolding redeem
  redeem-In now hash = Keeps-exec _ λ db a db' h e. ground arith

  select_keys-In : (now v : ℕ) → Keeps (In w s) (exec (select_keys now v))
  unfolding select_keys found_keys
  select_keys-In now v =
      Keeps-exec _ λ db a db' h e. ground (arith, select_keys_reads now v db a db' e)

  insert_nonce-In : (now v : ℕ) (n : Bytes) → Keeps (In w s) (exec (insert_nonce now v n))
  unfolding insert_nonce
  insert_nonce-In now v n = Keeps-exec _ λ db a db' h e. ground arith

  prune-In : (now window : ℕ) → Keeps (In w s) (prune_nonces now window)
  unfolding prune_nonces
  prune-In now window = Keeps-exec _ λ db a db' h e. ground arith

  flag-In : (v : ℕ) → Keeps (In w s) (exec (flag_rotation v))
  unfolding flag_rotation
  flag-In v = Keeps-exec _ λ db a db' h e. ground (
    arith,
    state_of-update w v (λ r. record r { rotate_requested = true }) db.workers s (λ r. refl)
        (λ r. refl) h,
  )

  module _ (v : ℕ) (f : Worker → Worker) (same_id : (r : Worker) → (f r).id ≡ r.id)
      (same : (r : Worker) → (f r).state ≡ r.state) where
    update_worker-In : Keeps (In w s) (exec (update_worker_returning v f))
    unfolding update_worker_returning
    update_worker-In =
        Keeps-exec _
          λ db a db' h e. ground (arith, state_of-update w v f db.workers s same_id same h)

    update_workers-In : Keeps (In w s) (exec (update_workers (is_worker v) f))
    unfolding update_workers
    update_workers-In =
        Keeps-exec _
          λ db a db' h e. ground (arith, state_of-update w v f db.workers s same_id same h)

  create_worker-In :
      (sha256 : Bytes → Bytes) (v operator : ℕ) (name : Bytes) (clock : ℕ) (token : Bytes) (ttl : ℕ)
      → Keeps (In w s) (create_worker sha256 v operator name clock token ttl)
  unfolding create_worker
  create_worker-In sha256 v operator name clock token ttl =
      search (keeps_rules, insert_worker-In, insert_token-In) depth 9

  register-In :
      (sha256 : Bytes → Bytes) (now : ℕ) (token pub_key software : Bytes)
      → Keeps (In w s) (register sha256 now token pub_key software)
  unfolding register
  register-In sha256 now token pub_key software = Keeps-transact _ (
      Keeps-bind _ _ (redeem-In now (sha256 token)) λ v.
        Keeps-bind _ _ (insert_key-In v pub_key now) λ _.
          Keeps-bind _ _ (update_worker-In v _ (λ r. refl) (λ r. refl))
            λ r. Keeps-bind _ _ (insert_event-In v registered now) λ _. Keeps-pure _)

  heartbeat-In : (now v : ℕ) (software : Bytes) → Keeps (In w s) (heartbeat now v software)
  unfolding heartbeat
  heartbeat-In now v software = update_worker-In v _ (λ r. refl) (λ r. refl)

  rotate_key-In :
      (now v : ℕ) (k : Bytes) (overlap : ℕ) → Keeps (In w s) (rotate_key now v k overlap)
  unfolding rotate_key
  rotate_key-In now v k overlap = Keeps-transact _ (
      Keeps-bind _ _ (update_keys-In _ _) λ _. Keeps-bind _ _ (insert_key-In v k now) λ _.
        Keeps-bind _ _ (update_workers-In v _ (λ r. refl) (λ r. refl))
          λ _. insert_event-In v key_rotated now)

  ingest-In :
      (v operator : ℕ) (name : Bytes) (hash : Option Bytes) (expires : ℕ)
      → Keeps (In w s) (ingest_enrollment v operator name hash expires)
  unfolding ingest_enrollment
  ingest-In v operator name none expires = Keeps-raise _
  ingest-In v operator name (some hash) expires =
      search (keeps_rules, insert_worker_once-In, insert_token_once-In) depth 9

  pub Quiet-In :
      (sha256 : Bytes → Bytes) (call : Call)
      → Quiet call
      → (c : Conn Database) → In w s c.db
      → In w s (perform sha256 call c).db
  unfolding perform active_keys exec request_rotation seen_nonce record_trust_event
  Quiet-In sha256 (creates v operator name clock token ttl) q c h =
      (create_worker-In sha256 v operator name clock token ttl).at c h
  Quiet-In sha256 (registers now token pub_key software) q c h =
      (register-In sha256 now token pub_key software).at c h
  Quiet-In sha256 (sets_state now v new reason) q c h = absurd q
  Quiet-In sha256 (beats now v software) q c h = (heartbeat-In now v software).at c h
  Quiet-In sha256 (reads_keys now v) q c h = (select_keys-In now v).at c h
  Quiet-In sha256 (rotates now v k overlap) q c h = (rotate_key-In now v k overlap).at c h
  Quiet-In sha256 (requests_rotation v) q c h = (flag-In v).at c h
  Quiet-In sha256 (sees_nonce now v n) q c h = (insert_nonce-In now v n).at c h
  Quiet-In sha256 (prunes now window) q c h = (prune-In now window).at c h
  Quiet-In sha256 (ingests v operator name hash expires) q c h =
      (ingest-In v operator name hash expires).at c h
  Quiet-In sha256 (decides now v state reason) q c h = absurd q
  Quiet-In sha256 (records now v e) q c h = (insert_event-In v e now).at c h
