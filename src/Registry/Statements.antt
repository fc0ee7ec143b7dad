-- ===== src/Registry/Statements.antt =====
-- For internal/registry/registry.go: invariants, from the statements to the calls.
use vpsa_network_discovery.Prelude.{
  ℕ, ◌≡◌, sym, subst, Bool, Option, none, some, List, Bytes, arith, length, ◌==◌, All,
}
use vpsa_network_discovery.Database.{
  Database, Worker, WorkerKey, Token, WorkerState, EventType, registered, key_rotated, state_set,
  same_state, retired,
}
use vpsa_network_discovery.Sql.{Conn, exec, unknown_worker}
use vpsa_network_discovery.Sql.Keeps.{
  Keeps, Keeps-exec, Keeps-bind, Keeps-pure, Keeps-raise, Keeps-if, Keeps-recover, Keeps-transact,
}
use vpsa_network_discovery.Registry.{
  create_worker, register, set_state, heartbeat, rotate_key, request_rotation, seen_nonce,
  prune_nonces, ingest_enrollment, apply_decision, record_trust_event, check_transition,
  move_worker, active_keys, allowed, is_named, insert_worker, insert_token, insert_event,
  insert_key, update_workers, update_worker_returning, redeem, flag_rotation, insert_nonce,
  insert_worker_once, insert_token_once, update_keys, select_state, select_keys, found_keys,
}
use vpsa_network_discovery.Registry.Runs.{
  Call, creates, registers, sets_state, beats, reads_keys, rotates, requests_rotation, sees_nonce,
  prunes, ingests, decides, records, perform, run, run_keeps,
}

-- `Admits now window` says at which prunings the invariant is kept.
pub record StatementsKeep (P : Database → Type 0) (Admits : ℕ → ℕ → Type 0) : Type 0 where
  pub worker : (r : Worker) → Keeps P (exec (insert_worker r))
  pub worker_once : (r : Worker) → Keeps P (exec (insert_worker_once r))
  pub token : (t : Token) → Keeps P (exec (insert_token t))
  pub token_once : (t : Token) → Keeps P (exec (insert_token_once t))
  pub event : (w : ℕ) (e : EventType) (now : ℕ) → Keeps P (exec (insert_event w e now))
  pub key : (w : ℕ) (k : Bytes) (now : ℕ) → Keeps P (exec (insert_key w k now))
  pub keys : (p : WorkerKey → Bool) (f : WorkerKey → WorkerKey) → Keeps P (exec (update_keys p f))
  pub workers : (p : Worker → Bool) (f : Worker → Worker) → Keeps P (exec (update_workers p f))
  pub worker_returning :
      (w : ℕ) (f : Worker → Worker) → Keeps P (exec (update_worker_returning w f))
  pub redeems : (now : ℕ) (h : Bytes) → Keeps P (exec (redeem now h))
  pub flag : (w : ℕ) → Keeps P (exec (flag_rotation w))
  pub nonce : (now w : ℕ) (n : Bytes) → Keeps P (exec (insert_nonce now w n))
  pub prune : (now window : ℕ) → Admits now window → Keeps P (prune_nonces now window)

abbrev pub AdmitsCall : (ℕ → ℕ → Type 0) → Call → Type 0
AdmitsCall Admits (prunes now window) = Admits now window
AdmitsCall Admits _ = Unit

module _ (P : Database → Type 0) where
  read_keeps : (s s' : Database) → P s → s' ≡ s → P s'
  read_keeps s s' h e = subst P (sym e) h

  select_state-Keeps : (w : ℕ) → Keeps P (exec (select_state w))
  unfolding select_state
  select_state-Keeps w = Keeps-exec _ λ s a s' h e. read_keeps s s' h (ground arith)

  select_keys-Keeps : (now w : ℕ) → Keeps P (exec (select_keys now w))
  unfolding select_keys found_keys
  select_keys-Keeps now w = Keeps-exec _ λ s a s' h e. read_keeps s s' h (ground arith)

module _ (P : Database → Type 0) (Admits : ℕ → ℕ → Type 0) (k : StatementsKeep P Admits) where
  set_state-Keeps :
      (now w : ℕ) (new : Option WorkerState) (reason : Bytes) → Keeps P (set_state now w new reason)
  unfolding set_state
  set_state-Keeps now w new reason =
      Keeps-transact _ (Keeps-bind _ _ (select_state-Keeps P w) λ current. checked current new)
    where
      moves : (current t : WorkerState) → Keeps P (move_worker now w current t reason)
      moves current t = Keeps-bind _ _ (k.workers _ _) λ _.
          Keeps-bind _ _ (Keeps-if (same_state t retired) _ _ (k.keys _ _) (Keeps-pure tt))
            λ _. k.event w (state_set current t) now

      checked :
          (current : WorkerState) (new : Option WorkerState)
          → Keeps P (check_transition now w current new reason)
      checked current none = Keeps-raise _
      checked current (some t) =
          Keeps-if (allowed current (some t)) _ _ (moves current t) (Keeps-raise _)

  pub perform-Keeps :
      (sha256 : Bytes → Bytes) (call : Call) (c : Conn Database)
      → AdmitsCall Admits call
      → P c.db
      → P (perform sha256 call c).db
  unfolding perform create_worker register heartbeat rotate_key request_rotation seen_nonce
      ingest_enrollment apply_decision record_trust_event active_keys
  perform-Keeps sha256 (creates w operator name clock token ttl) c a h =
      (Keeps-transact _
          (Keeps-bind _ _ (k.worker _) λ _. Keeps-bind _ _ (k.token _) λ _. Keeps-pure _)).at
        c h
  perform-Keeps sha256 (registers now token pub_key software) c a h =
      (Keeps-transact _ (
          Keeps-bind _ _ (k.redeems now (sha256 token)) λ w.
            Keeps-bind _ _ (k.key w pub_key now) λ _.
              Keeps-bind _ _ (k.worker_returning w _)
                λ r. Keeps-bind _ _ (k.event w registered now) λ _. Keeps-pure _)).at
        c h
  perform-Keeps sha256 (sets_state now w new reason) c a h =
      (set_state-Keeps now w new reason).at c h
  perform-Keeps sha256 (beats now w software) c a h = (k.worker_returning w _).at c h
  perform-Keeps sha256 (reads_keys now w) c a h = (select_keys-Keeps P now w).at c h
  perform-Keeps sha256 (rotates now w pub_key overlap) c a h =
      (Keeps-transact _ (
          Keeps-bind _ _ (k.keys _ _) λ _.
            Keeps-bind _ _ (k.key w pub_key now)
              λ _. Keeps-bind _ _ (k.workers _ _) λ _. k.event w key_rotated now)).at
        c h
  perform-Keeps sha256 (requests_rotation w) c a h = (k.flag w).at c h
  perform-Keeps sha256 (sees_nonce now w n) c a h = (k.nonce now w n).at c h
  perform-Keeps sha256 (prunes now window) c a h = (k.prune now window a).at c h
  perform-Keeps sha256 (ingests w operator name none expires) c a h = h
  perform-Keeps sha256 (ingests w operator name (some hash) expires) c a h =
      (Keeps-if (length hash == 32) _ _
          (Keeps-transact _ (
            Keeps-bind _ _ (k.worker_once _)
              λ created. Keeps-bind _ _ (k.token_once _) λ _. Keeps-pure _))
          (Keeps-raise _)).at
        c h
  perform-Keeps sha256 (decides now w state reason) c a h =
      (Keeps-bind _ _ (Keeps-recover unknown_worker _ (select_state-Keeps P w)) λ current.
          Keeps-if (is_named current state) _ _ (Keeps-pure tt)
            (set_state-Keeps now w state reason)).at
        c h
  perform-Keeps sha256 (records now w e) c a h = (k.event w e now).at c h

  -- So it is kept by every history.
  pub run-Keeps :
      (sha256 : Bytes → Bytes) (calls : List Call) (c : Conn Database)
      → All (AdmitsCall Admits) calls
      → P c.db
      → P (run sha256 calls c).db
  run-Keeps sha256 calls c a h =
      run_keeps P (AdmitsCall Admits) sha256 (perform-Keeps sha256) calls c a h
