-- ===== src/Registry/Runs.antt =====
-- Histories of calls of internal/registry/registry.go, in any order, at any times, under any
-- failures; and the transactions reduced to their runs on which nothing fails.
use vpsa_network_discovery.Prelude.{ℕ, Option, none, some, List, [], ◌∷◌, Bytes, length, ◌==◌, All}
use vpsa_network_discovery.Database.{Database, WorkerState, EventType}
use vpsa_network_discovery.Sql.{Conn}
use vpsa_network_discovery.Sql.Faults.{
  Steady, steady_rules, Steady-if, Steady-raise, Atomic, Atomic-transact, Atomic-if, Atomic-raise,
}
use vpsa_network_discovery.Registry.{
  create_worker, register, set_state, heartbeat, rotate_key, request_rotation, seen_nonce,
  prune_nonces, ingest_enrollment, apply_decision, record_trust_event, check_transition,
  move_worker, active_keys, allowed,
}

pub data Call : Type 0 where
  creates : ℕ → ℕ → Bytes → ℕ → Bytes → ℕ → Call
  registers : ℕ → Bytes → Bytes → Bytes → Call
  sets_state : ℕ → ℕ → Option WorkerState → Bytes → Call
  beats : ℕ → ℕ → Bytes → Call
  reads_keys : ℕ → ℕ → Call
  rotates : ℕ → ℕ → Bytes → ℕ → Call
  requests_rotation : ℕ → Call
  sees_nonce : ℕ → ℕ → Bytes → Call
  prunes : ℕ → ℕ → Call
  ingests : ℕ → ℕ → Bytes → Option Bytes → ℕ → Call
  decides : ℕ → ℕ → Option WorkerState → Bytes → Call
  records : ℕ → ℕ → EventType → Call

-- The database and the pending failures after a call.
unfoldable pub perform : (Bytes → Bytes) → Call → Conn Database → Conn Database
perform sha256 (creates w operator name clock token ttl) c =
    (create_worker sha256 w operator name clock token ttl c).1
perform sha256 (registers now token pub_key software) c =
    (register sha256 now token pub_key software c).1
perform sha256 (sets_state now w new reason) c = (set_state now w new reason c).1
perform sha256 (beats now w software) c = (heartbeat now w software c).1
perform sha256 (reads_keys now w) c = (active_keys now w c).1
perform sha256 (rotates now w pub_key overlap) c = (rotate_key now w pub_key overlap c).1
perform sha256 (requests_rotation w) c = (request_rotation w c).1
perform sha256 (sees_nonce now w n) c = (seen_nonce now w n c).1
perform sha256 (prunes now window) c = (prune_nonces now window c).1
perform sha256 (ingests w operator name hash expires) c =
    (ingest_enrollment w operator name hash expires c).1
perform sha256 (decides now w state reason) c = (apply_decision now w state reason c).1
perform sha256 (records now w e) c = (record_trust_event now w e c).1

unfoldable pub run : (Bytes → Bytes) → List Call → Conn Database → Conn Database
run sha256 [] c = c
run sha256 (call ∷ calls) c = run sha256 calls (perform sha256 call c)

-- An invariant of each call is one of every history. The premise is asked of the calls that `Admits`
-- admits.
pub run_keeps :
    (P : Database → Type 0) (Admits : Call → Type 0) (sha256 : Bytes → Bytes)
    → ((call : Call) (c : Conn Database) → Admits call → P c.db → P (perform sha256 call c).db)
    → (calls : List Call) (c : Conn Database) → All Admits calls
    → P c.db
    → P (run sha256 calls c).db
unfolding run
run_keeps P Admits sha256 k [] c a h = h
run_keeps P Admits sha256 k (call ∷ calls) c a h =
    run_keeps P Admits sha256 k calls (perform sha256 call c) a.1 (k call c a.0 h)

Steady-move_worker :
    (now w : ℕ) (current new : WorkerState) (reason : Bytes)
    → Steady (move_worker now w current new reason)
unfolding move_worker
Steady-move_worker now w current new reason = search (steady_rules, Steady-if)

Steady-check_transition :
    (now w : ℕ) (current : WorkerState) (new : Option WorkerState) (reason : Bytes)
    → Steady (check_transition now w current new reason)
unfolding check_transition
Steady-check_transition now w current none reason = Steady-raise _
Steady-check_transition now w current (some new) reason =
    Steady-if (allowed current (some new)) _ _ (Steady-move_worker now w current new reason)
      (Steady-raise _)

pub set_state-Atomic :
    (now w : ℕ) (new : Option WorkerState) (reason : Bytes) → Atomic (set_state now w new reason)
unfolding set_state
set_state-Atomic now w new reason =
    Atomic-transact _ (search (steady_rules, Steady-check_transition))

pub register-Atomic :
    (sha256 : Bytes → Bytes) (now : ℕ) (token pub_key software : Bytes)
    → Atomic (register sha256 now token pub_key software)
unfolding register
register-Atomic sha256 now token pub_key software = Atomic-transact _ (search steady_rules depth 9)

pub create_worker-Atomic :
    (sha256 : Bytes → Bytes) (w operator : ℕ) (name : Bytes) (clock : ℕ) (token : Bytes) (ttl : ℕ)
    → Atomic (create_worker sha256 w operator name clock token ttl)
unfolding create_worker
create_worker-Atomic sha256 w operator name clock token ttl =
    Atomic-transact _ (search steady_rules depth 9)

pub rotate_key-Atomic :
    (now w : ℕ) (pub_key : Bytes) (overlap : ℕ) → Atomic (rotate_key now w pub_key overlap)
unfolding rotate_key
rotate_key-Atomic now w pub_key overlap = Atomic-transact _ (search steady_rules depth 9)

pub ingest_enrollment-Atomic :
    (w operator : ℕ) (name : Bytes) (hash : Option Bytes) (expires : ℕ)
    → Atomic (ingest_enrollment w operator name hash expires)
unfolding ingest_enrollment
ingest_enrollment-Atomic w operator name none expires = Atomic-raise _
ingest_enrollment-Atomic w operator name (some hash) expires =
    Atomic-if (length hash == 32) _ _ (Atomic-transact _ (search steady_rules depth 9))
      (Atomic-raise _)
