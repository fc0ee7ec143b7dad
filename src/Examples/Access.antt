-- ===== src/Examples/Access.antt =====
-- Who gets in: requests, tokens, keys and states.
use vpsa_network_discovery.Prelude.{
  ℕ, ◌+◌, ◌*◌, ◌/◌, inl, ◌≡◌, ◌≢◌, ◌≤◌, refl, true, Option, none, some, [], ◌∷◌, Bytes, arith,
  replicate, bytes_eq, ◌<◌, ◌⊎◌,
}
use vpsa_network_discovery.Database.{
  Database, Worker, WorkerState, active, retired, suspended, pending, same_state,
}
use vpsa_network_discovery.Sql.{ok, Conn, exec, transact}
use vpsa_network_discovery.Sql.Faults.{calm}
use vpsa_network_discovery.Sql.Table.{count, find, exists, update, select}
use vpsa_network_discovery.WireAuth.{Library, Header, second, hex, verify, skew_of, sub_time}
use vpsa_network_discovery.WireAuth.Canonical.{canonical-injective}
use vpsa_network_discovery.Coordinator.Endpoints.{
  EndpointLibrary, Circumstances, RegisterRequest, problem, done, admin_set_state,
}
use vpsa_network_discovery.Coordinator.Endpoints.Answers.{admin_set_state-answers}
use vpsa_network_discovery.Registry.{
  is_worker, register, rotate_key, seen_nonce, valid_keys, active_keys, redeem, insert_key,
  insert_event, update_worker_returning, allowed, insert_nonce, select_keys, found_keys,
}
use vpsa_network_discovery.Registry.Runs.{run, perform, sets_state, beats}
use vpsa_network_discovery.Registry.Quiet.{state_of}
use vpsa_network_discovery.Registry.Lifecycle.{run-retired, perform-Legal, Legal, moved}
use vpsa_network_discovery.Registry.Keys.{valid_keys-rotate_key}
use vpsa_network_discovery.Registry.Tokens.{register-run}
use vpsa_network_discovery.Coordinator.Auth.{
  Request, Identity, Gate, next, signed, with_body, with_identity, after_keys, after_verdict,
  after_nonce, admit_state, try_keys,
}
use vpsa_network_discovery.WireAuth.Signing.{Signing, IsKeyPair, IsStamped, sign, header_of}
use vpsa_network_discovery.Coordinator.Auth.Service.{request_of, signed-Served}
use vpsa_network_discovery.Coordinator.Auth.Admission.{signed-Admitted, Admitted}
use vpsa_network_discovery.Coordinator.Auth.NoReplay.{IsNear, signed-run}
use vpsa_network_discovery.Examples.Data.{
  fleet, steady, shaky, identity_hash, token_text, key_text, alice, bob, byte,
}

abbrev gone : Database
gone = record fleet { workers = record alice { state = retired } ∷ bob ∷ [] }

run-retired_example :
    state_of 1
      (run identity_hash
        (sets_state 5 1 (some active) [] ∷ beats 6 1 [] ∷ [])
        (calm gone)).db.workers
    ≡ some retired
unfolding find
run-retired_example =
    run-retired identity_hash (sets_state 5 1 (some active) [] ∷ beats 6 1 [] ∷ []) (calm gone) 1
      refl

perform-Legal_example :
    Legal 1 active (perform identity_hash (sets_state 5 1 (some suspended) []) shaky).db
unfolding find
perform-Legal_example =
    perform-Legal identity_hash (sets_state 5 1 (some suspended) []) shaky 1 active refl

register-run_example :
    (register identity_hash 7 token_text (replicate 32 5) [] (
      run identity_hash
        (beats 6 1 [] ∷ [])
        (register identity_hash 5 token_text (replicate 32 4) [] steady).1)).0
    ≢ ok (2, pending)
unfolding register redeem insert_key update_worker_returning insert_event exec transact find exists
    update count bytes_eq
register-run_example =
    register-run identity_hash 5 token_text (replicate 32 4) [] steady (2, pending)
      (beats 6 1 [] ∷ []) 7 (replicate 32 5) [] (2, pending) (omega arith) refl

valid_keys-rotate_key_example :
    ((6 < 5 + 10)
      → valid_keys 6 1 (rotate_key 5 1 (replicate 32 4) 10 steady).1.db.keys
        ≡ replicate 32 4 ∷ valid_keys 6 1 fleet.keys)
    × ((5 + 10 ≤ 6)
        → valid_keys 6 1 (rotate_key 5 1 (replicate 32 4) 10 steady).1.db.keys
          ≡ replicate 32 4 ∷ [])
unfolding rotate_key exec transact update insert_key exists insert_event
valid_keys-rotate_key_example =
    valid_keys-rotate_key 5 1 (replicate 32 4) 10 steady 6 refl refl (omega arith) (refl, tt)

-- A library under which every signature of one byte verifies.
abbrev lib : Library
lib = record {
  sha256 = identity_hash;
  ed25519_verify = λ key message sig. bytes_eq sig (1 ∷ []);
  base64_decode = λ text. some text;
  parse_rfc3339 = λ text. some 1000;
  parse_uuid = λ text. some 1;
}

abbrev request : Request
request = record {
  method = 1 ∷ [];
  path = 2 ∷ [];
  header = record { worker_id = 1 ∷ []; timestamp = 2 ∷ []; nonce = 3 ∷ []; signature = 1 ∷ [] };
  body = some [];
}

abbrev admitted : Gate × Conn Database
admitted = signed lib 1000 5 request steady

abbrev someone : Identity
someone = record { id = 1; state = active }

signed-Admitted_example : Admitted lib 1000 5 request steady someone [] admitted.1
unfolding signed with_body with_identity after_keys after_verdict after_nonce admit_state try_keys
    active_keys select_keys found_keys valid_keys select find exec verify skew_of sub_time
    seen_nonce insert_nonce exists bytes_eq same_state
signed-Admitted_example = signed-Admitted lib 1000 5 request steady someone [] admitted.1 refl

stamped-IsNear : IsNear lib request.header 1000
stamped-IsNear t e = ground arith

signed-run_example :
    signed lib 1010 15 request (run identity_hash (beats 6 1 [] ∷ []) admitted.1)
    ≢ (next someone [], steady)
unfolding signed with_body with_identity after_keys after_verdict after_nonce admit_state try_keys
    active_keys select_keys found_keys valid_keys select find exec verify skew_of sub_time
    seen_nonce insert_nonce exists bytes_eq same_state
signed-run_example =
    signed-run lib 1000 5 request steady someone [] admitted.1 (beats 6 1 [] ∷ []) 1010 15 request
      someone [] steady refl stamped-IsNear (tt, tt) (omega arith) refl refl refl

canonical-injective_example :
    (byte 1 ≡ byte 1)
    × (byte 2 ≡ byte 2)
    × (byte 3 ≡ byte 3)
    × (byte 4 ≡ byte 4)
    × (hex (5 ∷ []) ≡ hex (5 ∷ []))
canonical-injective_example =
    canonical-injective lib (1 ∷ []) (2 ∷ []) (3 ∷ []) (4 ∷ []) (5 ∷ []) (1 ∷ []) (2 ∷ []) (3 ∷ [])
      (4 ∷ []) (5 ∷ []) (λ q. omega (arith, q), tt) (λ q. omega (arith, q), tt)
      (λ q. omega (arith, q), tt) (λ q. omega (arith, q), tt) (λ q. omega (arith, q), tt)
      (λ q. omega (arith, q), tt) (λ q. omega (arith, q), tt) (λ q. omega (arith, q), tt) refl

admin_set_state-answers_example :
    (((n : ℕ) × ((admin_set_state 5 1 (some (some pending, [])) steady).0 ≡ problem n))
      × ((admin_set_state 5 1 (some (some pending, [])) steady).1.db ≡ fleet))
    ⊎ ((s : WorkerState) × (reason : Bytes) × (r : Worker) × ((admin_set_state 5 1
            (some (some pending, []))
            steady).0
          ≡ done)
        × (◌≡◌ {A = Option (Option WorkerState × Bytes)}
            (some (some pending, []))
            (some (some s, reason)))
        × (find (is_worker 1) fleet.workers ≡ some r)
        × (allowed r.state (some s) ≡ true)
        × ((admin_set_state 5 1 (some (some pending, [])) steady).1.db
            ≡ moved 5 1 r.state s reason fleet))
admin_set_state-answers_example = admin_set_state-answers 5 1 (some (some pending, [])) steady

abbrev endpoints : EndpointLibrary
endpoints = record { base64_decode = λ text. some text; sha256 = identity_hash }

abbrev circumstances : Circumstances
circumstances = record {
  now = 5;
  clock = 5;
  dev_token = [];
  dev_operator = 1;
  fresh_id = 3;
  fresh_token = 8 ∷ [];
  default_name = [];
  source_asn = none;
}

abbrev enrolling : RegisterRequest
enrolling = record {
  enrollment_token = 8 ∷ [];
  public_key = key_text;
  name = [];
  software_version = [];
}

-- A library whose texts are numbers, with one key pair.
abbrev wire : Library
wire = record {
  sha256 = identity_hash;
  ed25519_verify = λ key message sig. bytes_eq sig (1 ∷ []);
  base64_decode = λ text. some text;
  parse_rfc3339 = parsed;
  parse_uuid = λ text. some 1;
}
  where
    parsed : Bytes → Option ℕ
    parsed [] = none
    parsed (n ∷ ns) = some (n * second)

abbrev signing : Signing
signing = record {
  ed25519_sign = λ key message. 1 ∷ [];
  base64_encode = λ b. b;
  format_rfc3339 = λ t. t / second ∷ [];
}

wire-IsKeyPair : IsKeyPair wire signing [] key_text
unfolding bytes_eq
wire-IsKeyPair = record { verifies = λ m. refl; decodes = λ b. refl; encoded = λ m. refl }

wire-IsStamped : IsStamped wire signing (3 * second)
wire-IsStamped = record { parses = refl; nonempty = refl }

abbrev stamped : Header
stamped = record {
  worker_id = 1 ∷ [];
  timestamp = 3 ∷ [];
  nonce = b'0' ∷ b'7' ∷ [];
  signature = 1 ∷ [];
}

signed-Served_example :
    (signed wire (4 * second) 5 (request_of (1 ∷ []) (2 ∷ []) stamped []) (calm fleet)).0
    ≡ next someone []
unfolding sign header_of hex find valid_keys select exists same_state
signed-Served_example =
    signed-Served wire signing [] key_text wire-IsKeyPair (1 ∷ []) (2 ∷ []) (1 ∷ []) [] (7 ∷ [])
      (3 * second) (4 * second) 5 1 stamped alice fleet wire-IsStamped (omega arith) refl refl refl
      refl (omega arith) (omega arith)
      (record { found = refl; not_suspended = refl; not_retired = refl; valid = inl refl }) refl
