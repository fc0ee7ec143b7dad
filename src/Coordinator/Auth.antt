-- ===== src/Coordinator/Auth.antt =====
-- internal/coordinator/server.go, `signed` and `admin`: who may call a handler.
pub mod Admission
pub mod NoReplay
pub mod Service
use vpsa_network_discovery.Prelude.{
  ℕ, ◌*◌, ◌≡◌, refl, Bool, true, false, ◌||◌, not, Option, none, some, List, [], ◌∷◌, ◌++◌, Bytes,
  arith, take, if◌then◌else◌, is_empty, bytes_eq,
}
use vpsa_network_discovery.Database.{
  Database, WorkerState, suspended, retired, same_state, bad_signature, replay,
}
use vpsa_network_discovery.Sql.{Result, ok, err, Conn}
use vpsa_network_discovery.Registry.{active_keys, seen_nonce, record_trust_event}
use vpsa_network_discovery.WireAuth.{
  Library, Header, VerifyError, Verdict, verified, refused, verify, missing_headers,
}

-- `body` is the body as the client sends it (none: reading it fails within the limit). `now` is the
-- program's time.Now(); the database's now() is an argument of its own.
pub record Request : Type 0 where
  pub method : Bytes
  pub path : Bytes
  pub header : Header
  pub body : Option Bytes

-- 8<<20, the bytes that LimitReader lets through; what follows them is not read.
abbrev pub body_limit : ℕ
body_limit = 8 * 1_048_576

-- workerIdentity
pub record Identity : Type 0 where
  pub id : ℕ
  pub state : WorkerState

-- A problem reply with its status, or the call of the handler, with the body that it reads.
pub data Gate : Type 0 where
  problem : ℕ → Gate
  next : Identity → Bytes → Gate

-- The loop over the keys, which stops at the first that verifies; `verdict` is the last error.
unfoldable pub try_keys : (Bytes → Verdict) → Verdict → List Bytes → Verdict
try_keys check verdict [] = verdict
try_keys check verdict (k ∷ ks) =
    let rest = try_keys check (check k) ks in
    elim (check k) [ verified n ↦ verified n | refused e ↦ rest ]

-- The switch on the state.
unfoldable pub admit_state : ℕ → WorkerState → Bytes → Gate
admit_state id state body =
    if same_state state suspended || same_state state retired
    then problem 403
    else next (record { id = id; state = state }) body

unfoldable pub after_nonce :
    ℕ → ℕ → WorkerState → Bytes → Result Bool → Conn Database → Gate × Conn Database
unfolding admit_state
after_nonce db_now id state body (err e) c = (problem 500, c)
after_nonce db_now id state body (ok true) c =
    (problem 409, (record_trust_event db_now id replay c).1)
after_nonce db_now id state body (ok false) c = (admit_state id state body, c)

unfoldable pub after_verdict :
    ℕ → ℕ → WorkerState → Bytes → Verdict → Conn Database → Gate × Conn Database
unfolding after_nonce
after_verdict db_now id state body (refused e) c =
    (problem 401, (record_trust_event db_now id bad_signature c).1)
after_verdict db_now id state body (verified nonce) c =
    let (r, c') = seen_nonce db_now id nonce c in after_nonce db_now id state body r c'

unfoldable pub after_keys :
    Library
    → ℕ
    → ℕ
    → ℕ
    → Request
    → Bytes
    → Result (List Bytes × WorkerState)
    → Conn Database
    → Gate × Conn Database
unfolding after_verdict try_keys
after_keys lib now db_now id r body (err e) c = (problem 401, c)
after_keys lib now db_now id r body (ok (keys, state)) c =
    after_verdict db_now id state body
      (try_keys (λ k. verify lib r.method r.path r.header body k now) (refused missing_headers)
        keys)
      c

unfoldable pub with_identity :
    Library → ℕ → ℕ → Request → Bytes → Option ℕ → Conn Database → Gate × Conn Database
unfolding after_keys
with_identity lib now db_now r body none c = (problem 401, c)
with_identity lib now db_now r body (some id) c =
    let (k, c') = active_keys db_now id c in after_keys lib now db_now id r body k c'

unfoldable pub with_body :
    Library → ℕ → ℕ → Request → Option Bytes → Conn Database → Gate × Conn Database
unfolding with_identity
with_body lib now db_now r none c = (problem 400, c)
with_body lib now db_now r (some raw) c =
    with_identity lib now db_now r (take body_limit raw) (lib.parse_uuid r.header.worker_id) c

-- signed
unfoldable pub signed : Library → ℕ → ℕ → Request → Conn Database → Gate × Conn Database
unfolding with_body
signed lib now db_now r c =
    if is_empty r.header.worker_id then (problem 401, c) else with_body lib now db_now r r.body c

-- admin: the bearer token, compared in constant time
unfoldable pub admin : Bytes → Bytes → Bool
admin token authorization =
    if is_empty token then false else bytes_eq authorization (bearer ++ token)
  where
    bearer : Bytes
    bearer = b'B' ∷ b'e' ∷ b'a' ∷ b'r' ∷ b'e' ∷ b'r' ∷ b' ' ∷ []
