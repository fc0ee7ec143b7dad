-- ===== src/Coordinator/Endpoints.antt =====
-- internal/coordinator/server.go and rotation.go: the handlers of registration, heartbeats, key
-- rotation, retirement and the administration of workers, by what they do to the database and how
-- they answer. The audit log is left out.
pub mod Answers
use vpsa_network_discovery.Prelude.{
  ℕ, ◌+◌, ◌*◌, ◌≡◌, Bool, true, false, not, ◌&&◌, Option, none, some, List, [], ◌∷◌, Bytes,
  bytes_eq, is_empty, is_none, length, ◌==◌, if◌then◌else◌,
}
use vpsa_network_discovery.Database.{
  Database, Worker, WorkerState, active, retired, pending, same_state,
}
use vpsa_network_discovery.Sql.{
  Result, ok, err, Error, db_error, bad_token, unknown_worker, bad_transition, bad_token_hash, M,
  Conn, exec, ◌>>=◌, ◌>>◌,
}
use vpsa_network_discovery.Registry.{
  register, create_worker, set_state, heartbeat, rotate_key, request_rotation, update_workers,
  is_worker,
}
use vpsa_network_discovery.WireAuth.{second}

pub record EndpointLibrary : Type 0 where
  pub base64_decode : Bytes → Option Bytes
  pub sha256 : Bytes → Bytes

pub data Reply : Type 0 where
  problem : ℕ → Reply
  created : ℕ → WorkerState → Reply
  enrolled : ℕ → Bytes → Reply
  beat : Worker → Bool → Option Bytes → Reply
  done : Reply

-- Base64 of 32 bytes.
unfoldable pub decode_key : EndpointLibrary → Bytes → Option Bytes
decode_key lib text = elim (lib.base64_decode text) [
  | none ↦ none
  | some raw ↦ if length raw == 32 then some raw else none
]

-- recordSourceASN: the number that the source address resolves to, where it does.
unfoldable pub record_source_asn : Option ℕ → ℕ → Conn Database → Conn Database
unfolding update_workers
record_source_asn none w c = c
record_source_asn (some asn) w c =
    (exec (update_workers (is_worker w) (λ r. record r { source_asn = some asn })) c).1

-- registerRequest
pub record RegisterRequest : Type 0 where
  pub enrollment_token : Bytes
  pub public_key : Bytes
  pub name : Bytes
  pub software_version : Bytes

-- What the request and the configuration bring: the configured development token (empty: none),
-- the development operator, and what is drawn for a worker created on the fly.
pub record Circumstances : Type 0 where
  pub now : ℕ
  pub clock : ℕ
  pub dev_token : Bytes
  pub dev_operator : ℕ
  pub fresh_id : ℕ
  pub fresh_token : Bytes
  pub default_name : Bytes
  pub source_asn : Option ℕ

unfoldable pub register_reply :
    Circumstances → Result (ℕ × WorkerState) → Conn Database → Reply × Conn Database
unfolding record_source_asn
register_reply x (ok (w, s)) c = (created w s, record_source_asn x.source_asn w c)
register_reply x (err e) c = (
  elim e [
    | bad_token ↦ problem 401
    | db_error ↦ problem 500
    | unknown_worker ↦ problem 500
    | bad_transition ↦ problem 500
    | bad_token_hash ↦ problem 500
  ],
  c,
)

-- The three calls of devRegister.
unfoldable pub dev_calls : EndpointLibrary → Circumstances → RegisterRequest → Bytes → M Database ℕ
dev_calls lib x req pub_key =
    create_worker lib.sha256 x.fresh_id x.dev_operator
      (if is_empty req.name then x.default_name else req.name) x.clock x.fresh_token (60 * second)
    >>= (λ made.
        register lib.sha256 x.now made.1 pub_key req.software_version
        >>= (λ r. set_state x.now made.0 (some active) [] >>= (λ u c. (ok made.0, c))))

unfoldable pub dev_reply : Circumstances → Result ℕ → Conn Database → Reply × Conn Database
unfolding record_source_asn
dev_reply x (ok w) c = (created w active, record_source_asn x.source_asn w c)
dev_reply x (err e) c = (problem 500, c)

-- devRegister
unfoldable pub dev_register :
    EndpointLibrary
    → Circumstances
    → RegisterRequest
    → Bytes
    → Conn Database
    → Reply × Conn Database
unfolding dev_calls dev_reply
dev_register lib x req pub_key c = let (r, c') = dev_calls lib x req pub_key c in dev_reply x r c'

-- register: the request is `none` where the body does not decode.
unfoldable pub register_worker :
    EndpointLibrary → Circumstances → Option RegisterRequest → Conn Database → Reply × Conn Database
unfolding decode_key dev_register register_reply
register_worker lib x none c = (problem 400, c)
register_worker lib x (some req) c = elim (decode_key lib req.public_key) [
  | none ↦ (problem 422, c)
  | some pub_key ↦
      let (r, c') = register lib.sha256 x.now req.enrollment_token pub_key req.software_version c in
      if not (is_empty x.dev_token) && bytes_eq req.enrollment_token x.dev_token
      then dev_register lib x req pub_key c
      else register_reply x r c'
]

unfoldable pub beat_reply : Option Bytes → Result Worker → Reply
beat_reply manifest (ok w) =
    beat w w.rotate_requested (if same_state w.state active then manifest else none)
beat_reply manifest (err e) = problem 500

-- heartbeat: `software` is none where the body does not decode, `manifest` is the version of the
-- cached manifest, if there is one.
unfoldable pub handle_heartbeat :
    ℕ → ℕ → Option Bytes → Option Bytes → Conn Database → Reply × Conn Database
unfolding beat_reply
handle_heartbeat now w none manifest c = (problem 400, c)
handle_heartbeat now w (some software) manifest c =
    let (r, c') = heartbeat now w software c in (beat_reply manifest r, c')

unfoldable pub unit_reply : (Error → Reply) → Result (Unit {0}) → Reply
unit_reply f (ok u) = done
unit_reply f (err e) = f e

-- selfRetire
unfoldable pub self_retire : ℕ → ℕ → Bytes → Conn Database → Reply × Conn Database
unfolding unit_reply
self_retire now w reason c =
    let (r, c') = set_state now w (some retired) reason c in (unit_reply (λ e. problem 409) r, c')

unfoldable pub state_problem : Error → Reply
state_problem unknown_worker = problem 404
state_problem bad_transition = problem 409
state_problem db_error = problem 500
state_problem bad_token = problem 500
state_problem bad_token_hash = problem 500

-- adminSetState: the body is `none` where it does not decode; the state may be of no name.
unfoldable pub admin_set_state :
    ℕ → ℕ → Option (Option WorkerState × Bytes) → Conn Database → Reply × Conn Database
unfolding unit_reply state_problem
admin_set_state now w none c = (problem 400, c)
admin_set_state now w (some (state, reason)) c =
    let (r, c') = set_state now w state reason c in (unit_reply state_problem r, c')

unfoldable pub enrolled_reply : Result (ℕ × Bytes) → Reply
enrolled_reply (ok (w, token)) = enrolled w token
enrolled_reply (err e) = problem 500

-- adminCreateWorker: the name and the operator; an absent operator is the development one.
unfoldable pub admin_create_worker :
    EndpointLibrary
    → Circumstances
    → Option (Bytes × Option ℕ)
    → Conn Database
    → Reply × Conn Database
unfolding enrolled_reply
admin_create_worker lib x none c = (problem 400, c)
admin_create_worker lib x (some (name, operator)) c =
    let owner = elim operator as (λ o. ℕ) [ none ↦ x.dev_operator | some o ↦ o ] in
    let (r, c') =
      create_worker lib.sha256 x.fresh_id owner name x.clock x.fresh_token (24 * 3600 * second) c in
    if is_empty name then (problem 400, c) else (enrolled_reply r, c')

-- KeyOverlap
abbrev pub key_overlap : ℕ
key_overlap = 10 * 60 * second

-- rotateKey
unfoldable pub handle_rotation :
    EndpointLibrary → ℕ → ℕ → Option Bytes → Conn Database → Reply × Conn Database
unfolding decode_key unit_reply
handle_rotation lib now w none c = (problem 400, c)
handle_rotation lib now w (some text) c = elim (decode_key lib text) [
  | none ↦ (problem 422, c)
  | some next ↦
      let (r, c') = rotate_key now w next key_overlap c in (unit_reply (λ e. problem 500) r, c')
]

-- adminRequestRotation
unfoldable pub admin_request_rotation : ℕ → Conn Database → Reply × Conn Database
unfolding unit_reply
admin_request_rotation w c =
    let (r, c') = request_rotation w c in (unit_reply (λ e. problem 404) r, c')
