-- ===== src/Database.antt =====
-- The tables of migrations/*.sql that the program's decisions read, one record for a row of each.
-- A table is the list of its rows in the order of the identity column. Identifiers (uuid, bigint)
-- are numbers; times are nanoseconds since the epoch; text is bytes. Columns that no code reads back
-- to decide anything (display names, free-text reasons of leases and keys) are left out.
use vpsa_network_discovery.Prelude.{ℕ, ◌≡◌, Bool, true, false, Option, List, Bytes, arith, ◌==◌}
use vpsa_network_discovery.Addresses.{Prefix}

-- registry.worker.state
pub data WorkerState : Type 0 where
  pending active suspended quarantined retired : WorkerState

abbrev pub state_code : WorkerState → ℕ
state_code pending = 0
state_code active = 1
state_code suspended = 2
state_code quarantined = 3
state_code retired = 4

unfoldable pub same_state : WorkerState → WorkerState → Bool
same_state a b = state_code a == state_code b

-- registry.worker; of `config` only the flag `rotate_requested`.
pub record Worker : Type 0 where
  pub id : ℕ
  pub operator : ℕ
  pub name : Bytes
  pub state : WorkerState
  pub state_reason : Bytes
  pub software : Bytes
  pub source_asn : Option ℕ
  pub approved_at : Option ℕ
  pub retired_at : Option ℕ
  pub last_heartbeat : Option ℕ
  pub rotate_requested : Bool

-- registry.worker_key
pub record WorkerKey : Type 0 where
  pub worker : ℕ
  pub public_key : Bytes
  pub valid_from : ℕ
  pub valid_until : Option ℕ
  pub revoked_at : Option ℕ

-- registry.enrollment_token
pub record Token : Type 0 where
  pub token_hash : Bytes
  pub worker : ℕ
  pub expires_at : ℕ
  pub used_at : Option ℕ

-- registry.replay_nonce
pub record Nonce : Type 0 where
  pub worker : ℕ
  pub nonce : Bytes
  pub seen_at : ℕ

-- registry.trust_event.event_type
pub data EventType : Type 0 where
  registered key_rotated bad_signature replay : EventType
  state_set : WorkerState → WorkerState → EventType

-- registry.trust_event
pub record TrustEvent : Type 0 where
  pub worker : ℕ
  pub event_type : EventType
  pub created_at : ℕ

-- scheduling.assignment.status
pub data AssignmentStatus : Type 0 where
  open_ leased draining closed : AssignmentStatus

abbrev pub status_code : AssignmentStatus → ℕ
status_code open_ = 0
status_code leased = 1
status_code draining = 2
status_code closed = 3

unfoldable pub has_status : AssignmentStatus → AssignmentStatus → Bool
has_status a b = status_code a == status_code b

-- scheduling.assignment; `probe_type` is always icmp and `params` always {}.
pub record Assignment : Type 0 where
  pub id : ℕ
  pub target : ℕ
  pub provider : ℕ
  pub interval : ℕ
  pub group : ℕ
  pub status : AssignmentStatus

-- scheduling.lease
pub record Lease : Type 0 where
  pub assignment : ℕ
  pub worker : ℕ
  pub expires_at : ℕ
  pub released_at : Option ℕ

-- routing.snapshot.status
pub data SnapshotStatus : Type 0 where
  building published superseded failed : SnapshotStatus

unfoldable pub is_published : SnapshotStatus → Bool
is_published published = true
is_published building = false
is_published superseded = false
is_published failed = false

abbrev pub snapshot_code : SnapshotStatus → ℕ
snapshot_code building = 0
snapshot_code published = 1
snapshot_code superseded = 2
snapshot_code failed = 3

-- routing.snapshot
pub record Snapshot : Type 0 where
  pub id : ℕ
  pub version : Bytes
  pub status : SnapshotStatus
  pub prefix_count_v4 : ℕ
  pub prefix_count_v6 : ℕ
  pub artifact_sha256 : Option Bytes
  pub published_at : Option ℕ

-- routing.provider
pub record Provider : Type 0 where
  pub id : ℕ
  pub name : Bytes
  pub monitoring_enabled : Bool
  pub priority : ℕ
  pub delisted_at : Option ℕ

-- routing.asn
pub record Asn : Type 0 where
  pub asn : ℕ
  pub provider : ℕ

-- routing.probe_target
pub record ProbeTarget : Type 0 where
  pub id : ℕ
  pub snapshot : ℕ
  pub provider : ℕ
  pub prefix : ℕ
  pub address : Bytes
  pub country : Bytes
  pub active : Bool

-- routing.prefix; of `flags` the count of peers and whether the prefix is long.
pub record PrefixRow : Type 0 where
  pub id : ℕ
  pub snapshot : ℕ
  pub prefix : Prefix
  pub origin : ℕ
  pub country : Option Bytes
  pub peer_count : ℕ
  pub long_prefix : Bool

-- routing.provider_geo
pub record ProviderGeo : Type 0 where
  pub snapshot : ℕ
  pub provider : ℕ
  pub country : Bytes
  pub ipv4_addresses : ℕ
  pub ipv6_net64s : ℕ
  pub prefix_count_v4 : ℕ
  pub prefix_count_v6 : ℕ
  pub target_count : ℕ

-- measurements.observation
pub record Measurement : Type 0 where
  pub worker : ℕ
  pub assignment : ℕ
  pub provider : ℕ
  pub target : Bytes
  pub ok : Bool

-- measurements.upload_batch
pub record UploadBatch : Type 0 where
  pub batch : ℕ
  pub worker : ℕ
  pub observations : ℕ

pub record Database : Type 0 where
  pub workers : List Worker
  pub keys : List WorkerKey
  pub tokens : List Token
  pub nonces : List Nonce
  pub events : List TrustEvent
  pub assignments : List Assignment
  -- The next values of the identity columns.
  pub assignment_seq : ℕ
  pub snapshot_seq : ℕ
  pub prefix_seq : ℕ
  pub target_seq : ℕ
  pub leases : List Lease
  pub snapshots : List Snapshot
  pub providers : List Provider
  pub asns : List Asn
  pub targets : List ProbeTarget
  pub prefixes : List PrefixRow
  pub provider_geo : List ProviderGeo
  pub measurements : List Measurement
  pub batches : List UploadBatch

pub same_state-eq : (a b : WorkerState) → same_state a b ≡ true → a ≡ b
unfolding same_state
same_state-eq a b h = ground arith

pub same_state_refl : (a : WorkerState) → same_state a a ≡ true
unfolding same_state
same_state_refl a = ground arith
