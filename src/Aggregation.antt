-- ===== src/Aggregation.antt =====
-- internal/aggregate/aggregate.go: consensus windows, the status of providers and anomalies. Trust
-- scores and the ratios of the configuration are in thousandths, round-trip times whole numbers of
-- a unit.
pub mod Votes
pub mod Consensus
pub mod Anomalies
pub mod Status
pub mod Targets
pub mod Retention
use vpsa_network_discovery.Prelude.{
  ℕ, ◌+◌, ◌-◌, ◌*◌, ◌≡◌, refl, Bool, true, false, not, ◌&&◌, Option, none, some, List, [], ◌∷◌,
  Bytes, bytes_eq, arith, ◌==◌, if◌then◌else◌,
}
use vpsa_network_discovery.Database.{Database}
use vpsa_network_discovery.Outbox.{Row}

pub data Verdict : Type 0 where
  healthy degraded outage insufficient_data : Verdict

unfoldable pub verdict_code : Verdict → ℕ
verdict_code healthy = 0
verdict_code degraded = 1
verdict_code outage = 2
verdict_code insufficient_data = 3

abbrev pub same_verdict : Verdict → Verdict → Bool
same_verdict a b = verdict_code a == verdict_code b

-- Config. Times are nanoseconds.
pub record Config : Type 0 where
  pub window_seconds : ℕ
  pub min_workers : ℕ
  pub healthy_ratio : ℕ
  pub degraded_ratio : ℕ
  pub latency_factor : ℕ
  pub target_window : ℕ
  pub raw_retention : ℕ
  pub window_retention : ℕ

abbrev pub second : ℕ
second = 1_000_000_000

abbrev pub hour : ℕ
hour = 3600 * second

abbrev pub day : ℕ
day = 24 * hour

abbrev pub or_default : ℕ → ℕ → ℕ
or_default n d = if n == 0 then d else n

-- withDefaults
unfoldable pub with_defaults : Config → Config
with_defaults c = record {
  window_seconds = or_default c.window_seconds 300;
  min_workers = or_default c.min_workers 3;
  healthy_ratio = or_default c.healthy_ratio 900;
  degraded_ratio = or_default c.degraded_ratio 500;
  latency_factor = or_default c.latency_factor 2000;
  target_window = or_default c.target_window (24 * hour);
  raw_retention = or_default c.raw_retention (14 * day);
  window_retention = or_default c.window_retention (90 * day);
}

-- The columns of measurements.observation that are read here.
pub record Sample : Type 0 where
  pub worker : ℕ
  pub provider : ℕ
  pub target : Bytes
  pub measured_at : ℕ
  pub ok : Bool
  pub rtt : Option ℕ

-- registry.trust_score
pub record TrustScore : Type 0 where
  pub worker : ℕ
  pub score : ℕ

-- aggregation.consensus_window; `p50` is in half units of a round-trip time.
pub record Window : Type 0 where
  pub provider : ℕ
  pub region : Bytes
  pub start : ℕ
  pub seconds : ℕ
  pub verdict : Verdict
  pub worker_count : ℕ
  pub measured_targets : ℕ
  pub up_targets : ℕ
  pub p50 : Option ℕ

-- aggregation.worker_agreement, its key
pub record Agreement : Type 0 where
  pub worker : ℕ
  pub start : ℕ

-- The column of measurements.upload_batch that is read here.
pub record Received : Type 0 where
  pub received_at : ℕ

-- aggregation.provider_status
pub record ProviderStatus : Type 0 where
  pub provider : ℕ
  pub region : Bytes
  pub verdict : Verdict
  pub since : ℕ
  pub updated_at : ℕ

-- aggregation.target_status
pub record TargetStatus : Type 0 where
  pub provider : ℕ
  pub target : Bytes
  pub region : Bytes
  pub verdict : Verdict
  pub worker_count : ℕ
  pub updated_at : ℕ

pub data AnomalyKind : Type 0 where
  reachability_loss latency_regression : AnomalyKind

unfoldable pub kind_code : AnomalyKind → ℕ
kind_code reachability_loss = 0
kind_code latency_regression = 1

pub data Severity : Type 0 where
  critical warning : Severity

-- aggregation.anomaly, of the region 'global'
pub record Anomaly : Type 0 where
  pub provider : ℕ
  pub kind : AnomalyKind
  pub severity : Severity
  pub opened_at : ℕ
  pub resolved_at : Option ℕ

-- The tables that the aggregation reads and writes.
pub record Store : Type 0 where
  pub db : Database
  pub samples : List Sample
  pub scores : List TrustScore
  pub windows : List Window
  pub agreements : List Agreement
  pub batches : List Received
  pub statuses : List ProviderStatus
  pub target_statuses : List TargetStatus
  pub anomalies : List Anomaly
  pub outbox : List Row
  pub outbox_seq : ℕ

abbrev pub global_region : Bytes
global_region = b'g' ∷ b'l' ∷ b'o' ∷ b'b' ∷ b'a' ∷ b'l' ∷ []

abbrev pub unknown_region : Bytes
unknown_region = b'Z' ∷ b'Z' ∷ []
