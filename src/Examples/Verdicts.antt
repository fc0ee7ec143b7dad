-- ===== src/Examples/Verdicts.antt =====
-- The aggregation: an outage that is settled and raises an incident.
use vpsa_network_discovery.Prelude.{ℕ, Bool, true, false, none, [], ◌∷◌, Bytes, All, arith}
use vpsa_network_discovery.Sql.Faults.{calm}
use vpsa_network_discovery.Sql.Table.{count}
use vpsa_network_discovery.Aggregation.{
  Config, healthy, outage, Window, Sample, ProviderStatus, Store, global_region, with_defaults,
}
use vpsa_network_discovery.Aggregation.Consensus.{compute_window}
use vpsa_network_discovery.Aggregation.Consensus.Windows.{IsSettled, compute_window-IsSettled}
use vpsa_network_discovery.Aggregation.Consensus.Quorum.{Fresh, compute_window-IsSound}
use vpsa_network_discovery.Aggregation.Status.{rollup_status}
use vpsa_network_discovery.Aggregation.Status.Tidy.{IsTidy, rollup_status-IsTidy}
use vpsa_network_discovery.Examples.Data.{fleet}

abbrev config : Config
config = record {
  window_seconds = 0;
  min_workers = 1;
  healthy_ratio = 0;
  degraded_ratio = 0;
  latency_factor = 0;
  target_window = 0;
  raw_retention = 0;
  window_retention = 0;
}

abbrev sample : ℕ → Bool → Sample
sample at up = record {
  worker = 1;
  provider = 1;
  target = 1 ∷ [];
  measured_at = at;
  ok = up;
  rtt = none;
}

abbrev settled_outage : Window
settled_outage = record {
  provider = 1;
  region = global_region;
  start = 300;
  seconds = 300;
  verdict = outage;
  worker_count = 1;
  measured_targets = 1;
  up_targets = 0;
  p50 = none;
}

abbrev was_healthy : ProviderStatus
was_healthy = record {
  provider = 1;
  region = global_region;
  verdict = healthy;
  since = 100;
  updated_at = 200;
}

abbrev store : Store
store = record {
  db = fleet;
  samples = sample 10 true ∷ sample 400 false ∷ sample 401 false ∷ [];
  scores = record { worker = 1; score = 700 } ∷ [];
  windows = settled_outage ∷ [];
  agreements = [];
  batches = [];
  statuses = was_healthy ∷ [];
  target_statuses = [];
  anomalies = [];
  outbox = [];
  outbox_seq = 1;
}

abbrev name : ℕ → Bytes
name p = p ∷ []

store-IsTidy : IsTidy store
unfolding count
store-IsTidy = record { anomaly = λ p k. omega arith; status = λ p r. ground arith }

rollup_status-IsTidy_example : IsTidy (rollup_status name 700 config (calm store)).1.db
rollup_status-IsTidy_example = rollup_status-IsTidy name 700 config (calm store) store-IsTidy

compute_window-IsSettled_example :
    IsSettled store.windows (compute_window config 300 (calm store)).1.db.windows
unfolding count
compute_window-IsSettled_example =
    compute_window-IsSettled config 300 (calm store) (λ k. ground arith)

compute_window-IsSound_example :
    All
      (Fresh (with_defaults config) store 300)
      (compute_window config 300 (calm store)).1.db.windows
compute_window-IsSound_example = compute_window-IsSound config 300 (calm store)
