-- ===== src/Examples/Storage.antt =====
-- Artifacts, snapshots, address space, the outbox and VPS Advisor.
use vpsa_network_discovery.Prelude.{List}
use vpsa_network_discovery.Sql.Hoare.{Post}
use vpsa_network_discovery.Advisor.{Listed, Decision, sync_providers, sync_advisor}
use vpsa_network_discovery.Advisor.Listing.{IsCurrent, sync_providers-IsCurrent}
use vpsa_network_discovery.Advisor.Cursor.{IsCursor, sync_advisor-IsCursor}
use vpsa_network_discovery.Prelude.{
  ℕ, ◌≡◌, ◌≤◌, refl, true, false, none, some, [], ◌∷◌, arith, bytes_eq, ◌==◌,
}
use vpsa_network_discovery.Database.{active, is_published, published, superseded}
use vpsa_network_discovery.Sql.{Conn}
use vpsa_network_discovery.Sql.Faults.{calm}
use vpsa_network_discovery.Sql.Table.{count}
use vpsa_network_discovery.Artifact.{Library, Manifest}
use vpsa_network_discovery.Artifact.Publisher.{World, rollback_to, prune}
use vpsa_network_discovery.Artifact.Publisher.Published.{
  IsSinglePublished, rollback-IsSinglePublished,
}
use vpsa_network_discovery.Artifact.Publisher.Retention.{Retains, prune-Retains}
use vpsa_network_discovery.Addresses.{Prefix}
use vpsa_network_discovery.Distribution.{units, country_units}
use vpsa_network_discovery.Distribution.Sums.{sum, country_units-sum}
use vpsa_network_discovery.Outbox.{Row, Rows, telemetry, drain_once}
use vpsa_network_discovery.Outbox.Delivery.{Settled, drain_once-Settled}
use vpsa_network_discovery.Examples.Data.{fleet}

abbrev library : Library
library = record {
  marshal = λ m. some m.version;
  unmarshal = λ b. none;
  marshal_pointer = λ p. p.version;
  base64_encode = λ b. b;
  base64_decode = λ text. some text;
  sha256 = λ b. b;
  ed25519_sign = λ key message. 1 ∷ [];
  ed25519_verify = λ key message sig. bytes_eq sig (1 ∷ []);
}

abbrev manifest : Manifest
manifest = record {
  version = 2 ∷ [];
  created_at = 1;
  object_key = [];
  sha256 = b'0' ∷ b'7' ∷ [];
  size_bytes = 1;
  prefix_count_v4 = 1;
  prefix_count_v6 = 0;
  target_count = 1;
  min_worker_version = [];
  signature = 1 ∷ [];
}

-- Two snapshots, the second published.
abbrev world : World
world = record {
  db = record fleet {
    snapshots =
        record {
          id = 1;
          version = 1 ∷ [];
          status = superseded;
          prefix_count_v4 = 2;
          prefix_count_v6 = 0;
          artifact_sha256 = none;
          published_at = some 1;
        }
        ∷ record {
          id = 2;
          version = 2 ∷ [];
          status = published;
          prefix_count_v4 = 2;
          prefix_count_v6 = 0;
          artifact_sha256 = none;
          published_at = some 2;
        }
        ∷ [];
  };
  store = [];
}

abbrev flaky : Conn World
flaky = record { db = world; faults = false ∷ false ∷ false ∷ false ∷ false ∷ true ∷ [] }

world-IsSinglePublished : IsSinglePublished world
unfolding count is_published
world-IsSinglePublished = record { unique = λ id. ground arith; single = omega arith }

rollback-IsSinglePublished_example : IsSinglePublished (rollback_to library 5 (1 ∷ []) flaky).1.db
rollback-IsSinglePublished_example =
    (rollback-IsSinglePublished library 5 (1 ∷ [])).at flaky world-IsSinglePublished

prune-Retains_example : Retains world.db (prune 0 flaky).1.db.db
prune-Retains_example = prune-Retains 0 flaky world-IsSinglePublished.unique

abbrev prefix : ℕ → Prefix
prefix n = record { is6 = false; address = 0; bits = n }

country_units-sum_example :
    sum (
      country_units
        (prefix 22)
        (record { prefix = prefix 24; country = some (b'D' ∷ b'E' ∷ []) } ∷ []))
    ≡ units (prefix 22)
country_units-sum_example =
    country_units-sum (prefix 22)
      (record { prefix = prefix 24; country = some (b'D' ∷ b'E' ∷ []) } ∷ []) (omega arith)
      (omega arith, tt)

abbrev rows : Rows
rows =
    record { id = 1; kind = telemetry; acked_at = some 3; attempts = 1; next_attempt_at = 0 }
    ∷ record { id = 2; kind = telemetry; acked_at = none; attempts = 0; next_attempt_at = 0 }
    ∷ []

rows_unique : (id : ℕ) → count (λ (r : Row). r.id == id) rows ≤ 1
unfolding count
rows_unique id = ground arith

drain_once-Settled_example : Settled rows (drain_once 5 (λ id. false) (λ id. true) (calm rows)).1.db
drain_once-Settled_example = drain_once-Settled 5 (λ id. false) (λ id. true) (calm rows) rows_unique

abbrev listed : List Listed
listed =
    record { provider = 1; name = []; monitoring_enabled = true; priority = 10; asns = 64500 ∷ [] }
    ∷ []

sync_providers-IsCurrent_example :
    Post
      (IsCurrent listed)
      (λ db. db ≡ fleet)
      (sync_providers 5 (some listed) (calm fleet)).0
      (sync_providers 5 (some listed) (calm fleet)).1
sync_providers-IsCurrent_example = (sync_providers-IsCurrent 5 listed fleet).at (calm fleet) refl

abbrev decisions : List Decision
decisions =
    record { worker = 2; state = some active; reason = []; decided_at = 7 }
    ∷ record { worker = 9; state = some active; reason = []; decided_at = 8 }
    ∷ []

sync_advisor-IsCursor_example :
    IsCursor decisions 3 (sync_advisor 5 (some listed) (some []) (some decisions) 3 (calm fleet)).0
sync_advisor-IsCursor_example =
    sync_advisor-IsCursor 5 (some listed) (some []) (some decisions) 3 (calm fleet)
