-- ===== src/Aggregation/Targets.antt =====
-- internal/aggregate/aggregate.go, `refreshTargetStatus`: the current health of each address that is
-- probed. Its latency, loss, prefix and city are left out.
use vpsa_network_discovery.Prelude.{
  ℕ, ◌+◌, ◌*◌, Bool, ◌&&◌, Option, none, some, List, [], ◌∷◌, ◌++◌, Bytes, bytes_eq, length, ltb,
  leb, ◌==◌, if◌then◌else◌,
}
use vpsa_network_discovery.Database.{Database, ProbeTarget}
use vpsa_network_discovery.Sql.{Result, ok, M, exec, ◌>>=◌}
use vpsa_network_discovery.Sql.Table.{select, update, delete, exists, find, count}
use vpsa_network_discovery.Builder.Pipeline.{latest}
use vpsa_network_discovery.Aggregation.{Config, Sample, TargetStatus, Store}
use vpsa_network_discovery.Aggregation.Votes.{on_target, is_active, country_of, voters, targets_of}
use vpsa_network_discovery.Aggregation.Consensus.{verdict_for}

-- `recent`
unfoldable pub recent : Config → ℕ → Store → List Sample
unfolding is_active
recent cfg now s =
    select (λ x. leb now (x.measured_at + cfg.target_window) && is_active s.db.workers x.worker)
      s.samples

-- The target of the newest published snapshot.
unfoldable pub published_target : Database → ℕ → Bytes → Option ProbeTarget
unfolding latest
published_target db p t = elim (latest db.snapshots) [
  | none ↦ none
  | some n ↦
      find (λ (g : ProbeTarget). bytes_eq g.address t && (g.provider == p && g.snapshot == n.id))
        db.targets
]

unfoldable pub status_of : Config → ℕ → Store → Sample → TargetStatus
unfolding recent published_target country_of voters verdict_for
status_of cfg now s x =
    let obs = recent cfg now s in
    record {
      provider = x.provider;
      target = x.target;
      region = country_of (published_target s.db x.provider x.target);
      verdict =
          verdict_for cfg (length (voters obs x.provider x.target))
            (count (on_target x.provider x.target) obs)
            (count (λ y. on_target x.provider x.target y && y.ok) obs);
      worker_count = length (voters obs x.provider x.target);
      updated_at = now;
    }

abbrev pub same_address : TargetStatus → TargetStatus → Bool
same_address a b = a.provider == b.provider && bytes_eq a.target b.target

-- on conflict (provider_id, target) do update
unfoldable pub upsert_target : TargetStatus → List TargetStatus → List TargetStatus
upsert_target t ts =
    if exists (same_address t) ts then update (same_address t) (λ u. t) ts else ts ++ t ∷ []

unfoldable pub upsert_targets :
    (Sample → TargetStatus) → List Sample → List TargetStatus → List TargetStatus
unfolding upsert_target
upsert_targets f [] ts = ts
upsert_targets f (x ∷ xs) ts = upsert_targets f xs (upsert_target (f x) ts)

unfoldable pub put_targets : Config → ℕ → Store → Result (Unit {0} × Store)
unfolding recent targets_of status_of upsert_targets
put_targets cfg now s = ok (
  tt,
  record s {
    target_statuses =
        upsert_targets (status_of cfg now s) (targets_of (recent cfg now s)) s.target_statuses;
  },
)

-- updated_at < now() - 2 * TargetWindow
unfoldable pub delete_stale : Config → ℕ → Store → Result (Unit {0} × Store)
delete_stale cfg now s = ok (
  tt,
  record s {
    target_statuses =
        delete (λ (t : TargetStatus). ltb (t.updated_at + 2 * cfg.target_window) now)
          s.target_statuses;
  },
)

-- refreshTargetStatus
unfoldable pub refresh_target_status : Config → ℕ → M Store (Unit {0})
unfolding put_targets delete_stale
refresh_target_status cfg now = exec (put_targets cfg now) >>= (λ u. exec (delete_stale cfg now))
