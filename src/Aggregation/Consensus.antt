-- ===== src/Aggregation/Consensus.antt =====
-- internal/aggregate/aggregate.go, `ComputeWindow`: the verdicts of a window by the votes of the
-- workers on each target. Confidence, dissent, loss and the agreement of a worker, which are
-- averages of floating-point numbers, are left out.
pub mod Windows
pub mod Quorum
use vpsa_network_discovery.Prelude.{
  ℕ, ◌+◌, ◌-◌, ◌*◌, ◌≡◌, Bool, true, false, not, ◌&&◌, ◌||◌, Option, none, some, List, [], ◌∷◌,
  ◌++◌, Bytes, bytes_eq, is_empty, length, max, ltb, leb, ◌==◌, if◌then◌else◌, some_and,
}
use vpsa_network_discovery.Database.{
  Database, Worker, active, quarantined, same_state, ProbeTarget, Snapshot, is_published,
}
use vpsa_network_discovery.Sql.{Result, ok, M, exec, pure, ◌>>=◌}
use vpsa_network_discovery.Sql.Table.{select, delete, exists, find, count}
use vpsa_network_discovery.Aggregation.{
  Config, Verdict, healthy, degraded, outage, insufficient_data, Sample, TrustScore, Window,
  Agreement, Store, second, hour, global_region, unknown_region, with_defaults,
}
use vpsa_network_discovery.Aggregation.Anomalies.{median}
use vpsa_network_discovery.Aggregation.Votes.{
  in_window, on_target, is_active, observed, responsive, country_of, region_of, weight, voters,
  sees_up, weight_of, TargetVote, is_up, vote, same_target, targets_of, votes_of, per_target,
}

-- A group of provider_rollup: a provider, and a region unless it is the global one.
abbrev pub Group : Type 0
Group = ℕ × Option Bytes

unfoldable pub same_region : Option Bytes → Option Bytes → Bool
same_region none none = true
same_region (some a) (some b) = bytes_eq a b
same_region none (some b) = false
same_region (some a) none = false

abbrev pub same_group : Group → Group → Bool
same_group g h = g.0 == h.0 && same_region g.1 h.1

abbrev pub region_is : Option Bytes → Bytes → Bool
region_is none r = true
region_is (some a) r = bytes_eq a r

abbrev pub in_group : Group → TargetVote → Bool
in_group g v = v.provider == g.0 && region_is g.1 v.region

unfoldable pub groups_of : List TargetVote → List Group
unfolding same_region
groups_of [] = []
groups_of (v ∷ vs) =
    let rest = groups_of vs in
    (v.provider, none)
    ∷ (v.provider, some v.region)
    ∷ delete (λ g. same_group (v.provider, none) g || same_group (v.provider, some v.region) g) rest

-- max(pt.workers)
unfoldable pub most_workers : List TargetVote → ℕ
most_workers [] = 0
most_workers (v ∷ vs) = max v.workers (most_workers vs)

-- The verdict, of the numbers of workers, of targets measured and of targets up.
unfoldable pub verdict_for : Config → ℕ → ℕ → ℕ → Verdict
verdict_for cfg workers measured up =
    if ltb workers cfg.min_workers || measured == 0
    then insufficient_data
    else if leb (cfg.healthy_ratio * measured) (1000 * up)
    then healthy
    else if leb (cfg.degraded_ratio * measured) (1000 * up)
    then degraded
    else outage

unfoldable pub region_name : Option Bytes → Bytes
region_name none = global_region
region_name (some r) = r

-- The round-trip times of a group.
unfoldable pub rtts_of : Database → Group → List Sample → List ℕ
unfolding region_of
rtts_of db g [] = []
rtts_of db g (x ∷ xs) =
    let rest = rtts_of db g xs in
    if x.provider == g.0 && region_is g.1 (region_of db x.provider x.target)
    then elim x.rtt [ none ↦ rest | some r ↦ r ∷ rest ]
    else rest

unfoldable pub window_of : Config → ℕ → Store → List Sample → List TargetVote → Group → Window
unfolding most_workers verdict_for region_name rtts_of median
window_of cfg start s obs vs g =
    let mine = select (in_group g) vs in
    record {
      provider = g.0;
      region = region_name g.1;
      start = start;
      seconds = cfg.window_seconds;
      verdict = verdict_for cfg (most_workers mine) (length mine) (count is_up mine);
      worker_count = most_workers mine;
      measured_targets = length mine;
      up_targets = count is_up mine;
      p50 = median (rtts_of s.db g obs);
    }

abbrev pub same_window : Window → Window → Bool
same_window a b =
    a.provider == b.provider
    && (bytes_eq a.region b.region && (a.start == b.start && a.seconds == b.seconds))

-- on conflict (provider_id, region, probe_type, window_start, window_seconds) do nothing
unfoldable pub insert_window : Window → List Window → List Window
insert_window w ws = if exists (same_window w) ws then ws else ws ++ w ∷ []

unfoldable pub insert_windows : (Group → Window) → List Group → List Window → List Window
unfolding insert_window
insert_windows f [] ws = ws
insert_windows f (g ∷ gs) ws = insert_windows f gs (insert_window (f g) ws)

unfoldable pub settle_window : Config → ℕ → Store → Result (Unit {0} × Store)
unfolding observed per_target groups_of window_of insert_windows
settle_window cfg start s =
    let end = start + cfg.window_seconds * second in
    let vs = per_target start end s in
    ok (
      tt,
      record s {
        windows =
            insert_windows (window_of cfg start s (observed start end s) vs) (groups_of vs)
              s.windows;
      },
    )

-- state in ('active','quarantined')
unfoldable pub is_judged : List Worker → ℕ → Bool
is_judged ws id =
    exists (λ w. w.id == id && (same_state w.state active || same_state w.state quarantined)) ws

-- on conflict (worker_id, window_start) do nothing
unfoldable pub insert_agreements : ℕ → List Sample → List Agreement → List Agreement
insert_agreements start [] as_ = as_
insert_agreements start (x ∷ xs) as_ = insert_agreements start xs (
    if exists (λ (a : Agreement). a.worker == x.worker && a.start == start) as_
    then as_
    else as_ ++ record { worker = x.worker; start = start } ∷ [])

unfoldable pub settle_agreements : Config → ℕ → Store → Result (Unit {0} × Store)
unfolding is_judged insert_agreements
settle_agreements cfg start s = ok (
  tt,
  record s {
    agreements =
        insert_agreements start
          (select
            (λ x.
              in_window start (start + cfg.window_seconds * second) x
              && is_judged s.db.workers x.worker)
            s.samples)
          s.agreements;
  },
)

-- ComputeWindow
unfoldable pub compute_window : Config → ℕ → M Store (Unit {0})
unfolding with_defaults settle_window settle_agreements
compute_window cfg start =
    exec (settle_window (with_defaults cfg) start)
    >>= (λ u. exec (settle_agreements (with_defaults cfg) start))
