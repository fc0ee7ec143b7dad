-- ===== src/Aggregation/Anomalies.antt =====
-- internal/aggregate/aggregate.go, `handleTransition` and `checkLatencyAnomaly`.
pub mod Single
use vpsa_network_discovery.Prelude.{
  ℕ, zero, suc, ◌+◌, ◌-◌, ◌*◌, ◌/◌, ◌≡◌, Bool, true, false, not, ◌&&◌, ◌||◌, Option, none, some,
  List, [], ◌∷◌, ◌++◌, bytes_eq, is_none, ltb, leb, ◌==◌, if◌then◌else◌, length,
}
use vpsa_network_discovery.Sql.{Result, ok, err, M, Conn, exec, pure, ◌>>=◌}
use vpsa_network_discovery.Sql.Table.{update, exists, select}
use vpsa_network_discovery.Sorting.{sort_by, ascending}
use vpsa_network_discovery.Aggregation.{
  Verdict, healthy, degraded, outage, insufficient_data, AnomalyKind, reachability_loss,
  latency_regression, kind_code, Severity, critical, warning, Anomaly, Window, Store, hour,
  global_region,
}

-- provider_id = $1 and kind = $2 and resolved_at is null
abbrev pub is_open : ℕ → AnomalyKind → Anomaly → Bool
is_open provider kind a =
    a.provider == provider && (kind_code a.kind == kind_code kind && is_none a.resolved_at)

abbrev pub opened : ℕ → AnomalyKind → Severity → ℕ → Anomaly
opened provider kind severity at = record {
  provider = provider;
  kind = kind;
  severity = severity;
  opened_at = at;
  resolved_at = none;
}

-- insert into aggregation.anomaly … where not exists …
unfoldable pub open_anomaly : ℕ → AnomalyKind → Severity → ℕ → List Anomaly → List Anomaly
open_anomaly provider kind severity at as_ =
    if exists (is_open provider kind) as_ then as_ else as_ ++ opened provider kind severity at ∷ []

unfoldable pub resolve : ℕ → AnomalyKind → ℕ → List Anomaly → List Anomaly
resolve provider kind at as_ =
    update (is_open provider kind) (λ a. record a { resolved_at = some at }) as_

-- A statement on the anomalies.
unfoldable pub on_anomalies : (List Anomaly → List Anomaly) → Store → Result (Unit {0} × Store)
on_anomalies f s = ok (tt, record s { anomalies = f s.anomalies })

-- An error is logged.
unfoldable pub logged : M Store (Unit {0}) → M Store (Unit {0})
logged m c = (ok tt, (m c).1)

-- verdict == "outage" || (verdict == "degraded" && prev == "healthy"); `none` where there was no
-- status yet.
unfoldable pub opens : Option Verdict → Verdict → Bool
opens prev outage = true
opens (some healthy) degraded = true
opens _ _ = false

unfoldable pub severity_of : Verdict → Severity
severity_of degraded = warning
severity_of _ = critical

unfoldable pub is_healthy : Verdict → Bool
is_healthy healthy = true
is_healthy _ = false

unfoldable pub maybe_open : ℕ → Option Verdict → Verdict → ℕ → M Store (Unit {0})
unfolding opens severity_of open_anomaly on_anomalies logged
maybe_open provider prev verdict at =
    if opens prev verdict
    then logged
        (exec (on_anomalies (open_anomaly provider reachability_loss (severity_of verdict) at)))
    else pure tt

unfoldable pub maybe_resolve : ℕ → Verdict → ℕ → M Store (Unit {0})
unfolding is_healthy resolve on_anomalies logged
maybe_resolve provider verdict at =
    if is_healthy verdict
    then logged (exec (on_anomalies (resolve provider reachability_loss at)))
    else pure tt

-- handleTransition
unfoldable pub handle_transition : ℕ → Option Verdict → Verdict → ℕ → M Store (Unit {0})
unfolding maybe_open maybe_resolve
handle_transition provider prev verdict at =
    maybe_open provider prev verdict at >>= (λ u. maybe_resolve provider verdict at)

unfoldable pub nth : List ℕ → ℕ → ℕ
nth [] i = 0
nth (x ∷ xs) zero = x
nth (x ∷ xs) (suc i) = nth xs i

-- percentile_cont(0.5), doubled; null of no rows.
unfoldable pub median : List ℕ → Option ℕ
unfolding nth
median [] = none
median (x ∷ xs) =
    let sorted = sort_by (ascending (λ n. n)) (x ∷ xs) in
    some (nth sorted (length xs / 2) + nth sorted ((length xs + 1) / 2))

unfoldable pub p50s : List Window → List ℕ
p50s [] = []
p50s (w ∷ ws) = elim w.p50 [ none ↦ p50s ws | some p ↦ p ∷ p50s ws ]

-- region = 'global' and window_start >= $2 - interval '6 hours' and window_start < $2
abbrev pub precedes : ℕ → ℕ → Window → Bool
precedes provider at w =
    w.provider == provider
    && (bytes_eq w.region global_region && (leb at (w.start + 6 * hour) && ltb w.start at))

-- The trailing baseline, in quarter units.
unfoldable pub select_baseline : ℕ → ℕ → Store → Result (Option ℕ × Store)
unfolding median p50s
select_baseline provider at s = ok (median (p50s (select (precedes provider at) s.windows)), s)

-- p50 >= baseline * factor, and p50 < baseline * 1.2
abbrev pub regressed : ℕ → ℕ → ℕ → Bool
regressed factor p50 baseline = leb (baseline * factor) (2 * p50 * 1000)

abbrev pub recovered : ℕ → ℕ → Bool
recovered p50 baseline = ltb (2 * p50 * 10) (baseline * 12)

unfoldable pub judge_latency : ℕ → ℕ → ℕ → ℕ → Option ℕ → M Store (Unit {0})
unfolding open_anomaly resolve on_anomalies
judge_latency factor provider p50 at none = pure tt
judge_latency factor provider p50 at (some baseline) =
    if baseline == 0
    then pure tt
    else if regressed factor p50 baseline
    then exec (on_anomalies (open_anomaly provider latency_regression warning at))
    else if recovered p50 baseline
    then exec (on_anomalies (resolve provider latency_regression at))
    else pure tt

-- checkLatencyAnomaly
unfoldable pub check_latency : ℕ → ℕ → ℕ → ℕ → M Store (Unit {0})
unfolding select_baseline judge_latency logged
check_latency factor provider p50 at =
    logged (exec (select_baseline provider at) >>= judge_latency factor provider p50 at)
