-- ===== src/Aggregation/Status/Tidy.antt =====
-- internal/aggregate/aggregate.go, `RollupStatus`: what every statement keeps.
use vpsa_network_discovery.Prelude.{
  ℕ, ◌+◌, ◌≤◌, ◌≡◌, refl, subst, inl, inr, true, false, ◌&&◌, Option, none, some, List, [], ◌∷◌,
  ◌++◌, Bytes, bytes_eq, bytes_eq-eq, arith, ◌==◌, ==_iff, Bool-cases,
}
use vpsa_network_discovery.Sql.{M, Conn, exec}
use vpsa_network_discovery.Sql.Keeps.{Keeps, Keeps-pure, Keeps-bind, Keeps-if, Keeps-leaves}
use vpsa_network_discovery.Sql.Table.{exists, count, select}
use vpsa_network_discovery.Sql.Counting.{count-append, count_none, count-update_same}
use vpsa_network_discovery.Aggregation.{
  Config, Verdict, Severity, Window, ProviderStatus, Anomaly, AnomalyKind, reachability_loss,
  latency_regression, warning, Store, with_defaults,
}
use vpsa_network_discovery.Aggregation.Anomalies.{
  is_open, open_anomaly, resolve, on_anomalies, logged, opens, is_healthy, maybe_open,
  maybe_resolve, handle_transition, select_baseline, judge_latency, check_latency, regressed,
  recovered,
}
use vpsa_network_discovery.Aggregation.Anomalies.Single.{count-open_anomaly, count-resolve}
use vpsa_network_discovery.Aggregation.Targets.{refresh_target_status, put_targets, delete_stale}
use vpsa_network_discovery.Aggregation.Status.{
  is_status, since_of, new_status, upsert_status, put_status, put_statuses, select_verdict, changed,
  transition, latency, queue_document, read_document, with_global, roll_up, roll_up_all,
  providers_of, select_newest, roll_up_newest, rollup_status, global_of,
}

-- A provider has at most one open anomaly of a kind, and one status in a region.
pub record IsTidy (s : Store) : Type 0 where
  pub anomaly : (p : ℕ) (k : AnomalyKind) → count (is_open p k) s.anomalies ≤ 1
  pub status : (p : ℕ) (r : Bytes) → count (is_status p r) s.statuses ≤ 1

count-upsert_status :
    (p : ℕ) (r : Bytes) (now : ℕ) (w : Window) (rs : List ProviderStatus)
    → count (is_status p r) rs ≤ 1
    → count (is_status p r) (upsert_status now w rs) ≤ 1
unfolding upsert_status count
count-upsert_status p r now w rs h = elim (Bool-cases (exists (is_status w.provider w.region) rs)) [
  | inl t ↦ ground (
    arith,
    t,
    h,
    count-update_same (is_status p r) (is_status w.provider w.region)
        (λ x. record x { verdict = w.verdict; since = since_of now w x; updated_at = now }) rs
        (λ x. refl),
  )
  | inr f ↦ elim (Bool-cases (w.provider == p && bytes_eq w.region r)) [
    | inl e ↦ ground (arith, f, e, appended, count_none (is_status p r) rs (absent e f))
    | inr e ↦ ground (arith, f, e, appended, h)
  ]
]
  where
    appended :
        count (is_status p r) (rs ++ new_status now w ∷ [])
        ≡ count (is_status p r) rs + count (is_status p r) (new_status now w ∷ [])
    appended = count-append (is_status p r) rs (new_status now w ∷ [])

    absent :
        (w.provider == p && bytes_eq w.region r) ≡ true
        → exists (is_status w.provider w.region) rs ≡ false
        → exists (is_status p r) rs ≡ false
    absent e f =
        subst (λ (b : Bytes). exists (is_status p b) rs ≡ false)
          (bytes_eq-eq w.region r (ground (arith, e)))
          (subst (λ (n : ℕ). exists (is_status n w.region) rs ≡ false)
            ((==_iff w.provider p).0 (ground (arith, e))) f)

logged-Keeps : (m : M Store (Unit {0})) → Keeps IsTidy m → Keeps IsTidy (logged m)
unfolding logged
logged-Keeps m k = record { at = λ c h. k.at c h }

on_anomalies-IsTidy :
    (f : List Anomaly → List Anomaly)
    → ((p : ℕ) (k : AnomalyKind) (as_ : List Anomaly)
        → count (is_open p k) as_ ≤ 1
        → count (is_open p k) (f as_) ≤ 1)
    → Keeps IsTidy (exec (on_anomalies f))
unfolding on_anomalies
on_anomalies-IsTidy f k =
    Keeps-leaves (on_anomalies f)
      λ s v. record { anomaly = λ p j. k p j s.anomalies (v.anomaly p j); status = v.status }

opening :
    (p : ℕ) (k : AnomalyKind) (v : Severity) (at : ℕ)
    → Keeps IsTidy (exec (on_anomalies (open_anomaly p k v at)))
opening p k v at = on_anomalies-IsTidy _ λ q j as_ h. count-open_anomaly q j p k v at as_ h

resolving : (p : ℕ) (k : AnomalyKind) (at : ℕ) → Keeps IsTidy (exec (on_anomalies (resolve p k at)))
resolving p k at = on_anomalies-IsTidy _ λ q j as_ h. omega (arith, h, count-resolve q j p k at as_)

handle_transition-IsTidy :
    (p : ℕ) (prev : Option Verdict) (v : Verdict) (at : ℕ)
    → Keeps IsTidy (handle_transition p prev v at)
unfolding handle_transition maybe_open maybe_resolve
handle_transition-IsTidy p prev v at =
    Keeps-bind _ _
      (Keeps-if (opens prev v) _ _ (logged-Keeps _ (opening p reachability_loss _ at))
        (Keeps-pure tt))
      λ u.
        Keeps-if (is_healthy v) _ _ (logged-Keeps _ (resolving p reachability_loss at))
          (Keeps-pure tt)

judge_latency-IsTidy :
    (factor p p50 at : ℕ) (b : Option ℕ) → Keeps IsTidy (judge_latency factor p p50 at b)
unfolding judge_latency
judge_latency-IsTidy factor p p50 at none = Keeps-pure tt
judge_latency-IsTidy factor p p50 at (some b) = Keeps-if (b == 0) _ _ (Keeps-pure tt) (
    Keeps-if (regressed factor p50 b) _ _ (opening p latency_regression warning at)
      (Keeps-if (recovered p50 b) _ _ (resolving p latency_regression at) (Keeps-pure tt)))

latency-IsTidy : (factor p : ℕ) (w : Window) (o : Option ℕ) → Keeps IsTidy (latency factor p w o)
unfolding latency check_latency select_baseline
latency-IsTidy factor p w none = Keeps-pure tt
latency-IsTidy factor p w (some p50) = logged-Keeps _ (
    Keeps-bind _ _ (Keeps-leaves (select_baseline p w.start) λ s v. v)
      (judge_latency-IsTidy factor p p50 w.start))

put_statuses-IsTidy : (now : ℕ) (ws : List Window) → Keeps IsTidy (put_statuses now ws)
unfolding put_statuses put_status
put_statuses-IsTidy now [] = Keeps-pure tt
put_statuses-IsTidy now (w ∷ ws) =
    Keeps-bind _ _
      (Keeps-leaves (put_status now w) λ s v. record {
        anomaly = v.anomaly;
        status = λ p r. count-upsert_status p r now w s.statuses (v.status p r);
      })
      λ u. put_statuses-IsTidy now ws

abbrev of : ℕ → List Window → List Window
of p ws = select (λ (w : Window). w.provider == p) ws

module _ (name : ℕ → Bytes) (now : ℕ) (cfg : Config) where
  with_global-IsTidy :
      (p : ℕ) (prev : Option Verdict) (w : Option Window)
      → Keeps IsTidy (with_global name now cfg p prev w)
  unfolding with_global transition read_document queue_document
  with_global-IsTidy p prev none = Keeps-pure tt
  with_global-IsTidy p prev (some w) =
      Keeps-bind _ _
        (Keeps-if (changed prev w.verdict) _ _ (handle_transition-IsTidy p prev w.verdict w.start)
          (Keeps-pure tt))
        λ u. Keeps-bind _ _ (latency-IsTidy cfg.latency_factor p w w.p50) λ u'.
          Keeps-bind _ _ (Keeps-leaves read_document λ s v. v) λ u''.
            Keeps-leaves (queue_document name now p)
              λ s v. record { anomaly = v.anomaly; status = v.status }

  roll_up_all-IsTidy :
      (ws : List Window) (ps : List ℕ) → Keeps IsTidy (roll_up_all name now cfg ws ps)
  unfolding roll_up_all roll_up select_verdict
  roll_up_all-IsTidy ws [] = Keeps-pure tt
  roll_up_all-IsTidy ws (p ∷ ps) =
      Keeps-bind _ _
        (Keeps-bind _ _ (Keeps-leaves (select_verdict p) λ s v. v) λ prev.
          Keeps-bind _ _ (put_statuses-IsTidy now (of p ws))
            λ u. with_global-IsTidy p prev (global_of (of p ws)))
        λ u. roll_up_all-IsTidy ws ps

-- A rollup, at whichever statement it stops and whichever failures it only logs, keeps at most one
-- open anomaly of each kind of a provider and at most one status of a provider in a region.
pub rollup_status-IsTidy :
    (name : ℕ → Bytes) (now : ℕ) (cfg : Config) (c : Conn Store)
    → IsTidy c.db
    → IsTidy (rollup_status name now cfg c).1.db
unfolding rollup_status select_newest roll_up_newest refresh_target_status put_targets delete_stale
rollup_status-IsTidy name now cfg c h =
    (Keeps-bind _ _
        (Keeps-bind _ _
          (Keeps-leaves (put_targets (with_defaults cfg) now)
            λ s v. record { anomaly = v.anomaly; status = v.status })
          λ u.
            Keeps-leaves (delete_stale (with_defaults cfg) now)
              λ s v. record { anomaly = v.anomaly; status = v.status })
        λ u.
          Keeps-bind _ _ (Keeps-leaves select_newest λ s v. v)
            λ ws. roll_up_all-IsTidy name now (with_defaults cfg) ws (providers_of ws)).at
      c h
