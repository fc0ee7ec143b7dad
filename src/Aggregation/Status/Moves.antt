-- ===== src/Aggregation/Status/Moves.antt =====
-- internal/aggregate/aggregate.go, `handleTransition` and `checkLatencyAnomaly`: what each does to
-- the open anomalies, on runs on which no statement fails.
use vpsa_network_discovery.Prelude.{
  ℕ, ◌≡◌, refl, sym, subst, ◌∙◌, inl, inr, Bool, true, false, not, ◌&&◌, ◌||◌, Option, none, some,
  List, Bytes, arith, ◌==◌, ==_iff, if◌then◌else◌, Bool-cases,
}
use vpsa_network_discovery.Sql.{M, exec}
use vpsa_network_discovery.Sql.Calm.{
  Reaches, Reaches-pure, Reaches-exec, Reaches-bind, Reaches-if, Reaches-weaken,
}
use vpsa_network_discovery.Aggregation.{
  Config, Verdict, Window, reachability_loss, latency_regression, kind_code, warning, Anomaly,
  Store,
}
use vpsa_network_discovery.Aggregation.Anomalies.{
  open_anomaly, resolve, on_anomalies, logged, opens, severity_of, is_healthy, maybe_open,
  maybe_resolve, handle_transition, select_baseline, judge_latency, check_latency, regressed,
  recovered,
}
use vpsa_network_discovery.Aggregation.Anomalies.Single.{
  exists-open_anomaly, exists-resolve, exists-resolve_other,
}
use vpsa_network_discovery.Aggregation.Status.{
  changed, transition, latency, queue_document, read_document, with_global,
}
use vpsa_network_discovery.Aggregation.Status.Incident.{raised}

logged-Reaches :
    {Q : Unit {0} → Store → Type 0} (m : M Store (Unit {0})) (s : Store)
    → Reaches Q m s
    → Reaches Q (logged m) s
unfolding logged
logged-Reaches m s h = record { value = tt; left = h.left; runs = rw h.runs refl; holds = h.holds }

-- The statuses are left.
abbrev pub Still : (List Anomaly → List Anomaly → Type 0) → Store → Unit {0} → Store → Type 0
Still R s u t = (t.statuses ≡ s.statuses) × R s.anomalies t.anomalies

on_anomalies-Reaches :
    (R : List Anomaly → List Anomaly → Type 0) (f : List Anomaly → List Anomaly) (s : Store)
    → R s.anomalies (f s.anomalies)
    → Reaches (Still R s) (exec (on_anomalies f)) s
unfolding on_anomalies
on_anomalies-Reaches R f s h =
    Reaches-exec (on_anomalies f) s tt (record s { anomalies = f s.anomalies }) refl (refl, h)

abbrev Opened : ℕ → Bool → List Anomaly → List Anomaly → Type 0
Opened p b xs ys = (q : ℕ) → raised q ys ≡ (raised q xs || (b && q == p))

abbrev Resolved : ℕ → Bool → List Anomaly → List Anomaly → Type 0
Resolved p b xs ys = (q : ℕ) → raised q ys ≡ (if b && q == p then false else raised q xs)

abbrev pub Untouched : List Anomaly → List Anomaly → Type 0
Untouched xs ys = (q : ℕ) → raised q ys ≡ raised q xs

or_false : (b : Bool) → b ≡ (b || false)
or_false true = refl
or_false false = refl

maybe_open-Reaches :
    (p : ℕ) (prev : Option Verdict) (v : Verdict) (at : ℕ) (s : Store)
    → Reaches (Still (Opened p (opens prev v)) s) (maybe_open p prev v at) s
unfolding maybe_open
maybe_open-Reaches p prev v at s =
    Reaches-if (opens prev v) _ _ s
      (λ h. logged-Reaches _ s (
        on_anomalies-Reaches (Opened p (opens prev v)) _ s λ q. ground (
          arith,
          h,
          exists-open_anomaly q reachability_loss p reachability_loss (severity_of v) at
              s.anomalies,
        )))
      λ h. Reaches-pure tt s (refl, λ q. rw h (or_false (raised q s.anomalies)))

resolve-Resolved :
    (p at : ℕ) (as_ : List Anomaly) → Resolved p true as_ (resolve p reachability_loss at as_)
resolve-Resolved p at as_ q = elim (Bool-cases (q == p)) [
  | inl h ↦ rw h (
      subst (λ (n : ℕ). raised n (resolve p reachability_loss at as_) ≡ false)
        (sym ((==_iff q p).0 h)) (exists-resolve p reachability_loss at as_))
  | inr h ↦
      rw h (exists-resolve_other q reachability_loss p reachability_loss at as_ (ground (arith, h)))
]

maybe_resolve-Reaches :
    (p : ℕ) (v : Verdict) (at : ℕ) (s : Store)
    → Reaches (Still (Resolved p (is_healthy v)) s) (maybe_resolve p v at) s
unfolding maybe_resolve
maybe_resolve-Reaches p v at s =
    Reaches-if (is_healthy v) _ _ s
      (λ h. logged-Reaches _ s (
        on_anomalies-Reaches (Resolved p (is_healthy v)) _ s
          (rw h (resolve-Resolved p at s.anomalies))))
      λ h. Reaches-pure tt s (refl, λ q. rw h refl)

-- What handleTransition does to the incident of the provider `p`.
abbrev pub Moved : ℕ → Option Verdict → Verdict → List Anomaly → List Anomaly → Type 0
Moved p prev v xs ys =
    (q : ℕ)
    → raised q ys ≡ (
        if q == p
        then (if changed prev v
            then not (is_healthy v) && (raised q xs || opens prev v)
            else raised q xs)
        else raised q xs)

moves :
    (b c h o same : Bool)
    → c ≡ true
    → (if h && same then false else b || (o && same))
      ≡ (if same then (if c then not h && (b || o) else b) else b)
moves b c h o same e = ground (arith, e)

transition-Reaches :
    (p : ℕ) (prev : Option Verdict) (w : Window) (s : Store)
    → Reaches (Still (Moved p prev w.verdict) s) (transition p prev w) s
unfolding transition handle_transition
transition-Reaches p prev w s =
    Reaches-if (changed prev w.verdict) _ _ s
      (λ h. Reaches-bind _ _ s (maybe_open-Reaches p prev w.verdict w.start s) λ u t (e, o).
        Reaches-weaken _ t
          (λ u' t' (e', o'). (
            e' ∙ e,
            λ q.
                o' q
                ∙ rw (o q) (
                    moves (raised q s.anomalies) (changed prev w.verdict) (is_healthy w.verdict)
                      (opens prev w.verdict) (q == p) h),
          ))
          (maybe_resolve-Reaches p w.verdict w.start t))
      λ h. Reaches-pure tt s (refl, λ q. ground (arith, h))

kinds_apart :
    (q p : ℕ) → (q == p && kind_code reachability_loss == kind_code latency_regression) ≡ false
unfolding kind_code
kinds_apart q p = ground arith

latency_apart :
    (p at : ℕ) (as_ : List Anomaly)
    → Untouched as_ (open_anomaly p latency_regression warning at as_)
latency_apart p at as_ q =
    exists-open_anomaly q reachability_loss p latency_regression warning at as_
    ∙ rw (kinds_apart q p) (sym (or_false (raised q as_)))

latency_resolved :
    (p at : ℕ) (as_ : List Anomaly) → Untouched as_ (resolve p latency_regression at as_)
latency_resolved p at as_ q =
    exists-resolve_other q reachability_loss p latency_regression at as_ (kinds_apart q p)

judge_latency-Reaches :
    (factor p p50 at : ℕ) (b : Option ℕ) (s : Store)
    → Reaches (Still Untouched s) (judge_latency factor p p50 at b) s
unfolding judge_latency
judge_latency-Reaches factor p p50 at none s = Reaches-pure tt s (refl, λ q. refl)
judge_latency-Reaches factor p p50 at (some b) s =
    Reaches-if (b == 0) _ _ s (λ h. Reaches-pure tt s (refl, λ q. refl))
      λ h.
        Reaches-if (regressed factor p50 b) _ _ s
          (λ h'. on_anomalies-Reaches Untouched _ s (latency_apart p at s.anomalies))
          λ h'.
            Reaches-if (recovered p50 b) _ _ s
              (λ h''. on_anomalies-Reaches Untouched _ s (latency_resolved p at s.anomalies))
              λ h''. Reaches-pure tt s (refl, λ q. refl)

latency-Reaches :
    (factor p : ℕ) (w : Window) (o : Option ℕ) (s : Store)
    → Reaches (Still Untouched s) (latency factor p w o) s
unfolding latency check_latency select_baseline
latency-Reaches factor p w none s = Reaches-pure tt s (refl, λ q. refl)
latency-Reaches factor p w (some p50) s = logged-Reaches _ s (
    Reaches-bind _ _ s
      (Reaches-exec {Q = λ (b : Option ℕ) t. t ≡ s} (select_baseline p w.start) s _ s refl refl)
      λ b t e. rw e (judge_latency-Reaches factor p p50 w.start b s))

-- What follows the statuses, for the provider `p` and its global window.
abbrev pub Followed : ℕ → Option Verdict → Option Window → List Anomaly → List Anomaly → Type 0
Followed p prev none xs ys = Untouched xs ys
Followed p prev (some w) xs ys = Moved p prev w.verdict xs ys

module _ (name : ℕ → Bytes) (now : ℕ) (cfg : Config) (p : ℕ) where
  pub with_global-Reaches :
      (prev : Option Verdict) (g : Option Window) (s : Store)
      → Reaches (Still (Followed p prev g) s) (with_global name now cfg p prev g) s
  unfolding with_global read_document queue_document
  with_global-Reaches prev none s = Reaches-pure tt s (refl, λ q. refl)
  with_global-Reaches prev (some w) s =
      Reaches-bind _ _ s (transition-Reaches p prev w s) λ u t (e, m).
        Reaches-bind _ _ t (latency-Reaches cfg.latency_factor p w w.p50 t) λ u' t' (e', m').
          Reaches-bind _ _ t'
            (Reaches-exec {Q = λ (u : Unit {0}) v. v ≡ t'} read_document t' tt t' refl refl)
            λ u'' t'' e''.
              Reaches-exec (queue_document name now p) t'' tt _ refl
                (rw e'' (e' ∙ e, λ q. m' q ∙ m q))
