-- ===== src/Aggregation/Status/Step.antt =====
-- internal/aggregate/aggregate.go, `RollupStatus`: the body of the loop over the providers.
use vpsa_network_discovery.Prelude.{
  ℕ, ◌≤◌, ◌≡◌, refl, sym, subst, ap, ◌∙◌, inl, inr, false, Option, none, some, List, Bytes, arith,
  ◌==◌, ==_iff, ==_refl, if◌then◌else◌, Bool-cases, All,
}
use vpsa_network_discovery.Sql.Calm.{Reaches, Reaches-exec, Reaches-bind, Reaches-weaken}
use vpsa_network_discovery.Sql.Table.{count, find}
use vpsa_network_discovery.Aggregation.{
  Config, Verdict, Window, ProviderStatus, Anomaly, Store, global_region,
}
use vpsa_network_discovery.Aggregation.Status.{
  is_status, verdict_of, select_verdict, roll_up, put_statuses, global_of,
}
use vpsa_network_discovery.Aggregation.Status.Seen.{seen, settled, is_global, put_statuses-seen}
use vpsa_network_discovery.Aggregation.Status.Incident.{
  incident_of, advance, raised, claim, incident_eq, raise_moved,
}
use vpsa_network_discovery.Aggregation.Status.Moves.{Followed, with_global-Reaches}

module _ (name : ℕ → Bytes) (now : ℕ) (cfg : Config) (p : ℕ) (wins : List Window) (s : Store) where
  -- The incidents after the loop's body: that of the provider has advanced.
  abbrev pub Advanced : Store → Type 0
  Advanced t =
      (q : ℕ)
      → incident_of q t
        ≡ (if p == q then advance (incident_of q s) (claim (global_of wins)) else incident_of q s)

  -- What the statuses say after the loop over the windows.
  abbrev Settled : Option Window → Store → Type 0
  Settled g t =
      (q : ℕ)
      → seen q global_region t.statuses ≡ (
          if p == q
          then settled g (seen q global_region s.statuses)
          else seen q global_region s.statuses)

  abbrev prev : Option Verdict
  prev = verdict_of (find (is_status p global_region) s.statuses)

  at_self :
      (w : Window) (t : Store)
      → Followed p prev (some w) s.anomalies t.anomalies
      → Settled (some w) t
      → incident_of p t ≡ advance (incident_of p s) (claim (some w))
  unfolding advance
  at_self w t m e =
      incident_eq _ _
        (m p
          ∙ rw (==_refl p) (
              raise_moved (raised p s.anomalies) (find (is_status p global_region) s.statuses)
                w.verdict))
        (e p ∙ rw (==_refl p) refl)

  flipped : (q : ℕ) → (p == q) ≡ false → (q == p) ≡ false
  flipped q h = ground (arith, h)

  at_incident :
      (g : Option Window) (t : Store) (q : ℕ)
      → Followed p prev g s.anomalies t.anomalies
      → Settled g t
      → incident_of q t ≡ (if p == q then advance (incident_of q s) (claim g) else incident_of q s)
  unfolding advance
  at_incident none t q m e = elim (Bool-cases (p == q)) [
    | inl h ↦ incident_eq _ _ (rw h (m q)) (rw h (e q ∙ rw h refl))
    | inr h ↦ incident_eq _ _ (rw h (m q)) (rw h (e q ∙ rw h refl))
  ]
  at_incident (some w) t q m e = elim (Bool-cases (p == q)) [
    | inl h ↦ rw h (
        subst (λ (n : ℕ). incident_of n t ≡ advance (incident_of n s) (claim (some w)))
          ((==_iff p q).0 h) (at_self w t m e))
    | inr h ↦ incident_eq _ _ (rw h (m q ∙ rw (flipped q h) refl)) (rw h (e q ∙ rw h refl))
  ]

  pub roll_up-Advanced :
      All (λ (w : Window). w.provider ≡ p) wins
      → count is_global wins ≤ 1
      → Reaches (λ (u : Unit {0}) t. Advanced t) (roll_up name now cfg p wins) s
  unfolding roll_up select_verdict
  roll_up-Advanced a h =
      Reaches-bind _ _ s
        (Reaches-exec {Q = λ (o : Option Verdict) t. (o ≡ prev) × (t ≡ s)} (select_verdict p) s prev
          s refl (refl, refl))
        λ o t (eo, et). Reaches-bind _ _ t (put_here t et) λ u t' (same, e).
          Reaches-weaken _ t'
            (λ u' t'' (kept, m) q.
              at_incident (global_of wins) t'' q
                (subst
                  (λ (x : Option Verdict). Followed p x (global_of wins) s.anomalies t''.anomalies)
                  eo
                  (subst (λ (xs : List Anomaly). Followed p o (global_of wins) xs t''.anomalies)
                    same m))
                λ q'. ap (λ (rs : List ProviderStatus). seen q' global_region rs) kept ∙ e q')
            (with_global-Reaches name now cfg p o (global_of wins) t')
    where
      put_here :
          (t : Store)
          → t ≡ s
          → Reaches
              (λ (u : Unit {0}) t'. (t'.anomalies ≡ s.anomalies) × Settled (global_of wins) t')
              (put_statuses now wins)
              t
      put_here t e =
          subst
            (λ (x : Store).
              Reaches
                (λ (u : Unit {0}) t'. (t'.anomalies ≡ s.anomalies) × Settled (global_of wins) t')
                (put_statuses now wins) x)
            (sym e) (put_statuses-seen p now wins s a h)
