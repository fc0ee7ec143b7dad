-- ===== src/Aggregation/Anomalies/Single.antt =====
-- internal/aggregate/aggregate.go: the open anomalies of a provider, statement by statement.
use vpsa_network_discovery.Prelude.{
  ℕ, ◌+◌, ◌≤◌, ◌≡◌, refl, ap, ◌∙◌, inl, inr, Bool, true, false, ◌&&◌, ◌||◌, List, [], ◌∷◌, ◌++◌,
  arith, ◌==◌, ==_iff, Bool-cases,
}
use vpsa_network_discovery.Sql.Table.{update, exists, count, exists-append, exists-single}
use vpsa_network_discovery.Sql.Counting.{count-append, count_none}
use vpsa_network_discovery.Aggregation.{AnomalyKind, kind_code, Severity, Anomaly}
use vpsa_network_discovery.Aggregation.Anomalies.{is_open, opened, open_anomaly, resolve}

abbrev pub same_series : ℕ → AnomalyKind → ℕ → AnomalyKind → Bool
same_series p k q j = p == q && kind_code k == kind_code j

module _ (p : ℕ) (k : AnomalyKind) where
  is_open_same :
      (q : ℕ) (j : AnomalyKind) (a : Anomaly)
      → same_series p k q j ≡ true
      → is_open p k a ≡ is_open q j a
  is_open_same q j a h =
      rw
        (
          (==_iff p q).0 (ground (arith, h)),
          (==_iff (kind_code k) (kind_code j)).0 (ground (arith, h)),
        )
        refl

  exists_same :
      (q : ℕ) (j : AnomalyKind) (as_ : List Anomaly)
      → same_series p k q j ≡ true
      → exists (is_open p k) as_ ≡ exists (is_open q j) as_
  unfolding exists
  exists_same q j [] h = refl
  exists_same q j (a ∷ as_) h = ground (arith, is_open_same q j a h, exists_same q j as_ h)

  pub exists-open_anomaly :
      (q : ℕ) (j : AnomalyKind) (v : Severity) (at : ℕ) (as_ : List Anomaly)
      → exists (is_open p k) (open_anomaly q j v at as_)
        ≡ (exists (is_open p k) as_ || same_series p k q j)
  unfolding open_anomaly
  exists-open_anomaly q j v at as_ = elim (Bool-cases (same_series p k q j)) [
    | inl h ↦ ground (arith, h, exists_same q j as_ h, appended)
    | inr h ↦ ground (arith, h, appended)
  ]
    where
      appended :
          exists (is_open p k) (as_ ++ opened q j v at ∷ [])
          ≡ (exists (is_open p k) as_ || is_open p k (opened q j v at))
      appended =
          exists-append (is_open p k) as_ (opened q j v at ∷ [])
          ∙ ap (λ b. exists (is_open p k) as_ || b) (exists-single (is_open p k) (opened q j v at))

  pub exists-resolve :
      (at : ℕ) (as_ : List Anomaly) → exists (is_open p k) (resolve p k at as_) ≡ false
  unfolding exists update resolve
  exists-resolve at [] = refl
  exists-resolve at (a ∷ as_) = ground (arith, exists-resolve at as_)

  pub exists-resolve_other :
      (q : ℕ) (j : AnomalyKind) (at : ℕ) (as_ : List Anomaly)
      → same_series p k q j ≡ false
      → exists (is_open p k) (resolve q j at as_) ≡ exists (is_open p k) as_
  unfolding exists update resolve
  exists-resolve_other q j at [] h = refl
  exists-resolve_other q j at (a ∷ as_) h = ground (arith, h, exists-resolve_other q j at as_ h)

  pub count-open_anomaly :
      (q : ℕ) (j : AnomalyKind) (v : Severity) (at : ℕ) (as_ : List Anomaly)
      → count (is_open p k) as_ ≤ 1
      → count (is_open p k) (open_anomaly q j v at as_) ≤ 1
  unfolding open_anomaly count
  count-open_anomaly q j v at as_ h = elim (Bool-cases (same_series p k q j)) [
    | inl e ↦ elim (Bool-cases (exists (is_open q j) as_)) [
      | inl t ↦ ground (arith, t, h)
      | inr f ↦
          ground (arith, f, e, appended, count_none (is_open p k) as_ (exists_same q j as_ e ∙ f))
    ]
    | inr e ↦ ground (arith, e, h, appended)
  ]
    where
      appended :
          count (is_open p k) (as_ ++ opened q j v at ∷ [])
          ≡ count (is_open p k) as_ + count (is_open p k) (opened q j v at ∷ [])
      appended = count-append (is_open p k) as_ (opened q j v at ∷ [])

  pub count-resolve :
      (q : ℕ) (j : AnomalyKind) (at : ℕ) (as_ : List Anomaly)
      → count (is_open p k) (resolve q j at as_) ≤ count (is_open p k) as_
  unfolding count update resolve
  count-resolve q j at [] = omega arith
  count-resolve q j at (a ∷ as_) = ground (arith, count-resolve q j at as_)
