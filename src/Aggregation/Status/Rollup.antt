-- ===== src/Aggregation/Status/Rollup.antt =====
-- internal/aggregate/aggregate.go, `RollupStatus`, over all providers.
use vpsa_network_discovery.Prelude.{
  ℕ, ◌≤◌, ◌≡◌, refl, inl, inr, Bool, true, not, ◌&&◌, List, [], ◌∷◌, Bytes, bytes_eq-eq,
  bytes_eq_refl, arith, ltb, ◌==◌, ==_iff, ==_refl, if◌then◌else◌, Bool-cases,
}
use vpsa_network_discovery.Sql.Table.{exists, count, select}
use vpsa_network_discovery.Sql.Counting.{count-delete-le, count-delete_none}
use vpsa_network_discovery.Aggregation.{Config, Window, Store, global_region}
use vpsa_network_discovery.Aggregation.Status.{same_series, distinct, newest, global_of}
use vpsa_network_discovery.Aggregation.Status.Seen.{is_global}
use vpsa_network_discovery.Aggregation.Status.Incident.{Incident, incident_of, advance, claim}

abbrev pub of : ℕ → List Window → List Window
of p ws = select (λ (w : Window). w.provider == p) ws

-- The global windows of a provider.
abbrev in_global : ℕ → Window → Bool
in_global p w = w.provider == p && is_global w

one_series :
    (p : ℕ) (w v : Window) → in_global p w ≡ true → in_global p v ≡ true → same_series w v ≡ true
one_series p w v h k =
    rw
      (
        (==_iff w.provider p).0 (ground (arith, h)),
        (==_iff v.provider p).0 (ground (arith, k)),
        ==_refl p,
        bytes_eq-eq w.region global_region (ground (arith, h)),
        bytes_eq-eq v.region global_region (ground (arith, k)),
        bytes_eq_refl global_region,
      )
      refl

count-distinct : (p : ℕ) (ws : List Window) → count (in_global p) (distinct ws) ≤ 1
unfolding count distinct
count-distinct p [] = omega arith
count-distinct p (w ∷ ws) = elim (Bool-cases (in_global p w)) [
  | inl h ↦ ground (
    arith,
    h,
    count-delete_none (in_global p) (same_series w) (distinct ws) λ v k. one_series p w v h k,
  )
  | inr h ↦
      ground
        (arith, h, count-distinct p ws, count-delete-le (in_global p) (same_series w) (distinct ws))
]

module _ (name : ℕ → Bytes) (now : ℕ) (cfg : Config) (ws : List Window)
    (single : (p : ℕ) → count (in_global p) ws ≤ 1) where
  abbrev Turned : Store → List ℕ → Store → Type 0
  Turned s ps t =
      (q : ℕ)
      → incident_of q t ≡ (
          if exists (λ p. p == q) ps
          then advance (incident_of q s) (claim (global_of (of q ws)))
          else incident_of q s)

single : (ws : List Window) (p : ℕ) → count (in_global p) (newest ws) ≤ 1
unfolding newest
single ws p =
    count-distinct p
      (select (λ w. not (exists (λ v. same_series w v && ltb w.start v.start) ws)) ws)

abbrev Followed : Store → Store → Type 0
Followed s t =
    (q : ℕ)
    → incident_of q t ≡ advance (incident_of q s) (claim (global_of (of q (newest s.windows))))

-- Nothing of what the rollup of the verdicts reads has changed.
pub record IsApart (s t : Store) : Type 0 where
  pub windows : t.windows ≡ s.windows
  pub anomalies : t.anomalies ≡ s.anomalies
  pub statuses : t.statuses ≡ s.statuses
