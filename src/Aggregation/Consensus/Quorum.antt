-- ===== src/Aggregation/Consensus/Quorum.antt =====
-- internal/aggregate/aggregate.go, `ComputeWindow`: what a verdict rests on.
use vpsa_network_discovery.Prelude.{
  ℕ, ◌+◌, ◌*◌, ◌≤◌, ◌<◌, ◌≡◌, refl, subst, ◌⊎◌, inl, inr, Bool, true, ◌&&◌, Option, List, [], ◌∷◌,
  Bytes, arith, ==_iff, ==_refl, bytes_eq_refl, leb, length, Bool-cases, All, All-append,
}
use vpsa_network_discovery.Sql.{Conn}
use vpsa_network_discovery.Sql.Keeps.{Keeps-leaves}
use vpsa_network_discovery.Sql.Hoare.{Hoare-exec, Hoare-bind, Hoare-Keeps, Hoare-either}
use vpsa_network_discovery.Sql.Table.{exists, count, select}
use vpsa_network_discovery.Aggregation.{
  Config, Verdict, healthy, degraded, outage, insufficient_data, Window, Sample, Store, second,
  with_defaults,
}
use vpsa_network_discovery.Aggregation.Votes.{
  TargetVote, is_up, vote, votes_of, voters, responsive, targets_of, observed, per_target,
}
use vpsa_network_discovery.Aggregation.Consensus.{
  insert_window, insert_windows, Group, in_group, most_workers, verdict_for, same_window,
  settle_window, settle_agreements, compute_window, window_of, groups_of,
}

-- What a verdict says of the targets that are up among those measured.
abbrev pub InRange : Config → Verdict → ℕ → ℕ → Type 0
InRange cfg healthy measured up = cfg.healthy_ratio * measured ≤ 1000 * up
InRange cfg degraded measured up =
    (cfg.degraded_ratio * measured ≤ 1000 * up) × (1000 * up < cfg.healthy_ratio * measured)
InRange cfg outage measured up =
    (1000 * up < cfg.degraded_ratio * measured) × (1000 * up < cfg.healthy_ratio * measured)
InRange cfg insufficient_data measured up = ⊥

-- A target that `n` workers observed in the window, workers that are active, and that has answered
-- someone since a day before the start of the window.
pub record IsObserved (s : Store) (start end n : ℕ) (p : ℕ) : Type 0 where
  pub target : Bytes
  pub answered : responsive start end s.samples p target ≡ true
  pub by : n ≤ length (voters (observed start end s) p target)

-- Too few workers or no target, or the range of the verdict.
judged :
    (cfg : Config) (workers measured up : ℕ)
    → ((verdict_for cfg workers measured up ≡ insufficient_data)
        × ((workers < cfg.min_workers) ⊎ (measured ≡ 0)))
      ⊎ ((cfg.min_workers ≤ workers)
          × ((1 ≤ measured) × InRange cfg (verdict_for cfg workers measured up) measured up))
unfolding verdict_for
judged cfg workers measured up = ground arith

count-le-length : (vs : List TargetVote) → count is_up vs ≤ length vs
unfolding count
count-le-length [] = omega arith
count-le-length (v ∷ vs) = ground (arith, count-le-length vs)

-- The maximum is reached.
most_workers-exists :
    (n : ℕ) (vs : List TargetVote)
    → 1 ≤ n
    → n ≤ most_workers vs
    → exists (λ (v : TargetVote). leb n v.workers) vs ≡ true
unfolding exists most_workers
most_workers-exists n [] h k = absurd (omega (arith, h, k))
most_workers-exists n (v ∷ vs) h k = ground (arith, h, k, most_workers-exists n vs h)

module _ (s : Store) (start end n p : ℕ) where
  abbrev counts : Option Bytes → TargetVote → Bool
  counts g v = in_group (p, g) v && leb n v.workers

  at_vote :
      (g : Option Bytes) (q : ℕ) (t : Bytes)
      → responsive start end s.samples q t ≡ true
      → counts g (vote s (observed start end s) q t) ≡ true
      → IsObserved s start end n p
  unfolding vote
  at_vote g q t r h =
      subst (λ (m : ℕ). IsObserved s start end n m) ((==_iff q p).0 (ground (arith, h)))
        (record { target = t; answered = r; by = ground (arith, h) })

  votes_of-IsObserved :
      (g : Option Bytes) (xs : List Sample)
      → exists
          (λ (v : TargetVote). leb n v.workers)
          (select (in_group (p, g)) (votes_of start end s (observed start end s) xs))
        ≡ true
      → IsObserved s start end n p
  unfolding votes_of select exists
  votes_of-IsObserved g [] h = cc
  votes_of-IsObserved g (x ∷ xs) h =
      elim (Bool-cases (responsive start end s.samples x.provider x.target)) [
        | inl r ↦ elim (Bool-cases (counts g (vote s (observed start end s) x.provider x.target))) [
          | inl k ↦ at_vote g x.provider x.target r k
          | inr k ↦ votes_of-IsObserved g xs (ground (arith, h, r, k))
        ]
        | inr r ↦ votes_of-IsObserved g xs (ground (arith, h, r))
      ]

-- A window has too few workers or no target and says `insufficient_data`, or it is in the range of
-- its verdict and the quorum is met on one target of the provider.
pub data IsSound (cfg : Config) (s : Store) (start : ℕ) (w : Window) : Type 0 where
  unknown :
      w.verdict ≡ insufficient_data
      → (w.worker_count < cfg.min_workers) ⊎ (w.measured_targets ≡ 0)
      → IsSound cfg s start w
  known :
      w.up_targets ≤ w.measured_targets
      → InRange cfg w.verdict w.measured_targets w.up_targets
      → IsObserved s start (start + cfg.window_seconds * second) cfg.min_workers w.provider
      → IsSound cfg s start w

module _ (cfg : Config) (s : Store) (start : ℕ) where
  abbrev end : ℕ
  end = start + cfg.window_seconds * second

  window_of-IsSound :
      (g : Group)
      → 1 ≤ cfg.min_workers
      → IsSound cfg s start
          (window_of cfg start s (observed start end s) (per_target start end s) g)
  unfolding window_of per_target
  window_of-IsSound (p, g) h =
      elim (judged cfg (most_workers mine) (length mine) (count is_up mine)) [
        | inl (e, few) ↦ unknown e few
        | inr (enough, (some_there, range)) ↦ known (count-le-length mine) range (
            votes_of-IsObserved s start end cfg.min_workers p g (targets_of (observed start end s))
              (most_workers-exists cfg.min_workers mine h enough))
      ]
    where
      mine : List TargetVote
      mine =
          select (in_group (p, g))
            (votes_of start end s (observed start end s) (targets_of (observed start end s)))

  -- The key of the window was there, or the window is sound.
  abbrev pub Fresh : Window → Type 0
  Fresh w = (exists (same_window w) s.windows ≡ true) ⊎ IsSound cfg s start w

  insert_window-Fresh :
      (w : Window) (ws : List Window)
      → IsSound cfg s start w
      → All Fresh ws
      → All Fresh (insert_window w ws)
  unfolding insert_window
  insert_window-Fresh w ws k a = elim (Bool-cases (exists (same_window w) ws)) [
    | inl h ↦ rw h a
    | inr h ↦ rw h (All-append Fresh ws (w ∷ []) a (inr k, tt))
  ]

  insert_windows-Fresh :
      (f : Group → Window) (gs : List Group) (ws : List Window)
      → ((g : Group) → IsSound cfg s start (f g))
      → All Fresh ws
      → All Fresh (insert_windows f gs ws)
  unfolding insert_windows
  insert_windows-Fresh f [] ws k a = a
  insert_windows-Fresh f (g ∷ gs) ws k a =
      insert_windows-Fresh f gs (insert_window (f g) ws) k (insert_window-Fresh (f g) ws (k g) a)

same_window_refl : (w : Window) → same_window w w ≡ true
same_window_refl w =
    rw (==_refl w.provider, bytes_eq_refl w.region, ==_refl w.start, ==_refl w.seconds) refl

old_Fresh :
    (cfg : Config) (s : Store) (start : ℕ) (ws : List Window)
    → ((w : Window) → exists (same_window w) ws ≡ true → exists (same_window w) s.windows ≡ true)
    → All (Fresh cfg s start) ws
unfolding exists
old_Fresh cfg s start [] k = tt
old_Fresh cfg s start (w ∷ ws) k = (
  inl (k w (rw (same_window_refl w) refl)),
  old_Fresh cfg s start ws λ v h. k v (ground (arith, h)),
)

-- The windows that a computation adds, at whichever statement it stops, are sound: a window says
-- that data is insufficient and counts too few workers or no target, or its counts are in the
-- range of its verdict and as many active workers as the configuration asks for observed, in the
-- window, one target of the provider that answered someone in the day before its start or in it.
pub compute_window-IsSound :
    (cfg : Config) (start : ℕ) (c : Conn Store)
    → All (Fresh (with_defaults cfg) c.db start) (compute_window cfg start c).1.db.windows
unfolding compute_window settle_window settle_agreements with_defaults
compute_window-IsSound cfg start c =
    Hoare-either _
      (Hoare-bind {P = λ (s : Store). s ≡ c.db} {Q = Left} {R = Left} {E = Left} _ _
        (Hoare-exec (settle_window full start) (λ s e. rw e old)
          λ s e. rw e (
            insert_windows-Fresh full c.db start
              (window_of full start c.db (observed start last c.db) (per_target start last c.db))
              (groups_of (per_target start last c.db)) c.db.windows
              (λ g. window_of-IsSound full c.db start g at_least_one) old))
        λ u. Hoare-Keeps _ (Keeps-leaves {P = Left} (settle_agreements full start) λ s h. h))
      c refl
  where
    full : Config
    full = with_defaults cfg

    at_least_one : 1 ≤ full.min_workers
    at_least_one = ground arith

    last : ℕ
    last = start + full.window_seconds * second

    Left : Store → Type 0
    Left s = All (Fresh full c.db start) s.windows

    old : All (Fresh full c.db start) c.db.windows
    old = old_Fresh full c.db start c.db.windows λ w h. h
