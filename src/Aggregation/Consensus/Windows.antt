-- ===== src/Aggregation/Consensus/Windows.antt =====
-- internal/aggregate/aggregate.go, `ComputeWindow`: windows that were settled before.
use vpsa_network_discovery.Prelude.{
  ℕ, ◌+◌, ◌*◌, ◌≤◌, ◌≡◌, refl, ◌∙◌, inl, inr, true, false, some, List, [], ◌∷◌, ◌++◌, bytes_eq-eq,
  arith, ==_iff, Bool-cases,
}
use vpsa_network_discovery.Sql.{Conn}
use vpsa_network_discovery.Sql.Keeps.{Keeps-bind, Keeps-leaves}
use vpsa_network_discovery.Sql.Table.{exists, find, count, find-append}
use vpsa_network_discovery.Sql.Counting.{count-append, count_none}
use vpsa_network_discovery.Aggregation.{Config, Window, Store, second, with_defaults}
use vpsa_network_discovery.Aggregation.Votes.{observed, per_target}
use vpsa_network_discovery.Aggregation.Consensus.{
  same_window, insert_window, insert_windows, Group, settle_window, settle_agreements,
  compute_window, window_of, groups_of,
}

-- Every window that was there is there with what it says, and no two have one key.
pub record IsSettled (old : List Window) (ws : List Window) : Type 0 where
  pub unique : (k : Window) → count (same_window k) ws ≤ 1
  pub kept : (k w : Window) → find (same_window k) old ≡ some w → find (same_window k) ws ≡ some w

same_window_shift : (k w v : Window) → same_window k w ≡ true → same_window k v ≡ same_window w v
same_window_shift k w v h =
    rw
      (
        (==_iff k.provider w.provider).0 (ground (arith, h)),
        bytes_eq-eq k.region w.region (ground (arith, h)),
        (==_iff k.start w.start).0 (ground (arith, h)),
        (==_iff k.seconds w.seconds).0 (ground (arith, h)),
      )
      refl

exists_shift :
    (k w : Window) (ws : List Window)
    → same_window k w ≡ true
    → exists (same_window k) ws ≡ exists (same_window w) ws
unfolding exists
exists_shift k w [] h = refl
exists_shift k w (v ∷ ws) h = ground (arith, same_window_shift k w v h, exists_shift k w ws h)

module _ (old : List Window) where
  first_kept :
      (k w : Window) (ws : List Window) (x : Window)
      → find (same_window k) ws ≡ some x
      → find (same_window k) (ws ++ w ∷ []) ≡ some x
  first_kept k w ws x h = find-append (same_window k) ws (w ∷ []) ∙ rw h refl

  insert_window-IsSettled :
      (w : Window) (ws : List Window) → IsSettled old ws → IsSettled old (insert_window w ws)
  unfolding insert_window count
  insert_window-IsSettled w ws v = elim (Bool-cases (exists (same_window w) ws)) [
    | inl h ↦ rw h v
    | inr h ↦ rw h (record { unique = once h; kept = λ k x e. first_kept k w ws x (v.kept k x e) })
  ]
    where
      once :
          exists (same_window w) ws ≡ false
          → (k : Window) → count (same_window k) (ws ++ w ∷ []) ≤ 1
      once h k = elim (Bool-cases (same_window k w)) [
        | inl e ↦ ground (
          arith,
          e,
          count-append (same_window k) ws (w ∷ []),
          count_none (same_window k) ws (exists_shift k w ws e ∙ h),
        )
        | inr e ↦ ground (arith, e, count-append (same_window k) ws (w ∷ []), v.unique k)
      ]

  insert_windows-IsSettled :
      (f : Group → Window) (gs : List Group) (ws : List Window)
      → IsSettled old ws
      → IsSettled old (insert_windows f gs ws)
  unfolding insert_windows
  insert_windows-IsSettled f [] ws v = v
  insert_windows-IsSettled f (g ∷ gs) ws v =
      insert_windows-IsSettled f gs (insert_window (f g) ws) (insert_window-IsSettled (f g) ws v)

-- Computing a window, again or for the first time and whichever statement fails, changes no window
-- that was settled before and leaves one row of each provider, region, start and length at most,
-- if this held before.
pub compute_window-IsSettled :
    (cfg : Config) (start : ℕ) (c : Conn Store)
    → ((k : Window) → count (same_window k) c.db.windows ≤ 1)
    → IsSettled c.db.windows (compute_window cfg start c).1.db.windows
unfolding compute_window settle_window settle_agreements
compute_window-IsSettled cfg start c unique =
    (Keeps-bind {P = λ (s : Store). IsSettled c.db.windows s.windows} _ _
        (Keeps-leaves (settle_window full start) λ s h.
          insert_windows-IsSettled c.db.windows
            (window_of full start s (observed start end s) (per_target start end s))
            (groups_of (per_target start end s)) s.windows h)
        λ u. Keeps-leaves (settle_agreements full start) λ s h. h).at
      c (record { unique = unique; kept = λ k w e. e })
  where
    full : Config
    full = with_defaults cfg

    end : ℕ
    end = start + full.window_seconds * second
