-- ===== src/Aggregation/Votes.antt =====
-- internal/aggregate/aggregate.go, `ComputeWindow`: the votes of the workers on each target, up to
-- its rows `per_target`.
use vpsa_network_discovery.Prelude.{
  ℕ, ◌+◌, ◌*◌, Bool, true, not, ◌&&◌, Option, none, some, List, [], ◌∷◌, Bytes, bytes_eq, is_empty,
  length, max, ltb, leb, ◌==◌, if◌then◌else◌,
}
use vpsa_network_discovery.Database.{
  Database, Worker, active, same_state, ProbeTarget, Snapshot, is_published,
}
use vpsa_network_discovery.Sql.Table.{select, delete, exists, find, count}
use vpsa_network_discovery.Aggregation.{Sample, TrustScore, Store, hour, unknown_region}

-- measured_at >= $1 and measured_at < $2
abbrev pub in_window : ℕ → ℕ → Sample → Bool
in_window start end x = leb start x.measured_at && ltb x.measured_at end

abbrev pub on_target : ℕ → Bytes → Sample → Bool
on_target p t x = x.provider == p && bytes_eq x.target t

-- The join with registry.worker, of the state 'active'.
unfoldable pub is_active : List Worker → ℕ → Bool
is_active ws id = exists (λ w. w.id == id && same_state w.state active) ws

-- The samples of `obs`.
unfoldable pub observed : ℕ → ℕ → Store → List Sample
unfolding is_active
observed start end s =
    select (λ x. in_window start end x && is_active s.db.workers x.worker) s.samples

-- A target of `responsive`.
unfoldable pub responsive : ℕ → ℕ → List Sample → ℕ → Bytes → Bool
responsive start end xs p t =
    exists
      (λ x.
        on_target p t x
        && (x.ok && (leb start (x.measured_at + 24 * hour) && ltb x.measured_at end)))
      xs

unfoldable pub country_of : Option ProbeTarget → Bytes
country_of none = unknown_region
country_of (some t) = if is_empty t.country then unknown_region else t.country

-- The region of a target, by `tgeo`.
unfoldable pub region_of : Database → ℕ → Bytes → Bytes
unfolding country_of
region_of db p t = country_of (
    find
      (λ (g : ProbeTarget).
        g.provider == p
        && (bytes_eq g.address t
            && exists (λ (n : Snapshot). n.id == g.snapshot && is_published n.status) db.snapshots))
      db.targets)

-- coalesce(greatest(score, 0.1), 0.1)
unfoldable pub weight : List TrustScore → ℕ → ℕ
weight ts w = elim (find (λ (t : TrustScore). t.worker == w) ts) [
  | none ↦ 100
  | some t ↦ max t.score 100
]

-- The workers that observed the target, each once.
unfoldable pub voters : List Sample → ℕ → Bytes → List ℕ
voters [] p t = []
voters (x ∷ xs) p t =
    let rest = voters xs p t in
    if on_target p t x then x.worker ∷ delete (λ w. w == x.worker) rest else rest

-- ok_ratio >= 0.5
unfoldable pub sees_up : List Sample → ℕ → Bytes → ℕ → Bool
sees_up obs p t w =
    leb (count (λ x. on_target p t x && x.worker == w) obs)
      (2 * count (λ x. on_target p t x && (x.worker == w && x.ok)) obs)

unfoldable pub weight_of : List TrustScore → (ℕ → Bool) → List ℕ → ℕ
unfolding weight
weight_of ts q [] = 0
weight_of ts q (w ∷ ws) = (if q w then weight ts w else 0) + weight_of ts q ws

-- A row of per_target.
pub record TargetVote : Type 0 where
  pub provider : ℕ
  pub region : Bytes
  pub target : Bytes
  pub up_weight : ℕ
  pub weight : ℕ
  pub workers : ℕ

-- up_weight >= 0.5, where the sum over no rows is null
abbrev pub is_up : TargetVote → Bool
is_up v = not (v.up_weight == 0) && leb v.weight (2 * v.up_weight)

unfoldable pub vote : Store → List Sample → ℕ → Bytes → TargetVote
unfolding region_of sees_up weight_of voters
vote s obs p t = record {
  provider = p;
  region = region_of s.db p t;
  target = t;
  up_weight = weight_of s.scores (sees_up obs p t) (voters obs p t);
  weight = weight_of s.scores (λ w. true) (voters obs p t);
  workers = length (voters obs p t);
}

abbrev pub same_target : Sample → Sample → Bool
same_target x y = on_target x.provider x.target y

-- The targets that were observed, each by one of its samples.
unfoldable pub targets_of : List Sample → List Sample
targets_of [] = []
targets_of (x ∷ xs) = x ∷ delete (same_target x) (targets_of xs)

unfoldable pub votes_of : ℕ → ℕ → Store → List Sample → List Sample → List TargetVote
unfolding responsive vote
votes_of start end s obs [] = []
votes_of start end s obs (x ∷ xs) =
    let rest = votes_of start end s obs xs in
    if responsive start end s.samples x.provider x.target
    then vote s obs x.provider x.target ∷ rest
    else rest

unfoldable pub per_target : ℕ → ℕ → Store → List TargetVote
unfolding observed targets_of votes_of
per_target start end s =
    votes_of start end s (observed start end s) (targets_of (observed start end s))
