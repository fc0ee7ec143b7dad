-- ===== src/Artifact/Publisher/Published.antt =====
-- For internal/artifact/publisher.go: the published snapshots across a rollback.
use vpsa_network_discovery.Prelude.{
  ℕ, ◌≤◌, ◌≡◌, refl, Bool, false, Option, none, some, List, [], ◌∷◌, Bytes, ◌==◌, arith,
}
use vpsa_network_discovery.Database.{Snapshot, published, superseded, is_published}
use vpsa_network_discovery.Sql.{ok, err, db_error, exec}
use vpsa_network_discovery.Sql.Keeps.{
  Keeps, Keeps-leaves, Keeps-bind, Keeps-if, Keeps-raise, Keeps-transact, Leaves,
}
use vpsa_network_discovery.Sql.Hoare.{Keeps-Hoare, Hoare-bind, Hoare-exec}
use vpsa_network_discovery.Sql.Table.{update, exists, count, find, exists-update_none}
use vpsa_network_discovery.Sql.Counting.{count-update_same, count-update-le}
use vpsa_network_discovery.Artifact.{Library}
use vpsa_network_discovery.Artifact.Publisher.{
  World, put, set_current, select_version, has_version, count_prefixes, is_other, supersede,
  snapshot_is, promote, flip, rollback_to,
}

abbrev pub is_out : Snapshot → Bool
is_out r = is_published r.status

-- Ids are unique, and at most one snapshot is published.
pub record IsSinglePublished (s : World) : Type 0 where
  pub unique : (id : ℕ) → count (snapshot_is id) s.db.snapshots ≤ 1
  pub single : count is_out s.db.snapshots ≤ 1

record Cleared (id : ℕ) (s : World) : Type 0 where
  kept : IsSinglePublished s
  cleared : exists (is_other id) s.db.snapshots ≡ false

supersede-Cleared :
    (id : ℕ) (s : World) → IsSinglePublished s → Leaves (Cleared id) (supersede id s)
unfolding supersede is_published
supersede-Cleared id s v = record {
  kept = record {
    unique = λ i. omega (
      arith,
      v.unique i,
      count-update_same (snapshot_is i) (is_other id) (λ r. record r { status = superseded })
          s.db.snapshots (λ r. refl),
    );
    single = omega (
      arith,
      v.single,
      count-update-le is_out (is_other id) (λ r. record r { status = superseded }) s.db.snapshots
          (λ r q. ground arith),
    );
  };
  cleared =
      exists-update_none (is_other id) (is_other id) (λ r. record r { status = superseded })
        s.db.snapshots (λ r. ground arith);
}

promoted_count :
    (now id : ℕ) (rs : List Snapshot)
    → exists (is_other id) rs ≡ false
    → count is_out
        (update (snapshot_is id) (λ r. record r { status = published; published_at = some now }) rs)
      ≤ count (snapshot_is id) rs
unfolding count update exists
promoted_count now id [] h = omega arith
promoted_count now id (r ∷ rs) h = ground (arith, h, promoted_count now id rs)

promote-IsSinglePublished :
    (now id : ℕ) (s : World) → Cleared id s → Leaves IsSinglePublished (promote now id s)
unfolding promote
promote-IsSinglePublished now id s v = record {
  unique = λ i. omega (
    arith,
    v.kept.unique i,
    count-update_same (snapshot_is i) (snapshot_is id)
        (λ r. record r { status = published; published_at = some now }) s.db.snapshots (λ r. refl),
  );
  single = omega (arith, v.kept.unique id, promoted_count now id s.db.snapshots v.cleared);
}

pub flip-IsSinglePublished : (now id : ℕ) → Keeps IsSinglePublished (flip now id)
unfolding flip
flip-IsSinglePublished now id = Keeps-transact _ (
    Keeps-Hoare _ (
      Hoare-bind {Q = Cleared id} _ _ (Hoare-exec _ (λ s v. v) (supersede-Cleared id))
        λ _. Hoare-exec _ (λ s v. v.kept) (promote-IsSinglePublished now id)))

select_version-Keeps : (v : Bytes) → Keeps IsSinglePublished (exec (select_version v))
unfolding select_version
select_version-Keeps v = Keeps-leaves _ λ s k. by_row s k (find (has_version v) s.db.snapshots)
  where
    by_row :
        (s : World)
        → IsSinglePublished s
        → (o : Option Snapshot)
        → Leaves IsSinglePublished (elim o [ none ↦ err db_error | some r ↦ ok (r.id, s) ])
    by_row s k none = tt
    by_row s k (some r) = k

-- A rollback keeps the ids of snapshots unique and at most one snapshot published, at whichever
-- step it stops.
pub rollback-IsSinglePublished :
    (lib : Library) (now : ℕ) (version : Bytes)
    → Keeps IsSinglePublished (rollback_to lib now version)
unfolding rollback_to count_prefixes set_current put
rollback-IsSinglePublished lib now version = Keeps-bind _ _ (select_version-Keeps version) λ id.
    Keeps-bind _ _ (Keeps-leaves _ λ s v. v) λ prefixes.
      Keeps-if (prefixes == 0) _ _ (Keeps-raise _) (
        Keeps-bind _ _ (flip-IsSinglePublished now id)
          λ _. Keeps-leaves _ λ s v. record { unique = v.unique; single = v.single })
