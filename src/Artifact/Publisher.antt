-- ===== src/Artifact/Publisher.antt =====
-- internal/artifact/publisher.go: the pointer, the rollback and the retention of snapshots.
pub mod Published
pub mod Retention
use vpsa_network_discovery.Prelude.{
  ℕ, ◌+◌, ◌-◌, ◌≡◌, Bool, true, false, not, ◌&&◌, ◌||◌, Option, none, some, List, [], ◌∷◌, ◌++◌,
  Bytes, bytes_eq, if◌then◌else◌, drop, ◌==◌, ltb,
}
use mathlib.Core.List.{reverse}
use vpsa_network_discovery.Database.{
  Database, Snapshot, SnapshotStatus, published, superseded, is_published, building, failed,
  ProbeTarget, PrefixRow, ProviderGeo, Assignment, Lease,
}
use vpsa_network_discovery.Sql.{
  Result, ok, err, db_error, M, Conn, exec, transact, pure, raise, recover, ◌>>=◌, ◌>>◌,
}
use vpsa_network_discovery.Sql.Table.{select, update, delete, exists, count, find}
use vpsa_network_discovery.Artifact.{
  Library, Pointer, object_key_manifest, object_key_sqlite, pointer_key,
}

-- An object of the store: its key and its content.
pub record Object : Type 0 where
  pub key : Bytes
  pub content : Bytes

-- What the publisher writes: the database and the store. Each statement and each request to the
-- store may fail.
pub record World : Type 0 where
  pub db : Database
  pub store : List Object

abbrev pub has_key : Bytes → Object → Bool
has_key k o = bytes_eq o.key k

-- Store.Put
unfoldable pub put : Bytes → Bytes → World → Result (Unit {0} × World)
put key content s = ok (
  tt,
  record s { store = delete (has_key key) s.store ++ record { key = key; content = content } ∷ [] },
)

-- SetCurrent
unfoldable pub set_current : Library → ℕ → Bytes → M World (Unit {0})
unfolding put
set_current lib now version = exec (
    put pointer_key (
      lib.marshal_pointer (record {
        version = version;
        manifest_key = object_key_manifest version;
        updated_at = now;
      })))

abbrev pub has_version : Bytes → Snapshot → Bool
has_version v s = bytes_eq s.version v

unfoldable pub select_version : Bytes → World → Result (ℕ × World)
select_version v s = elim (find (has_version v) s.db.snapshots) [
  | none ↦ err db_error
  | some r ↦ ok (r.id, s)
]

abbrev pub prefix_of : ℕ → PrefixRow → Bool
prefix_of id p = p.snapshot == id

unfoldable pub count_prefixes : ℕ → World → Result (ℕ × World)
count_prefixes id s = ok (count (prefix_of id) s.db.prefixes, s)

abbrev pub is_other : ℕ → Snapshot → Bool
is_other id r = is_published r.status && not (r.id == id)

unfoldable pub supersede : ℕ → World → Result (Unit {0} × World)
supersede id s = ok (
  tt,
  record s {
    db = record (s.db) {
      snapshots = update (is_other id) (λ r. record r { status = superseded }) s.db.snapshots;
    };
  },
)

abbrev pub snapshot_is : ℕ → Snapshot → Bool
snapshot_is id r = r.id == id

unfoldable pub promote : ℕ → ℕ → World → Result (Unit {0} × World)
promote now id s = ok (
  tt,
  record s {
    db = record (s.db) {
      snapshots =
          update (snapshot_is id) (λ r. record r { status = published; published_at = some now })
            s.db.snapshots;
    };
  },
)

-- The transaction that flips the statuses.
unfoldable pub flip : ℕ → ℕ → M World (Unit {0})
unfolding supersede promote
flip now id = transact (do exec (supersede id); exec (promote now id))

-- RollbackTo
unfoldable pub rollback_to : Library → ℕ → Bytes → M World (Unit {0})
unfolding select_version count_prefixes flip set_current
rollback_to lib now version = do
  id ← exec (select_version version)
  prefixes ← exec (count_prefixes id)
  if prefixes == 0 then raise db_error else flip now id >>= (λ _. set_current lib now version)

unfoldable pub is_superseded : SnapshotStatus → Bool
is_superseded superseded = true
is_superseded building = false
is_superseded published = false
is_superseded failed = false

-- The superseded snapshots beyond the newest `retain`.
unfoldable pub victims : ℕ → World → List Snapshot
unfolding is_superseded
victims retain s = drop retain (reverse (select (λ r. is_superseded r.status) s.db.snapshots))

unfoldable pub select_victims : ℕ → World → Result (List Snapshot × World)
unfolding victims
select_victims retain s = ok (victims retain s, s)

abbrev pub target_of : ℕ → ProbeTarget → Bool
target_of id t = t.snapshot == id

unfoldable pub on_snapshot : Database → ℕ → Assignment → Bool
on_snapshot db id a = exists (λ (t : ProbeTarget). t.id == a.target && t.snapshot == id) db.targets

unfoldable pub change : (Database → Database) → World → Result (Unit {0} × World)
change f s = ok (tt, record s { db = f s.db })

unfoldable pub delete_leases : ℕ → Database → Database
unfolding on_snapshot
delete_leases id db = record db {
  leases =
      delete
        (λ (l : Lease).
          exists (λ (a : Assignment). a.id == l.assignment && on_snapshot db id a) db.assignments)
        db.leases;
}

unfoldable pub delete_assignments : ℕ → Database → Database
unfolding on_snapshot
delete_assignments id db = record db { assignments = delete (on_snapshot db id) db.assignments }

unfoldable pub delete_targets : ℕ → Database → Database
delete_targets id db = record db { targets = delete (target_of id) db.targets }

abbrev pub geo_of : ℕ → ProviderGeo → Bool
geo_of id g = g.snapshot == id

unfoldable pub delete_geo : ℕ → Database → Database
delete_geo id db = record db { provider_geo = delete (geo_of id) db.provider_geo }

unfoldable pub delete_prefixes : ℕ → Database → Database
delete_prefixes id db = record db { prefixes = delete (prefix_of id) db.prefixes }

unfoldable pub delete_object : Bytes → World → Result (Unit {0} × World)
delete_object key s = ok (tt, record s { store = delete (has_key key) s.store })

-- A failure that is only logged.
unfoldable pub logged : M World (Unit {0}) → M World (Unit {0})
logged m c = (ok tt, (m c).1)

-- One victim of the loop.
unfoldable pub prune_one : Snapshot → M World (Unit {0})
unfolding change delete_leases delete_assignments delete_targets delete_prefixes delete_object
    logged
prune_one v = do
  exec (change (delete_leases v.id))
  exec (change (delete_assignments v.id))
  exec (change (delete_targets v.id))
  exec (change (delete_geo v.id))
  exec (change (delete_prefixes v.id))
  logged (exec (delete_object (object_key_sqlite v.version)))
  logged (exec (delete_object (object_key_manifest v.version)))

unfoldable pub prune_all : List Snapshot → M World (Unit {0})
unfolding prune_one
prune_all [] = pure tt
prune_all (v ∷ vs) = prune_one v >>= (λ _. prune_all vs)

-- Prune
unfoldable pub prune : ℕ → M World (Unit {0})
unfolding select_victims prune_all
prune retain = exec (select_victims retain) >>= prune_all
