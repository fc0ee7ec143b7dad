-- ===== src/Artifact/Release.antt =====
-- internal/artifact/publisher.go, `Publish`, and sqlite.go: the artifact of a snapshot exported,
-- uploaded and read back. What the store answers when it is read is an argument; how SQLite lays
-- out the rows of a file, and PostgreSQL the text of a prefix, are functions of `Files`.
pub mod ReadBack
use vpsa_network_discovery.Prelude.{
  ℕ, ◌+◌, ◌≡◌, Bool, true, false, not, ◌&&◌, ◌||◌, Option, none, some, List, [], ◌∷◌, ◌++◌, Bytes,
  bytes_eq, length, ◌==◌, if◌then◌else◌,
}
use vpsa_network_discovery.Database.{Database, Snapshot, PrefixRow, ProbeTarget, Asn}
use vpsa_network_discovery.Sql.{Result, ok, err, db_error, M, Conn, exec, pure, raise, ◌>>=◌, ◌>>◌}
use vpsa_network_discovery.Sql.Table.{select, update, exists, find}
use vpsa_network_discovery.Addresses.{Prefix, same_prefix}
use vpsa_network_discovery.Artifact.{
  Library, Manifest, Verdict, genuine, sign, verify, hash_file, FileVerdict, intact, verify_file,
  object_key_sqlite, object_key_manifest,
}
use vpsa_network_discovery.Artifact.Publisher.{World, put, snapshot_is, prefix_of, target_of}

-- A row of the table `prefixes` of the artifact.
pub record PrefixEntry : Type 0 where
  pub prefix : Prefix
  pub origin : ℕ
  pub provider : ℕ
  pub country : Option Bytes

-- A row of its table `targets`.
pub record TargetEntry : Type 0 where
  pub address : Bytes
  pub provider : ℕ
  pub prefix : Prefix
  pub country : Bytes

-- The content of the artifact.
pub record Artifact : Type 0 where
  pub version : Bytes
  pub min_worker_version : Bytes
  pub prefixes : List PrefixEntry
  pub targets : List TargetEntry

pub record Files : Type 0 where
  pub sqlite : Artifact → Bytes

-- The join with routing.asn.
unfoldable pub prefix_entries : List Asn → List PrefixRow → List PrefixEntry
prefix_entries asns [] = []
prefix_entries asns (p ∷ ps) = elim (find (λ (a : Asn). a.asn == p.origin) asns) [
  | none ↦ prefix_entries asns ps
  | some a ↦
      record { prefix = p.prefix; origin = p.origin; provider = a.provider; country = p.country }
      ∷ prefix_entries asns ps
]

-- The join with routing.prefix by its primary key, of the active targets.
unfoldable pub target_entries : List PrefixRow → List ProbeTarget → List TargetEntry
target_entries ps [] = []
target_entries ps (t ∷ ts) = elim (find (λ (p : PrefixRow). p.id == t.prefix) ps) [
  | none ↦ target_entries ps ts
  | some p ↦
      record { address = t.address; provider = t.provider; prefix = p.prefix; country = t.country }
      ∷ target_entries ps ts
]

-- The primary key of the artifact's table `targets`.
unfoldable pub keys_unique : List TargetEntry → Bool
keys_unique [] = true
keys_unique (t ∷ ts) =
    not (exists (λ (u : TargetEntry). bytes_eq u.address t.address) ts) && keys_unique ts

-- That of its table `prefixes`.
unfoldable pub prefix_keys_unique : List PrefixEntry → Bool
prefix_keys_unique [] = true
prefix_keys_unique (p ∷ ps) =
    not (exists (λ (q : PrefixEntry). same_prefix q.prefix p.prefix && q.origin == p.origin) ps)
    && prefix_keys_unique ps

unfoldable pub exported : Bytes → Bytes → ℕ → Database → Artifact
unfolding prefix_entries target_entries
exported version min_version id db = record {
  version = version;
  min_worker_version = min_version;
  prefixes = prefix_entries db.asns (select (prefix_of id) db.prefixes);
  targets =
      target_entries db.prefixes
        (select (λ (t : ProbeTarget). t.snapshot == id && t.active) db.targets);
}

-- ExportSQLite: the file, and the number of targets.
unfoldable pub export_sqlite : Files → Bytes → Bytes → ℕ → World → Result ((Bytes × ℕ) × World)
unfolding exported keys_unique prefix_keys_unique
export_sqlite files version min_version id s =
    let a = exported version min_version id s.db in
    if prefix_keys_unique a.prefixes && keys_unique a.targets
    then ok ((files.sqlite a, length a.targets), s)
    else err db_error

unfoldable pub select_counts : ℕ → World → Result ((ℕ × ℕ) × World)
select_counts id s = elim (find (snapshot_is id) s.db.snapshots) [
  | none ↦ err db_error
  | some r ↦ ok ((r.prefix_count_v4, r.prefix_count_v6), s)
]

unfoldable pub record_artifact : ℕ → Manifest → World → Result (Unit {0} × World)
record_artifact id m s = ok (
  tt,
  record s {
    db = record (s.db) {
      snapshots =
          update (snapshot_is id) (λ r. record r { artifact_sha256 = some m.sha256 })
            s.db.snapshots;
    };
  },
)

abbrev pub is_genuine : Verdict → Bool
is_genuine Verdict.genuine = true
is_genuine Verdict.unsigned = false
is_genuine Verdict.bad_encoding = false
is_genuine Verdict.bad_json = false
is_genuine Verdict.bad_signature = false

abbrev pub is_intact : FileVerdict → Bool
is_intact FileVerdict.intact = true
is_intact FileVerdict.unreadable = false
is_intact FileVerdict.bad_size = false
is_intact FileVerdict.bad_checksum = false

-- verifyReadback, of the manifest that was decoded.
unfoldable pub readback_of :
    Library → Bytes → (Bytes → Option Bytes) → Manifest → Option Manifest → Bool
readback_of lib pub_key answer m none = false
readback_of lib pub_key answer m (some got) =
    is_genuine (verify lib got pub_key)
    && (bytes_eq got.sha256 m.sha256 && is_intact (verify_file lib (answer m.object_key) got))

abbrev pub decoded : Library → Option Bytes → Option Manifest
decoded lib none = none
decoded lib (some b) = lib.unmarshal b

-- verifyReadback
unfoldable pub verify_readback : Library → Bytes → (Bytes → Option Bytes) → Manifest → Bool
unfolding readback_of
verify_readback lib pub_key answer m =
    readback_of lib pub_key answer m (decoded lib (answer (object_key_manifest m.version)))

-- What Publish is configured with: the key and its public half.
pub record Signer : Type 0 where
  pub key : Bytes
  pub public_key : Bytes
  pub min_worker_version : Bytes

unfoldable pub manifest_of : Library → Signer → ℕ → Bytes → (Bytes × ℕ) → (ℕ × ℕ) → Manifest
unfolding hash_file
manifest_of lib signer now version (content, targets) (v4, v6) = record {
  version = version;
  created_at = now;
  object_key = object_key_sqlite version;
  sha256 = (hash_file lib content).0;
  size_bytes = (hash_file lib content).1;
  prefix_count_v4 = v4;
  prefix_count_v6 = v6;
  target_count = targets;
  min_worker_version = signer.min_worker_version;
  signature = [];
}

-- The upload of the manifest, the check of what is read back, and the record.
unfoldable pub finish :
    Library → Signer → (Bytes → Option Bytes) → ℕ → Manifest → Option Bytes → M World Manifest
unfolding put verify_readback record_artifact
finish lib signer answer id m none = raise db_error
finish lib signer answer id m (some json) =
    exec (put (object_key_manifest m.version) json) >>= (λ _.
      if verify_readback lib signer.public_key answer m
      then exec (record_artifact id m) >>= (λ _. pure m)
      else raise db_error)

unfoldable pub upload :
    Library → Signer → (Bytes → Option Bytes) → ℕ → Bytes → Option Manifest → M World Manifest
unfolding put finish
upload lib signer answer id content none = raise db_error
upload lib signer answer id content (some m) =
    exec (put m.object_key content) >>= (λ _. finish lib signer answer id m (lib.marshal m))

-- Publish
unfoldable pub publish :
    Library → Files → Signer → (Bytes → Option Bytes) → ℕ → ℕ → Bytes → M World Manifest
unfolding export_sqlite select_counts manifest_of sign upload
publish lib files signer answer now id version = do
  file ← exec (export_sqlite files version signer.min_worker_version id)
  counts ← exec (select_counts id)
  upload lib signer answer id file.0
      (sign lib (manifest_of lib signer now version file counts) signer.key)
