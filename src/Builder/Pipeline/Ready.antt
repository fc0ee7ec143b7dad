-- ===== src/Builder/Pipeline/Ready.antt =====
-- For internal/builder/builder.go, `Run`: the published snapshots between the gate and the flip.
use vpsa_network_discovery.Prelude.{
  ℕ, ◌≡◌, refl, ap, ◌∙◌, Bool, true, false, ◌&&◌, Option, none, some, Bytes, arith, if◌then◌else◌,
  ◌==◌,
}
use vpsa_network_discovery.Database.{Snapshot}
use vpsa_network_discovery.Sql.{Result, ok, err, db_error, exec}
use vpsa_network_discovery.Sql.Keeps.{
  Keeps, Keeps-leaves, Keeps-bind, Keeps-pure, Keeps-raise, Keeps-if, Leaves,
}
use vpsa_network_discovery.Sql.Table.{exists, find, exists-update_same}
use vpsa_network_discovery.Sql.Counting.{count-update_same}
use vpsa_network_discovery.Artifact.{Library, Manifest, sign}
use vpsa_network_discovery.Artifact.Publisher.{World, put, snapshot_is}
use vpsa_network_discovery.Artifact.Publisher.Published.{is_out, IsSinglePublished}
use vpsa_network_discovery.Artifact.Release.{
  Files, Signer, export_sqlite, exported, keys_unique, prefix_keys_unique, select_counts,
  record_artifact, manifest_of, verify_readback, finish, upload,
}
use vpsa_network_discovery.Artifact.Release
use vpsa_network_discovery.Builder.Pipeline.{Gate, latest, passes, Distributor, release}

-- The gate reads the counts of prefixes alone.
pub passes_counts :
    (g : Gate) (o : Option Snapshot) (r r' : Snapshot)
    → r'.prefix_count_v4 ≡ r.prefix_count_v4
    → r'.prefix_count_v6 ≡ r.prefix_count_v6
    → passes g o r' ≡ passes g o r
unfolding passes
passes_counts g none r r' e f = refl
passes_counts g (some p) r r' e f = rw (e, f) refl

module _ (g : Gate) (start : World) where
  abbrev pub is_new : Snapshot → Bool
  is_new r = r.id == start.db.snapshot_seq && passes g (latest start.db.snapshots) r

  -- The published snapshots are those of the start.
  abbrev pub Same : World → Type 0
  Same s =
      (id : ℕ)
      → exists (λ r. r.id == id && is_out r) s.db.snapshots
        ≡ exists (λ r. r.id == id && is_out r) start.db.snapshots

  -- Between the gate and the publication.
  pub record IsReady (s : World) : Type 0 where
    pub sane : IsSinglePublished s
    pub same : Same s
    pub built : exists is_new s.db.snapshots ≡ true

  untouched :
      {A : Type 0} (f : World → Result (A × World))
      → ((s : World) → Leaves (λ t. t.db.snapshots ≡ s.db.snapshots) (f s))
      → Keeps IsReady (exec f)
  untouched {A} f k = Keeps-leaves f λ s v. moved s v (f s) (k s)
    where
      moved :
          (s : World)
          → IsReady s
          → (r : Result (A × World)) → Leaves (λ t. t.db.snapshots ≡ s.db.snapshots) r
          → Leaves IsReady r
      moved s v (ok (a, t)) e = record {
        sane = record { unique = λ id. rw e (v.sane.unique id); single = rw e v.sane.single };
        same = λ id. rw e (v.same id);
        built = rw e v.built;
      }
      moved s v (err x) u = tt

  pub is_new_kept :
      (r r' : Snapshot)
      → r'.id ≡ r.id
      → r'.prefix_count_v4 ≡ r.prefix_count_v4
      → r'.prefix_count_v6 ≡ r.prefix_count_v6
      → is_new r' ≡ is_new r
  is_new_kept r r' i e f =
      ap (λ (n : ℕ). n == start.db.snapshot_seq && passes g (latest start.db.snapshots) r') i
      ∙ ap (λ b. r.id == start.db.snapshot_seq && b)
          (passes_counts g (latest start.db.snapshots) r r' e f)

  record_artifact-IsReady : (id : ℕ) (m : Manifest) → Keeps IsReady (exec (record_artifact id m))
  unfolding record_artifact
  record_artifact-IsReady id m = Keeps-leaves (record_artifact id m) λ s v. record {
    sane = record {
      unique = λ i. omega (
        arith,
        v.sane.unique i,
        count-update_same (snapshot_is i) (snapshot_is id) with_sum s.db.snapshots (λ r. refl),
      );
      single = omega (
        arith,
        v.sane.single,
        count-update_same is_out (snapshot_is id) with_sum s.db.snapshots (λ r. refl),
      );
    };
    same =
        λ i. exists-update_same _ (snapshot_is id) with_sum s.db.snapshots (λ r. refl) ∙ v.same i;
    built =
        exists-update_same is_new (snapshot_is id) with_sum s.db.snapshots
          (λ r. is_new_kept r (with_sum r) refl refl refl)
        ∙ v.built;
  }
    where
      with_sum : Snapshot → Snapshot
      with_sum r = record r { artifact_sha256 = some m.sha256 }

  finish-IsReady :
      (lib : Library) (signer : Signer) (answer : Bytes → Option Bytes) (id : ℕ) (m : Manifest)
      (o : Option Bytes)
      → Keeps IsReady (finish lib signer answer id m o)
  unfolding finish put
  finish-IsReady lib signer answer id m none = Keeps-raise db_error
  finish-IsReady lib signer answer id m (some json) =
      Keeps-bind _ _ (untouched (put _ json) λ s. refl) λ u.
        Keeps-if (verify_readback lib signer.public_key answer m) _ _
          (Keeps-bind _ _ (record_artifact-IsReady id m) λ u'. Keeps-pure m) (Keeps-raise db_error)

  upload-IsReady :
      (lib : Library) (signer : Signer) (answer : Bytes → Option Bytes) (id : ℕ) (content : Bytes)
      (o : Option Manifest)
      → Keeps IsReady (upload lib signer answer id content o)
  unfolding upload put
  upload-IsReady lib signer answer id content none = Keeps-raise db_error
  upload-IsReady lib signer answer id content (some m) =
      Keeps-bind _ _ (untouched (put m.object_key content) λ s. refl)
        λ u. finish-IsReady lib signer answer id m (lib.marshal m)

  -- A statement that only reads.
  abbrev Reads : {A : Type 0} → World → Result (A × World) → Type 0
  Reads s r = Leaves (λ t. t.db.snapshots ≡ s.db.snapshots) r

  export-Reads :
      (files : Files) (version min_version : Bytes) (id : ℕ) (s : World)
      → Reads s (export_sqlite files version min_version id s)
  unfolding export_sqlite
  export-Reads files version min_version id s =
      by_key
        (prefix_keys_unique (exported version min_version id s.db).prefixes
          && keys_unique (exported version min_version id s.db).targets)
        _
    where
      by_key : (b : Bool) (x : Bytes × ℕ) → Reads s (if b then ok (x, s) else err db_error)
      by_key true x = refl
      by_key false x = tt

  counts-Reads : (id : ℕ) (s : World) → Reads s (select_counts id s)
  unfolding select_counts
  counts-Reads id s = by_row (find (snapshot_is id) s.db.snapshots)
    where
      by_row :
          (o : Option Snapshot)
          → Reads {A = ℕ × ℕ} s (elim o [
            | none ↦ err db_error
            | some r ↦ ok ((r.prefix_count_v4, r.prefix_count_v6), s)
          ])
      by_row none = tt
      by_row (some r) = refl

  pub release-IsReady :
      (o : Option Distributor) (now id : ℕ) (version : Bytes)
      → Keeps IsReady (release o now id version)
  unfolding release Release.publish
  release-IsReady none now id version = Keeps-pure tt
  release-IsReady (some d) now id version =
      Keeps-bind _ _
        (Keeps-bind _ _
          (untouched (export_sqlite d.files version d.signer.min_worker_version id)
            (export-Reads d.files version d.signer.min_worker_version id))
          λ file. Keeps-bind _ _ (untouched (select_counts id) (counts-Reads id)) λ counts.
            upload-IsReady d.lib d.signer d.answer id file.0
              (sign d.lib (manifest_of d.lib d.signer now version file counts) d.signer.key))
        λ m. Keeps-pure tt
