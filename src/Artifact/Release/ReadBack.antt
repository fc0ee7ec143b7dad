-- ===== src/Artifact/Release/ReadBack.antt =====
-- For internal/artifact/publisher.go, `Publish`: what a publication that succeeds has read back.
use vpsa_network_discovery.Prelude.{
  ℕ, ◌≡◌, refl, ap, subst, ◌∙◌, Bool, true, false, ◌&&◌, Option, none, some, Bytes, bytes_eq-eq,
  arith, if◌then◌else◌,
}
use vpsa_network_discovery.Sql.{Result, ok, err, db_error, Conn, exec, pure, raise, ◌>>=◌}
use vpsa_network_discovery.Sql.Hoare.{LeavesWith, LeavesWith-if}
use vpsa_network_discovery.Sql.Triple.{
  Triple, Triple-raise, Triple-exec, Triple-bind, Triple-pure, PostWith,
}
use vpsa_network_discovery.WireAuth.{hex}
use vpsa_network_discovery.Artifact.{
  Library, Manifest, Verdict, genuine, FileVerdict, intact, Endorsed, verify-Endorsed,
  verify_file-intact, object_key_manifest, hash_file, sign, payload,
}
use vpsa_network_discovery.Artifact.Publisher.{World, put}
use vpsa_network_discovery.Artifact.Release.{
  exported, keys_unique, prefix_keys_unique, manifest_of, export_sqlite, select_counts,
  record_artifact, Files, Signer, is_genuine, is_intact, readback_of, decoded, verify_readback,
  finish, upload, publish,
}

-- The store answers with a manifest of the published version's checksum that the key endorses, and
-- with a file of the size and checksum in it.
pub record IsReadBack (lib : Library) (signer : Signer) (answer : Bytes → Option Bytes)
    (m : Manifest) : Type 0 where
  pub got : Manifest
  pub content : Bytes
  pub answered : decoded lib (answer (object_key_manifest m.version)) ≡ some got
  pub endorsed : Endorsed lib got signer.public_key
  pub same : got.sha256 ≡ m.sha256
  pub file : answer m.object_key ≡ some content
  pub checksum : hex (lib.sha256 content) ≡ m.sha256

and_both : (a b : Bool) → (a && b) ≡ true → (a ≡ true) × (b ≡ true)
and_both true b h = (refl, h)
and_both false b h = cc

genuine_of : (v : Verdict) → is_genuine v ≡ true → v ≡ genuine
genuine_of v h = ground arith

intact_of : (v : FileVerdict) → is_intact v ≡ true → v ≡ intact
intact_of v h = ground arith

none_read :
    (lib : Library) (signer : Signer) (answer : Bytes → Option Bytes) (m : Manifest)
    → readback_of lib signer.public_key answer m none ≡ true
    → ⊥
unfolding readback_of
none_read lib signer answer m h = cc

readback-IsReadBack :
    (lib : Library) (signer : Signer) (answer : Bytes → Option Bytes) (m : Manifest)
    → verify_readback lib signer.public_key answer m ≡ true
    → IsReadBack lib signer answer m
unfolding verify_readback readback_of
readback-IsReadBack lib signer answer m h =
    by_manifest (decoded lib (answer (object_key_manifest m.version))) refl h
  where
    by_manifest :
        (o : Option Manifest)
        → decoded lib (answer (object_key_manifest m.version)) ≡ o
        → readback_of lib signer.public_key answer m o ≡ true
        → IsReadBack lib signer answer m
    by_manifest none e k = absurd (none_read lib signer answer m k)
    by_manifest (some got) e k =
        let (g, k') = and_both _ _ k in
        let (same, i) = and_both _ _ k' in
        let (content, file, size, sum) =
          verify_file-intact lib (answer m.object_key) got (intact_of _ i) in
        record {
          got = got;
          content = content;
          answered = e;
          endorsed = verify-Endorsed lib got signer.public_key (genuine_of _ g);
          same = bytes_eq-eq got.sha256 m.sha256 same;
          file = file;
          checksum = sum ∙ bytes_eq-eq got.sha256 m.sha256 same;
        }

still : {A : Type 0} (K : Type 0) → K → (r : Result (A × World)) → LeavesWith (λ (a : A) t. K) r
still K k (ok (a, s)) = k
still K k (err e) = tt

sign-sha256 :
    (lib : Library) (m m' : Manifest) (key : Bytes)
    → sign lib m key ≡ some m'
    → m'.sha256 ≡ m.sha256
unfolding sign
sign-sha256 lib m m' key h = by_message (payload lib m) h
  where
    by_message :
        (o : Option Bytes)
        → elim o [
          | none ↦ none
          | some message ↦
              some (record m { signature = lib.base64_encode (lib.ed25519_sign key message) })
        ]
          ≡ some m'
        → m'.sha256 ≡ m.sha256
    by_message none e = cc
    by_message (some message) e = ground (arith, e)

-- The checksum of the artifact that the database holds.
abbrev pub checksum_of : Library → Files → Signer → ℕ → Bytes → World → Bytes
checksum_of lib files signer id version s =
    hex (lib.sha256 (files.sqlite (exported version signer.min_worker_version id s.db)))

module _ (lib : Library) (files : Files) (signer : Signer) (answer : Bytes → Option Bytes)
    (now id : ℕ) (version sum : Bytes) where
  abbrev Read : Manifest → World → Type 0
  Read m s = IsReadBack lib signer answer m × (m.sha256 ≡ sum)

  abbrev Always : World → Type 0
  Always s = Unit {0}

  kept :
      {A : Type 0} (f : World → Result (A × World))
      → Triple Always (λ a s. Unit {0}) Always (exec f)
  kept {A} f = Triple-exec f (λ s h. tt) (λ s h. left (f s))
    where
      left : (r : Result (A × World)) → LeavesWith (λ (a : A) s. Unit {0}) r
      left (ok (a, s)) = tt
      left (err e) = tt

  checked :
      (m : Manifest)
      → m.sha256 ≡ sum
      → Triple Always Read Always (
          if verify_readback lib signer.public_key answer m
          then exec (record_artifact id m) >>= (λ _. pure m)
          else raise db_error)
  checked m q = by_check (verify_readback lib signer.public_key answer m) refl
    where
      by_check :
          (b : Bool)
          → verify_readback lib signer.public_key answer m ≡ b
          → Triple Always Read Always
              (if b then exec (record_artifact id m) >>= (λ _. pure m) else raise db_error)
      by_check false e = Triple-raise db_error (λ s h. tt)
      by_check true e =
          Triple-bind _ _ (kept (record_artifact id m))
            λ _. Triple-pure m (λ s h. (readback-IsReadBack lib signer answer m e, q))

  finish-Read :
      (m : Manifest) (o : Option Bytes)
      → m.sha256 ≡ sum
      → Triple Always Read Always (finish lib signer answer id m o)
  unfolding finish
  finish-Read m none q = Triple-raise db_error (λ s h. tt)
  finish-Read m (some json) q = Triple-bind _ _ (kept _) λ _. checked m q

  upload-Read :
      (content : Bytes) (o : Option Manifest)
      → ((m : Manifest) → o ≡ some m → m.sha256 ≡ sum)
      → Triple Always Read Always (upload lib signer answer id content o)
  unfolding upload
  upload-Read content none q = Triple-raise db_error (λ s h. tt)
  upload-Read content (some m) q =
      Triple-bind _ _ (kept (put m.object_key content))
        λ _. finish-Read m (lib.marshal m) (q m refl)

  manifest-sha256 :
      (file : Bytes × ℕ) (counts : ℕ × ℕ)
      → hex (lib.sha256 file.0) ≡ sum
      → (manifest_of lib signer now version file counts).sha256 ≡ sum
  unfolding manifest_of hash_file
  manifest-sha256 (content, n) (v4, v6) q = q

module _ (lib : Library) (files : Files) (signer : Signer) (answer : Bytes → Option Bytes)
    (now id : ℕ) (version : Bytes) (start : World) where
  abbrev Sum : Bytes
  Sum = checksum_of lib files signer id version start

  export-Sum :
      (s : World)
      → s ≡ start
      → LeavesWith
          (λ (file : Bytes × ℕ) t. hex (lib.sha256 file.0) ≡ Sum)
          (export_sqlite files version signer.min_worker_version id s)
  unfolding export_sqlite
  export-Sum s e =
      LeavesWith-if (λ (file : Bytes × ℕ) t. hex (lib.sha256 file.0) ≡ Sum)
        (prefix_keys_unique (exported version signer.min_worker_version id s.db).prefixes
          && keys_unique (exported version signer.min_worker_version id s.db).targets)
        _ (err db_error) (ap (checksum_of lib files signer id version) e) tt

  publish-Read :
      Triple
        (λ s. s ≡ start)
        (Read lib files signer answer now id version Sum)
        (λ s. Unit {0})
        (publish lib files signer answer now id version)
  unfolding publish
  publish-Read =
      Triple-bind {Q = λ (file : Bytes × ℕ) (t : World). hex (lib.sha256 file.0) ≡ Sum} _ _
        (Triple-exec _ (λ s h. tt) export-Sum)
        λ file.
          Triple-bind {Q = λ (counts : ℕ × ℕ) (t : World). hex (lib.sha256 file.0) ≡ Sum} _ _
            (Triple-exec (select_counts id) (λ s h. tt) (λ s h. still _ h (select_counts id s)))
            λ counts. record {
              at = λ c h.
                  (upload-Read lib files signer answer now id version Sum file.0
                      (sign lib (manifest_of lib signer now version file counts) signer.key)
                      (λ m q.
                        sign-sha256 lib (manifest_of lib signer now version file counts) m
                          signer.key q
                        ∙ manifest-sha256 lib files signer answer now id version Sum file counts
                            h)).at
                    c tt;
            }

-- When the publication of an artifact returns a manifest, the store has answered with a manifest
-- of the same checksum that the key of the publisher endorses and with a file of that checksum,
-- and the checksum is that of the exported artifact of the snapshot.
pub publish-IsReadBack :
    (lib : Library) (files : Files) (signer : Signer) (answer : Bytes → Option Bytes) (now id : ℕ)
    (version : Bytes) (c : Conn World) (m : Manifest)
    → (publish lib files signer answer now id version c).0 ≡ ok m
    → IsReadBack lib signer answer m × (m.sha256 ≡ checksum_of lib files signer id version c.db)
publish-IsReadBack lib files signer answer now id version c m h =
    subst
      (λ (r : Result Manifest).
        PostWith
          (Read lib files signer answer now id version
            (checksum_of lib files signer id version c.db))
          (λ s. Unit {0}) r (publish lib files signer answer now id version c).1)
      h ((publish-Read lib files signer answer now id version c.db).at c refl)
