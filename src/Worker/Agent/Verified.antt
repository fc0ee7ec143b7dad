-- ===== src/Worker/Agent/Verified.antt =====
-- For internal/worker/agent.go and state.go: what comes before an installation.
use vpsa_network_discovery.Prelude.{
  ◌≡◌, refl, sym, ◌∙◌, subst, Bool, true, false, not, Option, none, some, Bytes, bytes_eq,
  if◌then◌else◌, arith,
}
use vpsa_network_discovery.Artifact.{
  Library, Manifest, Verdict, genuine, verify, FileVerdict, intact, verify_file,
}
use vpsa_network_discovery.Worker.Agent.{
  Dir, Write, written, torn, install, Answers, Synced, accepts, is_intact, finish_install,
  check_file, download_file, sync_manifest, sync_snapshot, manifest_rejected, up_to_date,
  artifact_rejected,
}

-- The file of the snapshot, where there is one, is that of a manifest signed by the pinned key.
pub record IsVerified (lib : Library) (pub_key : Bytes) (d : Dir) : Type 0 where
  pub proven :
      (content : Bytes)
      → d.snapshot ≡ some content
      → (m : Manifest) × (verify lib m pub_key ≡ genuine)
        × (verify_file lib (some content) m ≡ intact)

module _ (lib : Library) (pub_key : Bytes) where
  accepted_genuine : (v : Verdict) → accepts v ≡ true → v ≡ genuine
  unfolding accepts
  accepted_genuine v h = ground (arith, h)

  intact_intact : (v : FileVerdict) → is_intact v ≡ true → v ≡ intact
  unfolding is_intact
  intact_intact v h = ground (arith, h)

  same_file :
      (d d' : Dir) → d'.snapshot ≡ d.snapshot → IsVerified lib pub_key d → IsVerified lib pub_key d'
  same_file d d' e v = record { proven = λ content h. v.proven content (sym e ∙ h) }

  install-IsVerified :
      (ok : Bool) (w : Write) (content : Bytes) (m : Manifest) (d : Dir)
      → verify lib m pub_key ≡ genuine
      → verify_file lib (some content) m ≡ intact
      → IsVerified lib pub_key d
      → IsVerified lib pub_key (finish_install (install ok w content m.version d)).1
  unfolding install finish_install
  install-IsVerified false w content m d g i v = v
  install-IsVerified true written content m d g i v = record {
    proven = λ other h.
        (m, g, subst (λ (c : Bytes). verify_file lib (some c) m ≡ intact) (same content other h) i);
  }
    where
      same : (x y : Bytes) → ◌≡◌ {A = Option Bytes} (some x) (some y) → x ≡ y
      same x y q = cc
  install-IsVerified true (torn left) content m d g i v = record {
    proven = λ other h.
        (m, g, subst (λ (c : Bytes). verify_file lib (some c) m ≡ intact) (same content other h) i);
  }
    where
      same : (x y : Bytes) → ◌≡◌ {A = Option Bytes} (some x) (some y) → x ≡ y
      same x y q = cc

  check_file-IsVerified :
      (a : Answers) (m : Manifest) (o : Option Bytes) (d : Dir)
      → verify lib m pub_key ≡ genuine
      → IsVerified lib pub_key d
      → IsVerified lib pub_key (check_file lib a m o d).1
  unfolding check_file
  check_file-IsVerified a m none d g v = v
  check_file-IsVerified a m (some content) d g v =
      by_verdict (is_intact (verify_file lib (some content) m)) refl
    where
      done : Bool → Synced × Dir
      done b =
          if b
          then finish_install (install a.renames a.writes content m.version d)
          else (artifact_rejected, d)

      by_verdict :
          (b : Bool)
          → is_intact (verify_file lib (some content) m) ≡ b
          → IsVerified lib pub_key (done b).1
      by_verdict true e = install-IsVerified a.renames a.writes content m d g (intact_intact _ e) v
      by_verdict false e = v

  -- A synchronisation keeps what is installed verified, whichever answers it meets.
  pub sync-IsVerified :
      (a : Answers) (d : Dir)
      → IsVerified lib pub_key d
      → IsVerified lib pub_key (sync_snapshot lib pub_key a d).1
  unfolding sync_snapshot sync_manifest download_file
  sync-IsVerified a d v = by_manifest a.manifest
    where
      downloaded :
          (m : Manifest)
          → verify lib m pub_key ≡ genuine
          → (o : Option (Option Bytes)) → IsVerified lib pub_key (download_file lib a m o d).1
      downloaded m g none = v
      downloaded m g (some o) = check_file-IsVerified a m o d g v

      checked : Manifest → Bool → Bool → Synced × Dir
      checked m b n =
          if not b
          then (manifest_rejected, d)
          else if n
          then (up_to_date, d)
          else download_file lib a m a.download d

      by_tests :
          (m : Manifest) (b : Bool)
          → accepts (verify lib m pub_key) ≡ b
          → (n : Bool) → IsVerified lib pub_key (checked m b n).1
      by_tests m false e n = v
      by_tests m true e true = v
      by_tests m true e false = downloaded m (accepted_genuine _ e) a.download

      by_manifest :
          (o : Option Manifest) → IsVerified lib pub_key (sync_manifest lib pub_key a o d).1
      by_manifest none = v
      by_manifest (some m) =
          by_tests m (accepts (verify lib m pub_key)) refl (bytes_eq m.version d.version)
