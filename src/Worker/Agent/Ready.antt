-- ===== src/Worker/Agent/Ready.antt =====
-- For internal/worker/agent.go: the snapshot on which the executor runs.
use vpsa_network_discovery.Prelude.{
  ℕ, ◌≡◌, refl, sym, ap, ◌∙◌, ◌⊎◌, inl, inr, Bool, true, false, not, ◌&&◌, Option, none, some, List,
  [], ◌∷◌, Bytes, bytes_eq, is_empty, if◌then◌else◌, is_none, arith,
}
use vpsa_network_discovery.Artifact.{Library, Manifest, verify, verify_file}
use vpsa_network_discovery.Worker.Agent.Verified.{IsVerified, sync-IsVerified}
use vpsa_network_discovery.Worker.Agent.{
  Dir, Write, written, torn, install, Answers, Synced, accepts, is_intact, finish_install,
  check_file, download_file, sync_manifest, sync_snapshot, manifest_rejected, up_to_date,
  artifact_rejected, Agent, note_state, note_waiting, Rotation, rotate_key, rotate_all, Heartbeat,
  advertised, sync_if, start_executor, measures, tick, pending_text,
}

-- A snapshot with a version is there, and there is one where the executor runs; it is verified.
pub record IsReady (lib : Library) (pub_key : Bytes) (a : Agent) : Type 0 where
  pub verified : IsVerified lib pub_key a.dir
  pub present : is_empty a.dir.version ≡ false → is_none a.dir.snapshot ≡ false
  pub running : a.executor_runs ≡ true → is_none a.dir.snapshot ≡ false

module _ (lib : Library) (pub_key : Bytes) where
  -- Whatever leaves the snapshot, its version and the executor alone.
  same-IsReady :
      (a b : Agent)
      → b.dir.snapshot ≡ a.dir.snapshot
      → b.dir.version ≡ a.dir.version
      → b.executor_runs ≡ a.executor_runs
      → IsReady lib pub_key a
      → IsReady lib pub_key b
  same-IsReady a b s v r k = record {
    verified = record { proven = λ content h. k.verified.proven content (sym s ∙ h) };
    present = λ h. ap is_none s ∙ k.present (sym (ap is_empty v) ∙ h);
    running = λ h. ap is_none s ∙ k.running (sym r ∙ h);
  }

  note_state-IsReady :
      (state : Bytes) (a : Agent) → IsReady lib pub_key a → IsReady lib pub_key (note_state state a)
  unfolding note_state
  note_state-IsReady state a k =
      same-IsReady a (note_state state a) (ground arith) (ground arith) (ground arith) k

  note_waiting-IsReady :
      (now : ℕ) (a : Agent) → IsReady lib pub_key a → IsReady lib pub_key (note_waiting now a)
  unfolding note_waiting
  note_waiting-IsReady now a k =
      same-IsReady a (note_waiting now a) (ground arith) (ground arith) (ground arith) k

  rotate_all-IsReady :
      (rs : List Rotation) (a : Agent)
      → IsReady lib pub_key a
      → IsReady lib pub_key (rotate_all rs a)
  unfolding rotate_all rotate_key
  rotate_all-IsReady [] a k = k
  rotate_all-IsReady (r ∷ rs) a k =
      rotate_all-IsReady rs (rotate_key r a)
        (same-IsReady a (rotate_key r a) (ground arith) (ground arith) (ground arith) k)

  abbrev Settled : Dir → Dir → Type 0
  Settled d d' = (d' ≡ d) ⊎ (is_none d'.snapshot ≡ false)

  install-Settled :
      (ok : Bool) (w : Write) (content v : Bytes) (d : Dir)
      → Settled d (finish_install (install ok w content v d)).1
  unfolding install finish_install
  install-Settled false w content v d = inl refl
  install-Settled true written content v d = inr refl
  install-Settled true (torn left) content v d = inr refl

  file-Settled :
      (a : Answers) (m : Manifest) (o : Option (Option Bytes)) (d : Dir)
      → Settled d (download_file lib a m o d).1
  unfolding download_file check_file
  file-Settled a m none d = inl refl
  file-Settled a m (some none) d = inl refl
  file-Settled a m (some (some content)) d =
      by_verdict (is_intact (verify_file lib (some content) m))
    where
      done : Bool → Synced × Dir
      done b =
          if b
          then finish_install (install a.renames a.writes content m.version d)
          else (artifact_rejected, d)

      by_verdict : (b : Bool) → Settled d (done b).1
      by_verdict true = install-Settled a.renames a.writes content m.version d
      by_verdict false = inl refl

  -- A synchronisation leaves the directory as it was, or with a snapshot.
  sync-Settled : (a : Answers) (d : Dir) → Settled d (sync_snapshot lib pub_key a d).1
  unfolding sync_snapshot sync_manifest
  sync-Settled a d = by_manifest a.manifest
    where
      checked : Manifest → Bool → Bool → Synced × Dir
      checked m b n =
          if not b
          then (manifest_rejected, d)
          else if n
          then (up_to_date, d)
          else download_file lib a m a.download d

      by_tests : (m : Manifest) (b n : Bool) → Settled d (checked m b n).1
      by_tests m false n = inl refl
      by_tests m true true = inl refl
      by_tests m true false = file-Settled a m a.download d

      by_manifest : (o : Option Manifest) → Settled d (sync_manifest lib pub_key a o d).1
      by_manifest none = inl refl
      by_manifest (some m) =
          by_tests m (accepts (verify lib m pub_key)) (bytes_eq m.version d.version)

  -- Syncing keeps a snapshot that is there, and brings one with each version.
  kept_present :
      (d d' : Dir)
      → Settled d d'
      → (is_none d.snapshot ≡ false → is_none d'.snapshot ≡ false)
        × ((is_empty d.version ≡ false → is_none d.snapshot ≡ false)
            → is_empty d'.version ≡ false
            → is_none d'.snapshot ≡ false)
  kept_present d d' (inl e) = (
    λ h. ap (λ (x : Dir). is_none x.snapshot) e ∙ h,
    λ k h.
        ap (λ (x : Dir). is_none x.snapshot) e
        ∙ k (sym (ap (λ (x : Dir). is_empty x.version) e) ∙ h),
  )
  kept_present d d' (inr s) = (λ h. s, λ k h. s)

  sync_if-IsReady :
      (ans : Answers) (b : Bool) (a : Agent)
      → IsReady lib pub_key a
      → IsReady lib pub_key (sync_if lib pub_key ans b a)
  unfolding sync_if
  sync_if-IsReady ans false a k = k
  sync_if-IsReady ans true a k =
      let (x, y) =
        kept_present a.dir (sync_snapshot lib pub_key ans a.dir).1 (sync-Settled ans a.dir) in
      record {
        verified = sync-IsVerified lib pub_key ans a.dir k.verified;
        present = y k.present;
        running = λ h. x (k.running h);
      }

  start_executor-IsReady :
      (a : Agent) → IsReady lib pub_key a → IsReady lib pub_key (start_executor a)
  unfolding start_executor
  start_executor-IsReady a k = by_test a.executor_runs refl (is_empty a.dir.version) refl
    where
      started : Bool → Bool → Agent
      started r e = if not r && not e then record a { executor_runs = true } else a

      by_test :
          (r : Bool)
          → a.executor_runs ≡ r
          → (e : Bool) → is_empty a.dir.version ≡ e
          → IsReady lib pub_key (started r e)
      by_test true p e q = k
      by_test false p true q = k
      by_test false p false q = record {
        verified = k.verified;
        present = k.present;
        running = λ h. k.present q;
      }

  -- A heartbeat, whatever is answered and whatever the disk does, keeps the executor on a verified
  -- snapshot: what is installed is the file of a manifest signed by the pinned key, and the
  -- executor runs only where something is installed.
  pub tick-IsReady :
      (now : ℕ) (ans : Answers) (reply : Option Heartbeat) (a : Agent)
      → IsReady lib pub_key a
      → IsReady lib pub_key (tick lib pub_key now ans reply a)
  unfolding tick
  tick-IsReady now ans none a k = k
  tick-IsReady now ans (some hb) a k = by_state (bytes_eq hb.state pending_text) (measures hb.state)
    where
      noted : Agent
      noted = note_state hb.state a

      noted_ready : IsReady lib pub_key noted
      noted_ready = note_state-IsReady hb.state a k

      synced : Agent
      synced =
          sync_if lib pub_key ans
            (advertised hb.snapshot (rotate_all hb.rotations noted).dir.version)
            (rotate_all hb.rotations noted)

      ticked : Bool → Bool → Agent
      ticked p m = if p then note_waiting now noted else if m then start_executor synced else noted

      by_state : (p m : Bool) → IsReady lib pub_key (ticked p m)
      by_state true m = note_waiting-IsReady now noted noted_ready
      by_state false true = start_executor-IsReady synced (
          sync_if-IsReady ans _ (rotate_all hb.rotations noted)
            (rotate_all-IsReady hb.rotations noted noted_ready))
      by_state false false = noted_ready
