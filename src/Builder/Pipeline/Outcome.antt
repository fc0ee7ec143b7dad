-- ===== src/Builder/Pipeline/Outcome.antt =====
-- For internal/builder/builder.go, `Run`: the published snapshots at whichever step it stops.
use vpsa_network_discovery.Prelude.{
  ℕ, ◌≡◌, refl, ◌∙◌, Bool, true, ◌&&◌, Option, none, some, Bytes, arith, ◌==◌,
}
use vpsa_network_discovery.Database.{Snapshot, superseded, published, is_published}
use vpsa_network_discovery.Sql.Keeps.{Keeps, Keeps-leaves, Keeps-bind, Keeps-pure}
use vpsa_network_discovery.Sql.Hoare.{LeavesWith}
use vpsa_network_discovery.Sql.Triple.{
  Triple, Triple-exec, Triple-bind, Triple-transact, Triple-weaken, Triple-and,
}
use vpsa_network_discovery.Sql.Table.{exists, exists-update_same}
use vpsa_network_discovery.Sql.Counting.{exists-update_to}
use vpsa_network_discovery.Artifact.Publisher.{
  World, put, snapshot_is, is_other, supersede, promote, flip, set_current, prune,
}
use vpsa_network_discovery.Artifact.Publisher.Published.{
  is_out, IsSinglePublished, flip-IsSinglePublished,
}
use vpsa_network_discovery.Artifact.Publisher.Retention.{prune-Retains}
use vpsa_network_discovery.Builder.Pipeline.{Gate, latest, passes, publish, Distributor, rotate}
use vpsa_network_discovery.Builder.Pipeline.Ready.{is_new, is_new_kept, IsReady}

module _ (g : Gate) (start : World) where
  -- The snapshot that was built is published, and the gate lets it pass.
  abbrev pub Replaced : World → Type 0
  Replaced s =
      exists
        (λ r. (r.id == start.db.snapshot_seq && is_out r) && passes g (latest start.db.snapshots) r)
        s.db.snapshots
      ≡ true

  pub record IsDone (s : World) : Type 0 where
    pub sane : IsSinglePublished s
    pub replaced : Replaced s

  abbrev Built : World → Type 0
  Built s = exists (is_new g start) s.db.snapshots ≡ true

  supersede-Built :
      (id : ℕ) (s : World)
      → IsReady g start s
      → LeavesWith (λ (u : Unit {0}) t. Built t) (supersede id s)
  unfolding supersede
  supersede-Built id s v =
      exists-update_same (is_new g start) (is_other id) out s.db.snapshots
        (λ r. is_new_kept g start r (out r) refl refl refl)
      ∙ v.built
    where
      out : Snapshot → Snapshot
      out r = record r { status = superseded }

  promote-Replaced :
      (now : ℕ) (s : World)
      → Built s
      → LeavesWith (λ (u : Unit {0}) t. Replaced t) (promote now start.db.snapshot_seq s)
  unfolding promote is_published
  promote-Replaced now s h =
      exists-update_to (is_new g start) Final (snapshot_is start.db.snapshot_seq) into
        s.db.snapshots (λ r k. ground (arith, k, is_new_kept g start r (into r) refl refl refl)) h
    where
      into : Snapshot → Snapshot
      into r = record r { status = published; published_at = some now }

      Final : Snapshot → Bool
      Final r =
          (r.id == start.db.snapshot_seq && is_out r) && passes g (latest start.db.snapshots) r

  publish-Replaced :
      (now : ℕ)
      → Triple
          (IsReady g start)
          (λ u. Replaced)
          (IsReady g start)
          (publish now start.db.snapshot_seq)
  unfolding publish
  publish-Replaced now =
      Triple-transact {F = λ (s : World). Unit {0}} _ (λ s h. h)
        (Triple-bind {Q = λ (u : Unit {0}) t. Built t} _ _
          (Triple-exec _ (λ s h. tt) (supersede-Built start.db.snapshot_seq))
          λ u. Triple-exec _ (λ s h. tt) (promote-Replaced now))

  publish-IsSinglePublished : (now id : ℕ) → Keeps IsSinglePublished (publish now id)
  unfolding publish flip
  publish-IsSinglePublished now id = flip-IsSinglePublished now id

  pub publish-IsDone :
      (now : ℕ)
      → Triple (IsReady g start) (λ u. IsDone) (IsReady g start) (publish now start.db.snapshot_seq)
  publish-IsDone now =
      Triple-weaken _ (λ s v. (v, v.sane)) (λ u s v. record { sane = v.1; replaced = v.0 })
        (λ s v. v.0)
        (Triple-and _ (publish-Replaced now) (publish-IsSinglePublished now start.db.snapshot_seq))

  prune-IsDone : (retain : ℕ) → Keeps IsDone (prune retain)
  prune-IsDone retain = record {
    at = λ c h.
        let e = (prune-Retains retain c h.sane.unique).snapshots in
        record {
          sane = record { unique = λ id. rw e (h.sane.unique id); single = rw e h.sane.single };
          replaced = rw e h.replaced;
        };
  }

  pub rotate-IsDone :
      (o : Option Distributor) (now : ℕ) (version : Bytes) → Keeps IsDone (rotate o now version)
  unfolding rotate set_current put
  rotate-IsDone none now version = Keeps-pure tt
  rotate-IsDone (some d) now version =
      Keeps-bind _ _
        (Keeps-leaves _ λ s v. record {
          sane = record { unique = v.sane.unique; single = v.sane.single };
          replaced = v.replaced;
        })
        λ u. prune-IsDone d.retain
