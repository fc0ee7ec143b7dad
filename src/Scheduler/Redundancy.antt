-- ===== src/Scheduler/Redundancy.antt =====
-- For internal/scheduler/scheduler.go: the open assignments after a whole pass.
use vpsa_network_discovery.Prelude.{
  ℕ, zero, suc, ◌+◌, ◌≤◌, ◌≡◌, refl, sym, ◌∙◌, Bool, true, false, not, ◌&&◌, List, [], ◌∷◌, arith,
  ==_refl, ◌==◌, All, All-map,
}
use vpsa_network_discovery.Database.{
  Database, Assignment, draining, closed, has_status, ProbeTarget,
}
use vpsa_network_discovery.Sql.Keeps.{Leaves}
use vpsa_network_discovery.Sql.Hoare.{Hoare, Hoare-bind, Hoare-exec}
use vpsa_network_discovery.Sql.Table.{update, exists, count, exists-append, exists-update_none}
use vpsa_network_discovery.Sql.Counting.{exists-update_back, count-append}
use vpsa_network_discovery.Scheduler.{
  Config, with_defaults, reconcile, drain, release_drained, close_drained, generate, generated,
  replicas, missing, is_live, live_for, belongs, eligible, set_status, interval_for, priority_of,
}

-- A live assignment of a target that does not belong.
abbrev pub is_stray : Database → Assignment → Bool
is_stray db a = is_live a && not (belongs db a)

-- Each eligible target has its replicas, and no other has any.
pub record IsServed (c : Config) (db : Database) : Type 0 where
  pub enough :
      All
        (λ (t : ProbeTarget).
          eligible db t ≡ true → c.redundancy ≤ count (live_for t.id) db.assignments)
        db.targets
  pub only : exists (is_stray db) db.assignments ≡ false

record IsPruned (db : Database) : Type 0 where
  only : exists (is_stray db) db.assignments ≡ false

drain-IsPruned : (db : Database) → Leaves IsPruned (drain db)
unfolding drain is_live has_status belongs eligible
drain-IsPruned db = record {
  only =
      exists-update_none (is_stray db) (is_stray db) (set_status draining) db.assignments
        (λ a. ground arith);
}

release-IsPruned :
    (now : ℕ) (db : Database) → IsPruned db → Leaves IsPruned (release_drained now db)
unfolding release_drained belongs eligible
release-IsPruned now db v = record { only = v.only }

close-IsPruned : (db : Database) → IsPruned db → Leaves IsPruned (close_drained db)
unfolding close_drained is_live has_status belongs eligible
close-IsPruned db v = record {
  only =
      still
        (exists (is_stray db)
          (update (λ a. has_status a.status draining) (set_status closed) db.assignments))
        refl;
}
  where
    still :
        (b : Bool)
        → exists
            (is_stray db)
            (update (λ a. has_status a.status draining) (set_status closed) db.assignments)
          ≡ b
        → exists
            (is_stray db)
            (update (λ a. has_status a.status draining) (set_status closed) db.assignments)
          ≡ false
    still false e = e
    still true e =
        e
        ∙ (sym (
              exists-update_back (is_stray db) (λ a. has_status a.status draining)
                (set_status closed) db.assignments (λ a q. ground arith) e)
            ∙ v.only)

live_replicas : (t n seq p i g : ℕ) → count (live_for t) (replicas n seq t p i g) ≡ n
unfolding count replicas is_live has_status
live_replicas t zero seq p i g = refl
live_replicas t (suc n) seq p i g = ground (arith, ==_refl t, live_replicas t n (suc seq) p i g)

module _ (c : Config) (group_of : ℕ → ℕ) (db : Database) where
  generated_enough :
      (ts : List ProbeTarget) (seq : ℕ)
      → All
          (λ (t : ProbeTarget).
            missing c db t ≤ count (live_for t.id) (generated c group_of db seq ts))
          ts
  unfolding generated
  generated_enough [] seq = tt
  generated_enough (t ∷ ts) seq = (
    omega (
      arith,
      live_replicas t.id (missing c db t) seq t.provider (interval_for c (priority_of db t))
          (group_of t.id),
      count-append (live_for t.id)
          (replicas (missing c db t) seq t.id t.provider (interval_for c (priority_of db t))
            (group_of t.id))
          (generated c group_of db (seq + missing c db t) ts),
    ),
    All-map _ _ ts
        (λ (u : ProbeTarget) h. omega (
          arith,
          h,
          count-append (live_for u.id)
              (replicas (missing c db t) seq t.id t.provider (interval_for c (priority_of db t))
                (group_of t.id))
              (generated c group_of db (seq + missing c db t) ts),
        ))
        (generated_enough ts (seq + missing c db t)),
  )

  replicas_belong :
      (n seq t p i g : ℕ)
      → exists (λ (u : ProbeTarget). u.id == t && eligible db u) db.targets ≡ true
      → exists (is_stray db) (replicas n seq t p i g) ≡ false
  unfolding exists replicas belongs
  replicas_belong zero seq t p i g h = refl
  replicas_belong (suc n) seq t p i g h = ground (arith, h, replicas_belong n (suc seq) t p i g)

  -- The replicas of targets of the table belong.
  generated_belong :
      (ts : List ProbeTarget) (seq : ℕ)
      → ((q : ProbeTarget → Bool) → exists q ts ≡ true → exists q db.targets ≡ true)
      → exists (is_stray db) (generated c group_of db seq ts) ≡ false
  unfolding generated missing exists replicas
  generated_belong [] seq k = refl
  generated_belong (t ∷ ts) seq k = ground (
    arith,
    exists-append (is_stray db)
        (replicas (missing c db t) seq t.id t.provider (interval_for c (priority_of db t))
          (group_of t.id))
        (generated c group_of db (seq + missing c db t) ts),
    head_belongs (eligible db t) refl,
    generated_belong ts (seq + missing c db t) (λ q h. k q (ground (arith, h))),
  )
    where
      found :
          eligible db t ≡ true
          → exists (λ (u : ProbeTarget). u.id == t.id && eligible db u) db.targets ≡ true
      found e = k (λ u. u.id == t.id && eligible db u) (ground (arith, e, ==_refl t.id))

      head_belongs :
          (b : Bool)
          → eligible db t ≡ b
          → exists (is_stray db) (
              replicas
                (missing c db t)
                seq
                t.id
                t.provider
                (interval_for c (priority_of db t))
                (group_of t.id))
            ≡ false
      head_belongs true e =
          replicas_belong (missing c db t) seq t.id t.provider (interval_for c (priority_of db t))
            (group_of t.id) (found e)
      head_belongs false e = rw e

  generate-IsServed : IsPruned db → Leaves (IsServed c) (generate c group_of db)
  unfolding generate belongs eligible missing
  generate-IsServed v = record {
    enough =
        All-map _ _ db.targets
          (λ (t : ProbeTarget) h e. ground (
            arith,
            h,
            e,
            count-append (live_for t.id) db.assignments
                (generated c group_of db db.assignment_seq db.targets),
          ))
          (generated_enough db.targets db.assignment_seq);
    only = ground (
      arith,
      v.only,
      exists-append (is_stray db) db.assignments
          (generated c group_of db db.assignment_seq db.targets),
      generated_belong db.targets db.assignment_seq (λ q h. h),
    );
  }

-- A reconciliation that succeeds leaves every eligible target with the configured number of live
-- assignments at least, and no live assignment of any other target.
pub reconcile-IsServed :
    (c : Config) (group_of : ℕ → ℕ) (now : ℕ)
    → Hoare
        (λ db. Unit {0})
        (IsServed (with_defaults c))
        (λ db. Unit {0})
        (reconcile c group_of now)
unfolding reconcile
reconcile-IsServed c group_of now =
    Hoare-bind {Q = IsPruned} _ _ (Hoare-exec _ (λ db v. tt) (λ db v. drain-IsPruned db)) λ _.
      Hoare-bind {Q = IsPruned} _ _ (Hoare-exec _ (λ db v. tt) (release-IsPruned now)) λ _.
        Hoare-bind {Q = IsPruned} _ _ (Hoare-exec _ (λ db v. tt) close-IsPruned)
          λ _. Hoare-exec _ (λ db v. tt) (λ db v. generate-IsServed (with_defaults c) group_of db v)
