-- ===== src/Scheduler/Consistency.antt =====
-- For internal/scheduler/scheduler.go: assignments and leases at each statement.
use vpsa_network_discovery.Prelude.{
  ℕ, zero, suc, ◌+◌, ◌≤◌, ◌≡◌, refl, sym, subst, ◌∙◌, Bool, true, false, not, ◌&&◌, ◌||◌, List, [],
  ◌∷◌, arith, if◌then◌else◌, some, ==_iff, ◌==◌, leb, ltb,
}
use vpsa_network_discovery.Database.{
  Database, Assignment, leased, draining, closed, has_status, Lease, ProbeTarget,
}
use vpsa_network_discovery.Sql.{exec}
use vpsa_network_discovery.Sql.Keeps.{Keeps, Keeps-leaves, Keeps-bind, Leaves}
use vpsa_network_discovery.Sql.Hoare.{Keeps-Hoare, Hoare-bind, Hoare-exec, Hoare-Keeps}
use vpsa_network_discovery.Sql.Table.{
  update, exists, count, exists-append, exists-update_same, exists-update_none, exists-count,
}
use vpsa_network_discovery.Sql.Counting.{
  exists-update_mono, exists-update_back, count-update_same, count-update-le, count-append,
  count_none,
}
use vpsa_network_discovery.Scheduler.{
  Config, with_defaults, reconcile, drain, release_drained, close_drained, generate, generated,
  replicas, missing, missing_all, is_live, belongs, set_status, is_held, drains, interval_for,
  priority_of,
}

abbrev pub has_id : ℕ → Assignment → Bool
has_id id a = a.id == id

abbrev pub live_on : ℕ → Lease → Bool
live_on id l = l.assignment == id && is_held l

-- Leased, or on its way out: the states in which an assignment can have a live lease.
unfoldable pub is_taken : Assignment → Bool
unfolding has_status
is_taken a = has_status a.status leased || has_status a.status draining

pub record IsConsistent (db : Database) : Type 0 where
  -- At most one worker holds an assignment.
  pub single : (id : ℕ) → count (live_on id) db.leases ≤ 1
  -- An assignment that is held is leased or draining: never open, never closed.
  pub held :
      (id : ℕ)
      → exists (live_on id) db.leases ≡ true
      → exists (λ a. has_id id a && is_taken a) db.assignments ≡ true
  -- Ids are unique, and below the sequence.
  pub unique : (id : ℕ) → count (has_id id) db.assignments ≤ 1
  pub fresh : (id : ℕ) → db.assignment_seq ≤ id → exists (has_id id) db.assignments ≡ false

drain-IsConsistent : Keeps IsConsistent (exec drain)
unfolding drain is_taken is_live has_status
drain-IsConsistent = Keeps-leaves _ λ db v. record {
  single = v.single;
  held = λ id h.
      exists-update_mono (λ a. has_id id a && is_taken a) (λ a. is_live a && not (belongs db a))
        (set_status draining) db.assignments (λ x p. ground arith) (v.held id h);
  unique = λ id. omega (
    arith,
    v.unique id,
    count-update_same (has_id id) (λ a. is_live a && not (belongs db a)) (set_status draining)
        db.assignments (λ x. refl),
  );
  fresh = λ id h.
      exists-update_same (has_id id) (λ a. is_live a && not (belongs db a)) (set_status draining)
        db.assignments (λ x. refl)
      ∙ v.fresh id h;
}

-- After the release no live lease is on a draining assignment.
pub record IsReleased (db : Database) : Type 0 where
  pub consistent : IsConsistent db
  pub kept :
      (id : ℕ)
      → exists (live_on id) db.leases ≡ true
      → exists (λ a. has_id id a && has_status a.status draining) db.assignments ≡ false

module _ (now : ℕ) (p : Lease → Bool) (ls : List Lease) where
  -- Releasing makes no lease live.
  pub single-release :
      (id : ℕ)
      → count (live_on id) ls ≤ 1
      → count (live_on id) (update p (λ l. record l { released_at = some now }) ls) ≤ 1
  single-release id h = omega (
    arith,
    h,
    count-update-le (live_on id) p (λ l. record l { released_at = some now }) ls
        (λ x q. ground arith),
  )

  pub live_before :
      (id : ℕ)
      → exists (live_on id) (update p (λ l. record l { released_at = some now }) ls) ≡ true
      → exists (live_on id) ls ≡ true
  live_before id h =
      exists-update_back (live_on id) p (λ l. record l { released_at = some now }) ls
        (λ x q. ground arith) h

-- A lease on an assignment that drains is among those released.
drains_at :
    (as_ : List Assignment) (id : ℕ) (l : Lease)
    → exists (λ a. has_id id a && has_status a.status draining) as_ ≡ true
    → l.assignment ≡ id
    → drains as_ l ≡ true
unfolding drains
drains_at as_ id l e h =
    subst (λ (n : ℕ). exists (λ a. has_id n a && has_status a.status draining) as_ ≡ true) (sym h) e

not_draining :
    (db : Database) (now id : ℕ) (b : Bool)
    → exists (λ a. has_id id a && has_status a.status draining) db.assignments ≡ b
    → exists (live_on id) (
        update
          (λ l. drains db.assignments l && is_held l)
          (λ l. record l { released_at = some now })
          db.leases)
      ≡ true
    → b ≡ false
not_draining db now id false e h = refl
not_draining db now id true e h =
    sym h
    ∙ exists-update_none (live_on id) _ _ db.leases
        λ x. ground (arith, drains_at db.assignments id x e, ==_iff x.assignment id)

release_drained-IsReleased :
    (now : ℕ) (db : Database) → IsConsistent db → Leaves IsReleased (release_drained now db)
unfolding release_drained
release_drained-IsReleased now db v = record {
  consistent = record {
    single = λ id. single-release now _ db.leases id (v.single id);
    held = λ id h. v.held id (live_before now _ db.leases id h);
    unique = v.unique;
    fresh = v.fresh;
  };
  kept = λ id h. not_draining db now id _ refl h;
}

-- With a live lease, and not draining, an assignment is leased, and stays so.
still_taken :
    (id : ℕ) (as_ : List Assignment)
    → exists (λ a. has_id id a && is_taken a) as_ ≡ true
    → exists (λ a. has_id id a && has_status a.status draining) as_ ≡ false
    → exists
        (λ a. has_id id a && is_taken a)
        (update (λ a. has_status a.status draining) (set_status closed) as_)
      ≡ true
unfolding exists update is_taken has_status
still_taken id [] h n = cc
still_taken id (a ∷ as_) h n = ground (arith, still_taken id as_)

close_drained-IsConsistent :
    (db : Database) → IsReleased db → Leaves IsConsistent (close_drained db)
unfolding close_drained has_status
close_drained-IsConsistent db v = record {
  single = v.consistent.single;
  held = λ id h. still_taken id db.assignments (v.consistent.held id h) (v.kept id h);
  unique = λ id. omega (
    arith,
    v.consistent.unique id,
    count-update_same (has_id id) (λ a. has_status a.status draining) (set_status closed)
        db.assignments (λ x. refl),
  );
  fresh = λ id h.
      exists-update_same (has_id id) (λ a. has_status a.status draining) (set_status closed)
        db.assignments (λ x. refl)
      ∙ v.consistent.fresh id h;
}

-- The ids that a generation hands out: from `seq` on, each once.
replicas_ids :
    (id n seq t p i g : ℕ)
    → count (has_id id) (replicas n seq t p i g) ≡ (if leb seq id && ltb id (seq + n) then 1 else 0)
unfolding count replicas
replicas_ids id zero seq t p i g = ground arith
replicas_ids id (suc n) seq t p i g = ground (arith, replicas_ids id n (suc seq) t p i g)

generated_ids :
    (c : Config) (group_of : ℕ → ℕ) (db : Database) (id seq : ℕ) (ts : List ProbeTarget)
    → count (has_id id) (generated c group_of db seq ts)
      ≡ (if leb seq id && ltb id (seq + missing_all c db ts) then 1 else 0)
unfolding count generated missing_all
generated_ids c group_of db id seq [] = ground arith
generated_ids c group_of db id seq (t ∷ ts) = ground (
  arith,
  count-append (has_id id)
      (replicas (missing c db t) seq t.id t.provider (interval_for c (priority_of db t))
        (group_of t.id))
      (generated c group_of db (seq + missing c db t) ts),
  replicas_ids id (missing c db t) seq t.id t.provider (interval_for c (priority_of db t))
      (group_of t.id),
  generated_ids c group_of db id (seq + missing c db t) ts,
)

generate-IsConsistent :
    (c : Config) (group_of : ℕ → ℕ) → Keeps IsConsistent (exec (generate c group_of))
unfolding generate
generate-IsConsistent c group_of = Keeps-leaves _ λ db v. record {
  single = v.single;
  held = λ id h. ground (
    arith,
    exists-append (λ a. has_id id a && is_taken a) db.assignments
        (generated c group_of db db.assignment_seq db.targets),
    v.held id h,
  );
  unique = λ id. ground (
    arith,
    v.unique id,
    v.fresh id,
    count_none (has_id id) db.assignments,
    count-append (has_id id) db.assignments (generated c group_of db db.assignment_seq db.targets),
    generated_ids c group_of db id db.assignment_seq db.targets,
  );
  fresh = λ id h. ground (
    arith,
    v.fresh id,
    exists-append (has_id id) db.assignments (generated c group_of db db.assignment_seq db.targets),
    generated_ids c group_of db id db.assignment_seq db.targets,
    exists-count (has_id id) (generated c group_of db db.assignment_seq db.targets),
  );
}

-- A reconciliation keeps assignments and leases in agreement, at whichever of its four statements
-- it stops.
pub reconcile-IsConsistent :
    (c : Config) (group_of : ℕ → ℕ) (now : ℕ) → Keeps IsConsistent (reconcile c group_of now)
unfolding reconcile
reconcile-IsConsistent c group_of now = Keeps-bind _ _ drain-IsConsistent λ _. Keeps-Hoare _ (
    Hoare-bind {Q = IsReleased} _ _ (Hoare-exec _ (λ db v. v) (release_drained-IsReleased now)) λ _.
      Hoare-bind {Q = IsConsistent} _ _
        (Hoare-exec _ (λ db v. v.consistent) close_drained-IsConsistent)
        λ _. Hoare-Keeps _ (generate-IsConsistent (with_defaults c) group_of))
