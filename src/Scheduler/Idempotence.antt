-- ===== src/Scheduler/Idempotence.antt =====
-- For internal/scheduler/scheduler.go: a second pass.
use vpsa_network_discovery.Prelude.{
  ℕ, zero, suc, ◌+◌, ◌≤◌, ◌≡◌, refl, sym, ap, subst, ◌∙◌, Bool, true, false, ◌&&◌, some, List, [],
  ◌∷◌, ◌++◌, arith, ◌==◌, All, append-nil,
}
use vpsa_network_discovery.Database.{
  Database, Assignment, draining, closed, has_status, ProbeTarget, Lease,
}
use vpsa_network_discovery.Sql.{Result, ok, err, Conn, exec}
use vpsa_network_discovery.Sql.Keeps.{Keeps, Keeps-leaves, Keeps-bind, Leaves}
use vpsa_network_discovery.Sql.Hoare.{Hoare, Hoare-bind, Hoare-exec, Post}
use vpsa_network_discovery.Sql.Table.{update, exists, count, exists-append, exists-update_none}
use vpsa_network_discovery.Scheduler.{
  Config, with_defaults, reconcile, drain, release_drained, close_drained, generate, generated,
  replicas, missing, missing_all, live_for, eligible, set_status, is_held, drains, interval_for,
  priority_of,
}
use vpsa_network_discovery.Scheduler.Redundancy.{IsServed, reconcile-IsServed, is_stray}

abbrev pub is_draining : Assignment → Bool
is_draining a = has_status a.status draining

record IsClosed (db : Database) : Type 0 where
  closed : exists is_draining db.assignments ≡ false

close-IsClosed : (db : Database) → Leaves IsClosed (close_drained db)
unfolding close_drained has_status
close-IsClosed db = record {
  closed =
      exists-update_none is_draining is_draining (set_status closed) db.assignments
        (λ a. ground arith);
}

replicas_open : (n seq t p i g : ℕ) → exists is_draining (replicas n seq t p i g) ≡ false
unfolding exists replicas has_status
replicas_open zero seq t p i g = refl
replicas_open (suc n) seq t p i g = ground (arith, replicas_open n (suc seq) t p i g)

generated_open :
    (c : Config) (group_of : ℕ → ℕ) (db : Database) (ts : List ProbeTarget) (seq : ℕ)
    → exists is_draining (generated c group_of db seq ts) ≡ false
unfolding generated exists
generated_open c group_of db [] seq = refl
generated_open c group_of db (t ∷ ts) seq = ground (
  arith,
  exists-append is_draining
      (replicas (missing c db t) seq t.id t.provider (interval_for c (priority_of db t))
        (group_of t.id))
      (generated c group_of db (seq + missing c db t) ts),
  replicas_open (missing c db t) seq t.id t.provider (interval_for c (priority_of db t))
      (group_of t.id),
  generated_open c group_of db ts (seq + missing c db t),
)

generate-IsClosed :
    (c : Config) (group_of : ℕ → ℕ) (db : Database)
    → IsClosed db
    → Leaves IsClosed (generate c group_of db)
unfolding generate
generate-IsClosed c group_of db v = record {
  closed = ground (
    arith,
    v.closed,
    exists-append is_draining db.assignments (generated c group_of db db.assignment_seq db.targets),
    generated_open c group_of db db.targets db.assignment_seq,
  );
}

reconcile-IsClosed :
    (c : Config) (group_of : ℕ → ℕ) (now : ℕ)
    → Hoare (λ db. Unit {0}) IsClosed (λ db. Unit {0}) (reconcile c group_of now)
unfolding reconcile
reconcile-IsClosed c group_of now =
    Hoare-bind {Q = λ db. Unit {0}} _ _ (Hoare-exec _ (λ db v. tt) (λ db v. leaves_any (drain db)))
      λ _.
        Hoare-bind {Q = λ db. Unit {0}} _ _
          (Hoare-exec _ (λ db v. tt) (λ db v. leaves_any (release_drained now db)))
          λ _.
            Hoare-bind {Q = IsClosed} _ _ (Hoare-exec _ (λ db v. tt) (λ db v. close-IsClosed db))
              λ _.
                Hoare-exec _ (λ db v. tt)
                  (λ db v. generate-IsClosed (with_defaults c) group_of db v)
  where
    leaves_any : (r : Result (Unit {0} × Database)) → Leaves (λ db. Unit {0}) r
    leaves_any (ok (a, s)) = tt
    leaves_any (err e) = tt

update_none :
    {A : Type 0} (p : A → Bool) (f : A → A) (xs : List A) → exists p xs ≡ false → update p f xs ≡ xs
unfolding update exists
update_none p f [] h = refl
update_none p f (x ∷ xs) h = ground (arith, h, update_none p f xs)

-- With nothing draining, no lease is to be released.
no_lease :
    (as_ : List Assignment) (ls : List Lease)
    → exists is_draining as_ ≡ false
    → exists (λ l. drains as_ l && is_held l) ls ≡ false
unfolding exists drains
no_lease as_ [] h = refl
no_lease as_ (l ∷ ls) h = ground (arith, no_lease as_ ls h, none_at as_ h)
  where
    none_at :
        (bs : List Assignment)
        → exists is_draining bs ≡ false
        → exists (λ (a : Assignment). a.id == l.assignment && has_status a.status draining) bs
          ≡ false
    none_at [] k = refl
    none_at (b ∷ bs) k = ground (arith, k, none_at bs)

module _ (c : Config) (group_of : ℕ → ℕ) (db : Database) where
  nothing_missing :
      (ts : List ProbeTarget) (seq : ℕ)
      → All
          (λ (t : ProbeTarget).
            eligible db t ≡ true → c.redundancy ≤ count (live_for t.id) db.assignments)
          ts
      → (generated c group_of db seq ts ≡ []) × (missing_all c db ts ≡ 0)
  unfolding generated missing_all missing replicas
  nothing_missing [] seq a = (refl, refl)
  nothing_missing (t ∷ ts) seq (e, a) =
      let none_here : missing c db t ≡ 0 = ground (arith, e) in
      let (g, m) = nothing_missing ts (seq + missing c db t) a in
      (rw (g, none_here), omega (arith, none_here, m))

  drain-same : IsServed c db → Leaves (λ d. d ≡ db) (drain db)
  unfolding drain
  drain-same v =
      ap (λ (as_ : List Assignment). record db { assignments = as_ })
        (update_none (is_stray db) (set_status draining) db.assignments v.only)

  release-same : (now : ℕ) → IsClosed db → Leaves (λ d. d ≡ db) (release_drained now db)
  unfolding release_drained
  release-same now v =
      ap (λ (ls : List Lease). record db { leases = ls })
        (update_none (λ l. drains db.assignments l && is_held l)
          (λ l. record l { released_at = some now }) db.leases
          (no_lease db.assignments db.leases v.closed))

  close-same : IsClosed db → Leaves (λ d. d ≡ db) (close_drained db)
  unfolding close_drained
  close-same v =
      ap (λ (as_ : List Assignment). record db { assignments = as_ })
        (update_none is_draining (set_status closed) db.assignments v.closed)

  generate-same : IsServed c db → Leaves (λ d. d ≡ db) (generate c group_of db)
  unfolding generate
  generate-same v =
      let (g, m) = nothing_missing db.targets db.assignment_seq v.enough in
      same_parts (db.assignments ++ generated c group_of db db.assignment_seq db.targets)
        (db.assignment_seq + missing_all c db db.targets) (rw (g) (append-nil db.assignments))
        (omega (arith, m))
    where
      same_parts :
          (as_ : List Assignment) (n : ℕ)
          → as_ ≡ db.assignments
          → n ≡ db.assignment_seq
          → record db { assignments = as_; assignment_seq = n } ≡ db
      same_parts as_ n p q =
          ap (λ (x : List Assignment). record db { assignments = x; assignment_seq = n }) p
          ∙ ap (λ (m : ℕ). record db { assignment_seq = m }) q

-- The statements at the database `db`.
at_db :
    (db : Database) (f : Database → Result (Unit {0} × Database))
    → Leaves (λ d. d ≡ db) (f db)
    → Keeps (λ d. d ≡ db) (exec f)
at_db db f l = Keeps-leaves f λ s v. subst (λ (x : Database). Leaves (λ d. d ≡ db) (f x)) (sym v) l

again :
    (c : Config) (group_of : ℕ → ℕ) (now : ℕ) (db : Database)
    → IsServed (with_defaults c) db
    → IsClosed db
    → Keeps (λ d. d ≡ db) (reconcile c group_of now)
unfolding reconcile
again c group_of now db v w =
    Keeps-bind _ _ (at_db db drain (drain-same (with_defaults c) group_of db v)) λ _.
      Keeps-bind _ _
        (at_db db (release_drained now) (release-same (with_defaults c) group_of db now w))
        λ _.
          Keeps-bind _ _ (at_db db close_drained (close-same (with_defaults c) group_of db w)) λ _.
            at_db db (generate (with_defaults c) group_of)
              (generate-same (with_defaults c) group_of db v)

-- After a reconciliation that succeeds, another one, at any time and whatever fails, changes
-- nothing.
pub reconcile_twice :
    (c : Config) (group_of : ℕ → ℕ) (now later : ℕ) (conn conn' : Conn Database)
    → (reconcile c group_of now conn).0 ≡ ok tt
    → conn'.db ≡ (reconcile c group_of now conn).1.db
    → (reconcile c group_of later conn').1.db ≡ (reconcile c group_of now conn).1.db
reconcile_twice c group_of now later conn conn' h e =
    (again c group_of later (reconcile c group_of now conn).1.db
        (success (IsServed (with_defaults c)) (reconcile c group_of now conn).0 h
          ((reconcile-IsServed c group_of now).at conn tt))
        (success IsClosed (reconcile c group_of now conn).0 h
          ((reconcile-IsClosed c group_of now).at conn tt))).at
      conn' e
  where
    success :
        (Q : Database → Type 0) (r : Result (Unit {0}))
        → r ≡ ok tt
        → Post Q (λ db. Unit {0}) r (reconcile c group_of now conn).1
        → Q (reconcile c group_of now conn).1.db
    success Q (ok a) p q = q
    success Q (err x) p q = absurd (ground arith)
