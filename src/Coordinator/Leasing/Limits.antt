-- ===== src/Coordinator/Leasing/Limits.antt =====
-- For internal/coordinator/measurement.go: how many leases a worker asks for and holds.
use vpsa_network_discovery.Prelude.{
  ℕ, zero, suc, ◌+◌, ◌-◌, ◌≤◌, ◌<◌, ◌≡◌, refl, Bool, true, false, not, Option, none, some, List, [],
  ◌∷◌, map, arith, if◌then◌else◌, ltb, take, ltb→lt,
}
use vpsa_network_discovery.Database.{Database, Assignment, Worker}
use vpsa_network_discovery.Sql.{ok, exec, pure}
use vpsa_network_discovery.Sql.Keeps.{Keeps, Keeps-leaves, Keeps-bind, Keeps-transact, Leaves}
use vpsa_network_discovery.Sql.Hoare.{
  Hoare, Keeps-Hoare, Hoare-bind, Hoare-exec, Hoare-read, Hoare-Keeps,
}
use vpsa_network_discovery.Sql.Table.{select, count, find}
use vpsa_network_discovery.Sql.Counting.{
  count-update_same, count-update-le, count-append, count-map,
}
use vpsa_network_discovery.Registry.{is_worker}
use vpsa_network_discovery.Coordinator.Leasing.{
  held_by, renew, reap, give_back, is_expired, count_held, claim, claimed, claim_all, claimable,
  first_of_groups, new_lease, select_leased, lease_tx,
}

-- The worker has at most `n` live leases.
pub record HoldsAtMost (w n : ℕ) (db : Database) : Type 0 where
  pub bound : count (held_by w) db.leases ≤ n

-- The worker has `held` live leases, at most `n`.
record Counted (w n held : ℕ) (db : Database) : Type 0 where
  exact : count (held_by w) db.leases ≡ held
  bound : count (held_by w) db.leases ≤ n

module _ (w n : ℕ) where
  renew-HoldsAtMost : (expires : ℕ) → Keeps (HoldsAtMost w n) (exec (renew w expires))
  unfolding renew
  renew-HoldsAtMost expires = Keeps-leaves _ λ db v. record {
    bound = omega (
      arith,
      v.bound,
      count-update_same (held_by w) (held_by w) (λ l. record l { expires_at = expires }) db.leases
          (λ l. refl),
    );
  }

  reap-HoldsAtMost : (now : ℕ) → Keeps (HoldsAtMost w n) (exec (reap now))
  unfolding reap give_back
  reap-HoldsAtMost now = Keeps-leaves _ λ db v. record {
    bound = omega (
      arith,
      v.bound,
      count-update-le (held_by w) (is_expired now) (λ l. record l { released_at = some now })
          db.leases (λ l q. ground arith),
    );
  }

  length-take_le : (k : ℕ) (as_ : List Assignment) → count (λ a. true) (take k as_) ≤ k
  unfolding count
  length-take_le zero as_ = omega arith
  length-take_le (suc k) [] = omega arith
  length-take_le (suc k) (a ∷ as_) = omega (arith, length-take_le k as_)

  new_at_most :
      (expires : ℕ) (as_ : List Assignment)
      → count (λ a. held_by w (new_lease w expires a)) as_ ≤ count (λ a. true) as_
  unfolding count
  new_at_most expires [] = omega arith
  new_at_most expires (a ∷ as_) = ground (arith, new_at_most expires as_)

  -- A claim adds no more leases than it asks for.
  claim_grows :
      (expires want : ℕ) (locked : ℕ → Bool) (me : Worker) (db : Database)
      → count (held_by w) (claim_all w expires (claimed db me locked want) db).leases
        ≤ count (held_by w) db.leases + want
  unfolding claim_all claimed
  claim_grows expires want locked me db = omega (
    arith,
    count-append (held_by w) db.leases (
        map (new_lease w expires) (
          take want (
            select (λ a. not (locked a.id))
              (first_of_groups (claimable db me) [] db.assignments)))),
    count-map (held_by w) (new_lease w expires) (
        take want
          (select (λ a. not (locked a.id)) (first_of_groups (claimable db me) [] db.assignments))),
    new_at_most expires (
        take want
          (select (λ a. not (locked a.id)) (first_of_groups (claimable db me) [] db.assignments))),
    length-take_le want
        (select (λ a. not (locked a.id)) (first_of_groups (claimable db me) [] db.assignments)),
  )

  claim-HoldsAtMost :
      (expires held capacity : ℕ) (locked : ℕ → Bool)
      → capacity ≤ n
      → held < capacity
      → Hoare
          (Counted w n held)
          (HoldsAtMost w n)
          (HoldsAtMost w n)
          (exec (claim w expires locked (capacity - held)))
  unfolding claim
  claim-HoldsAtMost expires held capacity locked k h =
      Hoare-exec _ (λ db v. record { bound = v.bound })
        λ db v. by_worker db v (find (is_worker w) db.workers)
    where
      by_worker :
          (db : Database)
          → Counted w n held db
          → (o : Option Worker)
          → Leaves (HoldsAtMost w n) (elim o [
            | none ↦ ok (tt, db)
            | some me ↦ ok (tt, claim_all w expires (claimed db me locked (capacity - held)) db)
          ])
      by_worker db v none = record { bound = v.bound }
      by_worker db v (some me) = record {
        bound = omega (arith, v.exact, k, h, claim_grows expires (capacity - held) locked me db);
      }

  claim_or_not :
      (expires held capacity : ℕ) (locked : ℕ → Bool) (b : Bool)
      → ltb held capacity ≡ b
      → capacity ≤ n
      → Hoare
          (Counted w n held)
          (HoldsAtMost w n)
          (HoldsAtMost w n)
          (if b then exec (claim w expires locked (capacity - held)) else pure tt)
  claim_or_not expires held capacity locked true e k =
      claim-HoldsAtMost expires held capacity locked k (ltb→lt held capacity e)
  claim_or_not expires held capacity locked false e k = record {
    at = λ c v. record { bound = v.bound };
  }

-- A worker that has at most n live leases, n at least the capacity it asks for, has at most n
-- after the transaction of the lease endpoint, at whichever statement that stops.
pub lease-HoldsAtMost :
    (w n now ttl : ℕ) (locked : ℕ → Bool) (capacity : ℕ)
    → capacity ≤ n
    → Keeps (HoldsAtMost w n) (lease_tx now ttl w locked capacity)
unfolding lease_tx count_held select_leased
lease-HoldsAtMost w n now ttl locked capacity k = Keeps-transact _ (
    Keeps-bind _ _ (renew-HoldsAtMost w n (now + ttl)) λ _.
      Keeps-bind _ _ (reap-HoldsAtMost w n now) λ _. Keeps-Hoare _ (
        Hoare-read (λ db. count (held_by w) db.leases) (Counted w n) _ (λ db v. v)
          (λ db v. record { exact = refl; bound = v.bound })
          λ held.
            Hoare-bind _ _
              (claim_or_not w n (now + ttl) held capacity locked (ltb held capacity) refl k)
              λ _. Hoare-Keeps _ (Keeps-leaves _ λ db v. v)))
