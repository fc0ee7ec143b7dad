-- ===== src/Coordinator/Leasing/Claiming.antt =====
-- For internal/coordinator/measurement.go: the claim of open assignments, within the transaction.
use vpsa_network_discovery.Prelude.{
  ℕ, ◌+◌, ◌-◌, ◌≤◌, ◌≡◌, refl, sym, subst, ◌∙◌, inl, inr, Bool, true, false, not, ◌&&◌, Option,
  none, some, List, [], ◌∷◌, map, arith, ==_iff, Bool-cases,
}
use vpsa_network_discovery.Database.{Database, Assignment, open_, leased, has_status, Worker}
use vpsa_network_discovery.Sql.{ok, exec}
use vpsa_network_discovery.Sql.Keeps.{
  Keeps, Keeps-leaves, Keeps-bind, Keeps-if, Keeps-pure, Keeps-transact, Leaves,
}
use vpsa_network_discovery.Sql.Table.{
  select, update, exists, count, find, exists-append, exists-update_same, exists-count, exists_mono,
}
use vpsa_network_discovery.Sql.Counting.{
  exists-update_mono, exists-update_to, count-update_same, count-append, count_none, count_two,
  count-select-le, count-take-le, exists-select, exists-take, count-map, exists-map,
}
use vpsa_network_discovery.Registry.{is_worker}
use vpsa_network_discovery.Scheduler.{set_status}
use vpsa_network_discovery.Scheduler.Consistency.{IsConsistent, live_on, is_taken}
use vpsa_network_discovery.Coordinator.Leasing.Consistency.{reap-IsConsistent, renew-IsConsistent}
use vpsa_network_discovery.Coordinator.Leasing.{
  has_id, count_held, claim, claimed, claim_all, claimable, first_of_groups, new_lease,
  select_leased, lease_tx,
}

-- The first of each group is a selection of the rows that pass.
pub exists-first_of_groups :
    (q p : Assignment → Bool) (seen : List ℕ) (xs : List Assignment)
    → exists q (first_of_groups p seen xs) ≡ true
    → exists (λ x. q x && p x) xs ≡ true
unfolding exists first_of_groups
exists-first_of_groups q p seen [] h = cc
exists-first_of_groups q p seen (x ∷ xs) h =
    ground
      (arith, exists-first_of_groups q p seen xs, exists-first_of_groups q p (x.group ∷ seen) xs)

count-first_of_groups-le :
    (q p : Assignment → Bool) (seen : List ℕ) (xs : List Assignment)
    → count q (first_of_groups p seen xs) ≤ count q xs
unfolding count first_of_groups
count-first_of_groups-le q p seen [] = omega arith
count-first_of_groups-le q p seen (x ∷ xs) =
    ground (
      arith,
      count-first_of_groups-le q p seen xs,
      count-first_of_groups-le q p (x.group ∷ seen) xs,
    )

abbrev pub is_open : ℕ → Assignment → Bool
is_open id a = has_id id a && has_status a.status open_

module _ (db : Database) (v : IsConsistent db) (chosen : List Assignment)
    (once : (id : ℕ) → count (has_id id) chosen ≤ 1)
    (were_open : (id : ℕ)
      → exists (has_id id) chosen ≡ true
      → exists (is_open id) db.assignments ≡ true)
    (w expires : ℕ) where
  -- What is chosen is open, so no lease is on it.
  not_live : (id : ℕ) → exists (has_id id) chosen ≡ true → exists (live_on id) db.leases ≡ false
  unfolding is_taken has_status
  not_live id h = elim (Bool-cases (exists (live_on id) db.leases)) [
    | inr f ↦ f
    | inl t ↦ absurd (apart t)
  ]
    where
      apart : exists (live_on id) db.leases ≡ true → ⊥
      apart t = omega (
        arith,
        v.unique id,
        count_two (is_open id) (λ a. has_id id a && is_taken a) (has_id id) db.assignments
            (λ a q. ground arith) (λ a q. ground arith) (λ a q. ground arith) (were_open id h)
            (v.held id t),
      )

  leased_now :
      (id : ℕ)
      → exists (has_id id) chosen ≡ true
      → exists
          (λ a. has_id id a && is_taken a)
          (update (λ a. exists (has_id a.id) chosen) (set_status leased) db.assignments)
        ≡ true
  unfolding is_taken has_status
  leased_now id h =
      exists-update_to (is_open id) (λ a. has_id id a && is_taken a) _ (set_status leased)
        db.assignments (λ a q. ground (arith, q, at_id a.id, ==_iff a.id id)) (were_open id h)
    where
      at_id : (j : ℕ) → j ≡ id → exists (has_id j) chosen ≡ true
      at_id j e = subst (λ (i : ℕ). exists (has_id i) chosen ≡ true) (sym e) h

  live_new :
      (id : ℕ) (as_ : List Assignment)
      → count (λ a. live_on id (new_lease w expires a)) as_ ≡ count (has_id id) as_
  unfolding count
  live_new id [] = refl
  live_new id (a ∷ as_) = ground (arith, live_new id as_)

  exists_new :
      (id : ℕ) (as_ : List Assignment)
      → exists (λ a. live_on id (new_lease w expires a)) as_ ≡ exists (has_id id) as_
  unfolding exists
  exists_new id [] = refl
  exists_new id (a ∷ as_) = ground (arith, exists_new id as_)

  pub claim_all-IsConsistent : IsConsistent (claim_all w expires chosen db)
  unfolding claim_all is_taken has_status
  claim_all-IsConsistent = record {
    single = λ id. ground (
      arith,
      v.single id,
      once id,
      not_live id,
      count_none (live_on id) db.leases,
      exists-count (has_id id) chosen,
      count_none (has_id id) chosen,
      count-append (live_on id) db.leases (map (new_lease w expires) chosen),
      count-map (live_on id) (new_lease w expires) chosen,
      live_new id chosen,
    );
    held = λ id h. ground (
      arith,
      h,
      v.held id,
      leased_now id,
      exists-update_mono (λ a. has_id id a && is_taken a) (λ a. exists (has_id a.id) chosen)
          (set_status leased) db.assignments (λ a q. ground arith),
      exists-append (live_on id) db.leases (map (new_lease w expires) chosen),
      exists-map (live_on id) (new_lease w expires) chosen,
      exists_new id chosen,
    );
    unique = λ id. omega (
      arith,
      v.unique id,
      count-update_same (has_id id) (λ a. exists (has_id a.id) chosen) (set_status leased)
          db.assignments (λ a. refl),
    );
    fresh = λ id h.
        exists-update_same (has_id id) (λ a. exists (has_id a.id) chosen) (set_status leased)
          db.assignments (λ a. refl)
        ∙ v.fresh id h;
  }

module _ (db : Database) (me : Worker) (locked : ℕ → Bool) (want : ℕ) where
  claimed_once : IsConsistent db → (id : ℕ) → count (has_id id) (claimed db me locked want) ≤ 1
  unfolding claimed
  claimed_once v id = omega (
    arith,
    v.unique id,
    count-take-le (has_id id) want
        (select (λ a. not (locked a.id)) (first_of_groups (claimable db me) [] db.assignments)),
    count-select-le (has_id id) (λ a. not (locked a.id))
        (first_of_groups (claimable db me) [] db.assignments),
    count-first_of_groups-le (has_id id) (claimable db me) [] db.assignments,
  )

  -- A claimed row is a claimable row.
  pub exists-claimed :
      (q : Assignment → Bool)
      → exists q (claimed db me locked want) ≡ true
      → exists (λ a. q a && claimable db me a) db.assignments ≡ true
  unfolding claimed
  exists-claimed q h =
      exists-first_of_groups q (claimable db me) [] db.assignments
        (exists-select q _ _ (exists-take q want _ h))

  claimed_open :
      (id : ℕ)
      → exists (has_id id) (claimed db me locked want) ≡ true
      → exists (is_open id) db.assignments ≡ true
  unfolding claimable
  claimed_open id h =
      exists_mono (λ a. has_id id a && claimable db me a) (is_open id) db.assignments
        (λ a q. ground arith) (exists-claimed (has_id id) h)

claim-IsConsistent :
    (w expires : ℕ) (locked : ℕ → Bool) (want : ℕ)
    → Keeps IsConsistent (exec (claim w expires locked want))
unfolding claim
claim-IsConsistent w expires locked want =
    Keeps-leaves _ λ db v. by_worker db v (find (is_worker w) db.workers)
  where
    by_worker :
        (db : Database)
        → IsConsistent db
        → (o : Option Worker)
        → Leaves IsConsistent (elim o [
          | none ↦ ok (tt, db)
          | some me ↦ ok (tt, claim_all w expires (claimed db me locked want) db)
        ])
    by_worker db v none = v
    by_worker db v (some me) =
        claim_all-IsConsistent db v (claimed db me locked want) (claimed_once db me locked want v)
          (claimed_open db me locked want) w expires

-- The transaction of the lease endpoint keeps assignments and leases in agreement, at whichever
-- statement it stops and whichever rows other transactions have locked: at most one live lease on
-- an assignment, a live lease only on an assignment that is leased or draining, ids unique and
-- below the sequence.
pub lease-IsConsistent :
    (now ttl w : ℕ) (locked : ℕ → Bool) (capacity : ℕ)
    → Keeps IsConsistent (lease_tx now ttl w locked capacity)
unfolding lease_tx count_held select_leased
lease-IsConsistent now ttl w locked capacity = Keeps-transact _ (
    Keeps-bind _ _ (renew-IsConsistent w (now + ttl)) λ _.
      Keeps-bind _ _ (reap-IsConsistent now) λ _. Keeps-bind _ _ (Keeps-leaves _ λ db v. v) λ held.
        Keeps-bind _ _
          (Keeps-if _ _ _ (claim-IsConsistent w (now + ttl) locked (capacity - held))
            (Keeps-pure tt))
          λ _. Keeps-leaves _ λ db v. v)
