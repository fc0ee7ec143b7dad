-- ===== src/Coordinator/Leasing/Diversity.antt =====
-- For internal/coordinator/measurement.go: the exclusions in the query that claims assignments.
use vpsa_network_discovery.Prelude.{
  ℕ, ◌+◌, ◌-◌, ◌≤◌, ◌≡◌, refl, sym, subst, ◌⊎◌, inl, inr, Bool, true, false, not, ◌&&◌, Option,
  none, some, List, [], ◌∷◌, ◌++◌, map, arith, if◌then◌else◌, ◌==◌, ==_iff, ==_refl, Bool-cases,
}
use vpsa_network_discovery.Database.{
  Database, Assignment, AssignmentStatus, open_, leased, has_status, Lease, Worker,
}
use vpsa_network_discovery.Sql.{ok, exec}
use vpsa_network_discovery.Sql.Keeps.{
  Keeps, Keeps-leaves, Keeps-bind, Keeps-if, Keeps-pure, Keeps-transact, Leaves,
}
use vpsa_network_discovery.Sql.Table.{
  select, update, exists, count, find, find_sound, exists-update_same,
}
use vpsa_network_discovery.Sql.Counting.{
  count-update_same, count-update-le, count-append, count-map, count-take-le, count-select-le,
  count_none, count_two, count_mono, count-within,
}
use vpsa_network_discovery.Registry.{is_worker}
use vpsa_network_discovery.Scheduler.{set_status}
use vpsa_network_discovery.Coordinator.Leasing.{
  has_id, held_by, renew, reap, give_back, is_expired, on_assignment, count_held, claim, claimed,
  claim_all, claimable, first_of_groups, holds_group, new_lease, mem, select_leased, lease_tx,
}
use vpsa_network_discovery.Coordinator.Leasing.Claiming.{exists-claimed}

-- The lease is on an assignment of the group.
abbrev pub in_group : List Assignment → ℕ → Lease → Bool
in_group as_ g l = exists (λ (b : Assignment). b.id == l.assignment && b.group == g) as_

abbrev pub in_group_of : ℕ → ℕ → Database → Lease → Bool
in_group_of w g db l = held_by w l && in_group db.assignments g l

-- No worker holds two assignments of one redundancy group, and ids are unique.
pub record IsDiverse (db : Database) : Type 0 where
  pub unique : (id : ℕ) → count (has_id id) db.assignments ≤ 1
  pub spread : (w g : ℕ) → count (in_group_of w g db) db.leases ≤ 1

-- The statements that change only statuses of assignments.
module _ (p : Assignment → Bool) (s : AssignmentStatus) (as_ : List Assignment) where
  in_group-update :
      (g : ℕ) (l : Lease) → in_group (update p (set_status s) as_) g l ≡ in_group as_ g l
  in_group-update g l =
      exists-update_same (λ (b : Assignment). b.id == l.assignment && b.group == g) p (set_status s)
        as_ (λ b. refl)

  spread-update :
      (w g : ℕ) (ls : List Lease)
      → count (λ l. held_by w l && in_group (update p (set_status s) as_) g l) ls
        ≤ count (λ l. held_by w l && in_group as_ g l) ls
  spread-update w g ls = count_mono _ _ ls λ l q. ground (arith, q, in_group-update g l)

renew-IsDiverse : (w expires : ℕ) → Keeps IsDiverse (exec (renew w expires))
unfolding renew
renew-IsDiverse w expires = Keeps-leaves _ λ db v. record {
  unique = v.unique;
  spread = λ u g. omega (
    arith,
    v.spread u g,
    count-update_same (in_group_of u g db) (held_by w) (λ l. record l { expires_at = expires })
        db.leases (λ l. refl),
  );
}

reap-IsDiverse : (now : ℕ) → Keeps IsDiverse (exec (reap now))
unfolding reap give_back
reap-IsDiverse now = Keeps-leaves _ λ db v. record {
  unique = λ id. omega (
    arith,
    v.unique id,
    count-update_same (has_id id)
        (λ a. has_status a.status leased && exists (on_assignment (is_expired now) a.id) db.leases)
        (set_status open_) db.assignments (λ a. refl),
  );
  spread = λ u g. omega (
    arith,
    v.spread u g,
    spread-update
        (λ a. has_status a.status leased && exists (on_assignment (is_expired now) a.id) db.leases)
        open_ db.assignments u g
        (update (is_expired now) (λ l. record l { released_at = some now }) db.leases),
    count-update-le (in_group_of u g db) (is_expired now) (λ l. record l { released_at = some now })
        db.leases (λ l q. ground arith),
  );
}

-- At most one of each group, none of a group seen.
groups_once :
    (p : Assignment → Bool) (g : ℕ) (seen : List ℕ) (xs : List Assignment)
    → count (λ a. a.group == g) (first_of_groups p seen xs) ≤ (if mem g seen then 0 else 1)
unfolding first_of_groups count mem
groups_once p g seen [] = omega arith
groups_once p g seen (x ∷ xs) = ground (
  arith,
  groups_once p g seen xs,
  groups_once p g (x.group ∷ seen) xs,
  ==_iff x.group g,
  ==_iff g x.group,
  ==_refl g,
)

module _ (db : Database) (v : IsDiverse db) (me : Worker) (locked : ℕ → Bool) (want : ℕ) where
  chosen_once : (g : ℕ) → count (λ a. a.group == g) (claimed db me locked want) ≤ 1
  unfolding claimed mem
  chosen_once g = omega (
    arith,
    count-take-le (λ a. a.group == g) want
        (select (λ a. not (locked a.id)) (first_of_groups (claimable db me) [] db.assignments)),
    count-select-le (λ a. a.group == g) (λ a. not (locked a.id))
        (first_of_groups (claimable db me) [] db.assignments),
    groups_once (claimable db me) g [] db.assignments,
  )

  -- The group of a row chosen is the one its id leads to.
  own_group :
      (g : ℕ) (a : Assignment)
      → ((r : Assignment → Bool) → r a ≡ true → exists r (claimed db me locked want) ≡ true)
      → exists (λ (b : Assignment). b.id == a.id && b.group == g) db.assignments ≡ true
      → (a.group == g) ≡ true
  own_group g a m h = elim (Bool-cases (a.group == g)) [ inl t ↦ t | inr f ↦ absurd (twice f) ]
    where
      twice : (a.group == g) ≡ false → ⊥
      twice f = omega (
        arith,
        v.unique a.id,
        count_two (λ (b : Assignment). b.id == a.id && b.group == g)
            (λ b. (b.id == a.id && not (b.group == g)) && claimable db me b) (has_id a.id)
            db.assignments (λ b q. ground arith) (λ b q. ground arith) (λ b q. ground arith) h
            (exists-claimed db me locked want (λ b. b.id == a.id && not (b.group == g))
              (m (λ b. b.id == a.id && not (b.group == g)) (ground (arith, f, ==_refl a.id)))),
      )

  new_in_group :
      (expires u g : ℕ)
      → count
          (λ a.
            held_by u (new_lease me.id expires a)
            && in_group db.assignments g (new_lease me.id expires a))
          (claimed db me locked want)
        ≤ count (λ a. a.group == g) (claimed db me locked want)
  new_in_group expires u g =
      count-within _ _ (claimed db me locked want) λ a m q. own_group g a m (ground arith)

  new_for_other :
      (expires u g : ℕ)
      → (me.id == u) ≡ false
      → (as_ : List Assignment)
      → count
          (λ a.
            held_by u (new_lease me.id expires a)
            && in_group db.assignments g (new_lease me.id expires a))
          as_
        ≡ 0
  unfolding count
  new_for_other expires u g n [] = refl
  new_for_other expires u g n (a ∷ as_) = ground (arith, n, new_for_other expires u g n as_)

  at_group :
      (g j : ℕ)
      → j ≡ g
      → exists (in_group_of me.id g db) db.leases ≡ true
      → holds_group db me.id j ≡ true
  unfolding holds_group
  at_group g j e t = subst (λ (i : ℕ). holds_group db me.id i ≡ true) (sym e) t

  none_claimable :
      (g : ℕ)
      → exists (in_group_of me.id g db) db.leases ≡ true
      → (as_ : List Assignment) → exists (λ a. (a.group == g) && claimable db me a) as_ ≡ false
  unfolding exists claimable
  none_claimable g t [] = refl
  none_claimable g t (a ∷ as_) =
      ground (arith, none_claimable g t as_, at_group g a.group, ==_iff a.group g)

  -- A group of which a row is chosen is one of which the worker holds nothing.
  none_held :
      (g : ℕ)
      → exists (λ a. a.group == g) (claimed db me locked want) ≡ true
      → exists (in_group_of me.id g db) db.leases ≡ false
  none_held g h = elim (Bool-cases (exists (in_group_of me.id g db) db.leases)) [
    | inr f ↦ f
    | inl t ↦
        clash t (none_claimable g t db.assignments)
          (exists-claimed db me locked want (λ a. a.group == g) h)
  ]
    where
      clash : {b c : Bool} → b ≡ true → c ≡ false → c ≡ true → b ≡ false
      clash p q r = cc

  claim_all-IsDiverse :
      (expires : ℕ) → IsDiverse (claim_all me.id expires (claimed db me locked want) db)
  unfolding claim_all
  claim_all-IsDiverse expires = record {
    unique = λ id. omega (
      arith,
      v.unique id,
      count-update_same (has_id id) (λ a. exists (has_id a.id) (claimed db me locked want))
          (set_status leased) db.assignments (λ a. refl),
    );
    spread = λ u g. ground (
      arith,
      spread-update (λ a. exists (has_id a.id) (claimed db me locked want)) leased db.assignments u
          g (db.leases ++ map (new_lease me.id expires) (claimed db me locked want)),
      count-append (in_group_of u g db) db.leases
          (map (new_lease me.id expires) (claimed db me locked want)),
      count-map (in_group_of u g db) (new_lease me.id expires) (claimed db me locked want),
      v.spread u g,
      chosen_once g,
      new_in_group expires u g,
      others u g,
      held_or_not u g,
    );
  }
    where
      others :
          (u g : ℕ)
          → (me.id == u) ≡ false
          → count
              (λ a.
                held_by u (new_lease me.id expires a)
                && in_group db.assignments g (new_lease me.id expires a))
              (claimed db me locked want)
            ≡ 0
      others u g n = new_for_other expires u g n (claimed db me locked want)

      held_or_not :
          (u g : ℕ)
          → (me.id == u) ≡ true
          → count (λ a. a.group == g) (claimed db me locked want) ≡ 0
            ⊎ count (in_group_of u g db) db.leases ≡ 0
      held_or_not u g e =
          elim (Bool-cases (exists (λ a. a.group == g) (claimed db me locked want))) [
            | inl t ↦ inr (
                subst (λ (i : ℕ). count (in_group_of i g db) db.leases ≡ 0)
                  (ground (arith, e, ==_iff me.id u)) (count_none _ db.leases (none_held g t)))
            | inr f ↦ inl (count_none _ (claimed db me locked want) f)
          ]

claim-IsDiverse :
    (w expires : ℕ) (locked : ℕ → Bool) (want : ℕ)
    → Keeps IsDiverse (exec (claim w expires locked want))
unfolding claim
claim-IsDiverse w expires locked want =
    Keeps-leaves _ λ db v. by_worker db v (find (is_worker w) db.workers) refl
  where
    is_me : (db : Database) (me : Worker) → find (is_worker w) db.workers ≡ some me → me.id ≡ w
    is_me db me e = ground (arith, ==_iff me.id w, find_sound (is_worker w) db.workers me e)

    by_worker :
        (db : Database)
        → IsDiverse db
        → (o : Option Worker) → find (is_worker w) db.workers ≡ o
        → Leaves IsDiverse (elim o [
          | none ↦ ok (tt, db)
          | some me ↦ ok (tt, claim_all w expires (claimed db me locked want) db)
        ])
    by_worker db v none e = v
    by_worker db v (some me) e =
        subst (λ (i : ℕ). IsDiverse (claim_all i expires (claimed db me locked want) db))
          (is_me db me e) (claim_all-IsDiverse db v me locked want expires)

-- The transaction of the lease endpoint keeps ids of assignments unique and no worker with two
-- live leases in one redundancy group, at whichever statement it stops.
pub lease-IsDiverse :
    (now ttl w : ℕ) (locked : ℕ → Bool) (capacity : ℕ)
    → Keeps IsDiverse (lease_tx now ttl w locked capacity)
unfolding lease_tx count_held select_leased
lease-IsDiverse now ttl w locked capacity = Keeps-transact _ (
    Keeps-bind _ _ (renew-IsDiverse w (now + ttl)) λ _. Keeps-bind _ _ (reap-IsDiverse now) λ _.
      Keeps-bind _ _ (Keeps-leaves _ λ db v. v) λ held.
        Keeps-bind _ _
          (Keeps-if _ _ _ (claim-IsDiverse w (now + ttl) locked (capacity - held)) (Keeps-pure tt))
          λ _. Keeps-leaves _ λ db v. v)
