-- ===== src/Coordinator/Leasing/Consistency.antt =====
-- For internal/coordinator/measurement.go: assignments and leases, across leasing, reaping and releasing.
use vpsa_network_discovery.Prelude.{
  ℕ, ◌≤◌, ◌≡◌, refl, sym, subst, ◌∙◌, inl, inr, Bool, true, false, not, ◌&&◌, some, List, arith,
  ==_iff, Bool-cases,
}
use vpsa_network_discovery.Database.{Database, Assignment, open_, leased, has_status, Lease}
use vpsa_network_discovery.Sql.{exec}
use vpsa_network_discovery.Sql.Keeps.{Keeps, Keeps-leaves, Leaves}
use vpsa_network_discovery.Sql.Table.{update, exists, count, exists-update_same}
use vpsa_network_discovery.Sql.Counting.{
  exists-update_mono, exists-update_from, count-update_same, count_two,
}
use vpsa_network_discovery.Scheduler.{set_status, is_held}
use vpsa_network_discovery.Scheduler.Consistency.{
  IsConsistent, live_on, is_taken, single-release, live_before,
}
use vpsa_network_discovery.Coordinator.Leasing.{
  has_id, renew, give_back, reap, is_expired, on_assignment, held_by, release_assignments,
}

-- Two live leases on one assignment cannot be, so what is given back leaves none.
none_left :
    (p : Lease → Bool) (now id : ℕ) (ls : List Lease)
    → ((l : Lease) → p l ≡ true → is_held l ≡ true)
    → count (live_on id) ls ≤ 1
    → exists (live_on id) (update p (λ l. record l { released_at = some now }) ls) ≡ true
    → exists (on_assignment p id) ls ≡ false
none_left p now id ls k u h = elim (Bool-cases (exists (on_assignment p id) ls)) [
  | inr f ↦ f
  | inl t ↦ absurd (two_live t)
]
  where
    two_live : exists (on_assignment p id) ls ≡ true → ⊥
    two_live t = omega (
      arith,
      u,
      count_two (on_assignment p id) (λ l. live_on id l && not (p l)) (live_on id) ls
          (λ l q. ground (arith, k l)) (λ l q. ground arith) (λ l q. ground arith) t
          (exists-update_from (live_on id) (λ l. live_on id l && not (p l)) p
            (λ l. record l { released_at = some now }) ls (λ l q. ground arith) h),
    )

module _ (now : ℕ) (p : Lease → Bool) (k : (l : Lease) → p l ≡ true → is_held l ≡ true)
    (db : Database) (v : IsConsistent db) where
  reopened : Assignment → Bool
  reopened a = has_status a.status leased && exists (on_assignment p a.id) db.leases

  -- An assignment of which no lease is given back stays taken.
  stays_taken :
      (id : ℕ)
      → exists (on_assignment p id) db.leases ≡ false
      → exists (λ a. has_id id a && is_taken a) db.assignments ≡ true
      → exists
          (λ a. has_id id a && is_taken a)
          (update
            (λ a. has_status a.status leased && exists (on_assignment p a.id) db.leases)
            (set_status open_)
            db.assignments)
        ≡ true
  stays_taken id n h =
      exists-update_mono (λ a. has_id id a && is_taken a) _ (set_status open_) db.assignments
        (λ a q. ground (arith, q, at_id a.id, ==_iff a.id id)) h
    where
      at_id : (j : ℕ) → j ≡ id → exists (on_assignment p j) db.leases ≡ false
      at_id j e = subst (λ (i : ℕ). exists (on_assignment p i) db.leases ≡ false) (sym e) n

  give_back-IsConsistent : Leaves IsConsistent (give_back now p db)
  unfolding give_back
  give_back-IsConsistent = record {
    single = λ id. single-release now p db.leases id (v.single id);
    held = λ id h.
        stays_taken id (none_left p now id db.leases k (v.single id) h)
          (v.held id (live_before now p db.leases id h));
    unique = λ id. omega (
      arith,
      v.unique id,
      count-update_same (has_id id) _ (set_status open_) db.assignments (λ a. refl),
    );
    fresh = λ id h.
        exists-update_same (has_id id) _ (set_status open_) db.assignments (λ a. refl)
        ∙ v.fresh id h;
  }

pub reap-IsConsistent : (now : ℕ) → Keeps IsConsistent (exec (reap now))
unfolding reap
reap-IsConsistent now =
    Keeps-leaves _ λ db v. give_back-IsConsistent now (is_expired now) (λ l q. ground arith) db v

pub renew-IsConsistent : (w expires : ℕ) → Keeps IsConsistent (exec (renew w expires))
unfolding renew
renew-IsConsistent w expires = Keeps-leaves _ λ db v. record {
  single = λ id. omega (
    arith,
    v.single id,
    count-update_same (live_on id) (held_by w) (λ l. record l { expires_at = expires }) db.leases
        (λ l. refl),
  );
  held = λ id h. v.held id (
      exists-update_from (live_on id) (live_on id) (held_by w)
        (λ l. record l { expires_at = expires }) db.leases (λ l q. ground arith) h);
  unique = v.unique;
  fresh = v.fresh;
}

-- Releasing assignments by a worker keeps assignments and leases in agreement.
release-IsConsistent :
    (now w : ℕ) (ids : List ℕ) → Keeps IsConsistent (release_assignments now w ids)
unfolding release_assignments
release-IsConsistent now w ids =
    Keeps-leaves _ λ db v. give_back-IsConsistent now _ (λ l q. ground arith) db v
