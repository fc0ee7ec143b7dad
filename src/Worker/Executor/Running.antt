-- ===== src/Worker/Executor/Running.antt =====
-- For internal/worker/executor.go: the assignments that run after a lease.
use vpsa_network_discovery.Prelude.{
  ℕ, ◌≤◌, ◌≡◌, refl, ◌⊎◌, inl, inr, Bool, true, false, not, subst, Option, none, some, List, [],
  ◌∷◌, ◌++◌, Bytes, ◌==◌, ==_iff, if◌then◌else◌, arith,
}
use vpsa_network_discovery.Sql.Table.{select, exists, count, exists-append, exists-single}
use vpsa_network_discovery.Sql.Counting.{count-append, count_none, count-select-le}
use vpsa_network_discovery.Worker.Executor.{Assignment, has_id, current, stop, start, lease}

-- Every running assignment has a target that a verified snapshot lists, and runs once.
pub record IsSafe (in_snapshot : Bytes → Bool) (running : List Assignment) : Type 0 where
  pub listed : exists (λ a. not (in_snapshot a.target)) running ≡ false
  pub once : (id : ℕ) → count (has_id id) running ≤ 1

count_one_row :
    (id : ℕ) (a : Assignment) → count (has_id id) (a ∷ []) ≡ (if a.id == id then 1 else 0)
unfolding count
count_one_row id a = ground arith

module _ (in_snapshot : Bytes → Bool) where
  exists-stop :
      (q : Assignment → Bool) (cur running : List Assignment)
      → exists q running ≡ false
      → exists q (stop cur running) ≡ false
  unfolding stop exists select
  exists-stop q cur [] h = refl
  exists-stop q cur (r ∷ rs) h = ground (arith, exists-stop q cur rs)

  start-IsSafe :
      (as_ running : List Assignment)
      → IsSafe in_snapshot running
      → IsSafe in_snapshot (start in_snapshot running as_)
  unfolding start
  start-IsSafe [] running v = v
  start-IsSafe (a ∷ as_) running v =
      by_tests (exists (has_id a.id) running) refl (in_snapshot a.target) refl
        (λ r. start-IsSafe as_ r)
    where
      no_more :
          exists (has_id a.id) running ≡ false
          → (id : ℕ) → a.id ≡ id
          → exists (has_id id) running ≡ false
      no_more n id e = subst (λ (j : ℕ). exists (has_id j) running ≡ false) e n

      added :
          exists (has_id a.id) running ≡ false
          → in_snapshot a.target ≡ true
          → IsSafe in_snapshot (running ++ a ∷ [])
      added n t = record {
        listed = ground (
          arith,
          v.listed,
          t,
          exists-append (λ b. not (in_snapshot b.target)) running (a ∷ []),
          exists-single (λ b. not (in_snapshot b.target)) a,
        );
        once = λ id. ground (
          arith,
          v.once id,
          no_more n id,
          ==_iff a.id id,
          count_none (has_id id) running,
          count-append (has_id id) running (a ∷ []),
          count_one_row id a,
        );
      }

      by_tests :
          (b : Bool)
          → exists (has_id a.id) running ≡ b
          → (t : Bool) → in_snapshot a.target ≡ t
          → ((r : List Assignment)
              → IsSafe in_snapshot r
              → IsSafe in_snapshot (start in_snapshot r as_))
          → IsSafe in_snapshot (
              if b
              then start in_snapshot running as_
              else if t
              then start in_snapshot (running ++ a ∷ []) as_
              else start in_snapshot running as_)
      by_tests true e t f k = k running v
      by_tests false e true f k = k (running ++ a ∷ []) (added e f)
      by_tests false e false f k = k running v

  stop-IsSafe :
      (cur running : List Assignment)
      → IsSafe in_snapshot running
      → IsSafe in_snapshot (stop cur running)
  unfolding stop
  stop-IsSafe cur running v = record {
    listed = exists-stop (λ a. not (in_snapshot a.target)) cur running v.listed;
    once = λ id.
        omega
          (arith, v.once id, count-select-le (has_id id) (λ r. exists (has_id r.id) cur) running);
  }

  -- Whatever the coordinator answers, a lease leaves running only assignments whose target the
  -- snapshot lists, each once, where that held before.
  pub lease-IsSafe :
      (reply : Option (List Assignment)) (running : List Assignment)
      → IsSafe in_snapshot running
      → IsSafe in_snapshot (lease in_snapshot reply running)
  unfolding lease
  lease-IsSafe none running v = v
  lease-IsSafe (some as_) running v =
      start-IsSafe (current as_) _ (stop-IsSafe (current as_) running v)

  -- What runs after a lease is what is held.
  exists-start :
      (q : Assignment → Bool) (as_ running : List Assignment)
      → exists q (start in_snapshot running as_) ≡ true
      → (exists q running ≡ true) ⊎ (exists q as_ ≡ true)
  unfolding start exists
  exists-start q [] running h = inl h
  exists-start q (a ∷ as_) running h = ground (
    arith,
    h,
    exists-start q as_ running,
    exists-start q as_ (running ++ a ∷ []),
    exists-append q running (a ∷ []),
    exists-single q a,
  )

  exists-current :
      (id : ℕ) (as_ : List Assignment)
      → exists (has_id id) (current as_) ≡ true
      → exists (has_id id) as_ ≡ true
  unfolding current exists
  exists-current id [] h = h
  exists-current id (a ∷ as_) h = ground (arith, exists-current id as_)

  exists-stopped :
      (id : ℕ) (cur running : List Assignment)
      → exists (has_id id) (stop cur running) ≡ true
      → exists (has_id id) cur ≡ true
  unfolding stop select exists
  exists-stopped id cur [] h = absurd (ground arith)
  exists-stopped id cur (r ∷ rs) h =
      ground (arith, h, exists-stopped id cur rs, at_id r.id, ==_iff r.id id)
    where
      at_id : (j : ℕ) → j ≡ id → exists (has_id j) cur ≡ true → exists (has_id id) cur ≡ true
      at_id j e x = subst (λ (i : ℕ). exists (has_id i) cur ≡ true) e x

  -- After a successful lease only assignments that the coordinator named are running.
  pub lease-held :
      (as_ running : List Assignment) (id : ℕ)
      → exists (has_id id) (lease in_snapshot (some as_) running) ≡ true
      → exists (has_id id) as_ ≡ true
  unfolding lease
  lease-held as_ running id h =
      exists-current id as_
        (elim (exists-start (has_id id) (current as_) (stop (current as_) running) h) [
          | inl x ↦ exists-stopped id (current as_) running x
          | inr y ↦ y
        ])
