-- ===== src/Coordinator/Uploads/Held.antt =====
-- For internal/coordinator/measurement.go: the map of the assignments that a worker holds.
use vpsa_network_discovery.Prelude.{
  ℕ, ◌≡◌, refl, ◌⊎◌, inl, inr, Bool, true, false, ◌&&◌, Option, none, some, List, [], ◌∷◌, ◌==◌,
  ==_iff, ==_refl, if◌then◌else◌, is_none, arith, subst, Bool-cases,
}
use vpsa_network_discovery.Database.{Database, Assignment, Lease}
use vpsa_network_discovery.Sql.Table.{select, exists, find, find_sound, find-exists}
use vpsa_network_discovery.Coordinator.Leasing.{held_by, has_id}
use vpsa_network_discovery.Coordinator.Uploads.{held_rows, lookup}

-- The worker has a live lease on the assignment, which is one of the provider.
pub record Held (db : Database) (w id provider : ℕ) : Type 0 where
  pub leased : exists (λ l. held_by w l && l.assignment == id) db.leases ≡ true
  pub assigned :
      exists (λ (a : Assignment). a.id == id && a.provider == provider) db.assignments ≡ true

later_or_here :
    (r : Option ℕ) (b : Bool) (x y : ℕ)
    → (if is_none r && b then some x else r) ≡ some y
    → (r ≡ some y) ⊎ ((b ≡ true) × (x ≡ y))
later_or_here none true x y h = inr (refl, cc)
later_or_here none false x y h = inl cc
later_or_here (some z) b x y h = inl (ground arith)

pub lookup-held_rows :
    (as_ : List Assignment) (ls : List Lease) (id provider : ℕ)
    → lookup (held_rows as_ ls) id ≡ some provider
    → (exists (λ l. l.assignment == id) ls ≡ true)
      × (exists (λ (a : Assignment). a.id == id && a.provider == provider) as_ ≡ true)
unfolding lookup held_rows exists
lookup-held_rows as_ [] id provider h = absurd (ground arith)
lookup-held_rows as_ (l ∷ ls) id provider h =
    by_row (lookup-held_rows as_ ls id provider) (find (has_id l.assignment) as_) refl h
  where
    rest : Option ℕ
    rest = lookup (held_rows as_ ls) id

    Goal : Type 0
    Goal =
        (exists (λ l. l.assignment == id) (l ∷ ls) ≡ true)
        × (exists (λ (a : Assignment). a.id == id && a.provider == provider) as_ ≡ true)

    Smaller : Type 0
    Smaller =
        rest ≡ some provider
        → (exists (λ l. l.assignment == id) ls ≡ true)
          × (exists (λ (a : Assignment). a.id == id && a.provider == provider) as_ ≡ true)

    by_rest : Smaller → rest ≡ some provider → Goal
    by_rest ih r = let (x, y) = ih r in (ground (arith, x), y)

    by_first :
        (a : Assignment)
        → find (has_id l.assignment) as_ ≡ some a
        → (a.id == id) ≡ true
        → a.provider ≡ provider
        → Goal
    by_first a e i q = (
      ground (
        arith,
        i,
        ==_iff a.id id,
        ==_iff a.id l.assignment,
        ==_refl id,
        find_sound (has_id l.assignment) as_ a e,
      ),
      find-exists (has_id l.assignment) (λ a. a.id == id && a.provider == provider) as_ a e
          (ground (arith, i, q, ==_refl provider)),
    )

    by_row :
        Smaller
        → (o : Option Assignment) → find (has_id l.assignment) as_ ≡ o
        → lookup
            (elim o [ none ↦ held_rows as_ ls | some a ↦ (a.id, a.provider) ∷ held_rows as_ ls ])
            id
          ≡ some provider
        → Goal
    by_row ih none e q = by_rest ih q
    by_row ih (some a) e q = elim (later_or_here rest (a.id == id) a.provider provider q) [
      | inl r ↦ by_rest ih r
      | inr (i, p) ↦ by_first a e i p
    ]

module _ {A : Type 0} where
  exists-find-none : (p : A → Bool) (xs : List A) → exists p xs ≡ true → find p xs ≡ none → ⊥
  unfolding find exists
  exists-find-none p [] h e = cc
  exists-find-none p (x ∷ xs) h e = ground (arith, exists-find-none p xs)

  exists_left :
      (p q : A → Bool) (xs : List A) → exists (λ x. p x && q x) xs ≡ true → exists p xs ≡ true
  unfolding exists
  exists_left p q [] h = cc
  exists_left p q (x ∷ xs) h = ground (arith, exists_left p q xs)

  exists-select_back :
      (q p : A → Bool) (xs : List A)
      → exists (λ x. p x && q x) xs ≡ true
      → exists q (select p xs) ≡ true
  unfolding exists select
  exists-select_back q p [] h = cc
  exists-select_back q p (x ∷ xs) h = ground (arith, exists-select_back q p xs)

-- Where a lease is on an assignment that exists, the map has it.
lookup-found :
    (as_ : List Assignment) (ls : List Lease) (id : ℕ)
    → exists (has_id id) as_ ≡ true
    → exists (λ l. l.assignment == id) ls ≡ true
    → lookup (held_rows as_ ls) id ≡ none
    → ⊥
unfolding lookup held_rows exists
lookup-found as_ [] id h k e = cc
lookup-found as_ (l ∷ ls) id h k e =
    by_row (lookup-found as_ ls id h) (find (has_id l.assignment) as_) refl e
  where
    rest : Option ℕ
    rest = lookup (held_rows as_ ls) id

    Smaller : Type 0
    Smaller = exists (λ l. l.assignment == id) ls ≡ true → rest ≡ none → ⊥

    missing : l.assignment ≡ id → find (has_id l.assignment) as_ ≡ none → ⊥
    missing q f =
        exists-find-none (has_id id) as_ h (subst (λ (i : ℕ). find (has_id i) as_ ≡ none) q f)

    by_row :
        Smaller
        → (o : Option Assignment) → find (has_id l.assignment) as_ ≡ o
        → lookup
            (elim o [ none ↦ held_rows as_ ls | some a ↦ (a.id, a.provider) ∷ held_rows as_ ls ])
            id
          ≡ none
        → ⊥
    by_row ih none f q = elim (Bool-cases (l.assignment == id)) [
      | inl t ↦ missing (ground (arith, t, ==_iff l.assignment id)) f
      | inr n ↦ ih (ground (arith, n, k)) q
    ]
    by_row ih (some a) f q = elim (Bool-cases (l.assignment == id)) [
      | inl t ↦ ground (
        arith,
        q,
        t,
        ==_iff l.assignment id,
        ==_iff a.id l.assignment,
        ==_refl id,
        find_sound (has_id l.assignment) as_ a f,
      )
      | inr n ↦ ih (ground (arith, n, k)) (ground (arith, q))
    ]

-- An assignment that the map lacks is not held, whatever the provider.
pub lookup-Held :
    (db : Database) (w id : ℕ)
    → lookup (held_rows db.assignments (select (held_by w) db.leases)) id ≡ none
    → (provider : ℕ) → Held db w id provider
    → ⊥
lookup-Held db w id e provider h =
    lookup-found db.assignments (select (held_by w) db.leases) id
      (exists_left (has_id id) (λ a. a.provider == provider) db.assignments h.assigned)
      (exists-select_back (λ l. l.assignment == id) (held_by w) db.leases h.leased) e
