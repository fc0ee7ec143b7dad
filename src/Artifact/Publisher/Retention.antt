-- ===== src/Artifact/Publisher/Retention.antt =====
-- For internal/artifact/publisher.go: the snapshots across a pruning.
use vpsa_network_discovery.Prelude.{
  ℕ, zero, suc, ◌≤◌, ◌≡◌, refl, sym, ap, ◌∙◌, subst, inl, inr, Bool, true, false, not, ◌&&◌, ◌||◌,
  List, [], ◌∷◌, Bytes, drop, ◌==◌, ==_iff, arith, Bool-cases,
}
use mathlib.Core.List.{reverse, reverse-cons}
use vpsa_network_discovery.Database.{Database, Snapshot}
use vpsa_network_discovery.Sql.{Conn, exec}
use vpsa_network_discovery.Sql.Keeps.{Keeps, Keeps-leaves, Keeps-bind, Keeps-pure}
use vpsa_network_discovery.Sql.Hoare.{Keeps-Hoare, Hoare-read, Hoare-given}
use vpsa_network_discovery.Sql.Table.{select, delete, exists, count, exists-append, exists-single}
use vpsa_network_discovery.Sql.Counting.{count_two, exists-select_and}
use vpsa_network_discovery.Artifact.{object_key_sqlite, object_key_manifest}
use vpsa_network_discovery.Artifact.Publisher.{
  World, snapshot_is, is_superseded, victims, select_victims, target_of, prefix_of, change,
  delete_leases, delete_assignments, delete_targets, delete_geo, delete_prefixes, delete_object,
  logged, prune_one, prune_all, prune,
}

-- The snapshot `id` is there and is not superseded.
abbrev pub spared : ℕ → List Snapshot → Bool
spared id rs = exists (λ r. r.id == id && not (is_superseded r.status)) rs

-- Since `start`: the snapshots are the same, and so are the targets and the prefixes of those
-- that are published or being built.
pub record Retains (start s : Database) : Type 0 where
  pub snapshots : s.snapshots ≡ start.snapshots
  pub targets :
      (id : ℕ)
      → spared id start.snapshots ≡ true
      → select (target_of id) s.targets ≡ select (target_of id) start.targets
  pub prefixes :
      (id : ℕ)
      → spared id start.snapshots ≡ true
      → select (prefix_of id) s.prefixes ≡ select (prefix_of id) start.prefixes

module _ {ℓ} {A : Type ℓ} where
  select-delete_same :
      (q p : A → Bool) (xs : List A)
      → ((x : A) → q x ≡ true → p x ≡ false)
      → select q (delete p xs) ≡ select q xs
  unfolding select delete
  select-delete_same q p [] k = refl
  select-delete_same q p (x ∷ xs) k = ground (arith, k x, select-delete_same q p xs k)

  exists-drop :
      (q : A → Bool) (n : ℕ) (xs : List A) → exists q (drop n xs) ≡ true → exists q xs ≡ true
  unfolding exists
  exists-drop q zero xs h = h
  exists-drop q (suc n) [] h = h
  exists-drop q (suc n) (x ∷ xs) h = ground (arith, exists-drop q n xs h)

  exists-reverse : (q : A → Bool) (xs : List A) → exists q (reverse xs) ≡ true → exists q xs ≡ true
  unfolding exists
  exists-reverse q [] h = h
  exists-reverse q (x ∷ xs) h =
      by_last (exists-reverse q xs)
        (sym (exists-append q (reverse xs) (x ∷ [])) ∙ ap (exists q) (sym (reverse-cons x xs)) ∙ h)
    where
      by_last :
          (exists q (reverse xs) ≡ true → exists q xs ≡ true)
          → (exists q (reverse xs) || exists q (x ∷ [])) ≡ true
          → exists q (x ∷ xs) ≡ true
      by_last k e = ground (arith, k, e, exists-single q x)

module _ (start : Database) where
  abbrev Apart : ℕ → Type 0
  Apart v = (id : ℕ) → spared id start.snapshots ≡ true → (id == v) ≡ false

  same_snapshots :
      (f : Database → Database)
      → ((s : Database) → Retains start s → Retains start (f s))
      → Keeps (λ w. Retains start w.db) (exec (change f))
  unfolding change
  same_snapshots f k = Keeps-leaves _ λ w v. k w.db v

  delete_object-Retains :
      (key : Bytes) → Keeps (λ w. Retains start w.db) (logged (exec (delete_object key)))
  unfolding logged delete_object
  delete_object-Retains key = record {
    at = λ c h.
        (Keeps-leaves {P = λ (w : World). Retains start w.db} (delete_object key) λ w v. v).at c h;
  }

  prune_one-Retains : (v : Snapshot) → Apart v.id → Keeps (λ w. Retains start w.db) (prune_one v)
  unfolding prune_one delete_leases delete_assignments delete_targets delete_geo delete_prefixes
  prune_one-Retains v a =
      Keeps-bind _ _
        (same_snapshots (delete_leases v.id)
          λ s k. record { snapshots = k.snapshots; targets = k.targets; prefixes = k.prefixes })
        λ _.
          Keeps-bind _ _
            (same_snapshots (delete_assignments v.id)
              λ s k. record { snapshots = k.snapshots; targets = k.targets; prefixes = k.prefixes })
            λ _.
              Keeps-bind _ _
                (same_snapshots (delete_targets v.id) λ s k. record {
                  snapshots = k.snapshots;
                  targets = λ id h.
                      select-delete_same (target_of id) (target_of v.id) s.targets (λ t q. ground (
                        arith,
                        q,
                        a id h,
                        ==_iff t.snapshot id,
                        ==_iff t.snapshot v.id,
                        ==_iff id v.id,
                      ))
                      ∙ k.targets id h;
                  prefixes = k.prefixes;
                })
                λ _.
                  Keeps-bind _ _
                    (same_snapshots (delete_geo v.id) λ s k. record {
                      snapshots = k.snapshots;
                      targets = k.targets;
                      prefixes = k.prefixes;
                    })
                    λ _.
                      Keeps-bind _ _
                        (same_snapshots (delete_prefixes v.id) λ s k. record {
                          snapshots = k.snapshots;
                          targets = k.targets;
                          prefixes = λ id h.
                              select-delete_same (prefix_of id) (prefix_of v.id) s.prefixes (λ t q.
                                ground (
                                  arith,
                                  q,
                                  a id h,
                                  ==_iff t.snapshot id,
                                  ==_iff t.snapshot v.id,
                                  ==_iff id v.id,
                                ))
                              ∙ k.prefixes id h;
                        })
                        λ _.
                          Keeps-bind _ _ (delete_object-Retains (object_key_sqlite v.version))
                            λ _. delete_object-Retains (object_key_manifest v.version)

  -- The victims are superseded snapshots of the start.
  abbrev Chosen : List Snapshot → Type 0
  Chosen vs =
      (q : Snapshot → Bool)
      → exists q vs ≡ true
      → exists (λ r. is_superseded r.status && q r) start.snapshots ≡ true

  module _ (unique : (id : ℕ) → count (snapshot_is id) start.snapshots ≤ 1) where
    apart : (v : Snapshot) (vs : List Snapshot) → Chosen (v ∷ vs) → Apart v.id
    unfolding exists
    apart v vs k id h = elim (Bool-cases (id == v.id)) [ inr f ↦ f | inl t ↦ absurd (two t) ]
      where
        two : (id == v.id) ≡ true → ⊥
        two t = omega (
          arith,
          unique id,
          count_two (λ r. r.id == id && not (is_superseded r.status))
              (λ r. is_superseded r.status && r.id == id) (snapshot_is id) start.snapshots
              (λ r q. ground arith) (λ r q. ground arith) (λ r q. ground arith) h
              (k (λ r. r.id == id) (ground (arith, t, ==_iff id v.id, ==_iff v.id id))),
        )

    prune_all-Retains :
        (vs : List Snapshot) → Chosen vs → Keeps (λ w. Retains start w.db) (prune_all vs)
    unfolding prune_all exists
    prune_all-Retains [] k = Keeps-pure tt
    prune_all-Retains (v ∷ vs) k =
        Keeps-bind _ _ (prune_one-Retains v (apart v vs k))
          λ _. prune_all-Retains vs (λ q h. k q (ground (arith, h)))

    victims-Chosen :
        (retain : ℕ) (w : World) → w.db.snapshots ≡ start.snapshots → Chosen (victims retain w)
    unfolding victims
    victims-Chosen retain w e q h =
        subst (λ (rs : List Snapshot). exists (λ r. is_superseded r.status && q r) rs ≡ true) e
          (exists-select_and q (λ r. is_superseded r.status) w.db.snapshots
            (exists-reverse q _ (exists-drop q retain _ h)))

record Ready (start : Database) (vs : List Snapshot) (w : World) : Type 0 where
  kept : Retains start w.db
  chosen : Chosen start vs

-- Pruning spares every snapshot that is not superseded: at whichever step it stops, the table of
-- snapshots and the targets and prefixes of those are as they were, if the ids of snapshots are
-- unique.
pub prune-Retains :
    (retain : ℕ) (c : Conn World)
    → ((id : ℕ) → count (snapshot_is id) c.db.db.snapshots ≤ 1)
    → Retains c.db.db (prune retain c).1.db.db
unfolding prune select_victims
prune-Retains retain c u =
    (Keeps-Hoare _ (
        Hoare-read {P = λ (w : World). Retains c.db.db w.db} (victims retain) (Ready c.db.db)
          prune_all (λ w v. v)
          (λ w v. record { kept = v; chosen = victims-Chosen c.db.db u retain w v.snapshots })
          λ vs.
            Hoare-given (prune_all vs) λ w r. (r.kept, prune_all-Retains c.db.db u vs r.chosen))).at
      c (record { snapshots = refl; targets = λ id h. refl; prefixes = λ id h. refl })
