-- ===== src/Builder/Pipeline/Publication.antt =====
-- For internal/builder/builder.go, `Run`: the snapshot from its load to the gate.
use vpsa_network_discovery.Prelude.{
  ℕ, ◌+◌, ◌≡◌, refl, ap, subst, ◌∙◌, Bool, true, false, Option, none, some, List, [], ◌∷◌, ◌++◌,
  Bytes, if◌then◌else◌, ==_refl, append-nil,
}
use vpsa_network_discovery.Database.{Database, Snapshot, is_published}
use vpsa_network_discovery.Sql.{ok, err, db_error, pure, raise}
use vpsa_network_discovery.Sql.Hoare.{LeavesWith, LeavesWith-if}
use vpsa_network_discovery.Sql.Triple.{
  Triple, Triple-pure, Triple-raise, Triple-exec, Triple-bind, Triple-transact,
}
use vpsa_network_discovery.Sql.Table.{
  select, exists, find, select-append, find-append, find-none, find-single,
}
use vpsa_network_discovery.Artifact.Publisher.{snapshot_is}
use vpsa_network_discovery.Sorting.{sort_by, descending}
use vpsa_network_discovery.Builder.Loading.{
  PlacedRow, new_snapshot, named, insert_snapshot, all_known, copy_prefixes, load,
}
use vpsa_network_discovery.Builder.Pipeline.{
  Gate, head_of, time_or_zero, latest, passes, read_total, read_latest, after_latest, sanity_gate,
}
use vpsa_network_discovery.Builder.Pipeline.Steps.{Table}

module _ (version : Bytes) (rows : List PlacedRow) (ss : List Snapshot) (n : ℕ) where
  -- The snapshots with the new one.
  abbrev pub extended : List Snapshot
  extended = ss ++ new_snapshot n version rows ∷ []

  abbrev pub Extended : ℕ → Database → Type 0
  Extended id db = (id ≡ n) × Table extended (n + 1) db

  insert-Extended :
      (db : Database) → Table ss n db → LeavesWith Extended (insert_snapshot version rows db)
  unfolding insert_snapshot
  insert-Extended db v =
      LeavesWith-if Extended (exists (named version) db.snapshots) (err db_error) _ tt
        (v.next, record { rows = rw (v.rows, v.next) refl; next = ap (λ (k : ℕ). k + 1) v.next })

  copy-Extended :
      (id : ℕ) (db : Database)
      → Extended id db
      → LeavesWith (λ (u : Unit {0}) t. Extended id t) (copy_prefixes id rows db)
  unfolding copy_prefixes
  copy-Extended id db v =
      LeavesWith-if (λ (u : Unit {0}) t. Extended id t) (all_known db.asns rows) _ (err db_error)
        (v.0, record { rows = v.1.rows; next = v.1.next }) tt

  pub load-Extended : Triple (Table ss n) Extended (Table ss n) (load version rows)
  unfolding load
  load-Extended =
      Triple-transact {F = λ (db : Database). Unit {0}} _ (λ s h. h)
        (Triple-bind {Q = Extended} _ _ (Triple-exec _ (λ s h. tt) insert-Extended) λ id.
          Triple-bind {Q = λ (u : Unit {0}) t. Extended id t} _ _
            (Triple-exec (copy_prefixes id rows) (λ s h. tt) (copy-Extended id))
            λ u. Triple-pure id (λ s h. h))

  module _ (g : Gate) (fresh : exists (snapshot_is n) ss ≡ false) where
    abbrev pub Old : Database → Type 0
    Old db = Table extended (n + 1) db

    abbrev pub Passed : Database → Type 0
    Passed db = Old db × (passes g (latest ss) (new_snapshot n version rows) ≡ true)

    latest-extended : latest extended ≡ latest ss
    unfolding latest select is_published
    latest-extended =
        ap
          (λ (out : List Snapshot).
            head_of (sort_by (descending (λ (s : Snapshot). time_or_zero s.published_at)) out))
          (select-append (λ (s : Snapshot). is_published s.status) ss
              (new_snapshot n version rows ∷ [])
            ∙ append-nil (select (λ (s : Snapshot). is_published s.status) ss))

    find-extended : find (snapshot_is n) extended ≡ some (new_snapshot n version rows)
    find-extended =
        find-append (snapshot_is n) ss (new_snapshot n version rows ∷ [])
        ∙ rw
            (
              find-none (snapshot_is n) ss fresh,
              find-single (snapshot_is n) (new_snapshot n version rows),
              ==_refl n,
            )
            refl

    read_latest-Old :
        (db : Database)
        → Old db
        → LeavesWith (λ (o : Option Snapshot) t. Old t × (o ≡ latest ss)) (read_latest db)
    unfolding read_latest
    read_latest-Old db v = (v, ap latest v.rows ∙ latest-extended)

    read_total-Old :
        (db : Database)
        → Old db
        → LeavesWith
            (λ (s : Snapshot) t. Old t × (s ≡ new_snapshot n version rows))
            (read_total n db)
    unfolding read_total
    read_total-Old db v =
        by_row (find (snapshot_is n) db.snapshots)
          (ap (find (snapshot_is n)) v.rows ∙ find-extended)
      where
        by_row :
            (o : Option Snapshot)
            → o ≡ some (new_snapshot n version rows)
            → LeavesWith
                (λ (s : Snapshot) t. Old t × (s ≡ new_snapshot n version rows))
                (elim o [ none ↦ err db_error | some s ↦ ok (s, db) ])
        by_row none e = tt
        by_row (some s) e = (v, cc)

    gated :
        (previous new : Snapshot) (b : Bool)
        → passes g (some previous) new ≡ b
        → some previous ≡ latest ss
        → Triple
            (λ db. Old db × (new ≡ new_snapshot n version rows))
            (λ u. Passed)
            Old
            (if b then pure tt else raise db_error)
    gated previous new false e q = Triple-raise db_error (λ s h. h.0)
    gated previous new true e q = Triple-pure tt (λ s h. (
      h.0,
      subst (λ (o : Option Snapshot). passes g o (new_snapshot n version rows) ≡ true) q
          (subst (λ (x : Snapshot). passes g (some previous) x ≡ true) h.1 e),
    ))

    first_passes : passes g none (new_snapshot n version rows) ≡ true
    unfolding passes
    first_passes = refl

    after_latest-Passed :
        (o : Option Snapshot)
        → Triple (λ db. Old db × (o ≡ latest ss)) (λ u. Passed) Old (after_latest g n o)
    unfolding after_latest
    after_latest-Passed none = Triple-pure tt (λ s h. (
      h.0,
      subst (λ (o : Option Snapshot). passes g o (new_snapshot n version rows) ≡ true) h.1
          first_passes,
    ))
    after_latest-Passed (some previous) = record {
      at = λ c h.
          (Triple-bind {Q = λ (new : Snapshot) t. Old t × (new ≡ new_snapshot n version rows)} _ _
              (Triple-exec (read_total n) (λ s k. k) read_total-Old)
              (λ new. gated previous new (passes g (some previous) new) refl h.1)).at
            c h.0;
    }

    pub gate-Passed : Triple Old (λ u. Passed) Old (sanity_gate g n)
    unfolding sanity_gate
    gate-Passed =
        Triple-bind {Q = λ (o : Option Snapshot) t. Old t × (o ≡ latest ss)} _ _
          (Triple-exec read_latest (λ s h. h) read_latest-Old) after_latest-Passed
