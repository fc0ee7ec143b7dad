-- ===== src/Builder/Pipeline/Safety.antt =====
-- For internal/builder/builder.go, `Run`, as a whole.
use vpsa_network_discovery.Prelude.{
  ℕ, Bytes, ◌+◌, ◌≤◌, ◌≡◌, refl, sym, ap, subst, ◌∙◌, ◌⊎◌, inl, inr, Bool, true, false, ◌&&◌, ◌||◌,
  Option, none, some, List, [], ◌∷◌, map, arith, ◌==◌, ==_iff, ==_refl, Bool-cases,
}
use vpsa_network_discovery.Database.{Snapshot, is_published}
use vpsa_network_discovery.Sql.{Result, ok, err, db_error, Conn, M, ◌>>=◌}
use vpsa_network_discovery.Sql.Keeps.{Keeps}
use vpsa_network_discovery.Sql.Triple.{
  Triple, Triple-bind, Triple-Keeps, Triple-weaken, Triple-raise, PostWith,
}
use vpsa_network_discovery.Sql.Table.{exists, count, exists-append, exists-single}
use vpsa_network_discovery.Sql.Counting.{count-append, count_none}
use vpsa_network_discovery.Artifact.Publisher.{World, snapshot_is}
use vpsa_network_discovery.Artifact.Publisher.Published.{is_out, IsSinglePublished}
use vpsa_network_discovery.Addresses.{Prefix}
use vpsa_network_discovery.Builder.Extraction.{ExtractedRow}
use vpsa_network_discovery.Builder.Loading.{PlacedRow, new_snapshot, enrich}
use vpsa_network_discovery.Builder.Pipeline.{
  Gate, Config, Inputs, announced, after_load, open_geo, after_open, after_extract, extracted, run,
}
use vpsa_network_discovery.Builder.Pipeline.Steps.{
  Keeps-on_db, Triple-on_db, Table, sync_providers-Table, load_distribution-Table,
  derive_targets-Table, count_targets-Table,
}
use vpsa_network_discovery.Builder.Pipeline.Publication.{
  extended, Passed, load-Extended, gate-Passed,
}
use vpsa_network_discovery.Builder.Pipeline.Ready.{Same, is_new, IsReady, release-IsReady}
use vpsa_network_discovery.Builder.Pipeline.Outcome.{
  Replaced, IsDone, publish-IsDone, rotate-IsDone,
}

-- Ids are unique and at most one snapshot is published: those of the start, or the one that was
-- built, which the gate lets pass.
pub record IsPublication (g : Gate) (start s : World) : Type 0 where
  pub sane : IsSinglePublished s
  pub outcome : Same g start s ⊎ Replaced g start s

or_true : (b : Bool) → (b || true) ≡ true
or_true true = refl
or_true false = refl

module _ (cfg : Config) (inp : Inputs) (start : World) (sane : IsSinglePublished start)
    (fresh : exists (snapshot_is start.db.snapshot_seq) start.db.snapshots ≡ false) where
  abbrev ss : List Snapshot
  ss = start.db.snapshots

  abbrev n : ℕ
  n = start.db.snapshot_seq

  abbrev P : World → Type 0
  P s = IsPublication cfg.gate start s

  abbrev D : World → Type 0
  D s = IsDone cfg.gate start s

  at_start : (s : World) → Table ss n s.db → P s
  at_start s v = record {
    sane = record { unique = λ id. rw v.rows (sane.unique id); single = rw v.rows sane.single };
    outcome = inl (λ id. rw v.rows refl);
  }

  module _ (rows : List PlacedRow) where
    abbrev new : Snapshot
    new = new_snapshot n inp.version rows

    count_new : (id : ℕ) → count (snapshot_is id) (extended inp.version rows ss n) ≤ 1
    unfolding count
    count_new id = elim (Bool-cases (n == id)) [
      | inl t ↦
          subst (λ (i : ℕ). count (snapshot_is i) (extended inp.version rows ss n) ≤ 1)
            ((==_iff n id).0 t)
            (ground (
              arith,
              count-append (snapshot_is n) ss (new ∷ []),
              count_none (snapshot_is n) ss fresh,
            ))
      | inr f ↦ ground (arith, f, count-append (snapshot_is id) ss (new ∷ []), sane.unique id)
    ]

    out_new : count is_out (extended inp.version rows ss n) ≡ count is_out ss
    unfolding is_published count
    out_new = count-append is_out ss (new ∷ []) ∙ omega arith

    same_new :
        (id : ℕ)
        → exists (λ r. r.id == id && is_out r) (extended inp.version rows ss n)
          ≡ exists (λ r. r.id == id && is_out r) ss
    unfolding is_published
    same_new id =
        exists-append (λ r. r.id == id && is_out r) ss (new ∷ [])
        ∙ ap (λ b. exists (λ r. r.id == id && is_out r) ss || b)
            (exists-single (λ r. r.id == id && is_out r) new)
        ∙ not_out (exists (λ r. r.id == id && is_out r) ss) (n == id)
      where
        not_out : (a b : Bool) → (a || (b && false)) ≡ a
        not_out true b = refl
        not_out false true = refl
        not_out false false = refl

    extended_sane :
        (s : World) → Table (extended inp.version rows ss n) (n + 1) s.db → IsSinglePublished s
    extended_sane s v = record {
      unique = λ id. rw v.rows (count_new id);
      single = rw (v.rows, out_new) sane.single;
    }

    at_load : (s : World) → Table (extended inp.version rows ss n) (n + 1) s.db → P s
    at_load s v = record { sane = extended_sane s v; outcome = inl (λ id. rw v.rows (same_new id)) }

    at_gate :
        (s : World) → Passed inp.version rows ss n cfg.gate fresh s.db → IsReady cfg.gate start s
    at_gate s (v, p) = record {
      sane = extended_sane s v;
      same = λ id. rw v.rows (same_new id);
      built = rw v.rows (
          exists-append (is_new cfg.gate start) ss (new ∷ [])
          ∙ rw (exists-single (is_new cfg.gate start) new, ==_refl n, p)
              (or_true (exists (is_new cfg.gate start) ss)));
    }

  ready_P : (s : World) → IsReady cfg.gate start s → P s
  ready_P s v = record { sane = v.sane; outcome = inl v.same }

  done_P : (s : World) → IsDone cfg.gate start s → P s
  done_P s v = record { sane = v.sane; outcome = inr v.replaced }

  after_load-P :
      (rows : List ExtractedRow) (placed : List PlacedRow)
      → Triple
          (λ s. Table (extended inp.version placed ss n) (n + 1) s.db)
          (λ u. D)
          P
          (after_load cfg inp rows n)
  unfolding after_load
  after_load-P rows placed =
      kept (Keeps-on_db _ (load_distribution-Table _ _ cfg.ranges (map announced rows) n)) λ u.
        kept (Keeps-on_db _ (derive_targets-Table _ _ cfg.text_of cfg.limits n)) λ u'.
          kept (Keeps-on_db _ (count_targets-Table _ _ n)) λ v.
            Triple-bind _ _
              (Triple-weaken _ (λ s h. h) (λ w s h. at_gate placed s h) (at_load placed)
                (Triple-on_db _ (gate-Passed inp.version placed ss n cfg.gate fresh)))
              λ w.
                Triple-bind _ _
                  (Triple-weaken _ (λ s h. h) (λ x s h. h) ready_P
                    (Triple-Keeps _
                      (release-IsReady cfg.gate start cfg.distributor inp.now n inp.version)))
                  λ x.
                    Triple-bind _ _
                      (Triple-weaken _ (λ s h. h) (λ y s h. h) ready_P
                        (publish-IsDone cfg.gate start inp.now))
                      λ y.
                        Triple-weaken _ (λ s h. h) (λ z s h. h) done_P
                          (Triple-Keeps _
                            (rotate-IsDone cfg.gate start cfg.distributor inp.now inp.version))
    where
      kept :
          {A : Type 0} {m : M World A} {f : A → M World (Unit {0})}
          → Keeps (λ s. Table (extended inp.version placed ss n) (n + 1) s.db) m
          → ((a : A)
              → Triple
                  (λ s. Table (extended inp.version placed ss n) (n + 1) s.db)
                  (λ u. D)
                  P
                  (f a))
          → Triple (λ s. Table (extended inp.version placed ss n) (n + 1) s.db) (λ u. D) P (m >>= f)
      kept {A} {m} {f} k l =
          Triple-bind m f
            (Triple-weaken m (λ s h. h) (λ a s h. h) (at_load placed) (Triple-Keeps m k)) l

  after_open-P :
      (rows : List ExtractedRow) (o : Result (Option (Prefix → Option Bytes)))
      → Triple (λ s. Table ss n s.db) (λ u. D) P (after_open cfg inp rows o)
  unfolding after_open
  after_open-P rows (err e) = Triple-raise e at_start
  after_open-P rows (ok lookup) =
      Triple-bind _ _
        (Triple-weaken _ (λ s h. h) (λ id s h. h) at_start
          (Triple-on_db _ (load-Extended inp.version (enrich lookup rows) ss n)))
        λ id. record {
          at = λ c h.
              subst
                (λ (i : ℕ).
                  PostWith (λ (u : Unit {0}). D) P (after_load cfg inp rows i c).0
                    (after_load cfg inp rows i c).1)
                (sym h.0) ((after_load-P rows (enrich lookup rows)).at c h.1);
        }

  after_extract-P :
      (o : Option (List ExtractedRow))
      → Triple (λ s. Table ss n s.db) (λ u. D) P (after_extract cfg inp o)
  unfolding after_extract
  after_extract-P none = Triple-raise db_error at_start
  after_extract-P (some rows) = after_open-P rows (open_geo cfg.geo)

  run-P : Triple (λ s. Table ss n s.db) (λ u. D) P (run cfg inp)
  unfolding run
  run-P =
      Triple-bind _ _
        (Triple-weaken _ (λ s h. h) (λ a s h. h) at_start
          (Triple-Keeps _ (Keeps-on_db _ (sync_providers-Table ss n inp.now inp.listed))))
        λ asns. after_extract-P (extracted asns inp.dump)

-- A run of the builder, whatever fails, whatever VPS Advisor lists, the dump holds and the store
-- answers, leaves ids of snapshots unique and one snapshot published at most: either the published
-- rows are those of the start, or the snapshot that was built is published and the sanity gate
-- lets it pass against the newest of the start. A run that succeeds has published it. At first the
-- same holds of the ids and the published snapshot, and the next id of the sequence is free.
pub run-IsPublication :
    (cfg : Config) (inp : Inputs) (c : Conn World)
    → IsSinglePublished c.db
    → exists (snapshot_is c.db.db.snapshot_seq) c.db.db.snapshots ≡ false
    → PostWith
        (λ u. IsDone cfg.gate c.db)
        (IsPublication cfg.gate c.db)
        (run cfg inp c).0
        (run cfg inp c).1
run-IsPublication cfg inp c sane fresh =
    (run-P cfg inp c.db sane fresh).at c (record { rows = refl; next = refl })
