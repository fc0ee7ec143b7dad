-- ===== src/Builder/Loading/Fresh.antt =====
-- For internal/builder/builder.go, `load`: the rows of the snapshot that is loaded.
use vpsa_network_discovery.Prelude.{
  ℕ, ◌+◌, ◌≡◌, refl, ap, ◌∙◌, Bool, false, Option, none, some, List, [], ◌∷◌, Bytes, ◌==◌, ==_refl,
  arith, All,
}
use vpsa_network_discovery.Database.{Database, PrefixRow}
use vpsa_network_discovery.Sql.{err, db_error}
use vpsa_network_discovery.Sql.{Conn}
use vpsa_network_discovery.Sql.Hoare.{
  Post, Hoare, Hoare-then, LeavesWith, LeavesWith-if, Hoare-transact, Hoare-weaken,
}
use vpsa_network_discovery.Sql.Table.{select, exists, select-append, exists-append}
use vpsa_network_discovery.Addresses.{Prefix}
use vpsa_network_discovery.Sorting.Ranks.{Ranked}
use vpsa_network_discovery.Routing.Table.{TableRecord}
use vpsa_network_discovery.Builder.Extraction.{ExtractedRow, extract}
use vpsa_network_discovery.Builder.Extraction.Soundness.{unsound, extract_sound}
use vpsa_network_discovery.Builder.Loading.{
  PlacedRow, enrich, insert_snapshot, named, prefix_rows, all_known, copy_prefixes, load,
}
use vpsa_network_discovery.Builder.Targets.{Limits, Candidate, chosen, candidates}
use vpsa_network_discovery.Builder.Targets.Global.{faulty, IsProbeable, chosen-IsProbeable}

abbrev of_snapshot : ℕ → PrefixRow → Bool
of_snapshot id p = p.snapshot == id

abbrev unsound_placed : PlacedRow → Bool
unsound_placed r = unsound r.row

enrich_sound :
    (lookup : Option (Prefix → Option Bytes)) (rows : List ExtractedRow)
    → exists unsound rows ≡ false
    → exists unsound_placed (enrich lookup rows) ≡ false
unfolding enrich exists
enrich_sound none [] h = refl
enrich_sound (some f) [] h = refl
enrich_sound none (r ∷ rows) h = ground (arith, h, enrich_sound none rows)
enrich_sound (some f) (r ∷ rows) h = ground (arith, h, enrich_sound (some f) rows)

prefix_rows_sound :
    (id snapshot : ℕ) (rows : List PlacedRow)
    → exists unsound_placed rows ≡ false
    → exists faulty (select (of_snapshot snapshot) (prefix_rows id snapshot rows)) ≡ false
unfolding exists select prefix_rows
prefix_rows_sound id snapshot [] h = refl
prefix_rows_sound id snapshot (r ∷ rows) h =
    ground (arith, h, ==_refl snapshot, prefix_rows_sound (id + 1) snapshot rows)

none_faulty :
    (snapshot : ℕ) (ps : List PrefixRow)
    → exists (of_snapshot snapshot) ps ≡ false
    → exists faulty (select (of_snapshot snapshot) ps) ≡ false
unfolding exists select
none_faulty snapshot [] h = refl
none_faulty snapshot (p ∷ ps) h = ground (arith, h, none_faulty snapshot ps)

abbrev Sound : ℕ → Database → Type 0
Sound snapshot s = exists faulty (select (of_snapshot snapshot) s.prefixes) ≡ false

record Inserted (start : Database) (id : ℕ) (s : Database) : Type 0 where
  given : id ≡ start.snapshot_seq
  prefixes : s.prefixes ≡ start.prefixes

insert_snapshot-Inserted :
    (version : Bytes) (rows : List PlacedRow) (start s : Database)
    → s ≡ start
    → LeavesWith (Inserted start) (insert_snapshot version rows s)
unfolding insert_snapshot
insert_snapshot-Inserted version rows start s e =
    LeavesWith-if (Inserted start) (exists (named version) s.snapshots) (err db_error) _ tt
      (record {
        given = ap (λ (t : Database). t.snapshot_seq) e;
        prefixes = ap (λ (t : Database). t.prefixes) e;
      })

copy_prefixes-Sound :
    (rows : List PlacedRow) (start : Database) (id : ℕ) (s : Database)
    → exists unsound_placed rows ≡ false
    → exists (of_snapshot start.snapshot_seq) start.prefixes ≡ false
    → Inserted start id s
    → LeavesWith (λ (u : Unit {0}) t. Sound start.snapshot_seq t) (copy_prefixes id rows s)
unfolding copy_prefixes
copy_prefixes-Sound rows start id s h fresh v =
    LeavesWith-if (λ (u : Unit {0}) t. Sound start.snapshot_seq t) (all_known s.asns rows) _
      (err db_error)
      (ap (exists faulty) (
          select-append (of_snapshot start.snapshot_seq) s.prefixes
            (prefix_rows s.prefix_seq id rows))
        ∙ exists-append faulty (select (of_snapshot start.snapshot_seq) s.prefixes)
            (select (of_snapshot start.snapshot_seq) (prefix_rows s.prefix_seq id rows))
        ∙ rw (v.given, v.prefixes, none_faulty start.snapshot_seq start.prefixes fresh)
            (prefix_rows_sound s.prefix_seq start.snapshot_seq rows h))
      tt

module _ (version : Bytes) (rows : List PlacedRow) (start : Database)
    (sound : exists unsound_placed rows ≡ false)
    (fresh : exists (of_snapshot start.snapshot_seq) start.prefixes ≡ false) where
  load-Sound : Hoare (λ s. s ≡ start) (Sound start.snapshot_seq) (λ s. Unit {0}) (load version rows)
  unfolding load
  load-Sound =
      Hoare-transact {F = λ (s : Database). Unit {0}} _ (λ s e. tt)
        (Hoare-then (insert_snapshot version rows) (Inserted start) _ (λ s e. tt)
          (λ s e. insert_snapshot-Inserted version rows start s e)
          λ id.
            Hoare-then (copy_prefixes id rows) (λ (u : Unit {0}) t. Sound start.snapshot_seq t) _
              (λ s v. tt) (λ s v. copy_prefixes-Sound rows start id s sound fresh v)
              λ u. record { at = λ c h. h })

-- After a load that succeeds, every address chosen for the snapshot that is built of a dump lies
-- in the prefix that was announced and in global unicast space, outside every bogon, if no prefix
-- has the next id of the sequence of snapshots.
pub loaded-IsProbeable :
    (monitored : ℕ → Bool) (provider_of : ℕ → ℕ) (recs : List TableRecord)
    (lookup : Option (Prefix → Option Bytes)) (version : Bytes) (l : Limits) (c : Conn Database)
    → exists (λ (p : PrefixRow). p.snapshot == c.db.snapshot_seq) c.db.prefixes ≡ false
    → Post
        (λ s.
          All
            (λ (r : Ranked (Ranked Candidate)). IsProbeable r.row.row)
            (chosen l (candidates c.db.snapshot_seq s)))
        (λ s. Unit {0})
        (load version (enrich lookup (extract monitored provider_of recs)) c).0
        (load version (enrich lookup (extract monitored provider_of recs)) c).1
loaded-IsProbeable monitored provider_of recs lookup version l c fresh =
    (Hoare-weaken _ (λ s h. chosen-IsProbeable l c.db.snapshot_seq s h) (λ s u. tt)
        (load-Sound version (enrich lookup (extract monitored provider_of recs)) c.db
          (enrich_sound lookup (extract monitored provider_of recs)
            (extract_sound monitored provider_of recs))
          fresh)).at
      c refl
