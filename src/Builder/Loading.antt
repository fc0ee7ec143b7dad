-- ===== src/Builder/Loading.antt =====
-- For internal/builder/builder.go: the rows enriched by the GeoIP database, and loaded with their
-- snapshot. The version's text, of the dump's time and the clock, is an argument.
pub mod Fresh
use vpsa_network_discovery.Prelude.{
  ℕ, ◌+◌, ◌≡◌, refl, Bool, true, false, not, ◌&&◌, ◌||◌, Option, none, some, List, [], ◌∷◌, ◌++◌,
  map, Bytes, bytes_eq, length, ◌==◌, if◌then◌else◌,
}
use vpsa_network_discovery.Database.{Database, Snapshot, building, PrefixRow, Asn}
use vpsa_network_discovery.Sql.{
  Result, ok, err, db_error, M, Conn, exec, transact, pure, ◌>>=◌, ◌>>◌,
}
use vpsa_network_discovery.Sql.Table.{exists, count}
use vpsa_network_discovery.Addresses.{Prefix}
use vpsa_network_discovery.Builder.Extraction.{ExtractedRow}

-- A row with its country, `none` where the GeoIP database does not resolve it.
pub record PlacedRow : Type 0 where
  pub row : ExtractedRow
  pub country : Option Bytes

-- enrich, by Lookup; without a GeoIP database nothing is resolved.
unfoldable pub enrich : Option (Prefix → Option Bytes) → List ExtractedRow → List PlacedRow
enrich none rows = map (λ r. record { row = r; country = none }) rows
enrich (some lookup) rows = map (λ r. record { row = r; country = lookup r.prefix }) rows

abbrev pub named : Bytes → Snapshot → Bool
named v s = bytes_eq s.version v

abbrev pub is_v6 : PlacedRow → Bool
is_v6 r = r.row.prefix.is6

-- The row of the snapshot that is being built.
abbrev pub new_snapshot : ℕ → Bytes → List PlacedRow → Snapshot
new_snapshot id version rows = record {
  id = id;
  version = version;
  status = building;
  prefix_count_v4 = count (λ r. not (is_v6 r)) rows;
  prefix_count_v6 = count is_v6 rows;
  artifact_sha256 = none;
  published_at = none;
}

-- insert into routing.snapshot … returning id; the version is unique.
unfoldable pub insert_snapshot : Bytes → List PlacedRow → Database → Result (ℕ × Database)
insert_snapshot version rows db =
    if exists (named version) db.snapshots
    then err db_error
    else ok (
      db.snapshot_seq,
      record db {
        snapshots = db.snapshots ++ new_snapshot db.snapshot_seq version rows ∷ [];
        snapshot_seq = db.snapshot_seq + 1;
      },
    )

abbrev pub prefix_row : ℕ → ℕ → PlacedRow → PrefixRow
prefix_row id snapshot r = record {
  id = id;
  snapshot = snapshot;
  prefix = r.row.prefix;
  origin = r.row.origin;
  country = r.country;
  peer_count = r.row.peer_count;
  long_prefix = r.row.long_prefix;
}

unfoldable pub prefix_rows : ℕ → ℕ → List PlacedRow → List PrefixRow
prefix_rows id snapshot [] = []
prefix_rows id snapshot (r ∷ rs) = prefix_row id snapshot r ∷ prefix_rows (id + 1) snapshot rs

-- The foreign key of origin_asn.
unfoldable pub all_known : List Asn → List PlacedRow → Bool
all_known asns [] = true
all_known asns (r ∷ rs) = exists (λ (a : Asn). a.asn == r.row.origin) asns && all_known asns rs

-- CopyFrom; the keys of the rows are unique.
unfoldable pub copy_prefixes : ℕ → List PlacedRow → Database → Result (Unit {0} × Database)
unfolding prefix_rows all_known
copy_prefixes snapshot rows db =
    if all_known db.asns rows
    then ok (
      tt,
      record db {
        prefixes = db.prefixes ++ prefix_rows db.prefix_seq snapshot rows;
        prefix_seq = db.prefix_seq + length rows;
      },
    )
    else err db_error

-- load
unfoldable pub load : Bytes → List PlacedRow → M Database ℕ
unfolding insert_snapshot copy_prefixes
load version rows =
    transact (do id ← exec (insert_snapshot version rows); exec (copy_prefixes id rows); pure id)
