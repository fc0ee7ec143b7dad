-- ===== src/Builder/Pipeline.antt =====
-- For internal/builder/builder.go, `sanityGate`, `publish` and `Run`: the pipeline from the dump to
-- the published snapshot. The ratios of floating-point numbers that the gate compares are fractions.
pub mod Steps
pub mod Publication
pub mod Ready
pub mod Outcome
pub mod Safety
use vpsa_network_discovery.Prelude.{
  ℕ, ◌+◌, ◌-◌, ◌*◌, ◌≡◌, Bool, true, false, not, ◌&&◌, ◌||◌, Option, none, some, List, [], ◌∷◌, map,
  Bytes, ltb, ◌==◌, if◌then◌else◌,
}
use vpsa_network_discovery.Database.{Database, Snapshot, is_published, Asn}
use vpsa_network_discovery.Sql.{
  Result, ok, err, db_error, Error, M, Conn, exec, transact, pure, raise, ◌>>=◌, ◌>>◌,
}
use vpsa_network_discovery.Sql.Table.{select, exists, find}
use vpsa_network_discovery.Addresses.{Prefix}
use vpsa_network_discovery.Sorting.{sort_by, descending}
use vpsa_network_discovery.Routing.Table.{Message, Stats, TableRecord, stream}
use vpsa_network_discovery.Advisor.{Listed, sync_providers, is_asn}
use vpsa_network_discovery.Artifact.{Library}
use vpsa_network_discovery.Artifact.Publisher.{
  World, supersede, promote, snapshot_is, set_current, prune,
}
use vpsa_network_discovery.Artifact.Release.{Files, Signer}
use vpsa_network_discovery.Artifact.Release
use vpsa_network_discovery.Distribution.{Range}
use vpsa_network_discovery.Distribution.Countries.{Announcement, load_distribution, count_targets}
use vpsa_network_discovery.Builder.Extraction.{ExtractedRow, extract}
use vpsa_network_discovery.Builder.Loading.{enrich, load}
use vpsa_network_discovery.Builder.Targets.{Limits, derive_targets}

-- An action on the database alone.
unfoldable pub on_db : {A : Type 0} → M Database A → M World A
on_db m c =
    let (r, c') = m (record { db = c.db.db; faults = c.faults }) in
    (r, record { db = record (c.db) { db = c'.db }; faults = c'.faults })

-- SanityMaxDelta, as the fraction delta / scale, and SanityForce.
pub record Gate : Type 0 where
  pub delta : ℕ
  pub scale : ℕ
  pub force : Bool

abbrev pub total : Snapshot → ℕ
total s = s.prefix_count_v4 + s.prefix_count_v6

abbrev pub time_or_zero : Option ℕ → ℕ
time_or_zero none = 0
time_or_zero (some t) = t

abbrev pub head_of : List Snapshot → Option Snapshot
head_of [] = none
head_of (s ∷ ss) = some s

-- The newest published snapshot; each has a time of publication.
unfoldable pub latest : List Snapshot → Option Snapshot
latest ss = head_of (
    sort_by (descending (λ (s : Snapshot). time_or_zero s.published_at))
      (select (λ s. is_published s.status) ss))

-- delta > SanityMaxDelta
unfoldable pub swings : Gate → ℕ → ℕ → Bool
swings g previous new = ltb (g.delta * previous) (((new - previous) + (previous - new)) * g.scale)

-- The gate lets the snapshot pass.
unfoldable pub passes : Gate → Option Snapshot → Snapshot → Bool
unfolding swings
passes g none new = true
passes g (some previous) new =
    total previous == 0 || (g.force || not (swings g (total previous) (total new)))

unfoldable pub read_total : ℕ → Database → Result (Snapshot × Database)
read_total id db = elim (find (snapshot_is id) db.snapshots) [
  | none ↦ err db_error
  | some s ↦ ok (s, db)
]

unfoldable pub after_latest : Gate → ℕ → Option Snapshot → M Database (Unit {0})
unfolding read_total passes
after_latest g id none = pure tt
after_latest g id (some previous) =
    exec (read_total id)
    >>= (λ new. if passes g (some previous) new then pure tt else raise db_error)

unfoldable pub read_latest : Database → Result (Option Snapshot × Database)
unfolding latest
read_latest db = ok (latest db.snapshots, db)

-- sanityGate; ErrSanityGate is an error as the others are.
unfoldable pub sanity_gate : Gate → ℕ → M Database (Unit {0})
unfolding read_latest after_latest
sanity_gate g id = exec read_latest >>= after_latest g id

-- publish
unfoldable pub publish : ℕ → ℕ → M World (Unit {0})
unfolding supersede promote
publish now id = transact (do exec (supersede id); exec (promote now id))

-- The publisher, where an artifact store is configured.
pub record Distributor : Type 0 where
  pub lib : Library
  pub files : Files
  pub signer : Signer
  -- What the store answers to a read.
  pub answer : Bytes → Option Bytes
  pub retain : ℕ

-- The GeoIP database: none is configured, or the caller gives a GeoSource, or there is the file
-- CityMMDB (none: geo.Open fails). Each source is its Lookup.
pub data GeoSource : Type 0 where
  no_source : GeoSource
  given : (Prefix → Option Bytes) → GeoSource
  city_mmdb : Option (Prefix → Option Bytes) → GeoSource

pub record Config : Type 0 where
  pub limits : Limits
  pub gate : Gate
  pub geo : GeoSource
  -- Ranges of the source that is used; empty without one.
  pub ranges : Prefix → List Range
  pub distributor : Option Distributor
  -- The text of an address as PostgreSQL prints it.
  pub text_of : Bool → ℕ → Bytes

-- What a run reads: the list of VPS Advisor, the messages of the dump, the clock and the version.
pub record Inputs : Type 0 where
  pub now : ℕ
  pub listed : Option (List Listed)
  pub dump : Option (List Message)
  pub version : Bytes

unfoldable pub is_monitored : List Asn → ℕ → Bool
is_monitored asns o = exists (is_asn o) asns

-- asnToProvider
unfoldable pub provider_for : List Asn → ℕ → ℕ
provider_for asns o = elim (find (is_asn o) asns) [ none ↦ 0 | some a ↦ a.provider ]

abbrev pub no_stats : Stats
no_stats = record { records = 0; matched_records = 0; skipped = 0; first_timestamp = 0 }

unfoldable pub extracted : List Asn → Option (List Message) → Option (List ExtractedRow)
unfolding is_monitored provider_for stream extract
extracted asns none = none
extracted asns (some messages) = some (
    extract (is_monitored asns) (provider_for asns)
      (stream (is_monitored asns) no_stats messages).1)

abbrev pub announced : ExtractedRow → Announcement
announced r = record { provider = r.provider; prefix = r.prefix }

unfoldable pub release : Option Distributor → ℕ → ℕ → Bytes → M World (Unit {0})
release none now id version = pure tt
release (some d) now id version =
    Release.publish d.lib d.files d.signer d.answer now id version >>= (λ m. pure tt)

unfoldable pub rotate : Option Distributor → ℕ → Bytes → M World (Unit {0})
unfolding set_current
rotate none now version = pure tt
rotate (some d) now version = set_current d.lib now version >>= (λ u. prune d.retain)

-- Run, from the snapshot that is loaded.
unfoldable pub after_load : Config → Inputs → List ExtractedRow → ℕ → M World (Unit {0})
unfolding on_db sanity_gate publish release rotate
after_load cfg inp rows id = do
  on_db (load_distribution cfg.ranges (map announced rows) id)
  on_db (exec (derive_targets cfg.text_of cfg.limits id))
  on_db (exec (count_targets id))
  on_db (sanity_gate cfg.gate id)
  release cfg.distributor inp.now id inp.version
  publish inp.now id
  rotate cfg.distributor inp.now inp.version

-- src: the Lookup of the source, or none
unfoldable pub open_geo : GeoSource → Result (Option (Prefix → Option Bytes))
open_geo no_source = ok none
open_geo (given lookup) = ok (some lookup)
open_geo (city_mmdb none) = err db_error
open_geo (city_mmdb (some lookup)) = ok (some lookup)

unfoldable pub after_open :
    Config
    → Inputs
    → List ExtractedRow
    → Result (Option (Prefix → Option Bytes))
    → M World (Unit {0})
unfolding on_db load enrich after_load
after_open cfg inp rows (err e) = raise e
after_open cfg inp rows (ok lookup) =
    on_db (load inp.version (enrich lookup rows)) >>= after_load cfg inp rows

unfoldable pub after_extract : Config → Inputs → Option (List ExtractedRow) → M World (Unit {0})
unfolding open_geo after_open
after_extract cfg inp none = raise db_error
after_extract cfg inp (some rows) = after_open cfg inp rows (open_geo cfg.geo)

-- Run
unfoldable pub run : Config → Inputs → M World (Unit {0})
unfolding on_db sync_providers extracted after_extract
run cfg inp =
    on_db (sync_providers inp.now inp.listed)
    >>= (λ asns. after_extract cfg inp (extracted asns inp.dump))
