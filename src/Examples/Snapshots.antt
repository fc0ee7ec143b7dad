-- ===== src/Examples/Snapshots.antt =====
-- The builder: a dump, the rows and targets made of it, and the snapshot that is published.
use vpsa_network_discovery.Prelude.{
  ℕ, ◌+◌, ◌*◌, ◌≤◌, ◌≡◌, refl, Bool, true, false, not, ◌&&◌, Option, none, some, List, [], ◌∷◌,
  Bytes, arith, ◌==◌, if◌then◌else◌, bytes_eq,
}
use vpsa_network_discovery.Database.{is_published}
use vpsa_network_discovery.Sql.{exec}
use vpsa_network_discovery.Sql.Faults.{calm}
use vpsa_network_discovery.Sql.Hoare.{Post}
use vpsa_network_discovery.Sql.Triple.{PostWith}
use vpsa_network_discovery.Sql.Table.{exists, count, select, delete, update, find}
use vpsa_network_discovery.Prelude.{All}
use vpsa_network_discovery.Addresses.{Prefix}
use vpsa_network_discovery.Sorting.Ranks.{Ranked, row_number, number}
use vpsa_network_discovery.Sorting.{sort_by, insert_by}
use vpsa_network_discovery.Routing.Bogon.{is_bogon}
use vpsa_network_discovery.Routing.Table.{TableRecord}
use vpsa_network_discovery.Artifact.{
  Library, Manifest, object_key_sqlite, verify, verify_signature, verify_file, sign, payload,
  hash_file,
}
use vpsa_network_discovery.Artifact.Publisher.{World, put}
use vpsa_network_discovery.WireAuth.{hex}
use vpsa_network_discovery.Artifact.Publisher.Published.{IsSinglePublished}
use vpsa_network_discovery.Artifact.Release.{
  publish, export_sqlite, exported, keys_unique, prefix_keys_unique, prefix_entries, target_entries,
  select_counts, manifest_of, finish, upload, verify_readback, readback_of, record_artifact,
}
use vpsa_network_discovery.Artifact.Release.ReadBack.{IsReadBack, checksum_of, publish-IsReadBack}
use vpsa_network_discovery.Builder.Extraction.{extract}
use vpsa_network_discovery.Builder.Extraction.Counts.{best, visibility}
use vpsa_network_discovery.Builder.Extraction.Visibility.{extract-visibility}
use vpsa_network_discovery.Builder.Loading.{enrich, load}
use vpsa_network_discovery.Builder.Loading.Fresh.{loaded-IsProbeable}
use vpsa_network_discovery.Builder.Targets.{
  Limits, per_country, Candidate, chosen, candidates, deduped,
}
use vpsa_network_discovery.Builder.Targets.Spread.{
  belongs_to, lies_in, target_of, chosen_bounds, chosen-spread,
}
use vpsa_network_discovery.Builder.Targets.Apart.{has_address, held, chosen_apart}
use vpsa_network_discovery.Builder.Targets.Global.{IsProbeable}
use vpsa_network_discovery.Builder.Pipeline.{city_mmdb, Config, Inputs, Distributor, run}
use vpsa_network_discovery.Builder.Pipeline.Outcome.{IsDone}
use vpsa_network_discovery.Builder.Pipeline.Safety.{IsPublication, run-IsPublication}
use vpsa_network_discovery.Examples.Data.{fleet}

abbrev germany : Bytes
germany = b'D' ∷ b'E' ∷ []

abbrev france : Bytes
france = b'F' ∷ b'R' ∷ []

-- 192.3.n.0/24
abbrev block : ℕ → Prefix
block n = record { is6 = false; address = 3_221_422_080 + 256 * n; bits = 24 }

abbrev announcement : ℕ → ℕ → TableRecord
announcement n peers = record {
  prefix = block n;
  origins = 64500 ∷ [];
  peer_counts = (64500, peers) ∷ [];
}

abbrev table : List TableRecord
table = announcement 0 2 ∷ announcement 1 5 ∷ announcement 0 3 ∷ []

abbrev watches : ℕ → Bool
watches o = o == 64500

extract-visibility_example :
    visibility (block 0) 64500 (extract watches (λ o. 1) table)
    ≡ (if watches 64500 && not (is_bogon (block 0)) then best (block 0) 64500 table else none)
extract-visibility_example = extract-visibility watches (λ o. 1) table (block 0) 64500

abbrev limits : Limits
limits = record { max_per_provider = 3; max_per_country = 2 }

abbrev place : Prefix → Option Bytes
place p = if p.address == 3_221_422_080 then some germany else some france

loaded-IsProbeable_example :
    Post
      (λ s.
        All
          (λ (r : Ranked (Ranked Candidate)). IsProbeable r.row.row)
          (chosen limits (candidates 2 s)))
      (λ s. Unit {0})
      (load (9 ∷ []) (enrich (some place) (extract watches (λ o. 1) table)) (calm fleet)).0
      (load (9 ∷ []) (enrich (some place) (extract watches (λ o. 1) table)) (calm fleet)).1
unfolding exists
loaded-IsProbeable_example =
    loaded-IsProbeable watches (λ o. 1) table (some place) (9 ∷ []) limits (calm fleet) refl

abbrev candidate : ℕ → Bytes → Candidate
candidate n country = record {
  provider = 1;
  row = record {
    id = n;
    snapshot = 1;
    prefix = block n;
    origin = 64500;
    country = some country;
    peer_count = 1;
    long_prefix = false;
  };
  address = 3_221_422_081 + 256 * n;
  country = country;
}

abbrev offered : List Candidate
offered = candidate 0 germany ∷ candidate 1 germany ∷ candidate 2 germany ∷ candidate 3 france ∷ []

chosen_bounds_example :
    (count (target_of (belongs_to 1 false)) (chosen limits offered) ≤ 3)
    × (count (target_of (lies_in 1 false germany)) (chosen limits offered) ≤ per_country limits)
chosen_bounds_example = chosen_bounds limits offered 1 false germany

chosen-spread_example : exists (target_of (lies_in 1 false france)) (chosen limits offered) ≡ true
unfolding chosen deduped exists count select row_number sort_by bytes_eq delete number insert_by
    per_country
chosen-spread_example = chosen-spread limits offered 1 false germany france (omega arith) refl

chosen_apart_example : count (held (has_address false 3_221_422_081)) (chosen limits offered) ≤ 1
chosen_apart_example = chosen_apart limits offered false 3_221_422_081

abbrev file : Bytes
file = 1 ∷ []

abbrev stored : Manifest
stored = record {
  version = 9 ∷ [];
  created_at = 5;
  object_key = object_key_sqlite (9 ∷ []);
  sha256 = b'0' ∷ b'7' ∷ [];
  size_bytes = 1;
  prefix_count_v4 = 2;
  prefix_count_v6 = 0;
  target_count = 2;
  min_worker_version = [];
  signature = 1 ∷ [];
}

abbrev library : Library
library = record {
  marshal = λ m. some m.version;
  unmarshal = λ b. some stored;
  marshal_pointer = λ p. p.version;
  base64_encode = λ b. b;
  base64_decode = λ text. some text;
  sha256 = λ b. 7 ∷ [];
  ed25519_sign = λ key message. 1 ∷ [];
  ed25519_verify = λ key message sig. bytes_eq sig (1 ∷ []);
}

abbrev distributor : Distributor
distributor = record {
  lib = library;
  files = record { sqlite = λ a. file };
  signer = record { key = []; public_key = []; min_worker_version = [] };
  answer = λ key. some file;
  retain = 1;
}

abbrev before : World
before = record { db = fleet; store = [] }

publish-IsReadBack_example :
    IsReadBack library distributor.signer distributor.answer stored
    × (stored.sha256 ≡ checksum_of library distributor.files distributor.signer 1 (9 ∷ []) before)
unfolding publish exec export_sqlite exported keys_unique prefix_keys_unique prefix_entries
    target_entries select exists find select_counts manifest_of hash_file hex sign payload upload
    finish put delete verify_readback readback_of verify verify_signature verify_file
    record_artifact update bytes_eq
publish-IsReadBack_example =
    publish-IsReadBack library distributor.files distributor.signer distributor.answer 5 1 (9 ∷ [])
      (calm before) stored refl

abbrev config : Config
config = record {
  limits = limits;
  gate = record { delta = 1; scale = 2; force = false };
  geo = city_mmdb (some place);
  ranges = λ p. [];
  distributor = some distributor;
  text_of = λ is6 a. a ∷ [];
}

abbrev inputs : Inputs
inputs = record { now = 5; listed = some []; dump = some []; version = 9 ∷ [] }

before-IsSinglePublished : IsSinglePublished before
unfolding count is_published
before-IsSinglePublished = record { unique = λ id. ground arith; single = omega arith }

run-IsPublication_example :
    PostWith
      (λ u. IsDone config.gate before)
      (IsPublication config.gate before)
      (run config inputs (calm before)).0
      (run config inputs (calm before)).1
unfolding exists
run-IsPublication_example =
    run-IsPublication config inputs (calm before) before-IsSinglePublished refl
