-- ===== src/Examples/Data.antt =====
-- A small fleet: one operator, two workers, a provider with two targets.
use vpsa_network_discovery.Prelude.{ℕ, true, false, none, some, [], ◌∷◌, Bytes, replicate}
use vpsa_network_discovery.Database.{Database, Worker, active, pending, open_, leased, published}
use vpsa_network_discovery.Sql.{Conn}
use vpsa_network_discovery.Sql.Faults.{calm}

abbrev pub key_text : Bytes
key_text = replicate 32 7

abbrev pub token_text : Bytes
token_text = 9 ∷ 9 ∷ []

abbrev pub identity_hash : Bytes → Bytes
identity_hash b = b

abbrev pub alice : Worker
alice = record {
  id = 1;
  operator = 1;
  name = [];
  state = active;
  state_reason = [];
  software = [];
  source_asn = none;
  approved_at = some 1;
  retired_at = none;
  last_heartbeat = none;
  rotate_requested = false;
}

abbrev pub bob : Worker
bob = record alice { id = 2; state = pending; approved_at = none }

abbrev pub fleet : Database
fleet = record {
  workers = alice ∷ bob ∷ [];
  keys =
      record {
        worker = 1;
        public_key = key_text;
        valid_from = 0;
        valid_until = none;
        revoked_at = none;
      }
      ∷ [];
  tokens = record { token_hash = token_text; worker = 2; expires_at = 1000; used_at = none } ∷ [];
  nonces = [];
  events = [];
  assignments =
      record { id = 1; target = 1; provider = 1; interval = 60; group = 1; status = leased }
      ∷ record { id = 2; target = 2; provider = 1; interval = 60; group = 2; status = open_ }
      ∷ [];
  assignment_seq = 3;
  snapshot_seq = 2;
  prefix_seq = 2;
  target_seq = 3;
  leases = record { assignment = 1; worker = 1; expires_at = 500; released_at = none } ∷ [];
  snapshots =
      record {
        id = 1;
        version = 1 ∷ [];
        status = published;
        prefix_count_v4 = 2;
        prefix_count_v6 = 0;
        artifact_sha256 = none;
        published_at = some 1;
      }
      ∷ [];
  providers =
      record { id = 1; name = []; monitoring_enabled = true; priority = 10; delisted_at = none }
      ∷ [];
  asns = record { asn = 64500; provider = 1 } ∷ [];
  targets =
      record {
        id = 1;
        snapshot = 1;
        provider = 1;
        prefix = 1;
        address = 1 ∷ [];
        country = b'D' ∷ b'E' ∷ [];
        active = true;
      }
      ∷ record {
        id = 2;
        snapshot = 1;
        provider = 1;
        prefix = 1;
        address = 2 ∷ [];
        country = b'D' ∷ b'E' ∷ [];
        active = true;
      }
      ∷ [];
  prefixes =
      record {
        id = 1;
        snapshot = 1;
        prefix = record { is6 = false; address = 3_221_225_472; bits = 24 };
        origin = 64500;
        country = some (b'D' ∷ b'E' ∷ []);
        peer_count = 2;
        long_prefix = false;
      }
      ∷ [];
  provider_geo = [];
  measurements = [];
  batches = [];
}

-- A connection that fails at the third statement.
abbrev pub shaky : Conn Database
shaky = record { db = fleet; faults = false ∷ false ∷ true ∷ [] }

abbrev pub steady : Conn Database
steady = calm fleet

abbrev pub byte : ℕ → Bytes
byte n = n ∷ []
