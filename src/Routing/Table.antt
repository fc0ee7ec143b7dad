-- ===== src/Routing/Table.antt =====
-- internal/routing/mrtreader/reader.go: the records of a dump. The split of the file into messages
-- and their decoding, which the gobgp library does, are the argument: a list of messages.
use vpsa_network_discovery.Prelude.{
  ℕ, ◌+◌, Bool, false, ◌||◌, Option, none, some, List, [], ◌∷◌, ◌++◌, if◌then◌else◌, ◌==◌,
}
use vpsa_network_discovery.Addresses.{Prefix, masked}
use vpsa_network_discovery.Sorting.{sort_by, ascending}

-- A segment of AS_PATH, with numbers of four or of two bytes; whether it is a set.
pub data Segment : Type 0 where
  as4 : Bool → List ℕ → Segment
  as2 : Bool → List ℕ → Segment
  other_segment : Segment

pub data Attribute : Type 0 where
  as_path : List Segment → Attribute
  other_attribute : Attribute

-- seg.AS[len(seg.AS)-1:]
unfoldable pub last_of : List ℕ → List ℕ
last_of [] = []
last_of (a ∷ []) = a ∷ []
last_of (a ∷ b ∷ as') = last_of (b ∷ as')

unfoldable pub segment_origins : Segment → List ℕ
unfolding last_of
segment_origins (as4 is_set numbers) = if is_set then numbers else last_of numbers
segment_origins (as2 is_set numbers) = if is_set then numbers else last_of numbers
segment_origins other_segment = []

unfoldable pub path_origins : List Segment → List ℕ
unfolding segment_origins
path_origins [] = []
path_origins (s ∷ []) = segment_origins s
path_origins (s ∷ t ∷ ss) = path_origins (t ∷ ss)

-- originsOf
unfoldable pub origins_of : List Attribute → List ℕ
unfolding path_origins
origins_of [] = []
origins_of (other_attribute ∷ attrs) = origins_of attrs
origins_of (as_path segments ∷ attrs) = path_origins segments

-- slices.Contains
unfoldable pub contains : List ℕ → ℕ → Bool
contains [] x = false
contains (y ∷ ys) x = y == x || contains ys x

-- Record; the counts of PeerCounts by the origin.
pub record TableRecord : Type 0 where
  pub prefix : Prefix
  pub origins : List ℕ
  pub peer_counts : List (ℕ × ℕ)

-- PeerCounts[origin]
unfoldable pub peers_of : List (ℕ × ℕ) → ℕ → ℕ
peers_of [] origin = 0
peers_of (e ∷ es) origin = if e.0 == origin then e.1 else peers_of es origin

-- PeerCounts[origin]++
unfoldable pub bump : ℕ → List (ℕ × ℕ) → List (ℕ × ℕ)
bump origin [] = (origin, 1) ∷ []
bump origin (e ∷ es) = if e.0 == origin then (e.0, e.1 + 1) ∷ es else e ∷ bump origin es

-- What the loop over the entries has found.
pub record Found : Type 0 where
  pub origins : List ℕ
  pub peer_counts : List (ℕ × ℕ)
  pub matched : Bool

unfoldable pub count_origin : (ℕ → Bool) → ℕ → Found → Found
unfolding contains bump
count_origin monitored origin f = record {
  origins = if contains f.origins origin then f.origins else f.origins ++ origin ∷ [];
  peer_counts = bump origin f.peer_counts;
  matched = f.matched || monitored origin;
}

unfoldable pub count_origins : (ℕ → Bool) → List ℕ → Found → Found
unfolding count_origin
count_origins monitored [] f = f
count_origins monitored (o ∷ os) f = count_origins monitored os (count_origin monitored o f)

unfoldable pub count_entries : (ℕ → Bool) → List (List Attribute) → Found → Found
unfolding count_origins origins_of
count_entries monitored [] f = f
count_entries monitored (e ∷ es) f =
    count_entries monitored es (count_origins monitored (origins_of e) f)

-- What the body of a message decodes to; of a RIB, the prefix where it parses.
pub data Body : Type 0 where
  other_type other_subtype undecodable not_rib : Body
  rib : List (List Attribute) → Option Prefix → Body

-- A message of the dump: its timestamp and its body, unless the header does not decode.
pub data Message : Type 0 where
  bad_header : Message
  message : ℕ → Body → Message

-- Stats
pub record Stats : Type 0 where
  pub records : ℕ
  pub matched_records : ℕ
  pub skipped : ℕ
  pub first_timestamp : ℕ

unfoldable pub skip : Stats → Stats
skip s = record s { skipped = s.skipped + 1 }

unfoldable pub stamp : ℕ → Stats → Stats
stamp t s = if s.first_timestamp == 0 then record s { first_timestamp = t } else s

abbrev pub nothing_found : Found
nothing_found = record { origins = []; peer_counts = []; matched = false }

unfoldable pub emitted : Stats → Found → Option Prefix → Stats × Option TableRecord
unfolding skip masked
emitted s f none =
    if f.matched
    then (skip (record s { matched_records = s.matched_records + 1 }), none)
    else (s, none)
emitted s f (some p) =
    if f.matched
    then (
      record s { matched_records = s.matched_records + 1 },
      some (record {
        prefix = masked p;
        origins = sort_by (ascending (λ o. o)) f.origins;
        peer_counts = f.peer_counts;
      }),
    )
    else (s, none)

unfoldable pub read_body : (ℕ → Bool) → Stats → Body → Stats × Option TableRecord
unfolding skip count_entries emitted
read_body monitored s other_type = (skip s, none)
read_body monitored s other_subtype = (s, none)
read_body monitored s undecodable = (skip s, none)
read_body monitored s not_rib = (skip s, none)
read_body monitored s (rib entries prefix) =
    emitted (record s { records = s.records + 1 }) (count_entries monitored entries nothing_found)
      prefix

unfoldable pub read_message : (ℕ → Bool) → Stats → Message → Stats × Option TableRecord
unfolding skip stamp read_body
read_message monitored s bad_header = (skip s, none)
read_message monitored s (message t b) = read_body monitored (stamp t s) b

abbrev pub emit : Option TableRecord → List TableRecord → List TableRecord
emit none rs = rs
emit (some r) rs = r ∷ rs

-- Stream: the statistics, and the records in the order in which they are emitted.
unfoldable pub stream : (ℕ → Bool) → Stats → List Message → Stats × List TableRecord
unfolding read_message
stream monitored s [] = (s, [])
stream monitored s (m ∷ ms) =
    let (s', r) = read_message monitored s m in
    let (s'', rs) = stream monitored s' ms in (s'', emit r rs)
