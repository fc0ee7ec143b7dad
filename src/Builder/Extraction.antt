-- ===== src/Builder/Extraction.antt =====
-- For internal/builder/builder.go, `extract`: the rows of the monitored prefixes.
pub mod Counts
pub mod Visibility
pub mod Soundness
use vpsa_network_discovery.Prelude.{
  ℕ, ◌+◌, ◌≤◌, ◌≡◌, refl, Bool, true, false, not, ◌&&◌, ◌||◌, Option, none, some, List, [], ◌∷◌,
  ◌++◌, ltb, ◌==◌, arith, if◌then◌else◌,
}
use vpsa_network_discovery.Sql.Table.{select, update, exists, find}
use vpsa_network_discovery.Addresses.{Prefix, family_number, same_prefix}
use vpsa_network_discovery.Sorting.{sort_by, ascending, then_by}
use vpsa_network_discovery.Routing.Bogon.{is_bogon, too_long}
use vpsa_network_discovery.Routing.Table.{TableRecord, peers_of}

-- prefixRow, before its place is looked up. `other_origins` is empty unless the prefix is MOAS.
pub record ExtractedRow : Type 0 where
  pub prefix : Prefix
  pub origin : ℕ
  pub provider : ℕ
  pub peer_count : ℕ
  pub other_origins : List ℕ
  pub long_prefix : Bool

-- The key "prefix|origin".
unfoldable pub is_key : Prefix → ℕ → ExtractedRow → Bool
is_key p o r = r.origin == o && same_prefix r.prefix p

unfoldable pub is_several : List ℕ → Bool
is_several [] = false
is_several (o ∷ []) = false
is_several (o ∷ o' ∷ os) = true

unfoldable pub new_row : (ℕ → ℕ) → TableRecord → ℕ → ExtractedRow
unfolding is_several
new_row provider_of rec o = record {
  prefix = rec.prefix;
  origin = o;
  provider = provider_of o;
  peer_count = peers_of rec.peer_counts o;
  other_origins = if is_several rec.origins then select (λ x. not (x == o)) rec.origins else [];
  long_prefix = too_long rec.prefix;
}

-- Keep the higher visibility count.
unfoldable pub raise_peers : ℕ → ExtractedRow → ExtractedRow
raise_peers n r = if ltb r.peer_count n then record r { peer_count = n } else r

-- One origin of a record.
unfoldable pub add_origin : (ℕ → ℕ) → TableRecord → ℕ → List ExtractedRow → List ExtractedRow
unfolding is_key new_row raise_peers
add_origin provider_of rec o seen =
    if exists (is_key rec.prefix o) seen
    then update (is_key rec.prefix o) (raise_peers (peers_of rec.peer_counts o)) seen
    else seen ++ new_row provider_of rec o ∷ []

unfoldable pub add_origins :
    (ℕ → Bool) → (ℕ → ℕ) → TableRecord → List ℕ → List ExtractedRow → List ExtractedRow
unfolding add_origin
add_origins monitored provider_of rec [] seen = seen
add_origins monitored provider_of rec (o ∷ os) seen =
    add_origins monitored provider_of rec os
      (if monitored o then add_origin provider_of rec o seen else seen)

-- The callback of Stream.
unfoldable pub add_record :
    (ℕ → Bool) → (ℕ → ℕ) → TableRecord → List ExtractedRow → List ExtractedRow
unfolding add_origins
add_record monitored provider_of rec seen =
    if is_bogon rec.prefix then seen else add_origins monitored provider_of rec rec.origins seen

unfoldable pub add_records :
    (ℕ → Bool) → (ℕ → ℕ) → List TableRecord → List ExtractedRow → List ExtractedRow
unfolding add_record
add_records monitored provider_of [] seen = seen
add_records monitored provider_of (rec ∷ recs) seen =
    add_records monitored provider_of recs (add_record monitored provider_of rec seen)

-- The comparison of sort.Slice.
abbrev pub by_prefix : ExtractedRow → ExtractedRow → Bool
by_prefix =
    then_by (ascending (λ r. family_number r.prefix.is6))
      (then_by (ascending (λ r. r.prefix.address)) (ascending (λ r. r.prefix.bits)))

-- extract, of the records that the dump yields. Rows of one prefix, whose order Go leaves open,
-- stay in the order of the dump.
unfoldable pub extract : (ℕ → Bool) → (ℕ → ℕ) → List TableRecord → List ExtractedRow
unfolding add_records
extract monitored provider_of recs = sort_by by_prefix (add_records monitored provider_of recs [])
