-- ===== src/Builder/Targets.antt =====
-- For internal/builder/builder.go, `deriveTargets`: the addresses of a snapshot that are probed. The
-- text of an address, as PostgreSQL prints it, is the argument `text_of`.
pub mod Spread
pub mod Apart
pub mod Global
use vpsa_network_discovery.Prelude.{
  ℕ, ◌+◌, ◌-◌, ◌≡◌, Bool, true, false, not, ◌&&◌, ◌||◌, Option, none, some, List, [], ◌∷◌, ◌++◌,
  map, Bytes, bytes_eq, is_empty, length, ltb, leb, ◌==◌, if◌then◌else◌,
}
use vpsa_network_discovery.Database.{Database, PrefixRow, ProbeTarget, Asn}
use vpsa_network_discovery.Sql.{Result, ok, err, db_error}
use vpsa_network_discovery.Sql.Table.{select, delete, exists, find}
use vpsa_network_discovery.Addresses.{Prefix, family_number, masked, same_family}
use vpsa_network_discovery.Sorting.{sort_by, ascending, descending, then_by}
use vpsa_network_discovery.Sorting.Ranks.{Ranked, row_number}

pub record Limits : Type 0 where
  pub max_per_provider : ℕ
  pub max_per_country : ℕ

-- perCountry
unfoldable pub per_country : Limits → ℕ
per_country l = if l.max_per_country == 0 then l.max_per_provider else l.max_per_country

-- A row of `candidates`.
pub record Candidate : Type 0 where
  pub provider : ℕ
  pub row : PrefixRow
  pub address : ℕ
  pub country : Bytes

abbrev pub is6_of : Candidate → Bool
is6_of c = c.row.prefix.is6

-- coalesce(nullif(country, ''), 'ZZ')
unfoldable pub country_or_unknown : Option Bytes → Bytes
country_or_unknown none = b'Z' ∷ b'Z' ∷ []
country_or_unknown (some c) = if is_empty c then b'Z' ∷ b'Z' ∷ [] else c

-- host(network(prefix))::inet + 1
unfoldable pub first_usable : Prefix → ℕ
unfolding masked
first_usable p = (masked p).address + 1

abbrev pub candidate_of : Asn → PrefixRow → Candidate
candidate_of a p = record {
  provider = a.provider;
  row = p;
  address = first_usable p.prefix;
  country = country_or_unknown p.country;
}

-- The join with routing.asn by its primary key.
unfoldable pub joined : List Asn → List PrefixRow → List Candidate
joined asns [] = []
joined asns (p ∷ ps) = elim (find (λ (a : Asn). a.asn == p.origin) asns) [
  | none ↦ joined asns ps
  | some a ↦ candidate_of a p ∷ joined asns ps
]

unfoldable pub candidates : ℕ → Database → List Candidate
unfolding joined
candidates snapshot db =
    joined db.asns
      (select (λ (p : PrefixRow). p.snapshot == snapshot && not p.long_prefix) db.prefixes)

abbrev pub same_address : Candidate → Candidate → Bool
same_address a b = same_family (is6_of a) (is6_of b) && a.address == b.address

-- distinct on (address), of rows in order
unfoldable pub distinct : List Candidate → List Candidate
distinct [] = []
distinct (c ∷ cs) = c ∷ delete (same_address c) (distinct cs)

abbrev pub by_size : Candidate → Candidate → Bool
by_size = then_by (ascending (λ c. c.row.prefix.bits)) (descending (λ c. c.row.peer_count))

abbrev pub by_address : Candidate → Candidate → Bool
by_address =
    then_by (ascending (λ c. family_number (is6_of c)))
      (then_by (ascending (λ c. c.address)) (then_by by_size (ascending (λ c. c.row.id))))

unfoldable pub deduped : List Candidate → List Candidate
unfolding distinct
deduped cs = distinct (sort_by by_address cs)

abbrev pub same_provider : Candidate → Candidate → Bool
same_provider a b = a.provider == b.provider && same_family (is6_of a) (is6_of b)

abbrev pub same_country : Candidate → Candidate → Bool
same_country a b = same_provider a b && bytes_eq a.country b.country

-- Within a partition the families and, where this is asked, the lengths agree.
abbrev pub by_preference : Candidate → Candidate → Bool
by_preference = then_by by_size (ascending (λ c. c.row.prefix.address))

-- per_country
unfoldable pub in_country : List Candidate → List (Ranked Candidate)
in_country cs = row_number same_country by_preference cs

abbrev pub same_provider_ranked : Ranked Candidate → Ranked Candidate → Bool
same_provider_ranked a b = same_provider a.row b.row

abbrev pub by_rank : Ranked Candidate → Ranked Candidate → Bool
by_rank = then_by (ascending (λ r. r.rank)) (λ a b. by_preference a.row b.row)

-- ranked
unfoldable pub in_provider : ℕ → List (Ranked Candidate) → List (Ranked (Ranked Candidate))
in_provider limit rs =
    row_number same_provider_ranked by_rank (select (λ (r : Ranked Candidate). leb r.rank limit) rs)

-- The rows that are inserted.
unfoldable pub chosen : Limits → List Candidate → List (Ranked (Ranked Candidate))
unfolding per_country deduped in_country in_provider
chosen l cs =
    select (λ (r : Ranked (Ranked Candidate)). leb r.rank l.max_per_provider)
      (in_provider (per_country l) (in_country (deduped cs)))

abbrev pub target_row : (Bool → ℕ → Bytes) → ℕ → ℕ → Candidate → ProbeTarget
target_row text_of id snapshot c = record {
  id = id;
  snapshot = snapshot;
  provider = c.provider;
  prefix = c.row.id;
  address = text_of (is6_of c) c.address;
  country = c.country;
  active = true;
}

unfoldable pub target_rows :
    (Bool → ℕ → Bytes) → ℕ → ℕ → List (Ranked (Ranked Candidate)) → List ProbeTarget
target_rows text_of id snapshot [] = []
target_rows text_of id snapshot (r ∷ rs) =
    target_row text_of id snapshot r.row.row ∷ target_rows text_of (id + 1) snapshot rs

-- deriveTargets, for a snapshot that has no targets yet; the number of rows.
unfoldable pub derive_targets : (Bool → ℕ → Bytes) → Limits → ℕ → Database → Result (ℕ × Database)
unfolding candidates chosen target_rows
derive_targets text_of l snapshot db =
    let rows = chosen l (candidates snapshot db) in
    ok (
      length rows,
      record db {
        targets = db.targets ++ target_rows text_of db.target_seq snapshot rows;
        target_seq = db.target_seq + length rows;
      },
    )
