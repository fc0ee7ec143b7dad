-- ===== src/Builder/Targets/Spread.antt =====
-- For internal/builder/builder.go, `deriveTargets`: how the targets spread over the countries.
use vpsa_network_discovery.Prelude.{
  ℕ, ◌≤◌, ◌≡◌, refl, sym, ap, ◌∙◌, Bool, true, not, ◌&&◌, List, [], ◌∷◌, Bytes, bytes_eq,
  bytes_eq-eq, bytes_eq_comm, leb, ◌==◌, arith,
}
use vpsa_network_discovery.Sql.Table.{select, exists, count, exists_mono}
use vpsa_network_discovery.Sql.Counting.{
  count-select, count-select-le, exists-select_eq, count-split, exists_of-count,
}
use vpsa_network_discovery.Addresses.{same_family}
use vpsa_network_discovery.Sorting.{
  IsWeakOrder, IsWeakOrder-on, ascending-IsWeakOrder, descending-IsWeakOrder, then_by-IsWeakOrder,
}
use vpsa_network_discovery.Sorting.Ranks.{
  Ranked, Class, within, row_number, row_number_bound, count-row_number, row_number_first,
  row_number_before, exists-row_number,
}
use vpsa_network_discovery.Builder.Targets.{
  Limits, per_country, Candidate, is6_of, deduped, same_provider, same_country, by_preference,
  in_country, same_provider_ranked, by_rank, chosen,
}

-- A candidate of a provider and an address family, and of a country among those.
abbrev pub belongs_to : ℕ → Bool → Candidate → Bool
belongs_to provider is6 c = c.provider == provider && same_family (is6_of c) is6

abbrev pub lies_in : ℕ → Bool → Bytes → Candidate → Bool
lies_in provider is6 code c = belongs_to provider is6 c && bytes_eq c.country code

abbrev pub target_of : (Candidate → Bool) → Ranked (Ranked Candidate) → Bool
target_of q r = q r.row.row

belongs_to-Class : (provider : ℕ) (is6 : Bool) → Class same_provider (belongs_to provider is6)
belongs_to-Class provider is6 x y h = ground (arith, h)

bytes_eq-shift : (a b c : Bytes) → bytes_eq a b ≡ true → bytes_eq a c ≡ bytes_eq c b
bytes_eq-shift a b c h = ap (λ (x : Bytes). bytes_eq x c) (bytes_eq-eq a b h) ∙ bytes_eq_comm b c

lies_in-Class :
    (provider : ℕ) (is6 : Bool) (code : Bytes) → Class same_country (lies_in provider is6 code)
lies_in-Class provider is6 code x y h = ground (arith, h, bytes_eq-shift x.country code y.country)

by_preference-IsWeakOrder : IsWeakOrder by_preference
by_preference-IsWeakOrder =
    then_by-IsWeakOrder _ _
      (then_by-IsWeakOrder _ _ (ascending-IsWeakOrder (λ c. c.row.prefix.bits))
        (descending-IsWeakOrder (λ c. c.row.peer_count)))
      (ascending-IsWeakOrder (λ c. c.row.prefix.address))

by_rank-IsWeakOrder : IsWeakOrder by_rank
by_rank-IsWeakOrder =
    then_by-IsWeakOrder _ _ (ascending-IsWeakOrder (λ r. r.rank))
      (IsWeakOrder-on (λ (r : Ranked Candidate). r.row) by_preference by_preference-IsWeakOrder)

past_first :
    (q : Ranked Candidate → Bool) (n : ℕ) (rs : List (Ranked Candidate))
    → exists (λ r. (q r && not (leb r.rank 1)) && leb r.rank n) rs ≡ true
    → 1 ≤ n
unfolding exists
past_first q n [] h = cc
past_first q n (r ∷ rs) h = ground (arith, h, past_first q n rs)

module _ (l : Limits) (cs : List Candidate) where
  places : List (Ranked Candidate)
  places = in_country (deduped cs)

  kept : List (Ranked Candidate)
  kept = select (λ (r : Ranked Candidate). leb r.rank (per_country l)) places

  numbered : List (Ranked (Ranked Candidate))
  numbered = row_number same_provider_ranked by_rank kept

  chosen_lem :
      chosen l cs
      ≡ select (λ (r : Ranked (Ranked Candidate)). leb r.rank l.max_per_provider) numbered
  unfolding chosen numbered kept places
  chosen_lem = refl

  chosen_provider :
      (provider : ℕ) (is6 : Bool)
      → count (target_of (belongs_to provider is6)) (chosen l cs) ≤ l.max_per_provider
  unfolding numbered
  chosen_provider provider is6 = omega (
    arith,
    ap (count (target_of (belongs_to provider is6))) chosen_lem,
    count-select (target_of (belongs_to provider is6))
        (λ (r : Ranked (Ranked Candidate)). leb r.rank l.max_per_provider) numbered,
    row_number_bound same_provider_ranked by_rank (λ r. belongs_to provider is6 r.row)
        l.max_per_provider kept (λ x y. belongs_to-Class provider is6 x.row y.row),
  )

  chosen_country :
      (provider : ℕ) (is6 : Bool) (code : Bytes)
      → count (target_of (lies_in provider is6 code)) (chosen l cs) ≤ per_country l
  unfolding numbered kept places in_country
  chosen_country provider is6 code = omega (
    arith,
    ap (count (target_of (lies_in provider is6 code))) chosen_lem,
    count-select-le (target_of (lies_in provider is6 code))
        (λ (r : Ranked (Ranked Candidate)). leb r.rank l.max_per_provider) numbered,
    count-row_number (λ r. lies_in provider is6 code r.row) same_provider_ranked by_rank kept,
    count-select (λ (r : Ranked Candidate). lies_in provider is6 code r.row)
        (λ r. leb r.rank (per_country l)) places,
    row_number_bound same_country by_preference (lies_in provider is6 code) (per_country l)
        (deduped cs) (lies_in-Class provider is6 code),
  )

  module _ (provider : ℕ) (is6 : Bool) where
    -- A second or later target of a country, and a first one.
    abbrev late : Bytes → Ranked Candidate → Bool
    late code r = lies_in provider is6 code r.row && not (leb r.rank 1)

    abbrev early : Bytes → Ranked Candidate → Bool
    early code r = lies_in provider is6 code r.row && leb r.rank 1

    -- Of two targets in one country, one is numbered past the first.
    late_there :
        (code : Bytes)
        → 2 ≤ count (target_of (lies_in provider is6 code)) (chosen l cs)
        → exists (λ (r : Ranked (Ranked Candidate)). late code r.row) (chosen l cs) ≡ true
    unfolding numbered kept places in_country
    late_there code h = exists_of-count _ (chosen l cs) (
        omega (
          arith,
          h,
          count-split (target_of (lies_in provider is6 code)) (λ r. leb r.row.rank 1) (chosen l cs),
          ap (count (λ (r : Ranked (Ranked Candidate)). early code r.row)) chosen_lem,
          count-select-le (λ r. early code r.row)
              (λ (r : Ranked (Ranked Candidate)). leb r.rank l.max_per_provider) numbered,
          count-row_number (early code) same_provider_ranked by_rank kept,
          count-select-le (early code) (λ r. leb r.rank (per_country l)) places,
          row_number_bound same_country by_preference (lies_in provider is6 code) 1 (deduped cs)
              (lies_in-Class provider is6 code),
        ))

    late-numbered :
        (code : Bytes)
        → exists (λ (r : Ranked (Ranked Candidate)). late code r.row) (chosen l cs) ≡ true
        → exists (within (late code) l.max_per_provider) numbered ≡ true
    late-numbered code h =
        sym (exists-select_eq (λ r. late code r.row) (λ r. leb r.rank l.max_per_provider) numbered)
        ∙ ap (exists (λ (r : Ranked (Ranked Candidate)). late code r.row)) (sym chosen_lem)
        ∙ h

    -- The limit of a country is not zero where it has a second target.
    limit_pos :
        (code : Bytes)
        → exists (within (late code) l.max_per_provider) numbered ≡ true
        → 1 ≤ per_country l
    unfolding numbered kept
    limit_pos code h = by_row (
        sym (exists-select_eq (late code) (λ r. leb r.rank (per_country l)) places)
        ∙ sym (exists-row_number (late code) same_provider_ranked by_rank kept)
        ∙ exists_mono (within (late code) l.max_per_provider) (λ r. late code r.row) numbered
            (λ r k. ground (arith, k)) h)
      where
        by_row :
            exists (λ (r : Ranked Candidate). late code r && leb r.rank (per_country l)) places
              ≡ true
            → 1 ≤ per_country l
        by_row k = past_first (λ r. lies_in provider is6 code r.row) (per_country l) places k

    early_kept :
        (code : Bytes)
        → 1 ≤ per_country l
        → exists (lies_in provider is6 code) (deduped cs) ≡ true
        → exists (early code) kept ≡ true
    unfolding kept places in_country
    early_kept code h e =
        exists-select_eq (early code) (λ r. leb r.rank (per_country l)) places
        ∙ exists_mono (within (lies_in provider is6 code) 1)
            (λ r. early code r && leb r.rank (per_country l)) places (λ r k. ground (arith, h, k))
            (row_number_first same_country by_preference (lies_in provider is6 code) (deduped cs)
              (lies_in-Class provider is6 code) e)

    early_chosen :
        (code : Bytes)
        → exists (within (early code) l.max_per_provider) numbered ≡ true
        → exists (target_of (lies_in provider is6 code)) (chosen l cs) ≡ true
    early_chosen code h =
        ap (exists (target_of (lies_in provider is6 code))) chosen_lem
        ∙ exists-select_eq (target_of (lies_in provider is6 code))
            (λ r. leb r.rank l.max_per_provider) numbered
        ∙ exists_mono (within (early code) l.max_per_provider)
            (λ r. target_of (lies_in provider is6 code) r && leb r.rank l.max_per_provider) numbered
            (λ r k. ground (arith, k)) h

    spread :
        (code other : Bytes)
        → exists (within (late code) l.max_per_provider) numbered ≡ true
        → exists (lies_in provider is6 other) (deduped cs) ≡ true
        → exists (target_of (lies_in provider is6 other)) (chosen l cs) ≡ true
    unfolding numbered
    spread code other h e = early_chosen other (
        row_number_before same_provider_ranked by_rank (λ r. belongs_to provider is6 r.row)
          (late code) (early other) l.max_per_provider kept by_rank-IsWeakOrder
          (λ x y. belongs_to-Class provider is6 x.row y.row) (λ r k. ground (arith, k))
          (λ r k. ground (arith, k)) (λ x y k m. ground (arith, k, m)) h
          (early_kept other (limit_pos code h) e))

-- A provider has at most the limit of targets in an address family, and at most the limit for a
-- country in each country.
pub chosen_bounds :
    (l : Limits) (cs : List Candidate) (provider : ℕ) (is6 : Bool) (code : Bytes)
    → (count (target_of (belongs_to provider is6)) (chosen l cs) ≤ l.max_per_provider)
      × (count (target_of (lies_in provider is6 code)) (chosen l cs) ≤ per_country l)
chosen_bounds l cs provider is6 code =
    (chosen_provider l cs provider is6, chosen_country l cs provider is6 code)

-- If a provider gets two targets in one country, it gets one in every other country in which it
-- has a candidate of the same address family, counted after addresses that occur twice are
-- dropped.
pub chosen-spread :
    (l : Limits) (cs : List Candidate) (provider : ℕ) (is6 : Bool) (code other : Bytes)
    → 2 ≤ count (target_of (lies_in provider is6 code)) (chosen l cs)
    → exists (lies_in provider is6 other) (deduped cs) ≡ true
    → exists (target_of (lies_in provider is6 other)) (chosen l cs) ≡ true
chosen-spread l cs provider is6 code other h e =
    spread l cs provider is6 code other
      (late-numbered l cs provider is6 code (late_there l cs provider is6 code h)) e
