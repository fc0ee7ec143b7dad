-- ===== src/Builder/Targets/Apart.antt =====
-- For internal/builder/builder.go, `deriveTargets`: the addresses of the targets.
use vpsa_network_discovery.Prelude.{
  ℕ, ◌≤◌, ◌≡◌, sym, ◌∙◌, Bool, true, ◌&&◌, List, [], ◌∷◌, leb, ◌==◌, arith,
}
use vpsa_network_discovery.Sql.Table.{select, exists, count}
use vpsa_network_discovery.Sql.Counting.{
  count-select-le, exists-select, count-delete-le, count-delete_none, exists-delete_back,
}
use vpsa_network_discovery.Addresses.{same_family}
use vpsa_network_discovery.Sorting.{sort_by, exists-sort_by}
use vpsa_network_discovery.Sorting.Ranks.{Ranked, row_number, count-row_number, exists-row_number}
use vpsa_network_discovery.Builder.Targets.{
  Limits, per_country, Candidate, is6_of, same_address, distinct, by_address, deduped, same_country,
  by_preference, in_country, same_provider_ranked, by_rank, chosen,
}

-- The candidates with an address.
abbrev pub has_address : Bool → ℕ → Candidate → Bool
has_address is6 a c = same_family (is6_of c) is6 && c.address == a

count-distinct :
    (is6 : Bool) (a : ℕ) (cs : List Candidate) → count (has_address is6 a) (distinct cs) ≤ 1
unfolding count distinct
count-distinct is6 a [] = omega arith
count-distinct is6 a (c ∷ cs) = ground (
  arith,
  count-distinct is6 a cs,
  count-delete-le (has_address is6 a) (same_address c) (distinct cs),
  λ (h : has_address is6 a c ≡ true).
      count-delete_none (has_address is6 a) (same_address c) (distinct cs)
        (λ d k. ground (arith, h, k)),
)

exists-distinct :
    (q : Candidate → Bool) (cs : List Candidate)
    → exists q (distinct cs) ≡ true
    → exists q cs ≡ true
unfolding exists distinct
exists-distinct q [] h = h
exists-distinct q (c ∷ cs) h =
    ground (arith, h, exists-delete_back q (same_address c) (distinct cs), exists-distinct q cs)

abbrev pub held : (Candidate → Bool) → Ranked (Ranked Candidate) → Bool
held q r = q r.row.row

module _ (q : Candidate → Bool) (l : Limits) (cs : List Candidate) where
  places : List (Ranked Candidate)
  places = in_country (deduped cs)

  kept : List (Ranked Candidate)
  kept = select (λ (r : Ranked Candidate). leb r.rank (per_country l)) places

  count-chosen-le : count (held q) (chosen l cs) ≤ count q (deduped cs)
  unfolding chosen kept places
  count-chosen-le = omega (
    arith,
    count-select-le (held q) (λ (r : Ranked (Ranked Candidate)). leb r.rank l.max_per_provider)
        (row_number same_provider_ranked by_rank kept),
    count-row_number (λ r. q r.row) same_provider_ranked by_rank kept,
    count-select-le (λ r. q r.row) (λ (r : Ranked Candidate). leb r.rank (per_country l)) places,
    count-row_number q same_country by_preference (deduped cs),
  )

  pub exists-chosen : exists (held q) (chosen l cs) ≡ true → exists q cs ≡ true
  unfolding chosen kept places deduped
  exists-chosen h =
      sym (exists-sort_by q by_address cs)
      ∙ exists-distinct q (sort_by by_address cs) (
          sym (exists-row_number q same_country by_preference (deduped cs))
          ∙ exists-select (λ r. q r.row) (λ (r : Ranked Candidate). leb r.rank (per_country l))
              places
              (sym (exists-row_number (λ r. q r.row) same_provider_ranked by_rank kept)
                ∙ exists-select (held q)
                    (λ (r : Ranked (Ranked Candidate)). leb r.rank l.max_per_provider)
                    (row_number same_provider_ranked by_rank kept) h))

-- No address is a target twice, whichever prefixes and providers share it.
pub chosen_apart :
    (l : Limits) (cs : List Candidate) (is6 : Bool) (a : ℕ)
    → count (held (has_address is6 a)) (chosen l cs) ≤ 1
unfolding deduped
chosen_apart l cs is6 a =
    omega (
      arith,
      count-chosen-le (has_address is6 a) l cs,
      count-distinct is6 a (sort_by by_address cs),
    )
