-- ===== src/Distribution/Exclusive.antt =====
-- For internal/builder/distribution.go, `exclusiveUnits`: the space that each prefix covers beyond
-- its direct more-specifics. `ranges` are the records of the GeoIP database for a prefix.
use vpsa_network_discovery.Prelude.{
  ℕ, zero, suc, ◌+◌, ◌-◌, Bool, false, ◌&&◌, Option, none, some, List, [], ◌∷◌, map, Bytes,
  bytes_eq, ltb, leb, if◌then◌else◌,
}
use vpsa_network_discovery.Addresses.{Prefix, family_number, covers}
use vpsa_network_discovery.Sorting.{sort_by, ascending, then_by}
use vpsa_network_discovery.Distribution.{Range, Shares, country_units}

-- Container before contained.
abbrev pub by_start : Prefix → Prefix → Bool
by_start =
    then_by (ascending (λ p. family_number p.is6))
      (then_by (ascending (λ p. p.address)) (ascending (λ p. p.bits)))

-- own[i] and exclusive[i] beside sorted[i].
pub record Entry : Type 0 where
  pub prefix : Prefix
  pub own : Shares
  pub exclusive : Shares

unfoldable pub entry_of : (Prefix → List Range) → Prefix → Entry
entry_of ranges p = record {
  prefix = p;
  own = country_units p (ranges p);
  exclusive = country_units p (ranges p);
}

-- exclusive[parent][code] = have - u, or its deletion
unfoldable pub take_share : Bytes → ℕ → Shares → Shares
take_share code u [] = []
take_share code u (e ∷ es) =
    let rest = take_share code u es in
    if bytes_eq e.0 code then (if ltb u e.1 then (code, e.1 - u) ∷ es else es) else e ∷ rest

unfoldable pub take_shares : Shares → Shares → Shares
unfolding take_share
take_shares [] es = es
take_shares (o ∷ os) es = take_shares os (take_share o.0 o.1 es)

unfoldable pub entry_at : List Entry → ℕ → Option Entry
entry_at [] i = none
entry_at (e ∷ es) zero = some e
entry_at (e ∷ es) (suc i) = entry_at es i

unfoldable pub take_at : ℕ → Shares → List Entry → List Entry
unfolding take_shares
take_at i own [] = []
take_at zero own (e ∷ es) = record e { exclusive = take_shares own e.exclusive } ∷ es
take_at (suc i) own (e ∷ es) = e ∷ take_at i own es

unfoldable pub holds_prefix : Option Entry → Prefix → Bool
holds_prefix none p = false
holds_prefix (some e) p = covers e.prefix p.is6 p.address && leb e.prefix.bits p.bits

-- The loop that pops what does not contain the prefix.
unfoldable pub pop : List Entry → Prefix → List ℕ → List ℕ
unfolding entry_at holds_prefix
pop entries p [] = []
pop entries p (i ∷ stack) =
    let rest = pop entries p stack in
    if holds_prefix (entry_at entries i) p then i ∷ stack else rest

unfoldable pub charge : List ℕ → Shares → List Entry → List Entry
unfolding take_at
charge [] own entries = entries
charge (parent ∷ stack) own entries = take_at parent own entries

-- The sweep from the index `i` on, over the prefixes that are left.
unfoldable pub sweep : ℕ → List Entry → List ℕ → List Entry → List Entry
unfolding pop charge
sweep i [] stack entries = entries
sweep i (e ∷ es) stack entries =
    let stack' = pop entries e.prefix stack in
    sweep (i + 1) es (i ∷ stack') (charge stack' e.own entries)

-- exclusiveUnits
unfoldable pub exclusive_units : (Prefix → List Range) → List Prefix → List Entry
unfolding entry_of sweep
exclusive_units ranges prefixes =
    let entries = map (entry_of ranges) (sort_by by_start prefixes) in sweep 0 entries [] entries
