-- ===== src/Distribution.antt =====
-- internal/builder/distribution.go: how much address space a prefix has in each country. A uint64
-- wraps round at 2 ^ 64. The names of the countries, which are only displayed, are left out.
pub mod Sums
pub mod Exclusive
pub mod Countries
use vpsa_network_discovery.Prelude.{
  ℕ, zero, suc, ◌+◌, ◌-◌, ◌*◌, ◌^◌, ◌%◌, ◌≡◌, Bool, true, false, not, ◌&&◌, Option, none, some,
  List, [], ◌∷◌, ◌++◌, Bytes, bytes_eq, if◌then◌else◌, ltb, leb, ◌==◌,
}
use vpsa_network_discovery.Addresses.{Prefix}

abbrev pub word : ℕ
word = 18_446_744_073_709_551_616

-- units
unfoldable pub units : Prefix → ℕ
units p =
    if p.is6 && ltb 64 p.bits
    then 0
    else if p.bits == 0
    then word - 1
    else 2 ^ ((if p.is6 then 64 else 32) - p.bits) % word

-- A record of the GeoIP database: its country, `none` where it has none.
pub record Range : Type 0 where
  pub prefix : Prefix
  pub country : Option Bytes

-- unknownCountry
abbrev pub unknown_country : Bytes
unknown_country = b'Z' ∷ b'Z' ∷ []

unfoldable pub code_of : Option Bytes → Bytes
code_of none = unknown_country
code_of (some c) = c

-- A map from countries to units.
abbrev pub Shares : Type 0
Shares = List (Bytes × ℕ)

-- out[code] += u
unfoldable pub add : Bytes → ℕ → Shares → Shares
add code u [] = (code, u % word) ∷ []
add code u (e ∷ es) =
    let rest = add code u es in
    if bytes_eq e.0 code then (code, (e.1 + u) % word) ∷ es else e ∷ rest

-- Never attribute past the prefix.
unfoldable pub taken : ℕ → ℕ → ℕ → ℕ
taken total covered u = if ltb total ((covered + u) % word) then total - covered else u

-- The loop over the ranges: what is attributed so far, and how much of the total it covers.
unfoldable pub attribute : ℕ → List Range → Shares → ℕ → Shares × ℕ
unfolding code_of add taken
attribute total [] out covered = (out, covered)
attribute total (r ∷ rs) out covered =
    let u = taken total covered (units r.prefix) in
    let out' = add (code_of r.country) u out in
    let covered' = (covered + u) % word in
    let rest = attribute total rs out' covered' in
    if leb total covered' then (out', covered') else rest

-- countryUnits, by the ranges that the GeoIP database gives for the prefix.
unfoldable pub country_units : Prefix → List Range → Shares
unfolding attribute
country_units p ranges =
    let (out, covered) = attribute (units p) ranges [] 0 in
    if ltb covered (units p) then add unknown_country (units p - covered) out else out
