-- ===== src/Distribution/Sums.antt =====
-- For internal/builder/distribution.go: sums of units.
use vpsa_network_discovery.Prelude.{
  ℕ, ◌+◌, ◌-◌, ◌%◌, ◌^◌, ◌≤◌, ◌<◌, ◌≡◌, refl, Bool, true, false, List, [], ◌∷◌, Bytes,
  if◌then◌else◌, ltb, leb, arith, All, All-map,
}
use vpsa_network_discovery.Addresses.{Prefix}
use native.Mathlib.Nat.{pow-le-pow_right}
use vpsa_network_discovery.Distribution.{
  word, units, Range, unknown_country, code_of, Shares, add, taken, attribute, country_units,
}

-- The sum of the map.
unfoldable pub sum : Shares → ℕ
sum [] = 0
sum (e ∷ es) = e.1 + sum es

sum-add :
    (code : Bytes) (u : ℕ) (es : Shares) → sum es + u < word → sum (add code u es) ≡ sum es + u
unfolding sum add
sum-add code u [] h = omega (arith, h)
sum-add code u (e ∷ es) h = ground (arith, h, sum-add code u es)

abbrev half : ℕ
half = 9_223_372_036_854_775_808

taken_fits :
    (total covered u : ℕ)
    → total ≤ half
    → u ≤ half
    → covered < half
    → covered ≤ total
    → covered + taken total covered u ≤ total
unfolding taken
taken_fits total covered u t h c l = ground (arith, t, h, c, l)

attribute-sum :
    (total : ℕ) (rs : List Range) (out : Shares) (covered : ℕ)
    → total ≤ half
    → All (λ (r : Range). units r.prefix ≤ half) rs
    → sum out ≡ covered
    → covered < half
    → covered ≤ total
    → (sum (attribute total rs out covered).0 ≡ (attribute total rs out covered).1)
      × ((attribute total rs out covered).1 ≤ total)
unfolding attribute
attribute-sum total [] out covered t a e c l = (e, l)
attribute-sum total (r ∷ rs) out covered t (b, a) e c l =
    by_end (attribute-sum total rs out' covered' t a summed) (leb total covered') refl
  where
    u : ℕ
    u = taken total covered (units r.prefix)

    out' : Shares
    out' = add (code_of r.country) u out

    covered' : ℕ
    covered' = (covered + u) % word

    fits : covered + u ≤ total
    fits = taken_fits total covered (units r.prefix) t b c l

    same : covered' ≡ covered + u
    same = omega (arith, fits, t)

    summed : sum out' ≡ covered'
    summed = omega (arith, same, e, sum-add (code_of r.country) u out (omega (arith, e, fits, t)))

    rest : Shares × ℕ
    rest = attribute total rs out' covered'

    ended : Bool → Shares × ℕ
    ended b = if b then (out', covered') else rest

    by_end :
        (covered' < half → covered' ≤ total → (sum rest.0 ≡ rest.1) × (rest.1 ≤ total))
        → (b : Bool) → leb total covered' ≡ b
        → (sum (ended b).0 ≡ (ended b).1) × ((ended b).1 ≤ total)
    by_end k true q = (summed, omega (arith, same, fits))
    by_end k false q = k (ground (arith, q, t)) (omega (arith, same, fits))

pow_half : (n : ℕ) → n ≤ 63 → 2 ^ n ≤ half
pow_half n h = pow-le-pow_right (omega arith) h

units-half : (p : Prefix) → 1 ≤ p.bits → units p ≤ half
unfolding units
units-half p h =
    ground (
      arith,
      h,
      pow_half (64 - p.bits) (omega (arith, h)),
      pow_half (32 - p.bits) (omega (arith, h)),
    )

ranges_half :
    (rs : List Range)
    → All (λ (r : Range). 1 ≤ r.prefix.bits) rs
    → All (λ (r : Range). units r.prefix ≤ half) rs
ranges_half rs a = All-map _ _ rs (λ r h. units-half r.prefix h) a

-- Where the prefix and the ranges of the GeoIP database have a length of at least 1, the countries
-- of a prefix have together exactly its units, on 64-bit integers.
pub country_units-sum :
    (p : Prefix) (ranges : List Range)
    → 1 ≤ p.bits
    → All (λ (r : Range). 1 ≤ r.prefix.bits) ranges
    → sum (country_units p ranges) ≡ units p
unfolding country_units sum
country_units-sum p ranges h a =
    let (e, l) =
      attribute-sum (units p) ranges [] 0 (units-half p h) (ranges_half ranges a) empty
        (omega arith) (omega arith) in
    by_rest (attribute (units p) ranges [] 0).0 (attribute (units p) ranges [] 0).1 e l
  where
    empty : sum [] ≡ 0
    empty = refl

    by_rest :
        (out : Shares) (covered : ℕ)
        → sum out ≡ covered
        → covered ≤ units p
        → sum (if ltb covered (units p) then add unknown_country (units p - covered) out else out)
          ≡ units p
    by_rest out covered e l = ground (
      arith,
      e,
      l,
      sum-add unknown_country (units p - covered) out (omega (arith, e, l, units-half p h)),
    )
