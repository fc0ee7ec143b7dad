-- ===== src/Builder/Targets/Global.antt =====
-- For internal/builder/builder.go: the addresses of the targets of a snapshot that was just loaded.
use vpsa_network_discovery.Prelude.{
  ℕ, zero, suc, ◌+◌, ◌-◌, ◌≤◌, ◌≡◌, sym, subst, inl, inr, Bool, true, false, not, ◌&&◌, Option,
  none, some, List, [], ◌∷◌, ◌==◌, ==_iff, ==_refl, arith, All, All-map, Bool-cases,
}
use vpsa_network_discovery.Database.{Database, PrefixRow, Asn}
use vpsa_network_discovery.Sql.Table.{select, exists, find}
use vpsa_network_discovery.Addresses.{
  Prefix, width, covers, shl, shr, shr-shl_next, same_family_refl,
}
use vpsa_network_discovery.Sorting.Ranks.{Ranked}
use vpsa_network_discovery.Routing.Bogon.{is_bogon, too_long, IsGlobal, is_bogon-IsGlobal}
use vpsa_network_discovery.Builder.Targets.{
  Limits, Candidate, is6_of, chosen, candidates, joined, candidate_of, first_usable,
}
use vpsa_network_discovery.Builder.Targets.Apart.{held, exists-chosen}

next_shifted : (a k : ℕ) → 1 ≤ k → shr (shl (shr a k) k + 1) k ≡ shr a k
next_shifted a zero h = absurd (omega arith)
next_shifted a (suc k) h = shr-shl_next (shr a (suc k)) k

-- The first usable address of a prefix that leaves room lies in it.
covers-first_usable :
    (p : Prefix) → p.bits + 1 ≤ width p.is6 → covers p p.is6 (first_usable p) ≡ true
unfolding covers first_usable
covers-first_usable p h =
    rw (same_family_refl p.is6)
      ((==_iff _ _).1 (next_shifted p.address (width p.is6 - p.bits) (omega (arith, h))))

-- The prefix is short enough for the global table and holds no bogon.
abbrev pub usable : Prefix → Bool
usable p = not (is_bogon p) && not (too_long p)

-- A candidate made of a usable prefix.
abbrev proper : Candidate → Bool
proper c = usable c.row.prefix && c.address == first_usable c.row.prefix

-- The target lies in the announced prefix and in global unicast space, outside the bogons.
pub record IsProbeable (c : Candidate) : Type 0 where
  pub inside : covers c.row.prefix (is6_of c) c.address ≡ true
  pub global : IsGlobal (is6_of c) c.address

room : (p : Prefix) → too_long p ≡ false → p.bits + 1 ≤ width p.is6
unfolding too_long
room p h = ground (arith, h)

proper-IsProbeable : (c : Candidate) → proper c ≡ true → IsProbeable c
proper-IsProbeable c h = record {
  inside = subst (λ (a : ℕ). covers c.row.prefix (is6_of c) a ≡ true) (sym at) covered;
  global =
      is_bogon-IsGlobal c.row.prefix c.address fits (ground (arith, h))
        (subst (λ (a : ℕ). covers c.row.prefix (is6_of c) a ≡ true) (sym at) covered);
}
  where
    at : c.address ≡ first_usable c.row.prefix
    at = (==_iff _ _).0 (ground (arith, h))

    spare : c.row.prefix.bits + 1 ≤ width c.row.prefix.is6
    spare = room c.row.prefix (ground (arith, h))

    fits : c.row.prefix.bits ≤ width c.row.prefix.is6
    fits = omega (arith, spare)

    covered : covers c.row.prefix (is6_of c) (first_usable c.row.prefix) ≡ true
    covered = covers-first_usable c.row.prefix spare

-- A row of the snapshot that would make an unusable candidate.
abbrev pub faulty : PrefixRow → Bool
faulty p = not p.long_prefix && not (usable p.prefix)

abbrev improper : Candidate → Bool
improper c = not (proper c)

exists-joined :
    (asns : List Asn) (ps : List PrefixRow)
    → exists improper (joined asns ps) ≡ true
    → exists (λ p. not (usable p.prefix)) ps ≡ true
unfolding exists joined
exists-joined asns [] h = h
exists-joined asns (p ∷ ps) h =
    by_asn (find (λ (a : Asn). a.asn == p.origin) asns) h (exists-joined asns ps)
  where
    by_asn :
        (o : Option Asn)
        → exists improper
            (elim o [ none ↦ joined asns ps | some a ↦ candidate_of a p ∷ joined asns ps ])
          ≡ true
        → (exists improper (joined asns ps) ≡ true
            → exists (λ (r : PrefixRow). not (usable r.prefix)) ps ≡ true)
        → exists (λ (r : PrefixRow). not (usable r.prefix)) (p ∷ ps) ≡ true
    by_asn none k ih = ground (arith, ih k)
    by_asn (some a) k ih = ground (arith, k, ih, ==_refl (first_usable p.prefix))

exists-short :
    (snapshot : ℕ) (ps : List PrefixRow)
    → exists
        (λ (p : PrefixRow). not (usable p.prefix))
        (select (λ (p : PrefixRow). p.snapshot == snapshot && not p.long_prefix) ps)
      ≡ true
    → exists faulty (select (λ (p : PrefixRow). p.snapshot == snapshot) ps) ≡ true
unfolding exists select
exists-short snapshot [] h = h
exists-short snapshot (p ∷ ps) h = ground (arith, h, exists-short snapshot ps)

All-of-exists :
    (q : Candidate → Bool) (rs : List (Ranked (Ranked Candidate)))
    → exists (held (λ c. not (q c))) rs ≡ false
    → All (λ (r : Ranked (Ranked Candidate)). q r.row.row ≡ true) rs
unfolding exists
All-of-exists q [] h = tt
All-of-exists q (r ∷ rs) h = (ground (arith, h), All-of-exists q rs (ground (arith, h)))

-- Where no row of the snapshot is faulty, every target is probeable.
pub chosen-IsProbeable :
    (l : Limits) (snapshot : ℕ) (db : Database)
    → exists faulty (select (λ (p : PrefixRow). p.snapshot == snapshot) db.prefixes) ≡ false
    → All
        (λ (r : Ranked (Ranked Candidate)). IsProbeable r.row.row)
        (chosen l (candidates snapshot db))
unfolding candidates
chosen-IsProbeable l snapshot db h =
    All-map _ _ (chosen l (candidates snapshot db)) (λ r. proper-IsProbeable r.row.row)
      (All-of-exists proper (chosen l (candidates snapshot db)) none_improper)
  where
    none_improper : exists (held (λ c. not (proper c))) (chosen l (candidates snapshot db)) ≡ false
    none_improper =
        elim (Bool-cases
          (exists (held (λ c. not (proper c))) (chosen l (candidates snapshot db)))) [
            | inr f ↦ f
            | inl t ↦ cc (
              exists-short snapshot db.prefixes
                  (exists-joined db.asns _ (exists-chosen improper l (candidates snapshot db) t)),
              h,
            )
          ]
