-- ===== src/Routing/Bogon.antt =====
-- internal/routing/bogon/bogon.go: address space that is never probed or stored.
use vpsa_network_discovery.Prelude.{
  ℕ, zero, suc, ◌+◌, ◌-◌, ◌*◌, ◌≤◌, ◌<◌, ◌≡◌, refl, sym, ◌∙◌, ap, subst, inl, inr, Bool, true,
  false, not, min, ==_iff, Bool-cases, ◌&&◌, ◌||◌, List, [], ◌∷◌, ltb, ◌==◌, arith, if◌then◌else◌,
  All,
}
use vpsa_network_discovery.Sql.Table.{exists}
use vpsa_network_discovery.Addresses.{
  Prefix, width, lead, covers, overlaps, overlaps_apart, lead_of, shr,
}

abbrev pub v4 : ℕ → ℕ → ℕ → ℕ → ℕ → Prefix
v4 a b c d n = record {
  is6 = false;
  address = 16_777_216 * a + (65_536 * b + (256 * c + d));
  bits = n;
}

-- A prefix by its first three groups of sixteen bits; the others are zero.
abbrev pub v6 : ℕ → ℕ → ℕ → ℕ → Prefix
v6 a b c n = record {
  is6 = true;
  address = (4_294_967_296 * a + (65_536 * b + c)) * 1_208_925_819_614_629_174_706_176;
  bits = n;
}

-- bogons
pub bogons : List Prefix
bogons =
    v4 0 0 0 0 8
    ∷ v4 10 0 0 0 8
    ∷ v4 100 64 0 0 10
    ∷ v4 127 0 0 0 8
    ∷ v4 169 254 0 0 16
    ∷ v4 172 16 0 0 12
    ∷ v4 192 0 0 0 24
    ∷ v4 192 0 2 0 24
    ∷ v4 192 168 0 0 16
    ∷ v4 198 18 0 0 15
    ∷ v4 198 51 100 0 24
    ∷ v4 203 0 113 0 24
    ∷ v4 224 0 0 0 4
    ∷ v4 240 0 0 0 4
    ∷ v6 0x2001 0xdb8 0 32
    ∷ v6 0x2001 2 0 48
    ∷ v6 0x3fff 0 0 20
    ∷ []

-- v6Global
abbrev pub v6_global : Prefix
v6_global = v6 0x2000 0 0 3

-- IsBogon
unfoldable pub is_bogon : Prefix → Bool
unfolding bogons
is_bogon p = (p.is6 && not (overlaps v6_global p)) || exists (λ b. overlaps b p) bogons

-- TooLong
unfoldable pub too_long : Prefix → Bool
too_long p = if p.is6 then ltb 48 p.bits else ltb 24 p.bits

exists-All :
    (f : Prefix → Bool) (P : Prefix → Type 0) (bs : List Prefix)
    → ((b : Prefix) → f b ≡ false → b.bits ≤ width b.is6 → P b)
    → All (λ (b : Prefix). b.bits ≤ width b.is6) bs
    → exists f bs ≡ false
    → All P bs
unfolding exists
exists-All f P [] k v h = tt
exists-All f P (b ∷ bs) k (w, v) h =
    (k b (ground (arith, h)) w, exists-All f P bs k v (ground (arith, h)))

-- An address outside the bogons and, for IPv6, within the global unicast space.
pub record IsGlobal (is6 : Bool) (a : ℕ) : Type 0 where
  pub outside : All (λ (b : Prefix). covers b is6 a ≡ false) bogons
  pub unicast : is6 ≡ true → covers v6_global is6 a ≡ true

bogons_valid : All (λ (b : Prefix). b.bits ≤ width b.is6) bogons
unfolding bogons
bogons_valid = omega arith

-- Documentation space within 2000::/3.
abbrev documentation : Prefix
documentation = v6 0x2001 0xdb8 0 32

-- A shorter prefix than 2000::/3 that overlaps it also overlaps the documentation space.
short_overlaps :
    (n x : ℕ)
    → n < 3
    → overlaps v6_global (record { is6 = true; address = x; bits = n }) ≡ true
    → overlaps documentation (record { is6 = true; address = x; bits = n }) ≡ true
unfolding overlaps
short_overlaps zero x h o = refl
short_overlaps (suc zero) x h o = o
short_overlaps (suc (suc zero)) x h o = o
short_overlaps (suc (suc (suc n))) x h o = absurd (omega arith)

documented :
    (p : Prefix) → overlaps documentation p ≡ true → exists (λ b. overlaps b p) bogons ≡ true
unfolding exists bogons
documented p h = ground (arith, h)

not_documented : (p : Prefix) → is_bogon p ≡ false → overlaps documentation p ≡ true → ⊥
unfolding is_bogon
not_documented p h o = ground (arith, h, documented p o)

long_covers :
    (n x a : ℕ)
    → 3 ≤ n
    → n ≤ 128
    → overlaps v6_global (record { is6 = true; address = x; bits = n }) ≡ true
    → covers (record { is6 = true; address = x; bits = n }) true a ≡ true
    → covers v6_global true a ≡ true
unfolding covers overlaps
long_covers n x a h k o c = (==_iff _ _).1 (
    lead_of 3 n true a h k
    ∙ ap (λ (y : ℕ). shr y (n - 3)) ((==_iff _ _).0 c)
    ∙ sym (lead_of 3 n true x h k)
    ∙ sym at_three)
  where
    short : min 3 n ≡ 3
    short = omega (arith, h)

    at_three : lead 3 true v6_global.address ≡ lead 3 true x
    at_three = (==_iff _ _).0 (
        subst (λ (m : ℕ). (m == 0 || lead m true v6_global.address == lead m true x) ≡ true) short
          o)

unicast_in :
    (p : Prefix) (a : ℕ)
    → p.bits ≤ 128
    → overlaps v6_global p ≡ true
    → (overlaps documentation p ≡ true → ⊥)
    → p.is6 ≡ true
    → covers p true a ≡ true
    → covers v6_global true a ≡ true
unicast_in p a h o d s c = elim (Bool-cases (ltb p.bits 3)) [
  | inl t ↦ absurd (d (subst Short (sym s) (short_overlaps p.bits p.address (ground (arith, t))) o))
  | inr f ↦ subst Long (sym s) (long_covers p.bits p.address a (ground (arith, f)) h) o c
]
  where
    at : Bool → Prefix
    at b = record { is6 = b; address = p.address; bits = p.bits }

    Short : Bool → Type 0
    Short b = overlaps v6_global (at b) ≡ true → overlaps documentation (at b) ≡ true

    Long : Bool → Type 0
    Long b =
        overlaps v6_global (at b) ≡ true
        → covers (at b) true a ≡ true
        → covers v6_global true a ≡ true

global_overlaps : (p : Prefix) → is_bogon p ≡ false → p.is6 ≡ true → overlaps v6_global p ≡ true
unfolding is_bogon
global_overlaps p h s = ground (arith, h, s)

not_overlapping : (p : Prefix) → is_bogon p ≡ false → exists (λ b. overlaps b p) bogons ≡ false
unfolding is_bogon
not_overlapping p h = ground (arith, h)

pub is_bogon-IsGlobal :
    (p : Prefix) (a : ℕ)
    → p.bits ≤ width p.is6
    → is_bogon p ≡ false
    → covers p p.is6 a ≡ true
    → IsGlobal p.is6 a
is_bogon-IsGlobal p a v h c = record {
  outside =
      exists-All (λ b. overlaps b p) (λ (b : Prefix). covers b p.is6 a ≡ false) bogons
        (λ b o w. overlaps_apart b p p.is6 a w v o c) bogons_valid (not_overlapping p h);
  unicast = λ s.
      subst (λ (b : Bool). covers v6_global b a ≡ true) (sym s)
        (unicast_in p a (subst (λ (b : Bool). p.bits ≤ width b) s v) (global_overlaps p h s)
          (not_documented p h) s (subst (λ (b : Bool). covers p b a ≡ true) s c));
}
