-- ===== src/Addresses.antt =====
-- The part of Go's net/netip that the builder uses: prefixes of addresses. An address is a family
-- and a number below 2 ^ 32 or 2 ^ 128.
use vpsa_network_discovery.Prelude.{
  ℕ, zero, suc, ◌+◌, ◌-◌, ◌*◌, ◌/◌, ◌≤◌, ◌≡◌, refl, Bool, true, false, ◌&&◌, ◌||◌, arith, ◌==◌, min,
  if◌then◌else◌, sym, ap, subst, ◌∙◌, ==_iff, Bool-cases, inl, inr,
}
use native.Mathlib.Nat.{min-le_left, min-le_right}

-- netip.Prefix, valid: the family, the address and the length.
pub record Prefix : Type 0 where
  pub is6 : Bool
  pub address : ℕ
  pub bits : ℕ

abbrev pub same_family : Bool → Bool → Bool
same_family true b = b
same_family false true = false
same_family false false = true

-- IPv4 comes before IPv6.
abbrev pub family_number : Bool → ℕ
family_number false = 0
family_number true = 1

-- BitLen
abbrev pub width : Bool → ℕ
width is6 = if is6 then 128 else 32

-- x >> k
pub shr : ℕ → ℕ → ℕ
shr x zero = x
shr x (suc k) = shr (x / 2) k

-- x << k
pub shl : ℕ → ℕ → ℕ
shl x zero = x
shl x (suc k) = 2 * shl x k

-- The leading bits of the address.
unfoldable pub lead : ℕ → Bool → ℕ → ℕ
unfolding shr
lead n is6 a = shr a (width is6 - n)

-- Contains
unfoldable pub covers : Prefix → Bool → ℕ → Bool
unfolding lead
covers p is6 a = same_family p.is6 is6 && lead p.bits is6 a == lead p.bits is6 p.address

-- Overlaps
unfoldable pub overlaps : Prefix → Prefix → Bool
unfolding lead
overlaps p q =
    same_family p.is6 q.is6
    && (min p.bits q.bits == 0
        || lead (min p.bits q.bits) p.is6 p.address == lead (min p.bits q.bits) p.is6 q.address)

-- Masked
unfoldable pub masked : Prefix → Prefix
unfolding shr shl
masked p = record p { address = shl (shr p.address (width p.is6 - p.bits)) (width p.is6 - p.bits) }

unfoldable pub same_prefix : Prefix → Prefix → Bool
same_prefix p q = same_family p.is6 q.is6 && (p.address == q.address && p.bits == q.bits)

pub shr_add : (x k j : ℕ) → shr x (k + j) ≡ shr (shr x k) j
unfolding shr
shr_add x zero j = ap (shr x) {x = 0 + j} {y = j} (omega arith)
shr_add x (suc k) j =
    ap (shr x) {x = suc k + j} {y = suc (k + j)} (omega arith) ∙ shr_add (x / 2) k j

pub shr-shl : (x k : ℕ) → shr (shl x k) k ≡ x
unfolding shr shl
shr-shl x zero = refl
shr-shl x (suc k) =
    ap (λ (y : ℕ). shr y k) {x = 2 * shl x k / 2} {y = shl x k} (omega arith) ∙ shr-shl x k

pub shr-shl_next : (x k : ℕ) → shr (shl x (suc k) + 1) (suc k) ≡ x
unfolding shr shl
shr-shl_next x k =
    ap (λ (y : ℕ). shr y k) {x = (2 * shl x k + 1) / 2} {y = shl x k} (omega arith) ∙ shr-shl x k

or_true : (b : Bool) → (b || true) ≡ true
or_true true = refl
or_true false = refl

-- Fewer leading bits are those of more.
pub lead_of :
    (n m : ℕ) (is6 : Bool) (a : ℕ)
    → n ≤ m
    → m ≤ width is6
    → lead n is6 a ≡ shr (lead m is6 a) (m - n)
unfolding lead
lead_of n m is6 a h k =
    ap (shr a) {x = width is6 - n} {y = width is6 - m + (m - n)} (omega (arith, h, k))
    ∙ shr_add a (width is6 - m) (m - n)

same_family-eq : (a b : Bool) → same_family a b ≡ true → a ≡ b
same_family-eq true b h = sym h
same_family-eq false true h = cc
same_family-eq false false h = refl

and_both : (a b : Bool) → (a && b) ≡ true → (a ≡ true) × (b ≡ true)
and_both true b h = (refl, h)
and_both false b h = cc

covers-lead :
    (p : Prefix) (is6 : Bool) (a n : ℕ)
    → n ≤ p.bits
    → p.bits ≤ width p.is6
    → covers p is6 a ≡ true
    → (p.is6 ≡ is6) × (lead n is6 a ≡ lead n is6 p.address)
unfolding covers
covers-lead p is6 a n h k c =
    let (f, e) = and_both _ _ c in
    let same = same_family-eq p.is6 is6 f in
    let w : p.bits ≤ width is6 = subst (λ (b : Bool). p.bits ≤ width b) same k in
    (
      same,
      lead_of n p.bits is6 a h w
          ∙ ap (λ (y : ℕ). shr y (p.bits - n)) ((==_iff _ _).0 e)
          ∙ sym (lead_of n p.bits is6 p.address h w),
    )

pub same_family_refl : (a : Bool) → same_family a a ≡ true
same_family_refl true = refl
same_family_refl false = refl

-- Two prefixes with a common address overlap.
overlaps-covers :
    (p q : Prefix) (is6 : Bool) (a : ℕ)
    → p.bits ≤ width p.is6
    → q.bits ≤ width q.is6
    → covers p is6 a ≡ true
    → covers q is6 a ≡ true
    → overlaps p q ≡ true
unfolding overlaps
overlaps-covers p q is6 a hp hq c d =
    let (fp, ep) = covers-lead p is6 a (min p.bits q.bits) (min-le_left p.bits q.bits) hp c in
    let (fq, eq) = covers-lead q is6 a (min p.bits q.bits) (min-le_right p.bits q.bits) hq d in
    together fp fq (sym ep ∙ eq)
  where
    n : ℕ
    n = min p.bits q.bits

    together :
        p.is6 ≡ is6
        → q.is6 ≡ is6
        → lead n is6 p.address ≡ lead n is6 q.address
        → (same_family p.is6 q.is6 && (n == 0 || lead n p.is6 p.address == lead n p.is6 q.address))
          ≡ true
    together fp fq e = rw (fp, fq, same_family_refl is6, (==_iff _ _).1 e) (or_true (n == 0))

-- Two prefixes that do not overlap have no address in common.
pub overlaps_apart :
    (p q : Prefix) (is6 : Bool) (a : ℕ)
    → p.bits ≤ width p.is6
    → q.bits ≤ width q.is6
    → overlaps p q ≡ false
    → covers q is6 a ≡ true
    → covers p is6 a ≡ false
overlaps_apart p q is6 a hp hq o c = elim (Bool-cases (covers p is6 a)) [
  | inr f ↦ f
  | inl t ↦ absurd (no_two (overlaps-covers p q is6 a hp hq t c))
]
  where
    no_two : overlaps p q ≡ true → ⊥
    no_two h = cc
