-- ===== src/Sorting/Ranks.antt =====
-- The rows of a query numbered within their partitions.
use vpsa_network_discovery.Prelude.{
  ℕ, ◌+◌, ◌≤◌, ◌≡◌, refl, Bool, true, ◌&&◌, List, [], ◌∷◌, leb, min, arith, inl, inr, Bool-cases,
  ◌∙◌,
}
use vpsa_network_discovery.Sql.Table.{exists, count}
use vpsa_network_discovery.Sql.Table.{exists_mono}
use vpsa_network_discovery.Sorting.{
  sort_by, IsWeakOrder, Ordered, exists-sort_by, count-sort_by, sort_by-Ordered,
}

-- A row and its number.
pub record Ranked {ℓ} (A : Type ℓ) : Type ℓ where
  pub row : A
  pub rank : ℕ

module _ {ℓ} {A : Type ℓ} where
  -- The rows in order; `seen` are those above.
  unfoldable pub number : (A → A → Bool) → List A → List A → List (Ranked A)
  number same seen [] = []
  number same seen (x ∷ xs) =
      record { row = x; rank = count (same x) seen + 1 } ∷ number same (x ∷ seen) xs

  -- row_number() over (partition by … order by …)
  unfoldable pub row_number : (A → A → Bool) → (A → A → Bool) → List A → List (Ranked A)
  unfolding number
  row_number same less xs = number same [] (sort_by less xs)

  abbrev pub within : (A → Bool) → ℕ → Ranked A → Bool
  within q n r = q r.row && leb r.rank n

  -- A class of the partition.
  abbrev pub Class : (A → A → Bool) → (A → Bool) → Type ℓ
  Class same q = (x y : A) → q x ≡ true → same x y ≡ q y

  pub count_same : (p q : A → Bool) (xs : List A) → ((x : A) → p x ≡ q x) → count p xs ≡ count q xs
  unfolding count
  count_same p q [] k = refl
  count_same p q (x ∷ xs) k = ground (arith, k x, count_same p q xs k)

  number_bound :
      (same : A → A → Bool) (q : A → Bool) (n : ℕ) (seen xs : List A)
      → Class same q
      → count (within q n) (number same seen xs) + min n (count q seen) ≤ n
  unfolding count number
  number_bound same q n seen [] k = omega arith
  number_bound same q n seen (x ∷ xs) k = ground (
    arith,
    number_bound same q n (x ∷ seen) xs k,
    λ (h : q x ≡ true). count_same (same x) q seen (λ y. k x y h),
  )

  number_above :
      (same : A → A → Bool) (q r : A → Bool) (n : ℕ) (seen xs : List A)
      → Class same q
      → ((x : A) → r x ≡ true → q x ≡ true)
      → exists (within r n) (number same seen xs) ≡ true
      → count q seen + 1 ≤ n
  unfolding exists count number
  number_above same q r n seen [] k w h = cc
  number_above same q r n seen (x ∷ xs) k w h = ground (
    arith,
    h,
    w x,
    number_above same q r n (x ∷ seen) xs k w,
    λ (h : q x ≡ true). count_same (same x) q seen (λ y. k x y h),
  )

  -- What comes before a row that is numbered up to `n` in its class is so too.
  number_before :
      (same less : A → A → Bool) (q late early : A → Bool) (n : ℕ) (seen xs : List A)
      → Class same q
      → ((x : A) → late x ≡ true → q x ≡ true)
      → ((x : A) → early x ≡ true → q x ≡ true)
      → ((x y : A) → late x ≡ true → early y ≡ true → less y x ≡ true)
      → Ordered less xs
      → exists (within late n) (number same seen xs) ≡ true
      → exists early xs ≡ true
      → exists (within early n) (number same seen xs) ≡ true
  unfolding exists number
  number_before same less q late early n seen [] k wl we b o h e = cc
  number_before same less q late early n seen (x ∷ xs) k wl we b (a, o) h e =
      elim (Bool-cases (early x)) [
        | inl t ↦ ground (
          arith,
          t,
          number_above same q late n seen (x ∷ xs) k wl h,
          count_same (same x) q seen (λ y. k x y (we x t)),
        )
        | inr f ↦ ground (
          arith,
          f,
          h,
          e,
          a,
          λ (l : late x ≡ true). exists_mono early (λ y. less y x) xs (λ y. b x y l),
          number_before same less q late early n (x ∷ seen) xs k wl we b o,
        )
      ]

  exists-number :
      (p : A → Bool) (same : A → A → Bool) (seen xs : List A)
      → exists (λ r. p r.row) (number same seen xs) ≡ exists p xs
  unfolding exists number
  exists-number p same seen [] = refl
  exists-number p same seen (x ∷ xs) = ground (arith, exists-number p same (x ∷ seen) xs)

  count-number :
      (p : A → Bool) (same : A → A → Bool) (seen xs : List A)
      → count (λ r. p r.row) (number same seen xs) ≡ count p xs
  unfolding count number
  count-number p same seen [] = refl
  count-number p same seen (x ∷ xs) = ground (arith, count-number p same (x ∷ seen) xs)

  -- The rows are those of the table.
  pub exists-row_number :
      (p : A → Bool) (same less : A → A → Bool) (xs : List A)
      → exists (λ r. p r.row) (row_number same less xs) ≡ exists p xs
  unfolding row_number
  exists-row_number p same less xs =
      exists-number p same [] (sort_by less xs) ∙ exists-sort_by p less xs

  pub count-row_number :
      (p : A → Bool) (same less : A → A → Bool) (xs : List A)
      → count (λ r. p r.row) (row_number same less xs) ≡ count p xs
  unfolding row_number
  count-row_number p same less xs =
      count-number p same [] (sort_by less xs) ∙ count-sort_by p less xs

  -- At most `n` rows of a class are numbered up to `n`.
  pub row_number_bound :
      (same less : A → A → Bool) (q : A → Bool) (n : ℕ) (xs : List A)
      → Class same q
      → count (within q n) (row_number same less xs) ≤ n
  unfolding row_number
  row_number_bound same less q n xs k = omega (arith, number_bound same q n [] (sort_by less xs) k)

  -- A class with a row has one with the number 1.
  number_first :
      (same : A → A → Bool) (q : A → Bool) (seen xs : List A)
      → Class same q
      → count q seen ≡ 0
      → exists q xs ≡ true
      → exists (within q 1) (number same seen xs) ≡ true
  unfolding exists number count
  number_first same q seen [] k z h = cc
  number_first same q seen (x ∷ xs) k z h = ground (
    arith,
    h,
    z,
    number_first same q (x ∷ seen) xs k,
    λ (h : q x ≡ true). count_same (same x) q seen (λ y. k x y h),
  )

  pub row_number_first :
      (same less : A → A → Bool) (q : A → Bool) (xs : List A)
      → Class same q
      → exists q xs ≡ true
      → exists (within q 1) (row_number same less xs) ≡ true
  unfolding row_number count
  row_number_first same less q xs k h =
      number_first same q [] (sort_by less xs) k refl (exists-sort_by q less xs ∙ h)

  -- A row that comes before one numbered up to `n` in its class is so too.
  pub row_number_before :
      (same less : A → A → Bool) (q late early : A → Bool) (n : ℕ) (xs : List A)
      → IsWeakOrder less
      → Class same q
      → ((x : A) → late x ≡ true → q x ≡ true)
      → ((x : A) → early x ≡ true → q x ≡ true)
      → ((x y : A) → late x ≡ true → early y ≡ true → less y x ≡ true)
      → exists (within late n) (row_number same less xs) ≡ true
      → exists early xs ≡ true
      → exists (within early n) (row_number same less xs) ≡ true
  unfolding row_number
  row_number_before same less q late early n xs w k wl we b h e =
      number_before same less q late early n [] (sort_by less xs) k wl we b
        (sort_by-Ordered less xs w) h (exists-sort_by early less xs ∙ e)
