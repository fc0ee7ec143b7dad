-- ===== src/Sorting.antt =====
-- `sort.Slice` and the `order by` of SQL, by a Boolean order; `row_number() over (partition …)`.
pub mod Ranks
use vpsa_network_discovery.Prelude.{
  ℕ, ◌+◌, ◌≤◌, ◌≡◌, refl, inl, inr, Bool, true, false, not, ◌&&◌, ◌||◌, Option, none, some, List,
  [], ◌∷◌, ltb, arith, if◌then◌else◌, Bool-cases,
}
use vpsa_network_discovery.Sql.Table.{exists, count, find}

module _ {ℓ} {A : Type ℓ} where
  -- Insertion before the first element that does not come before `x`.
  unfoldable pub insert_by : (A → A → Bool) → A → List A → List A
  insert_by less x [] = x ∷ []
  insert_by less x (y ∷ ys) = if less y x then y ∷ insert_by less x ys else x ∷ y ∷ ys

  unfoldable pub sort_by : (A → A → Bool) → List A → List A
  unfolding insert_by
  sort_by less [] = []
  sort_by less (x ∷ xs) = insert_by less x (sort_by less xs)

  -- order by f
  abbrev pub ascending : (A → ℕ) → A → A → Bool
  ascending f x y = ltb (f x) (f y)

  -- order by f desc
  abbrev pub descending : (A → ℕ) → A → A → Bool
  descending f x y = ltb (f y) (f x)

  -- order by …, …
  abbrev pub then_by : (A → A → Bool) → (A → A → Bool) → A → A → Bool
  then_by less next x y = less x y || (not (less y x) && next x y)

  -- A weak order: asymmetric, and its incomparability is transitive.
  pub record IsWeakOrder (less : A → A → Bool) : Type ℓ where
    pub asymmetric : (x y : A) → less x y ≡ true → less y x ≡ false
    pub negative : (x y z : A) → less y x ≡ false → less z y ≡ false → less z x ≡ false

  pub ascending-IsWeakOrder : (f : A → ℕ) → IsWeakOrder (ascending f)
  ascending-IsWeakOrder f = record {
    asymmetric = λ x y h. ground arith;
    negative = λ x y z h k. ground arith;
  }

  pub descending-IsWeakOrder : (f : A → ℕ) → IsWeakOrder (descending f)
  descending-IsWeakOrder f = record {
    asymmetric = λ x y h. ground arith;
    negative = λ x y z h k. ground arith;
  }

  pub then_by-IsWeakOrder :
      (less next : A → A → Bool)
      → IsWeakOrder less
      → IsWeakOrder next
      → IsWeakOrder (then_by less next)
  then_by-IsWeakOrder less next v w = record {
    asymmetric = λ x y h.
        ground (arith, h, v.asymmetric x y, v.asymmetric y x, w.asymmetric x y, w.asymmetric y x);
    negative = λ x y z h k. ground (
      arith,
      h,
      k,
      v.negative x y z,
      v.negative z y x,
      v.negative y x z,
      v.negative y z x,
      v.asymmetric x z,
      v.asymmetric z x,
      v.negative z x y,
      v.negative x z y,
      w.negative x y z,
    );
  }

  -- No element comes before one that stands above it.
  abbrev pub Ordered : (A → A → Bool) → List A → Type ℓ
  Ordered less [] = Unit
  Ordered less (x ∷ xs) = (exists (λ y. less y x) xs ≡ false) × Ordered less xs

  exists-insert_by :
      (q : A → Bool) (less : A → A → Bool) (x : A) (xs : List A)
      → exists q (insert_by less x xs) ≡ (q x || exists q xs)
  unfolding exists insert_by
  exists-insert_by q less x [] = refl
  exists-insert_by q less x (y ∷ ys) = ground (arith, exists-insert_by q less x ys)

  pub exists-sort_by :
      (q : A → Bool) (less : A → A → Bool) (xs : List A) → exists q (sort_by less xs) ≡ exists q xs
  unfolding exists sort_by
  exists-sort_by q less [] = refl
  exists-sort_by q less (x ∷ xs) =
      ground (arith, exists-insert_by q less x (sort_by less xs), exists-sort_by q less xs)

  count-insert_by :
      (q : A → Bool) (less : A → A → Bool) (x : A) (xs : List A)
      → count q (insert_by less x xs) ≡ (if q x then 1 else 0) + count q xs
  unfolding count insert_by
  count-insert_by q less x [] = refl
  count-insert_by q less x (y ∷ ys) = ground (arith, count-insert_by q less x ys)

  pub count-sort_by :
      (q : A → Bool) (less : A → A → Bool) (xs : List A) → count q (sort_by less xs) ≡ count q xs
  unfolding count sort_by
  count-sort_by q less [] = refl
  count-sort_by q less (x ∷ xs) =
      ground (arith, count-insert_by q less x (sort_by less xs), count-sort_by q less xs)

  exists_false_mono :
      (p q : A → Bool) (xs : List A)
      → ((x : A) → q x ≡ false → p x ≡ false)
      → exists q xs ≡ false
      → exists p xs ≡ false
  unfolding exists
  exists_false_mono p q [] k h = refl
  exists_false_mono p q (x ∷ xs) k h = ground (arith, h, k x, exists_false_mono p q xs k)

  insert_by-Ordered :
      (less : A → A → Bool) (x : A) (xs : List A)
      → IsWeakOrder less
      → Ordered less xs
      → Ordered less (insert_by less x xs)
  unfolding exists insert_by
  insert_by-Ordered less x [] w o = (refl, tt)
  insert_by-Ordered less x (y ∷ ys) w (a, o) = elim (Bool-cases (less y x)) [
    | inl t ↦ rw t (
        (
          ground (arith, a, exists-insert_by (λ z. less z y) less x ys, w.asymmetric y x t),
          insert_by-Ordered less x ys w o,
        ))
    | inr f ↦ rw f (
        (
          ground (
            arith,
            f,
            exists_false_mono (λ z. less z x) (λ z. less z y) ys (λ z h. w.negative x y z f h) a,
          ),
          (a, o),
        ))
  ]

  pub sort_by-Ordered :
      (less : A → A → Bool) (xs : List A) → IsWeakOrder less → Ordered less (sort_by less xs)
  unfolding sort_by
  sort_by-Ordered less [] w = tt
  sort_by-Ordered less (x ∷ xs) w =
      insert_by-Ordered less x (sort_by less xs) w (sort_by-Ordered less xs w)

  find-insert_by :
      (q : A → Bool) (less : A → A → Bool) (x : A) (xs : List A)
      → ((y : A) → q x ≡ true → q y ≡ true → less y x ≡ false)
      → find q (insert_by less x xs) ≡ (if q x then some x else find q xs)
  unfolding find insert_by
  find-insert_by q less x [] k = refl
  find-insert_by q less x (y ∷ ys) k = ground (arith, k y, find-insert_by q less x ys k)

  -- Of elements that no order tells apart, the first stays the first.
  pub find-sort_by :
      (q : A → Bool) (less : A → A → Bool) (xs : List A)
      → ((x y : A) → q x ≡ true → q y ≡ true → less y x ≡ false)
      → find q (sort_by less xs) ≡ find q xs
  unfolding find sort_by
  find-sort_by q less [] k = refl
  find-sort_by q less (x ∷ xs) k =
      ground (arith, find-insert_by q less x (sort_by less xs) (k x), find-sort_by q less xs k)

module _ {ℓ κ} {A : Type ℓ} {B : Type κ} where
  -- The order of what the elements hold.
  pub IsWeakOrder-on :
      (f : A → B) (less : B → B → Bool)
      → IsWeakOrder less
      → IsWeakOrder (λ (x y : A). less (f x) (f y))
  IsWeakOrder-on f less w = record {
    asymmetric = λ x y. w.asymmetric (f x) (f y);
    negative = λ x y z. w.negative (f x) (f y) (f z);
  }
