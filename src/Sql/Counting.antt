-- ===== src/Sql/Counting.antt =====
-- Counts and existence across updates, insertions and selections.
use vpsa_network_discovery.Prelude.{
  ℕ, zero, suc, ◌+◌, ◌≤◌, ◌≡◌, refl, Bool, true, false, not, ◌&&◌, List, [], ◌∷◌, ◌++◌, map, arith,
  if◌then◌else◌, take,
}
use vpsa_network_discovery.Sql.Table.{select, update, delete, exists, count}

module _ {ℓ} {A : Type ℓ} where
  pub exists-update_mono :
      (q p : A → Bool) (f : A → A) (xs : List A)
      → ((x : A) → q x ≡ true → q (if p x then f x else x) ≡ true)
      → exists q xs ≡ true
      → exists q (update p f xs) ≡ true
  unfolding exists update
  exists-update_mono q p f [] k h = cc
  exists-update_mono q p f (x ∷ xs) k h = ground (arith, k x, exists-update_mono q p f xs k)

  pub exists-update_back :
      (q p : A → Bool) (f : A → A) (xs : List A)
      → ((x : A) → q (if p x then f x else x) ≡ true → q x ≡ true)
      → exists q (update p f xs) ≡ true
      → exists q xs ≡ true
  unfolding exists update
  exists-update_back q p f [] k h = cc
  exists-update_back q p f (x ∷ xs) k h = ground (arith, k x, exists-update_back q p f xs k)

  -- What a row after the update says of the row before it.
  pub exists-update_from :
      (q r p : A → Bool) (f : A → A) (xs : List A)
      → ((x : A) → q (if p x then f x else x) ≡ true → r x ≡ true)
      → exists q (update p f xs) ≡ true
      → exists r xs ≡ true
  unfolding exists update
  exists-update_from q r p f [] k h = cc
  exists-update_from q r p f (x ∷ xs) k h = ground (arith, k x, exists-update_from q r p f xs k)

  -- What a row before the update makes of the row after it.
  pub exists-update_to :
      (q r p : A → Bool) (f : A → A) (xs : List A)
      → ((x : A) → q x ≡ true → r (if p x then f x else x) ≡ true)
      → exists q xs ≡ true
      → exists r (update p f xs) ≡ true
  unfolding exists update
  exists-update_to q r p f [] k h = cc
  exists-update_to q r p f (x ∷ xs) k h = ground (arith, k x, exists-update_to q r p f xs k)

  pub count-update_same :
      (q p : A → Bool) (f : A → A) (xs : List A)
      → ((x : A) → q (f x) ≡ q x)
      → count q (update p f xs) ≡ count q xs
  unfolding count update
  count-update_same q p f [] k = refl
  count-update_same q p f (x ∷ xs) k = ground (arith, k x, count-update_same q p f xs k)

  pub count-update-le :
      (q p : A → Bool) (f : A → A) (xs : List A)
      → ((x : A) → q (if p x then f x else x) ≡ true → q x ≡ true)
      → count q (update p f xs) ≤ count q xs
  unfolding count update
  count-update-le q p f [] k = omega arith
  count-update-le q p f (x ∷ xs) k = ground (arith, k x, count-update-le q p f xs k)

  pub count-append : (q : A → Bool) (xs ys : List A) → count q (xs ++ ys) ≡ count q xs + count q ys
  unfolding count
  count-append q [] ys = omega arith
  count-append q (x ∷ xs) ys = ground (arith, count-append q xs ys)

  pub exists-count_pos : (q : A → Bool) (xs : List A) → exists q xs ≡ true → 1 ≤ count q xs
  unfolding count exists
  exists-count_pos q [] h = cc
  exists-count_pos q (x ∷ xs) h = ground (arith, exists-count_pos q xs)

  pub count_none : (q : A → Bool) (xs : List A) → exists q xs ≡ false → count q xs ≡ 0
  unfolding count exists
  count_none q [] h = refl
  count_none q (x ∷ xs) h = ground (arith, count_none q xs)

  exists_weaken :
      (p q : A → Bool) (xs : List A)
      → ((x : A) → p x ≡ true → q x ≡ true)
      → exists p xs ≡ true
      → exists q xs ≡ true
  unfolding exists
  exists_weaken p q [] k h = cc
  exists_weaken p q (x ∷ xs) k h = ground (arith, k x, exists_weaken p q xs k)

  -- Two rows apart.
  pub count_two :
      (p q r : A → Bool) (xs : List A)
      → ((x : A) → p x ≡ true → r x ≡ true)
      → ((x : A) → q x ≡ true → r x ≡ true)
      → ((x : A) → p x ≡ true → q x ≡ false)
      → exists p xs ≡ true
      → exists q xs ≡ true
      → 2 ≤ count r xs
  unfolding count exists
  count_two p q r [] kp kq d hp hq = cc
  count_two p q r (x ∷ xs) kp kq d hp hq = ground (
    arith,
    kp x,
    kq x,
    d x,
    count_two p q r xs kp kq d,
    exists-count_pos r xs,
    exists_weaken p r xs kp,
    exists_weaken q r xs kq,
  )

  pub count_mono :
      (p q : A → Bool) (xs : List A) → ((x : A) → p x ≡ true → q x ≡ true) → count p xs ≤ count q xs
  unfolding count
  count_mono p q [] k = omega arith
  count_mono p q (x ∷ xs) k = ground (arith, k x, count_mono p q xs k)

  -- For the rows of the list itself.
  pub count-within :
      (p q : A → Bool) (xs : List A)
      → ((x : A) → ((r : A → Bool) → r x ≡ true → exists r xs ≡ true) → p x ≡ true → q x ≡ true)
      → count p xs ≤ count q xs
  unfolding count exists
  count-within p q [] k = omega arith
  count-within p q (x ∷ xs) k = ground (
    arith,
    k x (λ r h. ground arith),
    count-within p q xs (λ y m. k y (λ r h. ground (arith, m r h))),
  )

  pub count-select-le : (q p : A → Bool) (xs : List A) → count q (select p xs) ≤ count q xs
  unfolding count select
  count-select-le q p [] = omega arith
  count-select-le q p (x ∷ xs) = ground (arith, count-select-le q p xs)

  pub count-select :
      (q p : A → Bool) (xs : List A) → count q (select p xs) ≡ count (λ x. q x && p x) xs
  unfolding count select
  count-select q p [] = refl
  count-select q p (x ∷ xs) = ground (arith, count-select q p xs)

  pub exists-select_eq :
      (q p : A → Bool) (xs : List A) → exists q (select p xs) ≡ exists (λ x. q x && p x) xs
  unfolding exists select
  exists-select_eq q p [] = refl
  exists-select_eq q p (x ∷ xs) = ground (arith, exists-select_eq q p xs)

  -- The rows of a condition, apart by another.
  pub count-split :
      (q p : A → Bool) (xs : List A)
      → count q xs ≡ count (λ x. q x && p x) xs + count (λ x. q x && not (p x)) xs
  unfolding count
  count-split q p [] = refl
  count-split q p (x ∷ xs) = ground (arith, count-split q p xs)

  pub count-delete-le : (q p : A → Bool) (xs : List A) → count q (delete p xs) ≤ count q xs
  unfolding count delete
  count-delete-le q p [] = omega arith
  count-delete-le q p (x ∷ xs) = ground (arith, count-delete-le q p xs)

  pub count-delete_none :
      (q p : A → Bool) (xs : List A)
      → ((x : A) → q x ≡ true → p x ≡ true)
      → count q (delete p xs) ≡ 0
  unfolding count delete
  count-delete_none q p [] k = refl
  count-delete_none q p (x ∷ xs) k = ground (arith, k x, count-delete_none q p xs k)

  pub exists-delete_back :
      (q p : A → Bool) (xs : List A) → exists q (delete p xs) ≡ true → exists q xs ≡ true
  unfolding exists delete
  exists-delete_back q p [] h = h
  exists-delete_back q p (x ∷ xs) h = ground (arith, h, exists-delete_back q p xs)

  pub exists_of-count : (q : A → Bool) (xs : List A) → 1 ≤ count q xs → exists q xs ≡ true
  unfolding count exists
  exists_of-count q [] h = absurd (omega arith)
  exists_of-count q (x ∷ xs) h = ground (arith, h, exists_of-count q xs)

  pub count-take-le : (q : A → Bool) (n : ℕ) (xs : List A) → count q (take n xs) ≤ count q xs
  unfolding count
  count-take-le q zero xs = omega arith
  count-take-le q (suc n) [] = omega arith
  count-take-le q (suc n) (x ∷ xs) = ground (arith, count-take-le q n xs)

  pub exists-select :
      (q p : A → Bool) (xs : List A) → exists q (select p xs) ≡ true → exists q xs ≡ true
  unfolding exists select
  exists-select q p [] h = cc
  exists-select q p (x ∷ xs) h = ground (arith, exists-select q p xs)

  pub exists-select_and :
      (q p : A → Bool) (xs : List A)
      → exists q (select p xs) ≡ true
      → exists (λ x. p x && q x) xs ≡ true
  unfolding exists select
  exists-select_and q p [] h = cc
  exists-select_and q p (x ∷ xs) h = ground (arith, exists-select_and q p xs)

  pub exists-take :
      (q : A → Bool) (n : ℕ) (xs : List A) → exists q (take n xs) ≡ true → exists q xs ≡ true
  unfolding exists
  exists-take q zero xs h = cc
  exists-take q (suc n) [] h = cc
  exists-take q (suc n) (x ∷ xs) h = ground (arith, exists-take q n xs)

module _ {ℓ κ} {A : Type ℓ} {B : Type κ} where
  pub count-map :
      (q : B → Bool) (f : A → B) (xs : List A) → count q (map f xs) ≡ count (λ x. q (f x)) xs
  unfolding count
  count-map q f [] = refl
  count-map q f (x ∷ xs) = ground (arith, count-map q f xs)

  pub exists-map :
      (q : B → Bool) (f : A → B) (xs : List A) → exists q (map f xs) ≡ exists (λ x. q (f x)) xs
  unfolding exists
  exists-map q f [] = refl
  exists-map q f (x ∷ xs) = ground (arith, exists-map q f xs)
