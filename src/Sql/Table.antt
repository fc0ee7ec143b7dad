-- ===== src/Sql/Table.antt =====
-- The clauses of an SQL statement over a table, which is the list of its rows in the order of
-- their identity column (so `order by id` is the order of the list).
use vpsa_network_discovery.Prelude.{
  ℕ, ◌+◌, ◌≡◌, refl, inl, inr, Bool, true, false, ◌||◌, Option, none, some, List, [], ◌∷◌, ◌++◌,
  arith, if◌then◌else◌, Bool-cases,
}

module _ {ℓ} {A : Type ℓ} where
  -- select … where p
  unfoldable pub select : (A → Bool) → List A → List A
  select p [] = []
  select p (x ∷ xs) = if p x then x ∷ select p xs else select p xs

  -- update … set f where p
  unfoldable pub update : (A → Bool) → (A → A) → List A → List A
  update p f [] = []
  update p f (x ∷ xs) = (if p x then f x else x) ∷ update p f xs

  -- delete … where p
  unfoldable pub delete : (A → Bool) → List A → List A
  delete p [] = []
  delete p (x ∷ xs) = if p x then delete p xs else x ∷ delete p xs

  -- exists (select 1 … where p)
  unfoldable pub exists : (A → Bool) → List A → Bool
  exists p [] = false
  exists p (x ∷ xs) = p x || exists p xs

  -- select count(*) … where p
  unfoldable pub count : (A → Bool) → List A → ℕ
  count p [] = 0
  count p (x ∷ xs) = (if p x then 1 else 0) + count p xs

  -- The row of a lookup by a unique column.
  unfoldable pub find : (A → Bool) → List A → Option A
  find p [] = none
  find p (x ∷ xs) = if p x then some x else find p xs

module _ {ℓ} {A : Type ℓ} where
  abbrev pub or_else : Option A → Option A → Option A
  or_else none o = o
  or_else (some a) o = some a

  abbrev pub map_row : (A → A) → Option A → Option A
  map_row f none = none
  map_row f (some a) = some (f a)

  pub find-append :
      (p : A → Bool) (xs ys : List A) → find p (xs ++ ys) ≡ or_else (find p xs) (find p ys)
  unfolding find
  find-append p [] ys = refl
  find-append p (x ∷ xs) ys = ground (arith, find-append p xs ys)

  -- An update that keeps the key changes only the row found.
  pub find-update :
      (q p : A → Bool) (f : A → A) (xs : List A)
      → ((x : A) → q (f x) ≡ q x)
      → find q (update p f xs) ≡ map_row (λ x. if p x then f x else x) (find q xs)
  unfolding find update
  find-update q p f [] k = refl
  find-update q p f (x ∷ xs) k = ground (arith, k x, find-update q p f xs k)

  pub find_sound : (p : A → Bool) (xs : List A) (x : A) → find p xs ≡ some x → p x ≡ true
  unfolding find
  find_sound p [] x h = cc
  find_sound p (y ∷ ys) x h = ground (arith, find_sound p ys x)

  pub exists-find : (p : A → Bool) (xs : List A) (x : A) → find p xs ≡ some x → exists p xs ≡ true
  unfolding find exists
  exists-find p [] x h = cc
  exists-find p (y ∷ ys) x h = ground (arith, exists-find p ys x)

  -- The row found is a row.
  pub find-exists :
      (p q : A → Bool) (xs : List A) (x : A) → find p xs ≡ some x → q x ≡ true → exists q xs ≡ true
  unfolding find exists
  find-exists p q [] x h k = cc
  find-exists p q (y ∷ ys) x h k = elim (Bool-cases (p y)) [
    | inl t ↦ ground (arith, t, here t)
    | inr f ↦ ground (arith, f, find-exists p q ys x (ground (arith, f)) k)
  ]
    where
      here : p y ≡ true → y ≡ x
      here t = ground (arith, t)

  pub find-none : (p : A → Bool) (xs : List A) → exists p xs ≡ false → find p xs ≡ none
  unfolding find exists
  find-none p [] h = refl
  find-none p (y ∷ ys) h = ground (arith, find-none p ys)

  pub find-single : (p : A → Bool) (x : A) → find p (x ∷ []) ≡ (if p x then some x else none)
  unfolding find
  find-single p x = refl

  pub exists-append :
      (p : A → Bool) (xs ys : List A) → exists p (xs ++ ys) ≡ (exists p xs || exists p ys)
  unfolding exists
  exists-append p [] ys = refl
  exists-append p (x ∷ xs) ys = ground (arith, exists-append p xs ys)

  pub exists-single : (p : A → Bool) (x : A) → exists p (x ∷ []) ≡ p x
  unfolding exists
  exists-single p x = ground arith

  pub select-append :
      (p : A → Bool) (xs ys : List A) → select p (xs ++ ys) ≡ select p xs ++ select p ys
  unfolding select
  select-append p [] ys = refl
  select-append p (x ∷ xs) ys = ground (arith, select-append p xs ys)

  -- No row passes after an update that makes every row fail.
  pub select-update_none :
      (p q : A → Bool) (f : A → A) (xs : List A)
      → ((x : A) → p (if q x then f x else x) ≡ false)
      → select p (update q f xs) ≡ []
  unfolding select update
  select-update_none p q f [] k = refl
  select-update_none p q f (x ∷ xs) k = ground (arith, k x, select-update_none p q f xs k)

  pub exists-update_none :
      (p q : A → Bool) (f : A → A) (xs : List A)
      → ((x : A) → p (if q x then f x else x) ≡ false)
      → exists p (update q f xs) ≡ false
  unfolding exists update
  exists-update_none p q f [] k = refl
  exists-update_none p q f (x ∷ xs) k = ground (arith, k x, exists-update_none p q f xs k)

  -- A deletion that spares every row which `q` asks for.
  pub exists-delete :
      (q p : A → Bool) (xs : List A)
      → ((x : A) → q x ≡ true → p x ≡ false)
      → exists q (delete p xs) ≡ exists q xs
  unfolding exists delete
  exists-delete q p [] k = refl
  exists-delete q p (x ∷ xs) k = ground (arith, k x, exists-delete q p xs k)

  -- A row that meets a condition meets a weaker one.
  pub exists_mono :
      (p q : A → Bool) (xs : List A)
      → ((x : A) → p x ≡ true → q x ≡ true)
      → exists p xs ≡ true
      → exists q xs ≡ true
  unfolding exists
  exists_mono p q [] k h = cc
  exists_mono p q (x ∷ xs) k h = ground (arith, k x, exists_mono p q xs k)

  pub exists_of-find : (p : A → Bool) (xs : List A) → find p xs ≡ none → exists p xs ≡ false
  unfolding exists find
  exists_of-find p [] h = refl
  exists_of-find p (x ∷ xs) h = ground (arith, exists_of-find p xs)

  pub exists-update_same :
      (q p : A → Bool) (f : A → A) (xs : List A)
      → ((x : A) → q (f x) ≡ q x)
      → exists q (update p f xs) ≡ exists q xs
  unfolding exists update
  exists-update_same q p f [] k = refl
  exists-update_same q p f (x ∷ xs) k = ground (arith, k x, exists-update_same q p f xs k)

  pub exists-count : (p : A → Bool) (xs : List A) → count p xs ≡ 0 → exists p xs ≡ false
  unfolding exists count
  exists-count p [] h = refl
  exists-count p (x ∷ xs) h = ground (arith, exists-count p xs)

  pub find_mono_none :
      (p q : A → Bool) (xs : List A)
      → ((x : A) → q x ≡ true → p x ≡ true)
      → exists p xs ≡ false
      → exists q xs ≡ false
  unfolding exists
  find_mono_none p q [] k h = refl
  find_mono_none p q (x ∷ xs) k h = ground (arith, k x, find_mono_none p q xs k)
