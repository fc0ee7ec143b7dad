-- ===== src/Sql/Faults.antt =====
-- What holds of every statement and transaction, whichever of its steps fail.
use vpsa_network_discovery.Prelude.{
  ◌≡◌, refl, Bool, true, false, List, [], ◌∷◌, arith, if◌then◌else◌,
}
use vpsa_network_discovery.Sql.{
  Error, Result, ok, err, Conn, M, ◌>>=◌, pure, raise, exec, transact, body,
}

-- A connection on which nothing fails.
abbrev pub calm {ℓ} : {S : Type ℓ} → S → Conn S
calm s = record { db = s; faults = [] }

-- The outcome of a run, failures aside.
abbrev pub Same {ℓ} : {S A : Type ℓ} → M S A → Conn S → A → Type ℓ
Same m c a = m (calm c.db) ≡ (ok a, calm (m c).1.db)

-- A success is the success of the run on which nothing fails, and leaves the same database.
pub record Steady {ℓ} {S A : Type ℓ} (m : M S A) : Type ℓ where
  pub at : (c : Conn S) (a : A) → (m c).0 ≡ ok a → Same m c a

module _ {ℓ} {S A : Type ℓ} where
  pub Steady-pure : (a : A) → Steady {S = S} (pure a)
  Steady-pure a = record { at = λ c b h. ground arith }

  pub Steady-raise : (e : Error) → Steady {S = S} {A = A} (raise e)
  Steady-raise e = record { at = λ c b h. cc }

  pub Steady-exec : (f : S → Result (A × S)) → Steady (exec f)
  unfolding exec
  Steady-exec f = record { at = λ c a h. ground arith }

  Steady-body :
      (m : M S A) → Steady m → (c : Conn S) (a : A) → (body m c).0 ≡ ok a → Same (body m) c a
  Steady-body m k c a h = ground (arith, k.at c a)

  from_faults :
      (m : M S A)
      → Steady m
      → (s : S) (fs : List Bool) (a : A) → (transact m (record { db = s; faults = fs })).0 ≡ ok a
      → Same (transact m) (record { db = s; faults = fs }) a
  unfolding transact
  from_faults m k s [] a h = Steady-body m k (calm s) a h
  from_faults m k s (true ∷ fs) a h = cc
  from_faults m k s (false ∷ fs) a h = Steady-body m k (record { db = s; faults = fs }) a h

  pub Steady-transact : (m : M S A) → Steady m → Steady (transact m)
  Steady-transact m k = record { at = λ c a h. from_faults m k c.db c.faults a h }

  -- Atomicity: a transaction that reports an error has changed nothing, whichever step failed.
  pub transact-err :
      (m : M S A) (c : Conn S) (e : Error) → (transact m c).0 ≡ err e → (transact m c).1.db ≡ c.db
  unfolding transact
  transact-err m c e h = ground arith

module _ {ℓ} {S A B : Type ℓ} where
  pub Steady-bind :
      (m : M S A) (f : A → M S B) → Steady m → ((a : A) → Steady (f a)) → Steady (m >>= f)
  Steady-bind m f km kf = record { at = λ c b h. bind_at c b (m c).0 refl h }
    where
      bind_at :
          (c : Conn S) (b : B) (r : Result A)
          → (m c).0 ≡ r
          → ((m >>= f) c).0 ≡ ok b
          → Same (m >>= f) c b
      bind_at c b (err e) p h = ground arith
      bind_at c b (ok a) p h = ground (arith, km.at c a p, (kf a).at (m c).1 b)

pub ruleset steady_rules = (Steady-pure, Steady-raise, Steady-exec, Steady-transact, Steady-bind)

module _ {ℓ} {S A : Type ℓ} where
  pub Steady-if : (b : Bool) (m n : M S A) → Steady m → Steady n → Steady (if b then m else n)
  Steady-if true m n km kn = km
  Steady-if false m n km kn = kn

-- An action that is one transaction: it happens whole, as if nothing had failed, or not at all.
pub record Atomic {ℓ} {S A : Type ℓ} (m : M S A) : Type ℓ where
  pub whole : (c : Conn S) (a : A) → (m c).0 ≡ ok a → Same m c a
  pub nothing : (c : Conn S) (e : Error) → (m c).0 ≡ err e → (m c).1.db ≡ c.db

module _ {ℓ} {S A : Type ℓ} where
  pub Atomic-transact : (m : M S A) → Steady m → Atomic (transact m)
  Atomic-transact m k = record { whole = (Steady-transact m k).at; nothing = transact-err m }

  pub Atomic-raise : (e : Error) → Atomic {S = S} {A = A} (raise e)
  Atomic-raise e = record { whole = λ c a h. cc; nothing = λ c f h. refl }

  pub Atomic-if : (b : Bool) (m n : M S A) → Atomic m → Atomic n → Atomic (if b then m else n)
  Atomic-if true m n km kn = km
  Atomic-if false m n km kn = kn

  pub Steady-Atomic : (m : M S A) → Atomic m → Steady m
  Steady-Atomic m k = record { at = k.whole }
