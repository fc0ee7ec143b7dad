-- ===== src/Sql.antt =====
-- PostgreSQL as the program uses it: statements that may fail, and transactions.
pub mod Table
pub mod Counting
pub mod Faults
pub mod Calm
pub mod Keeps
pub mod Hoare
pub mod Triple
use vpsa_network_discovery.Prelude.{
  ◌≡◌, refl, ◌⊎◌, inl, inr, Bool, true, false, List, [], ◌∷◌, arith, if◌then◌else◌,
}

-- The errors that the program tells apart: any failure of the database, and its own.
pub data Error : Type 0 where
  db_error bad_token unknown_worker bad_transition bad_token_hash : Error

pub data Result {ℓ} (A : Type ℓ) : Type ℓ where
  ok : A → Result A
  err : Error → Result A

-- A connection: the database, and for each statement to come whether it fails (none left: no
-- further failure). Nothing is assumed of the failures.
pub record Conn {ℓ} (S : Type ℓ) : Type ℓ where
  pub db : S
  pub faults : List Bool

abbrev pub M {ℓ} : Type ℓ → Type ℓ → Type ℓ
M S A = Conn S → Result A × Conn S

module _ {ℓ} {S A B : Type ℓ} where
  abbrev pub continue : Result A → (A → M S B) → Conn S → Result B × Conn S
  continue (ok a) f c = f a c
  continue (err e) f c = (err e, c)

  infixl 10 ◌>>=◌ ◌>>◌
  abbrev pub ◌>>=◌ : M S A → (A → M S B) → M S B
  ◌>>=◌ m f c = let (r, c') = m c in continue r f c'

  abbrev pub ◌>>◌ : M S A → M S B → M S B
  m >> n = m >>= λ _. n

-- The caller answers any error with the error `e`.
abbrev pub renamed {ℓ} : {A : Type ℓ} → Error → Result A → Result A
renamed e (ok a) = ok a
renamed e (err f) = err e

module _ {ℓ} {S A : Type ℓ} where
  abbrev pub pure : A → M S A
  pure a c = (ok a, c)

  abbrev pub raise : Error → M S A
  raise e c = (err e, c)

  abbrev pub recover : Error → M S A → M S A
  recover e m c = let (r, c') = m c in (renamed e r, c')

  -- A statement that violates a constraint is an error and changes nothing.
  abbrev pub settle : Result (A × S) → S → List Bool → Result A × Conn S
  settle (ok (a, s')) s fs = (ok a, record { db = s'; faults = fs })
  settle (err e) s fs = (err e, record { db = s; faults = fs })

  abbrev pub run_next : List Bool → (S → Result (A × S)) → S → Result A × Conn S
  run_next [] f s = settle (f s) s []
  run_next (true ∷ fs) f s = (err db_error, record { db = s; faults = fs })
  run_next (false ∷ fs) f s = settle (f s) s fs

  -- Exec and QueryRow: one statement, which fails or runs.
  unfoldable pub exec : (S → Result (A × S)) → M S A
  exec f c = run_next c.faults f c.db

  -- Commit, which may fail too; `defer tx.Rollback` restores the database on every error. A Commit
  -- that the server carries out although its answer is lost is not modelled.
  abbrev pub close : S → Result A → Conn S → Result A × Conn S
  close s (ok a) c = elim c.faults [
    | [] ↦ (ok a, c)
    | failed ∷ fs ↦
        if failed
        then (err db_error, record { db = s; faults = fs })
        else (ok a, record { db = c.db; faults = fs })
  ]
  close s (err e) c = (err e, record { db = s; faults = c.faults })

  abbrev pub body : M S A → Conn S → Result A × Conn S
  body m c = let (r, c') = m c in close c.db r c'

  -- Begin, the body, Commit or Rollback.
  unfoldable pub transact : M S A → M S A
  transact m c = elim c.faults [
    | [] ↦ body m c
    | failed ∷ fs ↦
        if failed
        then (err db_error, record { db = c.db; faults = fs })
        else body m (record { db = c.db; faults = fs })
  ]
