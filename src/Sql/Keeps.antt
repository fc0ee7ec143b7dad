-- ===== src/Sql/Keeps.antt =====
-- What an action keeps true of the database, whether it succeeds or fails.
use vpsa_network_discovery.Prelude.{
  ◌≡◌, refl, Bool, true, false, List, [], ◌∷◌, if◌then◌else◌, sym, subst,
}
use vpsa_network_discovery.Sql.{
  Error, Result, ok, err, Conn, M, ◌>>=◌, pure, raise, exec, transact, continue, settle, run_next,
  close, recover,
}
use vpsa_network_discovery.Sql.Faults.{calm, Atomic}

pub record Keeps {ℓ} {S A : Type ℓ} (P : S → Type ℓ) (m : M S A) : Type ℓ where
  pub at : (c : Conn S) → P c.db → P (m c).1.db

module _ {ℓ} {S A : Type ℓ} (P : S → Type ℓ) where
  close_keeps : (s : S) (r : Result A) (c : Conn S) → P s → P c.db → P (close s r c).1.db
  close_keeps s (err e) c h k = h
  close_keeps s (ok a) c h k = commit_keeps c.db c.faults k
    where
      commit_keeps :
          (t : S) (fs : List Bool) → P t → P (close s (ok a) (record { db = t; faults = fs })).1.db
      commit_keeps t [] k' = k'
      commit_keeps t (true ∷ fs) k' = h
      commit_keeps t (false ∷ fs) k' = k'

module _ {ℓ} {S A : Type ℓ} {P : S → Type ℓ} where
  pub Keeps-pure : (a : A) → Keeps P (pure a)
  Keeps-pure a = record { at = λ c h. h }

  pub Keeps-raise : (e : Error) → Keeps P (raise {A = A} e)
  Keeps-raise e = record { at = λ c h. h }

  settle_keeps :
      (r : Result (A × S)) (s : S) (fs : List Bool)
      → P s
      → ((a : A) (s' : S) → r ≡ ok (a, s') → P s')
      → P (settle r s fs).1.db
  settle_keeps (ok (a, s')) s fs h k = k a s' refl
  settle_keeps (err e) s fs h k = h

  run_keeps :
      (f : S → Result (A × S)) (s : S) (fs : List Bool)
      → P s
      → ((a : A) (s' : S) → f s ≡ ok (a, s') → P s')
      → P (run_next fs f s).1.db
  run_keeps f s [] h k = settle_keeps (f s) s [] h k
  run_keeps f s (true ∷ fs) h k = h
  run_keeps f s (false ∷ fs) h k = settle_keeps (f s) s fs h k

  -- A statement.
  pub Keeps-exec :
      (f : S → Result (A × S))
      → ((s : S) (a : A) (s' : S) → P s → f s ≡ ok (a, s') → P s')
      → Keeps P (exec f)
  unfolding exec
  Keeps-exec f k = record { at = λ c h. run_keeps f c.db c.faults h (λ a s' e. k c.db a s' h e) }

  -- A transaction, by its statements.
  pub Keeps-transact : (m : M S A) → Keeps P m → Keeps P (transact m)
  unfolding transact
  Keeps-transact m k = record { at = λ c h. begin_keeps c.db c.faults h }
    where
      begin_keeps :
          (s : S) (fs : List Bool) → P s → P (transact m (record { db = s; faults = fs })).1.db
      begin_keeps s [] h =
          close_keeps P s (m (record { db = s; faults = [] })).0 _ h
            (k.at (record { db = s; faults = [] }) h)
      begin_keeps s (true ∷ fs) h = h
      begin_keeps s (false ∷ fs) h =
          close_keeps P s (m (record { db = s; faults = fs })).0 _ h
            (k.at (record { db = s; faults = fs }) h)

  -- A transaction, by its successful run on which nothing fails.
  pub Keeps-Atomic :
      (m : M S A)
      → Atomic m
      → ((s : S) (a : A) → P s → (m (calm s)).0 ≡ ok a → P (m (calm s)).1.db)
      → Keeps P m
  Keeps-Atomic m t k = record { at = λ c h. at_result c h (m c).0 refl }
    where
      at_result : (c : Conn S) → P c.db → (r : Result A) → (m c).0 ≡ r → P (m c).1.db
      at_result c h (err e) p = subst P (sym (t.nothing c e p)) h
      at_result c h (ok a) p =
          subst (λ (o : Result A × Conn S). P o.1.db) (t.whole c a p)
            (k c.db a h (rw (t.whole c a p)))

module _ {ℓ} {S A B : Type ℓ} {P : S → Type ℓ} where
  continue_keeps :
      (r : Result A) (f : A → M S B) (c : Conn S)
      → ((a : A) → Keeps P (f a))
      → P c.db
      → P (continue r f c).1.db
  continue_keeps (ok a) f c k h = (k a).at c h
  continue_keeps (err e) f c k h = h

  pub Keeps-bind :
      (m : M S A) (f : A → M S B) → Keeps P m → ((a : A) → Keeps P (f a)) → Keeps P (m >>= f)
  Keeps-bind m f km kf = record { at = λ c h. continue_keeps (m c).0 f (m c).1 kf (km.at c h) }

module _ {ℓ} {S A : Type ℓ} {P : S → Type ℓ} where
  pub Keeps-recover : (e : Error) (m : M S A) → Keeps P m → Keeps P (recover e m)
  Keeps-recover e m k = record { at = λ c h. k.at c h }

  pub Keeps-if : (b : Bool) (m n : M S A) → Keeps P m → Keeps P n → Keeps P (if b then m else n)
  Keeps-if true m n km kn = km
  Keeps-if false m n km kn = kn

-- A predicate of the database that a statement leaves.
abbrev pub Leaves {ℓ} : {S A : Type ℓ} → (S → Type ℓ) → Result (A × S) → Type ℓ
Leaves P (ok (a, s)) = P s
Leaves P (err e) = Unit

module _ {ℓ} {S A : Type ℓ} (P : S → Type ℓ) where
  Leaves-ok : (r : Result (A × S)) (a : A) (s : S) → r ≡ ok (a, s) → Leaves P r → P s
  Leaves-ok (ok (b, t)) a s e h = subst P (snd_eq e) h
    where
      snd_eq : ◌≡◌ {A = Result (A × S)} (ok (b, t)) (ok (a, s)) → t ≡ s
      snd_eq q = cc
  Leaves-ok (err f) a s e h = absurd (no_ok e)
    where
      no_ok : ◌≡◌ {A = Result (A × S)} (err f) (ok (a, s)) → ⊥
      no_ok q = cc

module _ {ℓ} {S A : Type ℓ} {P : S → Type ℓ} where
  -- A statement, by what it computes to.
  pub Keeps-leaves : (f : S → Result (A × S)) → ((s : S) → P s → Leaves P (f s)) → Keeps P (exec f)
  Keeps-leaves f k = Keeps-exec f (λ s a s' h e. Leaves-ok P (f s) a s' e (k s h))

pub ruleset keeps_rules =
    (Keeps-pure, Keeps-raise, Keeps-bind, Keeps-if, Keeps-recover, Keeps-transact)
