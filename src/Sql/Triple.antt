-- ===== src/Sql/Triple.antt =====
-- What an action leaves with its result when it succeeds, and when it fails.
use vpsa_network_discovery.Prelude.{Bool, true, false, List, [], ◌∷◌, if◌then◌else◌}
use vpsa_network_discovery.Sql.{
  Error, Result, ok, err, Conn, M, ◌>>=◌, pure, raise, exec, transact, close, continue, settle,
  run_next,
}
use vpsa_network_discovery.Sql.Keeps.{Keeps}
use vpsa_network_discovery.Sql.Hoare.{LeavesWith}

abbrev pub PostWith {ℓ} :
    {S A : Type ℓ} → (A → S → Type ℓ) → (S → Type ℓ) → Result A → Conn S → Type ℓ
PostWith Q E (ok a) c = Q a c.db
PostWith Q E (err e) c = E c.db

-- From `P`, a success leaves `Q` of its result and an error `E`.
pub record Triple {ℓ} {S A : Type ℓ} (P : S → Type ℓ) (Q : A → S → Type ℓ) (E : S → Type ℓ)
    (m : M S A) : Type ℓ where
  pub at : (c : Conn S) → P c.db → PostWith Q E (m c).0 (m c).1

module _ {ℓ} {S A : Type ℓ} (Q : A → S → Type ℓ) (E : S → Type ℓ) where
  settled :
      (r : Result (A × S)) (s : S) (fs : List Bool)
      → E s
      → LeavesWith Q r
      → PostWith Q E (settle r s fs).0 (settle r s fs).1
  settled (ok (a, s')) s fs e l = l
  settled (err x) s fs e l = e

  ran :
      (f : S → Result (A × S)) (s : S) (fs : List Bool)
      → E s
      → LeavesWith Q (f s)
      → PostWith Q E (run_next fs f s).0 (run_next fs f s).1
  ran f s [] e l = settled (f s) s [] e l
  ran f s (true ∷ fs) e l = e
  ran f s (false ∷ fs) e l = settled (f s) s fs e l

module _ {ℓ} {S A : Type ℓ} {P : S → Type ℓ} {Q : A → S → Type ℓ} {E : S → Type ℓ} where
  pub Triple-pure : (a : A) → ((s : S) → P s → Q a s) → Triple P Q E (pure a)
  Triple-pure a k = record { at = λ c h. k c.db h }

  pub Triple-raise : (e : Error) → ((s : S) → P s → E s) → Triple P Q E (raise e)
  Triple-raise e k = record { at = λ c h. k c.db h }

  pub Triple-if :
      (b : Bool) (m n : M S A) → Triple P Q E m → Triple P Q E n → Triple P Q E (if b then m else n)
  Triple-if true m n km kn = km
  Triple-if false m n km kn = kn

  pub Triple-exec :
      (f : S → Result (A × S))
      → ((s : S) → P s → E s)
      → ((s : S) → P s → LeavesWith Q (f s))
      → Triple P Q E (exec f)
  unfolding exec
  Triple-exec f w k = record { at = λ c h. ran Q E f c.db c.faults (w c.db h) (k c.db h) }

module _ {ℓ} {S A : Type ℓ} (Q : A → S → Type ℓ) (E F : S → Type ℓ) where
  closed :
      (s : S) (r : Result A) (c : Conn S)
      → E s
      → PostWith Q F r c
      → PostWith Q E (close s r c).0 (close s r c).1
  closed s (err e) c h k = h
  closed s (ok a) c h k = committed c.db c.faults k
    where
      committed :
          (t : S) (fs : List Bool)
          → Q a t
          → PostWith Q E
              (close s (ok a) (record { db = t; faults = fs })).0
              (close s (ok a) (record { db = t; faults = fs })).1
      committed t [] k' = k'
      committed t (true ∷ fs) k' = h
      committed t (false ∷ fs) k' = k'

module _ {ℓ} {S A : Type ℓ} {P : S → Type ℓ} {Q : A → S → Type ℓ} {E : S → Type ℓ} where
  pub Triple-transact :
      {F : S → Type ℓ} (m : M S A)
      → ((s : S) → P s → E s)
      → Triple P Q F m
      → Triple P Q E (transact m)
  unfolding transact
  Triple-transact {F} m w k = record { at = λ c h. begun c.db c.faults h }
    where
      begun :
          (s : S) (fs : List Bool)
          → P s
          → PostWith Q E
              (transact m (record { db = s; faults = fs })).0
              (transact m (record { db = s; faults = fs })).1
      begun s [] h =
          closed Q E F s (m (record { db = s; faults = [] })).0 _ (w s h)
            (k.at (record { db = s; faults = [] }) h)
      begun s (true ∷ fs) h = w s h
      begun s (false ∷ fs) h =
          closed Q E F s (m (record { db = s; faults = fs })).0 _ (w s h)
            (k.at (record { db = s; faults = fs }) h)

module _ {ℓ} {S A B : Type ℓ} (Q : A → S → Type ℓ) (R : B → S → Type ℓ) (E : S → Type ℓ) where
  continued :
      (r : Result A) (c : Conn S) (f : A → M S B)
      → ((a : A) → Triple (Q a) R E (f a))
      → PostWith Q E r c
      → PostWith R E (continue r f c).0 (continue r f c).1
  continued (ok a) c f k h = (k a).at c h
  continued (err e) c f k h = h

module _ {ℓ} {S A B : Type ℓ} {P : S → Type ℓ} {Q : A → S → Type ℓ} {R : B → S → Type ℓ}
    {E : S → Type ℓ} where
  pub Triple-bind :
      (m : M S A) (f : A → M S B)
      → Triple P Q E m
      → ((a : A) → Triple (Q a) R E (f a))
      → Triple P R E (m >>= f)
  Triple-bind m f km kf = record { at = λ c h. continued Q R E (m c).0 (m c).1 f kf (km.at c h) }

module _ {ℓ} {S A : Type ℓ} {P : S → Type ℓ} where
  -- An action that keeps a predicate.
  pub Triple-Keeps : (m : M S A) → Keeps P m → Triple P (λ a. P) P m
  Triple-Keeps m k = record { at = λ c h. kept (m c).0 (m c).1 (k.at c h) }
    where
      kept : (r : Result A) (c : Conn S) → P c.db → PostWith (λ (a : A). P) P r c
      kept (ok a) c h = h
      kept (err e) c h = h

module _ {ℓ} {S A : Type ℓ} {P : S → Type ℓ} where
  pub Keeps-Triple : (m : M S A) → Triple P (λ a. P) P m → Keeps P m
  Keeps-Triple m k = record { at = λ c h. either (m c).0 (m c).1 (k.at c h) }
    where
      either : (r : Result A) (c : Conn S) → PostWith (λ (a : A). P) P r c → P c.db
      either (ok a) c h = h
      either (err e) c h = h

module _ {ℓ} {S A : Type ℓ} {P P' : S → Type ℓ} {Q Q' : A → S → Type ℓ} {E E' : S → Type ℓ} where
  pub Triple-weaken :
      (m : M S A)
      → ((s : S) → P' s → P s)
      → ((a : A) (s : S) → Q a s → Q' a s)
      → ((s : S) → E s → E' s)
      → Triple P Q E m
      → Triple P' Q' E' m
  Triple-weaken m p q e k = record { at = λ c h. weaker (m c).0 (m c).1 (k.at c (p c.db h)) }
    where
      weaker : (r : Result A) (c : Conn S) → PostWith Q E r c → PostWith Q' E' r c
      weaker (ok a) c h = q a c.db h
      weaker (err x) c h = e c.db h

module _ {ℓ} {S A : Type ℓ} {P R : S → Type ℓ} {Q : A → S → Type ℓ} {E : S → Type ℓ} where
  pub Triple-and :
      (m : M S A)
      → Triple P Q E m
      → Keeps R m
      → Triple (λ s. P s × R s) (λ a s. Q a s × R s) (λ s. E s × R s) m
  Triple-and m k l = record { at = λ c h. both (m c).0 (m c).1 (k.at c h.0) (l.at c h.1) }
    where
      both :
          (r : Result A) (c : Conn S)
          → PostWith Q E r c
          → R c.db
          → PostWith (λ a s. Q a s × R s) (λ s. E s × R s) r c
      both (ok a) c h k = (h, k)
      both (err e) c h k = (h, k)
