-- ===== src/Sql/Hoare.antt =====
-- What an action leaves when it succeeds, and when it fails.
use vpsa_network_discovery.Prelude.{Bool, true, false, List, [], ◌∷◌, if◌then◌else◌}
use vpsa_network_discovery.Sql.{
  Result, ok, err, Conn, M, ◌>>=◌, exec, transact, close, continue, settle, run_next,
}
use vpsa_network_discovery.Sql.Keeps.{Keeps, Leaves}

-- What holds after a success, and after an error.
abbrev pub Post {ℓ} : {S A : Type ℓ} → (S → Type ℓ) → (S → Type ℓ) → Result A → Conn S → Type ℓ
Post Q E (ok a) c = Q c.db
Post Q E (err e) c = E c.db

-- From `P`, a success leaves `Q` and an error `E`.
pub record Hoare {ℓ} {S A : Type ℓ} (P Q E : S → Type ℓ) (m : M S A) : Type ℓ where
  pub at : (c : Conn S) → P c.db → Post Q E (m c).0 (m c).1

module _ {ℓ} {S A : Type ℓ} (P Q E : S → Type ℓ) where
  settle-Post :
      (r : Result (A × S)) (s : S) (fs : List Bool)
      → E s
      → Leaves Q r
      → Post Q E (settle r s fs).0 (settle r s fs).1
  settle-Post (ok (a, s')) s fs h k = k
  settle-Post (err e) s fs h k = h

  run-Post :
      (f : S → Result (A × S)) (s : S) (fs : List Bool)
      → E s
      → Leaves Q (f s)
      → Post Q E (run_next fs f s).0 (run_next fs f s).1
  run-Post f s [] h k = settle-Post (f s) s [] h k
  run-Post f s (true ∷ fs) h k = h
  run-Post f s (false ∷ fs) h k = settle-Post (f s) s fs h k

module _ {ℓ} {S A : Type ℓ} {P Q E : S → Type ℓ} where
  pub Hoare-exec :
      (f : S → Result (A × S))
      → ((s : S) → P s → E s)
      → ((s : S) → P s → Leaves Q (f s))
      → Hoare P Q E (exec f)
  unfolding exec
  Hoare-exec f w k = record { at = λ c h. run-Post P Q E f c.db c.faults (w c.db h) (k c.db h) }

module _ {ℓ} {S A : Type ℓ} (P : S → Type ℓ) where
  either-Post : (r : Result A) (c : Conn S) → P c.db → Post P P r c
  either-Post (ok a) c h = h
  either-Post (err e) c h = h

  post_either : (r : Result A) (c : Conn S) → Post P P r c → P c.db
  post_either (ok a) c h = h
  post_either (err e) c h = h

module _ {ℓ} {S A : Type ℓ} {P : S → Type ℓ} where
  pub Hoare-Keeps : (m : M S A) → Keeps P m → Hoare P P P m
  Hoare-Keeps m k = record { at = λ c h. either-Post P (m c).0 (m c).1 (k.at c h) }

  -- What is known before may be used to show that the action keeps `P`.
  pub Hoare-given : {Q : S → Type ℓ} (m : M S A) → ((s : S) → Q s → P s × Keeps P m) → Hoare Q P P m
  Hoare-given m k = record {
    at = λ c h. let (p, q) = k c.db h in either-Post P (m c).0 (m c).1 (q.at c p);
  }

  pub Keeps-Hoare : (m : M S A) → Hoare P P P m → Keeps P m
  Keeps-Hoare m k = record { at = λ c h. post_either P (m c).0 (m c).1 (k.at c h) }

module _ {ℓ} {S A : Type ℓ} {P Q : S → Type ℓ} where
  -- What is left in either case.
  pub Hoare-either : (m : M S A) → Hoare P Q Q m → (c : Conn S) → P c.db → Q (m c).1.db
  Hoare-either m k c h = post_either Q (m c).0 (m c).1 (k.at c h)

module _ {ℓ} {S A B : Type ℓ} (Q R E : S → Type ℓ) where
  continue-Post :
      (r : Result A) (c : Conn S) (f : A → M S B)
      → ((a : A) → Hoare Q R E (f a))
      → Post Q E r c
      → Post R E (continue r f c).0 (continue r f c).1
  continue-Post (ok a) c f k h = (k a).at c h
  continue-Post (err e) c f k h = h

module _ {ℓ} {S A B : Type ℓ} {P Q R E : S → Type ℓ} where
  pub Hoare-bind :
      (m : M S A) (f : A → M S B)
      → Hoare P Q E m
      → ((a : A) → Hoare Q R E (f a))
      → Hoare P R E (m >>= f)
  Hoare-bind m f km kf = record { at = λ c h. continue-Post Q R E (m c).0 (m c).1 f kf (km.at c h) }

module _ {ℓ} {S A B : Type ℓ} {P R E : S → Type ℓ} where
  -- A query: what follows starts from what was read.
  pub Hoare-read :
      (g : S → A) (Q : A → S → Type ℓ) (f : A → M S B)
      → ((s : S) → P s → E s)
      → ((s : S) → P s → Q (g s) s)
      → ((a : A) → Hoare (Q a) R E (f a))
      → Hoare P R E (exec (λ s. ok (g s, s)) >>= f)
  unfolding exec
  Hoare-read g Q f w q k = record { at = λ c h. run_read c.db c.faults h }
    where
      run_read :
          (s : S) (fs : List Bool)
          → P s
          → Post R E
              (continue
                (run_next fs (λ t. ok (g t, t)) s).0
                f
                (run_next fs (λ t. ok (g t, t)) s).1).0
              (continue
                (run_next fs (λ t. ok (g t, t)) s).0
                f
                (run_next fs (λ t. ok (g t, t)) s).1).1
      run_read s [] h = (k (g s)).at (record { db = s; faults = [] }) (q s h)
      run_read s (true ∷ fs) h = w s h
      run_read s (false ∷ fs) h = (k (g s)).at (record { db = s; faults = fs }) (q s h)

-- A result and the database that a statement leaves with it.
abbrev pub LeavesWith {ℓ} : {S A : Type ℓ} → (A → S → Type ℓ) → Result (A × S) → Type ℓ
LeavesWith Q (ok (a, s)) = Q a s
LeavesWith Q (err e) = Unit

module _ {ℓ} {S A : Type ℓ} (Q : A → S → Type ℓ) where
  -- A constraint that is checked first.
  pub LeavesWith-if :
      (b : Bool) (r r' : Result (A × S))
      → LeavesWith Q r
      → LeavesWith Q r'
      → LeavesWith Q (if b then r else r')
  LeavesWith-if true r r' k k' = k
  LeavesWith-if false r r' k k' = k'

module _ {ℓ} {S A B : Type ℓ} {P R E : S → Type ℓ} where
  -- A statement whose result is used.
  pub Hoare-then :
      (g : S → Result (A × S)) (Q : A → S → Type ℓ) (f : A → M S B)
      → ((s : S) → P s → E s)
      → ((s : S) → P s → LeavesWith Q (g s))
      → ((a : A) → Hoare (Q a) R E (f a))
      → Hoare P R E (exec g >>= f)
  unfolding exec
  Hoare-then g Q f w q k = record { at = λ c h. run c.db c.faults h }
    where
      settled :
          (r : Result (A × S)) (s : S) (fs : List Bool)
          → E s
          → LeavesWith Q r
          → Post R E
              (continue (settle r s fs).0 f (settle r s fs).1).0
              (continue (settle r s fs).0 f (settle r s fs).1).1
      settled (ok (a, s')) s fs e l = (k a).at (record { db = s'; faults = fs }) l
      settled (err x) s fs e l = e

      run :
          (s : S) (fs : List Bool)
          → P s
          → Post R E
              (continue (run_next fs g s).0 f (run_next fs g s).1).0
              (continue (run_next fs g s).0 f (run_next fs g s).1).1
      run s [] h = settled (g s) s [] (w s h) (q s h)
      run s (true ∷ fs) h = w s h
      run s (false ∷ fs) h = settled (g s) s fs (w s h) (q s h)

module _ {ℓ} {S A : Type ℓ} (Q E F : S → Type ℓ) where
  close-Post :
      (s : S) (r : Result A) (c : Conn S)
      → E s
      → Post Q F r c
      → Post Q E (close s r c).0 (close s r c).1
  close-Post s (err e) c h k = h
  close-Post s (ok a) c h k = commit-Post c.db c.faults k
    where
      commit-Post :
          (t : S) (fs : List Bool)
          → Q t
          → Post Q E
              (close s (ok a) (record { db = t; faults = fs })).0
              (close s (ok a) (record { db = t; faults = fs })).1
      commit-Post t [] k' = k'
      commit-Post t (true ∷ fs) k' = h
      commit-Post t (false ∷ fs) k' = k'

module _ {ℓ} {S A : Type ℓ} {P Q E F : S → Type ℓ} where
  -- A transaction: an error leaves what was there before.
  pub Hoare-transact :
      (m : M S A) → ((s : S) → P s → E s) → Hoare P Q F m → Hoare P Q E (transact m)
  unfolding transact
  Hoare-transact m w k = record { at = λ c h. begin-Post c.db c.faults h }
    where
      begin-Post :
          (s : S) (fs : List Bool)
          → P s
          → Post Q E
              (transact m (record { db = s; faults = fs })).0
              (transact m (record { db = s; faults = fs })).1
      begin-Post s [] h =
          close-Post Q E F s (m (record { db = s; faults = [] })).0 _ (w s h)
            (k.at (record { db = s; faults = [] }) h)
      begin-Post s (true ∷ fs) h = w s h
      begin-Post s (false ∷ fs) h =
          close-Post Q E F s (m (record { db = s; faults = fs })).0 _ (w s h)
            (k.at (record { db = s; faults = fs }) h)

module _ {ℓ} {S A : Type ℓ} {P : S → Type ℓ} where
  -- Nothing is said.
  pub Hoare-any : (m : M S A) → Hoare P (λ s. Unit) (λ s. Unit) m
  Hoare-any m = record { at = λ c h. any-Post (m c).0 (m c).1 }
    where
      any-Post : (r : Result A) (c : Conn S) → Post (λ s. Unit) (λ s. Unit) r c
      any-Post (ok a) c = tt
      any-Post (err e) c = tt

module _ {ℓ} {S A : Type ℓ} {P Q R E F : S → Type ℓ} where
  -- What follows from what is left.
  pub Hoare-weaken :
      (m : M S A) → ((s : S) → Q s → R s) → ((s : S) → E s → F s) → Hoare P Q E m → Hoare P R F m
  Hoare-weaken m k l h = record { at = λ c p. weaker (m c).0 (m c).1 (h.at c p) }
    where
      weaker : (r : Result A) (c : Conn S) → Post Q E r c → Post R F r c
      weaker (ok a) c q = k c.db q
      weaker (err e) c q = l c.db q
