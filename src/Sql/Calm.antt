-- ===== src/Sql/Calm.antt =====
-- Runs on which nothing fails: that an action succeeds, with what and in which state.
use vpsa_network_discovery.Prelude.{◌≡◌, refl, ap, ◌∙◌, Bool, true, false, if◌then◌else◌}
use vpsa_network_discovery.Sql.{Result, ok, Conn, M, ◌>>=◌, exec, pure, continue}
use vpsa_network_discovery.Sql.Faults.{calm}

-- From `s` the action succeeds, and `Q` holds of the value and the state that it ends in.
pub record Reaches {ℓ} {S A : Type ℓ} (Q : A → S → Type ℓ) (m : M S A) (s : S) : Type ℓ where
  pub value : A
  pub left : S
  pub runs : m (calm s) ≡ (ok value, calm left)
  pub holds : Q value left

module _ {ℓ} {S A : Type ℓ} {Q : A → S → Type ℓ} where
  pub Reaches-pure : (a : A) (s : S) → Q a s → Reaches Q (pure a) s
  Reaches-pure a s h = record { value = a; left = s; runs = refl; holds = h }

  pub Reaches-exec :
      (f : S → Result (A × S)) (s : S) (a : A) (t : S)
      → f s ≡ ok (a, t)
      → Q a t
      → Reaches Q (exec f) s
  unfolding exec
  Reaches-exec f s a t e h = record { value = a; left = t; runs = rw e refl; holds = h }

  pub Reaches-if :
      (b : Bool) (m n : M S A) (s : S)
      → (b ≡ true → Reaches Q m s)
      → (b ≡ false → Reaches Q n s)
      → Reaches Q (if b then m else n) s
  Reaches-if true m n s h k = h refl
  Reaches-if false m n s h k = k refl

  pub Reaches-weaken :
      {R : A → S → Type ℓ} (m : M S A) (s : S)
      → ((a : A) (t : S) → Q a t → R a t)
      → Reaches Q m s
      → Reaches R m s
  Reaches-weaken m s k h = record {
    value = h.value;
    left = h.left;
    runs = h.runs;
    holds = k h.value h.left h.holds;
  }

module _ {ℓ} {S A B : Type ℓ} {Q : A → S → Type ℓ} {R : B → S → Type ℓ} where
  pub Reaches-bind :
      (m : M S A) (f : A → M S B) (s : S)
      → Reaches Q m s
      → ((a : A) (t : S) → Q a t → Reaches R (f a) t)
      → Reaches R (m >>= f) s
  Reaches-bind m f s h k =
      let next = k h.value h.left h.holds in
      record {
        value = next.value;
        left = next.left;
        runs = ap (λ (o : Result A × Conn S). continue o.0 f o.1) h.runs ∙ next.runs;
        holds = next.holds;
      }
