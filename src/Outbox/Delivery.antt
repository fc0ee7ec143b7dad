-- ===== src/Outbox/Delivery.antt =====
-- For internal/publisher/publisher.go: documents after an answer of the receiver.
use vpsa_network_discovery.Prelude.{
  ℕ, ◌+◌, ◌*◌, ◌^◌, ◌≤◌, ◌≡◌, refl, ◌∙◌, subst, inl, inr, Bool, true, false, not, ◌&&◌, some, [],
  ◌∷◌, is_none, ◌==◌, ==_iff, arith, Bool-cases,
}
use native.Mathlib.Nat.{pow-le-pow_right}
use vpsa_network_discovery.Sql.{Conn}
use vpsa_network_discovery.Sql.Keeps.{
  Keeps, Keeps-leaves, Keeps-bind, Keeps-if, Keeps-pure, Keeps-transact,
}
use vpsa_network_discovery.Sql.Hoare.{Keeps-Hoare, Hoare-read, Hoare-given}
use vpsa_network_discovery.Sql.Table.{select, update, exists, count, exists_mono}
use vpsa_network_discovery.Sql.Counting.{count_two, exists-select_and, exists-take}
use vpsa_network_discovery.WireAuth.{second}
use vpsa_network_discovery.Outbox.{
  Row, Rows, push, is_due, due, select_due, row_is, ack, pause, back_off, push_all, drain_once,
}

select-update_apart :
    (q p : Row → Bool) (f : Row → Row) (rows : Rows)
    → ((r : Row) → p r ≡ true → q r ≡ false)
    → ((r : Row) → p r ≡ true → q (f r) ≡ false)
    → select q (update p f rows) ≡ select q rows
unfolding select update
select-update_apart q p f [] k l = refl
select-update_apart q p f (r ∷ rows) k l =
    ground (arith, k r, l r, select-update_apart q p f rows k l)

abbrev pub acknowledged : ℕ → Row → Bool
acknowledged id r = r.id == id && not (is_none r.acked_at)

-- The rows of each document acknowledged at the start are as they were.
pub record Settled (start rows : Rows) : Type 0 where
  pub same :
      (id : ℕ)
      → exists (acknowledged id) start ≡ true
      → select (row_is id) rows ≡ select (row_is id) start

module _ (start : Rows) where
  -- None of the rows is of a document acknowledged at the start.
  abbrev Chosen : Rows → Type 0
  Chosen vs = (id : ℕ) → exists (row_is id) vs ≡ true → exists (acknowledged id) start ≡ false

  abbrev Apart : ℕ → Type 0
  Apart v = (id : ℕ) → exists (acknowledged id) start ≡ true → (v == id) ≡ false

  apart : (v : Row) (vs : Rows) → Chosen (v ∷ vs) → Apart v.id
  unfolding exists
  apart v vs k id h = elim (Bool-cases (v.id == id)) [
    | inr f ↦ f
    | inl t ↦ clash (k id (ground (arith, t))) h
  ]
    where
      clash : {b x : Bool} → b ≡ false → b ≡ true → x ≡ false
      clash p q = absurd (never p q)
        where
          never : {b : Bool} → b ≡ false → b ≡ true → ⊥
          never p q = cc

  exists-select_to :
      (q p : Row → Bool) (rows : Rows)
      → exists (λ r. p r && q r) rows ≡ true
      → exists q (select p rows) ≡ true
  unfolding exists select
  exists-select_to q p [] h = h
  exists-select_to q p (r ∷ rows) h = ground (arith, h, exists-select_to q p rows)

  due-Chosen :
      (unique : (id : ℕ) → count (row_is id) start ≤ 1) (now : ℕ) (locked : ℕ → Bool) (rows : Rows)
      → Settled start rows
      → Chosen (due now locked rows)
  unfolding due
  due-Chosen unique now locked rows s id h = elim (Bool-cases (exists (acknowledged id) start)) [
    | inr f ↦ f
    | inl t ↦ absurd (two t)
  ]
    where
      waiting : exists (λ r. is_none r.acked_at) (select (row_is id) rows) ≡ true
      waiting =
          exists-select_to (λ r. is_none r.acked_at) (row_is id) rows
            (exists_mono (λ r. is_due now locked r && r.id == id)
              (λ r. r.id == id && is_none r.acked_at) rows (λ r q. ground arith)
              (exists-select_and (row_is id) (is_due now locked) rows
                (exists-take (row_is id) 100 _ h)))

      two : exists (acknowledged id) start ≡ true → ⊥
      two t = omega (
        arith,
        unique id,
        count_two (acknowledged id) (λ r. r.id == id && is_none r.acked_at) (row_is id) start
            (λ r q. ground arith) (λ r q. ground arith) (λ r q. ground arith) t
            (exists-select_and (λ r. is_none r.acked_at) (row_is id) start
              (subst (λ (rs : Rows). exists (λ r. is_none r.acked_at) rs ≡ true) (s.same id t)
                waiting)),
      )

  update-Settled :
      (v : ℕ) (f : Row → Row)
      → ((r : Row) → (f r).id ≡ r.id)
      → Apart v
      → (rows : Rows) → Settled start rows
      → Settled start (update (row_is v) f rows)
  update-Settled v f i a rows s = record {
    same = λ id h.
        select-update_apart (row_is id) (row_is v) f rows
          (λ r q. ground (arith, q, a id h, ==_iff r.id v, ==_iff r.id id, ==_iff v id))
          (λ r q. ground (arith, q, i r, a id h, ==_iff r.id v, ==_iff (f r).id id, ==_iff v id))
        ∙ s.same id h;
  }

  push_all-Settled :
      (now : ℕ) (accepts : ℕ → Bool) (vs : Rows)
      → Chosen vs
      → Keeps (Settled start) (push_all now accepts vs)
  unfolding push_all ack back_off exists
  push_all-Settled now accepts [] k = Keeps-pure 0
  push_all-Settled now accepts (v ∷ vs) k =
      Keeps-if (push accepts v v.kind) _ _
        (Keeps-bind _ _
          (Keeps-leaves _ (
            update-Settled v.id (λ r. record r { acked_at = some now; attempts = r.attempts + 1 })
              (λ r. refl) (apart v vs k)))
          λ u.
            Keeps-bind _ _ (push_all-Settled now accepts vs (λ q h. k q (ground (arith, h))))
              λ n. Keeps-pure _)
        (Keeps-bind _ _
          (Keeps-leaves _ (
            update-Settled v.id
              (λ r. record r {
                attempts = r.attempts + 1;
                next_attempt_at = now + pause r.attempts;
              })
              (λ r. refl) (apart v vs k)))
          λ u. push_all-Settled now accepts vs (λ q h. k q (ground (arith, h))))

record Ready (start vs rows : Rows) : Type 0 where
  kept : Settled start rows
  chosen : Chosen start vs

-- What was acknowledged before a run of the publisher is left as it was, at whichever step the run
-- stops and whatever VPS Advisor answers, if the ids of the rows are unique.
pub drain_once-Settled :
    (now : ℕ) (locked accepts : ℕ → Bool) (c : Conn Rows)
    → ((id : ℕ) → count (row_is id) c.db ≤ 1)
    → Settled c.db (drain_once now locked accepts c).1.db
unfolding drain_once select_due
drain_once-Settled now locked accepts c u =
    (Keeps-transact _ (
        Keeps-Hoare _ (
          Hoare-read {P = Settled c.db} (due now locked) (Ready c.db) (push_all now accepts)
            (λ rows s. s)
            (λ rows s. record { kept = s; chosen = due-Chosen c.db u now locked rows s })
            λ vs.
              Hoare-given (push_all now accepts vs)
                λ rows r. (r.kept, push_all-Settled c.db now accepts vs r.chosen)))).at
      c (record { same = λ id h. refl })

-- The pause before the next attempt grows with the attempts, from one second to five minutes.
pause_bounds :
    (n m : ℕ) → n ≤ m → (second ≤ pause n) × ((pause n ≤ pause m) × (pause m ≤ 300 * second))
unfolding pause
pause_bounds n m h =
    let none_ : 0 ≤ n = omega arith in
    let one : 2 ^ 0 ≤ 2 ^ n = pow-le-pow_right (omega arith) none_ in
    let more : 2 ^ n ≤ 2 ^ m = pow-le-pow_right (omega arith) h in
    (omega (arith, one), (omega (arith, more), omega arith))
