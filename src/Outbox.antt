-- ===== src/Outbox.antt =====
-- internal/publisher/publisher.go: documents pushed to VPS Advisor from the outbox. The answers of
-- VPS Advisor are the argument `accepts`, by the row's id.
pub mod Delivery
use vpsa_network_discovery.Prelude.{
  ℕ, zero, suc, ◌+◌, ◌*◌, ◌^◌, ◌≡◌, min, Bool, true, false, not, ◌&&◌, Option, none, some, List, [],
  ◌∷◌, Bytes, is_empty, is_none, take, leb, ◌==◌, if◌then◌else◌,
}
use vpsa_network_discovery.Sql.{Result, ok, err, M, Conn, exec, transact, pure, ◌>>=◌, ◌>>◌}
use vpsa_network_discovery.Sql.Table.{select, update}
use vpsa_network_discovery.WireAuth.{second}

-- The kind of a document, with the provider that a status names, if its payload can be read.
pub data Kind : Type 0 where
  provider_status : Option Bytes → Kind
  anomaly telemetry unknown_kind : Kind

-- aggregation.publication_outbox
pub record Row : Type 0 where
  pub id : ℕ
  pub kind : Kind
  pub acked_at : Option ℕ
  pub attempts : ℕ
  pub next_attempt_at : ℕ

abbrev pub Rows : Type 0
Rows = List Row

-- push
unfoldable pub push : (ℕ → Bool) → Row → Kind → Bool
push accepts r (provider_status none) = false
push accepts r (provider_status (some provider)) = not (is_empty provider) && accepts r.id
push accepts r anomaly = accepts r.id
push accepts r telemetry = accepts r.id
push accepts r unknown_kind = false

abbrev pub is_due : ℕ → (ℕ → Bool) → Row → Bool
is_due now locked r = is_none r.acked_at && (leb r.next_attempt_at now && not (locked r.id))

-- The rows that are due, not locked by another publisher, 100 at most.
unfoldable pub due : ℕ → (ℕ → Bool) → Rows → Rows
due now locked rows = take 100 (select (is_due now locked) rows)

unfoldable pub select_due : ℕ → (ℕ → Bool) → Rows → Result (Rows × Rows)
unfolding due
select_due now locked rows = ok (due now locked rows, rows)

abbrev pub row_is : ℕ → Row → Bool
row_is id r = r.id == id

unfoldable pub ack : ℕ → ℕ → Rows → Result (Unit {0} × Rows)
ack now id rows =
    ok (
      tt,
      update (row_is id) (λ r. record r { acked_at = some now; attempts = r.attempts + 1 }) rows,
    )

-- The pause before the next attempt: 2 ^ attempts seconds, five minutes at most.
unfoldable pub pause : ℕ → ℕ
pause attempts = min (2 ^ attempts * second) (5 * 60 * second)

unfoldable pub back_off : ℕ → ℕ → Rows → Result (Unit {0} × Rows)
unfolding pause
back_off now id rows = ok (
  tt,
  update (row_is id)
      (λ r. record r { attempts = r.attempts + 1; next_attempt_at = now + pause r.attempts }) rows,
)

unfoldable pub push_all : ℕ → (ℕ → Bool) → Rows → M Rows ℕ
unfolding push ack back_off
push_all now accepts [] = pure 0
push_all now accepts (r ∷ rs) =
    if push accepts r r.kind
    then exec (ack now r.id) >>= (λ u. push_all now accepts rs >>= (λ n. pure (suc n)))
    else exec (back_off now r.id) >>= (λ u. push_all now accepts rs)

-- DrainOnce
unfoldable pub drain_once : ℕ → (ℕ → Bool) → (ℕ → Bool) → M Rows ℕ
unfolding select_due push_all
drain_once now locked accepts = transact (exec (select_due now locked) >>= push_all now accepts)
