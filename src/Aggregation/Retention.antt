-- ===== src/Aggregation/Retention.antt =====
-- internal/aggregate/aggregate.go, `Retention`, and a round of `Run`.
use vpsa_network_discovery.Prelude.{ℕ, ◌+◌, ◌-◌, ◌*◌, ◌/◌, Bool, Bytes, ltb}
use vpsa_network_discovery.Sql.{Result, ok, err, M, Conn, exec, ◌>>◌}
use vpsa_network_discovery.Sql.Table.{delete}
use vpsa_network_discovery.Aggregation.{
  Config, Sample, Window, Agreement, Received, Store, second, day, with_defaults,
}
use vpsa_network_discovery.Aggregation.Consensus.{compute_window}
use vpsa_network_discovery.Aggregation.Status.{rollup_status}

-- measured_at < now() - $1, and so on
abbrev pub older : ℕ → ℕ → ℕ → Bool
older now age t = ltb (t + age) now

unfoldable pub delete_samples : ℕ → ℕ → Store → Result (Unit {0} × Store)
delete_samples now age s =
    ok (tt, record s { samples = delete (λ (x : Sample). older now age x.measured_at) s.samples })

unfoldable pub delete_windows : ℕ → ℕ → Store → Result (Unit {0} × Store)
delete_windows now age s =
    ok (tt, record s { windows = delete (λ (w : Window). older now age w.start) s.windows })

unfoldable pub delete_agreements : ℕ → Store → Result (Unit {0} × Store)
delete_agreements now s = ok (
  tt,
  record s { agreements = delete (λ (a : Agreement). older now (30 * day) a.start) s.agreements },
)

unfoldable pub delete_batches : ℕ → Store → Result (Unit {0} × Store)
delete_batches now s = ok (
  tt,
  record s { batches = delete (λ (b : Received). older now (7 * day) b.received_at) s.batches },
)

-- Retention
unfoldable pub retention : Config → ℕ → M Store (Unit {0})
unfolding with_defaults delete_samples delete_windows delete_agreements delete_batches
retention cfg now = do
  exec (delete_samples now (with_defaults cfg).raw_retention)
  exec (delete_windows now (with_defaults cfg).window_retention)
  exec (delete_agreements now)
  exec (delete_batches now)

-- The start of the window that was completed last: now - window, truncated to a multiple of it.
unfoldable pub last_start : Config → ℕ → ℕ
unfolding with_defaults
last_start cfg now =
    let length = (with_defaults cfg).window_seconds * second in (now - length) / length * length

-- A failure of the computation skips the rollup; both are only logged.
unfoldable pub after_window : (ℕ → Bytes) → Config → ℕ → Result (Unit {0}) → Conn Store → Conn Store
unfolding rollup_status
after_window name cfg now (err e) c = c
after_window name cfg now (ok u) c = (rollup_status name now cfg c).1

-- A round of the loop of Run, on the ticker of the windows.
unfoldable pub tick : (ℕ → Bytes) → Config → ℕ → Conn Store → Conn Store
unfolding compute_window last_start after_window
tick name cfg now c =
    let (r, c') = compute_window cfg (last_start cfg now) c in after_window name cfg now r c'
