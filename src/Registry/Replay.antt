-- ===== src/Registry/Replay.antt =====
-- For internal/registry/registry.go: the nonces that a worker has used.
use vpsa_network_discovery.Prelude.{
  ℕ, ◌+◌, ◌≤◌, ◌≡◌, ◌≢◌, sym, ap, Bool, true, false, ◌&&◌, List, [], ◌∷◌, Bytes, arith, ltb, leb,
  bytes_eq_refl, All, subst,
}
use vpsa_network_discovery.Database.{Database, Nonce}
use vpsa_network_discovery.Sql.{Result, Conn, ok, exec}
use vpsa_network_discovery.Sql.Keeps.{Keeps, Keeps-exec}
use vpsa_network_discovery.Sql.Faults.{calm, Steady, Steady-exec}
use vpsa_network_discovery.Sql.Table.{
  exists, exists-append, exists-single, exists-delete, exists_mono,
}
use vpsa_network_discovery.Registry.{
  seen_nonce, prune_nonces, is_nonce, insert_worker, insert_token, insert_event, insert_key,
  update_workers, update_worker_returning, redeem, flag_rotation, insert_nonce, insert_worker_once,
  insert_token_once, update_keys,
}
use vpsa_network_discovery.Registry.Runs.{Call, run}
use vpsa_network_discovery.Registry.Statements.{StatementsKeep, AdmitsCall, run-Keeps}

-- A nonce of the worker, seen at a time or later.
abbrev since : ℕ → ℕ → Bytes → Nonce → Bool
since from w n r = is_nonce w n r && leb from r.seen_at

abbrev pub Recorded : ℕ → ℕ → Bytes → Database → Type 0
Recorded from w n db = exists (since from w n) db.nonces ≡ true

-- A pruning that leaves what was seen from a time on.
abbrev pub Spares : ℕ → ℕ → ℕ → Type 0
Spares from now window = now ≤ from + window

module _ (from w : ℕ) (n : Bytes) where
  insert_nonce-Recorded :
      (now v : ℕ) (m : Bytes) → Keeps (Recorded from w n) (exec (insert_nonce now v m))
  unfolding insert_nonce
  insert_nonce-Recorded now v m = Keeps-exec _ λ db a db' h e. ground (
    arith,
    exists-append (since from w n) db.nonces (record { worker = v; nonce = m; seen_at = now } ∷ []),
  )

  prune-Recorded :
      (now window : ℕ)
      → Spares from now window
      → Keeps (Recorded from w n) (prune_nonces now window)
  unfolding prune_nonces
  prune-Recorded now window s = Keeps-exec _ λ db a db' h e. ground (
    arith,
    exists-delete (since from w n) (λ r. ltb (r.seen_at + window) now) db.nonces
        (λ r p. ground arith),
  )

  Recorded-StatementsKeep : StatementsKeep (Recorded from w n) (Spares from)
  unfolding insert_worker insert_worker_once insert_token insert_token_once insert_event insert_key
      update_keys update_workers update_worker_returning redeem flag_rotation
  Recorded-StatementsKeep = record {
    worker = λ r. Keeps-exec _ λ db a db' h e. ground arith;
    worker_once = λ r. Keeps-exec _ λ db a db' h e. ground arith;
    token = λ t. Keeps-exec _ λ db a db' h e. ground arith;
    token_once = λ t. Keeps-exec _ λ db a db' h e. ground arith;
    event = λ v t now. Keeps-exec _ λ db a db' h e. ground arith;
    key = λ v k now. Keeps-exec _ λ db a db' h e. ground arith;
    keys = λ p f. Keeps-exec _ λ db a db' h e. ground arith;
    workers = λ p f. Keeps-exec _ λ db a db' h e. ground arith;
    worker_returning = λ v f. Keeps-exec _ λ db a db' h e. ground arith;
    redeems = λ now hash. Keeps-exec _ λ db a db' h e. ground arith;
    flag = λ v. Keeps-exec _ λ db a db' h e. ground arith;
    nonce = insert_nonce-Recorded;
    prune = prune-Recorded;
  }

calm-Recorded :
    (now w : ℕ) (n : Bytes) (db : Database)
    → (seen_nonce now w n (calm db)).0 ≡ ok false
    → Recorded now w n (seen_nonce now w n (calm db)).1.db
unfolding seen_nonce exec
calm-Recorded now w n db h = ground (
  arith,
  exists-append (since now w n) db.nonces (record { worker = w; nonce = n; seen_at = now } ∷ []),
  exists-single (since now w n) (record { worker = w; nonce = n; seen_at = now }),
  bytes_eq_refl n,
)

calm_refused :
    (from now w : ℕ) (n : Bytes) (db : Database)
    → Recorded from w n db
    → (seen_nonce now w n (calm db)).0 ≢ ok false
unfolding seen_nonce exec
calm_refused from now w n db r h =
    ground (arith, exists_mono (since from w n) (is_nonce w n) db.nonces (λ x p. ground arith) r)

seen_nonce-Steady : (now w : ℕ) (n : Bytes) → Steady (seen_nonce now w n)
unfolding seen_nonce
seen_nonce-Steady now w n = Steady-exec _

-- A nonce that a worker has used once is never again taken for new, whatever calls come between
-- and whatever fails, as long as each pruning among them spares what was seen at its time.
pub seen_nonce-run :
    (sha256 : Bytes → Bytes) (now w : ℕ) (n : Bytes) (c : Conn Database) (calls : List Call)
    (later : ℕ) (d : Conn Database)
    → (seen_nonce now w n c).0 ≡ ok false
    → All (AdmitsCall (Spares now)) calls
    → d.db ≡ (run sha256 calls (seen_nonce now w n c).1).db
    → (seen_nonce later w n d).0 ≢ ok false
seen_nonce-run sha256 now w n c calls later d h a s again =
    calm_refused now later w n d.db (subst (Recorded now w n) (sym s) kept) (
      ap (λ (p : Result Bool × Conn Database). p.0)
        ((seen_nonce-Steady later w n).at d false again))
  where
    first : seen_nonce now w n (calm c.db) ≡ (ok false, calm (seen_nonce now w n c).1.db)
    first = (seen_nonce-Steady now w n).at c false h

    recorded : Recorded now w n (seen_nonce now w n c).1.db
    recorded =
        subst (λ (p : Result Bool × Conn Database). Recorded now w n p.1.db) first
          (calm-Recorded now w n c.db (ap (λ (p : Result Bool × Conn Database). p.0) first))

    kept : Recorded now w n (run sha256 calls (seen_nonce now w n c).1).db
    kept =
        run-Keeps (Recorded now w n) (Spares now) (Recorded-StatementsKeep now w n) sha256 calls _ a
          recorded
