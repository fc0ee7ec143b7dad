-- ===== src/Coordinator/Auth/Admission.antt =====
-- For internal/coordinator/server.go: the database of a request that reaches a handler.
use vpsa_network_discovery.Prelude.{
  ℕ, ◌≡◌, refl, ◌≢◌, sym, ◌∙◌, subst, ◌⊎◌, inl, inr, Bool, true, false, Option, none, some, List,
  [], ◌∷◌, Bytes, arith, take, if◌then◌else◌, is_empty,
}
use vpsa_network_discovery.Database.{Database, WorkerState, Worker, suspended, retired, same_state}
use vpsa_network_discovery.Sql.{Result, ok, err, Conn, exec}
use vpsa_network_discovery.Sql.Faults.{calm, Steady-exec}
use vpsa_network_discovery.Sql.Table.{find}
use vpsa_network_discovery.Registry.{active_keys, seen_nonce, valid_keys, is_worker, select_keys}
use vpsa_network_discovery.WireAuth.{
  Library, VerifyError, Verdict, verified, refused, verify, Shown, verify-Shown, missing_headers,
}
use vpsa_network_discovery.Coordinator.Auth.{
  Request, Identity, body_limit, problem, next, try_keys, after_nonce, after_verdict, after_keys,
  with_identity, with_body, signed,
}

-- Membership by recursion, so that it is taken apart into data.
abbrev pub In : Bytes → List Bytes → Type 0
In k [] = ⊥
In k (x ∷ xs) = (k ≡ x) ⊎ In k xs

try_keys-verified :
    (check : Bytes → Verdict) (v : Verdict) (ks : List Bytes) (n : Bytes)
    → ((m : Bytes) → v ≢ verified m)
    → try_keys check v ks ≡ verified n
    → (k : Bytes) × In k ks × (check k ≡ verified n)
unfolding try_keys
try_keys-verified check v [] n no_v h = absurd (no_v n h)
try_keys-verified check v (k ∷ ks) n no_v h =
    by_check (check k) refl (try_keys-verified check (check k) ks n) (ground arith)
  where
    by_check :
        (w : Verdict)
        → check k ≡ w
        → (((m : Bytes) → check k ≢ verified m)
            → try_keys check (check k) ks ≡ verified n
            → (j : Bytes) × In j ks × (check j ≡ verified n))
        → ((w ≡ verified n)
            ⊎ ((m : VerifyError) × (w ≡ refused m) × (try_keys check (check k) ks ≡ verified n)))
        → (j : Bytes) × In j (k ∷ ks) × (check j ≡ verified n)
    by_check w p later (inl q) = (k, inl refl, p ∙ q)
    by_check w p later (inr (e, q, r)) = let (j, i, c) = later (λ m x. cc) r in (j, inr i, c)

-- What is known of a request that `signed` hands to its handler as the identity `i`, with the
-- body `body`.
pub record Admitted (lib : Library) (now db_now : ℕ) (r : Request) (c : Conn Database)
    (i : Identity) (body : Bytes) (after : Conn Database) : Type 0 where
  pub raw : Bytes
  pub read : r.body ≡ some raw
  -- The handler gets what is read of the body, which is what the signature covers.
  pub limited : body ≡ take body_limit raw
  pub named : lib.parse_uuid r.header.worker_id ≡ some i.id
  pub row : Worker
  pub found : find (is_worker i.id) c.db.workers ≡ some row
  pub state : row.state ≡ i.state
  pub not_suspended : same_state i.state suspended ≡ false
  pub not_retired : same_state i.state retired ≡ false
  pub key : Bytes
  pub valid : In key (valid_keys db_now i.id c.db.keys)
  pub shown : Shown lib r.method r.path r.header body key now
  -- The connection on which the nonce is recorded, over the same database.
  pub conn : Conn Database
  pub same : conn.db ≡ c.db
  pub fresh : (seen_nonce db_now i.id r.header.nonce conn).0 ≡ ok false
  pub then_ : after ≡ (seen_nonce db_now i.id r.header.nonce conn).1

-- The identity that the last two steps hand on.
abbrev Passed :
    ℕ → ℕ → WorkerState → Bytes → Identity → Bytes → Bytes → Conn Database → Conn Database → Type 0
Passed db_now id state body i given n c after =
    (i ≡ record { id = id; state = state })
    × (same_state state suspended ≡ false)
    × (same_state state retired ≡ false)
    × (given ≡ body)
    × ((seen_nonce db_now id n c).0 ≡ ok false)
    × (after ≡ (seen_nonce db_now id n c).1)

after_nonce-next :
    (db_now id : ℕ) (state : WorkerState) (body : Bytes) (r : Result Bool) (c : Conn Database)
    (i : Identity) (given : Bytes) (after : Conn Database)
    → after_nonce db_now id state body r c ≡ (next i given, after)
    → (r ≡ ok false)
      × (i ≡ record { id = id; state = state })
      × (same_state state suspended ≡ false)
      × (same_state state retired ≡ false)
      × (given ≡ body)
      × (after ≡ c)
unfolding after_nonce
after_nonce-next db_now id state body (err e) c i given after h = absurd (ground arith)
after_nonce-next db_now id state body (ok true) c i given after h = absurd (ground arith)
after_nonce-next db_now id state body (ok false) c i given after h =
    (refl, ground arith, ground arith, ground arith, ground arith, ground arith)

after_verdict-next :
    (db_now id : ℕ) (state : WorkerState) (body : Bytes) (v : Verdict) (c : Conn Database)
    (i : Identity) (given : Bytes) (after : Conn Database)
    → after_verdict db_now id state body v c ≡ (next i given, after)
    → (n : Bytes) × (v ≡ verified n) × Passed db_now id state body i given n c after
unfolding after_verdict
after_verdict-next db_now id state body (refused e) c i given after h = absurd (ground arith)
after_verdict-next db_now id state body (verified n) c i given after h =
    let (q, p, s, t, g, a) =
      after_nonce-next db_now id state body (seen_nonce db_now id n c).0
        (seen_nonce db_now id n c).1 i given after h in
    (n, refl, (p, s, t, g, q, a))

pub active_keys-found :
    (db_now id : ℕ) (c : Conn Database) (keys : List Bytes) (state : WorkerState)
    → (active_keys db_now id c).0 ≡ ok (keys, state)
    → ((row : Worker) × (find (is_worker id) c.db.workers ≡ some row)
        × (row.state ≡ state)
        × (valid_keys db_now id c.db.keys ≡ keys))
      × ((active_keys db_now id c).1.db ≡ c.db)
unfolding active_keys exec
active_keys-found db_now id c keys state h =
    let q = (Steady-exec (select_keys db_now id)).at c (keys, state) h in
    let (row, f, s, k, d) =
      by_row (find (is_worker id) c.db.workers) refl (valid_keys db_now id c.db.keys) refl _ q in
    ((row, f, s, k), d)
  where
    by_row :
        (o : Option Worker)
        → find (is_worker id) c.db.workers ≡ o
        → (ks : List Bytes) → valid_keys db_now id c.db.keys ≡ ks
        → (d : Database) → exec (select_keys db_now id) (calm c.db) ≡ (ok (keys, state), calm d)
        → (row : Worker) × (find (is_worker id) c.db.workers ≡ some row)
          × (row.state ≡ state)
          × (valid_keys db_now id c.db.keys ≡ keys)
          × (d ≡ c.db)
    by_row none e ks k d q = absurd (ground arith)
    by_row (some row) e [] k d q = absurd (ground arith)
    by_row (some row) e (x ∷ ks) k d q = (row, e, ground arith, ground arith, ground arith)

module _ (lib : Library) (now db_now : ℕ) (r : Request) (c : Conn Database) (i : Identity)
    (given : Bytes) (after : Conn Database) where
  after_keys-next :
      (raw body : Bytes) (id : ℕ)
      → r.body ≡ some raw
      → body ≡ take body_limit raw
      → lib.parse_uuid r.header.worker_id ≡ some id
      → (k : Result (List Bytes × WorkerState)) → (active_keys db_now id c).0 ≡ k
      → after_keys lib now db_now id r body k (active_keys db_now id c).1 ≡ (next i given, after)
      → Admitted lib now db_now r c i given after
  unfolding after_keys
  after_keys-next raw body id b l u (err e) q h = absurd (ground arith)
  after_keys-next raw body id b l u (ok (keys, state)) q h =
      let check = λ (k : Bytes). verify lib r.method r.path r.header body k now in
      let ((row, f, s, v), same) = active_keys-found db_now id c keys state q in
      let (n, w, (p, ns, nr, g, fresh, a)) =
        after_verdict-next db_now id state body (try_keys check (refused missing_headers) keys)
          (active_keys db_now id c).1 i given after h in
      let (key, member, ok_key) =
        try_keys-verified check (refused missing_headers) keys n (λ m x. cc) w in
      let (shown, e) = verify-Shown lib r.method r.path r.header body key now n ok_key in
      subst (λ (j : Identity). Admitted lib now db_now r c j given after) (sym p)
        (record {
          raw = raw;
          read = b;
          limited = g ∙ l;
          named = u;
          row = row;
          found = f;
          state = s;
          not_suspended = ns;
          not_retired = nr;
          key = key;
          valid = subst (In key) (sym v) member;
          shown = subst (λ (z : Bytes). Shown lib r.method r.path r.header z key now) (sym g) shown;
          conn = (active_keys db_now id c).1;
          same = same;
          fresh =
              subst
                (λ (m : Bytes). (seen_nonce db_now id m (active_keys db_now id c).1).0 ≡ ok false) e
                fresh;
          then_ =
              subst (λ (m : Bytes). after ≡ (seen_nonce db_now id m (active_keys db_now id c).1).1)
                e a;
        })

  with_identity-next :
      (raw body : Bytes) (o : Option ℕ)
      → r.body ≡ some raw
      → body ≡ take body_limit raw
      → lib.parse_uuid r.header.worker_id ≡ o
      → with_identity lib now db_now r body o c ≡ (next i given, after)
      → Admitted lib now db_now r c i given after
  unfolding with_identity
  with_identity-next raw body none b l u h = absurd (ground arith)
  with_identity-next raw body (some id) b l u h =
      after_keys-next raw body id b l u (active_keys db_now id c).0 refl h

  with_body-next :
      (o : Option Bytes)
      → r.body ≡ o
      → with_body lib now db_now r o c ≡ (next i given, after)
      → Admitted lib now db_now r c i given after
  unfolding with_body
  with_body-next none b h = absurd (ground arith)
  with_body-next (some raw) b h =
      with_identity-next raw (take body_limit raw) (lib.parse_uuid r.header.worker_id) b refl refl h

  -- A request that reaches a handler names a registered worker, neither suspended nor retired,
  -- whose key, valid at the time, verifies the canonical string of the request with the first 8
  -- MiB of its body, which is what the handler gets, and its nonce was new and is now recorded;
  -- its timestamp is within the window, or at least 2^63 nanoseconds ahead of the clock, where the
  -- difference of the times overflows.
  pub signed-Admitted :
      signed lib now db_now r c ≡ (next i given, after) → Admitted lib now db_now r c i given after
  unfolding signed
  signed-Admitted h = by_header (is_empty r.header.worker_id) h
    where
      by_header :
          (b : Bool)
          → (if b then (problem 401, c) else with_body lib now db_now r r.body c)
            ≡ (next i given, after)
          → Admitted lib now db_now r c i given after
      by_header true q = absurd (ground arith)
      by_header false q = with_body-next r.body refl q
