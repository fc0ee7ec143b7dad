-- ===== src/Coordinator/Auth/Service.antt =====
-- For internal/coordinator/server.go: a request that a worker signs reaches its handler.
use vpsa_network_discovery.Prelude.{
  ℕ, ◌+◌, ◌-◌, ◌≤◌, ◌≡◌, refl, sym, ap, ◌∙◌, ◌⊎◌, inl, inr, false, some, List, [], ◌∷◌, Bytes,
  is_empty, length, take-all,
}
use vpsa_network_discovery.Database.{Database, Worker, suspended, retired, same_state}
use vpsa_network_discovery.Sql.{ok, exec}
use vpsa_network_discovery.Sql.Faults.{calm}
use vpsa_network_discovery.Sql.Table.{find, exists, exists-find}
use vpsa_network_discovery.Registry.{
  active_keys, select_keys, found_keys, seen_nonce, insert_nonce, valid_keys, is_worker, is_nonce,
}
use vpsa_network_discovery.WireAuth.{
  Library, Header, Verdict, verified, refused, second, max_skew, verify, verify-Shown,
  missing_headers,
}
use vpsa_network_discovery.WireAuth.Signing.{
  Signing, IsKeyPair, IsStamped, sign, sign-worker, sign-verify,
}
use vpsa_network_discovery.Coordinator.Auth.{
  Request, body_limit, next, try_keys, admit_state, after_nonce, after_verdict, after_keys,
  with_identity, with_body, signed,
}
use vpsa_network_discovery.Coordinator.Auth.Admission.{In}

-- One key verifies, and whichever does yields the same nonce.
try_keys-In :
    (check : Bytes → Verdict) (v : Verdict) (ks : List Bytes) (k n : Bytes)
    → In k ks
    → check k ≡ verified n
    → ((j m : Bytes) → check j ≡ verified m → m ≡ n)
    → try_keys check v ks ≡ verified n
unfolding try_keys
try_keys-In check v [] k n i h all = absurd i
try_keys-In check v (x ∷ ks) k n i h all =
    by_check (check x) refl (λ j. try_keys-In check (check x) ks k n j h all) i
  where
    by_check :
        (w : Verdict)
        → check x ≡ w
        → (In k ks → try_keys check (check x) ks ≡ verified n)
        → (k ≡ x) ⊎ In k ks
        → try_keys check v (x ∷ ks) ≡ verified n
    by_check (verified m) e later j = rw (try_keys, e) (ap verified (all x m e))
    by_check (refused r) e later (inl q) = absurd (clash (sym h ∙ ap check q ∙ e))
      where
        clash : ◌≡◌ {A = Verdict} (verified n) (refused r) → ⊥
        clash q' = cc
    by_check (refused r) e later (inr j) = rw (try_keys, e) (later j)

-- The worker is known and neither suspended nor retired, and the key is one of those that verify.
pub record IsServed (db : Database) (db_now id : ℕ) (pub_key : Bytes) (row : Worker) : Type 0 where
  pub found : find (is_worker id) db.workers ≡ some row
  pub not_suspended : same_state row.state suspended ≡ false
  pub not_retired : same_state row.state retired ≡ false
  pub valid : In pub_key (valid_keys db_now id db.keys)

module _ (lib : Library) (now db_now id : ℕ) (r : Request) (body pub_key : Bytes) (db : Database)
    (row : Worker) (v : IsServed db db_now id pub_key row)
    (accepted : verify lib r.method r.path r.header body pub_key now ≡ verified r.header.nonce)
    (unseen : exists (is_nonce id r.header.nonce) db.nonces ≡ false) where
  tried :
      try_keys
        (λ k. verify lib r.method r.path r.header body k now)
        (refused missing_headers)
        (valid_keys db_now id db.keys)
      ≡ verified r.header.nonce
  tried =
      try_keys-In _ _ (valid_keys db_now id db.keys) pub_key r.header.nonce v.valid accepted
        λ j m e. (verify-Shown lib r.method r.path r.header body j now m e).1

  keys_found :
      (ks : List Bytes) → In pub_key ks → found_keys row.state ks db ≡ ok ((ks, row.state), db)
  unfolding found_keys
  keys_found [] i = absurd i
  keys_found (k ∷ ks) i = refl

  admitted :
      (with_identity lib now db_now r body (some id) (calm db)).0
      ≡ next (record { id = id; state = row.state }) body
  unfolding with_identity active_keys select_keys exec after_keys after_verdict seen_nonce
      insert_nonce after_nonce admit_state find
  admitted =
      rw
        (
          v.found,
          keys_found (valid_keys db_now id db.keys) v.valid,
          tried,
          unseen,
          exists-find (is_worker id) db.workers row v.found,
          v.not_suspended,
          v.not_retired,
        )
        refl

-- A worker's request.
abbrev pub request_of : Bytes → Bytes → Header → Bytes → Request
request_of method path h body = record {
  method = method;
  path = path;
  header = h;
  body = some body;
}

-- A request that Sign signs reaches its handler with its body, as the worker that it names and
-- with the state of its row, if no statement fails, the key's public half is one that verifies for
-- a known worker that is neither suspended nor retired, the body has at most 8 MiB, the clocks are
-- at most the window less a second apart, the nonce is new and drawn from some bytes, the header's
-- worker is not empty and parses, signatures of the key verify and are not encoded as the empty
-- text, base64 decodes what it encodes, and RFC 3339 keeps the time of the signature to the second
-- and does not write it as the empty text.
pub signed-Served :
    (lib : Library) (out : Signing) (key pub_key : Bytes)
    → IsKeyPair lib out key pub_key
    → (method path worker body random : Bytes) (at now db_now id : ℕ) (h : Header) (row : Worker)
      (db : Database)
    → IsStamped lib out at
    → length body ≤ body_limit
    → is_empty random ≡ false
    → is_empty worker ≡ false
    → lib.parse_uuid worker ≡ some id
    → sign lib out method path worker key body at (some random) ≡ some h
    → at ≤ now + (max_skew - second)
    → now ≤ at + (max_skew - second)
    → IsServed db db_now id pub_key row
    → exists (is_nonce id h.nonce) db.nonces ≡ false
    → (signed lib now db_now (request_of method path h body) (calm db)).0
      ≡ next (record { id = id; state = row.state }) body
unfolding signed with_body verify
signed-Served lib out key pub_key k method path worker body random at now db_now id h row db t short
      fresh named parsed made early late v unseen =
    rw
      (
        sign-worker lib out method path worker key body random at h made,
        named,
        parsed,
        take-all body_limit body short,
      )
      (admitted lib now db_now id (request_of method path h body) body pub_key db row v
        (sign-verify lib out key pub_key k method path worker body random at now h t fresh early
          late made)
        unseen)
