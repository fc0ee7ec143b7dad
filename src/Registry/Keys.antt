-- ===== src/Registry/Keys.antt =====
-- For internal/registry/registry.go: the valid keys after rotation and retirement.
use vpsa_network_discovery.Prelude.{
  ℕ, ◌+◌, ◌≤◌, ◌<◌, ◌≡◌, refl, sym, ap, ◌∙◌, Bool, true, false, ◌&&◌, Option, none, some, List, [],
  ◌∷◌, ◌++◌, map, Bytes, arith, some_and, ltb, ◌==◌, length,
}
use mathlib.Core.List.{reverse, reverse-append, map-append}
use vpsa_network_discovery.Database.{
  Database, Worker, WorkerKey, WorkerState, retired, same_state_refl,
}
use vpsa_network_discovery.Sql.{ok, Conn, exec, transact, Result}
use vpsa_network_discovery.Sql.Faults.{calm}
use vpsa_network_discovery.Sql.Table.{
  select, update, exists, select-append, select-update_none, exists-update_none, exists-update_same,
}
use vpsa_network_discovery.Registry.{
  is_worker, set_state, rotate_key, valid_keys, is_valid_key, is_current, expire_key, revocable,
}
use vpsa_network_discovery.Registry.Runs.{rotate_key-Atomic}
use vpsa_network_discovery.Registry.Lifecycle.{set_state-moved, moved}

revoked_none :
    (t now w : ℕ) (ks : List WorkerKey)
    → select
        (λ k. is_valid_key t w k && length k.public_key == 32)
        (update (revocable w) (λ k. record k { revoked_at = some now }) ks)
      ≡ []
revoked_none t now w ks = select-update_none _ _ _ ks λ k. ground arith

keys-set_state_retired :
    (now w : ℕ) (reason : Bytes) (c : Conn Database)
    → (set_state now w (some retired) reason c).0 ≡ ok tt
    → (set_state now w (some retired) reason c).1.db.keys
      ≡ update (revocable w) (λ k. record k { revoked_at = some now }) c.db.keys
keys-set_state_retired now w reason c h =
    let (s, r, named, found, legal, after) = set_state-moved now w (some retired) reason c h in
    by_name s r named after
  where
    by_name :
        (s : WorkerState) (r : Worker)
        → ◌≡◌ {A = Option WorkerState} (some retired) (some s)
        → (set_state now w (some retired) reason c).1.db ≡ moved now w r.state s reason c.db
        → (set_state now w (some retired) reason c).1.db.keys
          ≡ update (revocable w) (λ k. record k { revoked_at = some now }) c.db.keys
    by_name s r named after =
        ap (λ (d : Database). d.keys) after ∙ ground (arith, named, same_state_refl s)

-- A worker that retires has no key that verifies, at any time.
valid_keys-retired :
    (now w : ℕ) (reason : Bytes) (c : Conn Database) (t : ℕ)
    → (set_state now w (some retired) reason c).0 ≡ ok tt
    → valid_keys t w (set_state now w (some retired) reason c).1.db.keys ≡ []
unfolding valid_keys
valid_keys-retired now w reason c t h =
    rw (keys-set_state_retired now w reason c h, revoked_none t now w c.db.keys)

abbrev new_key : ℕ → Bytes → ℕ → WorkerKey
new_key w pub_key now = record {
  worker = w;
  public_key = pub_key;
  valid_from = now;
  valid_until = none;
  revoked_at = none;
}

calm_rotated :
    (now w : ℕ) (next : Bytes) (overlap : ℕ) (db : Database)
    → (rotate_key now w next overlap (calm db)).0 ≡ ok tt
    → (rotate_key now w next overlap (calm db)).1.db.keys
      ≡ update (is_current w) (expire_key (now + overlap)) db.keys ++ new_key w next now ∷ []
unfolding rotate_key transact exec
calm_rotated now w next overlap db h = ground arith

keys-rotate_key :
    (now w : ℕ) (next : Bytes) (overlap : ℕ) (c : Conn Database)
    → (rotate_key now w next overlap c).0 ≡ ok tt
    → (rotate_key now w next overlap c).1.db.keys
      ≡ update (is_current w) (expire_key (now + overlap)) c.db.keys ++ new_key w next now ∷ []
keys-rotate_key now w next overlap c h =
    let q = (rotate_key-Atomic now w next overlap).whole c tt h in
    ap (λ (p : Result (Unit {0}) × Conn Database). p.1.db.keys) (sym q)
    ∙ calm_rotated now w next overlap c.db (ap (λ (p : Result (Unit {0}) × Conn Database). p.0) q)

abbrev verifies : ℕ → ℕ → WorkerKey → Bool
verifies t w k = is_valid_key t w k && length k.public_key == 32

abbrev public_keys : List WorkerKey → List Bytes
public_keys = map (λ k. k.public_key)

public_keys-within :
    (t w until : ℕ) (ks : List WorkerKey)
    → t < until
    → public_keys (select (verifies t w) (update (is_current w) (expire_key until) ks))
      ≡ public_keys (select (verifies t w) ks)
unfolding select update
public_keys-within t w until [] h = refl
public_keys-within t w until (k ∷ ks) h = ground (arith, public_keys-within t w until ks)

-- Every key of the worker that has an end ends by a time.
abbrev pub EndsBy : ℕ → ℕ → List WorkerKey → Type 0
EndsBy w until [] = Unit {0}
EndsBy w until (k ∷ ks) =
    ((k.worker == w && some_and k.valid_until (ltb until)) ≡ false) × EndsBy w until ks

verifies_after :
    (t w until : ℕ) (ks : List WorkerKey)
    → until ≤ t
    → EndsBy w until ks
    → select (verifies t w) (update (is_current w) (expire_key until) ks) ≡ []
unfolding select update
verifies_after t w until [] h e = refl
verifies_after t w until (k ∷ ks) h e = ground (arith, verifies_after t w until ks h)

new_verifies :
    (t w : ℕ) (next : Bytes) (now : ℕ)
    → now ≤ t
    → length next ≡ 32
    → verifies t w (new_key w next now) ≡ true
new_verifies t w next now h l = ground arith

valid_keys-append :
    (t w : ℕ) (ks : List WorkerKey) (next : Bytes) (now : ℕ)
    → now ≤ t
    → length next ≡ 32
    → valid_keys t w (ks ++ new_key w next now ∷ []) ≡ next ∷ valid_keys t w ks
unfolding valid_keys select
valid_keys-append t w ks next now h l =
    rw
      (
        select-append (verifies t w) ks (new_key w next now ∷ []),
        new_verifies t w next now h l,
        map-append (λ (k : WorkerKey). k.public_key) (select (verifies t w) ks)
            (new_key w next now ∷ []),
      )
      (reverse-append (public_keys (select (verifies t w) ks)) (next ∷ []))

-- After a rotation and until the overlap is over, the new key verifies and so does every key that
-- did; from the end of the overlap on, only the new key does, if the earlier keys with an end have
-- ended by then.
pub valid_keys-rotate_key :
    (now w : ℕ) (next : Bytes) (overlap : ℕ) (c : Conn Database) (t : ℕ)
    → (rotate_key now w next overlap c).0 ≡ ok tt
    → length next ≡ 32
    → now ≤ t
    → EndsBy w (now + overlap) c.db.keys
    → let after = (rotate_key now w next overlap c).1.db.keys in
      (t < now + overlap → valid_keys t w after ≡ next ∷ valid_keys t w c.db.keys)
      × (now + overlap ≤ t → valid_keys t w after ≡ next ∷ [])
unfolding valid_keys
valid_keys-rotate_key now w next overlap c t h l n e = (
  λ within.
      start ∙ ap (◌∷◌ next) (ap reverse (public_keys-within t w (now + overlap) c.db.keys within)),
  λ over.
      start
      ∙ ap (λ (ks : List WorkerKey). next ∷ reverse (public_keys ks))
          (verifies_after t w (now + overlap) c.db.keys over e),
)
  where
    start :
        valid_keys t w (rotate_key now w next overlap c).1.db.keys
        ≡ next ∷ valid_keys t w (update (is_current w) (expire_key (now + overlap)) c.db.keys)
    start =
        ap (valid_keys t w) (keys-rotate_key now w next overlap c h)
        ∙ valid_keys-append t w (update (is_current w) (expire_key (now + overlap)) c.db.keys) next
            now n l

-- A rotation for a registered worker succeeds unless the database fails: the index of current keys
-- never stops it.
pub rotate_key-ok :
    (now w : ℕ) (next : Bytes) (overlap : ℕ) (db : Database)
    → exists (is_worker w) db.workers ≡ true
    → (rotate_key now w next overlap (calm db)).0 ≡ ok tt
unfolding rotate_key transact exec
rotate_key-ok now w next overlap db h = ground (
  arith,
  exists-update_none (is_current w) (is_current w) (expire_key (now + overlap)) db.keys
      (λ k. ground arith),
  exists-update_same (is_worker w) (is_worker w) (λ r. record r { rotate_requested = false })
      db.workers (λ r. refl),
)
