-- ===== src/Registry/Tokens.antt =====
-- For internal/registry/registry.go: enrollment tokens and their redemption.
use vpsa_network_discovery.Prelude.{
  ℕ, ◌≤◌, ◌≡◌, refl, ◌≢◌, ap, ◌∙◌, subst, Bool, true, false, ◌&&◌, Option, none, some, List, [],
  ◌∷◌, ◌++◌, Bytes, arith, bytes_eq, bytes_eq-eq, All, is_none,
}
use vpsa_network_discovery.Database.{Database, Token, WorkerState}
use vpsa_network_discovery.Sql.{Result, Conn, ok, exec, transact}
use vpsa_network_discovery.Sql.Keeps.{Keeps, Keeps-exec}
use vpsa_network_discovery.Sql.Faults.{calm}
use vpsa_network_discovery.Sql.Table.{
  exists, count, find, update, exists-append, exists-single, exists-update_same, exists-count,
  find_mono_none, exists-find, exists_mono, find-none,
}
use vpsa_network_discovery.Registry.{
  register, has_hash, redeemable, insert_worker, insert_token, insert_event, insert_key,
  update_workers, update_worker_returning, redeem, flag_rotation, insert_nonce, prune_nonces,
  insert_worker_once, insert_token_once, update_keys,
}
use vpsa_network_discovery.Registry.Runs.{Call, prunes, run, register-Atomic}
use vpsa_network_discovery.Registry.Statements.{StatementsKeep, AdmitsCall, run-Keeps}

abbrev unused : Bytes → Token → Bool
unused h t = has_hash h t && is_none t.used_at

-- The token with a hash is there and is used.
pub record IsSpent (h : Bytes) (db : Database) : Type 0 where
  pub there : exists (has_hash h) db.tokens ≡ true
  pub spent : exists (unused h) db.tokens ≡ false

abbrev Always : ℕ → ℕ → Type 0
Always now window = Unit {0}

admits-All : (calls : List Call) → All (AdmitsCall Always) calls
admits-All [] = tt
admits-All (prunes now window ∷ calls) = (tt, admits-All calls)
admits-All (call ∷ calls) = (tt, admits-All calls)

module _ (h : Bytes) where
  append-spent :
      (t : Token) (ts : List Token)
      → exists (has_hash t.token_hash) ts ≡ false
      → exists (has_hash h) ts ≡ true
      → exists (unused h) ts ≡ false
      → exists (unused h) (ts ++ t ∷ []) ≡ false
  append-spent t ts fresh e s = ground (
    arith,
    fresh,
    e,
    exists-append (unused h) ts (t ∷ []),
    exists-single (unused h) t,
    λ (p : bytes_eq t.token_hash h ≡ true). bytes_eq-eq t.token_hash h p,
  )

  redeem-unused :
      (now : ℕ) (g : Bytes) (ts : List Token)
      → exists (unused h) ts ≡ false
      → exists (unused h) (update (redeemable now g) (λ u. record u { used_at = some now }) ts)
        ≡ false
  unfolding exists update
  redeem-unused now g [] s = refl
  redeem-unused now g (t ∷ ts) s = ground (arith, redeem-unused now g ts)

  insert_token-IsSpent : (t : Token) → Keeps (IsSpent h) (exec (insert_token t))
  unfolding insert_token
  insert_token-IsSpent t = Keeps-exec _ λ db a db' s e. ground (
    arith,
    s.there,
    s.spent,
    append-spent t db.tokens,
    exists-append (has_hash h) db.tokens (t ∷ []),
  )

  insert_token_once-IsSpent : (t : Token) → Keeps (IsSpent h) (exec (insert_token_once t))
  unfolding insert_token_once
  insert_token_once-IsSpent t = Keeps-exec _ λ db a db' s e. ground (
    arith,
    s.there,
    s.spent,
    append-spent t db.tokens,
    exists-append (has_hash h) db.tokens (t ∷ []),
  )

  redeem-IsSpent : (now : ℕ) (g : Bytes) → Keeps (IsSpent h) (exec (redeem now g))
  unfolding redeem
  redeem-IsSpent now g = Keeps-exec _ λ db a db' s e. ground (
    arith,
    s.there,
    s.spent,
    redeem-unused now g db.tokens,
    exists-update_same (has_hash h) (redeemable now g) (λ u. record u { used_at = some now })
        db.tokens (λ u. refl),
  )

  IsSpent-StatementsKeep : StatementsKeep (IsSpent h) Always
  unfolding insert_worker insert_worker_once insert_event insert_key update_keys update_workers
      update_worker_returning flag_rotation insert_nonce prune_nonces
  IsSpent-StatementsKeep = record {
    worker = λ r. Keeps-exec _ λ db a db' s e. ground arith;
    worker_once = λ r. Keeps-exec _ λ db a db' s e. ground arith;
    token = insert_token-IsSpent;
    token_once = insert_token_once-IsSpent;
    event = λ v t now. Keeps-exec _ λ db a db' s e. ground arith;
    key = λ v k now. Keeps-exec _ λ db a db' s e. ground arith;
    keys = λ p f. Keeps-exec _ λ db a db' s e. ground arith;
    workers = λ p f. Keeps-exec _ λ db a db' s e. ground arith;
    worker_returning = λ v f. Keeps-exec _ λ db a db' s e. ground arith;
    redeems = redeem-IsSpent;
    flag = λ v. Keeps-exec _ λ db a db' s e. ground arith;
    nonce = λ now v n. Keeps-exec _ λ db a db' s e. ground arith;
    prune = λ now window _. Keeps-exec _ λ db a db' s e. ground arith;
  }

-- With one row to a hash, redeeming it leaves none unused.
spent_after :
    (now : ℕ) (h : Bytes) (ts : List Token) (t : Token)
    → count (has_hash h) ts ≤ 1
    → find (redeemable now h) ts ≡ some t
    → exists (unused h) (update (redeemable now h) (λ u. record u { used_at = some now }) ts)
      ≡ false
unfolding count find exists update
spent_after now h [] t u e = cc
spent_after now h (x ∷ ts) t u e = ground (
  arith,
  exists-count (has_hash h) ts,
  exists-update_same (has_hash h) (redeemable now h) (λ u. record u { used_at = some now }) ts
      (λ u. refl),
  find_mono_none (has_hash h) (unused h)
      (update (redeemable now h) (λ u. record u { used_at = some now }) ts) (λ y p. ground arith),
  find_mono_none (has_hash h) (redeemable now h) ts (λ y p. ground arith),
  exists-find (redeemable now h) ts t,
  spent_after now h ts t,
)

calm_spent :
    (sha256 : Bytes → Bytes) (now : ℕ) (token pub_key software : Bytes) (db : Database)
    (a : ℕ × WorkerState) (o : Option Token)
    → find (redeemable now (sha256 token)) db.tokens ≡ o
    → count (has_hash (sha256 token)) db.tokens ≤ 1
    → (register sha256 now token pub_key software (calm db)).0 ≡ ok a
    → ((t : Token) × (o ≡ some t))
      × ((register sha256 now token pub_key software (calm db)).1.db.tokens
          ≡ update (redeemable now (sha256 token)) (λ u. record u { used_at = some now }) db.tokens)
unfolding register transact exec
calm_spent sha256 now token pub_key software db a none e u h = absurd (ground arith)
calm_spent sha256 now token pub_key software db a (some t) e u h = ((t, refl), ground arith)

register-IsSpent :
    (sha256 : Bytes → Bytes) (now : ℕ) (token pub_key software : Bytes) (c : Conn Database)
    (a : ℕ × WorkerState)
    → count (has_hash (sha256 token)) c.db.tokens ≤ 1
    → (register sha256 now token pub_key software c).0 ≡ ok a
    → IsSpent (sha256 token) (register sha256 now token pub_key software c).1.db
register-IsSpent sha256 now token pub_key software c a u h =
    let q = (register-Atomic sha256 now token pub_key software).whole c a h in
    let s =
      calm_spent sha256 now token pub_key software c.db a
        (find (redeemable now (sha256 token)) c.db.tokens) refl u
        (ap (λ (p : Result (ℕ × WorkerState) × Conn Database). p.0) q) in
    subst (λ (p : Result (ℕ × WorkerState) × Conn Database). IsSpent (sha256 token) p.1.db) q
      (record {
        there = rw s.1 (
            exists-update_same (has_hash (sha256 token)) (redeemable now (sha256 token))
              (λ u. record u { used_at = some now }) c.db.tokens (λ u. refl)
            ∙ exists_mono (redeemable now (sha256 token)) (has_hash (sha256 token)) c.db.tokens
                (λ y p. ground arith)
                (exists-find (redeemable now (sha256 token)) c.db.tokens s.0.0 s.0.1));
        spent = rw s.1 (spent_after now (sha256 token) c.db.tokens s.0.0 u s.0.1);
      })

calm_spent_fails :
    (sha256 : Bytes → Bytes) (now : ℕ) (token pub_key software : Bytes) (db : Database)
    (a : ℕ × WorkerState)
    → IsSpent (sha256 token) db
    → (register sha256 now token pub_key software (calm db)).0 ≢ ok a
unfolding register transact exec
calm_spent_fails sha256 now token pub_key software db a s h = ground (
  arith,
  s.spent,
  find_mono_none (unused (sha256 token)) (redeemable now (sha256 token)) db.tokens
      (λ y p. ground arith),
  find-none (redeemable now (sha256 token)) db.tokens,
)

-- A token that has registered a worker never registers another, after any history of calls and
-- under any failures, if at first its hash has one row at most.
pub register-run :
    (sha256 : Bytes → Bytes) (now : ℕ) (token pub_key software : Bytes) (c : Conn Database)
    (a : ℕ × WorkerState) (calls : List Call) (later : ℕ) (pub_key' software' : Bytes)
    (b : ℕ × WorkerState)
    → count (has_hash (sha256 token)) c.db.tokens ≤ 1
    → (register sha256 now token pub_key software c).0 ≡ ok a
    → (register sha256 later token pub_key' software'
        (run sha256 calls (register sha256 now token pub_key software c).1)).0
      ≢ ok b
register-run sha256 now token pub_key software c a calls later pub_key' software' b u h again =
    calm_spent_fails sha256 later token pub_key' software' d.db b kept (
      ap (λ (p : Result (ℕ × WorkerState) × Conn Database). p.0)
        ((register-Atomic sha256 later token pub_key' software').whole d b again))
  where
    d : Conn Database
    d = run sha256 calls (register sha256 now token pub_key software c).1

    kept : IsSpent (sha256 token) d.db
    kept =
        run-Keeps (IsSpent (sha256 token)) Always (IsSpent-StatementsKeep (sha256 token)) sha256
          calls _ (admits-All calls) (register-IsSpent sha256 now token pub_key software c a u h)
