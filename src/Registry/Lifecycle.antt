-- ===== src/Registry/Lifecycle.antt =====
-- For internal/registry/registry.go: the changes of a worker's state.
use vpsa_network_discovery.Prelude.{
  ℕ, ◌≡◌, refl, sym, subst, ◌⊎◌, inl, inr, Bool, true, false, Option, none, some, List, [], ◌∷◌,
  ◌++◌, Bytes, arith, if◌then◌else◌, ==_iff, ap, All-Unit, ◌≢◌, ◌∙◌, Bool-cases, ◌==◌,
}
use vpsa_network_discovery.Database.{Database, Worker, WorkerState, retired, same_state, state_set}
use vpsa_network_discovery.Sql.{
  Result, ok, err, Conn, transact, exec, unknown_worker, pure, recover, continue,
}
use vpsa_network_discovery.Sql.Faults.{calm}
use vpsa_network_discovery.Sql.Keeps.{Keeps-exec, Keeps-recover}
use vpsa_network_discovery.Sql.Table.{update, exists, find, find-update, find_sound}
use vpsa_network_discovery.Registry.{
  set_state, apply_decision, allowed, is_worker, with_state, revocable, select_state, is_named,
}
use vpsa_network_discovery.Registry.Runs.{
  Call, sets_state, decides, perform, run, run_keeps, set_state-Atomic,
}
use vpsa_network_discovery.Registry.Quiet.{state_of, In, Quiet-In}

-- The database after a change of state.
abbrev pub moved : ℕ → ℕ → WorkerState → WorkerState → Bytes → Database → Database
moved now w current new reason db = record db {
  workers = update (is_worker w) (with_state current new reason now) db.workers;
  keys =
      if same_state new retired
      then update (revocable w) (λ k. record k { revoked_at = some now }) db.keys
      else db.keys;
  events =
      db.events ++ record { worker = w; event_type = state_set current new; created_at = now } ∷ [];
}

calm-moved :
    (now w : ℕ) (new : WorkerState) (reason : Bytes) (db : Database) (r : Worker)
    → find (is_worker w) db.workers ≡ some r
    → (set_state now w (some new) reason (calm db)).0 ≡ ok tt
    → (allowed r.state (some new) ≡ true)
      × ((set_state now w (some new) reason (calm db)).1.db ≡ moved now w r.state new reason db)
unfolding set_state transact exec
calm-moved now w new reason db r e h = ground arith

unnamed_fails :
    (now w : ℕ) (reason : Bytes) (db : Database) (o : Option Worker)
    → find (is_worker w) db.workers ≡ o
    → (set_state now w none reason (calm db)).0 ≢ ok tt
unfolding set_state transact exec
unnamed_fails now w reason db o e h = ground arith

missing_fails :
    (now w : ℕ) (t : WorkerState) (reason : Bytes) (db : Database)
    → find (is_worker w) db.workers ≡ none
    → (set_state now w (some t) reason (calm db)).0 ≢ ok tt
unfolding set_state transact exec
missing_fails now w t reason db e h = ground arith

-- A change of state that succeeds is one of the table transitions, from the state that the worker
-- had, and leaves the database with the worker moved, its keys revoked if it retires, and the
-- event recorded.
pub set_state-moved :
    (now w : ℕ) (new : Option WorkerState) (reason : Bytes) (c : Conn Database)
    → (set_state now w new reason c).0 ≡ ok tt
    → (t : WorkerState) × (r : Worker) × (new ≡ some t)
      × (find (is_worker w) c.db.workers ≡ some r)
      × (allowed r.state (some t) ≡ true)
      × ((set_state now w new reason c).1.db ≡ moved now w r.state t reason c.db)
set_state-moved now w new reason c h =
    by_new new (find (is_worker w) c.db.workers) refl h
      ((set_state-Atomic now w new reason).whole c tt h)
  where
    by_new :
        (new : Option WorkerState) (o : Option Worker)
        → find (is_worker w) c.db.workers ≡ o
        → (set_state now w new reason c).0 ≡ ok tt
        → set_state now w new reason (calm c.db) ≡ (ok tt, calm (set_state now w new reason c).1.db)
        → (t : WorkerState) × (r : Worker) × (new ≡ some t)
          × (find (is_worker w) c.db.workers ≡ some r)
          × (allowed r.state (some t) ≡ true)
          × ((set_state now w new reason c).1.db ≡ moved now w r.state t reason c.db)
    by_new none o e h q = absurd (unnamed_fails now w reason c.db o e (ap (λ p. p.0) q))
    by_new (some t) none e h q = absurd (missing_fails now w t reason c.db e (ap (λ p. p.0) q))
    by_new (some t) (some r) e h q =
        let m = calm-moved now w t reason c.db r e (ap (λ p. p.0) q) in
        (t, r, refl, e, m.0, ap (λ (p : Result (Unit {0}) × Conn Database). p.1.db) (sym q) ∙ m.1)

-- Where a worker can be after a call, from a state.
abbrev pub Legal : ℕ → WorkerState → Database → Type 0
Legal v s db =
    (t : WorkerState) × (state_of v db.workers ≡ some t) × ((t ≡ s) ⊎ (allowed s (some t) ≡ true))

state_of-moved :
    (v now w : ℕ) (t : WorkerState) (reason : Bytes) (db : Database) (r : Worker) (s : WorkerState)
    → find (is_worker w) db.workers ≡ some r
    → allowed r.state (some t) ≡ true
    → state_of v db.workers ≡ some s
    → Legal v s (moved now w r.state t reason db)
state_of-moved v now w t reason db r s e a h = by_row (find (is_worker v) db.workers) refl
  where
    by_row :
        (o : Option Worker)
        → find (is_worker v) db.workers ≡ o
        → Legal v s (moved now w r.state t reason db)
    by_row none q = absurd (ground arith)
    by_row (some x) q = elim (Bool-cases (x.id == w)) [
      | inl same ↦ (
        t,
        ground (
          arith,
          same,
          q,
          find-update (is_worker v) (is_worker w) (with_state r.state t reason now) db.workers
              (λ y. refl),
        ),
        inr (
            ground (
              arith,
              same,
              q,
              e,
              find_sound (is_worker v) db.workers x q,
              ==_iff x.id w,
              ==_iff x.id v,
            )),
      )
      | inr other ↦ (
        s,
        ground (
          arith,
          other,
          q,
          find-update (is_worker v) (is_worker w) (with_state r.state t reason now) db.workers
              (λ y. refl),
        ),
        inl refl,
      )
    ]

set_state-Legal :
    (v now w : ℕ) (new : Option WorkerState) (reason : Bytes) (c : Conn Database) (s : WorkerState)
    → state_of v c.db.workers ≡ some s
    → Legal v s (set_state now w new reason c).1.db
set_state-Legal v now w new reason c s h = by_result (set_state now w new reason c).0 refl
  where
    by_result :
        (o : Result (Unit {0}))
        → (set_state now w new reason c).0 ≡ o
        → Legal v s (set_state now w new reason c).1.db
    by_result (err e) p = (s, rw ((set_state-Atomic now w new reason).nothing c e p) h, inl refl)
    by_result (ok tt) p =
        let (t, r, named, found, legal, after) = set_state-moved now w new reason c p in
        subst (Legal v s) (sym after) (state_of-moved v now w t reason c.db r s found legal h)

select_state-same :
    (w : ℕ) (c : Conn Database) → (recover unknown_worker (exec (select_state w)) c).1.db ≡ c.db
unfolding select_state
select_state-same w c =
    (Keeps-recover unknown_worker _
        (Keeps-exec {P = λ db. db ≡ c.db} (select_state w) (λ db a db' h e. ground arith))).at
      c refl

apply_decision-Legal :
    (v now w : ℕ) (state : Option WorkerState) (reason : Bytes) (c : Conn Database)
    (s : WorkerState)
    → state_of v c.db.workers ≡ some s
    → Legal v s (apply_decision now w state reason c).1.db
unfolding apply_decision
apply_decision-Legal v now w state reason c s h =
    let (r, c') = recover unknown_worker (exec (select_state w)) c in
    by_read r c' (rw (select_state-same w c) h)
  where
    by_choice :
        (b : Bool) (c' : Conn Database)
        → state_of v c'.db.workers ≡ some s
        → Legal v s ((if b then pure tt else set_state now w state reason) c').1.db
    by_choice true c' h' = (s, h', inl refl)
    by_choice false c' h' = set_state-Legal v now w state reason c' s h'

    by_read :
        (r : Result WorkerState) (c' : Conn Database)
        → state_of v c'.db.workers ≡ some s
        → Legal v s
            (continue r
              (λ current. if is_named current state then pure tt else set_state now w state reason)
              c').1.db
    by_read (err e) c' h' = (s, h', inl refl)
    by_read (ok current) c' h' = by_choice (is_named current state) c' h'

-- Each call of the registry, whatever fails, leaves the state of every registered worker or moves
-- it along the table transitions.
pub perform-Legal :
    (sha256 : Bytes → Bytes) (call : Call) (c : Conn Database) (v : ℕ) (s : WorkerState)
    → state_of v c.db.workers ≡ some s
    → Legal v s (perform sha256 call c).db
unfolding perform
perform-Legal sha256 (sets_state now w new reason) c v s h =
    set_state-Legal v now w new reason c s h
perform-Legal sha256 (decides now w state reason) c v s h =
    apply_decision-Legal v now w state reason c s h
perform-Legal sha256 call c v s h = (s, Quiet-In v s sha256 call tt c h, inl refl)

Legal-retired : (v : ℕ) (db : Database) → Legal v retired db → state_of v db.workers ≡ some retired
unfolding allowed exists
Legal-retired v db (t, h, inl e) = rw (← e) h
Legal-retired v db (t, h, inr f) = cc

-- Retirement is final: after any history of calls, at any times and under any failures of the
-- database, a retired worker is still retired.
pub run-retired :
    (sha256 : Bytes → Bytes) (calls : List Call) (c : Conn Database) (v : ℕ)
    → state_of v c.db.workers ≡ some retired
    → state_of v (run sha256 calls c).db.workers ≡ some retired
run-retired sha256 calls c v h =
    run_keeps (In v retired) (λ _. Unit) sha256
      (λ call d _ i.
        Legal-retired v (perform sha256 call d).db (perform-Legal sha256 call d v retired i))
      calls c (All-Unit calls) h
