-- ===== src/Coordinator/Endpoints/Answers.antt =====
-- For internal/coordinator/server.go and rotation.go: answers and the database.
use vpsa_network_discovery.Prelude.{
  ℕ, ◌≡◌, refl, ap, ◌⊎◌, inl, inr, Bool, true, false, not, ◌&&◌, Option, none, some, Bytes,
  is_empty, bytes_eq, if◌then◌else◌,
}
use vpsa_network_discovery.Database.{Database, Worker, WorkerState}
use vpsa_network_discovery.Sql.{
  Result, ok, err, Error, db_error, bad_token, unknown_worker, bad_transition, bad_token_hash, Conn,
}
use vpsa_network_discovery.Sql.Table.{find}
use vpsa_network_discovery.Registry.{set_state, register, is_worker, allowed}
use vpsa_network_discovery.Registry.Runs.{set_state-Atomic, register-Atomic}
use vpsa_network_discovery.Registry.Lifecycle.{moved, set_state-moved}
use vpsa_network_discovery.Coordinator.Endpoints.{
  EndpointLibrary, Reply, problem, done, decode_key, RegisterRequest, Circumstances, register_reply,
  dev_register, register_worker, unit_reply, state_problem, admin_set_state,
}

-- A change of state by the administrator is answered with success only where it is one of the
-- table, and then it has been made; any problem that is answered has changed nothing.
pub admin_set_state-answers :
    (now w : ℕ) (body : Option (Option WorkerState × Bytes)) (c : Conn Database)
    → (((n : ℕ) × ((admin_set_state now w body c).0 ≡ problem n))
        × ((admin_set_state now w body c).1.db ≡ c.db))
      ⊎ ((s : WorkerState) × (reason : Bytes) × (r : Worker) × ((admin_set_state now w body c).0
            ≡ done)
          × (body ≡ some (some s, reason))
          × (find (is_worker w) c.db.workers ≡ some r)
          × (allowed r.state (some s) ≡ true)
          × ((admin_set_state now w body c).1.db ≡ moved now w r.state s reason c.db))
unfolding admin_set_state unit_reply state_problem
admin_set_state-answers now w none c = inl ((400, refl), refl)
admin_set_state-answers now w (some (state, reason)) c =
    by_result (set_state now w state reason c).0 refl
  where
    problem_of : Error → ℕ
    problem_of unknown_worker = 404
    problem_of bad_transition = 409
    problem_of db_error = 500
    problem_of bad_token = 500
    problem_of bad_token_hash = 500

    is_problem : (e : Error) → state_problem e ≡ problem (problem_of e)
    is_problem unknown_worker = refl
    is_problem bad_transition = refl
    is_problem db_error = refl
    is_problem bad_token = refl
    is_problem bad_token_hash = refl

    Goal : Reply → Type 0
    Goal reply =
        (((n : ℕ) × (reply ≡ problem n)) × ((set_state now w state reason c).1.db ≡ c.db))
        ⊎ ((s : WorkerState) × (reason' : Bytes) × (r : Worker) × (reply ≡ done)
            × (◌≡◌ {A = Option (Option WorkerState × Bytes)} (some (state, reason))
                (some (some s, reason')))
            × (find (is_worker w) c.db.workers ≡ some r)
            × (allowed r.state (some s) ≡ true)
            × ((set_state now w state reason c).1.db ≡ moved now w r.state s reason' c.db))

    by_result :
        (r : Result (Unit {0}))
        → (set_state now w state reason c).0 ≡ r
        → Goal (unit_reply state_problem r)
    by_result (err e) p =
        inl ((problem_of e, is_problem e), (set_state-Atomic now w state reason).nothing c e p)
    by_result (ok tt) p =
        let (s, r, named, found, legal, after) = set_state-moved now w state reason c p in
        inr (
          s,
          reason,
          r,
          refl,
          ap (λ (o : Option WorkerState). some (o, reason)) named,
          found,
          legal,
          after,
        )

-- Where no development token is configured, a registration that is answered with a problem has
-- changed nothing.
register_worker-problem :
    (lib : EndpointLibrary) (x : Circumstances) (body : Option RegisterRequest) (c : Conn Database)
    (n : ℕ)
    → is_empty x.dev_token ≡ true
    → (register_worker lib x body c).0 ≡ problem n
    → (register_worker lib x body c).1.db ≡ c.db
unfolding register_worker register_reply
register_worker-problem lib x none c n d h = refl
register_worker-problem lib x (some req) c n d h = by_key (decode_key lib req.public_key) h
  where
    tried : Bytes → Result (ℕ × WorkerState) × Conn Database
    tried k = register lib.sha256 x.now req.enrollment_token k req.software_version c

    chosen : Bytes → Bool → Reply × Conn Database
    chosen k b =
        if not b && bytes_eq req.enrollment_token x.dev_token
        then dev_register lib x req k c
        else register_reply x (tried k).0 (tried k).1

    by_result :
        (k : Bytes) (r : Result (ℕ × WorkerState))
        → (tried k).0 ≡ r
        → (register_reply x r (tried k).1).0 ≡ problem n
        → (register_reply x r (tried k).1).1.db ≡ c.db
    by_result k (ok (w, s)) p q = cc
    by_result k (err e) p q =
        (register-Atomic lib.sha256 x.now req.enrollment_token k req.software_version).nothing c e p

    by_dev :
        (k : Bytes) (b : Bool) → b ≡ true → (chosen k b).0 ≡ problem n → (chosen k b).1.db ≡ c.db
    by_dev k true e q = by_result k (tried k).0 refl q
    by_dev k false e q = cc

    keyed : Option Bytes → Reply × Conn Database
    keyed o = elim o [ none ↦ (problem 422, c) | some k ↦ chosen k (is_empty x.dev_token) ]

    by_key : (o : Option Bytes) → (keyed o).0 ≡ problem n → (keyed o).1.db ≡ c.db
    by_key none q = refl
    by_key (some k) q = by_dev k (is_empty x.dev_token) d q
