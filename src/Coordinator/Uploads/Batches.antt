-- ===== src/Coordinator/Uploads/Batches.antt =====
-- For internal/coordinator/measurement.go: the state after an upload, by its reply.
use vpsa_network_discovery.Prelude.{
  ℕ, ◌≡◌, refl, sym, ap, ◌∙◌, ◌≢◌, subst, Bool, true, false, Option, none, some, List, [], ◌∷◌,
  ◌++◌, Bytes, length, arith, append-nil,
}
use vpsa_network_discovery.Database.{Database, Measurement}
use vpsa_network_discovery.Sql.{Result, ok, err, Conn, exec, transact, close}
use vpsa_network_discovery.Sql.Faults.{calm, Steady, steady_rules, Steady-if, Steady-transact}
use vpsa_network_discovery.Sql.Table.{select, exists}
use vpsa_network_discovery.Coordinator.Leasing.{held_by}
use vpsa_network_discovery.Coordinator.Uploads.{
  UploadLibrary, UploadRequest, accepted, is_batch, insert_batch, held_rows, select_held, validate,
  copy_rows, copy_any, Outcome, known, stored, store, upload_body, upload_reply, upload_run,
  upload_tx,
}

module _ (lib : UploadLibrary) (keys : List Bytes) (w : ℕ) (req : UploadRequest) where
  abbrev pub checked : Database → List Measurement × ℕ
  checked db =
      validate lib keys (held_rows db.assignments (select (held_by w) db.leases)) w req.observations

  -- The database of an upload is that of a plain transaction.
  pub tx_db :
      (c : Conn Database)
      → (upload_tx lib keys w req c).1 ≡ (transact (upload_body lib keys w req) c).1
  unfolding upload_tx upload_run transact
  tx_db c = ground arith

  reply_accepted :
      (db : Database) (c : Conn Database) (a n : ℕ) (r : Result Outcome)
      → upload_reply r (close db r c).0 ≡ accepted a n
      → (close db r c).0 ≡ ok (stored a n)
  unfolding upload_reply
  reply_accepted db c a n (err e) h = cc
  reply_accepted db c a n (ok known) h = cc
  reply_accepted db c a n (ok (stored x y)) h = ground arith

  tx_accepted :
      (c : Conn Database) (a n : ℕ)
      → (upload_tx lib keys w req c).0 ≡ accepted a n
      → (transact (upload_body lib keys w req) c).0 ≡ ok (stored a n)
  unfolding upload_tx upload_run transact
  tx_accepted c a n h = at_faults c.faults h
    where
      at_faults :
          (fs : List Bool)
          → (upload_tx lib keys w req (record { db = c.db; faults = fs })).0 ≡ accepted a n
          → (transact (upload_body lib keys w req) (record { db = c.db; faults = fs })).0
            ≡ ok (stored a n)
      at_faults [] q =
          reply_accepted c.db (upload_body lib keys w req (record { db = c.db; faults = [] })).1 a n
            (upload_body lib keys w req (record { db = c.db; faults = [] })).0 q
      at_faults (true ∷ fs) q = cc
      at_faults (false ∷ fs) q =
          reply_accepted c.db (upload_body lib keys w req (record { db = c.db; faults = fs })).1 a n
            (upload_body lib keys w req (record { db = c.db; faults = fs })).0 q

  Steady-copy : (rows : List Measurement) → Steady (copy_any rows)
  unfolding copy_any
  Steady-copy [] = search steady_rules
  Steady-copy (r ∷ rows) = search steady_rules

  pub Steady-body : Steady (upload_body lib keys w req)
  unfolding upload_body store
  Steady-body = search (steady_rules, Steady-if, Steady-copy)

  -- The run of the body on which nothing fails, by the batch id and by whether it is known.
  abbrev pub stored_db : ℕ → Database → Database
  stored_db b db = record db {
    batches =
        db.batches ++ record { batch = b; worker = w; observations = length req.observations } ∷ [];
    measurements = db.measurements ++ (checked db).0;
  }

  calm_rows :
      (b : ℕ) (db : Database) (rows : List Measurement) (rejected : ℕ)
      → (store w
          (rows, rejected)
          (calm (record db {
            batches =
                db.batches
                ++ record { batch = b; worker = w; observations = length req.observations } ∷ [];
          })))
        ≡ (
          ok (stored (length rows) rejected),
          calm (record db {
            batches =
                db.batches
                ++ record { batch = b; worker = w; observations = length req.observations } ∷ [];
            measurements = db.measurements ++ rows;
          }),
        )
  unfolding store copy_any copy_rows exec
  calm_rows b db [] rejected = rw (append-nil db.measurements)
  calm_rows b db (r ∷ rows) rejected = refl

  calm_fresh :
      (db : Database) (b : ℕ)
      → lib.parse_uuid req.batch_id ≡ some b
      → exists (is_batch b) db.batches ≡ false
      → transact (upload_body lib keys w req) (calm db)
        ≡ (ok (stored (length (checked db).0) (checked db).1), calm (stored_db b db))
  unfolding upload_body insert_batch select_held exec transact
  calm_fresh db b e x = rw (e, x, calm_rows b db (checked db).0 (checked db).1)

  pub calm_known :
      (db : Database) (b : ℕ)
      → lib.parse_uuid req.batch_id ≡ some b
      → exists (is_batch b) db.batches ≡ true
      → transact (upload_body lib keys w req) (calm db) ≡ (ok known, calm db)
  unfolding upload_body insert_batch exec transact
  calm_known db b e x = rw (e, x)

  calm_refused :
      (db : Database) (a n : ℕ)
      → lib.parse_uuid req.batch_id ≡ none
      → (transact (upload_body lib keys w req) (calm db)).0 ≢ ok (stored a n)
  unfolding upload_body insert_batch exec transact
  calm_refused db a n e h = ground (arith, e, h)

  -- What an accepted upload stores.
  pub record Stores (db db' : Database) (a n : ℕ) : Type 0 where
    pub batch : ℕ
    pub parsed : lib.parse_uuid req.batch_id ≡ some batch
    pub new : exists (is_batch batch) db.batches ≡ false
    pub taken : a ≡ length (checked db).0
    pub refused : n ≡ (checked db).1
    pub leaves : db' ≡ stored_db batch db

  abbrev Ran : Type 0
  Ran = Result Outcome × Conn Database

  calm-Stores :
      (db : Database) (a n : ℕ)
      → (transact (upload_body lib keys w req) (calm db)).0 ≡ ok (stored a n)
      → Stores db (transact (upload_body lib keys w req) (calm db)).1.db a n
  calm-Stores db a n h = by_batch (lib.parse_uuid req.batch_id) refl
    where
      run : Ran
      run = transact (upload_body lib keys w req) (calm db)

      same :
          (x y z t : ℕ)
          → ◌≡◌ {A = Result Outcome} (ok (stored x y)) (ok (stored z t))
          → (z ≡ x) × (t ≡ y)
      same x y z t q = (cc, cc)

      not_known : ◌≡◌ {A = Result Outcome} (ok known) (ok (stored a n)) → ⊥
      not_known q = cc

      by_known :
          (b : ℕ)
          → lib.parse_uuid req.batch_id ≡ some b
          → (x : Bool) → exists (is_batch b) db.batches ≡ x
          → Stores db run.1.db a n
      by_known b e true x =
          absurd (not_known (sym (ap (λ (r : Ran). r.0) (calm_known db b e x)) ∙ h))
      by_known b e false x =
          let f = calm_fresh db b e x in
          let (p, q) =
            same (length (checked db).0) (checked db).1 a n (sym (ap (λ (r : Ran). r.0) f) ∙ h) in
          record {
            batch = b;
            parsed = e;
            new = x;
            taken = p;
            refused = q;
            leaves = ap (λ (r : Ran). r.1.db) f;
          }

      by_batch : (p : Option ℕ) → lib.parse_uuid req.batch_id ≡ p → Stores db run.1.db a n
      by_batch none e = absurd (calm_refused db a n e h)
      by_batch (some b) e = by_known b e (exists (is_batch b) db.batches) refl

  pub upload-Stores :
      (c : Conn Database) (a n : ℕ)
      → (upload_tx lib keys w req c).0 ≡ accepted a n
      → Stores c.db (upload_tx lib keys w req c).1.db a n
  upload-Stores c a n h =
      let t = tx_accepted c a n h in
      let q = (Steady-transact _ Steady-body).at c (stored a n) t in
      subst (λ (d : Database). Stores c.db d a n)
        (ap (λ (r : Ran). r.1.db) q ∙ ap (λ (k : Conn Database). k.db) (sym (tx_db c)))
        (calm-Stores c.db a n (ap (λ (r : Ran). r.0) q))
