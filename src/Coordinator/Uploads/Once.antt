-- ===== src/Coordinator/Uploads/Once.antt =====
-- For internal/coordinator/measurement.go: batches that come again.
use vpsa_network_discovery.Prelude.{
  ℕ, ◌≡◌, ◌≢◌, refl, sym, ap, ◌∙◌, subst, Bool, true, false, ◌||◌, Option, none, some, List, [],
  ◌∷◌, ◌++◌, Bytes, length, ◌==◌, ==_refl, if◌then◌else◌, arith,
}
use vpsa_network_discovery.Database.{Database, Measurement, Worker, WorkerState}
use vpsa_network_discovery.Sql.{Result, ok, err, unknown_worker, Conn, exec, transact}
use vpsa_network_discovery.Sql.Faults.{Steady-transact, transact-err}
use vpsa_network_discovery.Sql.Keeps.{
  Keeps, Keeps-leaves, Keeps-bind, Keeps-if, Keeps-pure, Keeps-transact, Leaves,
}
use vpsa_network_discovery.Sql.Table.{exists, find, exists-append, exists-single}
use vpsa_network_discovery.Registry.{is_worker, active_keys, select_keys, found_keys, valid_keys}
use vpsa_network_discovery.Coordinator.Uploads.{
  UploadLibrary, UploadRequest, UploadReply, problem, accepted, is_batch, insert_batch, select_held,
  copy_rows, copy_any, Outcome, store, upload_body, upload_tx, after_keys, upload_observations,
}
use vpsa_network_discovery.Coordinator.Uploads.Batches.{
  upload-Stores, calm_known, Steady-body, tx_db,
}

-- A batch that is known stays known, and is never stored again.
known_again :
    (lib : UploadLibrary) (keys : List Bytes) (w : ℕ) (req : UploadRequest) (b : ℕ)
    (c : Conn Database)
    → lib.parse_uuid req.batch_id ≡ some b
    → exists (is_batch b) c.db.batches ≡ true
    → (upload_tx lib keys w req c).1.db ≡ c.db
known_again lib keys w req b c e h =
    ap (λ (k : Conn Database). k.db) (tx_db lib keys w req c)
    ∙ by_result (transact (upload_body lib keys w req) c).0 refl
  where
    by_result :
        (r : Result Outcome)
        → (transact (upload_body lib keys w req) c).0 ≡ r
        → (transact (upload_body lib keys w req) c).1.db ≡ c.db
    by_result (err x) q = transact-err _ c x q
    by_result (ok o) q =
        let s = (Steady-transact _ (Steady-body lib keys w req)).at c o q in
        sym (
          ap (λ (r : Result Outcome × Conn Database). r.1.db)
            (sym (calm_known lib keys w req c.db b e h) ∙ s))

not_accepted :
    (lib : UploadLibrary) (keys : List Bytes) (w : ℕ) (req : UploadRequest) (b : ℕ)
    (c : Conn Database) (x y : ℕ)
    → lib.parse_uuid req.batch_id ≡ some b
    → exists (is_batch b) c.db.batches ≡ true
    → (upload_tx lib keys w req c).0 ≢ accepted x y
not_accepted lib keys w req b c x y e h q =
    let s = upload-Stores lib keys w req c x y q in clash s.batch (sym s.parsed ∙ e) s.new
  where
    clash :
        (d : ℕ)
        → ◌≡◌ {A = Option ℕ} (some d) (some b)
        → exists (is_batch d) c.db.batches ≡ false
        → ⊥
    clash d p n = false_true (sym (subst (λ (o : Option ℕ). at o) p n) ∙ h)
      where
        at : Option ℕ → Type 0
        at none = Unit
        at (some i) = exists (is_batch i) c.db.batches ≡ false

        false_true : false ≡ true → ⊥
        false_true z = cc

record Knows (b : ℕ) (db : Database) : Type 0 where
  row : exists (is_batch b) db.batches ≡ true

insert_batch-Knows : (b w n : ℕ) (o : Option ℕ) → Keeps (Knows b) (exec (insert_batch o w n))
unfolding insert_batch
insert_batch-Knows b w n none = Keeps-leaves _ λ db v. tt
insert_batch-Knows b w n (some d) =
    Keeps-leaves _ λ db v. by_known db v (exists (is_batch d) db.batches)
  where
    by_known :
        (db : Database)
        → Knows b db
        → (x : Bool)
        → Leaves (Knows b) (
            if x
            then ok (false, db)
            else ok (
              true,
              record db {
                batches = db.batches ++ record { batch = d; worker = w; observations = n } ∷ [];
              },
            ))
    by_known db v true = v
    by_known db v false = record {
      row = ground (
        arith,
        v.row,
        exists-append (is_batch b) db.batches
            (record { batch = d; worker = w; observations = n } ∷ []),
      );
    }

copy_any-Knows : (b : ℕ) (rows : List Measurement) → Keeps (Knows b) (copy_any rows)
unfolding copy_any copy_rows
copy_any-Knows b [] = Keeps-pure tt
copy_any-Knows b (r ∷ rows) = Keeps-leaves _ λ db v. record { row = v.row }

body-Knows :
    (lib : UploadLibrary) (keys : List Bytes) (w : ℕ) (req : UploadRequest) (b : ℕ)
    → Keeps (Knows b) (upload_body lib keys w req)
unfolding upload_body store select_held
body-Knows lib keys w req b =
    Keeps-bind _ _ (insert_batch-Knows b w (length req.observations) (lib.parse_uuid req.batch_id))
      λ fresh.
        Keeps-if fresh _ _
          (Keeps-bind _ _ (Keeps-leaves _ λ db v. v)
            λ held. Keeps-bind _ _ (copy_any-Knows b _) λ _. Keeps-pure _)
          (Keeps-pure _)

tx-Knows :
    (lib : UploadLibrary) (keys : List Bytes) (w : ℕ) (req : UploadRequest) (b : ℕ)
    (c : Conn Database)
    → exists (is_batch b) c.db.batches ≡ true
    → exists (is_batch b) (upload_tx lib keys w req c).1.db.batches ≡ true
tx-Knows lib keys w req b c h =
    subst (λ (k : Conn Database). exists (is_batch b) k.db.batches ≡ true)
      (sym (tx_db lib keys w req c))
      ((Keeps-transact _ (body-Knows lib keys w req b)).at c (record { row = h })).row

-- A request to the endpoint: the time, the worker and the body.
pub record Upload : Type 0 where
  pub now : ℕ
  pub worker : ℕ
  pub request : Option UploadRequest

unfoldable pub uploads : UploadLibrary → List Upload → Conn Database → Conn Database
unfolding upload_observations
uploads lib [] c = c
uploads lib (u ∷ us) c = uploads lib us (upload_observations lib u.now u.worker u.request c).1

-- One request, by the keys read.
module _ (lib : UploadLibrary) (P : UploadReply → Conn Database → Type 0) (c : Conn Database)
    (refused : (n : ℕ) → P (problem n) c) where
  by_request :
      (now w : ℕ) (o : Option UploadRequest)
      → ((req : UploadRequest) (r : Result (List Bytes × WorkerState))
          → o ≡ some req
          → (active_keys now w c).0 ≡ r
          → P
              (after_keys lib w req r (active_keys now w c).1).0
              (after_keys lib w req r (active_keys now w c).1).1)
      → P (upload_observations lib now w o c).0 (upload_observations lib now w o c).1
  unfolding upload_observations
  by_request now w none k = refused 400
  by_request now w (some req) k =
      by_guard (length req.batch_id == 0 || length req.observations == 0)
    where
      got : UploadReply × Conn Database
      got = after_keys lib w req (active_keys now w c).0 (active_keys now w c).1

      guarded : Bool → UploadReply × Conn Database
      guarded b = if b then (problem 422, c) else got

      by_guard : (b : Bool) → P (guarded b).0 (guarded b).1
      by_guard true = refused 422
      by_guard false = k req (active_keys now w c).0 refl refl

read_only : (now w : ℕ) (c : Conn Database) → (active_keys now w c).1.db ≡ c.db
unfolding active_keys select_keys found_keys exec
read_only now w c =
    (Keeps-leaves {P = λ db. db ≡ c.db} _ λ db v. by_row db v (find (is_worker w) db.workers)).at c
      refl
  where
    by_keys :
        (db : Database)
        → db ≡ c.db
        → (s : WorkerState) (ks : List Bytes) → Leaves (λ d. d ≡ c.db) (found_keys s ks db)
    by_keys db v s [] = tt
    by_keys db v s (k ∷ ks) = v

    by_row :
        (db : Database)
        → db ≡ c.db
        → (o : Option Worker)
        → Leaves
            (λ d. d ≡ c.db)
            (elim o [
              | none ↦ err unknown_worker
              | some r ↦ found_keys r.state (valid_keys now w db.keys) db
            ])
    by_row db v none = tt
    by_row db v (some r) = by_keys db v r.state (valid_keys now w db.keys)

upload-Knows :
    (lib : UploadLibrary) (b now w : ℕ) (o : Option UploadRequest) (c : Conn Database)
    → exists (is_batch b) c.db.batches ≡ true
    → exists (is_batch b) (upload_observations lib now w o c).1.db.batches ≡ true
unfolding after_keys
upload-Knows lib b now w o c h =
    by_request lib (λ r d. exists (is_batch b) d.db.batches ≡ true) c (λ n. h) now w o
      λ req r e q. by_keys req r
  where
    h' : exists (is_batch b) (active_keys now w c).1.db.batches ≡ true
    h' = subst (λ (d : Database). exists (is_batch b) d.batches ≡ true) (sym (read_only now w c)) h

    by_keys :
        (req : UploadRequest) (r : Result (List Bytes × WorkerState))
        → exists (is_batch b) (after_keys lib w req r (active_keys now w c).1).1.db.batches ≡ true
    by_keys req (err e) = h'
    by_keys req (ok (keys, s)) = tx-Knows lib keys w req b (active_keys now w c).1 h'

uploads-Knows :
    (lib : UploadLibrary) (b : ℕ) (us : List Upload) (c : Conn Database)
    → exists (is_batch b) c.db.batches ≡ true
    → exists (is_batch b) (uploads lib us c).db.batches ≡ true
unfolding uploads
uploads-Knows lib b [] c h = h
uploads-Knows lib b (u ∷ us) c h =
    uploads-Knows lib b us _ (upload-Knows lib b u.now u.worker u.request c h)

again_refused :
    (lib : UploadLibrary) (b now w : ℕ) (req : UploadRequest) (c : Conn Database)
    → lib.parse_uuid req.batch_id ≡ some b
    → exists (is_batch b) c.db.batches ≡ true
    → ((upload_observations lib now w (some req) c).1.db ≡ c.db)
      × ((x y : ℕ) → (upload_observations lib now w (some req) c).0 ≢ accepted x y)
unfolding after_keys
again_refused lib b now w req c e h =
    by_request lib Refused c (λ n. (refl, λ x y q. cc)) now w (some req)
      λ req' r q g. by_keys req' r q
  where
    Refused : UploadReply → Conn Database → Type 0
    Refused r d = (d.db ≡ c.db) × ((x y : ℕ) → r ≢ accepted x y)

    h' : exists (is_batch b) (active_keys now w c).1.db.batches ≡ true
    h' = subst (λ (d : Database). exists (is_batch b) d.batches ≡ true) (sym (read_only now w c)) h

    in_tx :
        (keys : List Bytes)
        → Refused
            (upload_tx lib keys w req (active_keys now w c).1).0
            (upload_tx lib keys w req (active_keys now w c).1).1
    in_tx keys = (
      known_again lib keys w req b (active_keys now w c).1 e h' ∙ read_only now w c,
      λ x y. not_accepted lib keys w req b (active_keys now w c).1 x y e h',
    )

    by_keys :
        (req' : UploadRequest) (r : Result (List Bytes × WorkerState))
        → some req ≡ some req'
        → Refused
            (after_keys lib w req' r (active_keys now w c).1).0
            (after_keys lib w req' r (active_keys now w c).1).1
    by_keys req' (err x) q = (read_only now w c, λ x y z. cc)
    by_keys req' (ok (keys, s)) q =
        let same : req ≡ req' = cc in
        subst
          (λ (r : UploadRequest).
            Refused (upload_tx lib keys w r (active_keys now w c).1).0
              (upload_tx lib keys w r (active_keys now w c).1).1)
          same (in_tx keys)

-- The batch of an accepted upload is known from then on.
accepted-Knows :
    (lib : UploadLibrary) (now w : ℕ) (req : UploadRequest) (c : Conn Database) (a n : ℕ)
    → (upload_observations lib now w (some req) c).0 ≡ accepted a n
    → (b : ℕ) × (lib.parse_uuid req.batch_id ≡ some b)
      × (exists (is_batch b) (upload_observations lib now w (some req) c).1.db.batches ≡ true)
unfolding after_keys
accepted-Knows lib now w req c a n =
    by_request lib
      (λ r d.
        r ≡ accepted a n
        → (b : ℕ) × (lib.parse_uuid req.batch_id ≡ some b)
          × (exists (is_batch b) d.db.batches ≡ true))
      c (λ m q. cc) now w (some req) λ req' r e g. by_keys req' r e
  where
    Known : Conn Database → Type 0
    Known d =
        (b : ℕ) × (lib.parse_uuid req.batch_id ≡ some b) × (exists (is_batch b) d.db.batches ≡ true)

    in_tx :
        (keys : List Bytes) (d : Conn Database)
        → (upload_tx lib keys w req d).0 ≡ accepted a n
        → Known (upload_tx lib keys w req d).1
    in_tx keys d h =
        let s = upload-Stores lib keys w req d a n h in
        (
          s.batch,
          s.parsed,
          subst (λ (k : Database). exists (is_batch s.batch) k.batches ≡ true) (sym s.leaves)
              (ground (
                arith,
                ==_refl s.batch,
                exists-append (is_batch s.batch) d.db.batches (
                    record { batch = s.batch; worker = w; observations = length req.observations }
                    ∷ []),
                exists-single (is_batch s.batch) (record {
                  batch = s.batch;
                  worker = w;
                  observations = length req.observations;
                }),
              )),
        )

    by_keys :
        (req' : UploadRequest) (r : Result (List Bytes × WorkerState))
        → some req ≡ some req'
        → (after_keys lib w req' r (active_keys now w c).1).0 ≡ accepted a n
        → Known (after_keys lib w req' r (active_keys now w c).1).1
    by_keys req' (err e) q h = cc
    by_keys req' (ok (keys, s)) q h =
        let same : req ≡ req' = cc in
        subst
          (λ (r : UploadRequest).
            (upload_tx lib keys w r (active_keys now w c).1).0 ≡ accepted a n
            → Known (upload_tx lib keys w r (active_keys now w c).1).1)
          same (in_tx keys (active_keys now w c).1) h

-- A batch whose upload was accepted is stored once: whatever uploads come between, another upload
-- with the same batch id, by any worker, leaves the database as it is and is not answered as
-- accepted.
pub upload-once :
    (lib : UploadLibrary) (now w : ℕ) (req : UploadRequest) (c : Conn Database) (a n : ℕ)
    → (upload_observations lib now w (some req) c).0 ≡ accepted a n
    → (us : List Upload) (now' w' : ℕ) (req' : UploadRequest)
    → lib.parse_uuid req'.batch_id ≡ lib.parse_uuid req.batch_id
    → ((upload_observations lib now' w'
          (some req')
          (uploads lib us (upload_observations lib now w (some req) c).1)).1.db
        ≡ (uploads lib us (upload_observations lib now w (some req) c).1).db)
      × ((x y : ℕ)
          → (upload_observations lib now' w'
              (some req')
              (uploads lib us (upload_observations lib now w (some req) c).1)).0
            ≢ accepted x y)
upload-once lib now w req c a n h us now' w' req' e =
    let (b, p, k) = accepted-Knows lib now w req c a n h in
    again_refused lib b now' w' req' (uploads lib us (upload_observations lib now w (some req) c).1)
      (e ∙ p) (uploads-Knows lib b us _ k)
