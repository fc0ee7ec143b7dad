-- ===== src/Examples/Work.antt =====
-- Assignments, leases and uploads.
use vpsa_network_discovery.Sql.{Result}
use vpsa_network_discovery.Sql.Hoare.{Post}
use vpsa_network_discovery.Scheduler.{
  with_defaults, drain, release_drained, close_drained, generate,
}
use vpsa_network_discovery.Scheduler.Redundancy.{IsServed, reconcile-IsServed}
use vpsa_network_discovery.Scheduler.Idempotence.{reconcile_twice}
use vpsa_network_discovery.Prelude.{
  ℕ, ◌≡◌, ◌≢◌, refl, true, false, none, some, [], ◌∷◌, Bytes, arith, bytes_eq,
}
use vpsa_network_discovery.Database.{Database, has_status}
use vpsa_network_discovery.Sql.{Conn, exec}
use vpsa_network_discovery.Sql.Table.{select, exists, count, find}
use vpsa_network_discovery.Scheduler.{Config, reconcile}
use vpsa_network_discovery.Scheduler.Consistency.{IsConsistent, reconcile-IsConsistent, is_taken}
use vpsa_network_discovery.Coordinator.Leasing.{lease_tx}
use vpsa_network_discovery.Coordinator.Leasing.Claiming.{lease-IsConsistent}
use vpsa_network_discovery.Coordinator.Leasing.Limits.{HoldsAtMost, lease-HoldsAtMost}
use vpsa_network_discovery.Coordinator.Leasing.Diversity.{IsDiverse, lease-IsDiverse}
use vpsa_network_discovery.Registry.{active_keys, select_keys, found_keys, valid_keys}
use vpsa_network_discovery.Observations.{Observation, Codec, verify, verify_payload, payload}
use vpsa_network_discovery.Coordinator.Uploads.{
  UploadLibrary, UploadRequest, accepted, upload_observations, after_keys, upload_tx, upload_run,
  upload_body, upload_reply, insert_batch, select_held, held_rows, validate, verify_obs, passes,
  lookup, measurement_of, store, copy_any, copy_rows,
}
use vpsa_network_discovery.Coordinator.Uploads.Provenance.{IsAccounted, upload-IsAccounted}
use vpsa_network_discovery.Coordinator.Uploads.Once.{uploads, upload-once}
use vpsa_network_discovery.Examples.Data.{fleet, steady, shaky}

abbrev settings : Config
settings = record {
  redundancy = 2;
  fast_interval = 0;
  mid_interval = 0;
  slow_interval = 0;
  min_interval = 0;
}

fleet-IsConsistent : IsConsistent fleet
unfolding count exists is_taken has_status
fleet-IsConsistent = record {
  single = λ id. ground arith;
  held = λ id h. ground arith;
  unique = λ id. ground arith;
  fresh = λ id h. ground arith;
}

fleet-IsDiverse : IsDiverse fleet
unfolding count exists
fleet-IsDiverse = record { unique = λ id. ground arith; spread = λ w g. ground arith }

reconcile-IsConsistent_example : IsConsistent (reconcile settings (λ t. t) 5 shaky).1.db
reconcile-IsConsistent_example =
    (reconcile-IsConsistent settings (λ t. t) 5).at shaky fleet-IsConsistent

lease-IsConsistent_example : IsConsistent (lease_tx 5 300 1 (λ id. false) 2 steady).1.db
lease-IsConsistent_example =
    (lease-IsConsistent 5 300 1 (λ id. false) 2).at steady fleet-IsConsistent

lease-IsDiverse_example : IsDiverse (lease_tx 5 300 1 (λ id. false) 2 steady).1.db
lease-IsDiverse_example = (lease-IsDiverse 5 300 1 (λ id. false) 2).at steady fleet-IsDiverse

lease-HoldsAtMost_example : HoldsAtMost 1 2 (lease_tx 5 300 1 (λ id. false) 2 steady).1.db
unfolding count
lease-HoldsAtMost_example =
    (lease-HoldsAtMost 1 2 5 300 (λ id. false) 2 (omega arith)).at steady
      (record { bound = omega arith })

abbrev codec : Codec
codec = record {
  marshal = λ o. some o.target;
  base64_encode = λ b. b;
  base64_decode = λ text. some text;
  ed25519_sign = λ key message. 1 ∷ [];
  ed25519_verify = λ key message sig. bytes_eq sig (1 ∷ []);
}

abbrev library : UploadLibrary
library = record { codec = codec; is_address = λ text. true; parse_uuid = λ text. some 1 }

abbrev seen : ℕ → Bytes → Observation
seen id sig = record {
  assignment = id;
  target = 1 ∷ [];
  probe_type = [];
  measured_at = 4;
  ok = true;
  rtt_ms = none;
  packets_sent = 1;
  packets_lost = 0;
  metrics = [];
  signature = sig;
}

-- One observation of a held assignment, one of another, one that is not signed.
abbrev batch : UploadRequest
batch = record {
  batch_id = 1 ∷ [];
  observations = seen 1 (1 ∷ []) ∷ seen 2 (1 ∷ []) ∷ seen 1 [] ∷ [];
}

upload-IsAccounted_example :
    IsAccounted library 5 1 batch fleet
      (upload_observations library 5 1 (some batch) steady).1.db
      1
      2
unfolding upload_observations after_keys active_keys select_keys found_keys valid_keys upload_tx
    upload_run upload_body upload_reply insert_batch select_held held_rows validate verify_obs
    passes lookup measurement_of store copy_any copy_rows exec select exists find verify
    verify_payload payload bytes_eq
upload-IsAccounted_example = upload-IsAccounted library 5 1 batch steady 1 2 refl

abbrev after_upload : Conn Database
after_upload = (upload_observations library 5 1 (some batch) steady).1

upload-once_example :
    ((upload_observations library 9 1
        (some batch)
        (uploads library (record { now = 6; worker = 2; request = none } ∷ []) after_upload)).1.db
      ≡ (uploads library (record { now = 6; worker = 2; request = none } ∷ []) after_upload).db)
    × ((x y : ℕ)
        → (upload_observations library 9 1
            (some batch)
            (uploads library (record { now = 6; worker = 2; request = none } ∷ []) after_upload)).0
          ≢ accepted x y)
unfolding upload_observations after_keys active_keys select_keys found_keys valid_keys upload_tx
    upload_run upload_body upload_reply insert_batch select_held held_rows validate verify_obs
    passes lookup measurement_of store copy_any copy_rows exec select exists find verify
    verify_payload payload bytes_eq
upload-once_example =
    upload-once library 5 1 batch steady 1 2 refl
      (record { now = 6; worker = 2; request = none } ∷ []) 9 1 batch refl

abbrev one_pass : Result (Unit {0}) × Conn Database
one_pass = reconcile settings (λ t. t) 5 steady

reconcile-IsServed_example :
    Post (IsServed (with_defaults settings)) (λ db. Unit {0}) one_pass.0 one_pass.1
reconcile-IsServed_example = (reconcile-IsServed settings (λ t. t) 5).at steady tt

reconcile_twice_example : (reconcile settings (λ t. t) 9 one_pass.1).1.db ≡ one_pass.1.db
unfolding reconcile drain release_drained close_drained generate exec
reconcile_twice_example = reconcile_twice settings (λ t. t) 5 9 steady one_pass.1 refl refl
