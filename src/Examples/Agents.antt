-- ===== src/Examples/Agents.antt =====
-- The worker: what it runs, queues, uploads and installs.
use vpsa_network_discovery.Prelude.{
  ℕ, ◌≡◌, refl, Bool, true, false, none, some, [], ◌∷◌, ◌++◌, Bytes, arith, bytes_eq, replicate,
  drop,
}
use vpsa_network_discovery.Sql.Table.{exists, count}
use vpsa_network_discovery.Observations.{
  Observation, Codec, sign, verify, verified, sign-verify, payload,
}
use vpsa_network_discovery.Worker.Executor.{
  Assignment, lease, queue_size, enqueue, unanswered, Uploader, flush,
}
use vpsa_network_discovery.Worker.Executor.Running.{IsSafe, lease-IsSafe}
use vpsa_network_discovery.Worker.Executor.Queue.{enqueue_last}
use vpsa_network_discovery.Worker.Executor.Flushing.{Flushed, flush-Flushed, flush_empties}
use vpsa_network_discovery.Artifact.{Library, Manifest}
use vpsa_network_discovery.Worker.Agent.{Agent, Answers, written, Heartbeat, tick, active_text}
use vpsa_network_discovery.Worker.Agent.Ready.{IsReady, tick-IsReady}

abbrev task : ℕ → Assignment
task id = record { id = id; target = id ∷ []; probe_type = []; interval = 60 }

-- The snapshot lists the address of the first task only.
abbrev listed : Bytes → Bool
listed t = bytes_eq t (1 ∷ [])

lease-IsSafe_example : IsSafe listed (lease listed (some (task 1 ∷ task 2 ∷ [])) [])
unfolding exists count
lease-IsSafe_example =
    lease-IsSafe listed (some (task 1 ∷ task 2 ∷ [])) []
      (record { listed = refl; once = λ id. ground arith })

abbrev seen : Observation
seen = record {
  assignment = 1;
  target = 1 ∷ [];
  probe_type = [];
  measured_at = 4;
  ok = true;
  rtt_ms = none;
  packets_sent = 1;
  packets_lost = 0;
  metrics = [];
  signature = [];
}

enqueue_last_example :
    (enqueue 0 0 seen (replicate queue_size seen)).0
      ++ (enqueue 0 0 seen (replicate queue_size seen)).1
    ≡ drop 1 (replicate queue_size seen) ++ seen ∷ []
enqueue_last_example = enqueue_last 0 0 seen (replicate queue_size seen) (omega arith)

abbrev waiting : Uploader
waiting = record { pending = seen ∷ seen ∷ []; submitted = 0; attempts = [] }

flush-Flushed_example : Flushed waiting (flush 2 0 (unanswered ∷ []) waiting)
flush-Flushed_example = flush-Flushed 2 0 (unanswered ∷ []) waiting

flush_empties_example : (flush 2 0 [] waiting).pending ≡ []
flush_empties_example = flush_empties 0 waiting

abbrev codec : Codec
codec = record {
  marshal = λ o. some o.target;
  base64_encode = λ b. b;
  base64_decode = λ text. some text;
  ed25519_sign = λ key message. 1 ∷ [];
  ed25519_verify = λ key message sig. bytes_eq sig (1 ∷ []);
}

sign-verify_example : verify codec (record seen { signature = 1 ∷ [] }) [] ≡ verified
unfolding sign payload bytes_eq
sign-verify_example =
    sign-verify codec [] [] (record { verifies = λ m. refl; nonempty = λ m. refl })
      (record { decodes = λ b. refl; nonempty = λ b h. h }) seen
      (record seen { signature = 1 ∷ [] }) refl

abbrev library : Library
library = record {
  marshal = λ m. some m.version;
  unmarshal = λ b. none;
  marshal_pointer = λ p. p.version;
  base64_encode = λ b. b;
  base64_decode = λ text. some text;
  sha256 = λ b. b;
  ed25519_sign = λ key message. 1 ∷ [];
  ed25519_verify = λ key message sig. bytes_eq sig (1 ∷ []);
}

abbrev manifest : Manifest
manifest = record {
  version = 2 ∷ [];
  created_at = 1;
  object_key = [];
  sha256 = b'0' ∷ b'7' ∷ [];
  size_bytes = 1;
  prefix_count_v4 = 1;
  prefix_count_v6 = 0;
  target_count = 1;
  min_worker_version = [];
  signature = 1 ∷ [];
}

abbrev fresh : Agent
fresh = record {
  dir = record { key = []; worker_id = 1 ∷ []; snapshot = none; version = [] };
  client_key = [];
  last_state = [];
  waiting_since = none;
  last_wait_log = none;
  executor_key = [];
  executor_runs = false;
}

abbrev answers : Answers
answers = record {
  manifest = some manifest;
  download = some (some (7 ∷ []));
  renames = true;
  writes = written;
}

abbrev beat : Heartbeat
beat = record { state = active_text; rotations = []; snapshot = some (2 ∷ []) }

fresh-IsReady : IsReady library [] fresh
fresh-IsReady = record {
  verified = record { proven = λ content h. absurd (ground arith) };
  present = λ h. absurd (ground arith);
  running = λ h. absurd (ground arith);
}

tick-IsReady_example : IsReady library [] (tick library [] 5 answers (some beat) fresh)
tick-IsReady_example = tick-IsReady library [] 5 answers (some beat) fresh fresh-IsReady
