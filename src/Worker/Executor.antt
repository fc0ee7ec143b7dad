-- ===== src/Worker/Executor.antt =====
-- internal/worker/executor.go: the assignments that run, the bounded queue and the uploader.
pub mod Running
pub mod Queue
pub mod Flushing
use vpsa_network_discovery.Prelude.{
  ℕ, zero, suc, ◌+◌, ◌-◌, ◌≡◌, Bool, true, false, not, ◌&&◌, ◌||◌, Option, none, some, List, [],
  ◌∷◌, ◌++◌, Bytes, length, take, drop, leb, ltb, ◌==◌, if◌then◌else◌, is_none,
}
use vpsa_network_discovery.Sql.Table.{select, exists, find}
use vpsa_network_discovery.Observations.{Observation, Codec, sign}

-- Assignment, as the coordinator sends it; `params` is not read.
pub record Assignment : Type 0 where
  pub id : ℕ
  pub target : Bytes
  pub probe_type : Bytes
  pub interval : ℕ

abbrev pub has_id : ℕ → Assignment → Bool
has_id id a = a.id == id

-- current[a.ID] = a, for each in turn: the last of an id counts.
unfoldable pub current : List Assignment → List Assignment
current [] = []
current (a ∷ as_) = let rest = current as_ in if exists (has_id a.id) rest then rest else a ∷ rest

-- Stop what is no longer held. A running assignment keeps the target that it was started with.
unfoldable pub stop : List Assignment → List Assignment → List Assignment
stop cur running = select (λ r. exists (has_id r.id) cur) running

-- Start the new ones whose target the verified snapshot lists. The loop over a Go map may take
-- any order; here it is that of the list.
unfoldable pub start : (Bytes → Bool) → List Assignment → List Assignment → List Assignment
start in_snapshot running [] = running
start in_snapshot running (a ∷ as_) =
    if exists (has_id a.id) running
    then start in_snapshot running as_
    else if in_snapshot a.target
    then start in_snapshot (running ++ a ∷ []) as_
    else start in_snapshot running as_

-- lease: the reply of the coordinator is `none` on an error.
unfoldable pub lease : (Bytes → Bool) → Option (List Assignment) → List Assignment → List Assignment
unfolding current stop start
lease in_snapshot none running = running
lease in_snapshot (some as_) running = start in_snapshot (stop (current as_) running) (current as_)

-- stopAll
unfoldable pub stop_all : List Assignment → List Assignment
stop_all running = []

-- What a probe measured, and when.
pub record ProbeResult : Type 0 where
  pub ok : Bool
  pub rtt_ms : Bytes
  pub packets_sent : ℕ
  pub packets_lost : ℕ
  pub metrics : Bytes

-- execute, up to the queue: `none` where the probe or the signature fails.
unfoldable pub observe : Codec → Bytes → Assignment → ℕ → Option ProbeResult → Option Observation
observe lib key a measured none = none
observe lib key a measured (some r) =
    sign lib
      (record {
        assignment = a.id;
        target = a.target;
        probe_type = a.probe_type;
        measured_at = measured;
        ok = r.ok;
        rtt_ms = if r.ok then some r.rtt_ms else none;
        packets_sent = r.packets_sent;
        packets_lost = r.packets_lost;
        metrics = r.metrics;
        signature = [];
      })
      key

-- The capacity of the channel.
abbrev pub queue_size : ℕ
queue_size = 4096

-- What a probe loop is about to do to the queue.
pub data Producer : Type 0 where
  offering : Observation → Producer
  dropping : Observation → Producer
  retrying : Observation → Producer
  finished : Producer

-- One select of execute: offer, or drop the oldest, or offer once more. A send on a Go channel
-- goes through where the channel holds less than its capacity.
unfoldable pub produce : Producer → List Observation → Producer × List Observation
produce (offering o) q =
    if ltb (length q) queue_size then (finished, q ++ o ∷ []) else (dropping o, q)
produce (dropping o) q = (retrying o, drop 1 q)
produce (retrying o) q =
    if ltb (length q) queue_size then (finished, q ++ o ∷ []) else (finished, q)
produce finished q = (finished, q)

-- The end of execute, with what the uploader receives in between: `a` observations before the
-- second select and `b` before the third. The result is what it received, and the queue.
unfoldable pub enqueue :
    ℕ → ℕ → Observation → List Observation → List Observation × List Observation
unfolding produce
enqueue a b o q =
    let (p, q') = produce (offering o) q in
    let (p', q'') = produce p (drop a q') in (take a q' ++ take b q'', (produce p' (drop b q'')).1)

abbrev pub batch_size : ℕ
batch_size = 256

-- How an upload ends: with a good answer, stored but without one (a timeout, a lost connection), or
-- not stored and without one.
pub data Outcome : Type 0 where
  acknowledged unanswered failed : Outcome

abbrev pub is_acknowledged : Outcome → Bool
is_acknowledged acknowledged = true
is_acknowledged unanswered = false
is_acknowledged failed = false

abbrev pub is_taken : Outcome → Bool
is_taken acknowledged = true
is_taken unanswered = true
is_taken failed = false

-- A try to upload a batch, under the id drawn for it.
pub record Attempt : Type 0 where
  pub batch_id : ℕ
  pub batch : List Observation
  pub outcome : Outcome

pub record Uploader : Type 0 where
  pub pending : List Observation
  pub submitted : ℕ
  pub attempts : List Attempt

abbrev pub next_outcome : List Outcome → Outcome
next_outcome [] = acknowledged
next_outcome (o ∷ os) = o

-- flush: `outcomes` are those of the uploads to come (none left: they succeed), `id` is the next
-- uuid; the client sees only whether the answer is good. The fuel is at least the number of
-- observations.
unfoldable pub flush : ℕ → ℕ → List Outcome → Uploader → Uploader
flush zero id outcomes u = u
flush (suc fuel) id outcomes u = elim u.pending [
  | [] ↦ u
  | o ∷ os ↦
      let batch = take batch_size (o ∷ os) in
      let outcome = next_outcome outcomes in
      let tried = u.attempts ++ record { batch_id = id; batch = batch; outcome = outcome } ∷ [] in
      let later = flush fuel (suc id) (drop 1 outcomes) (record {
        pending = drop batch_size (o ∷ os);
        submitted = u.submitted + length batch;
        attempts = tried;
      }) in
      if is_acknowledged outcome then later else record u { attempts = tried }
]
