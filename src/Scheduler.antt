-- ===== src/Scheduler.antt =====
-- internal/scheduler/scheduler.go: assignments kept in step with the published targets.
pub mod Consistency
pub mod Redundancy
pub mod Idempotence
use vpsa_network_discovery.Prelude.{
  ℕ, zero, suc, ◌+◌, ◌-◌, ◌≡◌, Bool, true, false, not, ◌&&◌, ◌||◌, Option, none, some, List, [],
  ◌∷◌, ◌++◌, Bytes, ltb, leb, ◌==◌, if◌then◌else◌, is_none, max,
}
use vpsa_network_discovery.Database.{
  Database, Assignment, AssignmentStatus, open_, leased, draining, closed, has_status, Lease,
  ProbeTarget, Provider, Snapshot, is_published,
}
use vpsa_network_discovery.Sql.{Result, ok, err, M, exec, ◌>>=◌, ◌>>◌}
use vpsa_network_discovery.Sql.Table.{select, update, exists, count, find}

-- Config. A number that is not positive stands for the default, and is written 0.
pub record Config : Type 0 where
  pub redundancy : ℕ
  pub fast_interval : ℕ
  pub mid_interval : ℕ
  pub slow_interval : ℕ
  pub min_interval : ℕ

abbrev pub or_default : ℕ → ℕ → ℕ
or_default zero d = d
or_default (suc n) d = suc n

-- withDefaults
unfoldable pub with_defaults : Config → Config
with_defaults c = record {
  redundancy = or_default c.redundancy 3;
  fast_interval = or_default c.fast_interval 30;
  mid_interval = or_default c.mid_interval 60;
  slow_interval = or_default c.slow_interval 120;
  min_interval = or_default c.min_interval 15;
}

-- The target belongs to the published snapshot and to a provider that is monitored and listed.
unfoldable pub eligible : Database → ProbeTarget → Bool
eligible db t =
    t.active
    && (exists (λ (s : Snapshot). s.id == t.snapshot && is_published s.status) db.snapshots
        && exists
            (λ (p : Provider).
              p.id == t.provider && (p.monitoring_enabled && is_none p.delisted_at))
            db.providers)

-- status in ('open','leased')
unfoldable pub is_live : Assignment → Bool
unfolding has_status
is_live a = has_status a.status open_ || has_status a.status leased

unfoldable pub belongs : Database → Assignment → Bool
belongs db a = exists (λ (t : ProbeTarget). t.id == a.target && eligible db t) db.targets

abbrev pub set_status : AssignmentStatus → Assignment → Assignment
set_status s a = record a { status = s }

-- Mark the assignments that no longer belong.
unfoldable pub drain : Database → Result (Unit {0} × Database)
drain db = ok (
  tt,
  record db {
    assignments =
        update (λ a. is_live a && not (belongs db a)) (set_status draining) db.assignments;
  },
)

abbrev pub is_held : Lease → Bool
is_held l = is_none l.released_at

unfoldable pub drains : List Assignment → Lease → Bool
unfolding has_status
drains as_ l = exists (λ (a : Assignment). a.id == l.assignment && has_status a.status draining) as_

-- Release the live leases on draining assignments.
unfoldable pub release_drained : ℕ → Database → Result (Unit {0} × Database)
release_drained now db = ok (
  tt,
  record db {
    leases =
        update (λ l. drains db.assignments l && is_held l)
          (λ l. record l { released_at = some now }) db.leases;
  },
)

-- Close them.
unfoldable pub close_drained : Database → Result (Unit {0} × Database)
unfolding has_status
close_drained db = ok (
  tt,
  record db {
    assignments = update (λ a. has_status a.status draining) (set_status closed) db.assignments;
  },
)

-- The interval by the provider's priority, with its floor.
unfoldable pub interval_for : Config → ℕ → ℕ
interval_for c priority = max c.min_interval (
    if leb priority 10
    then c.fast_interval
    else if leb priority 50
    then c.mid_interval
    else c.slow_interval)

unfoldable pub priority_of : Database → ProbeTarget → ℕ
priority_of db t = elim (find (λ (p : Provider). p.id == t.provider) db.providers) [
  | none ↦ 0
  | some p ↦ p.priority
]

abbrev pub live_for : ℕ → Assignment → Bool
live_for t a = a.target == t && is_live a

abbrev pub new_assignment : ℕ → ℕ → ℕ → ℕ → ℕ → Assignment
new_assignment id target provider interval group = record {
  id = id;
  target = target;
  provider = provider;
  interval = interval;
  group = group;
  status = open_;
}

-- `n` replicas for a target, with ids from `seq` on.
unfoldable pub replicas : ℕ → ℕ → ℕ → ℕ → ℕ → ℕ → List Assignment
replicas zero seq target provider interval group = []
replicas (suc n) seq target provider interval group =
    new_assignment seq target provider interval group
    ∷ replicas n (suc seq) target provider interval group

-- The missing replicas of one target: none unless it is eligible.
unfoldable pub missing : Config → Database → ProbeTarget → ℕ
missing c db t = if eligible db t then c.redundancy - count (live_for t.id) db.assignments else 0

-- The missing replicas of each target, in turn. `group_of` is the md5 of the target's id.
unfoldable pub generated : Config → (ℕ → ℕ) → Database → ℕ → List ProbeTarget → List Assignment
unfolding replicas missing
generated c group_of db seq [] = []
generated c group_of db seq (t ∷ ts) =
    replicas (missing c db t) seq t.id t.provider (interval_for c (priority_of db t))
      (group_of t.id)
    ++ generated c group_of db (seq + missing c db t) ts

unfoldable pub missing_all : Config → Database → List ProbeTarget → ℕ
missing_all c db [] = 0
missing_all c db (t ∷ ts) = missing c db t + missing_all c db ts

unfoldable pub generate : Config → (ℕ → ℕ) → Database → Result (Unit {0} × Database)
unfolding generated missing_all
generate c group_of db = ok (
  tt,
  record db {
    assignments = db.assignments ++ generated c group_of db db.assignment_seq db.targets;
    assignment_seq = db.assignment_seq + missing_all c db db.targets;
  },
)

-- Reconcile: four statements, in no transaction.
unfoldable pub reconcile : Config → (ℕ → ℕ) → ℕ → M Database (Unit {0})
reconcile c group_of now = do
  exec drain
  exec (release_drained now)
  exec close_drained
  exec (generate (with_defaults c) group_of)
