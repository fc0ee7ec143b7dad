-- ===== src/Coordinator/Leasing.antt =====
-- internal/coordinator/measurement.go: leasing and releasing assignments.
pub mod Consistency
pub mod Claiming
pub mod Limits
pub mod Diversity
use vpsa_network_discovery.Prelude.{
  ℕ, zero, suc, ◌+◌, ◌-◌, ◌*◌, ◌≡◌, Bool, true, false, not, ◌&&◌, ◌||◌, Option, none, some, List,
  [], ◌∷◌, ◌++◌, map, Bytes, ltb, leb, ◌==◌, if◌then◌else◌, is_none, some_and, take,
}
use vpsa_network_discovery.Database.{
  Database, Assignment, AssignmentStatus, open_, leased, has_status, Lease, ProbeTarget, Asn,
  Worker,
}
use vpsa_network_discovery.Sql.{Result, ok, err, M, Conn, exec, transact, pure, ◌>>=◌, ◌>>◌}
use vpsa_network_discovery.Sql.Table.{select, update, exists, count, find}
use vpsa_network_discovery.Registry.{is_worker}
use vpsa_network_discovery.Scheduler.{set_status, is_held}
use vpsa_network_discovery.WireAuth.{second}

-- The fields of Config that leasing reads; 0 stands for a value that is not positive.
pub record LeaseConfig : Type 0 where
  pub lease_ttl : ℕ
  pub max_assignments : ℕ

-- leaseTTL
unfoldable pub ttl_of : LeaseConfig → ℕ
ttl_of cfg = if ltb 0 cfg.lease_ttl then cfg.lease_ttl else 5 * 60 * second

abbrev pub held_by : ℕ → Lease → Bool
held_by w l = l.worker == w && is_held l

-- Renew this worker's live leases.
unfoldable pub renew : ℕ → ℕ → Database → Result (Unit {0} × Database)
renew w expires db = ok (
  tt,
  record db { leases = update (held_by w) (λ l. record l { expires_at = expires }) db.leases },
)

abbrev pub on_assignment : (Lease → Bool) → ℕ → Lease → Bool
on_assignment p id l = l.assignment == id && p l

-- The leases that meet `p` are released, and their assignments, if leased, are open again.
unfoldable pub give_back : ℕ → (Lease → Bool) → Database → Result (Unit {0} × Database)
unfolding has_status
give_back now p db = ok (
  tt,
  record db {
    leases = update p (λ l. record l { released_at = some now }) db.leases;
    assignments =
        update (λ a. has_status a.status leased && exists (on_assignment p a.id) db.leases)
          (set_status open_) db.assignments;
  },
)

abbrev pub is_expired : ℕ → Lease → Bool
is_expired now l = is_held l && ltb l.expires_at now

-- Reap expired leases fleet-wide.
unfoldable pub reap : ℕ → Database → Result (Unit {0} × Database)
unfolding give_back
reap now = give_back now (is_expired now)

unfoldable pub count_held : ℕ → Database → Result (ℕ × Database)
count_held w db = ok (count (held_by w) db.leases, db)

abbrev pub has_id : ℕ → Assignment → Bool
has_id id a = a.id == id

-- mine: the worker holds a lease in the group
unfoldable pub holds_group : Database → ℕ → ℕ → Bool
holds_group db w g =
    exists
      (λ l.
        held_by w l
        && exists (λ (b : Assignment). b.id == l.assignment && b.group == g) db.assignments)
      db.leases

-- The provider announces the worker's own network.
unfoldable pub own_network : Database → Worker → Assignment → Bool
own_network db me a =
    some_and me.source_asn
      (λ source. exists (λ (ra : Asn). ra.provider == a.provider && ra.asn == source) db.asns)

unfoldable pub claimable : Database → Worker → Assignment → Bool
unfolding has_status own_network
claimable db me a =
    has_status a.status open_ && (not (holds_group db me.id a.group) && not (own_network db me a))

unfoldable pub mem : ℕ → List ℕ → Bool
mem n [] = false
mem n (m ∷ ms) = n == m || mem n ms

-- distinct on (redundancy_group) … order by redundancy_group, id: the first of each group
unfoldable pub first_of_groups : (Assignment → Bool) → List ℕ → List Assignment → List Assignment
unfolding mem
first_of_groups p seen [] = []
first_of_groups p seen (a ∷ as_) =
    let taken = a ∷ first_of_groups p (a.group ∷ seen) as_ in
    let passed = first_of_groups p seen as_ in
    if p a && not (mem a.group seen) then taken else passed

-- claimed: those not locked by another transaction, up to a limit
unfoldable pub claimed : Database → Worker → (ℕ → Bool) → ℕ → List Assignment
unfolding claimable first_of_groups
claimed db me locked want =
    take want
      (select (λ a. not (locked a.id)) (first_of_groups (claimable db me) [] db.assignments))

abbrev pub new_lease : ℕ → ℕ → Assignment → Lease
new_lease w expires a = record {
  assignment = a.id;
  worker = w;
  expires_at = expires;
  released_at = none;
}

unfoldable pub claim_all : ℕ → ℕ → List Assignment → Database → Database
claim_all w expires chosen db = record db {
  assignments = update (λ a. exists (has_id a.id) chosen) (set_status leased) db.assignments;
  leases = db.leases ++ map (new_lease w expires) chosen;
}

-- Claim open assignments: nothing for a worker that is not there.
unfoldable pub claim : ℕ → ℕ → (ℕ → Bool) → ℕ → Database → Result (Unit {0} × Database)
unfolding claimed claim_all
claim w expires locked want db = elim (find (is_worker w) db.workers) [
  | none ↦ ok (tt, db)
  | some me ↦ ok (tt, claim_all w expires (claimed db me locked want) db)
]

-- leasedAssignment
pub record LeasedAssignment : Type 0 where
  pub assignment : ℕ
  pub target : Bytes
  pub interval : ℕ

-- The row of the reply for a lease: none where a join finds nothing.
unfoldable pub reply_row : Database → Lease → Option LeasedAssignment
unfolding has_status
reply_row db l = elim (find (has_id l.assignment) db.assignments) [
  | none ↦ none
  | some a ↦ elim (find (λ (t : ProbeTarget). t.id == a.target) db.targets) [
    | none ↦ none
    | some t ↦
        if has_status a.status leased
        then some (record { assignment = a.id; target = t.address; interval = a.interval })
        else none
  ]
]

unfoldable pub collect : (Lease → Option LeasedAssignment) → List Lease → List LeasedAssignment
collect f [] = []
collect f (l ∷ ls) = let rest = collect f ls in elim (f l) [ none ↦ rest | some r ↦ r ∷ rest ]

unfoldable pub select_leased : ℕ → Database → Result (List LeasedAssignment × Database)
unfolding reply_row collect
select_leased w db = ok (collect (reply_row db) (select (held_by w) db.leases), db)

unfoldable pub lease_tx : ℕ → ℕ → ℕ → (ℕ → Bool) → ℕ → M Database (List LeasedAssignment)
unfolding renew reap count_held claim select_leased
lease_tx now ttl w locked capacity = transact (do
  exec (renew w (now + ttl))
  exec (reap now)
  held ← exec (count_held w)
  if ltb held capacity then exec (claim w (now + ttl) locked (capacity - held)) else pure tt
  exec (select_leased w))

pub data LeaseReply : Type 0 where
  problem : ℕ → LeaseReply
  paused : LeaseReply
  assignments : List LeasedAssignment → LeaseReply

unfoldable pub lease_reply : Result (List LeasedAssignment) → LeaseReply
lease_reply (ok rows) = assignments rows
lease_reply (err e) = problem 500

-- The clamp to MaxAssignmentsPerWorker.
unfoldable pub clamp : LeaseConfig → ℕ → ℕ
clamp cfg capacity =
    if ltb 0 cfg.max_assignments && ltb cfg.max_assignments capacity
    then cfg.max_assignments
    else capacity

-- leaseAssignments. The capacity is `none` where the body does not decode.
unfoldable pub lease_assignments :
    LeaseConfig → Bool → ℕ → ℕ → (ℕ → Bool) → Option ℕ → Conn Database → LeaseReply × Conn Database
unfolding clamp lease_reply ttl_of
lease_assignments cfg is_paused now w locked none c = (problem 400, c)
lease_assignments cfg is_paused now w locked (some zero) c = (problem 400, c)
lease_assignments cfg is_paused now w locked (some (suc n)) c =
    let (r, c') = lease_tx now (ttl_of cfg) w locked (clamp cfg (suc n)) c in
    if is_paused then (paused, c) else (lease_reply r, c')

-- releaseAssignments: the statement; the handler answers an error with 500
unfoldable pub release_assignments : ℕ → ℕ → List ℕ → M Database (Unit {0})
unfolding give_back mem
release_assignments now w ids = exec (give_back now (λ l. held_by w l && mem l.assignment ids))
