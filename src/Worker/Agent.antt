-- ===== src/Worker/Agent.antt =====
-- internal/worker/agent.go and state.go: registration, the heartbeat and the verified snapshot.
-- The answers of the coordinator, of the disk and of the clock are arguments.
pub mod Verified
pub mod Ready
use vpsa_network_discovery.Prelude.{
  ℕ, zero, suc, ◌+◌, ◌-◌, ◌*◌, ◌≡◌, Bool, true, false, not, ◌&&◌, ◌||◌, Option, none, some, List,
  [], ◌∷◌, ◌++◌, Bytes, bytes_eq, is_empty, if◌then◌else◌, ltb, is_none,
}
use vpsa_network_discovery.Artifact.{
  Library, Manifest, Verdict, genuine, verify, FileVerdict, intact, verify_file,
}
use vpsa_network_discovery.WireAuth.{second}

-- The state directory: worker.key, worker.id, routing.sqlite and routing.version (trimmed).
pub record Dir : Type 0 where
  pub key : Bytes
  pub worker_id : Bytes
  pub snapshot : Option Bytes
  pub version : Bytes

-- os.WriteFile: a failure leaves some text behind.
pub data Write : Type 0 where
  written : Write
  torn : Bytes → Write

-- InstallSnapshot: Rename, then WriteFile; whether it succeeds.
unfoldable pub install : Bool → Write → Bytes → Bytes → Dir → Bool × Dir
install false write content version d = (false, d)
install true written content version d =
    (true, record d { snapshot = some content; version = version })
install true (torn left) content version d =
    (false, record d { snapshot = some content; version = left })

-- What SyncSnapshot meets: the manifest, the content of the file downloaded, the disk.
pub record Answers : Type 0 where
  pub manifest : Option Manifest
  -- `none`: the download fails. `some none`: the file cannot be read back.
  pub download : Option (Option Bytes)
  pub renames : Bool
  pub writes : Write

pub data Synced : Type 0 where
  no_manifest manifest_rejected up_to_date no_download artifact_rejected not_installed installed :
      Synced

unfoldable pub accepts : Verdict → Bool
accepts genuine = true
accepts v = false

unfoldable pub is_intact : FileVerdict → Bool
is_intact intact = true
is_intact v = false

unfoldable pub finish_install : Bool × Dir → Synced × Dir
finish_install (ok, d) = if ok then (installed, d) else (not_installed, d)

unfoldable pub check_file : Library → Answers → Manifest → Option Bytes → Dir → Synced × Dir
unfolding is_intact install finish_install
check_file lib a m none d = (artifact_rejected, d)
check_file lib a m (some content) d =
    if is_intact (verify_file lib (some content) m)
    then finish_install (install a.renames a.writes content m.version d)
    else (artifact_rejected, d)

unfoldable pub download_file :
    Library → Answers → Manifest → Option (Option Bytes) → Dir → Synced × Dir
unfolding check_file
download_file lib a m none d = (no_download, d)
download_file lib a m (some content) d = check_file lib a m content d

-- SyncSnapshot. A version older than the installed one is only logged.
unfoldable pub sync_manifest : Library → Bytes → Answers → Option Manifest → Dir → Synced × Dir
unfolding accepts download_file
sync_manifest lib pub_key a none d = (no_manifest, d)
sync_manifest lib pub_key a (some m) d =
    if not (accepts (verify lib m pub_key))
    then (manifest_rejected, d)
    else if bytes_eq m.version d.version
    then (up_to_date, d)
    else download_file lib a m a.download d

unfoldable pub sync_snapshot : Library → Bytes → Answers → Dir → Synced × Dir
unfolding sync_manifest
sync_snapshot lib pub_key a d = sync_manifest lib pub_key a a.manifest d

-- The agent and its executor, which signs with the key that it was made with.
pub record Agent : Type 0 where
  pub dir : Dir
  pub client_key : Bytes
  pub last_state : Bytes
  pub waiting_since : Option ℕ
  pub last_wait_log : Option ℕ
  pub executor_key : Bytes
  pub executor_runs : Bool

abbrev pub pending_text : Bytes
pending_text = b'p' ∷ b'e' ∷ b'n' ∷ b'd' ∷ b'i' ∷ b'n' ∷ b'g' ∷ []

abbrev pub active_text : Bytes
active_text = b'a' ∷ b'c' ∷ b't' ∷ b'i' ∷ b'v' ∷ b'e' ∷ []

abbrev pub quarantined_text : Bytes
quarantined_text = b'q' ∷ b'u' ∷ b'a' ∷ b'r' ∷ b'a' ∷ b'n' ∷ b't' ∷ b'i' ∷ b'n' ∷ b'e' ∷ b'd' ∷ []

-- waitingReminder
abbrev pub waiting_reminder : ℕ
waiting_reminder = 10 * 60 * second

-- noteState, the log aside
unfoldable pub note_state : Bytes → Agent → Agent
note_state state a =
    if bytes_eq state a.last_state
    then a
    else if bytes_eq state pending_text
    then record a { last_state = state }
    else record a { last_state = state; waiting_since = none; last_wait_log = none }

abbrev pub since : ℕ → Option ℕ → ℕ
since now none = now
since now (some t) = now - t

-- noteWaiting
unfoldable pub note_waiting : ℕ → Agent → Agent
note_waiting now a =
    if is_none a.waiting_since
    then record a { waiting_since = some now; last_wait_log = some now }
    else if ltb (since now a.last_wait_log) waiting_reminder
    then a
    else record a { last_wait_log = some now }

-- A rotation: the new key, whether the coordinator registers it, whether the disk takes it.
pub record Rotation : Type 0 where
  pub next : Bytes
  pub registered : Bool
  pub persisted : Bool

-- rotateKey
unfoldable pub rotate_key : Rotation → Agent → Agent
rotate_key r a =
    if r.registered && r.persisted
    then record a { dir = record (a.dir) { key = r.next }; client_key = r.next }
    else a

unfoldable pub rotate_all : List Rotation → Agent → Agent
unfolding rotate_key
rotate_all [] a = a
rotate_all (r ∷ rs) a = rotate_all rs (rotate_key r a)

-- HeartbeatResponse: the state, a rotation for each `rotate_key` among the actions, and the
-- version of the snapshot.
pub record Heartbeat : Type 0 where
  pub state : Bytes
  pub rotations : List Rotation
  pub snapshot : Option Bytes

unfoldable pub advertised : Option Bytes → Bytes → Bool
advertised none v = false
advertised (some w) v = not (bytes_eq w v)

unfoldable pub sync_if : Library → Bytes → Answers → Bool → Agent → Agent
unfolding sync_snapshot
sync_if lib pub_key ans false a = a
sync_if lib pub_key ans true a = record a { dir = (sync_snapshot lib pub_key ans a.dir).1 }

unfoldable pub start_executor : Agent → Agent
start_executor a =
    if not a.executor_runs && not (is_empty a.dir.version)
    then record a { executor_runs = true }
    else a

unfoldable pub measures : Bytes → Bool
measures state = bytes_eq state active_text || bytes_eq state quarantined_text

-- tick, by the answer to the heartbeat; `none` where it fails.
unfoldable pub tick : Library → Bytes → ℕ → Answers → Option Heartbeat → Agent → Agent
unfolding note_state note_waiting rotate_all advertised sync_if start_executor measures
tick lib pub_key now ans none a = a
tick lib pub_key now ans (some hb) a =
    let noted = note_state hb.state a in
    let rotated = rotate_all hb.rotations noted in
    let synced = sync_if lib pub_key ans (advertised hb.snapshot rotated.dir.version) rotated in
    if bytes_eq hb.state pending_text
    then note_waiting now noted
    else if measures hb.state
    then start_executor synced
    else noted

-- register: at most 30 attempts. The answers of the coordinator are given, `none` where one
-- fails; the id is then saved, if the disk takes it.
unfoldable pub first_id : ℕ → List (Option Bytes) → Option Bytes
first_id zero answers = none
first_id (suc n) [] = none
first_id (suc n) (none ∷ rest) = first_id n rest
first_id (suc n) (some id ∷ rest) = some id

unfoldable pub register : Bytes → List (Option Bytes) → Bool → Agent → Option Agent
unfolding first_id
register token answers saves a = if is_empty token then none else elim (first_id 30 answers) [
  | none ↦ none
  | some id ↦ if saves then some (record a { dir = record (a.dir) { worker_id = id } }) else none
]
