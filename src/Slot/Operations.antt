-- ===== src/Slot/Operations.antt =====
-- src/execution/slot.ts: taking, renewing, binding and giving back the writer lease. Where the
-- source reads the lease, does something else and comes back to it, `others` stands for what other
-- processes did to the files in between.
pub mod Acquire
pub mod Release
pub mod Holding
mod Tests
use agents_with_chatgpt.Prelude.{
  String, Bool, true, false, ◌&&◌, ◌||◌, not, Option, none, some, or_else, Exec, ok, pure, throw,
  get, put, require, map_err, ◌>>=◌, ◌>>◌, File, missing, json, nat_eq, is_some, opt_eq, ◌==◌,
  if◌then◌else◌,
}
use agents_with_chatgpt.Host.{Host, Disk}
use agents_with_chatgpt.Queue.Pause.{QueueError, is_workspace_id, read_workspace_queue_pause_state}
use agents_with_chatgpt.Slot.Lease.{
  Lock, Provider, codex, gemini, z2c, is_safe_task_id, is_native_task_id, is_session_id, lock_json,
  RawLockRead, read_raw,
}

pub data SlotError : Type 0 where
  queue_error : QueueError → SlotError
  invalid_workspace_id invalid_task_id queue_paused : SlotError
  -- WorkspaceSlotError, with the lease that is in the way where it can be read
  slot_busy : Option Lock → SlotError
  reservation_mismatch invalid_native_task invalid_native_session evidence_conflict : SlotError

abbrev pub Slot : Type 0 → Type 0
Slot A = Exec Disk SlotError A

pub provider_eq : Provider → Provider → Bool
provider_eq codex codex = true
provider_eq gemini gemini = true
provider_eq z2c z2c = true
provider_eq _ _ = false

abbrev is_missing : File → Bool
is_missing missing = true
is_missing _ = false

pub held_by : String → Provider → Lock → Bool
held_by task_id provider l = l.task_id == task_id && provider_eq l.provider provider

fresh_lock : Host → String → String → Provider → Lock
fresh_lock h workspace_id task_id provider = record {
  workspace_id = workspace_id;
  provider = provider;
  task_id = task_id;
  session_id = none;
  native_task_id = none;
  idempotency_key = none;
  request_fingerprint = none;
  dispatched_at = none;
  pid = h.pid;
  acquired_at = h.now;
  boot_id = h.boot_id;
  runtime_generation = some h.runtime_generation;
  owner_identity = some h.runtime_generation;
  heartbeat_at = some h.now;
  lease_expires_at = some h.lease_end;
}

-- a lease that another writer created first, between the read and the exclusive create
raced : String → Provider → Option Lock → Slot Lock
raced task_id provider none = throw (slot_busy none)
raced task_id provider (some l) =
    if held_by task_id provider l then pure l else throw (slot_busy (some l))

-- fs.openSync(file, "wx"), and the handler of EEXIST
create_lock : Host → String → String → Provider → Slot Lock
create_lock h workspace_id task_id provider d =
    if is_missing d.lock_file
    then (let l = fresh_lock h workspace_id task_id provider in
        (ok l, record d { lock_file = json (lock_json l) }))
    else raced task_id provider (read_raw d.lock_file).lock d

claim : Host → (Disk → Disk) → String → String → Provider → RawLockRead → Slot Lock
claim h others workspace_id task_id provider existing d = elim existing.lock [
  | some l ↦ (if held_by task_id provider l then pure l d else throw (slot_busy (some l)) d)
  | none ↦
      if existing.present
      then throw (slot_busy none) d
      else create_lock h workspace_id task_id provider (others d)
]

-- `acquireWorkspaceSlot`
pub acquire_workspace_slot : Host → (Disk → Disk) → String → String → Provider → Slot Lock
acquire_workspace_slot h others workspace_id task_id provider = do
  require (is_workspace_id workspace_id) invalid_workspace_id
  require (is_safe_task_id task_id) invalid_task_id
  pause ← map_err queue_error (read_workspace_queue_pause_state h workspace_id)
  require (not pause.paused) queue_paused
  d ← get
  require (is_missing d.legacy_file) (slot_busy none)
  claim h others workspace_id task_id provider (read_raw d.lock_file)

-- fs.unlinkSync, false where there is no file
unfoldable pub remove_workspace_slot : Slot Bool
remove_workspace_slot d =
    if is_missing d.lock_file then (ok false, d) else (ok true, record d { lock_file = missing })

release_lock : String → Option Lock → Slot Bool
release_lock task_id none = pure false
release_lock task_id (some l) = if l.task_id == task_id then remove_workspace_slot else pure false

-- `releaseWorkspaceSlot`; a lease that is not there and one that cannot be read give `false` alike
pub release_workspace_slot : String → String → Slot Bool
release_workspace_slot workspace_id task_id = do
  require (is_workspace_id workspace_id) invalid_workspace_id
  require (is_safe_task_id task_id) invalid_task_id
  d ← get
  release_lock task_id (read_raw d.lock_file).lock

-- the lease is this process incarnation's own
owned_here : Host → String → Lock → Bool
owned_here h task_id l =
    l.task_id == task_id
    && nat_eq l.pid h.pid
    && opt_eq l.owner_identity (some h.runtime_generation)
    && opt_eq l.runtime_generation (some h.runtime_generation)

abbrev still_owned : String → Lock → Option Lock → Bool
still_owned task_id current none = false
still_owned task_id current (some again) =
    again.task_id == task_id && opt_eq again.owner_identity current.owner_identity

renewed : Host → Lock → Lock
renewed h l = record l { heartbeat_at = some h.now; lease_expires_at = some h.lease_end }

renew_lock : Host → (Disk → Disk) → String → Option Lock → Slot Bool
renew_lock h others task_id none d = (ok false, d)
renew_lock h others task_id (some current) d =
    if owned_here h task_id current
    then (let d' = others d in
        if still_owned task_id current (read_raw d'.lock_file).lock
        then (ok true, record d' { lock_file = json (lock_json (renewed h current)) })
        else (ok false, d'))
    else (ok false, d)

-- `renewWorkspaceSlot`
pub renew_workspace_slot : Host → (Disk → Disk) → String → String → Slot Bool
renew_workspace_slot h others workspace_id task_id = do
  require (is_workspace_id workspace_id) invalid_workspace_id
  d ← get
  renew_lock h others task_id (read_raw d.lock_file).lock

bound_lock : Lock → String → Option String → Lock
bound_lock l task_id session_id = record l {
  task_id = task_id;
  native_task_id = some task_id;
  session_id = elim session_id [
    | some s ↦ if s == "" then l.session_id else some s
    | none ↦ l.session_id
  ];
}

-- `!slot || slot.provider !== "z2c" || slot.taskId !== reservationId || slot.sessionId`, negated
is_bindable : String → Lock → Bool
is_bindable reservation_id l =
    provider_eq l.provider z2c
    && l.task_id == reservation_id
    && (not (is_some l.session_id) || opt_eq l.session_id (some ""))

abbrev session_ok : Option String → Bool
session_ok none = true
session_ok (some s) = is_session_id s

bind_lock : String → String → Option String → Option Lock → Slot Lock
bind_lock reservation_id task_id session_id none = throw reservation_mismatch
bind_lock reservation_id task_id session_id (some l) = do
  require (is_bindable reservation_id l) reservation_mismatch
  require (is_native_task_id task_id) invalid_native_task
  require (session_ok session_id) invalid_native_session
  d ← get
  put (record d { lock_file = json (lock_json (bound_lock l task_id session_id)) })
  pure (bound_lock l task_id session_id)

-- `bindWorkspaceSlot`
pub bind_workspace_slot : String → String → String → Option String → Slot Lock
bind_workspace_slot workspace_id reservation_id task_id session_id = do
  require (is_workspace_id workspace_id) invalid_workspace_id
  d ← get
  bind_lock reservation_id task_id session_id (read_raw d.lock_file).lock

marked_lock : Host → Lock → String → String → Lock
marked_lock h l key fingerprint = record l {
  idempotency_key = some key;
  request_fingerprint = some fingerprint;
  dispatched_at = some (or_else l.dispatched_at h.now);
}

abbrev no_conflict : String → Option String → Bool
no_conflict key none = true
no_conflict key (some k) = k == key

mark_lock : Host → String → String → String → Option Lock → Slot Lock
mark_lock h reservation_id key fingerprint none = throw reservation_mismatch
mark_lock h reservation_id key fingerprint (some l) = do
  require (provider_eq l.provider z2c && l.task_id == reservation_id) reservation_mismatch
  require (no_conflict key l.idempotency_key) evidence_conflict
  d ← get
  put (record d { lock_file = json (lock_json (marked_lock h l key fingerprint)) })
  pure (marked_lock h l key fingerprint)

-- `markReservationDispatched`
pub mark_reservation_dispatched : Host → String → String → String → String → Slot Lock
mark_reservation_dispatched h workspace_id reservation_id key fingerprint = do
  require (is_workspace_id workspace_id) invalid_workspace_id
  d ← get
  mark_lock h reservation_id key fingerprint (read_raw d.lock_file).lock
