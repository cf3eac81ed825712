-- ===== src/Slot/Lease.antt =====
-- src/execution/slot.ts: the lease, the identifiers that it may carry, and its file.
pub mod Format
mod Tests
use agents_with_chatgpt.Prelude.{
  ℕ, String, Bool, true, false, ◌&&◌, ◌||◌, not, Option, none, some, or_else, File, missing,
  unreadable, json, Value, undefined, null, bool, num, other_num, obj, str, arr, field, end, Fields,
  prop, as_fields, as_str, opt_str, absent_or, str_holds, is_hex, is_hex_dash, is_id, is_alnum,
  matches, matches_i, matches_head, nat_eq, ltb, ◌==◌, if◌then◌else◌,
}
use agents_with_chatgpt.Host.{Disk}
use agents_with_chatgpt.Queue.Pause.{is_workspace_id}

pub data Provider : Type 0 where
  codex gemini z2c : Provider

pub record Lock : Type 0 where
  pub workspace_id : String
  pub provider : Provider
  pub task_id : String
  pub session_id : Option String
  pub native_task_id : Option String
  pub idempotency_key : Option String
  pub request_fingerprint : Option String
  pub dispatched_at : Option String
  pub pid : ℕ
  pub acquired_at : String
  pub boot_id : Option String
  pub runtime_generation : Option String
  pub owner_identity : Option String
  pub heartbeat_at : Option String
  pub lease_expires_at : Option String

-- /^c2c_[0-9a-f]{8,32}$/, /^z2c_[A-Za-z0-9_-]{1,100}$/, /^sess_[0-9a-f-]{36}$/i, /^[0-9a-f-]{36}$/i
unfoldable pub is_task_id : String → Bool
unfolding matches
is_task_id t = matches "c2c_" is_hex 8 32 t

unfoldable pub is_native_task_id : String → Bool
unfolding matches
is_native_task_id t = matches "z2c_" is_id 1 100 t

unfoldable pub is_session_id : String → Bool
unfolding matches_i
is_session_id t = matches_i "sess_" is_hex_dash 36 36 t

unfoldable pub is_reservation_id : String → Bool
unfolding matches_i
is_reservation_id t = matches_i "" is_hex_dash 36 36 t

-- the test of `assertSafeId(value, "task")`
unfoldable pub is_safe_task_id : String → Bool
unfolding is_task_id is_native_task_id is_reservation_id
is_safe_task_id t = is_task_id t || is_native_task_id t || is_reservation_id t

-- at most 128 characters of /^[A-Za-z0-9][A-Za-z0-9_-]*$/
unfoldable pub is_idempotency_key : String → Bool
unfolding matches_head
is_idempotency_key k = matches_head is_alnum is_id 127 k

unfoldable pub is_fingerprint : String → Bool
unfolding matches
is_fingerprint f = matches "" is_hex 64 64 f

unfoldable pub provider_name : Provider → String
provider_name codex = "codex"
provider_name gemini = "gemini"
provider_name z2c = "z2c"

provider_of_name : String → Option Provider
provider_of_name p =
    if p == "codex"
    then some codex
    else if p == "gemini"
    then some gemini
    else if p == "z2c"
    then some z2c
    else none

-- `candidate.provider ?? "codex"`, where a provider that is not known refuses the lease; `null`
-- fails the test of the source as every other value does
provider_of : Value → Option Provider
provider_of undefined = some codex
provider_of (str p) = provider_of_name p
provider_of _ = none

abbrev is_version_one : Value → Bool
is_version_one (num n) = nat_eq n 1
is_version_one _ = false

-- Number.isInteger(pid) && pid > 0
pid_of : Value → Option ℕ
pid_of (num n) = if ltb 0 n then some n else none
pid_of _ = none

-- the tests on the fields that may be missing
optional_fields_ok : Fields → Bool
optional_fields_ok fs =
    absent_or is_session_id (prop "sessionId" fs)
    && absent_or is_idempotency_key (prop "idempotencyKey" fs)
    && absent_or is_fingerprint (prop "requestFingerprint" fs)
    && absent_or (λ _. true) (prop "dispatchedAt" fs)

lock_of : Fields → String → Provider → String → ℕ → String → Lock
lock_of fs workspace_id provider task_id pid acquired_at = record {
  workspace_id = workspace_id;
  provider = provider;
  task_id = task_id;
  session_id = as_str (prop "sessionId" fs);
  native_task_id = as_str (prop "nativeTaskId" fs);
  idempotency_key = as_str (prop "idempotencyKey" fs);
  request_fingerprint = as_str (prop "requestFingerprint" fs);
  dispatched_at = as_str (prop "dispatchedAt" fs);
  pid = pid;
  acquired_at = acquired_at;
  boot_id = as_str (prop "bootId" fs);
  runtime_generation = as_str (prop "runtimeGeneration" fs);
  owner_identity = as_str (prop "ownerIdentity" fs);
  heartbeat_at = as_str (prop "heartbeatAt" fs);
  lease_expires_at = as_str (prop "leaseExpiresAt" fs);
}

infixl 5 ◌>>=◌
abbrev ◌>>=◌ {ℓ κ} : {A : Type ℓ} {B : Type κ} → Option A → (A → Option B) → Option B
none >>= k = none
some a >>= k = k a

abbrev check : Bool → Option (Unit {0})
check true = some tt
check false = none

validate_fields : Fields → Option Lock
validate_fields fs = do
  _ ← check (is_version_one (prop "version" fs))
  workspace_id ← as_str (prop "workspaceId" fs)
  _ ← check (is_workspace_id workspace_id)
  task_id ← as_str (prop "taskId" fs)
  _ ← check (is_safe_task_id task_id)
  provider ← provider_of (prop "provider" fs)
  _ ← check (optional_fields_ok fs)
  pid ← pid_of (prop "pid" fs)
  acquired_at ← as_str (prop "acquiredAt" fs)
  some (lock_of fs workspace_id provider task_id pid acquired_at)

pub validate_lock : Value → Option Lock
validate_lock v = do fs ← as_fields v; validate_fields fs

-- the object that JSON.stringify is given, `undefined` where a field is left out
pub lock_json : Lock → Value
lock_json l = obj (
    field "version" (num 1) (
      field "workspaceId" (str l.workspace_id) (
        field "provider" (str (provider_name l.provider)) (
          field "taskId" (str l.task_id) (
            field "sessionId" (opt_str l.session_id) (
              field "nativeTaskId" (opt_str l.native_task_id) (
                field "idempotencyKey" (opt_str l.idempotency_key) (
                  field "requestFingerprint" (opt_str l.request_fingerprint) (
                    field "dispatchedAt" (opt_str l.dispatched_at) (
                      field "pid" (num l.pid) (
                        field "acquiredAt" (str l.acquired_at) (
                          field "bootId" (opt_str l.boot_id) (
                            field "runtimeGeneration" (opt_str l.runtime_generation) (
                              field "ownerIdentity" (opt_str l.owner_identity) (
                                field "heartbeatAt" (opt_str l.heartbeat_at) (
                                  field "leaseExpiresAt" (opt_str l.lease_expires_at)
                                    end))))))))))))))))

-- `RawLockRead`: a lease that cannot be read is present without a lock, and so still occupied
pub record RawLockRead : Type 0 where
  pub present : Bool
  pub lock : Option Lock

unfoldable pub read_raw : File → RawLockRead
read_raw missing = record { present = false; lock = none }
read_raw unreadable = record { present = true; lock = none }
read_raw (json v) = record { present = true; lock = validate_lock v }
