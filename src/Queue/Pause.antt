-- ===== src/Queue/Pause.antt =====
-- src/execution/queue-state.ts: the pause switch of one workspace's queue.
pub mod Dispatch
mod Tests
use agents_with_chatgpt.Prelude.{
  String, Bool, true, false, ◌&&◌, Option, none, some, Exec, pure, get, put, require, ◌>>=◌, ◌>>◌,
  File, missing, unreadable, json, Value, bool, num, obj, str, field, end, Fields, prop, as_fields,
  matches, is_id, nat_eq, ◌==◌, if◌then◌else◌,
}
use agents_with_chatgpt.Host.{Host, Disk}
use agents_with_chatgpt.Queue.Policy.{product_dispatch_paused}

pub data Reason : Type 0 where
  default manual invalid_state control_plane : Reason

pub record PauseState : Type 0 where
  pub workspace_id : String
  pub paused : Bool
  pub updated_at : Option String
  pub reason : Reason

pub data QueueError : Type 0 where
  invalid_workspace_id : QueueError

-- /^[A-Za-z0-9_-]{1,64}$/
unfoldable pub is_workspace_id : String → Bool
unfolding matches
is_workspace_id w = matches "" is_id 1 64 w

abbrev is_one : Value → Bool
is_one (num n) = nat_eq n 1
is_one _ = false

abbrev is_text : String → Value → Bool
is_text w (str s) = s == w
is_text w _ = false

-- `validPersistedState`, with the two fields that its caller goes on to read
persisted_of : Value → Value → Option (Bool × String)
persisted_of (bool b) (str at) = if at == "" then none else some (b, at)
persisted_of (bool b) _ = none
persisted_of _ _ = none

persisted_fields : String → Option Fields → Option (Bool × String)
persisted_fields w none = none
persisted_fields w (some fs) =
    if is_one (prop "version" fs) && is_text w (prop "workspaceId" fs)
    then persisted_of (prop "paused" fs) (prop "updatedAt" fs)
    else none

pub valid_persisted_state : String → Value → Option (Bool × String)
valid_persisted_state w v = persisted_fields w (as_fields v)

abbrev paused_by : String → Reason → PauseState
paused_by w r = record { workspace_id = w; paused = true; updated_at = none; reason = r }

state_of_record : String → Option (Bool × String) → PauseState
state_of_record w none = paused_by w invalid_state
state_of_record w (some (b, at)) = record {
  workspace_id = w;
  paused = b;
  updated_at = some at;
  reason = manual;
}

state_of_file : String → File → PauseState
state_of_file w missing = record {
  workspace_id = w;
  paused = false;
  updated_at = none;
  reason = default;
}
state_of_file w unreadable = paused_by w invalid_state
state_of_file w (json v) = state_of_record w (valid_persisted_state w v)

pub read_workspace_queue_pause_state : Host → String → Exec Disk QueueError PauseState
read_workspace_queue_pause_state h w d =
    if product_dispatch_paused h d.policy_file
    then pure (paused_by w control_plane) d
    else (do require (is_workspace_id w) invalid_workspace_id; pure (state_of_file w d.queue_file))
        d

pause_json : String → Bool → String → Value
pause_json w paused now = obj (
    field "version" (num 1) (
      field "workspaceId" (str w) (field "paused" (bool paused) (field "updatedAt" (str now) end))))

pub write_workspace_queue_pause_state : Host → String → Bool → Exec Disk QueueError PauseState
write_workspace_queue_pause_state h w paused = do
  require (is_workspace_id w) invalid_workspace_id
  d ← get
  put (record d { queue_file = json (pause_json w paused h.now) })
  pure (record { workspace_id = w; paused = paused; updated_at = some h.now; reason = manual })
