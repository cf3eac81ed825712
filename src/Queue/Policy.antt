-- ===== src/Queue/Policy.antt =====
-- src/config/dispatch-policy.ts: the operator's pause of all dispatch.
pub mod Effect
mod Tests
use agents_with_chatgpt.Prelude.{
  String, Bool, true, false, ◌&&◌, ◌||◌, not, Option, none, some, File, missing, unreadable, json,
  Value, bool, num, obj, str, field, end, Fields, prop, as_fields, as_str, matches_i, nat_eq,
  if◌then◌else◌,
}
use agents_with_chatgpt.Host.{Host, Disk}

pub data FileState : Type 0 where
  absent valid invalid : FileState

pub record StateFile : Type 0 where
  pub state : FileState
  pub product_task_dispatch_paused : Option Bool
  pub updated_at : Option String

pub record PolicyStatus : Type 0 where
  pub effective_paused : Bool
  pub state_file : StateFile
  pub env_active : Bool

-- /^(true|1)$/i
env_active : Option String → Bool
env_active none = false
env_active (some v) = matches_i "true" (λ _. false) 0 0 v || matches_i "1" (λ _. false) 0 0 v

abbrev broken : FileState → StateFile
broken s = record { state = s; product_task_dispatch_paused = none; updated_at = none }

abbrev is_schema_one : Value → Bool
is_schema_one (num n) = nat_eq n 1
is_schema_one _ = false

policy_of_flag : Value → Value → StateFile
policy_of_flag (bool b) at = record {
  state = valid;
  product_task_dispatch_paused = some b;
  updated_at = as_str at;
}
policy_of_flag _ at = broken invalid

policy_of_fields : Option Fields → StateFile
policy_of_fields none = broken invalid
policy_of_fields (some fs) =
    if is_schema_one (prop "schema" fs)
    then policy_of_flag (prop "productTaskDispatchPaused" fs) (prop "updatedAt" fs)
    else broken invalid

read_policy : File → StateFile
read_policy missing = broken absent
read_policy unreadable = broken invalid
read_policy (json v) = policy_of_fields (as_fields v)

abbrev is_invalid : FileState → Bool
is_invalid invalid = true
is_invalid _ = false

abbrev is_valid : FileState → Bool
is_valid valid = true
is_valid _ = false

-- `flag === b`
abbrev flag_is : Bool → Option Bool → Bool
flag_is b none = false
flag_is true (some c) = c
flag_is false (some c) = not c

pub dispatch_policy_status : Host → File → PolicyStatus
dispatch_policy_status h f =
    let active = env_active h.dispatch_env in
    let file = read_policy f in
    record {
      effective_paused =
          active || is_invalid file.state || flag_is true file.product_task_dispatch_paused;
      state_file = file;
      env_active = active;
    }

pub product_dispatch_paused : Host → File → Bool
product_dispatch_paused h f = (dispatch_policy_status h f).effective_paused

policy_json : Bool → String → Value
policy_json paused now = obj (
    field "schema" (num 1)
      (field "productTaskDispatchPaused" (bool paused) (field "updatedAt" (str now) end)))

pub set_product_dispatch_paused : Host → Bool → Disk → Disk
set_product_dispatch_paused h paused d =
    let current = (dispatch_policy_status h d.policy_file).state_file in
    if is_valid current.state && flag_is paused current.product_task_dispatch_paused
    then d
    else record d { policy_file = json (policy_json paused h.now) }
