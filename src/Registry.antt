-- ===== src/Registry.antt =====
-- src/session/registry.ts: the sessions that a chat continues from, and the tasks' updates of them. The
-- file is read when the registry is made. `sanitizeText` and `safeRelativeFile`, which rewrite texts,
-- are arguments. Each call takes whether its write of the file succeeds.
pub mod Order
pub mod Calls
mod Tests
use agents_with_chatgpt.Prelude.{
  ℕ, String, Bool, true, false, ◌&&◌, ◌||◌, not, Option, none, some, List, [], ◌∷◌, ◌++◌, map, keep,
  take, is_some, opt_eq, nat_eq, ltb, leb, matches, is_hex, read_key, write_key, includes, without,
  Result, ok, err, Exec, pure, throw, ◌==◌, if◌then◌else◌,
}

pub data SessionStatus : Type 0 where
  active completed cancelled archived : SessionStatus

-- `C2CSession`
pub record Session : Type 0 where
  pub id : String
  pub workspace_id : String
  pub owner_id : String
  pub title : String
  pub goal_summary : String
  pub status : SessionStatus
  pub provider : Option String
  pub provider_model : Option String
  pub provider_session_id : Option String
  pub last_task_id : Option String
  pub last_task_sequence : Option ℕ
  pub changed_files : List String
  pub verification_status : Option String
  pub current_state : String
  pub next_intended_action : Option String
  pub created_at : String
  pub updated_at : String

-- `SessionTaskUpdate`
pub record SessionTaskUpdate : Type 0 where
  pub session_id : String
  pub owner_id : String
  pub workspace_id : String
  pub task_id : String
  pub status : String
  pub provider : Option String
  pub provider_model : Option String
  pub provider_session_id : Option String
  pub changed_files : List String
  pub tests : Option String
  pub verification_status : Option String
  pub restart_required : Bool
  pub task_sequence : Option ℕ
  pub authoritative_terminal : Bool

-- the argument of `create`, with the id that was made for it or given
pub record NewSession : Type 0 where
  pub id : String
  pub owner_id : String
  pub workspace_id : String
  pub title : String
  pub goal_summary : String
  pub provider : Option String
  pub provider_model : Option String
  pub provider_session_id : Option String
  pub last_task_id : Option String
  pub last_task_sequence : Option ℕ

-- `SessionRegistryErrorCode`, and the error of a write that fails
pub data RegistryError : Type 0 where
  session_not_found session_not_authorized session_workspace_mismatch session_registry_invalid
        write_failed :
      RegistryError

-- `C2CSessionRegistry`: the map, and the sessions in the file
pub record Registry : Type 0 where
  pub sessions : List (String × Session)
  pub file : List Session

-- the functions that rewrite texts, and the clock
pub record Surroundings : Type 0 where
  pub sanitize_text : String → ℕ → String
  pub safe_relative_file : String → Option String
  pub now : String
  pub is_writable : Bool

is_session_id : String → Bool
is_session_id s = matches "c2cs_" is_hex 16 32 s

is_task_id : String → Bool
is_task_id s = matches "c2c_" is_hex 8 32 s

-- `save`
save : Surroundings → Exec Registry RegistryError (Unit {0})
save e r =
    if e.is_writable
    then (ok tt, record r { file = map (λ row. row.1) r.sessions })
    else (err write_failed, r)

-- `this.sessions.set(session.id, session); this.save()`, and what is returned after it
pub store : Surroundings → Session → Exec Registry RegistryError Session
store e s r =
    let (done, r') = save e (record r { sessions = write_key s.id s r.sessions }) in
    (elim done [ ok _ ↦ ok s | err x ↦ err x ], r')

check_owned : String → Option String → Session → Result RegistryError Session
check_owned owner_id workspace_id s =
    if not (s.owner_id == owner_id)
    then err session_not_authorized
    else if is_some workspace_id && not (opt_eq workspace_id (some s.workspace_id))
    then err session_workspace_mismatch
    else ok s

-- `getOwned`
pub get_owned : String → String → Option String → Registry → Result RegistryError Session
get_owned id owner_id workspace_id r = elim (read_key id r.sessions) [
  | none ↦ err session_not_found
  | some s ↦ if is_session_id id then check_owned owner_id workspace_id s else err session_not_found
]

or_text : String → String → String
or_text s default = if s == "" then default else s

clean_opt : Surroundings → Option String → ℕ → Option String
clean_opt e none n = none
clean_opt e (some s) n = some (e.sanitize_text s n)

new_session : Surroundings → NewSession → Session
new_session e x = record {
  id = x.id;
  workspace_id = x.workspace_id;
  owner_id = x.owner_id;
  title = or_text (e.sanitize_text x.title 120) "C2C work session";
  goal_summary =
      or_text (e.sanitize_text x.goal_summary 500) "Continue the selected workspace task";
  status = active;
  provider = clean_opt e x.provider 40;
  provider_model = clean_opt e x.provider_model 80;
  provider_session_id = clean_opt e x.provider_session_id 120;
  last_task_id = x.last_task_id;
  last_task_sequence = x.last_task_sequence;
  changed_files = [];
  verification_status = none;
  current_state = "created";
  next_intended_action = some "Inspect the selected workspace and submit the next bounded task.";
  created_at = e.now;
  updated_at = e.now;
}

is_bad_task : Option String → Bool
is_bad_task none = false
is_bad_task (some t) = not (is_task_id t)

-- not a safe integer from 1 on
is_bad_sequence : Option ℕ → Bool
is_bad_sequence none = false
is_bad_sequence (some n) = ltb n 1 || ltb 9007199254740991 n

-- `create`
pub create : Surroundings → NewSession → Exec Registry RegistryError Session
create e x r =
    if not (is_session_id x.id) || is_some (read_key x.id r.sessions)
    then (err session_registry_invalid, r)
    else if is_bad_task x.last_task_id || is_bad_sequence x.last_task_sequence
    then (err session_registry_invalid, r)
    else store e (new_session e x) r

-- `setStatus`
pub set_status :
    Surroundings → String → String → SessionStatus → Exec Registry RegistryError Session
set_status e id owner_id status r = elim (get_owned id owner_id none r) [
  | err x ↦ (err x, r)
  | ok s ↦ store e (record s { status = status; updated_at = e.now }) r
]

-- `sessionStateForTask`
session_state_for_task : String → String
session_state_for_task s = if s == "timeout" || s == "timed_out" then "failed" else s

-- `TERMINAL_SESSION_STATES.has`
is_terminal : String → Bool
is_terminal s = includes s ("completed" ∷ "failed" ∷ "cancelled" ∷ "interrupted" ∷ [])

abbrev pub is_last : SessionTaskUpdate → Session → Bool
is_last u s = opt_eq s.last_task_id (some u.task_id)

-- the update is of a task before the last one
pub is_superseded : SessionTaskUpdate → Session → Bool
is_superseded u s = elim s.last_task_sequence [
  | none ↦ false
  | some last ↦ elim u.task_sequence [
    | none ↦ not (is_last u s)
    | some n ↦ ltb n last || nat_eq n last && is_some s.last_task_id && not (is_last u s)
  ]
]

same_sequence : Option ℕ → Option ℕ → Bool
same_sequence none _ = true
same_sequence (some n) none = true
same_sequence (some n) (some m) = nat_eq n m

-- the bridge has told how the task ended, and this update does not come from it
pub is_settled : SessionTaskUpdate → Session → Bool
is_settled u s =
    is_last u s
    && same_sequence u.task_sequence s.last_task_sequence
    && is_terminal (session_state_for_task s.current_state)
    && not u.authoritative_terminal

abbrev or_else {ℓ} : {A : Type ℓ} → Option A → Option A → Option A
or_else (some x) y = some x
or_else none y = y

relative_files : Surroundings → List String → List String
relative_files e [] = []
relative_files e (f ∷ fs) =
    let rest = relative_files e fs in
    elim (e.safe_relative_file f) [ none ↦ rest | some g ↦ g ∷ without g rest ]

-- `safeFiles`
safe_files : Surroundings → List String → List String
safe_files e fs = take 50 (relative_files e fs)

tests_status : Surroundings → Option String → Option String
tests_status e none = none
tests_status e (some t) = if t == "" then none else some (e.sanitize_text t 80)

next_action : String → Bool → String
next_action state restart =
    if includes state ("queued" ∷ "running" ∷ "cancelling" ∷ [])
    then (if restart
        then "Wait for the queued task to reach a terminal state, then review its result. Restart the bridge through its local supervisor before the new source is live."
        else "Wait for the queued task to reach a terminal state, then review its result.")
    else if state == "completed"
    then (if restart
        then "Review git diff and verification output, then submit the next bounded task. Restart the bridge through its local supervisor before the new source is live."
        else "Review git diff and verification output, then submit the next bounded task.")
    else if restart
    then "Inspect the task result and continue with a new bounded task. Restart the bridge through its local supervisor before the new source is live."
    else "Inspect the task result and continue with a new bounded task."

pub applied : Surroundings → SessionTaskUpdate → Session → Session
applied e u s = record s {
  last_task_id = some u.task_id;
  last_task_sequence = or_else u.task_sequence s.last_task_sequence;
  provider = or_else (clean_opt e u.provider 40) s.provider;
  provider_model = or_else (clean_opt e u.provider_model 80) s.provider_model;
  provider_session_id = or_else (clean_opt e u.provider_session_id 120) s.provider_session_id;
  changed_files = safe_files e (s.changed_files ++ u.changed_files);
  verification_status = or_else u.verification_status (tests_status e u.tests);
  current_state = e.sanitize_text (session_state_for_task u.status) 120;
  next_intended_action = some (next_action (session_state_for_task u.status) u.restart_required);
  updated_at = e.now;
}

-- `updateFromTask`
pub update_from_task : Surroundings → SessionTaskUpdate → Exec Registry RegistryError Session
update_from_task e u r =
    if not (is_task_id u.task_id)
    then (err session_registry_invalid, r)
    else elim (get_owned u.session_id u.owner_id (some u.workspace_id) r) [
      | err x ↦ (err x, r)
      | ok s ↦ if is_superseded u s || is_settled u s then (ok s, r) else store e (applied e u s) r
    ]

-- `snapshot` is `getOwned`; `restoreSnapshot` and `remove`, which undo a submission that failed
pub restore_snapshot : Surroundings → Session → Exec Registry RegistryError (Unit {0})
restore_snapshot e s r = save e (record r { sessions = write_key s.id s r.sessions })

pub remove : Surroundings → String → String → Option String → Exec Registry RegistryError (Unit {0})
remove e id owner_id workspace_id r = elim (get_owned id owner_id workspace_id r) [
  | err x ↦ (err x, r)
  | ok s ↦ save e (record r { sessions = keep (λ row. not (row.0 == s.id)) r.sessions })
]

-- A call of the registry that is no rollback.
pub data Call : Type 0 where
  creates : NewSession → Call
  updates : SessionTaskUpdate → Call
  sets_status : String → String → SessionStatus → Call

pub perform : Surroundings → Call → Exec Registry RegistryError Session
perform e (creates x) r = create e x r
perform e (updates u) r = update_from_task e u r
perform e (sets_status id owner_id status) r = set_status e id owner_id status r

pub perform_all : List (Surroundings × Call) → Registry → Registry
perform_all [] r = r
perform_all (c ∷ cs) r = perform_all cs (perform c.0 c.1 r).1
