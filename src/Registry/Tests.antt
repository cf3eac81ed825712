-- ===== src/Registry/Tests.antt =====
-- Concrete runs of the session registry.
use agents_with_chatgpt.Prelude.{
  ◌≡◌, refl, sym, ap, ◌∙◌, inl, inr, String, true, false, Option, none, some, List, [], ◌∷◌,
  matches, read_key, write_key, includes, without, err, arith, eq_iff, Bool-cases, ◌==◌,
}
use agents_with_chatgpt.Registry.{
  active, archived, Session, SessionTaskUpdate, NewSession, session_not_authorized, Registry,
  Surroundings, is_session_id, is_task_id, save, store, check_owned, get_owned, or_text, clean_opt,
  new_session, is_bad_task, is_bad_sequence, create, set_status, session_state_for_task,
  is_terminal, is_superseded, same_sequence, is_settled, relative_files, safe_files, next_action,
  applied, update_from_task, restore_snapshot, remove, Call, updates, sets_status, perform,
  perform_all,
}
use agents_with_chatgpt.Registry.Order.{NotBefore}
use agents_with_chatgpt.Registry.Calls.{Keyed, perform_all-NotBefore}

abbrev surroundings : Surroundings
surroundings = record {
  sanitize_text = λ s n. s;
  safe_relative_file = λ s. some s;
  now = "2026-01-02T00:00:00.000Z";
  is_writable = true;
}

abbrev session_id : String
session_id = "c2cs_0123456789abcdef"

abbrev task_two : String
task_two = "c2c_00000002"

abbrev task_three : String
task_three = "c2c_00000003"

abbrev session : Session
session = record {
  id = session_id;
  workspace_id = "w";
  owner_id = "me";
  title = "Parser";
  goal_summary = "Repair the parser";
  status = active;
  provider = none;
  provider_model = none;
  provider_session_id = none;
  last_task_id = some task_two;
  last_task_sequence = some 2;
  changed_files = [];
  verification_status = none;
  current_state = "created";
  next_intended_action = none;
  created_at = "2026-01-01T00:00:00.000Z";
  updated_at = "2026-01-01T00:00:00.000Z";
}

abbrev registry : Registry
registry = record { sessions = (session_id, session) ∷ []; file = session ∷ [] }

abbrev update : SessionTaskUpdate
update = record {
  session_id = session_id;
  owner_id = "me";
  workspace_id = "w";
  task_id = task_three;
  status = "timed_out";
  provider = none;
  provider_model = none;
  provider_session_id = none;
  changed_files = "a.ts" ∷ "b.ts" ∷ "a.ts" ∷ [];
  tests = some "2 failed";
  verification_status = none;
  restart_required = false;
  task_sequence = some 3;
  authoritative_terminal = true;
}

abbrev late : SessionTaskUpdate
late = record update { task_id = task_two; task_sequence = some 2; status = "completed" }

abbrev new_input : NewSession
new_input = record {
  id = "c2cs_fedcba9876543210";
  owner_id = "me";
  workspace_id = "w";
  title = "";
  goal_summary = "Next";
  provider = none;
  provider_model = none;
  provider_session_id = none;
  last_task_id = none;
  last_task_sequence = none;
}

-- the update of the third task, and then a late one of the second
abbrev calls : List (Surroundings × Call)
calls =
    (surroundings, updates update)
    ∷ (record surroundings { is_writable = false }, updates late)
    ∷ (surroundings, sets_status session_id "me" archived)
    ∷ []

last_seen : Option Session → Option String
last_seen none = none
last_seen (some s) = s.last_task_id

late_update_is_ignored :
    last_seen (read_key session_id (perform_all calls registry).sessions) ≡ some task_three
unfolding last_seen read_key write_key perform_all perform update_from_task set_status get_owned
    check_owned is_session_id is_task_id matches is_superseded is_settled same_sequence is_terminal
    session_state_for_task includes applied store save
late_update_is_ignored = refl

update_lists_files_once : (applied surroundings update session).changed_files ≡ "a.ts" ∷ "b.ts" ∷ []
unfolding applied safe_files relative_files without
update_lists_files_once = refl

update_tells_failure :
    (applied surroundings update session).next_intended_action
    ≡ some "Inspect the task result and continue with a new bounded task."
unfolding applied next_action session_state_for_task includes
update_tells_failure = refl

other_owner_is_refused :
    (update_from_task surroundings (record update { owner_id = "you" }) registry).0
    ≡ err session_not_authorized
unfolding update_from_task get_owned check_owned is_session_id is_task_id matches read_key
other_owner_is_refused = refl

-- what a rollback of a creation does
removed_is_as_before :
    (remove surroundings new_input.id "me" none (create surroundings new_input registry).1).1
    ≡ registry
unfolding remove create new_session or_text clean_opt is_bad_task is_bad_sequence store save
    get_owned check_owned is_session_id matches read_key write_key
removed_is_as_before = refl

restored_is_as_before :
    (restore_snapshot surroundings session (update_from_task surroundings update registry).1).1
    ≡ registry
unfolding restore_snapshot update_from_task get_owned check_owned is_session_id is_task_id matches
    is_superseded is_settled same_sequence applied store save read_key write_key
restored_is_as_before = refl

registry-Keyed : Keyed registry
unfolding read_key
registry-Keyed id s h = elim (Bool-cases (session_id == id)) [
  | inl same ↦
      let found : session ≡ s = ground (arith, h, same) in
      sym (ap (λ (x : Session). x.id) found) ∙ (eq_iff session_id id).0 same
  | inr other ↦ absurd (ground (arith, h, other))
]

registry-session : read_key session_id registry.sessions ≡ some session
unfolding read_key
registry-session = refl

perform_all-NotBefore_example :
    (s' : Session) × (read_key session_id (perform_all calls registry).sessions ≡ some s')
    × NotBefore session s'
perform_all-NotBefore_example =
    perform_all-NotBefore calls registry session_id session registry-Keyed registry-session
