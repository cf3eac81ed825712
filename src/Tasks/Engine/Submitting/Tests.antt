-- ===== src/Tasks/Engine/Submitting/Tests.antt =====
-- Tests of `submitTask` of the task engine.
use agents_with_chatgpt.Prelude.{
  ◌≡◌, ◌≢◌, ◌≤◌, refl, String, true, false, Option, none, some, Result, ok, [], ◌∷◌, result, after,
  keep, read_key, includes, matches, matches_i, matches_head, trim, text_length,
}
use agents_with_chatgpt.Tasks.Model.{Task, Binding, completed, readonly}
use agents_with_chatgpt.Tasks.Idempotency.{SubmitInput}
use agents_with_chatgpt.Tasks.Store.{Store, admit_task, find_task}
use agents_with_chatgpt.Tasks.Fixtures.{store, store-Distinct}
use agents_with_chatgpt.Access.Workspaces.{Entry, resolve_authorized, authorize_entry, get_entry}
use agents_with_chatgpt.Access.Workspaces.Tests.{paths, registry, entry}
use agents_with_chatgpt.Attestation.{
  is_offer, route_matches, attests, advertised, admissible_binding, request_met, plan_met, governed,
  governed_binding, plan_or_default, is_default, entitlement_access_mode,
  require_supported_entitlement,
}
use agents_with_chatgpt.Slot.Lease.{is_idempotency_key, is_native_task_id, is_session_id}
use agents_with_chatgpt.Tasks.Engine.{
  Env, Failure, Engine, is_readonly, plan_enabled, is_truthy, stored, kick,
}
use agents_with_chatgpt.Tasks.Engine.Requests.{has_key, resolved}
use agents_with_chatgpt.Tasks.Engine.Submitting.{
  Config, Accepted, replayed, admitted, is_model_char, is_level_char, is_model, is_level,
  given_instruction, check_texts, supported, check_workspace, check_input, same_workspace, at_once,
  request_made, proof_of, new_task, admit, admit_unless_busy, observed, submit_task, unhealthy,
}
use agents_with_chatgpt.Tasks.Engine.Submitting.Promises.{
  AsAsked, Evidence, Idle, Durable, observed-admits,
}
use agents_with_chatgpt.Tasks.Engine.Submitting.Replaying.{later}
use agents_with_chatgpt.Tasks.Engine.Submitting.Resubmitting.{resubmit-replays}

abbrev env : Env
env = record {
  now = 2000;
  dispatch_env = none;
  paths = paths;
  registry = registry;
  entitlement_selection = none;
  hash = λ f. f.instruction;
  message = λ x. "error";
}

abbrev cfg : Config
cfg = record { max_instruction_chars = 100; max_queued_per_workspace = 5 }

abbrev input : SubmitInput
input = record {
  entitlement_plan = none;
  idempotency_key = some "build-1";
  workspace_id = "ws_main";
  instruction = "build";
  write_scope = some readonly;
  mode = none;
  resume_session_id = none;
  immediate = false;
  model_id = some "glm-4.6";
  thought_level = none;
}

abbrev accepted : Accepted
accepted = record { input = input; workspace_id = "ws_main"; instruction = "build"; path = "/work" }

abbrev session : String
session = "sess_00000000-0000-0000-0000-00000000000a"

abbrev id : String
id = "z2c_0123456789abcdef01"

abbrev binding : Binding
binding = record {
  provider_id = "zai-api";
  model_id = "glm-4.6";
  source = "official-session-read";
  thought_level = some "max";
  plan_enabled = some true;
  available_models = some (record { provider_id = none; model_id = "glm-4.6" } ∷ []);
  entitlement = none;
}

abbrev engine : Engine
engine = record { store = store; pumps = [] }

is_accepted : check_input cfg env input ≡ ok accepted
unfolding check_input check_workspace check_texts supported given_instruction is_truthy is_model
    is_level is_model_char is_level_char text_length is_idempotency_key is_session_id matches
    matches_i matches_head resolve_authorized authorize_entry get_entry read_key
    require_supported_entitlement plan_or_default is_default trim
is_accepted = refl

abbrev task : Task
task = new_task env accepted id session (some binding)

is_admitted :
    result (observed env accepted id session (ok (some binding))) engine ≡ ok (admitted task)
unfolding observed admit_unless_busy admit same_workspace resolved resolve_authorized
    authorize_entry get_entry read_key governed_binding governed admissible_binding request_met
    plan_met attests advertised is_offer route_matches entitlement_access_mode includes request_made
    plan_or_default is_default at_once stored admit_task is_readonly plan_enabled
is_admitted = refl

id_is_new : find_task id store.state ≡ none
unfolding find_task
id_is_new = refl

observed-admits_example :
    (task.task_id ≡ id)
    × AsAsked env input "ws_main" "/work" session task
    × ((b : Binding) × (◌≡◌ {A = Result Failure (Option Binding)} (ok (some binding)) (ok (some b)))
        × Evidence input b task)
    × ((w : Entry) × (read_key "ws_main" registry ≡ some w)
        × (w.allowed ≡ true)
        × (w.workspace_id ≡ "ws_main")
        × (w.canonical_path ≡ "/work"))
    × (trim task.instruction ≢ "")
    × (text_length task.instruction ≤ 100)
    × ((w : Entry) × (read_key "ws_main" registry ≡ some w)
        × (w.allowed ≡ true)
        × (paths.exists "/work" ≡ true)
        × (w.canonical_path ≡ "/work"))
    × (input.immediate ≡ true → Idle "ws_main" engine)
    × ((s : Store) × Durable task store s
        × (after (observed env accepted id session (ok (some binding))) engine
            ≡ kick env "ws_main" (record engine { store = s })))
observed-admits_example =
    observed-admits cfg env env input accepted id session is_accepted (ok (some binding)) engine
      task id_is_new store-Distinct is_admitted

-- much later, with the provider down
abbrev done_task : Task
done_task = later task completed (some 3000) (some 4000) (some "done") (some "out_1")

abbrev later_env : Env
later_env = record env { now = 9000 }

abbrev later_engine : Engine
later_engine = record {
  store = record store { state = record store.state { tasks = done_task ∷ [] } };
  pumps = [];
}

good_id : is_native_task_id id ≡ true
unfolding is_native_task_id matches
good_id = refl

good_session : is_session_id session ≡ true
unfolding is_session_id matches_i
good_session = refl

alone : keep (has_key "ws_main" "build-1") later_engine.store.state.tasks ≡ done_task ∷ []
unfolding has_key new_task proof_of
alone = refl

open_now : resolve_authorized paths "ws_main" registry ≡ ok entry
unfolding resolve_authorized authorize_entry get_entry read_key
open_now = refl

plan_supported : supported later_env input.entitlement_plan ≡ true
unfolding supported require_supported_entitlement plan_or_default is_default
plan_supported = refl

resubmit-replays_example :
    submit_task cfg later_env input unhealthy later_engine ≡ (ok (replayed done_task), later_engine)
resubmit-replays_example =
    resubmit-replays cfg env later_env input accepted id session "build-1" (ok (some binding))
      engine later_engine task entry unhealthy completed (some 3000) (some 4000) (some "done")
      (some "out_1") is_accepted is_admitted refl good_id good_session refl (λ f. refl) alone refl
      open_now refl refl plan_supported
