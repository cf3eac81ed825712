-- ===== src/Tasks/Engine/Tests.antt =====
-- Tests of the task engine and of the view of a task.
use agents_with_chatgpt.Prelude.{
  err, Result, List, ◌++◌, ◌↔◌, String, ◌≡◌, ◌≢◌, refl, true, false, Option, none, some, ok, [],
  ◌∷◌, find, result, after, read_key, arith, contains_i, contains_word_i,
}
use agents_with_chatgpt.Tasks.View.{public_view, public_view-observed_iff}
use agents_with_chatgpt.Tasks.Model.{
  Binding, EntitlementReadback, start, Task, running, cancelled, completed, is_terminal,
}
use agents_with_chatgpt.Tasks.Store.{Output, find_task, queue_of, with_status, is_keyed}
use agents_with_chatgpt.Tasks.Store.Success.{Writable}
use agents_with_chatgpt.Tasks.Fixtures.{old_task, waiting_task, queue, store}
use agents_with_chatgpt.Access.Workspaces.{resolve_authorized}
use agents_with_chatgpt.Access.Workspaces.Resolve.{resolve_iff}
use agents_with_chatgpt.Access.Workspaces.Tests.{paths, registry, entry}
use agents_with_chatgpt.Attestation.{
  entitlement_access_mode, require_supported_entitlement, is_default, plan_or_default,
}
use agents_with_chatgpt.Tasks.Engine.{
  Env, gathering, sending, Engine, phase_of, dispatch_paused, is_truthy, kick,
}
use agents_with_chatgpt.Tasks.Engine.Rounds.{Waits}
use agents_with_chatgpt.Tasks.Engine.Steps.{
  outcome, turned, turn_completed, arrive, cancel_task, wrong_workspace, find_owned, get_task,
}
use agents_with_chatgpt.Tasks.Engine.Steps.Keeping.{Has}
use agents_with_chatgpt.Tasks.Engine.Steps.Arrivals.{Apart, arrive-keeps_terminal}
use agents_with_chatgpt.Tasks.Engine.Steps.Cancelling.{left_in_line, cancel_task-cancels}
use agents_with_chatgpt.Tasks.Engine.Dispatch.{kick-dispatches}
use agents_with_chatgpt.Tasks.Engine.Sessions.{
  Poll, Paced, settles, settles-ends, send_with_busy_settle, says_busy,
}
use agents_with_chatgpt.Tasks.Engine.Sessions.Settling.{send-twice_iff, SaysBusy, IdleBy}
use agents_with_chatgpt.Tasks.Engine.Requests.{get_output, output_for, check_output}
use agents_with_chatgpt.Tasks.Engine.Requests.Ownership.{asked, get_output-owned}

abbrev env : Env
env = record {
  now = 2000;
  dispatch_env = none;
  paths = paths;
  registry = registry;
  entitlement_selection = none;
  hash = λ r. "";
  message = λ x. "error";
}

-- the turn of a task that was cancelled meanwhile
abbrev stopped_task : Task
stopped_task = record old_task { status = cancelled }

abbrev stopped : Engine
stopped = record {
  store = record store { state = record store.state { tasks = stopped_task ∷ waiting_task ∷ [] } };
  pumps = ("ws_main", sending old_task) ∷ [];
}

cancelled_ends : is_terminal cancelled ≡ true
unfolding is_terminal
cancelled_ends = refl

stopped-Has : Has "z2c_task_old" cancelled stopped.store.state
unfolding find_task
stopped-Has = record { task = stopped_task; known = refl; now = refl }

stopped-Waits : Waits ("z2c_task_waiting" ∷ []) stopped.store.state
unfolding Waits find_task is_terminal
stopped-Waits u known = ground arith

arrive-keeps_terminal_example :
    Has "z2c_task_old" cancelled
      (arrive env "ws_main"
        (outcome (turned "out_1" "built" turn_completed none))
        stopped).store.state
unfolding queue_of read_key Apart
arrive-keeps_terminal_example =
    arrive-keeps_terminal "ws_main" "z2c_task_old" cancelled cancelled_ends env stopped
      (outcome (turned "out_1" "built" turn_completed none)) tt stopped-Waits stopped-Has

-- an idle queue with one task in line
abbrev idle : Engine
idle = record {
  store = record store {
    state = record store.state { queues = ("ws_main", record queue { active_task = none }) ∷ [] };
  };
  pumps = [];
}

idle-Writable : Writable idle.store
idle-Writable = record { healthy = refl; writes = refl }

idle-open : resolve_authorized paths "ws_main" registry ≡ ok entry
unfolding read_key
idle-open = (resolve_iff paths "ws_main" registry entry).1 (refl, refl, refl)

kick-dispatches_example :
    (queue_of "ws_main" (kick env "ws_main" idle).store.state
      ≡ record { paused = false; active_task = some "z2c_task_waiting"; queued_task_ids = [] })
    × (phase_of "ws_main" (kick env "ws_main" idle) ≡ some (gathering waiting_task))
    × (find_task "z2c_task_waiting" (kick env "ws_main" idle).store.state
        ≡ some (with_status 2000 running none waiting_task))
unfolding queue_of read_key find_task dispatch_paused is_keyed require_supported_entitlement
    is_default plan_or_default
kick-dispatches_example =
    kick-dispatches env "ws_main" idle waiting_task [] entry (plan_or_default none) refl refl
      idle-Writable refl refl refl (λ e. absurd (cc)) refl idle-open refl refl

cancel_task-cancels_example :
    (result (cancel_task env (some "ws_main") "z2c_task_waiting") idle ≡ ok tt)
    × ((why : Option String) × (find_task "z2c_task_waiting"
            (after (cancel_task env (some "ws_main") "z2c_task_waiting") idle).store.state
          ≡ some (with_status 2000 cancelled why waiting_task)))
    × (queue_of "ws_main"
          (after (cancel_task env (some "ws_main") "z2c_task_waiting") idle).store.state
        ≡ left_in_line waiting_task idle.store.state)
    × ((j : String)
        → j ≢ "z2c_task_waiting"
        → find_task j (after (cancel_task env (some "ws_main") "z2c_task_waiting") idle).store.state
          ≡ find_task j idle.store.state)
    × ((after (cancel_task env (some "ws_main") "z2c_task_waiting") idle).pumps ≡ [])
unfolding find_task wrong_workspace is_terminal
cancel_task-cancels_example =
    cancel_task-cancels env (some "ws_main") "z2c_task_waiting" idle waiting_task refl refl refl
      idle-Writable

-- the output of a task that is completed
abbrev the_output : Output
the_output = record {
  output_id = "out_1";
  task_id = "z2c_task_old";
  workspace_id = "ws_main";
  session_id = none;
  text = "built";
  created_at = 1500;
}

abbrev done_task : Task
done_task = record old_task { status = completed; output_id = some "out_1" }

abbrev finished : Engine
finished = record {
  store = record store {
    state = record store.state { tasks = done_task ∷ []; outputs = the_output ∷ [] };
  };
  pumps = [];
}

reads : get_output none "z2c_task_old" "out_1" finished ≡ ok the_output
unfolding get_output get_task find_owned find_task wrong_workspace output_for is_truthy check_output
reads = refl

get_output-owned_example :
    (t : Task) × (find_task "z2c_task_old" finished.store.state ≡ some t)
    × (wrong_workspace none t ≡ false)
    × (t.output_id ≡ some "out_1")
    × (the_output.output_id ≡ "out_1")
    × (the_output.task_id ≡ "z2c_task_old")
    × (the_output.workspace_id ≡ t.workspace_id)
    × (find (asked "z2c_task_old" "out_1") finished.store.state.outputs ≡ some the_output)
get_output-owned_example = get_output-owned none "z2c_task_old" "out_1" finished the_output reads

-- the session is busy once more and then idle
abbrev polls : List Poll
polls = record { status = some "busy"; at = 2500 } ∷ record { status = some "idle"; at = 3000 } ∷ []

paced : Paced 2000 polls
unfolding Paced
paced = (ground arith, (ground arith, tt))

settles-ends_example : settles 3000 2000 (polls ++ polls) ≡ settles 3000 2000 polls
settles-ends_example = settles-ends 3000 2000 polls polls paced (ground arith)

abbrev refusal : Result String String
refusal = err "-32010"

send-twice_iff_example :
    ((send_with_busy_settle refusal true 2000 1000 polls (ok "turn")).0 ≡ 2)
    ↔ ((m : String) × (refusal ≡ err m) × SaysBusy m × (true ≡ true) × IdleBy 3000 2000 polls)
send-twice_iff_example = send-twice_iff refusal (ok "turn") true 2000 1000 polls paced

hears_busy : says_busy "Busy: -32010." ≡ true
unfolding says_busy contains_i contains_word_i
hears_busy = refl

hears_other : says_busy "error -320101" ≡ false
unfolding says_busy contains_i contains_word_i
hears_other = refl

-- a task whose session was read back with the start plan
abbrev proof : EntitlementReadback
proof = record { observed = some "start-plan"; source = "provider-registry" }

abbrev binding : Binding
binding = record {
  provider_id = "account";
  model_id = "glm";
  source = "session";
  thought_level = none;
  plan_enabled = none;
  available_models = none;
  entitlement = some proof;
}

abbrev bound_task : Task
bound_task = record old_task { model_binding = some binding }

public_view-observed_iff_example :
    ((public_view (λ n. "1970") bound_task).entitlement.observed ≡ some start) ↔ (
      (b : Binding) × (r : EntitlementReadback) × (bound_task.model_binding ≡ some b)
      × (b.entitlement ≡ some r)
      × (entitlement_access_mode start ≢ none)
      × (r.observed ≡ entitlement_access_mode start))
public_view-observed_iff_example = public_view-observed_iff (λ n. "1970") bound_task start
