-- ===== src/Tasks/Fixtures.antt =====
-- Tasks and a store for the tests of z2c/src/core/tasks.
use agents_with_chatgpt.Prelude.{◌≡◌, refl, true, false, none, some, [], ◌∷◌, String, includes}
use agents_with_chatgpt.Tasks.Model.{Task, TaskStatus, queued, running, workspace, build}
use agents_with_chatgpt.Tasks.Store.{Store, State, Queue, find_task}
use agents_with_chatgpt.Tasks.Store.Eviction.{Distinct}

abbrev pub a_task : String → TaskStatus → Task
a_task id s = record {
  entitlement_plan = none;
  idempotency = none;
  task_id = id;
  workspace_id = "ws_main";
  zcode_session_id = none;
  status = s;
  instruction = "build it";
  write_scope = workspace;
  mode = build;
  created_at = 1000;
  started_at = none;
  completed_at = none;
  exit_status = none;
  output_id = none;
  resume_of_session_id = none;
  requested_model_id = none;
  requested_thought_level = none;
  model_binding = none;
}

abbrev pub new_task : Task
new_task = a_task "z2c_task_new" queued

abbrev pub old_task : Task
old_task = a_task "z2c_task_old" running

abbrev pub waiting_task : Task
waiting_task = a_task "z2c_task_waiting" queued

abbrev pub queue : Queue
queue = record {
  paused = false;
  active_task = some "z2c_task_old";
  queued_task_ids = "z2c_task_waiting" ∷ [];
}

abbrev pub state : State
state = record {
  tasks = old_task ∷ waiting_task ∷ [];
  queues = ("ws_main", queue) ∷ [];
  outputs = [];
}

abbrev pub store : Store
store = record { state = state; durable = state; persistence_failed = false; disk_ok = true }

abbrev pub full_disk : Store
full_disk = record store { disk_ok = false }

pub new_here : find_task new_task.task_id store.state ≡ none
unfolding find_task
new_here = refl

pub store-Distinct : Distinct store.state.tasks
unfolding Distinct includes
store-Distinct = (refl, (refl, tt))
