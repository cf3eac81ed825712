-- ===== src/Tasks/Engine/Dispatch.antt =====
-- When a queue dispatches, and what: `pump` of z2c/src/core/tasks/engine.ts.
use agents_with_chatgpt.Prelude.{
  String, ◌≡◌, ◌≢◌, ◌⊎◌, refl, ◌∙◌, true, false, ◌||◌, none, some, ok, List, ◌∷◌, is_some,
  read_key-write_key_self, arith, eq_iff, eq_refl,
}
use agents_with_chatgpt.Tasks.Model.{Task, EntitlementPlan, running}
use agents_with_chatgpt.Tasks.Store.{
  Action, Store, State, Queue, find_task, queue_of, create_queue, set_queue, update_task,
  with_status, get_or_create_queue, save_queue, is_keyed,
}
use agents_with_chatgpt.Tasks.Store.Queues.{
  tasks-create_queue, queue_of-create_queue, queue_of-set_queue,
}
use agents_with_chatgpt.Tasks.Store.Updates.{find_task-update_task}
use agents_with_chatgpt.Tasks.Store.Success.{
  Writable, with_state, save_queue-ok, set_status-ok, assert_healthy-ok,
}
use agents_with_chatgpt.Access.Workspaces.{Entry, resolve_authorized}
use agents_with_chatgpt.Attestation.{require_supported_entitlement}
use agents_with_chatgpt.Tasks.Engine.{
  Env, gathering, Engine, stored, phase_of, at_phase, stop_pump, dispatch_paused, enter_try,
  start_running, authorized, run_known, run_task, dispatch, reserved, reserve, take_next, is_truthy,
  round_at, pump_round, kick,
}

module _ (env : Env) (w : String) (e : Engine) where
  -- While dispatch is paused, the workspace's queue is paused or has an active task, or its
  -- dispatcher is already at work, a kick changes no task and no queue.
  pub kick-waits :
      (dispatch_paused env.dispatch_env ≡ true)
        ⊎ (is_some (phase_of w e) ≡ true)
        ⊎ (((queue_of w e.store.state).paused || is_truthy (queue_of w e.store.state).active_task)
            ≡ true)
      → ((kick env w e).store.state.tasks ≡ e.store.state.tasks)
        × ((v : String) → queue_of v (kick env w e).store.state ≡ queue_of v e.store.state)
  unfolding kick pump_round round_at stop_pump stored get_or_create_queue
  kick-waits h = (
    ground (arith, tasks-create_queue w e.store.state),
    λ v. ground (arith, queue_of-create_queue v w e.store.state),
  )

  start-ok :
      (t : Task) (plan : EntitlementPlan)
      → Writable e.store
      → find_task t.task_id e.store.state ≡ some t
      → require_supported_entitlement t.entitlement_plan env.entitlement_selection ≡ ok plan
      → start_running env t e ≡ (
        gathering t,
        record e {
          store =
              with_state
                (update_task t.task_id (with_status env.now running none) e.store.state)
                e.store;
        },
      )
  unfolding start_running stored enter_try
  start-ok t plan v known allowed = ground (
    arith,
    assert_healthy-ok e.store v,
    set_status-ok env.now t.task_id running none e.store t v known,
  )

  run_task-ok :
      (t : Task) (entry : Entry)
      → find_task t.task_id e.store.state ≡ some t
      → resolve_authorized env.paths t.workspace_id env.registry ≡ ok entry
      → is_keyed t ≡ false
      → run_task env t.task_id e ≡ start_running env t e
  unfolding run_task run_known authorized
  run_task-ok t entry known open_ plain = ground arith

-- the state when the head of the line is dispatched
abbrev taken : Env → String → Task → List String → State → State
taken env w t rest st = update_task t.task_id (with_status env.now running none) (
    set_queue w (record { paused = false; active_task = some t.task_id; queued_task_ids = rest })
      (create_queue w st))

taken-queue :
    (env : Env) (w : String) (t : Task) (rest : List String) (st : State)
    → queue_of w (taken env w t rest st)
      ≡ record { paused = false; active_task = some t.task_id; queued_task_ids = rest }
unfolding queue_of update_task
taken-queue env w t rest st =
    let q : Queue = record {
      paused = false;
      active_task = some t.task_id;
      queued_task_ids = rest;
    } in
    ground (arith, queue_of-set_queue w w q (create_queue w st), eq_refl w)

pub find_task-create_queue :
    (w id : String) (st : State) → find_task id (create_queue w st) ≡ find_task id st
unfolding find_task
find_task-create_queue w id st = rw (tasks-create_queue w st) refl

pub find_task-set_queue :
    (w id : String) (q : Queue) (st : State) → find_task id (set_queue w q st) ≡ find_task id st
unfolding find_task set_queue
find_task-set_queue w id q st = refl

taken-task :
    (env : Env) (w : String) (t : Task) (rest : List String) (st : State)
    → find_task t.task_id st ≡ some t
    → find_task t.task_id (taken env w t rest st) ≡ some (with_status env.now running none t)
unfolding with_status
taken-task env w t rest st known =
    let q : Queue = record {
      paused = false;
      active_task = some t.task_id;
      queued_task_ids = rest;
    } in
    find_task-update_task t.task_id t.task_id (with_status env.now running none)
      (set_queue w q (create_queue w st)) t (λ u. refl)
      (find_task-set_queue w t.task_id q (create_queue w st)
        ∙ find_task-create_queue w t.task_id st
        ∙ known)
    ∙ rw (eq_refl t.task_id) refl

pub stored-ok :
    {A : Type 0} (m : Action A) (a : A) (d : Engine) (s : Store)
    → m d.store ≡ (ok a, s)
    → stored m d ≡ (ok a, record d { store = s })
unfolding stored
stored-ok m a d s h = rw h refl

module _ (env : Env) (w : String) (e : Engine) (t : Task) (rest : List String) (entry : Entry)
    (plan : EntitlementPlan) where
  reserve-ok :
      (q : Queue) (d : Engine)
      → Writable d.store
      → find_task t.task_id d.store.state ≡ some t
      → resolve_authorized env.paths t.workspace_id env.registry ≡ ok entry
      → is_keyed t ≡ false
      → require_supported_entitlement t.entitlement_plan env.entitlement_selection ≡ ok plan
      → reserve env w t.task_id q d
        ≡ at_phase w (gathering t) (record d {
          store =
              with_state
                (update_task t.task_id
                  (with_status env.now running none)
                  (set_queue w q d.store.state))
                d.store;
        })
  unfolding reserve reserved dispatch
  reserve-ok q d v known open_ plain allowed =
      let d' : Engine = record d { store = with_state (set_queue w q d.store.state) d.store } in
      let v' : Writable d'.store = record { healthy = v.healthy; writes = v.writes } in
      let known' : find_task t.task_id d'.store.state ≡ some t =
        find_task-set_queue w t.task_id q d.store.state ∙ known in
      ground (
        arith,
        stored-ok (save_queue w q) tt d _ (save_queue-ok w q d.store v),
        run_task-ok env w d' t entry known' open_ plain,
        start-ok env w d' t plan v' known' allowed,
      )

  kick-taken :
      dispatch_paused env.dispatch_env ≡ false
      → phase_of w e ≡ none
      → Writable e.store
      → (queue_of w e.store.state).paused ≡ false
      → (queue_of w e.store.state).active_task ≡ none
      → (queue_of w e.store.state).queued_task_ids ≡ t.task_id ∷ rest
      → t.task_id ≢ ""
      → find_task t.task_id e.store.state ≡ some t
      → resolve_authorized env.paths t.workspace_id env.registry ≡ ok entry
      → is_keyed t ≡ false
      → require_supported_entitlement t.entitlement_plan env.entitlement_selection ≡ ok plan
      → kick env w e
        ≡ at_phase w
            (gathering t)
            (record e { store = with_state (taken env w t rest e.store.state) e.store })
  unfolding kick pump_round round_at take_next stored get_or_create_queue is_truthy
  kick-taken on idle v going free line filled known open_ plain allowed =
      let d : Engine = record e {
        store = record e.store { state = create_queue w e.store.state };
      } in
      let q : Queue = record {
        paused = false;
        active_task = some t.task_id;
        queued_task_ids = rest;
      } in
      let r =
        reserve-ok q d (record { healthy = v.healthy; writes = v.writes })
          (find_task-create_queue w t.task_id e.store.state ∙ known) open_ plain allowed in
      ground (arith, v.healthy, r, eq_iff t.task_id "")

-- An idle queue dispatches its head, and only its head: with dispatch on and the file writable, the
-- first task in line, if it is authorized, has no key and asks for no plan that the runtime cannot
-- select, becomes the active one, leaves the line with the rest in their order, and is running.
pub kick-dispatches :
    (env : Env) (w : String) (e : Engine) (t : Task) (rest : List String) (entry : Entry)
    (plan : EntitlementPlan)
    → dispatch_paused env.dispatch_env ≡ false
    → phase_of w e ≡ none
    → Writable e.store
    → (queue_of w e.store.state).paused ≡ false
    → (queue_of w e.store.state).active_task ≡ none
    → (queue_of w e.store.state).queued_task_ids ≡ t.task_id ∷ rest
    → t.task_id ≢ ""
    → find_task t.task_id e.store.state ≡ some t
    → resolve_authorized env.paths t.workspace_id env.registry ≡ ok entry
    → is_keyed t ≡ false
    → require_supported_entitlement t.entitlement_plan env.entitlement_selection ≡ ok plan
    → (queue_of w (kick env w e).store.state
        ≡ record { paused = false; active_task = some t.task_id; queued_task_ids = rest })
      × (phase_of w (kick env w e) ≡ some (gathering t))
      × (find_task t.task_id (kick env w e).store.state ≡ some (with_status env.now running none t))
unfolding at_phase update_task
kick-dispatches env w e t rest entry plan on idle v going free line filled known open_ plain
      allowed =
    rw
      (kick-taken env w e t rest entry plan on idle v going free line filled known open_ plain
        allowed)
      (
        taken-queue env w t rest e.store.state,
        read_key-write_key_self w (gathering t) e.pumps,
        taken-task env w t rest e.store.state known,
      )
