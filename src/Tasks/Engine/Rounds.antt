-- ===== src/Tasks/Engine/Rounds.antt =====
-- What a round of the dispatcher of z2c/src/core/tasks/engine.ts leaves alone: `pump`, up to where it
-- waits for the task that it has started.
use mathlib.Core.Path.{subst}
use agents_with_chatgpt.Prelude.{
  find-holds, ap, ◌⊎◌, String, ◌≡◌, sym, true, false, ◌&&◌, ◌||◌, not, none, some, Result, ok, err,
  inl, inr, List, [], ◌∷◌, after, result, bind-after, ◌==◌, ◌>>◌, arith, eq_iff, Bool-cases,
  Option-cases, Result-cases,
}
use agents_with_chatgpt.Tasks.Model.{Task, TaskStatus, is_terminal, running}
use agents_with_chatgpt.Tasks.Store.{
  State, Queue, find_task, queue_of, set_queue, assert_healthy, set_status, get_or_create_queue,
  save_queue, is_keyed,
}
use agents_with_chatgpt.Tasks.Store.Queues.{tasks-create_queue}
use agents_with_chatgpt.Tasks.Store.Updates.{save_queue-state, assert_healthy-after}
use agents_with_chatgpt.Access.Workspaces.{resolve_authorized}
use agents_with_chatgpt.Tasks.Engine.{
  Failure, Env, Engine, stored, at_phase, stop_pump, start_running, authorized, run_known, run_task,
  dispatch, reserved, reserve, take_next, is_truthy, round_at, pump_round, keyed_admission_valid,
}
use agents_with_chatgpt.Tasks.Engine.Steps.Keeping.{Has, same_tasks-Has}
use agents_with_chatgpt.Tasks.Engine.Steps.Terminal.{set_status-Has}

-- Whoever is first in line is not over.
unfoldable pub Waits : List String → State → Type 0
Waits [] st = Unit
Waits (next ∷ rest) st = (u : Task) → find_task next st ≡ some u → is_terminal u.status ≡ false

find_task-id : (id : String) (t : Task) (st : State) → find_task id st ≡ some t → t.task_id ≡ id
unfolding find_task
find_task-id id t st e = (eq_iff t.task_id id).0 (find-holds (λ u. u.task_id == id) st.tasks e)

module _ (id : String) (status : TaskStatus) (over : is_terminal status ≡ true) (env : Env) where
  start_running-state :
      (t : Task) (e : Engine)
      → (start_running env t e).1.store.state
        ≡ (after (assert_healthy >> set_status env.now t.task_id running none) e.store).state
  unfolding start_running stored
  start_running-state t e = ground arith

  start_running-Has :
      (t : Task) (e : Engine)
      → ((u : Task) → find_task t.task_id e.store.state ≡ some u → is_terminal u.status ≡ false)
      → Has id status e.store.state
      → Has id status (start_running env t e).1.store.state
  unfolding stored
  start_running-Has t e live a =
      let set = set_status env.now t.task_id running none in
      let same = sym (assert_healthy-after e.store) in
      subst (Has id status) (sym (start_running-state t e)) (
        bind-after (λ s. Has id status s.state) assert_healthy (λ u. set) e.store
          (subst (λ s. Has id status s.state) same a)
          (λ u.
            subst (λ s. Has id status (after set s).state) same
              (set_status-Has id status over env.now t.task_id running none e live a)))

  -- Running a task that is not there, not authorized or not proven starts nothing.
  run_task-state :
      (next : String) (e : Engine)
      → ((run_task env next e).1.store.state ≡ e.store.state)
        ⊎ ((t : Task) × (find_task next e.store.state ≡ some t)
            × ((run_task env next e).1.store.state ≡ (start_running env t e).1.store.state))
  unfolding run_task run_known authorized
  run_task-state next e = elim (Option-cases (find_task next e.store.state)) [
    | inl lost ↦ inl (ground arith)
    | inr (t, known) ↦
        elim (Result-cases (resolve_authorized env.paths t.workspace_id env.registry)) [
          | inr (x, closed) ↦ inl (ground arith)
          | inl (entry, open_) ↦
              elim (Bool-cases
                (is_keyed t && not (keyed_admission_valid env t entry.canonical_path))) [
                  | inl unproven ↦ inl (ground arith)
                  | inr proven ↦ inr (t, known, ground arith)
                ]
        ]
  ]

  run_task-Has :
      (next : String) (e : Engine)
      → ((u : Task) → find_task next e.store.state ≡ some u → is_terminal u.status ≡ false)
      → Has id status e.store.state
      → Has id status (run_task env next e).1.store.state
  run_task-Has next e live a = elim (run_task-state next e) [
    | inl same ↦ subst (Has id status) (sym same) a
    | inr (t, known, started) ↦
        (let named : t.task_id ≡ next = find_task-id next t e.store.state known in
          subst (Has id status) (sym started) (start_running-Has t e (rw named live) a))
  ]

  dispatch-Has :
      (w next : String) (e : Engine)
      → ((u : Task) → find_task next e.store.state ≡ some u → is_terminal u.status ≡ false)
      → Has id status e.store.state
      → Has id status (dispatch env w next e).store.state
  unfolding dispatch at_phase
  dispatch-Has w next e live a = run_task-Has next e live a

  save_queue-tasks :
      (w : String) (q : Queue) (e : Engine)
      → (after (stored (save_queue w q)) e).store.state.tasks ≡ e.store.state.tasks
  unfolding stored set_queue
  save_queue-tasks w q e = ap (λ st. st.tasks) (save_queue-state w q e.store)

  reserved-Has :
      (w next : String) (r : Result Failure (Unit {0})) (e : Engine)
      → ((u : Task) → find_task next e.store.state ≡ some u → is_terminal u.status ≡ false)
      → Has id status e.store.state
      → Has id status (reserved env w next r e).store.state
  unfolding reserved stop_pump
  reserved-Has w next (ok u) e live a = dispatch-Has w next e live a
  reserved-Has w next (err x) e live a = a

  take_next-Has :
      (w : String) (q : Queue) (line : List String) (e : Engine)
      → Waits line e.store.state
      → Has id status e.store.state
      → Has id status (take_next env w q line e).store.state
  unfolding take_next reserve stop_pump Waits find_task
  take_next-Has w q [] e h a = a
  take_next-Has w q (next ∷ rest) e h a = elim (Bool-cases (next == "")) [
    | inl empty ↦ rw empty a
    | inr filled ↦
        (let q' : Queue = record q { active_task = some next; queued_task_ids = rest } in
          let e' : Engine = after (stored (save_queue w q')) e in
          let same = save_queue-tasks w q' e in
          rw filled (
            reserved-Has w next (result (stored (save_queue w q')) e) e'
              (λ u known. h u (rw same at known))
              (same_tasks-Has id status e.store.state e'.store.state same a)))
  ]

  round_at-Has :
      (w : String) (q : Queue) (e : Engine)
      → Waits q.queued_task_ids e.store.state
      → Has id status e.store.state
      → Has id status (round_at env w q e).store.state
  unfolding round_at stop_pump
  round_at-Has w q e h a = elim (Bool-cases (q.paused || is_truthy q.active_task)) [
    | inl busy ↦ rw busy a
    | inr idle ↦ rw idle (take_next-Has w q q.queued_task_ids e h a)
  ]

  created-tasks :
      (w : String) (e : Engine)
      → (after (stored (get_or_create_queue w)) e).store.state.tasks ≡ e.store.state.tasks
  unfolding stored get_or_create_queue
  created-tasks w e = tasks-create_queue w e.store.state

  Waits-same :
      (line : List String) (st st' : State) → st'.tasks ≡ st.tasks → Waits line st → Waits line st'
  unfolding Waits find_task
  Waits-same [] st st' e h = tt
  Waits-same (next ∷ rest) st st' e h = λ u known. h u (rw e at known)

  round-broken :
      (w : String) (e : Engine)
      → e.store.persistence_failed ≡ true
      → (pump_round env w e).store ≡ e.store
  unfolding pump_round stop_pump
  round-broken w e broken = ground arith

  round-healthy :
      (w : String) (e : Engine)
      → e.store.persistence_failed ≡ false
      → pump_round env w e
        ≡ round_at env w (queue_of w e.store.state) (after (stored (get_or_create_queue w)) e)
  unfolding pump_round
  round-healthy w e healthy = ground arith

  pub pump_round-Has :
      (w : String) (e : Engine)
      → Waits (queue_of w e.store.state).queued_task_ids e.store.state
      → Has id status e.store.state
      → Has id status (pump_round env w e).store.state
  pump_round-Has w e h a = elim (Bool-cases e.store.persistence_failed) [
    | inl broken ↦ subst (λ s. Has id status s.state) (sym (round-broken w e broken)) a
    | inr healthy ↦
        (let e' : Engine = after (stored (get_or_create_queue w)) e in
          let same = created-tasks w e in
          subst (λ d. Has id status d.store.state) (sym (round-healthy w e healthy))
            (round_at-Has w (queue_of w e.store.state) e'
              (Waits-same (queue_of w e.store.state).queued_task_ids e.store.state e'.store.state
                same h)
              (same_tasks-Has id status e.store.state e'.store.state same a)))
  ]
