-- ===== src/Tasks/Engine/Steps/Cancelling.antt =====
-- What cancelling a task does, and what reading one checks: `cancelTask` and `getTask` of
-- z2c/src/core/tasks/engine.ts.
use mathlib.Core.Path.{subst}
use agents_with_chatgpt.Prelude.{
  String, ◌≡◌, ◌≢◌, refl, sym, ◌∙◌, false, Option, some, Result, ok, inl, inr, result, after,
  includes, remove_first, arith, eq_iff, eq_refl, Bool-cases, ◌==◌, ◌>>◌, opt_eq, ◌&&◌,
  if◌then◌else◌, find-holds,
}
use agents_with_chatgpt.Tasks.Model.{Task, cancelled, is_terminal}
use agents_with_chatgpt.Tasks.Store.{
  State, Queue, find_task, queue_of, create_queue, set_queue, update_task, with_status,
  get_or_create_queue, save_queue,
}
use agents_with_chatgpt.Tasks.Store.Queues.{queue_of-create_queue, queue_of-set_queue}
use agents_with_chatgpt.Tasks.Store.Updates.{find_task-update_task, find_task-update_other}
use agents_with_chatgpt.Tasks.Store.Success.{Writable, with_state, save_queue-ok, set_status-ok}
use agents_with_chatgpt.Tasks.Engine.{Failure, Env, Engine, Run, stored, is_truthy}
use agents_with_chatgpt.Tasks.Engine.Dispatch.{
  stored-ok, find_task-create_queue, find_task-set_queue,
}
use agents_with_chatgpt.Tasks.Engine.Steps.{
  find_owned, wrong_workspace, get_task, cancel_with, cancel_live, cancel_found, cancel_task,
}

-- What is left in line when a task is cancelled.
abbrev pub left_in_line : Task → State → Queue
left_in_line t st =
    let q : Queue = queue_of t.workspace_id st in
    if includes t.task_id q.queued_task_ids
    then record q { queued_task_ids = remove_first t.task_id q.queued_task_ids }
    else q

-- The end of a cancellation from a state with the line `q`.
record Cancelled (env : Env) (t : Task) (q : Queue) (e : Engine)
    (r : Result Failure (Unit {0}) × Engine) : Type 0 where
  pub done : r.0 ≡ ok tt
  pub status :
      (why : Option String) × (find_task t.task_id r.1.store.state
        ≡ some (with_status env.now cancelled why t))
  pub line : queue_of t.workspace_id r.1.store.state ≡ q
  pub others :
      (j : String) → j ≢ t.task_id → find_task j r.1.store.state ≡ find_task j e.store.state
  pub pumps : r.1.pumps ≡ e.pumps

module _ (env : Env) (t : Task) (why : String) where
  cancelled_state : Engine → State
  cancelled_state d = update_task t.task_id (with_status env.now cancelled (some why)) d.store.state

  cancel_with-ok :
      (d : Engine)
      → Writable d.store
      → find_task t.task_id d.store.state ≡ some t
      → cancel_with env t why d
        ≡ (ok tt, record d { store = with_state (cancelled_state d) d.store })
  unfolding cancel_with stored cancelled_state
  cancel_with-ok d v known =
      ground (arith, set_status-ok env.now t.task_id cancelled (some why) d.store t v known)

  cancel_with-Cancelled :
      (q : Queue) (e d : Engine)
      → Writable d.store
      → find_task t.task_id d.store.state ≡ some t
      → queue_of t.workspace_id d.store.state ≡ q
      → ((j : String) → find_task j d.store.state ≡ find_task j e.store.state)
      → d.pumps ≡ e.pumps
      → Cancelled env t q e (cancel_with env t why d)
  unfolding cancelled_state queue_of update_task with_status
  cancel_with-Cancelled q e d v known line same pumps =
      subst (λ r. Cancelled env t q e r) (sym (cancel_with-ok d v known))
        (record {
          done = refl;
          status = (
            some why,
            find_task-update_task t.task_id t.task_id (with_status env.now cancelled (some why))
                  d.store.state t (λ u. refl) known
                ∙ rw (eq_refl t.task_id) refl,
          );
          line = line;
          others = λ j n.
              find_task-update_other j t.task_id (with_status env.now cancelled (some why))
                d.store.state (λ u. refl) n
              ∙ same j;
          pumps = pumps;
        })

then-ok : (m k : Run (Unit {0})) (d d' : Engine) → m d ≡ (ok tt, d') → (m >> k) d ≡ k d'
then-ok m k d d' h = ground (arith, h)

module _ (env : Env) (t : Task) (e : Engine) where
  -- the queue is created where it is missing
  created : Engine
  created = record e {
    store = record e.store { state = create_queue t.workspace_id e.store.state };
  }

  taken_out : Engine
  taken_out =
      let q : Queue = queue_of t.workspace_id e.store.state in
      record e {
        store =
            with_state
              (set_queue t.workspace_id
                (record q { queued_task_ids = remove_first t.task_id q.queued_task_ids })
                (create_queue t.workspace_id e.store.state))
              e.store;
      }

  waiting-Cancelled :
      (why : String)
      → Writable e.store
      → find_task t.task_id e.store.state ≡ some t
      → Cancelled env t (queue_of t.workspace_id e.store.state) e (cancel_with env t why created)
  unfolding created
  waiting-Cancelled why v known =
      let st : State = e.store.state in
      cancel_with-Cancelled env t why (queue_of t.workspace_id st) e created
        (record { healthy = v.healthy; writes = v.writes })
        (find_task-create_queue t.workspace_id t.task_id st ∙ known)
        (queue_of-create_queue t.workspace_id t.workspace_id st)
        (λ j. find_task-create_queue t.workspace_id j st) refl

  shorter : Queue
  shorter =
      let q : Queue = queue_of t.workspace_id e.store.state in
      record q { queued_task_ids = remove_first t.task_id q.queued_task_ids }

  line-Cancelled :
      Writable e.store
      → find_task t.task_id e.store.state ≡ some t
      → Cancelled env t shorter e (
          (stored (save_queue t.workspace_id shorter) >> cancel_with env t "cancelled while queued")
            created)
  unfolding created shorter taken_out
  line-Cancelled v known =
      let w : String = t.workspace_id in
      let st : State = create_queue w e.store.state in
      let v' : Writable created.store = record { healthy = v.healthy; writes = v.writes } in
      subst (λ r. Cancelled env t shorter e r)
        (sym (
          then-ok (stored (save_queue w shorter)) (cancel_with env t "cancelled while queued")
            created taken_out
            (stored-ok (save_queue w shorter) tt created _
              (save_queue-ok w shorter created.store v'))))
        (cancel_with-Cancelled env t "cancelled while queued" shorter e taken_out
          (record { healthy = v.healthy; writes = v.writes })
          (find_task-set_queue w t.task_id shorter st
            ∙ find_task-create_queue w t.task_id e.store.state
            ∙ known)
          (queue_of-set_queue w w shorter st ∙ rw (eq_refl w) refl)
          (λ j. find_task-set_queue w j shorter st ∙ find_task-create_queue w j e.store.state) refl)

  cancel_live-Cancelled :
      Writable e.store
      → find_task t.task_id e.store.state ≡ some t
      → Cancelled env t (left_in_line t e.store.state) e (cancel_live env t e)
  unfolding cancel_live stored get_or_create_queue created shorter
  cancel_live-Cancelled v known =
      let q : Queue = queue_of t.workspace_id e.store.state in
      elim (Bool-cases (includes t.task_id q.queued_task_ids)) [
        | inl inside ↦ rw inside (line-Cancelled v known)
        | inr outside ↦
            rw outside
              (elim (Bool-cases
                (opt_eq q.active_task (some t.task_id) && is_truthy t.zcode_session_id)) [
                  | inl live ↦ rw live (waiting-Cancelled "session stop requested" v known)
                  | inr idle ↦ rw idle (waiting-Cancelled "cancelled before dispatch" v known)
                ])
      ]

module _ (env : Env) (w : Option String) (id : String) (e : Engine) (t : Task) where
  cancel_task-live :
      find_task id e.store.state ≡ some t
      → wrong_workspace w t ≡ false
      → is_terminal t.status ≡ false
      → cancel_task env w id e ≡ cancel_live env t e
  unfolding cancel_task get_task find_owned cancel_found
  cancel_task-live known own live = ground arith

  named : find_task id e.store.state ≡ some t → t.task_id ≡ id
  unfolding find_task
  named known =
      (eq_iff t.task_id id).0 (find-holds (λ u. u.task_id == id) e.store.state.tasks known)

  -- Cancelling a task that is not over, for the workspace it belongs to or for no workspace in
  -- particular, succeeds where the file can be written: the task is cancelled and nothing else of it
  -- than its end changes, it is out of its workspace's line, whose other members keep their order,
  -- the workspace stays paused or not and keeps its active task until that run settles, every other
  -- task is as before, and every dispatcher waits for what it waited for.
  pub cancel_task-cancels :
      find_task id e.store.state ≡ some t
      → wrong_workspace w t ≡ false
      → is_terminal t.status ≡ false
      → Writable e.store
      → (result (cancel_task env w id) e ≡ ok tt)
        × ((why : Option String) × (find_task id (after (cancel_task env w id) e).store.state
              ≡ some (with_status env.now cancelled why t)))
        × (queue_of t.workspace_id (after (cancel_task env w id) e).store.state
            ≡ left_in_line t e.store.state)
        × ((j : String)
            → j ≢ id
            → find_task j (after (cancel_task env w id) e).store.state ≡ find_task j e.store.state)
        × ((after (cancel_task env w id) e).pumps ≡ e.pumps)
  cancel_task-cancels known own live v =
      let same = named known in
      let c =
        cancel_live-Cancelled env t e v
          (subst (λ j. find_task j e.store.state ≡ some t) (sym same) known) in
      subst
        (λ r.
          (r.0 ≡ ok tt)
          × ((why : Option String) × (find_task id r.1.store.state
                ≡ some (with_status env.now cancelled why t)))
          × (queue_of t.workspace_id r.1.store.state ≡ left_in_line t e.store.state)
          × ((j : String) → j ≢ id → find_task j r.1.store.state ≡ find_task j e.store.state)
          × (r.1.pumps ≡ e.pumps))
        (sym (cancel_task-live known own live))
        (
          c.done,
          (
            c.status.0,
            subst
                (λ j.
                  find_task j (cancel_live env t e).1.store.state
                  ≡ some (with_status env.now cancelled c.status.0 t))
                same c.status.1,
          ),
          c.line,
          λ j n. c.others j (λ x. n (x ∙ same)),
          c.pumps,
        )
