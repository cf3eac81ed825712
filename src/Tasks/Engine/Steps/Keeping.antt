-- ===== src/Tasks/Engine/Steps/Keeping.antt =====
-- What is known of a task after the updates of z2c/src/core/tasks/engine.ts that set no status.
use mathlib.Core.Path.{subst}
use agents_with_chatgpt.Prelude.{
  bind-after, ◌&&◌, not, trim, sym, String, ◌≡◌, refl, Option, none, some, inl, inr, after, ◌==◌,
  arith, eq_iff, Bool-cases,
}
use agents_with_chatgpt.Tasks.Model.{Task, TaskStatus}
use agents_with_chatgpt.Tasks.Store.{
  State, Output, find_task, update_task, attach_output, save_output,
}
use agents_with_chatgpt.Tasks.Store.Updates.{
  attach_output-state, save_output-tasks, find_task-update_task,
}
use agents_with_chatgpt.Tasks.Engine.{Env, Engine, Run, stored, is_truthy}
use agents_with_chatgpt.Tasks.Engine.Steps.{output_of, point_to_output, save_partial, checkpoint}

-- The task is known with this status.
pub record Has (id : String) (status : TaskStatus) (st : State) : Type 0 where
  pub task : Task
  pub known : find_task id st ≡ some task
  pub now : task.status ≡ status

pub update-Has :
    (id k : String) (status : TaskStatus) (f : Task → Task) (st : State)
    → ((u : Task) → (f u).task_id ≡ u.task_id)
    → ((u : Task) → find_task k st ≡ some u → u.status ≡ status → (f u).status ≡ status)
    → Has id status st
    → Has id status (update_task k f st)
update-Has id k status f st h g a = elim (Bool-cases (k == id)) [
  | inl hit ↦ record {
    task = f a.task;
    known = ground (arith, find_task-update_task id k f st a.task h a.known);
    now = g a.task (rw ((eq_iff k id).0 hit) a.known) a.now;
  }
  | inr miss ↦ record {
    task = a.task;
    known = ground (arith, find_task-update_task id k f st a.task h a.known);
    now = a.now;
  }
]

pub same_tasks-Has :
    (id : String) (status : TaskStatus) (st st' : State)
    → st'.tasks ≡ st.tasks
    → Has id status st
    → Has id status st'
unfolding find_task
same_tasks-Has id status st st' e a = record { task = a.task; known = rw e a.known; now = a.now }

module _ (id : String) (status : TaskStatus) where
  pub save_output-Has :
      (o : Output) (e : Engine)
      → Has id status e.store.state
      → Has id status (after (stored (save_output o)) e).store.state
  unfolding stored
  save_output-Has o e a =
      same_tasks-Has id status e.store.state (after (save_output o) e.store).state
        (save_output-tasks o e.store) a

  pub attach_output-Has :
      (k output_id : String) (e : Engine)
      → Has id status e.store.state
      → Has id status (after (stored (attach_output k output_id)) e).store.state
  unfolding stored
  attach_output-Has k output_id e a =
      subst (Has id status) (sym (attach_output-state k output_id e.store)) (
        update-Has id k status (λ t. record t { output_id = some output_id }) e.store.state
          (λ u. refl) (λ u known same. same) a)

  pub point-Has :
      (k output_id : String) (e : Engine)
      → Has id status e.store.state
      → Has id status (point_to_output k output_id e).store.state
  unfolding point_to_output
  point-Has k output_id e a =
      update-Has id k status (λ t. record t { output_id = some output_id }) e.store.state
        (λ u. refl) (λ u known same. same) a

  pub save_partial-Has :
      (env : Env) (t : Task) (output_id text : String) (e : Engine)
      → Has id status e.store.state
      → Has id status (save_partial env t output_id text e).store.state
  unfolding save_partial
  save_partial-Has env t output_id text e a =
      let save : Run (Unit {0}) = stored (save_output (output_of env t output_id text)) in
      let saved = save_output-Has (output_of env t output_id text) e a in
      bind-after (λ d. Has id status d.store.state) save _ e saved
        (λ u. attach_output-Has t.task_id output_id (after save e) saved)

  pub checkpoint-Has :
      (env : Env) (t u : Task) (p : Option (String × String)) (e : Engine)
      → Has id status e.store.state
      → Has id status (checkpoint env t u p e).store.state
  unfolding checkpoint
  checkpoint-Has env t u none e a = a
  checkpoint-Has env t u (some (output_id, text)) e a =
      elim (Bool-cases
        (is_truthy t.zcode_session_id && not (is_truthy u.output_id) && not (trim text == ""))) [
          | inl kept ↦ rw kept (save_partial-Has env t output_id text e a)
          | inr dropped ↦ rw dropped a
        ]
