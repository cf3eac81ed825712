-- ===== src/Tasks/Engine/Requests.antt =====
-- z2c/src/core/tasks/engine.ts: what callers ask of the engine besides submission and cancellation:
-- the state of a queue, pausing and resuming it, a task by its key, and a task's output.
pub mod Ownership
use agents_with_chatgpt.Prelude.{
  ℕ, String, Bool, true, false, ◌&&◌, not, Option, none, some, Result, ok, err, pure, throw, get,
  put, after, require, ◌>>=◌, ◌>>◌, List, [], ◌∷◌, find, keep, map, length, is_some, opt_eq, ◌==◌,
  if◌then◌else◌,
}
use agents_with_chatgpt.Tasks.Model.{Task, Idempotency}
use agents_with_chatgpt.Tasks.Store.{
  Store, State, Queue, Output, find_task, queue_of, get_or_create_queue, save_queue, admit_task,
}
use agents_with_chatgpt.Access.Workspaces.{Entry, WorkspaceError, resolve_authorized}
use agents_with_chatgpt.Slot.Lease.{is_idempotency_key}
use agents_with_chatgpt.Tasks.Engine.{
  Failure, workspace_failure, idempotency_invalid, invalid_idempotency_key, not_found, no_output,
  output_mismatch, workspace_mismatch, Env, Engine, Run, stored, is_truthy, kick,
}
use agents_with_chatgpt.Tasks.Engine.Steps.{get_task}

-- `resolveAuthorized`, thrown through
unfoldable pub resolved : Env → String → Run Entry
resolved env w e = elim (resolve_authorized env.paths w env.registry) [
  | ok entry ↦ (ok entry, e)
  | err x ↦ (err (workspace_failure x), e)
]

pub record QueueView : Type 0 where
  pub workspace_id : String
  pub paused : Bool
  pub active_task : Option String
  pub queued_task_count : ℕ
  pub next_queued_task_id : Option String

head_of : List String → Option String
head_of [] = none
head_of (x ∷ xs) = some x

-- `getQueue`
pub get_queue : Env → String → Run QueueView
get_queue env w = do
  entry ← resolved env w
  q ← stored (get_or_create_queue entry.workspace_id)
  pure (record {
    workspace_id = entry.workspace_id;
    paused = q.paused;
    active_task = q.active_task;
    queued_task_count = length q.queued_task_ids;
    next_queued_task_id = head_of q.queued_task_ids;
  })

set_paused : Env → Bool → String → Run String
set_paused env paused w = do
  entry ← resolved env w
  q ← stored (get_or_create_queue entry.workspace_id)
  stored (save_queue entry.workspace_id (record q { paused = paused }))
  pure entry.workspace_id

-- `pauseQueue`
pub pause_queue : Env → String → Run (Unit {0})
pause_queue env w = do set_paused env true w; pure tt

-- `resumeQueue`
pub resume_queue : Env → String → Run (Unit {0})
resume_queue env w = do id ← set_paused env false w; e ← get; put (kick env id e)

kick_all : Env → List (String × Queue) → Engine → Engine
kick_all env [] e = e
kick_all env ((w, q) ∷ qs) e = kick_all env qs (kick env w e)

-- `startQueuedTasks`, at a provider that is or is not healthy
pub start_queued_tasks : Env → Bool → Engine → Engine
start_queued_tasks env healthy e = if healthy then kick_all env e.store.state.queues e else e

unfoldable pub has_key : String → String → Task → Bool
has_key w key t = t.workspace_id == w && elim t.idempotency [ none ↦ false | some p ↦ p.key == key ]

unfoldable pub only : List Task → Result Failure (Option Task)
only [] = ok none
only (t ∷ []) = ok (some t)
only (t ∷ u ∷ ts) = err idempotency_invalid

-- `resolveKeyedTask`, up to the view
pub resolve_keyed_task : String → String → Engine → Result Failure (Option Task)
resolve_keyed_task w key e =
    if is_idempotency_key key
    then only (keep (has_key w key) e.store.state.tasks)
    else err invalid_idempotency_key

unfoldable pub check_output : Task → Option Output → Result Failure Output
check_output t none = err output_mismatch
check_output t (some o) =
    if not (opt_eq (some o.output_id) t.output_id)
    then err output_mismatch
    else if not (o.workspace_id == t.workspace_id)
    then err workspace_mismatch
    else ok o

unfoldable pub output_for : String → String → Task → Engine → Result Failure Output
output_for id output_id t e =
    if not (is_truthy t.output_id)
    then err no_output
    else check_output t
        (find (λ o. o.output_id == output_id && o.task_id == id) e.store.state.outputs)

-- `getOutput`
unfoldable pub get_output : Option String → String → String → Engine → Result Failure Output
get_output w id output_id e = elim (get_task w id e) [
  | err x ↦ err x
  | ok t ↦ output_for id output_id t e
]
