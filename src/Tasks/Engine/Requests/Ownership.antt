-- ===== src/Tasks/Engine/Requests/Ownership.antt =====
-- Whose output a caller can read: `getOutput` of z2c/src/core/tasks/engine.ts.
use agents_with_chatgpt.Prelude.{
  String, ◌≡◌, refl, ap, ◌∙◌, Bool, false, Option, none, some, Result, ok, err, List, find, arith,
  eq_iff, opt_eq_iff, find-holds, ◌==◌, ◌&&◌,
}
use agents_with_chatgpt.Tasks.Model.{Task}
use agents_with_chatgpt.Tasks.Store.{Output, find_task}
use agents_with_chatgpt.Tasks.Engine.{Failure, Engine}
use agents_with_chatgpt.Tasks.Engine.Steps.{wrong_workspace, find_owned, get_task}
use agents_with_chatgpt.Tasks.Engine.Requests.{check_output, output_for, get_output}

check_output-owned :
    (t : Task) (found : Option Output) (o : Output)
    → check_output t found ≡ ok o
    → (found ≡ some o) × (t.output_id ≡ some o.output_id) × (o.workspace_id ≡ t.workspace_id)
unfolding check_output
check_output-owned t none o h = absurd (cc)
check_output-owned t (some p) o h =
    ground (arith, opt_eq_iff (some p.output_id) t.output_id, eq_iff p.workspace_id t.workspace_id)

pub asked : String → String → Output → Bool
asked id output_id o = o.output_id == output_id && o.task_id == id

output_for-checked :
    (id output_id : String) (t : Task) (e : Engine) (o : Output)
    → output_for id output_id t e ≡ ok o
    → check_output t (find (asked id output_id) e.store.state.outputs) ≡ ok o
unfolding output_for asked
output_for-checked id output_id t e o h = ground arith

found-asked :
    (id output_id : String) (os : List Output) (o : Output)
    → find (asked id output_id) os ≡ some o
    → (o.output_id ≡ output_id) × (o.task_id ≡ id)
unfolding asked
found-asked id output_id os o h =
    ground (
      arith,
      find-holds (asked id output_id) os h,
      eq_iff o.output_id output_id,
      eq_iff o.task_id id,
    )

find_owned-known :
    (w : Option String) (id : String) (found : Option Task) (t : Task)
    → find_owned w id found ≡ ok t
    → (found ≡ some t) × (wrong_workspace w t ≡ false)
unfolding find_owned
find_owned-known w id none t h = absurd (cc)
find_owned-known w id (some u) t h = ground arith

get_task-found :
    (w : Option String) (id : String) (e : Engine) (t : Task)
    → get_task w id e ≡ ok t
    → find_owned w id (find_task id e.store.state) ≡ ok t
unfolding get_task
get_task-found w id e t h = h

get_output-found :
    (w : Option String) (id output_id : String) (e : Engine) (r : Result Failure Task) (o : Output)
    → get_task w id e ≡ r
    → get_output w id output_id e ≡ ok o
    → (t : Task) × (r ≡ ok t) × (output_for id output_id t e ≡ ok o)
unfolding get_output
get_output-found w id output_id e (err x) o at h = absurd (ground arith)
get_output-found w id output_id e (ok t) o at h = (t, refl, ground arith)

-- An output that is handed out is the one asked for, it is the first one stored with its
-- id for that task, and it belongs to a known task
-- with the id asked for: the task points to it, they have the same workspace, and this is the
-- workspace that was named where one was named.
pub get_output-owned :
    (w : Option String) (id output_id : String) (e : Engine) (o : Output)
    → get_output w id output_id e ≡ ok o
    → (t : Task) × (find_task id e.store.state ≡ some t)
      × (wrong_workspace w t ≡ false)
      × (t.output_id ≡ some output_id)
      × (o.output_id ≡ output_id)
      × (o.task_id ≡ id)
      × (o.workspace_id ≡ t.workspace_id)
      × (find (asked id output_id) e.store.state.outputs ≡ some o)
get_output-owned w id output_id e o h =
    let (t, got, read) = get_output-found w id output_id e (get_task w id e) o refl h in
    let (at, own) =
      find_owned-known w id (find_task id e.store.state) t (get_task-found w id e t got) in
    let (kept, points, place) =
      check_output-owned t _ o (output_for-checked id output_id t e o read) in
    let (same, task) = found-asked id output_id e.store.state.outputs o kept in
    (t, at, own, points ∙ ap some same, same, task, place, kept)
