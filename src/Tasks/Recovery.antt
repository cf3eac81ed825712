-- ===== src/Tasks/Recovery.antt =====
-- z2c/src/core/tasks/persistence.ts, `reconcileOnRestart`: what a restart makes of tasks that were
-- running and of queues whose head was reserved.
pub mod Queues
mod Tests
use agents_with_chatgpt.Prelude.{
  ℕ, String, Bool, true, ◌&&◌, Option, none, some, pure, get, put, ◌>>=◌, ◌>>◌, List, [], ◌∷◌, ◌++◌,
  map, keep, leb, without, ◌==◌, if◌then◌else◌,
}
use agents_with_chatgpt.Tasks.Model.{Task, interrupted, is_queued, is_running}
use agents_with_chatgpt.Tasks.Store.{Queue, State, Action, save, find_task}

interrupt : ℕ → Task → Task
interrupt now t =
    if is_running t.status
    then record t {
      status = interrupted;
      completed_at = some now;
      exit_status = some "interrupted: bridge restarted mid-run";
    }
    else t

-- `sort((a, b) => a.createdAt - b.createdAt)`, which keeps the order of equal times: the tasks are
-- taken from the end of the list, so an earlier one goes before its equals
insert_before : Task → List Task → List Task
insert_before t [] = t ∷ []
insert_before t (u ∷ us) =
    if leb t.created_at u.created_at then t ∷ u ∷ us else u ∷ insert_before t us

sort_by_created : List Task → List Task
sort_by_created [] = []
sort_by_created (t ∷ ts) = insert_before t (sort_by_created ts)

unfoldable pub is_pending : String → Task → Bool
is_pending w t = t.workspace_id == w && is_queued t.status

unfoldable pub dedupe : List String → List String
dedupe [] = []
dedupe (x ∷ xs) = x ∷ without x (dedupe xs)

abbrev pub option_list : Option String → List String
option_list none = []
option_list (some x) = if x == "" then [] else x ∷ []

-- `!findTask(id) || findTask(id).status === "queued"`
unfoldable pub may_wait : State → String → Bool
may_wait st id = elim (find_task id st) [ none ↦ true | some t ↦ is_queued t.status ]

rebuilt : State → String → Queue → Queue
rebuilt st w q = record q {
  active_task = none;
  queued_task_ids = keep (may_wait st) (
      dedupe (
        option_list q.active_task
        ++ (q.queued_task_ids
            ++ map (λ t. t.task_id) (sort_by_created (keep (is_pending w) st.tasks)))));
}

rebuild_queues : State → List (String × Queue) → List (String × Queue)
rebuild_queues st [] = []
rebuild_queues st ((w, q) ∷ qs) = (w, rebuilt st w q) ∷ rebuild_queues st qs

pub reconciled : ℕ → State → State
reconciled now st =
    let st' = record st { tasks = map (interrupt now) st.tasks } in
    record st' { queues = rebuild_queues st' st'.queues }

-- `reconcileOnRestart`
pub reconcile_on_restart : ℕ → Action (List String)
reconcile_on_restart now = do
  s ← get
  put (record s { state = reconciled now s.state })
  save
  pure (map (λ t. t.task_id) (keep (λ t. is_running t.status) s.state.tasks))
