-- ===== src/Tasks/Store/Updates.antt =====
-- What the small updates of z2c/src/core/tasks/persistence.ts do to the state in memory, also when
-- their write fails.
use agents_with_chatgpt.Prelude.{
  ap, drop, length, ◌++◌, ◌-◌, Bool, ℕ, String, ◌≡◌, ◌≢◌, refl, Option, none, some, List, [], ◌∷◌,
  find, update_first, after, ◌==◌, arith, eq_iff, Option-cases, inl, inr, if◌then◌else◌,
}
use agents_with_chatgpt.Tasks.Model.{Task, TaskStatus}
use agents_with_chatgpt.Tasks.Store.{
  Store, State, Queue, Output, save-state, find_task, update_task, with_status, modify, set_status,
  attach_output, assert_healthy, set_queue, save_queue, save_output,
}

update_first-absent :
    (p : Task → Bool) (f : Task → Task) (ts : List Task)
    → find p ts ≡ none
    → update_first p f ts ≡ ts
update_first-absent p f [] e = refl
update_first-absent p f (t ∷ ts) e = ground (arith, update_first-absent p f ts)

update_task-absent :
    (k : String) (f : Task → Task) (st : State) → find_task k st ≡ none → update_task k f st ≡ st
unfolding find_task update_task
update_task-absent k f st e = ground (arith, update_first-absent (λ t. t.task_id == k) f st.tasks e)

modify-state :
    (k : String) (f : Task → Task) (s : Store)
    → (after (modify k f) s).state ≡ update_task k f s.state
unfolding modify
modify-state k f s = elim (Option-cases (find_task k s.state)) [
  | inl absent ↦ ground (arith, update_task-absent k f s.state absent)
  | inr (t, found) ↦ ground (arith, save-state (record s { state = update_task k f s.state }))
]

pub set_status-state :
    (now : ℕ) (k : String) (status : TaskStatus) (exit : Option String) (s : Store)
    → (after (set_status now k status exit) s).state
      ≡ update_task k (with_status now status exit) s.state
unfolding set_status
set_status-state now k status exit s = modify-state k (with_status now status exit) s

pub attach_output-state :
    (k output_id : String) (s : Store)
    → (after (attach_output k output_id) s).state
      ≡ update_task k (λ t. record t { output_id = some output_id }) s.state
unfolding attach_output
attach_output-state k output_id s = modify-state k (λ t. record t { output_id = some output_id }) s

pub save_queue-state :
    (w : String) (q : Queue) (s : Store) → (after (save_queue w q) s).state ≡ set_queue w q s.state
unfolding save_queue
save_queue-state w q s = save-state (record s { state = set_queue w q s.state })

pub save_output-tasks :
    (o : Output) (s : Store) → (after (save_output o) s).state.tasks ≡ s.state.tasks
unfolding save_output
save_output-tasks o s =
    let outputs : List Output = s.state.outputs ++ o ∷ [] in
    let kept : List Output = drop (length outputs - 200) outputs in
    ap (λ st. st.tasks) (save-state (record s { state = record s.state { outputs = kept } }))

find-update_first :
    (id k : String) (f : Task → Task) (ts : List Task) (t : Task)
    → ((u : Task) → (f u).task_id ≡ u.task_id)
    → find (λ u. u.task_id == id) ts ≡ some t
    → find (λ u. u.task_id == id) (update_first (λ u. u.task_id == k) f ts)
      ≡ some (if k == id then f t else t)
find-update_first id k f [] t h e = absurd (cc)
find-update_first id k f (u ∷ ts) t h e = ground (
  arith,
  h u,
  eq_iff k id,
  eq_iff u.task_id k,
  eq_iff u.task_id id,
  find-update_first id k f ts t h,
)

pub find_task-update_task :
    (id k : String) (f : Task → Task) (st : State) (t : Task)
    → ((u : Task) → (f u).task_id ≡ u.task_id)
    → find_task id st ≡ some t
    → find_task id (update_task k f st) ≡ some (if k == id then f t else t)
unfolding find_task update_task
find_task-update_task id k f st t h e = find-update_first id k f st.tasks t h e

pub assert_healthy-after : (s : Store) → after assert_healthy s ≡ s
unfolding assert_healthy
assert_healthy-after s = ground arith

find-update_other :
    (id k : String) (f : Task → Task) (ts : List Task)
    → ((u : Task) → (f u).task_id ≡ u.task_id)
    → id ≢ k
    → find (λ u. u.task_id == id) (update_first (λ u. u.task_id == k) f ts)
      ≡ find (λ u. u.task_id == id) ts
find-update_other id k f [] h n = refl
find-update_other id k f (u ∷ ts) h n =
    ground (arith, h u, eq_iff u.task_id k, eq_iff u.task_id id, find-update_other id k f ts h)

pub find_task-update_other :
    (id k : String) (f : Task → Task) (st : State)
    → ((u : Task) → (f u).task_id ≡ u.task_id)
    → id ≢ k
    → find_task id (update_task k f st) ≡ find_task id st
unfolding find_task update_task
find_task-update_other id k f st h n = find-update_other id k f st.tasks h n
