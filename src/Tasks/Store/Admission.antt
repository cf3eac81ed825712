-- ===== src/Tasks/Store/Admission.antt =====
-- The durable admission of a task: `admitTask` of z2c/src/core/tasks/persistence.ts.
use agents_with_chatgpt.Prelude.{
  String, ◌≡◌, ◌≢◌, refl, ◌∙◌, ◌⊎◌, true, false, not, ◌&&◌, none, some, inl, inr, ok, List, [], ◌∷◌,
  ◌++◌, find, includes, ◌==◌, arith, eq_iff, eq_refl, Bool-cases, result, after, if◌then◌else◌,
}
use agents_with_chatgpt.Tasks.Model.{Task, is_terminal}
use agents_with_chatgpt.Tasks.Store.{
  State, Store, find_task, queue_of, create_queue, set_queue, is_keyed, old_ordinary, evicted,
  evict_finished, enqueue, admitted, admit_task, save, assert_healthy, write_state, roll_back,
}
use agents_with_chatgpt.Tasks.Store.Queues.{
  queue_of-set_queue, queue_of-create_queue, tasks-create_queue,
}
use agents_with_chatgpt.Tasks.Store.Eviction.{ids, Distinct, survives}

find-append :
    (id : String) (ts : List Task) (t u : Task)
    → find (λ x. x.task_id == id) ts ≡ some u
    → find (λ x. x.task_id == id) (ts ++ t ∷ []) ≡ some u
find-append id [] t u e = absurd (cc)
find-append id (x ∷ ts) t u e = ground (arith, find-append id ts t u)

find-append_new :
    (ts : List Task) (t : Task)
    → find (λ x. x.task_id == t.task_id) ts ≡ none
    → find (λ x. x.task_id == t.task_id) (ts ++ t ∷ []) ≡ some t
find-append_new [] t e = ground (arith, eq_refl t.task_id)
find-append_new (x ∷ ts) t e = ground (arith, find-append_new ts t)

includes-ids_append :
    (id : String) (ts : List Task) (t : Task)
    → includes id (ids ts) ≡ false
    → t.task_id ≢ id
    → includes id (ids (ts ++ t ∷ [])) ≡ false
unfolding includes
includes-ids_append id [] t h n = ground (arith, eq_iff t.task_id id)
includes-ids_append id (x ∷ ts) t h n = ground (arith, includes-ids_append id ts t)

pub Distinct-append :
    (ts : List Task) (t : Task)
    → Distinct ts
    → find (λ x. x.task_id == t.task_id) ts ≡ none
    → Distinct (ts ++ t ∷ [])
unfolding Distinct includes
Distinct-append [] t d e = (refl, tt)
Distinct-append (x ∷ ts) t d e = (
  includes-ids_append x.task_id ts t d.0 (λ s. ground (arith, eq_iff x.task_id t.task_id)),
  Distinct-append ts t d.1 (ground (arith, eq_iff x.task_id t.task_id)),
)

-- The tasks that an admission may not forget: keyed ones, and ones that are not over.
abbrev pub IsKept : Task → Type 0
IsKept u = (is_keyed u ≡ true) ⊎ (is_terminal u.status ≡ false)

evict_finished-keeps :
    (id : String) (ts : List Task) (u : Task)
    → Distinct ts
    → find (λ x. x.task_id == id) ts ≡ some u
    → IsKept u
    → find (λ x. x.task_id == id) (evict_finished ts) ≡ some u
unfolding evict_finished evicted old_ordinary
evict_finished-keeps id ts u d e kept =
    survives (λ t. not (is_keyed t) && is_terminal t.status) _ id ts u d e (ground arith)

tasks-admitted :
    (t : Task) (st : State) → (admitted t st).tasks ≡ evict_finished (st.tasks ++ t ∷ [])
unfolding admitted enqueue set_queue
tasks-admitted t st = rw (
  tasks-create_queue t.workspace_id (record (create_queue t.workspace_id st) {
    tasks = evict_finished ((create_queue t.workspace_id st).tasks ++ t ∷ []);
  }),
  tasks-create_queue t.workspace_id st,
)

queue_of-admitted :
    (w : String) (t : Task) (st : State)
    → queue_of w (admitted t st) ≡ (
        if t.workspace_id == w
        then record (queue_of t.workspace_id st) {
          queued_task_ids = (queue_of t.workspace_id st).queued_task_ids ++ t.task_id ∷ [];
        }
        else queue_of w st)
unfolding admitted enqueue
queue_of-admitted w t st =
    let st' : State = create_queue t.workspace_id st in
    let st'' : State = record st' { tasks = evict_finished (st'.tasks ++ t ∷ []) } in
    let same : (v : String) → queue_of v st'' ≡ queue_of v st' = λ v. unfold queue_of in refl in
    let read : (v : String) → queue_of v st'' ≡ queue_of v st =
      λ v. same v ∙ queue_of-create_queue v t.workspace_id st in
    rw (
      queue_of-set_queue w t.workspace_id _ (create_queue t.workspace_id st''),
      queue_of-create_queue w t.workspace_id st'',
      read t.workspace_id,
      read w,
    )

module _ (t : Task) (s : Store) (new : find_task t.task_id s.state ≡ none)
    (distinct : Distinct s.state.tasks) where
  -- An admission, whether it succeeds or not, forgets no task that carries an idempotency key and no
  -- task that is queued or running: each is found as it was.
  pub admit_task-keeps :
      (id : String) (u : Task)
      → find_task id s.state ≡ some u
      → IsKept u
      → find_task id (after (admit_task t) s).state ≡ some u
  unfolding admit_task find_task save assert_healthy write_state roll_back
  admit_task-keeps id u e kept = elim (Bool-cases s.persistence_failed) [
    | inl broken ↦ rw broken e
    | inr healthy ↦ elim (Bool-cases s.disk_ok) [
      | inl written ↦
          rw (healthy, written, tasks-admitted t s.state)
            (evict_finished-keeps id (s.state.tasks ++ t ∷ []) u
              (Distinct-append s.state.tasks t distinct new) (find-append id s.state.tasks t u e)
              kept)
      | inr lost ↦ rw (healthy, lost, tasks-create_queue t.workspace_id s.state) e
    ]
  ]

  -- An admission that succeeds makes the task, its key and its place in the queue durable at once:
  -- what is on disk is what is in memory, the task is found under its id, its workspace's queue is
  -- the old one with the task at the end, and no other workspace's queue has changed.
  pub admit_task-admits :
      is_terminal t.status ≡ false
      → result (admit_task t) s ≡ ok tt
      → ((after (admit_task t) s).durable ≡ (after (admit_task t) s).state)
        × (find_task t.task_id (after (admit_task t) s).state ≡ some t)
        × (queue_of t.workspace_id (after (admit_task t) s).state
            ≡ record (queue_of t.workspace_id s.state) {
              queued_task_ids = (queue_of t.workspace_id s.state).queued_task_ids ++ t.task_id ∷ [];
            })
        × ((w : String)
            → w ≢ t.workspace_id
            → queue_of w (after (admit_task t) s).state ≡ queue_of w s.state)
  unfolding admit_task find_task save assert_healthy write_state roll_back
  admit_task-admits waiting e = (
    ground arith,
    ground (arith, tasks-admitted t s.state, kept_here),
    ground (arith, queue_of-admitted t.workspace_id t s.state, eq_refl t.workspace_id),
    λ w other. ground (arith, queue_of-admitted w t s.state, eq_iff t.workspace_id w),
  )
    where
      kept_here :
          find (λ x. x.task_id == t.task_id) (evict_finished (s.state.tasks ++ t ∷ [])) ≡ some t
      kept_here =
          evict_finished-keeps t.task_id (s.state.tasks ++ t ∷ []) t
            (Distinct-append s.state.tasks t distinct new) (find-append_new s.state.tasks t new)
            (inr waiting)
