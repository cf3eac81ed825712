-- ===== src/Tasks/Recovery/Queues.antt =====
-- The queues after a restart: `reconcileOnRestart` of z2c/src/core/tasks/persistence.ts.
use mathlib.Core.Option
use agents_with_chatgpt.Prelude.{
  ℕ, String, ◌≡◌, refl, ◌∙◌, ap, Bool, true, false, ◌&&◌, ◌||◌, none, some, inl, inr, List, [], ◌∷◌,
  map, keep, find, includes, without, includes-append, includes-without, includes-keep, read_key,
  NoDup, NoDup-keep, ◌==◌, arith, eq_iff, eq_refl, Bool-cases, after,
}
use agents_with_chatgpt.Tasks.Model.{Task, queued, is_queued, is_running}
use agents_with_chatgpt.Tasks.Store.{State, Store, Queue, find_task, queue_of, save-state}
use agents_with_chatgpt.Tasks.Store.Eviction.{ids}
use agents_with_chatgpt.Tasks.Recovery.{
  interrupt, insert_before, sort_by_created, is_pending, dedupe, option_list, may_wait, rebuilt,
  rebuild_queues, reconciled, reconcile_on_restart,
}

includes-dedupe : (k : String) (xs : List String) → includes k (dedupe xs) ≡ includes k xs
unfolding includes dedupe
includes-dedupe k [] = refl
includes-dedupe k (x ∷ xs) =
    ground (arith, eq_iff x k, includes-without k x (dedupe xs), includes-dedupe k xs)

NoDup-without : (k : String) (xs : List String) → NoDup xs → NoDup (without k xs)
unfolding without
NoDup-without k [] h = tt
NoDup-without k (x ∷ xs) h = ground (arith, includes-without x k xs, NoDup-without k xs h.1)

NoDup-dedupe : (xs : List String) → NoDup (dedupe xs)
unfolding dedupe
NoDup-dedupe [] = tt
NoDup-dedupe (x ∷ xs) = (
  rw (includes-without x x (dedupe xs), eq_refl x),
  NoDup-without x (dedupe xs) (NoDup-dedupe xs),
)

includes-insert_before :
    (k : String) (t : Task) (ts : List Task)
    → includes k (ids (insert_before t ts)) ≡ (t.task_id == k || includes k (ids ts))
unfolding includes insert_before
includes-insert_before k t [] = refl
includes-insert_before k t (u ∷ us) = ground (arith, includes-insert_before k t us)

includes-sort_by_created :
    (k : String) (ts : List Task) → includes k (ids (sort_by_created ts)) ≡ includes k (ids ts)
unfolding includes sort_by_created
includes-sort_by_created k [] = refl
includes-sort_by_created k (t ∷ ts) =
    ground (arith, includes-insert_before k t (sort_by_created ts), includes-sort_by_created k ts)

-- A task that is found and passes the test is among those that the test picks.
includes-picked :
    (p : Task → Bool) (ts : List Task) (t : Task) (id : String)
    → find (λ x. x.task_id == id) ts ≡ some t
    → p t ≡ true
    → includes id (ids (keep p ts)) ≡ true
unfolding includes
includes-picked p [] t id e h = absurd (cc)
includes-picked p (x ∷ ts) t id e h = elim (Bool-cases (x.task_id == id)) [
  | inl here ↦ (let passed : p x ≡ true = ground arith in ground arith)
  | inr there ↦ ground (arith, includes-picked p ts t id)
]

id-interrupt : (now : ℕ) (t : Task) → (interrupt now t).task_id ≡ t.task_id
unfolding interrupt
id-interrupt now t = ground arith

find-interrupt :
    (now : ℕ) (id : String) (ts : List Task)
    → find (λ x. x.task_id == id) (map (interrupt now) ts)
      ≡ Option.map (interrupt now) (find (λ x. x.task_id == id) ts)
find-interrupt now id [] = refl
find-interrupt now id (t ∷ ts) = elim (Bool-cases (t.task_id == id)) [
  | inl here ↦ ground (arith, id-interrupt now t)
  | inr there ↦ ground (arith, id-interrupt now t, find-interrupt now id ts)
]

queue-rebuilt :
    (st : State) (w : String) (qs : List (String × Queue)) (q : Queue)
    → read_key w qs ≡ some q
    → read_key w (rebuild_queues st qs) ≡ some (rebuilt st w q)
unfolding read_key rebuild_queues
queue-rebuilt st w [] q e = absurd (cc)
queue-rebuilt st w ((v, r) ∷ qs) q e = ground (arith, eq_iff v w, queue-rebuilt st w qs q)

state-reconciled :
    (now : ℕ) (s : Store) → (after (reconcile_on_restart now) s).state ≡ reconciled now s.state
unfolding reconcile_on_restart
state-reconciled now s = ground (arith, save-state (record s { state = reconciled now s.state }))

queue-reconciled :
    (now : ℕ) (st : State) (w : String) (q : Queue)
    → read_key w st.queues ≡ some q
    → queue_of w (reconciled now st)
      ≡ rebuilt (record st { tasks = map (interrupt now) st.tasks }) w q
unfolding reconciled queue_of
queue-reconciled now st w q e =
    ground
      (arith, queue-rebuilt (record st { tasks = map (interrupt now) st.tasks }) w st.queues q e)

interrupt-queued : (now : ℕ) (t : Task) → t.status ≡ queued → interrupt now t ≡ t
unfolding interrupt is_running
interrupt-queued now t e = ground arith

interrupt-not_running : (now : ℕ) (t : Task) → is_running (interrupt now t).status ≡ false
unfolding interrupt is_running
interrupt-not_running now t = ground arith

module _ (now : ℕ) (s : Store) (w : String) (q : Queue)
    (known : read_key w s.state.queues ≡ some q) where
  abbrev pub restarted : State
  restarted = (after (reconcile_on_restart now) s).state

  abbrev st' : State
  st' = record s.state { tasks = map (interrupt now) s.state.tasks }

  queue_of-restarted : queue_of w restarted ≡ rebuilt st' w q
  queue_of-restarted = rw (state-reconciled now s) (queue-reconciled now s.state w q known)

  find-restarted :
      (id : String) → find_task id restarted ≡ Option.map (interrupt now) (find_task id s.state)
  unfolding find_task reconciled
  find-restarted id = rw (state-reconciled now s) (find-interrupt now id s.state.tasks)

  find-st' : (id : String) → find_task id st' ≡ find_task id restarted
  unfolding find_task reconciled
  find-st' id = rw (state-reconciled now s) refl

  includes-rebuilt :
      (id : String)
      → includes id (rebuilt st' w q).queued_task_ids ≡ (
          (includes id (option_list q.active_task)
            || (includes id q.queued_task_ids || includes id (ids (keep (is_pending w) st'.tasks))))
          && may_wait st' id)
  unfolding rebuilt
  includes-rebuilt id =
      simp (includes-keep, includes-dedupe, includes-append, includes-sort_by_created)

  still :
      (t : Task)
      → find_task t.task_id s.state ≡ some t
      → t.status ≡ queued
      → find_task t.task_id restarted ≡ some t
  still t e waiting = find-restarted t.task_id ∙ rw e (ap some (interrupt-queued now t waiting))

  in_line :
      (t : Task)
      → t.workspace_id ≡ w
      → t.status ≡ queued
      → find_task t.task_id st' ≡ some t
      → ((includes t.task_id (option_list q.active_task)
            || (includes t.task_id q.queued_task_ids
                || includes t.task_id (ids (keep (is_pending w) st'.tasks))))
          && may_wait st' t.task_id)
        ≡ true
  unfolding find_task may_wait is_pending is_queued
  in_line t here waiting e =
      ground
        (arith, includes-picked (is_pending w) st'.tasks t t.task_id e, eq_iff t.workspace_id w)

  -- After a restart no queue of a workspace that had one has an active task, none names a task
  -- twice, and each is paused or not as it was.
  pub restart-queue :
      ((queue_of w restarted).active_task ≡ none)
      × NoDup (queue_of w restarted).queued_task_ids
      × ((queue_of w restarted).paused ≡ q.paused)
  unfolding rebuilt
  restart-queue = rw queue_of-restarted (refl, NoDup-keep (may_wait st') _ (NoDup-dedupe _), refl)

  -- No waiting task is lost: every task of the workspace that is queued is still found as it was,
  -- and its id is in the queue, also if a crash came between reserving it and starting it.
  pub restart-keeps_waiting :
      (t : Task)
      → find_task t.task_id s.state ≡ some t
      → t.workspace_id ≡ w
      → t.status ≡ queued
      → (find_task t.task_id restarted ≡ some t)
        × (includes t.task_id (queue_of w restarted).queued_task_ids ≡ true)
  restart-keeps_waiting t e here waiting = (
    still t e waiting,
    rw (queue_of-restarted, includes-rebuilt t.task_id)
        (in_line t here waiting (find-st' t.task_id ∙ still t e waiting)),
  )

  only_waiting :
      (id : String) (t : Task)
      → ((includes id (option_list q.active_task)
            || (includes id q.queued_task_ids || includes id (ids (keep (is_pending w) st'.tasks))))
          && may_wait st' id)
        ≡ true
      → find_task id st' ≡ some t
      → t.status ≡ queued
  unfolding may_wait is_queued
  only_waiting id t i e = ground arith

  -- No task that is over or was running is dispatched again: an id in the queue whose task is known
  -- is that of a queued task.
  pub restart-queues_only_waiting :
      (id : String) (t : Task)
      → includes id (queue_of w restarted).queued_task_ids ≡ true
      → find_task id restarted ≡ some t
      → t.status ≡ queued
  restart-queues_only_waiting id t i e =
      only_waiting id t (rw (queue_of-restarted, includes-rebuilt id) at i) (find-st' id ∙ e)
