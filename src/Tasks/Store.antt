-- ===== src/Tasks/Store.antt =====
-- z2c/src/core/tasks/persistence.ts: the tasks, queues and outputs in memory, and the file that
-- `save` replaces in one step. `disk_ok` says whether that replacement goes through at the moment;
-- after one that does not, every later save throws.
pub mod Eviction
pub mod Queues
pub mod Updates
pub mod Success
pub mod Broken
pub mod Admission
mod Tests
use agents_with_chatgpt.Prelude.{
  ℕ, ◌-◌, String, Bool, true, false, ◌&&◌, not, Option, none, some, Exec, Result, ok, err, ◌≡◌,
  arith, after, get, put, require, ◌>>=◌, ◌>>◌, List, [], ◌∷◌, ◌++◌, map, length, take, drop, keep,
  find, update_first, is_some, nat_eq, read_key, write_key, includes, ◌==◌, if◌then◌else◌,
}
use agents_with_chatgpt.Tasks.Model.{Task, TaskStatus, is_terminal, is_running}

pub record Queue : Type 0 where
  pub paused : Bool
  pub active_task : Option String
  pub queued_task_ids : List String

pub record Output : Type 0 where
  pub output_id : String
  pub task_id : String
  pub workspace_id : String
  pub session_id : Option String
  pub text : String
  pub created_at : ℕ

-- `Z2cState`, without the workspaces, which this file never touches
pub record State : Type 0 where
  pub tasks : List Task
  pub queues : List (String × Queue)
  pub outputs : List Output

pub record Store : Type 0 where
  pub state : State
  pub durable : State
  pub persistence_failed : Bool
  pub disk_ok : Bool

pub data StoreError : Type 0 where
  persistence_unavailable write_failed : StoreError
  task_not_found : String → StoreError

abbrev pub Action : Type 0 → Type 0
Action A = Exec Store StoreError A

-- `assertHealthy`
pub assert_healthy : Action (Unit {0})
assert_healthy s = require (not s.persistence_failed) persistence_unavailable s

write_state : Action (Unit {0})
write_state s =
    if s.disk_ok
    then (ok tt, record s { durable = s.state })
    else (err write_failed, record s { persistence_failed = true })

-- `save`
pub save : Action (Unit {0})
save = do assert_healthy; write_state

unfoldable pub find_task : String → State → Option Task
find_task id st = find (λ t. t.task_id == id) st.tasks

abbrev pub new_queue : Queue
new_queue = record { paused = false; active_task = none; queued_task_ids = [] }

unfoldable pub queue_of : String → State → Queue
queue_of w st = elim (read_key w st.queues) [ none ↦ new_queue | some q ↦ q ]

-- the state after `getOrCreateQueue`
unfoldable pub create_queue : String → State → State
create_queue w st = elim (read_key w st.queues) [
  | none ↦ record st { queues = write_key w new_queue st.queues }
  | some q ↦ st
]

-- the object that `getOrCreateQueue` returns is the stored one, so a write to it is a write here
unfoldable pub set_queue : String → Queue → State → State
set_queue w q st = record st { queues = write_key w q st.queues }

unfoldable pub is_keyed : Task → Bool
is_keyed t = is_some t.idempotency

abbrev pub max_ordinary : ℕ
max_ordinary = 500

-- the ids of the first tasks of `candidates`, as many as there are ordinary tasks too many
evicted : List Task → List Task → List String
evicted candidates tasks =
    map (λ t. t.task_id)
      (take (length (keep (λ t. not (is_keyed t)) tasks) - max_ordinary) candidates)

pub drop_tasks : List String → List Task → List Task
drop_tasks ids = keep (λ t. not (includes t.task_id ids))

-- finished tasks with no key, in the order of the list
old_ordinary : List Task → List Task
old_ordinary = keep (λ t. not (is_keyed t) && is_terminal t.status)

pub evict_finished : List Task → List Task
evict_finished tasks = drop_tasks (evicted (old_ordinary tasks) tasks) tasks

pub evict_any : List Task → List Task
evict_any tasks = drop_tasks (evicted (keep (λ t. not (is_keyed t)) tasks) tasks) tasks

enqueue : String → String → State → State
enqueue w id st =
    let q = queue_of w st in
    set_queue w (record q { queued_task_ids = q.queued_task_ids ++ id ∷ [] }) (create_queue w st)

pub admitted : Task → State → State
admitted t st =
    let st' = create_queue t.workspace_id st in
    enqueue t.workspace_id t.task_id (record st' { tasks = evict_finished (st'.tasks ++ t ∷ []) })

-- the end of `admitTask`: a save that fails puts the state of before back, in which the queue was
-- created if there was none
roll_back : State → Result StoreError (Unit {0}) × Store → Result StoreError (Unit {0}) × Store
roll_back previous (ok u, s) = (ok u, s)
roll_back previous (err x, s) = (err x, record s { state = previous; persistence_failed = true })

-- `admitTask`
unfoldable pub admit_task : Task → Action (Unit {0})
unfolding assert_healthy write_state save roll_back
admit_task t = do
  assert_healthy
  s ← get
  λ _.
      roll_back (create_queue t.workspace_id s.state)
        (save (record s { state = admitted t s.state }))

replace_or_push : Task → List Task → List Task
replace_or_push t tasks =
    if is_some (find (λ u. u.task_id == t.task_id) tasks)
    then update_first (λ u. u.task_id == t.task_id) (λ _. t) tasks
    else tasks ++ t ∷ []

-- `upsertTask`
pub upsert_task : Task → Action (Unit {0})
upsert_task t = do
  s ← get
  put (record s { state = record s.state { tasks = evict_any (replace_or_push t s.state.tasks) } })
  save

abbrev is_falsy_time : Option ℕ → Bool
is_falsy_time none = true
is_falsy_time (some n) = nat_eq n 0

abbrev given_text : Option String → Option String → Option String
given_text none old = old
given_text (some e) old = if e == "" then old else some e

unfoldable pub with_status : ℕ → TaskStatus → Option String → Task → Task
with_status now status exit t = record t {
  status = status;
  started_at = if is_running status && is_falsy_time t.started_at then some now else t.started_at;
  completed_at = if is_terminal status then some now else t.completed_at;
  exit_status = if is_terminal status then given_text exit t.exit_status else t.exit_status;
}

unfoldable pub update_task : String → (Task → Task) → State → State
update_task id f st = record st { tasks = update_first (λ t. t.task_id == id) f st.tasks }

modify : String → (Task → Task) → Action (Unit {0})
modify id f s =
    if is_some (find_task id s.state)
    then save (record s { state = update_task id f s.state })
    else (err (task_not_found id), s)

-- `setStatus`
pub set_status : ℕ → String → TaskStatus → Option String → Action (Unit {0})
set_status now id status exit = modify id (with_status now status exit)

-- `attachOutput`
pub attach_output : String → String → Action (Unit {0})
attach_output id output_id = modify id (λ t. record t { output_id = some output_id })

-- `getOrCreateQueue`
unfoldable pub get_or_create_queue : String → Action Queue
get_or_create_queue w s = (ok (queue_of w s.state), record s { state = create_queue w s.state })

-- `saveQueue`
unfoldable pub save_queue : String → Queue → Action (Unit {0})
save_queue w q = do s ← get; put (record s { state = set_queue w q s.state }); save

-- `saveOutput`: the newest 200
pub save_output : Output → Action (Unit {0})
save_output o = do
  s ← get
  let outputs = s.state.outputs ++ o ∷ []
  put (record s { state = record s.state { outputs = drop (length outputs - 200) outputs } })
  save

-- A call of the store that writes, or makes a queue.
pub data Call : Type 0 where
  saves : Call
  admits : Task → Call
  upserts : Task → Call
  sets_status : ℕ → String → TaskStatus → Option String → Call
  attaches_output : String → String → Call
  makes_queue : String → Call
  saves_queue : String → Queue → Call
  saves_output : Output → Call

pub perform : Call → Store → Store
perform saves s = after save s
perform (admits t) s = after (admit_task t) s
perform (upserts t) s = after (upsert_task t) s
perform (sets_status now id status exit) s = after (set_status now id status exit) s
perform (attaches_output id output_id) s = after (attach_output id output_id) s
perform (makes_queue w) s = after (get_or_create_queue w) s
perform (saves_queue w q) s = after (save_queue w q) s
perform (saves_output o) s = after (save_output o) s

-- Calls one after another, each with whether the file can be written then.
pub perform_all : List (Bool × Call) → Store → Store
perform_all [] s = s
perform_all (c ∷ cs) s = perform_all cs (perform c.1 (record s { disk_ok = c.0 }))

-- Saving changes what is on disk, and not what is in memory.
pub save-state : (s : Store) → (after save s).state ≡ s.state
unfolding save assert_healthy write_state
save-state s = ground arith
