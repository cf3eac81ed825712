-- ===== src/Tasks/Store/Queues.antt =====
-- Reading a queue after a write: `getOrCreateQueue` and `saveQueue` of
-- z2c/src/core/tasks/persistence.ts.
use agents_with_chatgpt.Prelude.{
  String, ◌≡◌, read_key-write_key, ◌==◌, arith, eq_iff, if◌then◌else◌,
}
use agents_with_chatgpt.Tasks.Store.{State, Queue, new_queue, queue_of, create_queue, set_queue}

pub queue_of-set_queue :
    (w v : String) (q : Queue) (st : State)
    → queue_of w (set_queue v q st) ≡ (if v == w then q else queue_of w st)
unfolding queue_of set_queue
queue_of-set_queue w v q st = ground (arith, read_key-write_key v w q st.queues)

-- Creating a queue that is read as empty changes no queue that is read.
pub queue_of-create_queue :
    (w v : String) (st : State) → queue_of w (create_queue v st) ≡ queue_of w st
unfolding queue_of create_queue
queue_of-create_queue w v st =
    ground (arith, read_key-write_key v w new_queue st.queues, eq_iff v w)

pub tasks-create_queue : (v : String) (st : State) → (create_queue v st).tasks ≡ st.tasks
unfolding create_queue
tasks-create_queue v st = ground arith
