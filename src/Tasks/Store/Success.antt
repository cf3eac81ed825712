-- ===== src/Tasks/Store/Success.antt =====
-- The updates of z2c/src/core/tasks/persistence.ts where the write goes through.
use agents_with_chatgpt.Prelude.{ℕ, String, ◌≡◌, true, false, Option, some, ok, arith}
use agents_with_chatgpt.Tasks.Model.{Task, TaskStatus}
use agents_with_chatgpt.Tasks.Store.{
  Store, State, Queue, save, assert_healthy, write_state, find_task, update_task, with_status,
  modify, set_status, set_queue, save_queue,
}

-- The file can be written.
pub record Writable (s : Store) : Type 0 where
  pub healthy : s.persistence_failed ≡ false
  pub writes : s.disk_ok ≡ true

abbrev pub with_state : State → Store → Store
with_state st s = record s { state = st; durable = st }

save-ok : (s : Store) → Writable s → save s ≡ (ok tt, with_state s.state s)
unfolding save assert_healthy write_state
save-ok s v = ground (arith, v.healthy, v.writes)

pub save_queue-ok :
    (w : String) (q : Queue) (s : Store)
    → Writable s
    → save_queue w q s ≡ (ok tt, with_state (set_queue w q s.state) s)
unfolding save_queue
save_queue-ok w q s v =
    save-ok (record s { state = set_queue w q s.state })
      (record { healthy = v.healthy; writes = v.writes })

pub set_status-ok :
    (now : ℕ) (k : String) (status : TaskStatus) (exit : Option String) (s : Store) (t : Task)
    → Writable s
    → find_task k s.state ≡ some t
    → set_status now k status exit s
      ≡ (ok tt, with_state (update_task k (with_status now status exit) s.state) s)
unfolding set_status modify
set_status-ok now k status exit s t v known =
    let st : State = update_task k (with_status now status exit) s.state in
    ground
      (arith, save-ok (record s { state = st }) (record { healthy = v.healthy; writes = v.writes }))

pub assert_healthy-passes :
    (s : Store) → s.persistence_failed ≡ false → assert_healthy s ≡ (ok tt, s)
unfolding assert_healthy
assert_healthy-passes s h = ground (arith, h)

pub assert_healthy-ok : (s : Store) → Writable s → assert_healthy s ≡ (ok tt, s)
unfolding assert_healthy
assert_healthy-ok s v = ground (arith, v.healthy)
