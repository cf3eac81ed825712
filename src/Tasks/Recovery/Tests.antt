-- ===== src/Tasks/Recovery/Tests.antt =====
-- Tests of the restart.
use agents_with_chatgpt.Prelude.{◌≡◌, refl, some, true, includes, read_key, after}
use agents_with_chatgpt.Tasks.Model.{queued}
use agents_with_chatgpt.Tasks.Store.{State, find_task, queue_of}
use agents_with_chatgpt.Tasks.Recovery.{reconcile_on_restart}
use agents_with_chatgpt.Tasks.Recovery.Queues.{restart-keeps_waiting, restart-queues_only_waiting}
use agents_with_chatgpt.Tasks.Fixtures.{store, queue, waiting_task}

abbrev restarted : State
restarted = (after (reconcile_on_restart 5000) store).state

queue-known : read_key "ws_main" store.state.queues ≡ some queue
unfolding read_key
queue-known = refl

waiting_here : find_task waiting_task.task_id store.state ≡ some waiting_task
unfolding find_task
waiting_here = refl

restart-keeps_waiting_example :
    (find_task "z2c_task_waiting" restarted ≡ some waiting_task)
    × (includes "z2c_task_waiting" (queue_of "ws_main" restarted).queued_task_ids ≡ true)
restart-keeps_waiting_example =
    restart-keeps_waiting 5000 store "ws_main" queue queue-known waiting_task waiting_here refl refl

restart-queues_only_waiting_example : waiting_task.status ≡ queued
restart-queues_only_waiting_example =
    restart-queues_only_waiting 5000 store "ws_main" queue queue-known "z2c_task_waiting"
      waiting_task
      (restart-keeps_waiting 5000 store "ws_main" queue queue-known waiting_task waiting_here refl
        refl).1
      (restart-keeps_waiting 5000 store "ws_main" queue queue-known waiting_task waiting_here refl
        refl).0
