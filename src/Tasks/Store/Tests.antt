-- ===== src/Tasks/Store/Tests.antt =====
-- Tests of the task store.
use agents_with_chatgpt.Prelude.{
  String, ◌≡◌, ◌≢◌, refl, Bool, true, false, List, some, inr, ok, [], ◌∷◌, ◌++◌, result, after,
}
use agents_with_chatgpt.Tasks.Model.{is_terminal}
use agents_with_chatgpt.Tasks.Store.{
  find_task, queue_of, admit_task, Call, saves, admits, makes_queue,
}
use agents_with_chatgpt.Tasks.Store.Admission.{admit_task-keeps, admit_task-admits}
use agents_with_chatgpt.Tasks.Fixtures.{new_task, old_task, store, new_here, store-Distinct}

new_task-waits : is_terminal new_task.status ≡ false
unfolding is_terminal
new_task-waits = refl

old_task-lasts : is_terminal old_task.status ≡ false
unfolding is_terminal
old_task-lasts = refl

admitted_now : result (admit_task new_task) store ≡ ok tt
unfolding admit_task
admitted_now = refl

old_here : find_task "z2c_task_old" store.state ≡ some old_task
unfolding find_task
old_here = refl

admit_task-keeps_example :
    find_task "z2c_task_old" (after (admit_task new_task) store).state ≡ some old_task
admit_task-keeps_example =
    admit_task-keeps new_task store new_here store-Distinct "z2c_task_old" old_task old_here
      (inr old_task-lasts)

admit_task-admits_example :
    ((after (admit_task new_task) store).durable ≡ (after (admit_task new_task) store).state)
    × (find_task "z2c_task_new" (after (admit_task new_task) store).state ≡ some new_task)
    × (queue_of "ws_main" (after (admit_task new_task) store).state
        ≡ record (queue_of "ws_main" store.state) {
          queued_task_ids = (queue_of "ws_main" store.state).queued_task_ids ++ "z2c_task_new" ∷ [];
        })
    × ((w : String)
        → w ≢ "ws_main"
        → queue_of w (after (admit_task new_task) store).state ≡ queue_of w store.state)
admit_task-admits_example =
    admit_task-admits new_task store new_here store-Distinct new_task-waits admitted_now

-- the disk works again, and other calls come
abbrev calls : List (Bool × Call)
calls = (true, saves) ∷ (true, admits new_task) ∷ (false, makes_queue "ws_other") ∷ []
