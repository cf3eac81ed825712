-- ===== src/Queue/Pause/Tests.antt =====
-- Tests of one workspace's switch: src/execution/queue-state.ts.
use agents_with_chatgpt.Prelude.{◌≡◌, ◌↔◌, refl, true, false, json, ok, result}
use agents_with_chatgpt.Host.{Disk}
use agents_with_chatgpt.Queue.Policy.{product_dispatch_paused}
use agents_with_chatgpt.Queue.Pause.{
  PauseState, is_workspace_id, read_workspace_queue_pause_state, pause_json, persisted_of,
  persisted_fields, valid_persisted_state, state_of_record, state_of_file,
}
use agents_with_chatgpt.Queue.Pause.Dispatch.{Runs, read-Runs_iff}
use agents_with_chatgpt.Slot.Fixtures.{host, ws, empty_disk}

-- the workspace was paused and resumed
abbrev resumed_disk : Disk
resumed_disk = record empty_disk { queue_file = json (pause_json ws false "2026-01-01") }

reads_resumed : (state_of_file ws resumed_disk.queue_file).paused ≡ false
unfolding state_of_file valid_persisted_state persisted_fields persisted_of state_of_record
    pause_json
reads_resumed = refl

other_is_paused : (state_of_file "ws_other" resumed_disk.queue_file).paused ≡ true
unfolding state_of_file valid_persisted_state persisted_fields persisted_of state_of_record
    pause_json
other_is_paused = refl

read-Runs_iff_example :
    ((s : PauseState) × (result (read_workspace_queue_pause_state host ws) resumed_disk ≡ ok s)
      × (s.paused ≡ false))
    ↔ ((product_dispatch_paused host resumed_disk.policy_file ≡ false)
        × (is_workspace_id ws ≡ true)
        × Runs ws resumed_disk.queue_file)
read-Runs_iff_example = read-Runs_iff host ws resumed_disk
