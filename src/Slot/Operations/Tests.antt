-- ===== src/Slot/Operations/Tests.antt =====
-- Tests of the operations on the lease.
use agents_with_chatgpt.Prelude.{◌≡◌, refl, true, some, ok, arith, result, after, eq_iff}
use agents_with_chatgpt.Queue.Pause.Dispatch.{read-no_files, read_pause-after}
use agents_with_chatgpt.Slot.Lease.{Lock, codex, gemini, read_raw}
use agents_with_chatgpt.Slot.Operations.{held_by, provider_eq, claim, acquire_workspace_slot}
use agents_with_chatgpt.Slot.Operations.Acquire.{held, acquire-owns, acquire-exclusive}
use agents_with_chatgpt.Slot.Fixtures.{
  host, ws, task, lease, leased_disk, ws-valid, task-safe, held-leased_disk,
}

-- The holder asks again and is given the lease that it holds.
acquire_again : result (acquire_workspace_slot host (λ d. d) ws task codex) leased_disk ≡ ok lease
unfolding acquire_workspace_slot claim held_by provider_eq
acquire_again = ground (
  arith,
  ws-valid,
  task-safe,
  read-no_files host ws leased_disk refl refl refl ws-valid,
  held-leased_disk,
  read_pause-after host ws leased_disk,
  eq_iff task task,
)

leased_disk-present : (read_raw leased_disk.lock_file).present ≡ true
unfolding read_raw
leased_disk-present = refl

acquire-owns_example :
    (held (after (acquire_workspace_slot host (λ d. d) ws task codex) leased_disk) ≡ some lease)
    × (held_by task codex lease ≡ true)
acquire-owns_example =
    acquire-owns host (λ d. d) ws task codex leased_disk lease (omega arith) acquire_again

acquire-exclusive_example :
    (after (acquire_workspace_slot host (λ d. d) ws "c2c_ffffffff" gemini) leased_disk
      ≡ leased_disk)
    × ((l : Lock)
        → result (acquire_workspace_slot host (λ d. d) ws "c2c_ffffffff" gemini) leased_disk ≡ ok l
        → (held leased_disk ≡ some l) × (held_by "c2c_ffffffff" gemini l ≡ true))
acquire-exclusive_example =
    acquire-exclusive host (λ d. d) ws "c2c_ffffffff" gemini leased_disk leased_disk-present
