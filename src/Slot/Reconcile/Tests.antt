-- ===== src/Slot/Reconcile/Tests.antt =====
-- Tests of the reconciliation of leases.
use agents_with_chatgpt.Prelude.{
  ◌≡◌, ◌≢◌, refl, true, false, none, some, inr, ok, String, [], ◌∷◌, Option, result, after,
  unreadable, arith,
}
use agents_with_chatgpt.Host.{Disk}
use agents_with_chatgpt.Slot.Lease.{Lock, z2c, read_raw}
use agents_with_chatgpt.Slot.Operations.Acquire.{held}
use agents_with_chatgpt.Slot.Reconcile.{
  Locks, TaskState, kept, other_boot, is_terminal_status, is_active_status,
  reconcile_workspace_slot, reconcile_unknown_workspace_slots,
}
use agents_with_chatgpt.Slot.Reconcile.Evidence.{IsLive, IsActive, why_kept, reconcile-keeps_live}
use agents_with_chatgpt.Slot.Reconcile.Sweep.{Spares, sweep_unknown-Spares}
use agents_with_chatgpt.Slot.Fixtures.{host, ws, lease, leased_disk, ws-valid, held-leased_disk}

abbrev at_work : String → Option TaskState
at_work t = some (record { workspace_id = ws; status = "running" })

same_boot : other_boot host.boot_id lease.boot_id ≡ false
unfolding other_boot
same_boot = refl

lease-IsLive : IsLive host ws at_work lease
unfolding is_terminal_status is_active_status
lease-IsLive = (
  same_boot,
  inr (record {
    task = record { workspace_id = ws; status = "running" };
    known = refl;
    here = refl;
    not_over = refl;
    at_work = refl;
  }),
)

reconcile-keeps_live_example :
    (result (reconcile_workspace_slot host (λ d. d) ws at_work) leased_disk
      ≡ ok (kept lease (why_kept host ws at_work lease)))
    × ((after (reconcile_workspace_slot host (λ d. d) ws at_work) leased_disk).lock_file
        ≡ leased_disk.lock_file)
reconcile-keeps_live_example =
    reconcile-keeps_live host ws at_work (λ d. d) leased_disk lease ws-valid held-leased_disk refl
      lease-IsLive

abbrev garbled_disk : Disk
garbled_disk = record leased_disk { lock_file = unreadable }

garbled_disk-present : (read_raw garbled_disk.lock_file).present ≡ true
unfolding read_raw
garbled_disk-present = refl

garbled_disk-nobody : (l : Lock) → held garbled_disk ≡ some l → l.workspace_id ≢ ws
unfolding read_raw
garbled_disk-nobody l e = absurd (ground arith)

unknown-dead : ¬ IsActive host ws (λ _. none) lease
unknown-dead a = absurd (ground (arith, a.known))

not_z2c : lease.provider ≢ z2c
not_z2c e = absurd (cc)

abbrev two_locks : Locks
two_locks = (ws, leased_disk) ∷ ("ws_gone", garbled_disk) ∷ []

sweep_unknown-Spares_example :
    Spares host (ws ∷ []) two_locks (reconcile_unknown_workspace_slots host (ws ∷ []) two_locks).1
sweep_unknown-Spares_example = sweep_unknown-Spares host (ws ∷ []) two_locks
