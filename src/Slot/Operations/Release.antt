-- ===== src/Slot/Operations/Release.antt =====
-- Giving the lease back: `releaseWorkspaceSlot` of src/execution/slot.ts.
use agents_with_chatgpt.Prelude.{
  ◌≡◌, ◌≢◌, ◌↔◌, true, some, inl, inr, ok, String, missing, arith, Option-cases, eq_iff, result,
  after,
}
use agents_with_chatgpt.Host.{Disk}
use agents_with_chatgpt.Queue.Pause.{is_workspace_id}
use agents_with_chatgpt.Slot.Lease.{Lock, is_safe_task_id, read_raw}
use agents_with_chatgpt.Slot.Operations.{
  release_workspace_slot, release_lock, remove_workspace_slot,
}
use agents_with_chatgpt.Slot.Operations.Acquire.{held}

-- A lock file with a lease is there.
pub held-present : (d : Disk) (l : Lock) → held d ≡ some l → (d.lock_file ≡ missing) → ⊥
unfolding read_raw
held-present d l e m = ground arith

release-true :
    (w t : String) (d : Disk)
    → result (release_workspace_slot w t) d ≡ ok true
    → (l : Lock) × (held d ≡ some l) × (l.task_id ≡ t)
unfolding release_workspace_slot release_lock
release-true w t d e = elim (Option-cases (held d)) [
  | inl nobody ↦ absurd (ground arith)
  | inr (l, there) ↦ (l, there, ground (arith, eq_iff l.task_id t))
]

release-granted :
    (w t : String) (d : Disk) (l : Lock)
    → is_workspace_id w ≡ true
    → is_safe_task_id t ≡ true
    → held d ≡ some l
    → l.task_id ≡ t
    → result (release_workspace_slot w t) d ≡ ok true
unfolding release_workspace_slot release_lock remove_workspace_slot
release-granted w t d l i j e s = ground (arith, eq_iff l.task_id t, held-present d l e)

-- `true` is returned exactly to a call that names the task of the lease, and that call removes the
-- lock file; every other call leaves the disk as it was.
pub release-owner :
    (w t : String) (d : Disk)
    → is_workspace_id w ≡ true
    → is_safe_task_id t ≡ true
    → ((result (release_workspace_slot w t) d ≡ ok true)
        ↔ ((l : Lock) × (held d ≡ some l) × (l.task_id ≡ t)))
      × (result (release_workspace_slot w t) d ≡ ok true
          → after (release_workspace_slot w t) d ≡ record d { lock_file = missing })
      × (result (release_workspace_slot w t) d ≢ ok true → after (release_workspace_slot w t) d ≡ d)
unfolding release_workspace_slot release_lock remove_workspace_slot
release-owner w t d i j = (
  (λ e. release-true w t d e, λ m. let (l, e, s) = m in release-granted w t d l i j e s),
  ground arith,
  ground arith,
)

-- A call that names another task releases nothing, whatever identifiers it is given.
pub release_other-after :
    (w t : String) (d : Disk) (l : Lock)
    → held d ≡ some l
    → l.task_id ≢ t
    → after (release_workspace_slot w t) d ≡ d
unfolding release_workspace_slot release_lock
release_other-after w t d l e other = ground (arith, eq_iff l.task_id t)
