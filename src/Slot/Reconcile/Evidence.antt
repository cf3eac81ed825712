-- ===== src/Slot/Reconcile/Evidence.antt =====
-- What it takes to clear a lease: `reconcileWorkspaceSlot` of src/execution/slot.ts.
use agents_with_chatgpt.Prelude.{
  ◌≡◌, ◌≢◌, refl, ◌⊎◌, inl, inr, true, false, Option, none, some, ok, err, String, if◌then◌else◌,
  ◌==◌, missing, arith, Bool-cases, Option-cases, eq_iff, result, after,
}
use agents_with_chatgpt.Host.{Host, Disk}
use agents_with_chatgpt.Queue.Pause.{is_workspace_id}
use agents_with_chatgpt.Slot.Lease.{Lock, z2c, read_raw}
use agents_with_chatgpt.Slot.Operations.{slot_busy, provider_eq, remove_workspace_slot}
use agents_with_chatgpt.Slot.Operations.Acquire.{held, provider_eq_refl, provider_eq_sound}
use agents_with_chatgpt.Slot.Operations.Release.{held-present}
use agents_with_chatgpt.Slot.Reconcile.{
  ClearReason, missing_task, terminal_task, inactive_task, unresolved, kept, cleared_by, TaskState,
  is_terminal_status, is_active_status, other_boot, remove_legacy_writer_lock, clear, by_task,
  by_task_state, by_boot, by_lease, reconcile_workspace_slot,
}

module _ (h : Host) (w : String) (task_lookup : String → Option TaskState) where
  -- A task that this bridge knows to be at work in this workspace.
  pub record IsActive (l : Lock) : Type 0 where
    pub task : TaskState
    pub known : task_lookup l.task_id ≡ some task
    pub here : task.workspace_id ≡ w
    pub not_over : is_terminal_status task.status ≡ false
    pub at_work : is_active_status task.status ≡ true

  -- A lease that must not be cleared: it is of this boot, as far as that is known, and either an
  -- upstream alone can resolve it or its task is at work.
  abbrev pub IsLive : Lock → Type 0
  IsLive l = (other_boot h.boot_id l.boot_id ≡ false) × ((l.provider ≡ z2c) ⊎ IsActive l)

  remove_legacy-keeps : (d : Disk) → (after (remove_legacy_writer_lock h) d).lock_file ≡ d.lock_file
  unfolding remove_legacy_writer_lock
  remove_legacy-keeps d = ground arith

  -- The reason that a lease which stays is reported with.
  abbrev pub why_kept : Lock → Option ClearReason
  why_kept l = if provider_eq l.provider z2c then some unresolved else none

  by_task-keeps :
      (l : Lock) (d : Disk)
      → (l.provider ≡ z2c) ⊎ IsActive l
      → by_task w task_lookup l d ≡ (ok (kept l (why_kept l)), d)
  unfolding by_task by_task_state
  by_task-keeps l d (inl u) = ground (arith, provider_eq_refl z2c)
  by_task-keeps l d (inr a) = ground (arith, eq_iff a.task.workspace_id w)

  -- A live lease is reported as it is and stays on disk, whatever other processes do meanwhile; only
  -- the lock file of the version before may go.
  pub reconcile-keeps_live :
      (others : Disk → Disk) (d : Disk) (l : Lock)
      → is_workspace_id w ≡ true
      → held d ≡ some l
      → l.workspace_id ≡ w
      → IsLive l
      → (result (reconcile_workspace_slot h others w task_lookup) d ≡ ok (kept l (why_kept l)))
        × ((after (reconcile_workspace_slot h others w task_lookup) d).lock_file ≡ d.lock_file)
  unfolding reconcile_workspace_slot by_lease by_boot remove_legacy_writer_lock
  reconcile-keeps_live others d l i e same (this_boot, live) = ground (
    arith,
    eq_iff l.workspace_id w,
    by_task-keeps l d live,
    by_task-keeps l (record d { legacy_file = missing }) live,
  )

  -- A lease of another workspace and a lock file that cannot be read are never removed: the call
  -- fails as busy.
  pub reconcile-keeps_unreadable :
      (others : Disk → Disk) (d : Disk)
      → is_workspace_id w ≡ true
      → (read_raw d.lock_file).present ≡ true
      → ((l : Lock) → held d ≡ some l → l.workspace_id ≢ w)
      → (result (reconcile_workspace_slot h others w task_lookup) d ≡ err (slot_busy none))
        × ((after (reconcile_workspace_slot h others w task_lookup) d).lock_file ≡ d.lock_file)
  unfolding reconcile_workspace_slot by_lease remove_legacy_writer_lock
  reconcile-keeps_unreadable others d i there foreign = elim (Option-cases (held d)) [
    | inl nobody ↦ ground arith
    | inr (l, e) ↦ ground (arith, eq_iff l.workspace_id w, foreign l e)
  ]

  clear-lease :
      (c : ClearReason) (l : Lock) (d : Disk)
      → held d ≡ some l
      → clear c d ≡ (ok (cleared_by c), record d { lock_file = missing })
  unfolding clear remove_workspace_slot
  clear-lease c l d e = ground (arith, held-present d l e)

  -- why a lease of a task that is not at work is cleared
  abbrev why_dead : Option TaskState → ClearReason
  why_dead none = missing_task
  why_dead (some t) =
      if t.workspace_id == w
      then if is_terminal_status t.status then terminal_task else inactive_task
      else missing_task

  by_task_state-dead :
      (l : Lock) (d : Disk) (found : Option TaskState)
      → task_lookup l.task_id ≡ found
      → held d ≡ some l
      → ¬ IsActive l
      → by_task_state w l found d
        ≡ (ok (cleared_by (why_dead found)), record d { lock_file = missing })
  unfolding by_task_state
  by_task_state-dead l d none at e dead = clear-lease missing_task l d e
  by_task_state-dead l d (some t) at e dead = elim (Bool-cases (t.workspace_id == w)) [
    | inr away ↦ ground (arith, clear-lease missing_task l d e)
    | inl here ↦ elim (Bool-cases (is_terminal_status t.status)) [
      | inl over ↦ ground (arith, clear-lease terminal_task l d e)
      | inr not_over ↦ elim (Bool-cases (is_active_status t.status)) [
        | inr idle ↦ ground (arith, clear-lease inactive_task l d e)
        | inl at_work ↦ absurd (
            dead (record {
              task = t;
              known = at;
              here = (eq_iff t.workspace_id w).0 here;
              not_over = not_over;
              at_work = at_work;
            }))
      ]
    ]
  ]

  -- A lease whose task is not at work is cleared, unless an upstream must resolve it.
  pub reconcile-clears_dead :
      (others : Disk → Disk) (d : Disk) (l : Lock)
      → is_workspace_id w ≡ true
      → held d ≡ some l
      → l.workspace_id ≡ w
      → other_boot h.boot_id l.boot_id ≡ false
      → l.provider ≢ z2c
      → ¬ IsActive l
      → (result (reconcile_workspace_slot h others w task_lookup) d
          ≡ ok (cleared_by (why_dead (task_lookup l.task_id))))
        × ((after (reconcile_workspace_slot h others w task_lookup) d).lock_file ≡ missing)
  unfolding reconcile_workspace_slot by_lease by_boot by_task remove_legacy_writer_lock
  reconcile-clears_dead others d l i e same this_boot ours dead = ground (
    arith,
    eq_iff l.workspace_id w,
    provider_eq_sound l.provider z2c,
    by_task_state-dead l d (task_lookup l.task_id) refl e dead,
    by_task_state-dead l (record d { legacy_file = missing }) (task_lookup l.task_id) refl e dead,
  )
