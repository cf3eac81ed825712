-- ===== src/Slot/Reconcile.antt =====
-- src/execution/slot.ts: clearing a lease whose task is gone, and the sweep over the leases of
-- workspaces that this bridge does not serve.
pub mod Evidence
pub mod Sweep
mod Tests
use agents_with_chatgpt.Prelude.{
  ℕ, suc, String, Bool, true, false, ◌&&◌, ◌||◌, not, Option, none, some, Result, ok, err, pure,
  throw, get, require, ◌>>=◌, ◌>>◌, File, missing, unreadable, json, Fields, prop, as_fields,
  as_str, opt_eq, List, [], ◌∷◌, any, ◌==◌, if◌then◌else◌,
}
use agents_with_chatgpt.Host.{Host, Disk}
use agents_with_chatgpt.Queue.Pause.{is_workspace_id}
use agents_with_chatgpt.Slot.Lease.{Lock, z2c, RawLockRead, read_raw}
use agents_with_chatgpt.Slot.Operations.{
  SlotError, invalid_workspace_id, slot_busy, Slot, provider_eq, remove_workspace_slot,
}

pub data ClearReason : Type 0 where
  missing_task terminal_task inactive_task invalid_lock unresolved : ClearReason

pub record Reconciliation : Type 0 where
  pub lock : Option Lock
  pub cleared : Bool
  pub reason : Option ClearReason

-- `WorkspaceSlotTaskState`, as the local task registry gives it
pub record TaskState : Type 0 where
  pub workspace_id : String
  pub status : String

unfoldable pub is_terminal_status : String → Bool
is_terminal_status s =
    s == "completed" || s == "failed" || s == "cancelled" || s == "interrupted" || s == "timed_out"

unfoldable pub is_active_status : String → Bool
is_active_status s = s == "queued" || s == "running" || s == "cancelling"

-- `a && b && a !== b`, on texts that may be missing or empty
pub other_boot : Option String → Option String → Bool
other_boot none saved = false
other_boot (some b) none = false
other_boot (some b) (some c) = not (b == "") && not (c == "") && not (c == b)

-- `!bootId || typeof saved !== "string" || saved === bootId`, negated
prior_boot : Option String → Option String → Bool
prior_boot none saved = false
prior_boot (some b) none = false
prior_boot (some b) (some c) = not (b == "") && not (c == b)

saved_boot : Option Fields → Option String
saved_boot none = none
saved_boot (some fs) = as_str (prop "bootId" fs)

legacy_boot : File → Option String
legacy_boot missing = none
legacy_boot unreadable = none
legacy_boot (json v) = saved_boot (as_fields v)

-- `removeLegacyWriterLock`
remove_legacy_writer_lock : Host → Slot Bool
remove_legacy_writer_lock h d =
    if prior_boot h.boot_id (legacy_boot d.legacy_file)
    then (ok true, record d { legacy_file = missing })
    else (ok false, d)

abbrev pub cleared_by : ClearReason → Reconciliation
cleared_by r = record { lock = none; cleared = true; reason = some r }

abbrev pub kept : Lock → Option ClearReason → Reconciliation
kept l r = record { lock = some l; cleared = false; reason = r }

clear : ClearReason → Slot Reconciliation
clear r = do _ ← remove_workspace_slot; pure (cleared_by r)

by_task_state : String → Lock → Option TaskState → Slot Reconciliation
by_task_state workspace_id l none = clear missing_task
by_task_state workspace_id l (some t) =
    if not (t.workspace_id == workspace_id)
    then clear missing_task
    else if is_terminal_status t.status
    then clear terminal_task
    else if not (is_active_status t.status)
    then clear inactive_task
    else pure (kept l none)

-- the lease of a task of this bridge's registry, or of an upstream that only it can resolve
by_task : String → (String → Option TaskState) → Lock → Slot Reconciliation
by_task workspace_id task_lookup l =
    if provider_eq l.provider z2c
    then pure (kept l (some unresolved))
    else by_task_state workspace_id l (task_lookup l.task_id)

abbrev same_lease : Lock → Option Lock → Bool
same_lease l none = false
same_lease l (some again) = again.task_id == l.task_id && opt_eq again.boot_id l.boot_id

by_boot : Host → (Disk → Disk) → String → (String → Option TaskState) → Lock → Slot Reconciliation
by_boot h others workspace_id task_lookup l d =
    if other_boot h.boot_id l.boot_id
    then (let d' = others d in
        if same_lease l (read_raw d'.lock_file).lock
        then clear inactive_task d'
        else by_task workspace_id task_lookup l d')
    else by_task workspace_id task_lookup l d

by_lease :
    Host
    → (Disk → Disk)
    → String
    → (String → Option TaskState)
    → Bool
    → RawLockRead
    → Slot Reconciliation
by_lease h others workspace_id task_lookup legacy_cleared current = elim current.lock [
  | some l ↦
      if l.workspace_id == workspace_id
      then by_boot h others workspace_id task_lookup l
      else throw (slot_busy none)
  | none ↦
      if current.present
      then throw (slot_busy none)
      else pure (
          if legacy_cleared
          then cleared_by invalid_lock
          else record { lock = none; cleared = false; reason = none })
]

-- `reconcileWorkspaceSlot`
pub reconcile_workspace_slot :
    Host → (Disk → Disk) → String → (String → Option TaskState) → Slot Reconciliation
reconcile_workspace_slot h others workspace_id task_lookup = do
  require (is_workspace_id workspace_id) invalid_workspace_id
  legacy_cleared ← remove_legacy_writer_lock h
  d ← get
  by_lease h others workspace_id task_lookup legacy_cleared (read_raw d.lock_file)

pub record SweepResult : Type 0 where
  pub scanned : ℕ
  pub cleared : ℕ

-- The leases under `locks`, by workspace id: the directory's regular files that end in ".json".
abbrev pub Locks : Type 0
Locks = List (String × Disk)

abbrev is_listed : String → List String → Bool
is_listed w = any (λ v. v == w)

counted : Reconciliation → SweepResult → SweepResult
counted r total = record {
  scanned = suc total.scanned;
  cleared = if r.cleared then suc total.cleared else total.cleared;
}

cons_locks :
    String × Disk → Result SlotError SweepResult × Locks → Result SlotError SweepResult × Locks
cons_locks entry (r, rest) = (r, entry ∷ rest)

-- one round of the loop, with the rest of it: an error ends the loop and leaves the rest as it is
swept :
    String
    → Result SlotError Reconciliation × Disk
    → Locks
    → (SweepResult → Result SlotError SweepResult × Locks)
    → SweepResult
    → Result SlotError SweepResult × Locks
swept w (ok r, d) rest go total = cons_locks (w, d) (go (counted r total))
swept w (err e, d) rest go total = (err e, (w, d) ∷ rest)

sweep : Host → List String → Locks → SweepResult → Result SlotError SweepResult × Locks
sweep h authorized [] total = (ok total, [])
sweep h authorized ((w, d) ∷ rest) total =
    if not (is_workspace_id w) || is_listed w authorized
    then cons_locks (w, d) (sweep h authorized rest total)
    else swept w (reconcile_workspace_slot h (λ x. x) w (λ _. none) d) rest
        (sweep h authorized rest) total

-- `reconcileUnknownWorkspaceSlots`
pub reconcile_unknown_workspace_slots :
    Host → List String → Locks → Result SlotError SweepResult × Locks
reconcile_unknown_workspace_slots h authorized locks =
    sweep h authorized locks (record { scanned = 0; cleared = 0 })
