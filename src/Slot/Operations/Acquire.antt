-- ===== src/Slot/Operations/Acquire.antt =====
-- Mutual exclusion of the writer lease: `acquireWorkspaceSlot` of src/execution/slot.ts.
use agents_with_chatgpt.Prelude.{
  ◌<◌, ◌≡◌, refl, true, Option, some, ok, String, json, arith, eq_refl, result, after,
}
use agents_with_chatgpt.Host.{Host, Disk}
use agents_with_chatgpt.Queue.Pause.{is_workspace_id}
use agents_with_chatgpt.Queue.Pause.Dispatch.{read_pause-after}
use agents_with_chatgpt.Slot.Lease.{
  Lock, Provider, codex, gemini, z2c, is_safe_task_id, read_raw, lock_json,
}
use agents_with_chatgpt.Slot.Lease.Format.{IsWellFormed, validate_lock-lock_json}
use agents_with_chatgpt.Slot.Operations.{
  held_by, provider_eq, fresh_lock, raced, create_lock, claim, acquire_workspace_slot,
}

abbrev pub held : Disk → Option Lock
held d = (read_raw d.lock_file).lock

pub provider_eq_refl : (p : Provider) → provider_eq p p ≡ true
unfolding provider_eq
provider_eq_refl codex = refl
provider_eq_refl gemini = refl
provider_eq_refl z2c = refl

pub provider_eq_sound : (p q : Provider) → provider_eq p q ≡ true → p ≡ q
unfolding provider_eq
provider_eq_sound codex codex e = refl
provider_eq_sound gemini gemini e = refl
provider_eq_sound z2c z2c e = refl
provider_eq_sound _ _ e = absurd (ground arith)

-- A lease that is written is the lease that is then held.
pub held-written :
    (d : Disk) (l : Lock)
    → IsWellFormed l
    → held (record d { lock_file = json (lock_json l) }) ≡ some l
unfolding read_raw
held-written d l v = validate_lock-lock_json l v

fresh_lock-IsWellFormed :
    (h : Host) (w t : String) (p : Provider)
    → 0 < h.pid
    → is_workspace_id w ≡ true
    → is_safe_task_id t ≡ true
    → IsWellFormed (fresh_lock h w t p)
unfolding fresh_lock
fresh_lock-IsWellFormed h w t p n a b = record {
  workspace = a;
  task = b;
  session = refl;
  key = refl;
  fingerprint = refl;
  process = n;
}

held_by-fresh_lock :
    (h : Host) (w t : String) (p : Provider) → held_by t p (fresh_lock h w t p) ≡ true
unfolding held_by fresh_lock
held_by-fresh_lock h w t p = rw (eq_refl t) (provider_eq_refl p)

create_lock-owns :
    (h : Host) (w t : String) (p : Provider) (d : Disk) (l : Lock)
    → IsWellFormed (fresh_lock h w t p)
    → result (create_lock h w t p) d ≡ ok l
    → (held (after (create_lock h w t p) d) ≡ some l) × (held_by t p l ≡ true)
unfolding create_lock raced
create_lock-owns h w t p d l v e =
    ground (arith, held-written d (fresh_lock h w t p) v, held_by-fresh_lock h w t p)

claim-owns :
    (h : Host) (others : Disk → Disk) (w t : String) (p : Provider) (d : Disk) (l : Lock)
    → IsWellFormed (fresh_lock h w t p)
    → result (claim h others w t p (read_raw d.lock_file)) d ≡ ok l
    → (held (after (claim h others w t p (read_raw d.lock_file)) d) ≡ some l)
      × (held_by t p l ≡ true)
unfolding claim
claim-owns h others w t p d l v e = ground (arith, create_lock-owns h w t p (others d) l v)

-- Whoever is given the lease holds it: whatever other processes do to the files between the read of
-- the lease and its exclusive creation, a call that returns a lease leaves that lease on disk, with
-- the caller's task and provider.
pub acquire-owns :
    (h : Host) (others : Disk → Disk) (w t : String) (p : Provider) (d : Disk) (l : Lock)
    → 0 < h.pid
    → result (acquire_workspace_slot h others w t p) d ≡ ok l
    → (held (after (acquire_workspace_slot h others w t p) d) ≡ some l) × (held_by t p l ≡ true)
unfolding acquire_workspace_slot
acquire-owns h others w t p d l n e = ground (
  arith,
  fresh_lock-IsWellFormed h w t p n,
  claim-owns h others w t p d l,
  read_pause-after h w d,
)

-- A lease that is there is never displaced: if the lock file exists, readable or not, the call
-- leaves the disk as it was, and returns a lease only to the task and provider that hold it.
pub acquire-exclusive :
    (h : Host) (others : Disk → Disk) (w t : String) (p : Provider) (d : Disk)
    → (read_raw d.lock_file).present ≡ true
    → (after (acquire_workspace_slot h others w t p) d ≡ d)
      × ((l : Lock)
          → result (acquire_workspace_slot h others w t p) d ≡ ok l
          → (held d ≡ some l) × (held_by t p l ≡ true))
unfolding acquire_workspace_slot claim
acquire-exclusive h others w t p d present =
    (ground (arith, read_pause-after h w d), λ l e. ground (arith, read_pause-after h w d))
