-- ===== src/Slot/Operations/Holding.antt =====
-- What the operations of src/execution/slot.ts on someone's lease leave of it.
use agents_with_chatgpt.Prelude.{
  ◌≡◌, ◌≢◌, refl, inl, inr, true, Option, some, String, File, missing, unreadable, json, arith,
  Bool-cases, eq_iff, ◌&&◌, ◌==◌, opt_eq_refl, after,
}
use agents_with_chatgpt.Host.{Host, Disk}
use agents_with_chatgpt.Queue.Pause.{is_workspace_id}
use agents_with_chatgpt.Slot.Lease.{Lock, z2c, is_idempotency_key, is_fingerprint, read_raw}
use agents_with_chatgpt.Slot.Lease.Format.{IsWellFormed, validate_lock-IsWellFormed}
use agents_with_chatgpt.Slot.Operations.{
  owned_here, renewed, renew_lock, renew_workspace_slot, bind_lock, is_bindable,
  bind_workspace_slot, marked_lock, mark_lock, no_conflict, mark_reservation_dispatched,
  provider_eq,
}
use agents_with_chatgpt.Slot.Operations.Acquire.{held, held-written}

-- The disk holds the lease of the same task, provider, boot and workspace as `l`.
pub record Keeps (l : Lock) (d : Disk) : Type 0 where
  pub lease : Lock
  pub there : held d ≡ some lease
  pub task : lease.task_id ≡ l.task_id
  pub provider : lease.provider ≡ l.provider
  pub boot : lease.boot_id ≡ l.boot_id
  pub workspace : lease.workspace_id ≡ l.workspace_id

pub held-Keeps : {l : Lock} {d : Disk} → held d ≡ some l → Keeps l d
held-Keeps {l} {d} e = record {
  lease = l;
  there = e;
  task = refl;
  provider = refl;
  boot = refl;
  workspace = refl;
}

held_file-IsWellFormed : (f : File) (l : Lock) → (read_raw f).lock ≡ some l → IsWellFormed l
unfolding read_raw
held_file-IsWellFormed missing l e = absurd (cc)
held_file-IsWellFormed unreadable l e = absurd (cc)
held_file-IsWellFormed (json v) l e = validate_lock-IsWellFormed v l e

pub held-IsWellFormed : (d : Disk) (l : Lock) → held d ≡ some l → IsWellFormed l
held-IsWellFormed d l e = held_file-IsWellFormed d.lock_file l e

module _ (w : String) (d : Disk) (l : Lock) (there : held d ≡ some l) where
  renewed-IsWellFormed : (h : Host) → IsWellFormed (renewed h l)
  unfolding renewed
  renewed-IsWellFormed h = record {
    workspace = v.workspace;
    task = v.task;
    session = v.session;
    key = v.key;
    fingerprint = v.fingerprint;
    process = v.process;
  }
    where
      v : IsWellFormed l
      v = held-IsWellFormed d l there

  -- A renewal changes the times of the lease at most.
  pub renew-Keeps :
      (h : Host) (t : String) → Keeps l (after (renew_workspace_slot h (λ x. x) w t) d)
  unfolding renew_workspace_slot renew_lock owned_here renewed
  renew-Keeps h t = elim (Bool-cases (is_workspace_id w)) [
    | inr refused ↦ held-Keeps (ground arith)
    | inl valid ↦ elim (Bool-cases (owned_here h t l)) [
      | inr other ↦ held-Keeps (ground arith)
      | inl mine ↦ record {
        lease = renewed h l;
        there = ground (
          arith,
          held-written d (renewed h l) (renewed-IsWellFormed h),
          opt_eq_refl l.owner_identity,
        );
        task = refl;
        provider = refl;
        boot = refl;
        workspace = refl;
      }
    ]
  ]

  marked-IsWellFormed :
      (h : Host) (key fingerprint : String)
      → is_idempotency_key key ≡ true
      → is_fingerprint fingerprint ≡ true
      → IsWellFormed (marked_lock h l key fingerprint)
  unfolding marked_lock
  marked-IsWellFormed h key fingerprint k f = record {
    workspace = v.workspace;
    task = v.task;
    session = v.session;
    key = k;
    fingerprint = f;
    process = v.process;
  }
    where
      v : IsWellFormed l
      v = held-IsWellFormed d l there

  -- Dispatch evidence that passes the file format's tests leaves the lease with its holder.
  pub mark-Keeps :
      (h : Host) (reservation key fingerprint : String)
      → is_idempotency_key key ≡ true
      → is_fingerprint fingerprint ≡ true
      → Keeps l (after (mark_reservation_dispatched h w reservation key fingerprint) d)
  unfolding mark_reservation_dispatched mark_lock marked_lock
  mark-Keeps h reservation key fingerprint k f = elim (Bool-cases (is_workspace_id w)) [
    | inr refused ↦ held-Keeps (ground arith)
    | inl valid ↦ elim (Bool-cases (provider_eq l.provider z2c && l.task_id == reservation)) [
      | inr other ↦ held-Keeps (ground arith)
      | inl mine ↦ elim (Bool-cases (no_conflict key l.idempotency_key)) [
        | inr conflict ↦ held-Keeps (ground arith)
        | inl fresh ↦ record {
          lease = marked_lock h l key fingerprint;
          there = ground (
            arith,
            held-written d (marked_lock h l key fingerprint)
                (marked-IsWellFormed h key fingerprint k f),
          );
          task = refl;
          provider = refl;
          boot = refl;
          workspace = refl;
        }
      ]
    ]
  ]

  -- Binding another reservation changes nothing.
  pub bind_other-after :
      (reservation t : String) (s : Option String)
      → reservation ≢ l.task_id
      → after (bind_workspace_slot w reservation t s) d ≡ d
  unfolding bind_workspace_slot bind_lock is_bindable
  bind_other-after reservation t s other = ground (arith, eq_iff l.task_id reservation)
