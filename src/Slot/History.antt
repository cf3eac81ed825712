-- ===== src/Slot/History.antt =====
-- A lease over time: any sequence of the calls of src/execution/slot.ts on one workspace, by any
-- number of processes, each call run to its end before the next.
mod Tests
use agents_with_chatgpt.Prelude.{
  ◌≡◌, ◌≢◌, sym, ap, true, Option, some, String, List, [], ◌∷◌, arith, after, All, ◌∙◌,
}
use agents_with_chatgpt.Host.{Host, Disk}
use agents_with_chatgpt.Queue.Pause.{is_workspace_id}
use agents_with_chatgpt.Slot.Lease.{Lock, Provider, is_idempotency_key, is_fingerprint, read_raw}
use agents_with_chatgpt.Slot.Operations.{
  acquire_workspace_slot, release_workspace_slot, renew_workspace_slot, bind_workspace_slot,
  mark_reservation_dispatched,
}
use agents_with_chatgpt.Slot.Operations.Acquire.{held, acquire-exclusive}
use agents_with_chatgpt.Slot.Operations.Release.{release_other-after}
use agents_with_chatgpt.Slot.Operations.Holding.{
  Keeps, held-Keeps, renew-Keeps, mark-Keeps, bind_other-after,
}
use agents_with_chatgpt.Slot.Reconcile.{TaskState, reconcile_workspace_slot}
use agents_with_chatgpt.Slot.Reconcile.Evidence.{IsLive, reconcile-keeps_live}

pub data Call : Type 0 where
  acquires : Host → String → Provider → Call
  releases : String → Call
  renews : Host → String → Call
  binds : String → String → Option String → Call
  marks : Host → String → String → String → Call
  reconciles : Host → (String → Option TaskState) → Call

module _ (w : String) where
  pub step : Disk → Call → Disk
  step d (acquires h t p) = after (acquire_workspace_slot h (λ x. x) w t p) d
  step d (releases t) = after (release_workspace_slot w t) d
  step d (renews h t) = after (renew_workspace_slot h (λ x. x) w t) d
  step d (binds reservation t s) = after (bind_workspace_slot w reservation t s) d
  step d (marks h reservation key fingerprint) =
      after (mark_reservation_dispatched h w reservation key fingerprint) d
  step d (reconciles h task_lookup) = after (reconcile_workspace_slot h (λ x. x) w task_lookup) d

  pub run : Disk → List Call → Disk
  run d [] = d
  run d (c ∷ cs) = run (step d c) cs

  -- What the disk says of a lease as long as it is not given up: whose it is, and from which boot.
  pub record Holds (t : String) (p : Provider) (b : Option String) (d : Disk) : Type 0 where
    pub lease : Lock
    pub there : held d ≡ some lease
    pub task : lease.task_id ≡ t
    pub provider : lease.provider ≡ p
    pub boot : lease.boot_id ≡ b
    pub workspace : lease.workspace_id ≡ w

  -- The calls that do not give the lease up. Others may try to take it, renew or release what is not
  -- theirs, and reconcile as long as they know the task to be alive.
  pub Respects : String → Provider → Option String → Call → Type 0
  Respects t p b (acquires h s q) = Unit
  Respects t p b (releases s) = s ≢ t
  Respects t p b (renews h s) = Unit
  Respects t p b (binds reservation s session) = reservation ≢ t
  Respects t p b (marks h reservation key fingerprint) =
      (is_idempotency_key key ≡ true) × (is_fingerprint fingerprint ≡ true)
  Respects t p b (reconciles h task_lookup) =
      (l : Lock) → l.task_id ≡ t → l.provider ≡ p → l.boot_id ≡ b → IsLive h w task_lookup l

  Holds-of_Keeps :
      {t : String} {p : Provider} {b : Option String} {d d' : Disk} (o : Holds t p b d)
      → Keeps o.lease d'
      → Holds t p b d'
  Holds-of_Keeps o k = record {
    lease = k.lease;
    there = k.there;
    task = k.task ∙ o.task;
    provider = k.provider ∙ o.provider;
    boot = k.boot ∙ o.boot;
    workspace = k.workspace ∙ o.workspace;
  }

  Holds-of_eq :
      {t : String} {p : Provider} {b : Option String} {d d' : Disk}
      → Holds t p b d
      → d' ≡ d
      → Holds t p b d'
  Holds-of_eq o e = rw e o

  held-present : (d : Disk) (l : Lock) → held d ≡ some l → (read_raw d.lock_file).present ≡ true
  unfolding read_raw
  held-present d l e = ground arith

  reconcile-Holds :
      {t : String} {p : Provider} {b : Option String} (h : Host)
      (task_lookup : String → Option TaskState) (d : Disk) (o : Holds t p b d)
      → is_workspace_id w ≡ true
      → IsLive h w task_lookup o.lease
      → Holds t p b (after (reconcile_workspace_slot h (λ x. x) w task_lookup) d)
  reconcile-Holds h task_lookup d o valid live =
      let (_, same) =
        reconcile-keeps_live h w task_lookup (λ x. x) d o.lease valid o.there o.workspace live in
      Holds-of_Keeps o (held-Keeps (ap (λ f. (read_raw f).lock) same ∙ o.there))

  step-Holds :
      (t : String) (p : Provider) (b : Option String) (d : Disk) (c : Call)
      → is_workspace_id w ≡ true
      → Holds t p b d
      → Respects t p b c
      → Holds t p b (step d c)
  unfolding step Respects
  step-Holds t p b d (acquires h s q) valid o r =
      Holds-of_eq o (acquire-exclusive h (λ x. x) w s q d (held-present d o.lease o.there)).0
  step-Holds t p b d (releases s) valid o r =
      Holds-of_eq o (release_other-after w s d o.lease o.there (λ e. r (sym e ∙ o.task)))
  step-Holds t p b d (renews h s) valid o r = Holds-of_Keeps o (renew-Keeps w d o.lease o.there h s)
  step-Holds t p b d (binds reservation s session) valid o r =
      Holds-of_eq o
        (bind_other-after w d o.lease o.there reservation s session (λ e. r (e ∙ o.task)))
  step-Holds t p b d (marks h reservation key fingerprint) valid o (k, f) =
      Holds-of_Keeps o (mark-Keeps w d o.lease o.there h reservation key fingerprint k f)
  step-Holds t p b d (reconciles h task_lookup) valid o r =
      reconcile-Holds h task_lookup d o valid (r o.lease o.task o.provider o.boot)

  -- A lease outlives every history of calls that does not give it up: other tasks' attempts to take
  -- it, renewals, releases and bindings by others, well-formed dispatch evidence, and reconciliations
  -- that know its task to be alive leave it with its task, provider, boot and workspace.
  pub run-Holds :
      (t : String) (p : Provider) (b : Option String) (d : Disk) (cs : List Call)
      → is_workspace_id w ≡ true
      → Holds t p b d
      → All (Respects t p b) cs
      → Holds t p b (run d cs)
  unfolding run
  run-Holds t p b d [] valid o r = o
  run-Holds t p b d (c ∷ cs) valid o (r, rs) =
      run-Holds t p b (step d c) cs valid (step-Holds t p b d c valid o r) rs
