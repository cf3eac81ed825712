-- ===== src/Slot/Reconcile/Sweep.antt =====
-- What the sweep over unknown workspaces may touch: `reconcileUnknownWorkspaceSlots` of
-- src/execution/slot.ts.
use agents_with_chatgpt.Prelude.{
  ◌≡◌, refl, inl, inr, true, false, none, some, Result, ok, err, String, List, [], ◌∷◌, arith,
  Bool-cases, after,
}
use agents_with_chatgpt.Host.{Host, Disk}
use agents_with_chatgpt.Queue.Pause.{is_workspace_id}
use agents_with_chatgpt.Slot.Lease.{Lock}
use agents_with_chatgpt.Slot.Operations.{SlotError}
use agents_with_chatgpt.Slot.Operations.Acquire.{held}
use agents_with_chatgpt.Slot.Reconcile.{
  Reconciliation, SweepResult, Locks, is_listed, cons_locks, swept, sweep, reconcile_workspace_slot,
  reconcile_unknown_workspace_slots,
}
use agents_with_chatgpt.Slot.Reconcile.Evidence.{IsLive, reconcile-keeps_live}

module _ (h : Host) (authorized : List String) where
  -- The leases that a sweep must leave: those of workspaces that the bridge serves, and those of
  -- this boot that an upstream alone can resolve.
  pub data IsSpared (w : String) (d : Disk) : Type 0 where
    served : is_listed w authorized ≡ true → IsSpared w d
    upstream :
        (l : Lock) → held d ≡ some l → l.workspace_id ≡ w → IsLive h w (λ _. none) l → IsSpared w d

  -- The same workspaces in the same order, with every lease that must be left in its lock file.
  pub Spares : Locks → Locks → Type 0
  Spares [] [] = Unit
  Spares [] (_ ∷ _) = ⊥
  Spares (_ ∷ _) [] = ⊥
  Spares ((w, d) ∷ before) ((v, d') ∷ now) =
      (w ≡ v) × (IsSpared w d → d'.lock_file ≡ d.lock_file) × Spares before now

  Spares-refl : (locks : Locks) → Spares locks locks
  unfolding Spares
  Spares-refl [] = tt
  Spares-refl ((w, d) ∷ locks) = (refl, λ _. refl, Spares-refl locks)

  swept-Spares :
      (w : String) (d d' : Disk) (r : Result SlotError Reconciliation) (rest : Locks)
      (go : SweepResult → Result SlotError SweepResult × Locks) (total : SweepResult)
      → (IsSpared w d → d'.lock_file ≡ d.lock_file)
      → ((t : SweepResult) → Spares rest (go t).1)
      → Spares ((w, d) ∷ rest) (swept w (r, d') rest go total).1
  unfolding swept cons_locks Spares
  swept-Spares w d d' (ok r) rest go total keep later = (refl, keep, later _)
  swept-Spares w d d' (err e) rest go total keep later = (refl, keep, Spares-refl rest)

  round-IsSpared :
      (w : String) (d : Disk)
      → is_workspace_id w ≡ true
      → is_listed w authorized ≡ false
      → IsSpared w d
      → (after (reconcile_workspace_slot h (λ x. x) w (λ _. none)) d).lock_file ≡ d.lock_file
  round-IsSpared w d valid unknown (served listed) = absurd (ground arith)
  round-IsSpared w d valid unknown (upstream l e same live) =
      (reconcile-keeps_live h w (λ _. none) (λ x. x) d l valid e same live).1

  sweep-Spares :
      (locks : Locks) (total : SweepResult) → Spares locks (sweep h authorized locks total).1
  unfolding sweep Spares cons_locks
  sweep-Spares [] total = tt
  sweep-Spares ((w, d) ∷ rest) total = elim (Bool-cases (is_workspace_id w)) [
    | inr odd ↦ rw odd (refl, λ _. refl, sweep-Spares rest total)
    | inl valid ↦ elim (Bool-cases (is_listed w authorized)) [
      | inl listed ↦ rw (valid, listed) (refl, λ _. refl, sweep-Spares rest total)
      | inr unknown ↦
          rw (valid, unknown)
            (swept-Spares w d _ _ rest (sweep h authorized rest) total
              (round-IsSpared w d valid unknown) (sweep-Spares rest))
    ]
  ]

  -- A sweep, also one that stops at a lease it cannot read, leaves every lease of a served workspace
  -- and every unresolved upstream lease of this boot where it is.
  pub sweep_unknown-Spares :
      (locks : Locks) → Spares locks (reconcile_unknown_workspace_slots h authorized locks).1
  unfolding reconcile_unknown_workspace_slots
  sweep_unknown-Spares locks = sweep-Spares locks _
