-- ===== src/Orchestrator/Operations/Sound.antt =====
-- Every call of src/execution/orchestrator-core.ts keeps stored runs sound.
use mathlib.Core.Path.{subst}
use agents_with_chatgpt.Prelude.{
  ◌≤◌, ◌≡◌, refl, sym, ap, ◌∙◌, String, Bool, ◌&&◌, Option, none, some, Result, ok, err, inl, inr,
  after, result, throw, ◌>>=◌, List, [], ◌∷◌, length, all, leb, arith, Option-cases, read_key,
}
use agents_with_chatgpt.Orchestrator.{Step, Run, Disk, no_selection, plan_invalid, Defect, save}
use agents_with_chatgpt.Orchestrator.Advance.{World, advance}
use agents_with_chatgpt.Orchestrator.Advance.Sound.{advance-Keeps}
use agents_with_chatgpt.Orchestrator.Sound.{
  Open, open_count, Sound, Sound-next, SoundDisk, Keeps, Keeps-pure, Keeps-throw, Keeps-if,
  Keeps-save, Keeps-bind, Keeps-require,
}
use agents_with_chatgpt.Orchestrator.Operations.{
  owned, load, same_steps, resolve_all, new_run, created, create_locked, create, pause, recover_one,
  recover_each, recover,
}

owned-same : (owner : Option String) (id : String) (r q : Run) → owned owner id r ≡ ok q → r ≡ q
unfolding owned
owned-same none id r q h = ground arith
owned-same (some o) id r q h = ground arith

load-after : (owner : Option String) (id : String) (d : Disk) → after (load owner id) d ≡ d
unfolding load
load-after owner id d = elim (Option-cases (read_key id d.runs)) [
  | inl e ↦ rw (e, after) refl
  | inr (r, e) ↦ rw (e, after) refl
]

load-found :
    (owner : Option String) (id : String) (d : Disk) (q : Run)
    → result (load owner id) d ≡ ok q
    → read_key id d.runs ≡ some q
unfolding load
load-found owner id d q h = elim (Option-cases (read_key id d.runs)) [
  | inl e ↦ absurd (ground arith)
  | inr (r, e) ↦ e ∙ ap some (owned-same owner id r q (cc))
]

pub load-Keeps : (owner : Option String) (id : String) → Keeps Sound (load owner id)
load-Keeps owner id = record {
  disk = λ d h. subst SoundDisk (sym (load-after owner id d)) h;
  run = λ d q h e. h id q (load-found owner id d q e);
}

pub save_on : (w : World) (r : Run) → Sound r → Keeps Sound (save r >>= advance w)
save_on w r s =
    Keeps-bind Sound Sound (save r) (advance w) (Keeps-save Sound r s (Sound-next r s))
      (λ q t. advance-Keeps w q t)

Sound-paused : (r : Run) (paused : Bool) → Sound r → Sound (record r { paused = paused })
unfolding Open
Sound-paused r paused s = record {
  within = s.within;
  ahead = s.ahead;
  ended = s.ended;
  passed = s.passed;
  opened = s.opened;
  single = s.single;
}

pub pause-Keeps :
    (w : World) (id owner : String) (paused : Bool) → Keeps Sound (pause w id owner paused)
unfolding pause
pause-Keeps w id owner paused =
    Keeps-bind Sound Sound (load (some owner) id) _ (load-Keeps (some owner) id)
      (λ r s. save_on w (record r { paused = paused }) (Sound-paused r paused s))

Sound-new :
    (workspace id owner : String) (steps : List Step)
    → 1 ≤ length steps
    → Sound (new_run workspace id owner steps)
unfolding open_count
Sound-new workspace id owner steps some_step = record {
  within = omega arith;
  ahead = λ h. omega (arith, some_step);
  ended = λ h. absurd (cc);
  passed = λ n h. absurd (omega arith);
  opened = tt;
  single = omega arith;
}

created-Keeps :
    (w : World) (workspace id owner : String) (steps : List Step) (o : Option Run)
    → 1 ≤ length steps
    → Keeps Sound (created w workspace id owner steps o)
unfolding created
created-Keeps w workspace id owner steps none some_step =
    save_on w (new_run workspace id owner steps) (Sound-new workspace id owner steps some_step)
created-Keeps w workspace id owner steps (some old) some_step =
    Keeps-bind Sound Sound (load (some owner) id) _ (load-Keeps (some owner) id) (λ r s.
      Keeps-if Sound (same_steps r.steps steps) _ _ (Keeps-pure Sound r s) (Keeps-throw Sound _))

create_locked-Keeps :
    (w : World) (workspace id owner : String) (steps : List Step)
    → 1 ≤ length steps
    → Keeps Sound (create_locked w workspace id owner steps)
unfolding create_locked
create_locked-Keeps w workspace id owner steps some_step =
    let keeps : (d : Disk) → Keeps Sound (created w workspace id owner steps (read_key id d.runs)) =
      λ d. created-Keeps w workspace id owner steps (read_key id d.runs) some_step in
    record { disk = λ d h. (keeps d).disk d h; run = λ d q h e. (keeps d).run d q h e }

admitted-Keeps :
    (w : World) (workspace id owner : String) (steps : List Step) (x : Result Defect (Unit {0}))
    → 1 ≤ length steps
    → Keeps Sound (elim x [
      | err y ↦ throw (no_selection y)
      | ok u ↦ create_locked w workspace id owner steps
    ])
admitted-Keeps w workspace id owner steps (err y) h = Keeps-throw Sound _
admitted-Keeps w workspace id owner steps (ok u) h =
    create_locked-Keeps w workspace id owner steps h

pub create-Keeps :
    (w : World) (workspace : String) (validate : Step → Bool) (id owner : String)
    (steps : List Step)
    → Keeps Sound (create w workspace validate id owner steps)
unfolding create
create-Keeps w workspace validate id owner steps =
    Keeps-require Sound (leb 1 (length steps) && leb (length steps) 64) plan_invalid _ (λ ok_length.
      Keeps-require Sound (all validate steps) plan_invalid _ (λ ok_steps.
        admitted-Keeps w workspace id owner steps (resolve_all w steps)
          (ground (arith, ok_length))))

recover_each-SoundDisk :
    (w : World) (rows : List (String × Run)) (d : Disk)
    → SoundDisk d
    → SoundDisk (recover_each w rows d)
unfolding recover_each recover_one
recover_each-SoundDisk w [] d h = h
recover_each-SoundDisk w ((id, r) ∷ rows) d h =
    let one =
      Keeps-bind Sound Sound (load none id) (advance w) (load-Keeps none id)
        (λ q s. advance-Keeps w q s) in
    recover_each-SoundDisk w rows _ (one.disk d h)

pub recover-SoundDisk : (w : World) (d : Disk) → SoundDisk d → SoundDisk (recover w d)
unfolding recover
recover-SoundDisk w d h = recover_each-SoundDisk w d.runs d h
