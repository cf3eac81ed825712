-- ===== src/Orchestrator/Advance/Sound.antt =====
-- `advance` of src/execution/orchestrator-core.ts keeps stored runs sound.
use mathlib.Core.Path.{subst}
use agents_with_chatgpt.Prelude.{
  All-map, ◌≤◌, ◌≡◌, refl, sym, ap, ◌∙◌, String, true, false, ◌&&◌, not, Option, none, some, Result,
  ok, err, inl, inr, throw, List, [], ◌∷◌, All, All-append, length, any, Option-cases, arith,
  Bool-cases, if-holds, ◌==◌, if◌then◌else◌,
}
use agents_with_chatgpt.Orchestrator.{
  Selected, Step, LaneTask, Audit, same_id, RunState, dispatched, running, waiting_audit, complete,
  blocked, fail, Defect, Run, lane_failed, next_generation, save,
}
use agents_with_chatgpt.Orchestrator.Advance.{
  Lane, World, lane, resolve_step, current_step, current_id, is_over, new_audit, with_audit,
  is_task_running, is_run_running, observed, look_in, agent_of, observe, is_final, submitted,
  note_dispatch, submit_in, submit_step, submit, is_unavailable, failed_selection, no_step,
  selected, select, is_dispatched, select_or_submit, dispatch, at_rest, advance,
}
use agents_with_chatgpt.Orchestrator.Audits.{any-append, verdict-skips, open_count-append}
use agents_with_chatgpt.Orchestrator.Sound.{
  passes, Open, open_count, Sound, Sound-next, Keeps, Keeps-pure, Keeps-throw, Keeps-if, Keeps-save,
  Keeps-bind,
}

-- A sound run that waits for nothing but its task.
pub record Live (r : Run) : Type 0 where
  pub sound : Sound r
  pub busy : at_rest r.state ≡ false

not-waiting : (s : RunState) → at_rest s ≡ false → s ≡ waiting_audit → ⊥
unfolding at_rest
not-waiting s busy h = absurd (ground arith)

-- In a live run every audit has its verdict.
not-Open : (r : Run) (a : Audit) → Live r → Open r a → a.verdict ≡ none → ⊥
unfolding Open
not-Open r a l o h = not-waiting r.state l.busy (o h).0

-- no open audit
closed : (r : Run) (xs : List Audit) → Live r → All (Open r) xs → open_count xs ≡ 0
unfolding open_count
closed r [] l o = refl
closed r (a ∷ xs) l o = elim (Option-cases a.verdict) [
  | inl e ↦ absurd (not-Open r a l o.0 e)
  | inr (v, e) ↦ verdict-skips a xs v e ∙ closed r xs l o.1
]

not-complete : (s : RunState) → at_rest s ≡ false → s ≡ complete → ⊥
unfolding at_rest
not-complete s busy h = absurd (ground arith)

-- A change of state alone, to any but `complete` and `waiting_audit`, and of what no audit is about.
Sound-moved :
    (r q : Run)
    → Live r
    → q.step ≡ r.step
    → q.steps ≡ r.steps
    → q.audits ≡ r.audits
    → (q.state ≡ complete → ⊥)
    → Sound q
unfolding Open
Sound-moved r q l step steps audits going = record {
  within = omega (arith, step, ap length steps, l.sound.within);
  ahead = λ h. omega (arith, step, ap length steps, l.sound.ahead (not-complete r.state l.busy));
  ended = λ h. absurd (going h);
  passed = λ n h. ap (any (passes n)) audits ∙ l.sound.passed n (omega (arith, step, h));
  opened =
      subst (All (Open q)) (sym audits)
        (All-map (Open r) (Open q) r.audits (λ a o h. absurd (not-Open r a l o h)) l.sound.opened);
  single = omega (arith, ap open_count audits, l.sound.single);
}

Sound-with_audit : (t : LaneTask) (r : Run) → Live r → Sound (with_audit t r)
unfolding with_audit Open
Sound-with_audit t r l =
    let kept : All (Open (with_audit t r)) r.audits =
      All-map (Open r) (Open (with_audit t r)) r.audits (λ a o h. absurd (not-Open r a l o h))
        l.sound.opened in
    record {
      within = l.sound.within;
      ahead = λ h. l.sound.ahead (not-complete r.state l.busy);
      ended = λ h. absurd (cc);
      passed = λ n h.
          if-holds (λ xs. any (passes n) xs ≡ true)
            (any (λ a. same_id a.id (current_id r)) r.audits) (l.sound.passed n h)
            (any-append (passes n) r.audits _ (l.sound.passed n h));
      opened =
          if-holds (All (Open (with_audit t r))) (any (λ a. same_id a.id (current_id r)) r.audits)
            kept (All-append (Open (with_audit t r)) r.audits _ kept (λ h. (refl, refl, refl), tt));
      single =
          if-holds (λ xs. open_count xs ≤ 1) (any (λ a. same_id a.id (current_id r)) r.audits)
            l.sound.single
            (omega (
              arith,
              open_count-append r.audits (new_audit t r),
              closed r r.audits l l.sound.opened,
            ));
    }

Live-moved :
    (r q : Run)
    → Live r
    → q.step ≡ r.step
    → q.steps ≡ r.steps
    → q.audits ≡ r.audits
    → at_rest q.state ≡ false
    → Live q
Live-moved r q l step steps audits busy = record {
  sound = Sound-moved r q l step steps audits (not-complete q.state busy);
  busy = busy;
}

save-Live : (r : Run) → Live r → Keeps Live (save r)
unfolding next_generation
save-Live r l = Keeps-save Live r l.sound (record { sound = Sound-next r l.sound; busy = l.busy })

save-Sound : (r : Run) → Sound r → Keeps Sound (save r)
save-Sound r s = Keeps-save Sound r s (Sound-next r s)

observed-Keeps : (r : Run) (t : LaneTask) → Live r → Keeps Sound (observed r t)
unfolding observed at_rest
observed-Keeps r t l =
    Keeps-if Sound (is_over t.status) _ _ (save-Sound (with_audit t r) (Sound-with_audit t r l)) (
      Keeps-if Sound (is_task_running t.status && not (is_run_running r.state)) _ _
        (save-Sound (record r { state = running })
          (Live-moved r (record r { state = running }) l refl refl refl refl).sound)
        (Keeps-pure Sound r l.sound))

look_in-Keeps : (r : Run) (id : String) (l : Option Lane) → Live r → Keeps Sound (look_in r id l)
unfolding look_in
look_in-Keeps r id none live = Keeps-throw Sound _
look_in-Keeps r id (some l) live =
    elim (l.look id)
      as (λ x. Keeps Sound (elim x [ err code ↦ throw (lane_failed code) | ok t ↦ observed r t ])) [
        | err code ↦ Keeps-throw Sound _
        | ok t ↦ observed-Keeps r t live
      ]

observe-Keeps : (w : World) (r : Run) (id : String) → Live r → Keeps Sound (observe w r id)
unfolding observe
observe-Keeps w r id live =
    elim (agent_of r)
      as (λ x.
        Keeps Sound
          (elim x [ none ↦ throw (lane_failed none) | some a ↦ look_in r id (lane w a) ])) [
            | none ↦ Keeps-throw Sound _
            | some a ↦ look_in-Keeps r id (lane w a) live
          ]

submitted-Keeps :
    (w : World) (r : Run) (x : Result (Option String) LaneTask)
    → Live r
    → Keeps Sound (submitted w r x)
unfolding submitted
submitted-Keeps w r (err code) l =
    Keeps-if Sound (is_final code) _ _
      (save-Sound (record r { state = fail })
        (Sound-moved r (record r { state = fail }) l refl refl refl (λ h. absurd (cc))))
      (Keeps-throw Sound _)
submitted-Keeps w r (ok t) l =
    Keeps-bind Live Sound (save (record r { task_id = some t.task_id }))
      (λ q. observe w q t.task_id)
      (save-Live (record r { task_id = some t.task_id })
        (Live-moved r (record r { task_id = some t.task_id }) l refl refl refl l.busy))
      (λ q live. observe-Keeps w q t.task_id live)

submit_in-Keeps :
    (w : World) (r : Run) (s : Step) (sel : Selected) (l : Option Lane)
    → Live r
    → Keeps Sound (submit_in w r s sel l)
unfolding submit_in note_dispatch
submit_in-Keeps w r s sel none live = Keeps-throw Sound _
submit_in-Keeps w r s sel (some l) live =
    let k = submitted-Keeps w r (l.submit s sel (current_id r)) live in
    record {
      disk = λ d h. k.disk (note_dispatch (current_id r) d) h;
      run = λ d q h e. k.run (note_dispatch (current_id r) d) q h e;
    }

submit_step-Keeps :
    (w : World) (r : Run) (sel : Selected) (s : Option Step)
    → Live r
    → Keeps Sound (submit_step w r sel s)
unfolding submit_step
submit_step-Keeps w r sel none live = Keeps-throw Sound _
submit_step-Keeps w r sel (some s) live = submit_in-Keeps w r s sel (lane w sel.agent) live

submit-Keeps : (w : World) (r : Run) (sel : Selected) → Live r → Keeps Sound (submit w r sel)
unfolding submit
submit-Keeps w r sel live = submit_step-Keeps w r sel (current_step r) live

failed_selection-Keeps : (r : Run) (x : Defect) → Live r → Keeps Sound (failed_selection r x)
unfolding failed_selection
failed_selection-Keeps r x l = Keeps-if Sound (is_unavailable x.code) _ _ (Keeps-throw Sound _) (
    save-Sound (record r { state = fail; failure = some x })
      (Sound-moved r (record r { state = fail; failure = some x }) l refl refl refl
        (λ h. absurd (cc))))

selected-Keeps :
    (w : World) (r : Run) (x : Result Defect Selected) → Live r → Keeps Sound (selected w r x)
unfolding selected at_rest
selected-Keeps w r (err x) l = failed_selection-Keeps r x l
selected-Keeps w r (ok sel) l =
    let q : Run = record r { state = dispatched; resolved = some sel; failure = none } in
    Keeps-bind Live Sound (save q) (λ p. submit w p sel)
      (save-Live q (Live-moved r q l refl refl refl refl)) (λ p live. submit-Keeps w p sel live)

select-Keeps : (w : World) (r : Run) (s : Option Step) → Live r → Keeps Sound (select w r s)
unfolding select
select-Keeps w r none l = failed_selection-Keeps r no_step l
select-Keeps w r (some s) l = selected-Keeps w r (resolve_step w s) l

select_or_submit-Keeps :
    (w : World) (r : Run) (o : Option Selected) → Live r → Keeps Sound (select_or_submit w r o)
unfolding select_or_submit
select_or_submit-Keeps w r none l = select-Keeps w r (current_step r) l
select_or_submit-Keeps w r (some sel) l =
    Keeps-if Sound (is_dispatched r.state) _ _ (submit-Keeps w r sel l)
      (select-Keeps w r (current_step r) l)

dispatch-Keeps : (w : World) (r : Run) → Live r → Keeps Sound (dispatch w r)
unfolding dispatch
dispatch-Keeps w r l = Keeps-if Sound r.paused _ _ (Keeps-pure Sound r l.sound) (
    Keeps-if Sound (not (w.authorizes r.owner_id)) _ _
      (save-Sound (record r { state = blocked })
        (Sound-moved r (record r { state = blocked }) l refl refl refl (λ h. absurd (cc))))
      (select_or_submit-Keeps w r r.resolved l))

taken_on-Keeps :
    (w : World) (r : Run)
    → Live r
    → (task : Option String)
    → Keeps Sound (elim task [
      | none ↦ dispatch w r
      | some id ↦ if id == "" then dispatch w r else observe w r id
    ])
taken_on-Keeps w r l none = dispatch-Keeps w r l
taken_on-Keeps w r l (some id) =
    Keeps-if Sound (id == "") _ _ (dispatch-Keeps w r l) (observe-Keeps w r id l)

-- Taking a sound run on keeps every stored run sound.
pub advance-Keeps : (w : World) (r : Run) → Sound r → Keeps Sound (advance w r)
unfolding advance
advance-Keeps w r s = elim (Bool-cases (at_rest r.state)) [
  | inl rest ↦ rw rest (Keeps-pure Sound r s)
  | inr busy ↦ rw busy (taken_on-Keeps w r (record { sound = s; busy = busy }) r.task_id)
]
