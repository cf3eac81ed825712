-- ===== src/Orchestrator/Operations/Submitting.antt =====
-- `submitAudit` of src/execution/orchestrator-core.ts keeps stored runs sound, on every branch.
use agents_with_chatgpt.Prelude.{
  ◌≡◌, refl, String, ◌&&◌, ◌||◌, not, Option, none, some, Result, ok, err, inl, inr, pure, throw,
  ◌>>=◌, find, opt_eq, arith, Bool-cases, if◌then◌else◌,
}
use agents_with_chatgpt.Orchestrator.{
  Audit, AuditId, Verdict, Run, Failure, stale_audit, result_conflict, save,
}
use agents_with_chatgpt.Orchestrator.Advance.{World, advance}
use agents_with_chatgpt.Orchestrator.Sound.{
  Sound, Keeps, Keeps-pure, Keeps-throw, Keeps-if, Keeps-bind,
}
use agents_with_chatgpt.Orchestrator.Operations.{
  load, is_waiting, has_id, update_audit, verdict_eq, check_verdict, decided, decide, judge_found,
  judge, submit_audit,
}
use agents_with_chatgpt.Orchestrator.Operations.Sound.{load-Keeps, save_on}
use agents_with_chatgpt.Orchestrator.Operations.Judging.{judged, AtAudit, Sound-judged}

decide-Keeps :
    (w : World) (k : AuditId) (v : Verdict) (remark : Option String) (r : Run) (a : Audit)
    (x : Result Failure (Unit {0}))
    → AtAudit k r a
    → check_verdict w r a v ≡ x
    → Keeps Sound (elim x [
      | err y ↦ throw y
      | ok u ↦ (do r' ← save (decided v (update_audit k (judged v remark) r)); advance w r')
    ])
decide-Keeps w k v remark r a (err y) p e = Keeps-throw Sound _
decide-Keeps w k v remark r a (ok u) p e = save_on w _ (Sound-judged w k v remark r a u p e)

stale-Keeps :
    (w : World) (k : AuditId) (v : Verdict) (remark : Option String) (r : Run) (a : Audit)
    → Sound r
    → find (has_id k) r.audits ≡ some a
    → a.verdict ≡ none
    → Keeps Sound (
        if not (is_waiting r.state) || not (opt_eq (some a.task_id) r.task_id)
        then throw stale_audit
        else decide w k v remark r a)
unfolding decide is_waiting
stale-Keeps w k v remark r a s f o = elim (Bool-cases (is_waiting r.state)) [
  | inl waits ↦
      let p : AtAudit k r a = record {
        sound = s;
        found = f;
        open_yet = o;
        waiting = ground arith;
      } in
      Keeps-if Sound (not (is_waiting r.state) || not (opt_eq (some a.task_id) r.task_id)) _ _
        (Keeps-throw Sound _) (decide-Keeps w k v remark r a (check_verdict w r a v) p refl)
  | inr not_waiting ↦ rw not_waiting (Keeps-throw Sound _)
]

verdict-Keeps :
    (w : World) (k : AuditId) (v : Verdict) (remark : Option String) (r : Run) (a : Audit)
    (x : Option Verdict)
    → Sound r
    → find (has_id k) r.audits ≡ some a
    → a.verdict ≡ x
    → Keeps Sound (elim x [
      | some old ↦
          if verdict_eq old v && opt_eq a.note remark then pure r else throw result_conflict
      | none ↦
          if not (is_waiting r.state) || not (opt_eq (some a.task_id) r.task_id)
          then throw stale_audit
          else decide w k v remark r a
    ])
verdict-Keeps w k v remark r a none s f e = stale-Keeps w k v remark r a s f e
verdict-Keeps w k v remark r a (some old) s f e =
    Keeps-if Sound (verdict_eq old v && opt_eq a.note remark) _ _ (Keeps-pure Sound r s)
      (Keeps-throw Sound _)

judge-Keeps :
    (w : World) (k : AuditId) (who : String) (v : Verdict) (remark : Option String) (r : Run)
    (x : Option Audit)
    → Sound r
    → find (has_id k) r.audits ≡ x
    → Keeps Sound (judge w k who v remark r x)
unfolding judge judge_found
judge-Keeps w k who v remark r none s f = Keeps-throw Sound _
judge-Keeps w k who v remark r (some a) s f =
    Keeps-if Sound (not (opt_eq a.claimant (some who))) _ _ (Keeps-throw Sound _)
      (verdict-Keeps w k v remark r a a.verdict s f refl)

pub submit_audit-Keeps :
    (w : World) (id owner : String) (k : AuditId) (who : String) (v : Verdict)
    (remark : Option String)
    → Keeps Sound (submit_audit w id owner k who v remark)
unfolding submit_audit
submit_audit-Keeps w id owner k who v remark =
    Keeps-bind Sound Sound (load (some owner) id) _ (load-Keeps (some owner) id)
      (λ r s. judge-Keeps w k who v remark r (find (has_id k) r.audits) s refl)
