-- ===== src/Orchestrator/Operations/Judging.antt =====
-- A verdict of `submitAudit` (src/execution/orchestrator-core.ts): the run that it leaves.
use agents_with_chatgpt.Prelude.{
  ℕ, ◌+◌, ◌≤◌, ◌<◌, ◌≡◌, refl, sym, ap, ◌∙◌, String, true, false, Option, none, some, Result, ok,
  err, inl, inr, List, [], ◌∷◌, ◌++◌, find, update_first, All-find, length, any, nat_eq, ltb,
  ltb→lt, arith, Bool-cases, Result-cases, if◌then◌else◌,
}
use agents_with_chatgpt.Orchestrator.{
  LaneTask, Audit, AuditId, Verdict, pass, rework, block, idle, waiting_audit, complete, Run,
  Failure, pass_rejected, Blocker, pass_blockers, no_blockers,
}
use agents_with_chatgpt.Orchestrator.Advance.{World}
use agents_with_chatgpt.Orchestrator.Audits.{
  any-update_first, any-written, Open-closed, open_count-judged,
}
use agents_with_chatgpt.Orchestrator.Sound.{
  passes, open-fails, clean-passes, Open, open_count, Sound,
}
use agents_with_chatgpt.Orchestrator.Operations.{
  has_id, update_audit, check_pass, look_again, agent_of_audit, check_verdict, go_on, decided,
}

abbrev pub judged : Verdict → Option String → Audit → Audit
judged v remark b = record b { verdict = some v; note = remark }

-- The audit that the verdict is given on, and what is known of it.
pub record AtAudit (k : AuditId) (r : Run) (a : Audit) : Type 0 where
  pub sound : Sound r
  pub found : find (has_id k) r.audits ≡ some a
  pub open_yet : a.verdict ≡ none
  pub waiting : r.state ≡ waiting_audit

judged-closed :
    (k : AuditId) (v : Verdict) (remark : Option String) (r : Run) (a : Audit)
    → AtAudit k r a
    → open_count (update_first (has_id k) (judged v remark) r.audits) ≡ 0
judged-closed k v remark r a p =
    let fewer = open_count-judged (has_id k) (judged v remark) r.audits a p.found p.open_yet refl in
    omega (arith, fewer, p.sound.single)

same-verdict : (x a : Audit) → x ≡ a → a.verdict ≡ none → x.verdict ≡ none
same-verdict x a e h = ap (λ (y : Audit). y.verdict) e ∙ h

-- What passed before, passes with the verdict.
judged-passed :
    (k : AuditId) (v : Verdict) (remark : Option String) (r : Run) (a : Audit) (n : ℕ)
    → AtAudit k r a
    → n < r.step
    → any (passes n) (update_first (has_id k) (judged v remark) r.audits) ≡ true
judged-passed k v remark r a n p h =
    any-update_first (passes n) (has_id k) (judged v remark) r.audits
      (λ x e good. absurd (open-fails n x (same-verdict x a (cc) p.open_yet) good))
      (p.sound.passed n h)

first-clean : (xs ys : List Blocker) → no_blockers (xs ++ ys) ≡ true → no_blockers xs ≡ true
unfolding no_blockers
first-clean [] ys h = refl
first-clean (x ∷ xs) ys h = h

abbrev verdict_test : List Blocker → Result Failure (Unit {0})
verdict_test xs = if no_blockers xs then ok tt else err (pass_rejected xs)

clean-if : (xs : List Blocker) (u : Unit {0}) → verdict_test xs ≡ ok u → no_blockers xs ≡ true
clean-if xs u h = ground arith

pass_test :
    (w : World) (r : Run) (a : Audit) (t : LaneTask)
    → look_again w a (agent_of_audit r a) ≡ ok t
    → check_pass w r a ≡ verdict_test (a.blockers ++ pass_blockers t)
unfolding check_pass
pass_test w r a t e = rw (e, check_pass) refl

-- A PASS is given on no audit with blockers.
check_pass-clean :
    (w : World) (r : Run) (a : Audit) (u : Unit {0})
    → check_pass w r a ≡ ok u
    → no_blockers a.blockers ≡ true
unfolding check_pass
check_pass-clean w r a u h = elim (Result-cases (look_again w a (agent_of_audit r a))) [
  | inl (t, e) ↦
      first-clean a.blockers (pass_blockers t) (clean-if _ u (sym (pass_test w r a t e) ∙ h))
  | inr (x, e) ↦ absurd (ground (arith, h, e))
]

last-one : (n m : ℕ) → ltb n m ≡ false → n < m + 1 → m ≡ n
last-one n m h k = ground arith

judged-pass :
    (w : World) (k : AuditId) (remark : Option String) (r : Run) (a : Audit) (u : Unit {0}) (n : ℕ)
    → AtAudit k r a
    → check_pass w r a ≡ ok u
    → n < r.step + 1
    → any (passes n) (update_first (has_id k) (judged pass remark) r.audits) ≡ true
unfolding Open
judged-pass w k remark r a u n p h below = elim (Bool-cases (ltb n r.step)) [
  | inl earlier ↦ judged-passed k pass remark r a n p (ltb→lt n r.step earlier)
  | inr now ↦
      let about : a.step ≡ n =
        (All-find (Open r) (has_id k) r.audits p.sound.opened p.found p.open_yet).1
        ∙ last-one n r.step now below in
      any-written (passes n) (has_id k) (judged pass remark) r.audits a p.found
        (clean-passes n (judged pass remark a) about refl (check_pass-clean w r a u h))
]

one-more : (n m : ℕ) → ((if nat_eq n m then complete else idle) ≡ complete → ⊥) → n ≤ m → n < m
one-more n m h le = elim (Bool-cases (nat_eq n m)) [
  | inl e ↦ absurd (h (rw e refl))
  | inr e ↦ ground arith
]

at-end : (n m : ℕ) → (if nat_eq n m then complete else idle) ≡ complete → n ≡ m
at-end n m h = ground arith

next-in : (r : Run) (a : Audit) (k : AuditId) → AtAudit k r a → r.step + 1 ≤ length r.steps
next-in r a k p =
    let waiting = p.waiting in let below = p.sound.ahead (λ c. absurd (cc)) in omega (arith, below)

-- The run after a verdict is sound, where the verdict was let through.
pub Sound-judged :
    (w : World) (k : AuditId) (v : Verdict) (remark : Option String) (r : Run) (a : Audit)
    (u : Unit {0})
    → AtAudit k r a
    → check_verdict w r a v ≡ ok u
    → Sound (decided v (update_audit k (judged v remark) r))
unfolding update_audit decided go_on check_verdict
Sound-judged w k block remark r a u p h = record {
  within = p.sound.within;
  ahead = λ e. p.sound.ahead (λ c. let waiting = p.waiting in absurd (cc));
  ended = λ e. absurd (cc);
  passed = λ n below. judged-passed k block remark r a n p below;
  opened = Open-closed _ _ (judged-closed k block remark r a p);
  single = omega (arith, judged-closed k block remark r a p);
}
Sound-judged w k rework remark r a u p h = record {
  within = p.sound.within;
  ahead = λ e. p.sound.ahead (λ c. let waiting = p.waiting in absurd (cc));
  ended = λ e. at-end r.step (length r.steps) e;
  passed = λ n below. judged-passed k rework remark r a n p below;
  opened = Open-closed _ _ (judged-closed k rework remark r a p);
  single = omega (arith, judged-closed k rework remark r a p);
}
Sound-judged w k pass remark r a u p h = record {
  within = next-in r a k p;
  ahead = λ e. one-more (r.step + 1) (length r.steps) e (next-in r a k p);
  ended = λ e. at-end (r.step + 1) (length r.steps) e;
  passed = λ n below. judged-pass w k remark r a u n p h below;
  opened = Open-closed _ _ (judged-closed k pass remark r a p);
  single = omega (arith, judged-closed k pass remark r a p);
}
