-- ===== src/Orchestrator/Operations/Claiming.antt =====
-- `claim` of src/execution/orchestrator-core.ts keeps stored runs sound.
use mathlib.Core.Path.{subst}
use agents_with_chatgpt.Prelude.{
  ◌≤◌, refl, sym, String, ◌||◌, not, Option, none, some, pure, throw, find, is_some, ◌==◌,
  if◌then◌else◌,
}
use agents_with_chatgpt.Orchestrator.{Audit, AuditId, Run, audit_claimed, save}
use agents_with_chatgpt.Orchestrator.Audits.{any-update_first, All-update_first, open_count-kept}
use agents_with_chatgpt.Orchestrator.Sound.{
  passes, Open, Sound, Sound-next, Keeps, Keeps-pure, Keeps-throw, Keeps-if, Keeps-save, Keeps-bind,
}
use agents_with_chatgpt.Orchestrator.Operations.{
  load, is_waiting, has_id, update_audit, claim_found, claim_in, claim,
}
use agents_with_chatgpt.Orchestrator.Operations.Sound.{load-Keeps}

abbrev claimed_by : String → Audit → Audit
claimed_by who b = record b { claimant = some who }

Sound-claimed :
    (k : AuditId) (who : String) (r : Run) → Sound r → Sound (update_audit k (claimed_by who) r)
unfolding update_audit Open passes
Sound-claimed k who r s = record {
  within = s.within;
  ahead = s.ahead;
  ended = s.ended;
  passed = λ n h.
      any-update_first (passes n) (has_id k) (claimed_by who) r.audits (λ x e p. p) (s.passed n h);
  opened = All-update_first (Open r) (has_id k) (claimed_by who) r.audits (λ a o. o) s.opened;
  single =
      subst (λ n. n ≤ 1) (sym (open_count-kept (has_id k) (claimed_by who) r.audits (λ a. refl)))
        s.single;
}

claimant-Keeps :
    (k : AuditId) (who : String) (r : Run) (c : Option String)
    → Sound r
    → Keeps Sound (elim c [
      | none ↦ save (update_audit k (claimed_by who) r)
      | some c ↦ if c == who then pure r else throw audit_claimed
    ])
claimant-Keeps k who r none s =
    let t = Sound-claimed k who r s in Keeps-save Sound _ t (Sound-next _ t)
claimant-Keeps k who r (some c) s =
    Keeps-if Sound (c == who) _ _ (Keeps-pure Sound r s) (Keeps-throw Sound _)

claim_in-Keeps :
    (k : AuditId) (who : String) (r : Run) (a : Option Audit)
    → Sound r
    → Keeps Sound (claim_in k who r a)
unfolding claim_in claim_found
claim_in-Keeps k who r none s = Keeps-throw Sound _
claim_in-Keeps k who r (some a) s =
    Keeps-if Sound (is_some a.verdict || not (is_waiting r.state)) _ _ (Keeps-throw Sound _)
      (claimant-Keeps k who r a.claimant s)

pub claim-Keeps :
    (id owner : String) (k : AuditId) (who : String) → Keeps Sound (claim id owner k who)
unfolding claim
claim-Keeps id owner k who =
    Keeps-bind Sound Sound (load (some owner) id) _ (load-Keeps (some owner) id)
      (λ r s. claim_in-Keeps k who r (find (has_id k) r.audits) s)
