-- ===== src/Orchestrator/Operations.antt =====
-- src/execution/orchestrator-core.ts: what callers ask of a run. The lock runs one call at a time.
pub mod Sound
pub mod Claiming
pub mod Judging
pub mod Submitting
use agents_with_chatgpt.Prelude.{
  ℕ, ◌+◌, String, Bool, true, false, ◌&&◌, ◌||◌, not, Option, none, some, Result, ok, err, pure,
  throw, get, after, require, ◌>>=◌, ◌>>◌, List, [], ◌∷◌, ◌++◌, find, update_first, any, all,
  is_some, nat_eq, opt_eq, or_else, length, leb, read_key, ◌==◌, if◌then◌else◌,
}
use agents_with_chatgpt.Orchestrator.{
  Agent, Step, LaneTask, Blocker, pass_blockers, no_blockers, Verdict, pass, rework, block, AuditId,
  same_id, Audit, RunState, idle, waiting_audit, complete, blocked, Defect, Run, Failure,
  run_missing, invalid_state, owner_mismatch, plan_invalid, scope_mismatch, audit_not_pending,
  audit_claimed, claim_mismatch, result_conflict, stale_audit, pass_rejected, no_selection,
  lane_failed, Disk, Action, save,
}
use agents_with_chatgpt.Catalog.{agent_eq}
use agents_with_chatgpt.Orchestrator.Advance.{Lane, World, lane, resolve_step, step_at, advance}

unfoldable pub owned : Option String → String → Run → Result Failure Run
owned owner id r =
    if not (r.run_id == id)
    then err invalid_state
    else elim owner [ none ↦ ok r | some o ↦ if r.owner_id == o then ok r else err owner_mismatch ]

-- `load`; the version, the workspace and the generation of a stored run are right by its type
unfoldable pub load : Option String → String → Action Run
load owner id d = elim (read_key id d.runs) [
  | none ↦ (err run_missing, d)
  | some r ↦ (owned owner id r, d)
]

unfoldable pub text_list_eq : List String → List String → Bool
text_list_eq [] [] = true
text_list_eq (x ∷ xs) (y ∷ ys) = x == y && text_list_eq xs ys
text_list_eq _ _ = false

unfoldable pub bool_eq : Bool → Bool → Bool
bool_eq true b = b
bool_eq false b = not b

unfoldable pub same_step : Step → Step → Bool
same_step a b =
    a.instruction == b.instruction
    && text_list_eq a.write_scope b.write_scope
    && bool_eq a.network b.network
    && bool_eq a.run_tests b.run_tests
    && agent_eq a.agent b.agent
    && opt_eq a.model b.model
    && opt_eq a.effort b.effort
    && opt_eq a.provider_route b.provider_route
    && opt_eq a.entitlement_plan b.entitlement_plan

-- `JSON.stringify(a) === JSON.stringify(b)` on normalized steps
unfoldable pub same_steps : List Step → List Step → Bool
same_steps [] [] = true
same_steps (x ∷ xs) (y ∷ ys) = same_step x y && same_steps xs ys
same_steps _ _ = false

unfoldable pub resolve_all : World → List Step → Result Defect (Unit {0})
resolve_all w [] = ok tt
resolve_all w (s ∷ ss) = elim (resolve_step w s) [ err x ↦ err x | ok sel ↦ resolve_all w ss ]

abbrev pub new_run : String → String → String → List Step → Run
new_run workspace id owner steps = record {
  run_id = id;
  workspace_id = workspace;
  owner_id = owner;
  generation = 0;
  state = idle;
  paused = false;
  steps = steps;
  step = 0;
  attempt = 1;
  task_id = none;
  resolved = none;
  failure = none;
  audits = [];
}

unfoldable pub created : World → String → String → String → List Step → Option Run → Action Run
created w workspace id owner steps none = do
  r ← save (new_run workspace id owner steps)
  advance w r
created w workspace id owner steps (some old) = do
  r ← load (some owner) id
  if same_steps r.steps steps then pure r else throw scope_mismatch

unfoldable pub create_locked : World → String → String → String → List Step → Action Run
create_locked w workspace id owner steps d =
    created w workspace id owner steps (read_key id d.runs) d

-- `create`, for a plan of 1 to 64 steps, which `validate` accepts
unfoldable pub create : World → String → (Step → Bool) → String → String → List Step → Action Run
create w workspace validate id owner steps = do
  require (leb 1 (length steps) && leb (length steps) 64) plan_invalid
  require (all validate steps) plan_invalid
  elim (resolve_all w steps) [
    | err x ↦ throw (no_selection x)
    | ok u ↦ create_locked w workspace id owner steps
  ]

-- `pause`
unfoldable pub pause : World → String → String → Bool → Action Run
pause w id owner paused = do
  r ← load (some owner) id
  r' ← save (record r { paused = paused })
  advance w r'

unfoldable pub is_waiting : RunState → Bool
is_waiting waiting_audit = true
is_waiting _ = false

unfoldable pub has_id : AuditId → Audit → Bool
has_id k a = same_id a.id k

-- a write to the audit that was found
unfoldable pub update_audit : AuditId → (Audit → Audit) → Run → Run
update_audit k f r = record r { audits = update_first (has_id k) f r.audits }

unfoldable pub claim_found : AuditId → String → Run → Audit → Action Run
claim_found k who r a =
    if is_some a.verdict || not (is_waiting r.state)
    then throw audit_not_pending
    else elim a.claimant [
      | none ↦ save (update_audit k (λ b. record b { claimant = some who }) r)
      | some c ↦ if c == who then pure r else throw audit_claimed
    ]

unfoldable pub claim_in : AuditId → String → Run → Option Audit → Action Run
claim_in k who r none = throw audit_not_pending
claim_in k who r (some a) = claim_found k who r a

-- `claim`, by a claimant with a name
unfoldable pub claim : String → String → AuditId → String → Action Run
claim id owner k who = do r ← load (some owner) id; claim_in k who r (find (has_id k) r.audits)

unfoldable pub verdict_eq : Verdict → Verdict → Bool
verdict_eq pass pass = true
verdict_eq rework rework = true
verdict_eq block block = true
verdict_eq _ _ = false

-- the agent whose lane has the audited task
unfoldable pub agent_of_audit : Run → Audit → Option Agent
agent_of_audit r a = elim a.resolved [
  | some sel ↦ some sel.agent
  | none ↦ elim (step_at a.step r.steps) [ none ↦ none | some s ↦ some s.agent ]
]

unfoldable pub look_again : World → Audit → Option Agent → Result Failure LaneTask
look_again w a none = err (lane_failed none)
look_again w a (some agent) = elim (lane w agent) [
  | none ↦ err (lane_failed none)
  | some l ↦ elim (l.look a.task_id) [ err code ↦ err (lane_failed code) | ok t ↦ ok t ]
]

-- the test of a PASS: what was found when the task ended, and what is found now
unfoldable pub check_pass : World → Run → Audit → Result Failure (Unit {0})
check_pass w r a = elim (look_again w a (agent_of_audit r a)) [
  | err x ↦ err x
  | ok t ↦
      if no_blockers (a.blockers ++ pass_blockers t)
      then ok tt
      else err (pass_rejected (a.blockers ++ pass_blockers t))
]

unfoldable pub check_verdict : World → Run → Audit → Verdict → Result Failure (Unit {0})
check_verdict w r a pass = check_pass w r a
check_verdict w r a _ = ok tt

unfoldable pub go_on : Run → Run
go_on r = record r {
  task_id = none;
  resolved = none;
  state = if nat_eq r.step (length r.steps) then complete else idle;
}

-- the run after a verdict
unfoldable pub decided : Verdict → Run → Run
decided block r = record r { state = blocked }
decided pass r = go_on (record r { step = r.step + 1; attempt = 1 })
decided rework r = go_on (record r { attempt = r.attempt + 1 })

unfoldable pub decide : World → AuditId → Verdict → Option String → Run → Audit → Action Run
decide w k v remark r a = elim (check_verdict w r a v) [
  | err x ↦ throw x
  | ok u ↦ (do
    r' ← save (decided v (update_audit k (λ b. record b { verdict = some v; note = remark }) r))
    advance w r')
]

unfoldable pub judge_found :
    World → AuditId → String → Verdict → Option String → Run → Audit → Action Run
judge_found w k who v remark r a =
    if not (opt_eq a.claimant (some who)) then throw claim_mismatch else elim a.verdict [
      | some old ↦
          if verdict_eq old v && opt_eq a.note remark then pure r else throw result_conflict
      | none ↦
          if not (is_waiting r.state) || not (opt_eq (some a.task_id) r.task_id)
          then throw stale_audit
          else decide w k v remark r a
    ]

unfoldable pub judge :
    World → AuditId → String → Verdict → Option String → Run → Option Audit → Action Run
judge w k who v remark r none = throw claim_mismatch
judge w k who v remark r (some a) = judge_found w k who v remark r a

-- `submitAudit`
unfoldable pub submit_audit :
    World → String → String → AuditId → String → Verdict → Option String → Action Run
submit_audit w id owner k who v remark = do
  r ← load (some owner) id
  judge w k who v remark r (find (has_id k) r.audits)

unfoldable pub recover_one : World → String → Action Run
recover_one w id = do r ← load none id; advance w r

unfoldable pub recover_each : World → List (String × Run) → Disk → Disk
recover_each w [] d = d
recover_each w ((id, r) ∷ rows) d = recover_each w rows (after (recover_one w id) d)

-- `recover`: each run, whatever became of the others
unfoldable pub recover : World → Disk → Disk
recover w d = recover_each w d.runs d
