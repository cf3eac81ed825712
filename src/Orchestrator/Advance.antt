-- ===== src/Orchestrator/Advance.antt =====
-- src/execution/orchestrator-core.ts: `advance`, which takes a run as far as it goes at the moment.
-- What the hooks and the lanes answer is an argument.
pub mod Sound
use agents_with_chatgpt.Prelude.{
  ℕ, zero, suc, ◌+◌, String, Bool, true, false, ◌&&◌, ◌||◌, not, Option, none, some, Result, ok,
  err, pure, throw, ◌>>=◌, List, [], ◌∷◌, ◌++◌, any, is_some, or_else, includes, ◌==◌,
  if◌then◌else◌,
}
use agents_with_chatgpt.Catalog.Resolution.{text_of}
use agents_with_chatgpt.Orchestrator.{
  Agent, codex, antigravity, zcode, dsh, Selected, Step, LaneStatus, LaneTask, completed, failed,
  cancelled, interrupted, timed_out, queued, running, cancelling, pass_blockers, AuditId, same_id,
  Audit, RunState, idle, dispatched, waiting_audit, complete, blocked, fail, SelectionCode,
  catalog_unavailable, selection_failed, Defect, Run, Failure, no_selection, lane_failed, Disk,
  Action, save,
}

-- `OrchestratorLane`: an error of `submit` has its code, where it has one
pub record Lane : Type 0 where
  pub submit : Step → Selected → AuditId → Result (Option String) LaneTask
  pub look : String → Result (Option String) LaneTask

-- the hooks, the task manager's own execution, and the time
pub record World : Type 0 where
  pub now : String
  pub resolve_selection : Option (Step → Result Defect Selected)
  pub injected : Agent → Option Lane
  pub manager : Agent → Lane
  pub authorizes : String → Bool

unfoldable pub manager_lane : World → Agent → Option Lane
manager_lane w codex = some (w.manager codex)
manager_lane w antigravity = some (w.manager antigravity)
manager_lane w _ = none

-- `lane`; none where it throws
unfoldable pub lane : World → Agent → Option Lane
lane w a = elim (w.injected a) [ some l ↦ some l | none ↦ manager_lane w a ]

-- the request as it is, where there is no resolver
unfoldable pub request_as_is : String → Step → Selected
request_as_is now s = record {
  agent = s.agent;
  provider_id = s.provider_route;
  model_id = or_else s.model "";
  effort = text_of s.effort;
  catalog_revision = none;
  resolved_at = now;
}

-- `resolveStep`
unfoldable pub resolve_step : World → Step → Result Defect Selected
resolve_step w s = elim w.resolve_selection [
  | none ↦ ok (request_as_is w.now s)
  | some resolve ↦ resolve s
]

unfoldable pub step_at : ℕ → List Step → Option Step
step_at n [] = none
step_at zero (s ∷ ss) = some s
step_at (suc n) (s ∷ ss) = step_at n ss

unfoldable pub current_step : Run → Option Step
current_step r = step_at r.step r.steps

unfoldable pub current_id : Run → AuditId
current_id r = record { run = r.run_id; step = r.step; attempt = r.attempt }

unfoldable pub is_over : LaneStatus → Bool
is_over completed = true
is_over failed = true
is_over cancelled = true
is_over interrupted = true
is_over timed_out = true
is_over _ = false

abbrev pub new_audit : LaneTask → Run → Audit
new_audit t r = record {
  id = current_id r;
  sequence = r.generation + 1;
  task_id = t.task_id;
  step = r.step;
  attempt = r.attempt;
  output_ids = t.output_ids;
  terminal_status = t.status;
  blockers = pass_blockers t;
  resolved = r.resolved;
  claimant = none;
  verdict = none;
  note = none;
}

unfoldable pub with_audit : LaneTask → Run → Run
with_audit t r = record r {
  state = waiting_audit;
  audits =
      if any (λ a. same_id a.id (current_id r)) r.audits
      then r.audits
      else r.audits ++ new_audit t r ∷ [];
}

unfoldable pub is_task_running : LaneStatus → Bool
is_task_running running = true
is_task_running _ = false

unfoldable pub is_run_running : RunState → Bool
is_run_running running = true
is_run_running _ = false

unfoldable pub observed : Run → LaneTask → Action Run
observed r t =
    if is_over t.status
    then save (with_audit t r)
    else if is_task_running t.status && not (is_run_running r.state)
    then save (record r { state = running })
    else pure r

unfoldable pub look_in : Run → String → Option Lane → Action Run
look_in r id none = throw (lane_failed none)
look_in r id (some l) = elim (l.look id) [
  | err code ↦ throw (lane_failed code)
  | ok t ↦ observed r t
]

-- the agent that the attempt runs with, or that its step asks for
unfoldable pub agent_of : Run → Option Agent
agent_of r = elim r.resolved [
  | some sel ↦ some sel.agent
  | none ↦ elim (current_step r) [ none ↦ none | some s ↦ some s.agent ]
]

-- the end of `advance`
unfoldable pub observe : World → Run → String → Action Run
observe w r id = elim (agent_of r) [
  | none ↦ throw (lane_failed none)
  | some a ↦ look_in r id (lane w a)
]

abbrev retryable : List String
retryable =
    "QUEUE_FULL" ∷ "WORKSPACE_SLOT_BUSY" ∷ "CODEX_UNAVAILABLE" ∷ "TASK_IN_PROGRESS"
    ∷ "ZCODE_NATIVE_UNAVAILABLE" ∷ "ZCODE_NATIVE_TIMEOUT" ∷ []

unfoldable pub is_final : Option String → Bool
is_final none = false
is_final (some code) = not (code == "") && not (includes code retryable)

unfoldable pub submitted : World → Run → Result (Option String) LaneTask → Action Run
submitted w r (err code) =
    if is_final code then save (record r { state = fail }) else throw (lane_failed code)
submitted w r (ok t) = do r' ← save (record r { task_id = some t.task_id }); observe w r' t.task_id

-- the dispatch is noted before the lane is asked
unfoldable pub note_dispatch : AuditId → Disk → Disk
note_dispatch k d = record d { dispatches = k ∷ d.dispatches }

unfoldable pub submit_in : World → Run → Step → Selected → Option Lane → Action Run
submit_in w r s sel none d = (err (lane_failed none), d)
submit_in w r s sel (some l) d =
    submitted w r (l.submit s sel (current_id r)) (note_dispatch (current_id r) d)

unfoldable pub submit_step : World → Run → Selected → Option Step → Action Run
submit_step w r sel none = throw (lane_failed none)
submit_step w r sel (some s) = submit_in w r s sel (lane w sel.agent)

unfoldable pub submit : World → Run → Selected → Action Run
submit w r sel = submit_step w r sel (current_step r)

unfoldable pub is_unavailable : SelectionCode → Bool
is_unavailable catalog_unavailable = true
is_unavailable _ = false

unfoldable pub failed_selection : Run → Defect → Action Run
failed_selection r x =
    if is_unavailable x.code
    then throw (no_selection x)
    else save (record r { state = fail; failure = some x })

abbrev no_step : Defect
no_step = record { code = selection_failed; candidates = [] }

unfoldable pub selected : World → Run → Result Defect Selected → Action Run
selected w r (err x) = failed_selection r x
selected w r (ok sel) = do
  r' ← save (record r { state = dispatched; resolved = some sel; failure = none })
  submit w r' sel

unfoldable pub select : World → Run → Option Step → Action Run
select w r none = failed_selection r no_step
select w r (some s) = selected w r (resolve_step w s)

unfoldable pub is_dispatched : RunState → Bool
is_dispatched dispatched = true
is_dispatched _ = false

unfoldable pub select_or_submit : World → Run → Option Selected → Action Run
select_or_submit w r none = select w r (current_step r)
select_or_submit w r (some sel) =
    if is_dispatched r.state then submit w r sel else select w r (current_step r)

-- `advance` with no task yet
unfoldable pub dispatch : World → Run → Action Run
dispatch w r =
    if r.paused
    then pure r
    else if not (w.authorizes r.owner_id)
    then save (record r { state = blocked })
    else select_or_submit w r r.resolved

unfoldable pub at_rest : RunState → Bool
at_rest complete = true
at_rest blocked = true
at_rest fail = true
at_rest waiting_audit = true
at_rest _ = false

unfoldable pub advance : World → Run → Action Run
advance w r = if at_rest r.state then pure r else elim r.task_id [
  | none ↦ dispatch w r
  | some id ↦ if id == "" then dispatch w r else observe w r id
]
