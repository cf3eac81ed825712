-- ===== src/Orchestrator.antt =====
-- src/execution/orchestrator-core.ts: a plan of steps, each run by an agent and audited before the
-- next one starts. A run is stored as one record; every save replaces it whole or throws.
pub mod Selection
pub mod Sound
pub mod Audits
pub mod Advance
pub mod Operations
pub mod Calls
pub mod Tests
use agents_with_chatgpt.Prelude.{
  ℕ, ◌+◌, ◌-◌, String, Bool, true, false, ◌&&◌, ◌||◌, not, Option, none, some, Exec, ok, err, List,
  [], ◌∷◌, ◌++◌, map, any, is_some, nat_eq, opt_eq, read_key, write_key, ◌==◌, if◌then◌else◌,
}
pub use agents_with_chatgpt.Catalog.{Agent, codex, antigravity, zcode, dsh, Candidate, Text}

-- `ResolvedStepSelection`
pub record Selected : Type 0 where
  pub agent : Agent
  pub provider_id : Option String
  pub model_id : String
  pub effort : Option Text
  pub catalog_revision : Option String
  pub resolved_at : String

-- `Step`
pub record Step : Type 0 where
  pub instruction : String
  pub write_scope : List String
  pub network : Bool
  pub run_tests : Bool
  pub agent : Agent
  pub model : Option String
  pub effort : Option String
  pub provider_route : Option String
  pub entitlement_plan : Option String

-- the status of a lane's task
pub data LaneStatus : Type 0 where
  queued running cancelling completed failed cancelled interrupted timed_out : LaneStatus

-- `task.verification`: whether its status is "passed", and its exit code, none for null
pub record Verification : Type 0 where
  pub passed : Bool
  pub exit_code : Option ℕ

-- `OrchestratorLaneTaskView`; of the error, whether there is one
pub record LaneTask : Type 0 where
  pub task_id : String
  pub status : LaneStatus
  pub output_ids : List String
  pub has_error : Bool
  pub verification : Option Verification
  pub commands : List (Option ℕ)

pub data Blocker : Type 0 where
  terminal : LaneStatus → Blocker
  task_error task_verification : Blocker
  command : ℕ → ℕ → Blocker

unfoldable pub is_completed : LaneStatus → Bool
is_completed completed = true
is_completed _ = false

unfoldable pub is_zero : Option ℕ → Bool
is_zero none = false
is_zero (some n) = nat_eq n 0

unfoldable pub verified : Option Verification → Bool
verified none = true
verified (some v) = v.passed && is_zero v.exit_code

unfoldable pub command_blockers : ℕ → List (Option ℕ) → List Blocker
command_blockers i [] = []
command_blockers i (none ∷ cs) = command_blockers (i + 1) cs
command_blockers i (some n ∷ cs) =
    let rest = command_blockers (i + 1) cs in if nat_eq n 0 then rest else command i n ∷ rest

abbrev when : Bool → Blocker → List Blocker
when b x = if b then x ∷ [] else []

-- `passBlockers`
unfoldable pub pass_blockers : LaneTask → List Blocker
pass_blockers t =
    when (not (is_completed t.status)) (terminal t.status)
    ++ (when t.has_error task_error
        ++ (when (not (verified t.verification)) task_verification
            ++ command_blockers 0 t.commands))

-- `blockers.length === 0`
unfoldable pub no_blockers : List Blocker → Bool
no_blockers [] = true
no_blockers (x ∷ xs) = false

pub data Verdict : Type 0 where
  pass rework block : Verdict

-- `${runId}:${step}:${attempt}`; a run id has no colon
pub record AuditId : Type 0 where
  pub run : String
  pub step : ℕ
  pub attempt : ℕ

unfoldable pub same_id : AuditId → AuditId → Bool
same_id a b = a.run == b.run && nat_eq a.step b.step && nat_eq a.attempt b.attempt

pub record Audit : Type 0 where
  pub id : AuditId
  pub sequence : ℕ
  pub task_id : String
  pub step : ℕ
  pub attempt : ℕ
  pub output_ids : List String
  pub terminal_status : LaneStatus
  pub blockers : List Blocker
  pub resolved : Option Selected
  pub claimant : Option String
  pub verdict : Option Verdict
  pub note : Option String

pub data RunState : Type 0 where
  idle dispatched running waiting_audit complete blocked fail : RunState

pub data SelectionCode : Type 0 where
  ambiguous_model model_not_found unsupported_effort agent_unknown catalog_unavailable
        route_mismatch selection_failed :
      SelectionCode

-- `failure`, without its message
pub record Defect : Type 0 where
  pub code : SelectionCode
  pub candidates : List Candidate

-- `OrchestratorRun`
pub record Run : Type 0 where
  pub run_id : String
  pub workspace_id : String
  pub owner_id : String
  pub generation : ℕ
  pub state : RunState
  pub paused : Bool
  pub steps : List Step
  pub step : ℕ
  pub attempt : ℕ
  pub task_id : Option String
  pub resolved : Option Selected
  pub failure : Option Defect
  pub audits : List Audit

-- What is thrown. A lane's error has its code, where it has one.
pub data Failure : Type 0 where
  write_failed run_missing invalid_state owner_mismatch plan_invalid scope_mismatch
        audit_not_pending audit_claimed claim_mismatch result_conflict stale_audit :
      Failure
  pass_rejected : List Blocker → Failure
  no_selection : Defect → Failure
  lane_failed : Option String → Failure

-- The files of the runs, the dispatches that lanes were asked for, the newest first, and how many
-- more saves go through: with none left, the next one throws, or the process has died before it.
pub record Disk : Type 0 where
  pub runs : List (String × Run)
  pub dispatches : List AuditId
  pub saves_left : ℕ

abbrev pub Action : Type 0 → Type 0
Action A = Exec Disk Failure A

unfoldable pub stored : Run → Disk → Disk
stored r d = record d { runs = write_key r.run_id r d.runs; saves_left = d.saves_left - 1 }

unfoldable pub next_generation : Run → Run
next_generation r = record r { generation = r.generation + 1 }

-- `save`, with the run that it has written to
unfoldable pub save : Run → Action Run
save r d =
    if nat_eq d.saves_left 0
    then (err write_failed, d)
    else (ok (next_generation r), stored (next_generation r) d)
