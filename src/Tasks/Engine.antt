-- ===== src/Tasks/Engine.antt =====
-- z2c/src/core/tasks/engine.ts: the serial dispatcher of each workspace's queue, the run of a task
-- and its cancellation. Each `await` ends a step: what runs between two of them is one step here,
-- and what the awaited call brings is an argument of the next.
pub mod Steps
pub mod Rounds
pub mod Dispatch
pub mod Requests
pub mod Submitting
pub mod Sessions
mod Tests
use agents_with_chatgpt.Prelude.{
  result, after, ℕ, String, Bool, true, false, ◌&&◌, ◌||◌, not, Option, none, some, Result, ok, err,
  Exec, pure, throw, get, put, ◌>>=◌, ◌>>◌, List, [], ◌∷◌, keep, matches, matches_i, is_id, is_some,
  opt_eq, or_else, read_key, write_key, remove_first, includes, trim, slice_to, ◌==◌, if◌then◌else◌,
}
use agents_with_chatgpt.Tasks.Model.{
  Task, TaskStatus, queued, running, completed, failed, cancelled, interrupted, WriteScope,
  workspace, readonly, Binding, Idempotency, EntitlementPlan, is_terminal, is_running,
}
use agents_with_chatgpt.Tasks.Store.{
  Store, State, StoreError, Queue, Output, Action, assert_healthy, find_task, queue_of, update_task,
  set_status, attach_output, get_or_create_queue, save_queue, save_output, admit_task, is_keyed,
}
use agents_with_chatgpt.Attestation.{
  Request, governed_binding, plan_or_default, require_supported_entitlement,
}
use agents_with_chatgpt.Tasks.Idempotency.{RequestFields, request_fields, request_of_task}
use agents_with_chatgpt.Access.Workspaces.{
  Entry, Registry, Paths, WorkspaceError, resolve_authorized,
}
use agents_with_chatgpt.Slot.Lease.{is_idempotency_key, is_native_task_id, is_session_id}

-- What is thrown, by its code, or by where it comes from.
pub data Failure : Type 0 where
  store_failure : StoreError → Failure
  workspace_failure : WorkspaceError → Failure
  provider_failure : String → Failure
  session_busy : String → Failure
  entitlement_unavailable idempotency_invalid invalid_idempotency_key binding_unverified not_found
        workspace_mismatch no_output output_mismatch lost_task invalid_model invalid_thought_level
        invalid_instruction invalid_session idempotency_conflict provider_unavailable queue_full :
      Failure

-- What a step reads from outside: the clock, PRODUCT_TASK_DISPATCH_PAUSED, the workspaces, the
-- runtime's entitlement capability, the hash of a request's fields and the text of an error.
pub record Env : Type 0 where
  pub now : ℕ
  pub dispatch_env : Option String
  pub paths : Paths
  pub registry : Registry
  pub entitlement_selection : Option Bool
  pub hash : RequestFields → String
  pub message : Failure → String

-- Where the dispatcher of one workspace waits: for the evidence on the task's session, for the turn
-- to end, for what a failed turn left, or for `runTask` to settle.
pub data Phase : Type 0 where
  gathering : Task → Phase
  sending : Task → Phase
  failing : Task → Failure → Phase
  ended : String → Option Failure → Phase

-- `dispatching` has the workspaces of `pumps`.
pub record Engine : Type 0 where
  pub store : Store
  pub pumps : List (String × Phase)

abbrev pub Run : Type 0 → Type 0
Run A = Exec Engine Failure A

-- a call of the store
unfoldable pub stored : {A : Type 0} → Action A → Run A
stored m e =
    let (r, s) = m e.store in
    (elim r [ ok a ↦ ok a | err x ↦ err (store_failure x) ], record e { store = s })

abbrev pub phase_of : String → Engine → Option Phase
phase_of w e = read_key w e.pumps

unfoldable pub at_phase : String → Phase → Engine → Engine
at_phase w p e = record e { pumps = write_key w p e.pumps }

-- the `finally` of `pump`
unfoldable pub stop_pump : String → Engine → Engine
stop_pump w e = record e { pumps = keep (λ r. not (r.0 == w)) e.pumps }

-- /^(true|1)$/i
pub dispatch_paused : Option String → Bool
dispatch_paused none = false
dispatch_paused (some v) = matches_i "true" (λ _. false) 0 0 v || matches_i "1" (λ _. false) 0 0 v

pub is_readonly : WriteScope → Bool
is_readonly readonly = true
is_readonly workspace = false

-- what the task asks of its session's binding
pub request_of : Task → Request
request_of t = record {
  model_id = t.requested_model_id;
  thought_level = t.requested_thought_level;
  entitlement_plan = some (plan_or_default t.entitlement_plan);
}

-- `binding?.planEnabled !== true`, negated
pub plan_enabled : Option Binding → Bool
plan_enabled none = false
plan_enabled (some b) = elim b.plan_enabled [ none ↦ false | some on ↦ on ]

session_valid : Option String → Bool
session_valid none = false
session_valid (some s) = is_session_id s

proof_valid : Env → Task → String → Idempotency → Bool
proof_valid env t path proof =
    is_idempotency_key proof.key
    && is_native_task_id t.task_id
    && proof.workspace_path == path
    && session_valid t.zcode_session_id
    && governed_binding t.model_binding (request_of t)
    && not (is_readonly t.write_scope && not (plan_enabled t.model_binding))
    && env.hash (request_fields (request_of_task t)) == proof.fingerprint

-- `validateKeyedAdmission` returns
pub keyed_admission_valid : Env → Task → String → Bool
keyed_admission_valid env t path = elim t.idempotency [
  | none ↦ false
  | some proof ↦ proof_valid env t path proof
]

-- the start of the `try` block of `runTask`
enter_try : Env → Task → Phase
enter_try env t =
    elim (require_supported_entitlement t.entitlement_plan env.entitlement_selection) [
      | ok plan ↦ gathering t
      | err x ↦ failing t entitlement_unavailable
    ]

start_running : Env → Task → Engine → Phase × Engine
start_running env t e =
    let (r, e') = stored (assert_healthy >> set_status env.now t.task_id running none) e in
    elim r [ ok u ↦ (enter_try env t, e') | err x ↦ (ended t.task_id (some x), e') ]

authorized : Env → Task → Entry → Engine → Phase × Engine
authorized env t entry e =
    if is_keyed t && not (keyed_admission_valid env t entry.canonical_path)
    then (ended t.task_id (some idempotency_invalid), e)
    else start_running env t e

run_known : Env → Task → Engine → Phase × Engine
run_known env t e = elim (resolve_authorized env.paths t.workspace_id env.registry) [
  | err x ↦ (ended t.task_id (some (workspace_failure x)), e)
  | ok entry ↦ authorized env t entry e
]

-- `runTask`, up to its first `await`
run_task : Env → String → Engine → Phase × Engine
run_task env id e = elim (find_task id e.store.state) [
  | none ↦ (ended id none, e)
  | some t ↦ run_known env t e
]

dispatch : Env → String → String → Engine → Engine
dispatch env w next e = let (p, e') = run_task env next e in at_phase w p e'

reserved : Env → String → String → Result Failure (Unit {0}) → Engine → Engine
reserved env w next (ok u) e = dispatch env w next e
reserved env w next (err x) e = stop_pump w e

reserve : Env → String → String → Queue → Engine → Engine
reserve env w next q e =
    reserved env w next (result (stored (save_queue w q)) e) (after (stored (save_queue w q)) e)

take_next : Env → String → Queue → List String → Engine → Engine
take_next env w q [] e = stop_pump w e
take_next env w q (next ∷ rest) e =
    if next == ""
    then stop_pump w e
    else reserve env w next (record q { active_task = some next; queued_task_ids = rest }) e

pub is_truthy : Option String → Bool
is_truthy none = false
is_truthy (some s) = not (s == "")

round_at : Env → String → Queue → Engine → Engine
round_at env w q e =
    if q.paused || is_truthy q.active_task
    then stop_pump w e
    else take_next env w q q.queued_task_ids e

-- one round of the loop of `pump`
pub pump_round : Env → String → Engine → Engine
pump_round env w e =
    if e.store.persistence_failed
    then stop_pump w e
    else round_at env w (queue_of w e.store.state) (after (stored (get_or_create_queue w)) e)

-- `kick` and the start of `pump`
pub kick : Env → String → Engine → Engine
kick env w e =
    if dispatch_paused env.dispatch_env || is_some (phase_of w e) then e else pump_round env w e
