-- ===== src/Tasks/Engine/Submitting.antt =====
-- z2c/src/core/tasks/engine.ts: `submitTask`. Submissions to one workspace wait for one another, so
-- it is one at a time here; between its awaits the engine may take any other step.
pub mod Admitted
pub mod Replaying
pub mod Accepting
pub mod Resubmitting
pub mod Promises
mod Tests
use agents_with_chatgpt.Prelude.{
  ℕ, ◌+◌, String, Bool, true, false, ◌&&◌, ◌||◌, not, Option, none, some, Result, ok, err, pure,
  throw, get, put, require, ◌>>=◌, ◌>>◌, List, [], ◌∷◌, all, keep, length, ltb, leb, nat_eq, opt_eq,
  codes, is_alnum, matches_head, is_some, opt_holds, text_length, trim, ◌==◌, if◌then◌else◌,
}
use agents_with_chatgpt.Tasks.Model.{
  Task, queued, WriteScope, workspace, readonly, Binding, Idempotency, EntitlementPlan,
}
use agents_with_chatgpt.Tasks.Idempotency.{
  SubmitInput, RequestFields, scope_of, mode_of, request_fields, request_of_task,
}
use agents_with_chatgpt.Tasks.Store.{
  Queue, assert_healthy, queue_of, get_or_create_queue, admit_task,
}
use agents_with_chatgpt.Attestation.{
  Request, governed_binding, is_admissible_observed_binding, plan_or_default, request_met,
  require_supported_entitlement,
}
use agents_with_chatgpt.Access.Workspaces.{Entry, resolve_authorized}
use agents_with_chatgpt.Slot.Lease.{is_idempotency_key, is_session_id}
use agents_with_chatgpt.Tasks.Engine.{
  Failure, workspace_failure, provider_failure, session_busy, entitlement_unavailable,
  idempotency_invalid, invalid_idempotency_key, binding_unverified, workspace_mismatch,
  invalid_model, invalid_thought_level, invalid_instruction, invalid_session, idempotency_conflict,
  provider_unavailable, queue_full, Env, Engine, Run, stored, phase_of, plan_enabled, is_readonly,
  keyed_admission_valid, is_truthy, kick,
}
use agents_with_chatgpt.Tasks.Engine.Requests.{resolved, has_key, only}

-- `cfg`, as far as it is asked
pub record Config : Type 0 where
  pub max_instruction_chars : ℕ
  pub max_queued_per_workspace : ℕ

-- [A-Za-z0-9._-]
is_model_char : ℕ → Bool
is_model_char n = is_alnum n || nat_eq n 46 || nat_eq n 95 || nat_eq n 45

-- [a-z0-9_-]
is_level_char : ℕ → Bool
is_level_char n = (leb 97 n && leb n 122) || (leb 48 n && leb n 57) || nat_eq n 95 || nat_eq n 45

is_model : String → Bool
is_model s = matches_head is_alnum is_model_char 63 s

is_level : String → Bool
is_level s = all is_level_char (codes s) && leb 1 (length (codes s)) && leb (length (codes s)) 20

-- what the first part of `submitTask` makes of a request
pub record Accepted : Type 0 where
  pub input : SubmitInput
  pub workspace_id : String
  pub instruction : String
  pub path : String

pub given_instruction : SubmitInput → String
given_instruction i = if is_truthy i.idempotency_key then i.instruction else trim i.instruction

abbrev check_that : {A : Type 0} → Bool → Failure → Result Failure A → Result Failure A
check_that b x r = if b then r else err x

check_texts : Config → SubmitInput → Entry → Result Failure Accepted
check_texts cfg i entry =
    let text = given_instruction i in
    check_that (not (trim text == "")) invalid_instruction (
      check_that (leb (text_length text) cfg.max_instruction_chars) invalid_instruction (
        check_that
          (not (is_truthy i.resume_session_id) || opt_holds is_session_id i.resume_session_id)
          invalid_session
          (ok (record {
            input = i;
            workspace_id = entry.workspace_id;
            instruction = text;
            path = entry.canonical_path;
          }))))

pub supported : Env → Option EntitlementPlan → Bool
supported env p = elim (require_supported_entitlement p env.entitlement_selection) [
  | ok plan ↦ true
  | err x ↦ false
]

check_workspace : Config → Env → SubmitInput → Result Failure Accepted
check_workspace cfg env i = elim (resolve_authorized env.paths i.workspace_id env.registry) [
  | err x ↦ err (workspace_failure x)
  | ok entry ↦
      check_that (supported env i.entitlement_plan) entitlement_unavailable
        (check_texts cfg i entry)
]

-- `submitTask`, up to its wait for other submissions
pub check_input : Config → Env → SubmitInput → Result Failure Accepted
check_input cfg env i =
    check_that (opt_holds is_idempotency_key i.idempotency_key) invalid_idempotency_key (
      check_that (opt_holds is_model i.model_id) invalid_model (
        check_that (opt_holds is_level i.thought_level) invalid_thought_level
          (check_workspace cfg env i)))

-- What a submission waits for, and how it ends.
pub data Stage : Type 0 where
  reprobing checking_prior opening : Stage
  observing : String → Stage
  replayed admitted : Task → Stage

-- `this.workspaces.resolveAuthorized(workspaceId).canonicalPath !== workspace.canonicalPath`, thrown
pub same_workspace : Env → Accepted → Run (Unit {0})
same_workspace env a = do
  entry ← resolved env a.workspace_id
  require (entry.canonical_path == a.path) workspace_mismatch

pub request_hash : Env → Accepted → String
request_hash env a = env.hash (request_fields a.input)

pub bound_to : Env → Accepted → Task → Bool
bound_to env a t = elim t.idempotency [
  | none ↦ false
  | some p ↦ p.fingerprint == request_hash env a && p.workspace_path == a.path
]

replay : Env → Accepted → Task → Result Failure Stage
replay env a t =
    check_that (bound_to env a t) idempotency_conflict
      (check_that (keyed_admission_valid env t a.path) idempotency_invalid (ok (replayed t)))

-- the task that has the request's key, if it has a key
pub keyed_task : Accepted → Engine → Result Failure (Option Task)
keyed_task a e = elim a.input.idempotency_key [
  | none ↦ ok none
  | some key ↦ only (keep (has_key a.workspace_id key) e.store.state.tasks)
]

pub load_of : Queue → ℕ
load_of q = (if is_truthy q.active_task then 1 else 0) + length q.queued_task_ids

-- the test of an instruction that may not wait
pub at_once : Accepted → Engine → Bool
at_once a e =
    let q = queue_of a.workspace_id e.store.state in
    not a.input.immediate
    || not (
        q.paused
        || is_truthy q.active_task
        || not (nat_eq (length q.queued_task_ids) 0)
        || is_some (phase_of a.workspace_id e))

prior_supported : Env → Accepted → Engine → Bool
prior_supported env a e =
    all (λ t. supported env t.entitlement_plan)
      (keep (λ t. opt_eq t.zcode_session_id a.input.resume_session_id) e.store.state.tasks)

wait_for : Env → Accepted → Engine → Result Failure Stage
wait_for env a e =
    if is_truthy a.input.resume_session_id
    then check_that (prior_supported env a e) entitlement_unavailable (ok checking_prior)
    else ok opening

-- from the test of the provider's health to the next wait
pub gate : Config → Env → Accepted → Bool → Run Stage
gate cfg env a healthy = do
  require healthy provider_unavailable
  q ← stored (get_or_create_queue a.workspace_id)
  e ← get
  require (at_once a e) (session_busy "paused or busy")
  require (ltb (load_of q) cfg.max_queued_per_workspace) queue_full
  elim (wait_for env a e) [ ok s ↦ pure s | err x ↦ throw x ]

pub data Health : Type 0 where
  healthy unreachable unhealthy : Health

is_healthy : Health → Bool
is_healthy healthy = true
is_healthy _ = false

unkeyed : Config → Env → Accepted → Health → Run Stage
unkeyed cfg env a unreachable = pure reprobing
unkeyed cfg env a h = gate cfg env a (is_healthy h)

pub found : Config → Env → Accepted → Health → Result Failure (Option Task) → Run Stage
found cfg env a h (err x) = throw x
found cfg env a h (ok none) = unkeyed cfg env a h
found cfg env a h (ok (some t)) = elim (replay env a t) [ ok s ↦ pure s | err x ↦ throw x ]

-- the start of the part that submissions do one after another
pub enter : Config → Env → Accepted → Health → Run Stage
enter cfg env a h = do
  stored assert_healthy
  same_workspace env a
  e ← get
  found cfg env a h (keyed_task a e)

-- `submitTask`, up to its first wait in that part
pub submit_task : Config → Env → SubmitInput → Health → Run Stage
submit_task cfg env i h = elim (check_input cfg env i) [
  | err x ↦ throw x
  | ok a ↦ enter cfg env a h
]

-- the resumed session is as the caller asks, on the evidence read before anything is changed
prior_met : Accepted → Option Binding → Bool
prior_met a none = false
prior_met a (some b) =
    is_admissible_observed_binding (some b)
    && request_met a.input.model_id (some b.model_id)
    && request_met a.input.thought_level b.thought_level

-- after the evidence on a session that is to be resumed
pub prior_seen : Accepted → Result Failure (Option Binding) → Result Failure Stage
prior_seen a (err x) = err x
prior_seen a (ok b) = check_that (prior_met a b) binding_unverified (ok opening)

-- after the provider resumed the session or made one, whose id it gives
pub opened : Accepted → Result Failure String → Result Failure Stage
opened a (err x) = err x
opened a (ok id) = elim a.input.resume_session_id [
  | none ↦ ok (observing id)
  | some r ↦ ok (observing (if r == "" then id else r))
]

pub request_made : Accepted → Request
request_made a = record {
  model_id = a.input.model_id;
  thought_level = a.input.thought_level;
  entitlement_plan = some (plan_or_default a.input.entitlement_plan);
}

proof_of : Env → Accepted → String → Option Idempotency
proof_of env a key =
    if key == ""
    then none
    else some (record { key = key; fingerprint = request_hash env a; workspace_path = a.path })

-- the new task, of a session with this evidence
pub new_task : Env → Accepted → String → String → Option Binding → Task
new_task env a id session b = record {
  entitlement_plan = some (plan_or_default a.input.entitlement_plan);
  idempotency = elim a.input.idempotency_key [ none ↦ none | some key ↦ proof_of env a key ];
  task_id = id;
  workspace_id = a.workspace_id;
  zcode_session_id = some session;
  status = queued;
  instruction = a.instruction;
  write_scope = scope_of a.input.write_scope;
  mode = mode_of a.input.mode;
  created_at = env.now;
  started_at = none;
  completed_at = none;
  exit_status = none;
  output_id = none;
  resume_of_session_id = a.input.resume_session_id;
  requested_model_id = a.input.model_id;
  requested_thought_level = a.input.thought_level;
  model_binding = b;
}

admit : Env → Accepted → Task → Run Stage
admit env a t = do
  same_workspace env a
  stored (admit_task t)
  e ← get
  put (kick env a.workspace_id e)
  pure (admitted t)

admit_unless_busy : Env → Accepted → Task → Run Stage
admit_unless_busy env a t = do
  e ← get
  require (at_once a e) (session_busy "became paused or busy")
  admit env a t

-- the rest of `submitTask`, on the evidence on its session
pub observed : Env → Accepted → String → String → Result Failure (Option Binding) → Run Stage
observed env a id session (err x) = throw x
observed env a id session (ok b) = do
  require (governed_binding b (request_made a)) binding_unverified
  require (not (is_readonly (scope_of a.input.write_scope)) || plan_enabled b) binding_unverified
  admit_unless_busy env a (new_task env a id session b)
