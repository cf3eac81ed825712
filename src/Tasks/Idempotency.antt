-- ===== src/Tasks/Idempotency.antt =====
-- z2c/src/core/tasks/idempotency.ts: the fields that the fingerprint of a request is made of. The
-- hash of their JSON text is an argument where it is used. The network is always "default".
use agents_with_chatgpt.Prelude.{String, Bool, false, Option, none, some, if◌then◌else◌}
use agents_with_chatgpt.Tasks.Model.{Task, WriteScope, workspace, Mode, build, EntitlementPlan}
use agents_with_chatgpt.Attestation.{plan_or_default, is_default}

-- `SubmitTaskInput`
pub record SubmitInput : Type 0 where
  pub entitlement_plan : Option EntitlementPlan
  pub idempotency_key : Option String
  pub workspace_id : String
  pub instruction : String
  pub write_scope : Option WriteScope
  pub mode : Option Mode
  pub resume_session_id : Option String
  pub immediate : Bool
  pub model_id : Option String
  pub thought_level : Option String

pub record RequestFields : Type 0 where
  pub workspace_id : String
  pub instruction : String
  pub write_scope : WriteScope
  pub mode : Mode
  pub resume_session_id : Option String
  pub model_id : Option String
  pub thought_level : Option String
  pub plan : Option EntitlementPlan

abbrev pub scope_of : Option WriteScope → WriteScope
scope_of none = workspace
scope_of (some s) = s

abbrev pub mode_of : Option Mode → Mode
mode_of none = build
mode_of (some m) = m

-- `entitlementFingerprintFields`
unfoldable pub plan_field : Option EntitlementPlan → Option EntitlementPlan
plan_field p = if is_default (plan_or_default p) then none else some (plan_or_default p)

-- `requestFingerprint`, up to the hash
unfoldable pub request_fields : SubmitInput → RequestFields
request_fields i = record {
  workspace_id = i.workspace_id;
  instruction = i.instruction;
  write_scope = scope_of i.write_scope;
  mode = mode_of i.mode;
  resume_session_id = i.resume_session_id;
  model_id = i.model_id;
  thought_level = i.thought_level;
  plan = plan_field i.entitlement_plan;
}

-- what `validateKeyedAdmission` makes the fingerprint of a stored task from
unfoldable pub request_of_task : Task → SubmitInput
request_of_task t = record {
  entitlement_plan = t.entitlement_plan;
  idempotency_key = none;
  workspace_id = t.workspace_id;
  instruction = t.instruction;
  write_scope = some t.write_scope;
  mode = some t.mode;
  resume_session_id = t.resume_of_session_id;
  immediate = false;
  model_id = t.requested_model_id;
  thought_level = t.requested_thought_level;
}
