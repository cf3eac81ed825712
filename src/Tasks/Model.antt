-- ===== src/Tasks/Model.antt =====
-- z2c/src/core/tasks/model.ts and z2c/src/providers/entitlement.ts: tasks, their states and the
-- evidence that they carry.
use agents_with_chatgpt.Prelude.{ℕ, String, Bool, true, false, Option, List}

pub data TaskStatus : Type 0 where
  queued running completed failed cancelled interrupted : TaskStatus

-- TERMINAL_STATES
unfoldable pub is_terminal : TaskStatus → Bool
is_terminal queued = false
is_terminal running = false
is_terminal _ = true

unfoldable pub is_queued : TaskStatus → Bool
is_queued queued = true
is_queued _ = false

unfoldable pub is_running : TaskStatus → Bool
is_running running = true
is_running _ = false

pub data EntitlementPlan : Type 0 where
  default start individual : EntitlementPlan

pub data WriteScope : Type 0 where
  workspace readonly : WriteScope

pub data Mode : Type 0 where
  plan build edit : Mode

pub record AvailableModel : Type 0 where
  pub provider_id : Option String
  pub model_id : String

pub record EntitlementReadback : Type 0 where
  pub observed : Option String
  pub source : String

-- `modelBinding`: what was observed of the exact session
pub record Binding : Type 0 where
  pub provider_id : String
  pub model_id : String
  pub source : String
  pub thought_level : Option String
  pub plan_enabled : Option Bool
  pub available_models : Option (List AvailableModel)
  pub entitlement : Option EntitlementReadback

pub record Idempotency : Type 0 where
  pub key : String
  pub fingerprint : String
  pub workspace_path : String

pub record Task : Type 0 where
  pub entitlement_plan : Option EntitlementPlan
  pub idempotency : Option Idempotency
  pub task_id : String
  pub workspace_id : String
  pub zcode_session_id : Option String
  pub status : TaskStatus
  pub instruction : String
  pub write_scope : WriteScope
  pub mode : Mode
  pub created_at : ℕ
  pub started_at : Option ℕ
  pub completed_at : Option ℕ
  pub exit_status : Option String
  pub output_id : Option String
  pub resume_of_session_id : Option String
  pub requested_model_id : Option String
  pub requested_thought_level : Option String
  pub model_binding : Option Binding
