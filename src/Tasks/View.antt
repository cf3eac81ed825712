-- ===== src/Tasks/View.antt =====
-- z2c/src/core/tasks/model.ts: what callers see of a task, `publicView`.
use mathlib.Core.Path.{subst}
use agents_with_chatgpt.Prelude.{
  ℕ, ◌≡◌, ◌≢◌, ◌↔◌, refl, sym, String, Bool, false, Option, none, some, nat_eq, opt_eq, opt_eq_iff,
  if◌then◌else◌, arith,
}
use agents_with_chatgpt.Tasks.Model.{
  Task, TaskStatus, Binding, Idempotency, EntitlementPlan, EntitlementReadback, default, start,
  individual,
}
use agents_with_chatgpt.Attestation.{entitlement_access_mode, plan_or_default}

-- EntitlementAttestation
pub record Attested : Type 0 where
  pub requested : Option EntitlementPlan
  pub observed : Option EntitlementPlan
  pub access_mode : Option String
  pub source : String

-- `unobservedEntitlement`
unobserved_entitlement : Option EntitlementPlan → Attested
unobserved_entitlement value = record {
  requested = value;
  observed = none;
  access_mode = none;
  source = "unavailable";
}

plan_of_mode : Option String → Option EntitlementPlan
plan_of_mode mode =
    if opt_eq mode (some "start-plan")
    then some start
    else if opt_eq mode (some "individual-coding-plan")
    then some individual
    else none

attested : Option EntitlementPlan → Option EntitlementReadback → Attested
attested value none = unobserved_entitlement value
attested value (some r) = record {
  requested = some (plan_or_default value);
  observed = plan_of_mode r.observed;
  access_mode = r.observed;
  source = r.source;
}

readback_of : Option Binding → Option EntitlementReadback
readback_of none = none
readback_of (some b) = b.entitlement

pub record BindingView : Type 0 where
  pub provider_id : String
  pub model_id : String
  pub source : String
  pub thought_level : Option String

pub record KeyView : Type 0 where
  pub protocol : String
  pub key : String
  pub request_fingerprint : String
  pub replayed : Bool

-- PublicTaskView
pub record TaskView : Type 0 where
  pub idempotency : Option KeyView
  pub task_id : String
  pub entitlement : Attested
  pub session_id : Option String
  pub workspace_id : String
  pub status : TaskStatus
  pub created_at : String
  pub started_at : Option String
  pub completed_at : Option String
  pub exit_status : Option String
  pub output_id : Option String
  pub model_binding : Option BindingView
  pub requested_model_id : Option String
  pub requested_thought_level : Option String

key_view : Option Idempotency → Option KeyView
key_view none = none
key_view (some p) = some (record {
  protocol = "workspace-task-v1";
  key = p.key;
  request_fingerprint = p.fingerprint;
  replayed = false;
})

binding_view : Option Binding → Option BindingView
binding_view none = none
binding_view (some b) = some (record {
  provider_id = b.provider_id;
  model_id = b.model_id;
  source = b.source;
  thought_level = b.thought_level;
})

-- a time that is missing or zero is not shown
time_view : (ℕ → String) → Option ℕ → Option String
time_view to_iso_string none = none
time_view to_iso_string (some n) = if nat_eq n 0 then none else some (to_iso_string n)

-- `publicView`, with `toISOString` of a time
pub public_view : (ℕ → String) → Task → TaskView
public_view to_iso_string t = record {
  idempotency = key_view t.idempotency;
  task_id = t.task_id;
  entitlement = attested t.entitlement_plan (readback_of t.model_binding);
  session_id = t.zcode_session_id;
  workspace_id = t.workspace_id;
  status = t.status;
  created_at = to_iso_string t.created_at;
  started_at = time_view to_iso_string t.started_at;
  completed_at = time_view to_iso_string t.completed_at;
  exit_status = t.exit_status;
  output_id = t.output_id;
  model_binding = binding_view t.model_binding;
  requested_model_id = t.requested_model_id;
  requested_thought_level = t.requested_thought_level;
}

plan_of_mode_iff :
    (mode : Option String) (p : EntitlementPlan)
    → (plan_of_mode mode ≡ some p)
      ↔ ((entitlement_access_mode p ≢ none) × (mode ≡ entitlement_access_mode p))
unfolding plan_of_mode entitlement_access_mode
plan_of_mode_iff mode default =
    ground
      (arith, opt_eq_iff mode (some "start-plan"), opt_eq_iff mode (some "individual-coding-plan"))
plan_of_mode_iff mode start =
    ground
      (arith, opt_eq_iff mode (some "start-plan"), opt_eq_iff mode (some "individual-coding-plan"))
plan_of_mode_iff mode individual =
    ground
      (arith, opt_eq_iff mode (some "start-plan"), opt_eq_iff mode (some "individual-coding-plan"))

attested_iff :
    (value : Option EntitlementPlan) (found : Option EntitlementReadback) (p : EntitlementPlan)
    → ((attested value found).observed ≡ some p) ↔ (
        (r : EntitlementReadback) × (found ≡ some r)
        × (entitlement_access_mode p ≢ none)
        × (r.observed ≡ entitlement_access_mode p))
unfolding attested unobserved_entitlement
attested_iff value none p = (λ h. absurd (cc), λ h. absurd (cc))
attested_iff value (some r) p = (
  λ h. let (named, same) = (plan_of_mode_iff r.observed p).0 h in (r, refl, named, same),
  λ (q, at, named, same).
      subst (λ o. (attested value o).observed ≡ some p) (sym at)
        ((plan_of_mode_iff q.observed p).1 (named, same)),
)

found_iff :
    (found : Option Binding) (r : EntitlementReadback)
    → (readback_of found ≡ some r) ↔ ((b : Binding) × (found ≡ some b) × (b.entitlement ≡ some r))
unfolding readback_of
found_iff none r = (λ h. absurd (cc), λ h. absurd (cc))
found_iff (some b) r =
    (λ h. (b, refl, h), λ (c, at, h). subst (λ o. readback_of o ≡ some r) (sym at) h)

-- A view names a plan as observed exactly where the session's evidence was read back with the access
-- mode of that plan; the default plan, which has none, is never named as observed.
pub public_view-observed_iff :
    (to_iso_string : ℕ → String) (t : Task) (p : EntitlementPlan)
    → ((public_view to_iso_string t).entitlement.observed ≡ some p) ↔ (
        (b : Binding) × (r : EntitlementReadback) × (t.model_binding ≡ some b)
        × (b.entitlement ≡ some r)
        × (entitlement_access_mode p ≢ none)
        × (r.observed ≡ entitlement_access_mode p))
unfolding public_view
public_view-observed_iff to_iso_string t p =
    let a = attested_iff t.entitlement_plan (readback_of t.model_binding) p in
    (
      λ h.
          let (r, found, named, same) = a.0 h in
          let (b, at, kept) = (found_iff t.model_binding r).0 found in
          (b, r, at, kept, named, same),
      λ (b, r, at, kept, named, same).
          a.1 (r, (found_iff t.model_binding r).1 (b, at, kept), named, same),
    )
