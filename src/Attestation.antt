-- ===== src/Attestation.antt =====
-- z2c/src/authz/attestation.ts, z2c/src/providers/entitlement.ts and the sets of
-- z2c/src/providers/types.ts: which observed session binding may execute governed work.
pub mod Admissible
mod Tests
use agents_with_chatgpt.Prelude.{
  String, Bool, true, false, ◌&&◌, ◌||◌, not, Option, none, some, List, [], ◌∷◌, any, is_some,
  opt_eq, includes, Exec, Result, ok, err, ◌==◌, if◌then◌else◌,
}
use agents_with_chatgpt.Tasks.Model.{
  Binding, AvailableModel, EntitlementReadback, EntitlementPlan, default, start, individual,
}

-- RETIRED_PROVIDER_IDS
abbrev pub retired_provider_ids : List String
retired_provider_ids = "builtin:zai-start-plan" ∷ []

-- ADMISSIBLE_PROVIDER_ROUTES
abbrev pub admissible_provider_routes : List String
admissible_provider_routes =
    "builtin:zai-coding-plan" ∷ "zai-api" ∷ "account:zai-individual-coding-plan"
    ∷ "account:bigmodel-individual-coding-plan" ∷ []

-- REQUIRED_BINDING_SOURCES
abbrev pub required_binding_sources : List String
required_binding_sources = "desktop-session-read" ∷ "official-session-read" ∷ []

-- `m.providerId === null || m.providerId === binding.provider_id`
unfoldable pub route_matches : String → Option String → Bool
route_matches p none = true
route_matches p (some q) = q == p

unfoldable pub is_offer : Binding → AvailableModel → Bool
unfolding route_matches
is_offer b m = m.model_id == b.model_id && route_matches b.provider_id m.provider_id

unfoldable pub attests : String → Option EntitlementReadback → Bool
attests mode none = false
attests mode (some e) = e.source == "provider-registry" && opt_eq e.observed (some mode)

unfoldable pub advertised : Binding → Option (List AvailableModel) → Bool
advertised b none = false
advertised b (some ms) = any (is_offer b) ms

-- `isAdmissibleObservedBinding`, at a binding that was observed
unfoldable pub admissible_binding : Binding → Bool
admissible_binding b =
    let attested_start = attests "start-plan" b.entitlement in
    includes b.source required_binding_sources
    && not (includes b.provider_id retired_provider_ids && not attested_start)
    && (attested_start || includes b.provider_id admissible_provider_routes)
    && (b.source == "desktop-session-read" || advertised b b.available_models)

unfoldable pub is_admissible_observed_binding : Option Binding → Bool
is_admissible_observed_binding none = false
is_admissible_observed_binding (some b) = admissible_binding b

-- `entitlementAccessMode`
unfoldable pub entitlement_access_mode : EntitlementPlan → Option String
entitlement_access_mode default = none
entitlement_access_mode start = some "start-plan"
entitlement_access_mode individual = some "individual-coding-plan"

-- `EntitlementSelectionSupport`, where the runtime advertised it
pub data EntitlementError : Type 0 where
  entitlement_unavailable : EntitlementError

unfoldable pub plan_or_default : Option EntitlementPlan → EntitlementPlan
plan_or_default none = default
plan_or_default (some p) = p

unfoldable pub is_default : EntitlementPlan → Bool
is_default default = true
is_default _ = false

-- `requireSupportedEntitlement`; `support` is the runtime's advertised capability, if any
unfoldable pub require_supported_entitlement :
    Option EntitlementPlan → Option Bool → Result EntitlementError EntitlementPlan
require_supported_entitlement value support =
    let plan = plan_or_default value in
    if is_default plan then ok plan else (elim support [
      | none ↦ err entitlement_unavailable
      | some selects ↦ if selects then ok plan else err entitlement_unavailable
    ])

-- `!requested || observed === requested`, a request that is missing or empty asks for nothing
unfoldable pub request_met : Option String → Option String → Bool
request_met none observed = true
request_met (some r) observed = r == "" || opt_eq observed (some r)

-- the clause of `governedBinding` on a plan that was asked for
unfoldable pub plan_met : Option EntitlementPlan → Option EntitlementReadback → Bool
plan_met none e = true
plan_met (some p) e = elim (entitlement_access_mode p) [
  | none ↦ is_default p
  | some mode ↦ attests mode e
]

pub record Request : Type 0 where
  pub model_id : Option String
  pub thought_level : Option String
  pub entitlement_plan : Option EntitlementPlan

unfoldable pub governed : Binding → Request → Bool
governed b r =
    request_met r.model_id (some b.model_id)
    && request_met r.thought_level b.thought_level
    && plan_met r.entitlement_plan b.entitlement

-- `governedBinding` of z2c/src/core/tasks/engine.ts
unfoldable pub governed_binding : Option Binding → Request → Bool
governed_binding none r = false
governed_binding (some b) r = admissible_binding b && governed b r
