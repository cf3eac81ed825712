-- ===== src/Attestation/Tests.antt =====
-- Tests of the admission policy.
use agents_with_chatgpt.Prelude.{
  ◌≡◌, ◌≢◌, ◌↔◌, refl, String, true, false, none, some, [], ◌∷◌, includes,
}
use agents_with_chatgpt.Tasks.Model.{Binding, individual}
use agents_with_chatgpt.Attestation.{
  Request, is_admissible_observed_binding, retired_provider_ids, governed_binding, governed,
  admissible_binding, request_met, plan_met, attests, advertised, is_offer, route_matches,
  entitlement_access_mode,
}
use agents_with_chatgpt.Attestation.Admissible.{
  IsAdmissible, PlanAttested, IsAdmissible-iff, governed-exact,
}

abbrev binding : Binding
binding = record {
  provider_id = "zai-api";
  model_id = "glm-4.6";
  source = "official-session-read";
  thought_level = some "max";
  plan_enabled = none;
  available_models = some (record { provider_id = none; model_id = "glm-4.6" } ∷ []);
  entitlement =
      some (record { observed = some "individual-coding-plan"; source = "provider-registry" });
}

abbrev request : Request
request = record {
  model_id = some "glm-4.6";
  thought_level = none;
  entitlement_plan = some individual;
}

IsAdmissible-iff_example :
    (is_admissible_observed_binding (some binding) ≡ true) ↔ IsAdmissible binding
IsAdmissible-iff_example = IsAdmissible-iff binding

is_governed : governed_binding (some binding) request ≡ true
unfolding governed_binding governed admissible_binding request_met plan_met attests advertised
    is_offer route_matches entitlement_access_mode includes
is_governed = refl

governed-exact_example :
    IsAdmissible binding
    × PlanAttested individual binding
    × ((m : String) → request.model_id ≡ some m → m ≢ "" → binding.model_id ≡ m)
    × ((t : String) → request.thought_level ≡ some t → t ≢ "" → binding.thought_level ≡ some t)
    × (individual ≡ individual → includes binding.provider_id retired_provider_ids ≡ false)
governed-exact_example = governed-exact binding request individual is_governed refl
