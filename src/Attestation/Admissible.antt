-- ===== src/Attestation/Admissible.antt =====
-- The admission policy as a statement about the evidence: z2c/src/authz/attestation.ts and
-- `governedBinding` of z2c/src/core/tasks/engine.ts.
use mathlib.Core.Path.{subst}
use agents_with_chatgpt.Prelude.{
  String, ◌≡◌, ◌≢◌, ◌↔◌, ◌⊎◌, inl, inr, refl, true, false, ◌&&◌, ◌||◌, not, Option, none, some,
  List, [], ◌∷◌, any, includes, opt_eq_iff, Option-cases, ◌==◌, arith, eq_iff, Bool-cases,
}
use agents_with_chatgpt.Tasks.Model.{
  Binding, AvailableModel, EntitlementReadback, EntitlementPlan, default, start, individual,
}
use agents_with_chatgpt.Attestation.{
  retired_provider_ids, admissible_provider_routes, required_binding_sources, route_matches,
  is_offer, attests, advertised, admissible_binding, is_admissible_observed_binding, Request,
  request_met, plan_met, entitlement_access_mode, governed, governed_binding,
}

-- The runtime's own registry says which access mode the session runs on.
pub record Attests (mode : String) (b : Binding) : Type 0 where
  pub readback : EntitlementReadback
  pub known : b.entitlement ≡ some readback
  pub registry : readback.source ≡ "provider-registry"
  pub observed : readback.observed ≡ some mode

-- The model is offered to the session on its own route, or on a route that is not named.
pub data Offered (b : Binding) : List AvailableModel → Type 0 where
  here :
      (m : AvailableModel) (ms : List AvailableModel)
      → m.model_id ≡ b.model_id
      → (m.provider_id ≡ none) ⊎ (m.provider_id ≡ some b.provider_id)
      → Offered b (m ∷ ms)
  later : (m : AvailableModel) (ms : List AvailableModel) → Offered b ms → Offered b (m ∷ ms)

pub data Advertises (b : Binding) : Type 0 where
  desktop : b.source ≡ "desktop-session-read" → Advertises b
  catalog : (ms : List AvailableModel) → b.available_models ≡ some ms → Offered b ms → Advertises b

-- A route that may be used: one of the admissible routes that is not retired, or any route on which
-- the start plan is attested.
pub data MayUse (b : Binding) : Type 0 where
  attested_start : Attests "start-plan" b → MayUse b
  open_route :
      includes b.provider_id admissible_provider_routes ≡ true
      → includes b.provider_id retired_provider_ids ≡ false
      → MayUse b

pub record IsAdmissible (b : Binding) : Type 0 where
  pub read : includes b.source required_binding_sources ≡ true
  pub route : MayUse b
  pub model : Advertises b

attests-Attests : (mode : String) (b : Binding) → attests mode b.entitlement ≡ true → Attests mode b
unfolding attests
attests-Attests mode b h = elim (Option-cases b.entitlement) [
  | inl nothing ↦ absurd (ground arith)
  | inr (e, known) ↦ record {
    readback = e;
    known = known;
    registry = (eq_iff e.source "provider-registry").0 (ground arith);
    observed = (opt_eq_iff e.observed (some mode)).0 (ground arith);
  }
]

Attests-attests : (mode : String) (b : Binding) → Attests mode b → attests mode b.entitlement ≡ true
unfolding attests
Attests-attests mode b a = ground (
  arith,
  eq_iff a.readback.source "provider-registry",
  opt_eq_iff a.readback.observed (some mode),
)

any-Offered : (b : Binding) (ms : List AvailableModel) → any (is_offer b) ms ≡ true → Offered b ms
unfolding is_offer
any-Offered b [] h = absurd (ground arith)
any-Offered b (m ∷ ms) h = elim (Bool-cases (is_offer b m)) [
  | inl fits ↦
      here m ms ((eq_iff m.model_id b.model_id).0 (ground arith))
        (on_route m.provider_id (ground arith))
  | inr other ↦ later m ms (any-Offered b ms (ground arith))
]
  where
    on_route :
        (p : Option String)
        → route_matches b.provider_id p ≡ true
        → (p ≡ none) ⊎ (p ≡ some b.provider_id)
    on_route none e = inl refl
    on_route (some q) e = inr (ground (arith, eq_iff q b.provider_id))

Offered-any : (b : Binding) {ms : List AvailableModel} → Offered b ms → any (is_offer b) ms ≡ true
unfolding is_offer route_matches
Offered-any b (here m ms e r) =
    ground (arith, eq_iff m.model_id b.model_id, eq_iff b.provider_id b.provider_id)
Offered-any b (later m ms o) = ground (arith, Offered-any b o)

model_tests-Advertises :
    (b : Binding)
    → (b.source == "desktop-session-read" || advertised b b.available_models) ≡ true
    → Advertises b
unfolding advertised
model_tests-Advertises b h = elim (Bool-cases (b.source == "desktop-session-read")) [
  | inl local ↦ desktop ((eq_iff b.source "desktop-session-read").0 local)
  | inr remote ↦ elim (Option-cases b.available_models) [
    | inl unknown ↦ absurd (ground arith)
    | inr (ms, known) ↦ catalog ms known (any-Offered b ms (ground arith))
  ]
]

Advertises-model_tests :
    (b : Binding)
    → Advertises b
    → (b.source == "desktop-session-read" || advertised b b.available_models) ≡ true
unfolding advertised
Advertises-model_tests b (desktop e) = ground (arith, eq_iff b.source "desktop-session-read")
Advertises-model_tests b (catalog ms known o) = ground (arith, Offered-any b o)

admissible-MayUse : (b : Binding) → admissible_binding b ≡ true → MayUse b
unfolding admissible_binding
admissible-MayUse b h = elim (Bool-cases (attests "start-plan" b.entitlement)) [
  | inl start_plan ↦ attested_start (attests-Attests "start-plan" b start_plan)
  | inr other ↦ open_route (ground arith) (ground arith)
]

MayUse-tests :
    (b : Binding)
    → MayUse b
    → ((not (
            includes b.provider_id retired_provider_ids && not (attests "start-plan" b.entitlement))
          && (attests "start-plan" b.entitlement
              || includes b.provider_id admissible_provider_routes))
        ≡ true)
MayUse-tests b (attested_start a) = ground (arith, Attests-attests "start-plan" b a)
MayUse-tests b (open_route e f) = ground arith

-- A binding is admissible exactly if it was read from the session itself, on a route that may be
-- used, for a model that the session's own catalog offers on that route, or on the desktop lane,
-- which has no catalog. A retired route needs the registry's word for the start plan.
pub IsAdmissible-iff :
    (b : Binding) → (is_admissible_observed_binding (some b) ≡ true) ↔ IsAdmissible b
unfolding is_admissible_observed_binding admissible_binding
IsAdmissible-iff b = (
  λ h. record {
    read = ground arith;
    route = admissible-MayUse b (unfold admissible_binding in h);
    model = model_tests-Advertises b (ground arith);
  },
  λ a. ground (arith, a.read, MayUse-tests b a.route, Advertises-model_tests b a.model),
)

-- A plan that was asked for is the plan that the registry attests.
abbrev pub PlanAttested : EntitlementPlan → Binding → Type 0
PlanAttested default b = Unit
PlanAttested start b = Attests "start-plan" b
PlanAttested individual b = Attests "individual-coding-plan" b

plan_met-PlanAttested :
    (p : EntitlementPlan) (b : Binding) → plan_met (some p) b.entitlement ≡ true → PlanAttested p b
unfolding plan_met entitlement_access_mode
plan_met-PlanAttested default b h = tt
plan_met-PlanAttested start b h = attests-Attests "start-plan" b h
plan_met-PlanAttested individual b h = attests-Attests "individual-coding-plan" b h

individual-not_retired :
    (b : Binding)
    → Attests "individual-coding-plan" b
    → MayUse b
    → includes b.provider_id retired_provider_ids ≡ false
individual-not_retired b a (open_route e f) = f
individual-not_retired b a (attested_start s) = absurd (
    ground (
      arith,
      a.known,
      s.known,
      a.observed,
      s.observed,
      eq_iff "individual-coding-plan" "start-plan",
    ))

-- What a request asks for, by name, is what was observed: no model, effort or plan is substituted.
-- In particular a session that is attested on the individual plan is never on a retired route.
pub governed-exact :
    (b : Binding) (r : Request) (p : EntitlementPlan)
    → governed_binding (some b) r ≡ true
    → r.entitlement_plan ≡ some p
    → IsAdmissible b
      × PlanAttested p b
      × ((m : String) → r.model_id ≡ some m → m ≢ "" → b.model_id ≡ m)
      × ((t : String) → r.thought_level ≡ some t → t ≢ "" → b.thought_level ≡ some t)
      × (p ≡ individual → includes b.provider_id retired_provider_ids ≡ false)
unfolding governed_binding governed request_met
governed-exact b r p h asked = (
  (IsAdmissible-iff b).0 (unfold is_admissible_observed_binding in ground arith),
  plan_met-PlanAttested p b (ground arith),
  λ m e filled. ground (arith, eq_iff m "", eq_iff b.model_id m),
  λ t e filled. ground (arith, eq_iff t "", opt_eq_iff b.thought_level (some t)),
  λ e.
      individual-not_retired b
        (subst (λ q. PlanAttested q b) e (plan_met-PlanAttested p b (ground arith)))
        ((IsAdmissible-iff b).0 (unfold is_admissible_observed_binding in ground arith)).route,
)
