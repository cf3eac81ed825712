-- ===== src/Orchestrator/Selection.antt =====
-- src/execution/step-selection.ts: how a step's model and effort are chosen from the live catalog of
-- its agent.
use agents_with_chatgpt.Prelude.{
  ◌≡◌, refl, String, Bool, true, false, ◌&&◌, ◌||◌, not, Option, none, some, Result, ok, err, inl,
  inr, List, [], any, is_some, opt_eq, contains, Bool-cases, ◌==◌, if◌then◌else◌, arith,
}
use agents_with_chatgpt.Catalog.{Agent, agent_eq, ModelCatalog, Candidate}
use agents_with_chatgpt.Catalog.Resolution.{
  ResolveRequest, ResolveSelection, Reason, no_entry, effort_unsupported, Status, matched,
  ambiguous, not_found, unverified, unavailable, ResolveResult, relevant_sections, is_stale,
  resolve_model_selection,
}
use agents_with_chatgpt.Catalog.Resolution.Matching.{Offered}
use agents_with_chatgpt.Catalog.Resolution.Offered.{resolve-Offered}
use agents_with_chatgpt.Orchestrator.{
  Selected, Step, SelectionCode, ambiguous_model, model_not_found, unsupported_effort,
  agent_unknown, catalog_unavailable, route_mismatch, selection_failed, Defect,
}

abbrev pub request_of : Step → ResolveRequest
request_of s = record {
  agent = some s.agent;
  provider_id = s.provider_route;
  model = s.model;
  effort = s.effort;
}

unfoldable pub defect : SelectionCode → List Candidate → Defect
defect code candidates = record { code = code; candidates = candidates }

unfoldable pub wants_route : Option String → Option String → Bool
wants_route none found = true
wants_route (some r) found = r == "" || opt_eq found (some r)

abbrev pub selected_from : String → String → ResolveSelection → Selected
selected_from now revision s = record {
  agent = s.agent;
  provider_id = s.provider_id;
  model_id = s.model_id;
  effort = s.effort;
  catalog_revision = some revision;
  resolved_at = now;
}

unfoldable pub check_match :
    String → String → Step → List Candidate → Option ResolveSelection → Result Defect Selected
check_match now revision request cs none = err (defect selection_failed [])
check_match now revision request cs (some s) =
    if not (wants_route request.provider_route s.provider_id)
    then err (defect route_mismatch cs)
    else if is_some request.effort && not (is_some s.effort)
    then err (defect unsupported_effort [])
    else ok (selected_from now revision s)

-- `result.reason.includes("effort")`, of the reasons that something is not found
unfoldable pub mentions_effort : Reason → Bool
mentions_effort (no_entry name) = contains "effort" name
mentions_effort (effort_unsupported m t) = true
mentions_effort _ = false

unfoldable pub check_status :
    String → String → Step → ResolveResult → Status → Result Defect Selected
check_status now revision request x matched =
    check_match now revision request x.candidates x.selection
check_status now revision request x ambiguous = err (defect ambiguous_model x.candidates)
check_status now revision request x not_found =
    err (
      defect (if mentions_effort x.reason then unsupported_effort else model_not_found)
        x.candidates)
check_status now revision request x unverified = err (defect catalog_unavailable [])
check_status now revision request x unavailable = err (defect catalog_unavailable [])

unfoldable pub check_answer : String → String → Step → ResolveResult → Result Defect Selected
check_answer now revision request x = check_status now revision request x x.status

unfoldable pub check_catalog : String → Step → Result String ModelCatalog → Result Defect Selected
check_catalog now request (err message) = err (defect catalog_unavailable [])
check_catalog now request (ok c) =
    if not c.is_fresh
    then err (defect catalog_unavailable [])
    else check_answer now c.catalog_revision request
        (resolve_model_selection (some c) (request_of request))

-- `createStepSelectionResolver`, with the catalog service, if there is one, and the agents it knows
unfoldable pub resolve_selection :
    String
    → Option (Agent → Result String ModelCatalog)
    → List Agent
    → Step
    → Result Defect Selected
resolve_selection now none agents request = err (defect catalog_unavailable [])
resolve_selection now (some service) agents request =
    if not (any (agent_eq request.agent) agents)
    then err (defect agent_unknown [])
    else check_catalog now request (service request.agent)

check_match-found :
    (now revision : String) (request : Step) (cs : List Candidate) (o : Option ResolveSelection)
    (sel : Selected)
    → check_match now revision request cs o ≡ ok sel
    → (s : ResolveSelection) × (o ≡ some s)
      × (wants_route request.provider_route s.provider_id ≡ true)
      × (sel ≡ selected_from now revision s)
unfolding check_match
check_match-found now revision request cs none sel h = absurd (cc)
check_match-found now revision request cs (some s) sel h = (s, refl, ground arith, ground arith)

check_answer-matched :
    (now revision : String) (request : Step) (x : ResolveResult) (status : Status) (sel : Selected)
    → check_status now revision request x status ≡ ok sel
    → (status ≡ matched) × (check_match now revision request x.candidates x.selection ≡ ok sel)
unfolding check_status
check_answer-matched now revision request x matched sel h = (refl, h)
check_answer-matched now revision request x ambiguous sel h = absurd (cc)
check_answer-matched now revision request x not_found sel h = absurd (cc)
check_answer-matched now revision request x unverified sel h = absurd (cc)
check_answer-matched now revision request x unavailable sel h = absurd (cc)

check_catalog-read :
    (now : String) (request : Step) (r : Result String ModelCatalog) (sel : Selected)
    → check_catalog now request r ≡ ok sel
    → (c : ModelCatalog) × (r ≡ ok c)
      × (c.is_fresh ≡ true)
      × (check_answer now c.catalog_revision request
            (resolve_model_selection (some c) (request_of request))
          ≡ ok sel)
unfolding check_catalog
check_catalog-read now request (err m) sel h = absurd (cc)
check_catalog-read now request (ok c) sel h = elim (Bool-cases c.is_fresh) [
  | inl fresh ↦ (c, refl, fresh, ground (arith, h, fresh))
  | inr old ↦ absurd (ground (arith, h, old))
]

resolve_selection-service :
    (now : String) (service : Option (Agent → Result String ModelCatalog)) (agents : List Agent)
    (request : Step) (sel : Selected)
    → resolve_selection now service agents request ≡ ok sel
    → (get : (Agent → Result String ModelCatalog)) × (service ≡ some get)
      × (any (agent_eq request.agent) agents ≡ true)
      × (check_catalog now request (get request.agent) ≡ ok sel)
unfolding resolve_selection
resolve_selection-service now none agents request sel h = absurd (cc)
resolve_selection-service now (some get) agents request sel h =
    (get, refl, ground arith, ground arith)

-- A step is only ever given what the fresh catalog of its own agent offers: there is a catalog
-- service, it knows the agent and its catalog is fresh and in no section stale; the model is an entry
-- of that catalog, of the agent and the provider that the step names, with an effort that the entry
-- supports and the step asks for, or the entry's default where it asks for none; the route is
-- exactly the one that the step names, and the revision of the catalog is noted.
pub resolve_selection-Offered :
    (now : String) (service : Option (Agent → Result String ModelCatalog)) (agents : List Agent)
    (request : Step) (sel : Selected)
    → resolve_selection now service agents request ≡ ok sel
    → (get : (Agent → Result String ModelCatalog)) × (c : ModelCatalog) × (s : ResolveSelection)
      × (service ≡ some get)
      × (any (agent_eq request.agent) agents ≡ true)
      × (get request.agent ≡ ok c)
      × (c.is_fresh ≡ true)
      × (is_stale c (relevant_sections c (some request.agent)) ≡ false)
      × Offered c (request_of request) s
      × (wants_route request.provider_route s.provider_id ≡ true)
      × (sel ≡ selected_from now c.catalog_revision s)
unfolding check_answer
resolve_selection-Offered now service agents request sel h =
    let (get, wired, known, found) = resolve_selection-service now service agents request sel h in
    let (c, read, fresh, answered) = check_catalog-read now request (get request.agent) sel found in
    let x : ResolveResult = resolve_model_selection (some c) (request_of request) in
    let (is_match, taken) =
      check_answer-matched now c.catalog_revision request x x.status sel answered in
    let (s, chosen, route, same) =
      check_match-found now c.catalog_revision request x.candidates x.selection sel taken in
    let (current, offered) = resolve-Offered c (request_of request) s is_match chosen in
    (get, c, s, wired, known, read, fresh, current, offered, route, same)
