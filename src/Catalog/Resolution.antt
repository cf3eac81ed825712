-- ===== src/Catalog/Resolution.antt =====
-- src/execution/model-catalog.ts: `resolveModelSelection`. The text of a reason is told by what it is
-- made of.
pub mod Listed
pub mod Matching
pub mod Offered
pub mod Known
pub mod Tests
use agents_with_chatgpt.Prelude.{
  ℕ, String, Bool, true, false, ◌&&◌, ◌||◌, not, Option, none, some, List, [], ◌∷◌, ◌++◌, map, any,
  all, keep, length, take, is_some, opt_eq, codes, text_length, nat_eq, ltb, fold_case, ◌==◌,
  if◌then◌else◌,
}
use agents_with_chatgpt.Catalog.{
  Agent, agent_eq, Entry, Section, ModelCatalog, Candidate, to_candidate, Text, same, lower,
  trim_text, normalize, units, display_base_matches, effort_supported,
}
use agents_with_chatgpt.Catalog.Identity.{
  named, tiers, Identity, nothing, one, more, first_hits, match_identity,
}
use agents_with_chatgpt.Catalog.Suffix.{
  add_token, add_tokens, effort_tokens, insert_token, longest_first, without_suffix,
}

-- `ResolveRequest`
pub record ResolveRequest : Type 0 where
  pub agent : Option Agent
  pub provider_id : Option String
  pub model : Option String
  pub effort : Option String

-- `ResolveSelection`
pub record ResolveSelection : Type 0 where
  pub agent : Agent
  pub provider_id : Option String
  pub model_id : String
  pub effort : Option Text

pub data Reason : Type 0 where
  no_catalog unknown_agent no_evidence stale_catalog no_default partial_evidence account_default
        stale_match name_suffix exact_id any_case_id exact_name separators :
      Reason
  no_entry : String → Reason
  several : ℕ → Reason
  effort_conflict effort_unknown effort_unsupported : String → Text → Reason

pub data Status : Type 0 where
  matched ambiguous not_found unverified unavailable : Status

-- `ResolveResult`, without the catalog's revision and freshness, which are copied into it
pub record ResolveResult : Type 0 where
  pub status : Status
  pub reason : Reason
  pub selection : Option ResolveSelection
  pub candidates : List Candidate

answer : Status → Reason → Option ResolveSelection → List Candidate → ResolveResult
answer status reason selection candidates = record {
  status = status;
  reason = reason;
  selection = selection;
  candidates = candidates;
}

abbrev pub asks_agent : Option Agent → Agent → Bool
asks_agent none a = true
asks_agent (some b) a = agent_eq a b

pub relevant_sections : ModelCatalog → Option Agent → List Section
relevant_sections c agent = keep (λ s. asks_agent agent s.agent) c.agents

pub entries_of : List Section → List Entry
entries_of [] = []
entries_of (s ∷ ss) = s.models ++ entries_of ss

pub is_given : Option String → Bool
is_given none = false
is_given (some s) = not (s == "")

pub from_provider : Option String → Entry → Bool
from_provider none e = true
from_provider (some p) e = p == "" || elim e.provider_id [
  | none ↦ false
  | some q ↦ same (normalize (codes q)) (normalize (codes p))
]

-- `providerFilteredPairs`
pub provider_filtered : List Entry → ResolveRequest → List Entry
provider_filtered entries r = keep (from_provider r.provider_id) entries

chosen : Entry → Option Text → ResolveSelection
chosen e effort = record {
  agent = e.agent;
  provider_id = e.provider_id;
  model_id = e.model_id;
  effort = effort;
}

unfoldable pub text_of : Option String → Option Text
text_of none = none
text_of (some s) = some (codes s)

-- `requestedEffort ?? entry.default_effort`
effort_or_default : Option Text → Entry → Option Text
effort_or_default none e = text_of e.default_effort
effort_or_default (some t) e = some t

check_effort : Entry → Option Text → Reason → ResolveResult
check_effort e none reason =
    answer matched reason (some (chosen e (text_of e.default_effort))) (to_candidate e ∷ [])
check_effort e (some effort) reason =
    if nat_eq (length e.supported_efforts) 0
    then answer unverified (effort_unknown e.model_id effort) none (to_candidate e ∷ [])
    else if not (effort_supported e effort)
    then answer not_found (effort_unsupported e.model_id effort) none (to_candidate e ∷ [])
    else answer matched reason (some (chosen e (some effort))) (to_candidate e ∷ [])

-- `finishMatch`
pub finish_match : Entry → Option Text → Reason → Bool → ResolveResult
finish_match e effort reason stale =
    if stale
    then answer unverified stale_catalog (some (chosen e (effort_or_default effort e)))
        (to_candidate e ∷ [])
    else check_effort e effort reason

effort_conflicts : Option String → Text → Bool
effort_conflicts none token = false
effort_conflicts (some s) token = not (same (lower (codes s)) token)

split_found : ResolveRequest → Bool → Text → Identity → Option ResolveResult
split_found r stale token nothing = none
split_found r stale token (more es) =
    some (answer ambiguous (several (length es)) none (map to_candidate (take 10 es)))
split_found r stale token (one e) = some (
    if effort_conflicts r.effort token
    then answer ambiguous (effort_conflict e.model_id token) none (to_candidate e ∷ [])
    else finish_match e (some token) name_suffix stale)

split_at : List Entry → ResolveRequest → Bool → Text → Option Text → Option ResolveResult
split_at entries r stale token none = none
split_at entries r stale token (some []) = none
split_at entries r stale token (some (c ∷ cs)) =
    split_found r stale token (match_identity entries (c ∷ cs))

try_tokens : List Entry → ResolveRequest → Bool → Text → List Text → Option ResolveResult
try_tokens entries r stale query [] = none
try_tokens entries r stale query (token ∷ ts) =
    let rest = try_tokens entries r stale query ts in
    elim (split_at entries r stale token (without_suffix (45 ∷ token) query)) [
      | none ↦ rest
      | some x ↦ some x
    ]

-- `splitTrailingEffort`
split_trailing_effort : List Entry → ResolveRequest → Text → Bool → Option ResolveResult
split_trailing_effort entries r query stale =
    try_tokens entries r stale (normalize query) (longest_first (effort_tokens entries []))

-- `matchReason`
match_reason : Text → Entry → Reason
match_reason query e =
    if same (codes e.model_id) query
    then exact_id
    else if same (lower (codes e.model_id)) (lower query)
    then any_case_id
    else if named (λ n. same (lower n) (lower query)) e
    then exact_name
    else separators

identified : List Entry → ResolveRequest → Text → Bool → Identity → Option ResolveResult
identified entries r query stale nothing = split_trailing_effort entries r query stale
identified entries r query stale (more es) =
    some (answer ambiguous (several (length es)) none (map to_candidate (take 10 es)))
identified entries r query stale (one e) =
    some (
      finish_match e (text_of r.effort) (if stale then stale_match else match_reason query e) stale)

default_match : ResolveRequest → Bool → List Entry → Option ResolveResult
default_match r stale (e ∷ []) = some (finish_match e (text_of r.effort) account_default stale)
default_match r stale _ = none

-- after the provider's constraint
against_filtered : List Entry → ResolveRequest → Bool → Option ResolveResult
against_filtered entries r stale = elim r.model [
  | none ↦ default_match r stale (keep (λ e. e.is_default && not e.hidden) entries)
  | some m ↦
      if m == ""
      then default_match r stale (keep (λ e. e.is_default && not e.hidden) entries)
      else identified entries r (trim_text (codes m)) stale
          (match_identity entries (trim_text (codes m)))
]

-- `resolveAgainstEntries`
pub resolve_against_entries : List Entry → ResolveRequest → Bool → Option ResolveResult
resolve_against_entries entries r stale =
    if nat_eq (length (provider_filtered entries r)) 0 && is_given r.provider_id
    then none
    else against_filtered (provider_filtered entries r) r stale

pub is_stale : ModelCatalog → List Section → Bool
is_stale c sections = any (λ s. s.served_from_stale_cache || not c.is_fresh) sections

has_models : Section → Bool
has_models s = not (nat_eq (length s.models) 0)

offers : List Section → ResolveRequest → List Candidate
offers sections r = map to_candidate (take 10 (provider_filtered (entries_of sections) r))

absence : List Section → ResolveRequest → ResolveResult
absence sections r =
    if all (λ s. has_models s && s.is_complete) sections
    then answer not_found
        (elim r.model [ none ↦ no_default | some m ↦ if m == "" then no_default else no_entry m ])
        none (offers sections r)
    else answer unverified partial_evidence none (offers sections r)

or_result : Option ResolveResult → ResolveResult → ResolveResult
or_result none x = x
or_result (some y) x = y

resolve_sections : ModelCatalog → List Section → ResolveRequest → ResolveResult
resolve_sections c sections r =
    if all (λ s. not (has_models s)) sections
    then answer unavailable no_evidence none []
    else if is_stale c sections
    then or_result (resolve_against_entries (entries_of sections) r true)
        (answer unverified stale_catalog none (offers sections r))
    else or_result (resolve_against_entries (entries_of sections) r false) (absence sections r)

-- `resolveModelSelection`
pub resolve_model_selection : Option ModelCatalog → ResolveRequest → ResolveResult
resolve_model_selection none r = answer unavailable no_catalog none []
resolve_model_selection (some c) r = elim (relevant_sections c r.agent) [
  | [] ↦ answer not_found unknown_agent none []
  | s ∷ ss ↦ resolve_sections c (s ∷ ss) r
]
