-- ===== src/Catalog/Resolution/Tests.antt =====
-- Tests of the resolution of a model's name.
use mathlib.Core.List.{Memᴰ}
use agents_with_chatgpt.Prelude.{
  ◌≡◌, ◌≢◌, refl, String, true, false, Option, none, some, [], ◌∷◌, codes, arith, eq_iff,
}
use agents_with_chatgpt.Catalog.{
  codex, zcode, Entry, Section, ModelCatalog, agent_eq, same, units, lower, trim_start, trim_end,
  trim_text, squash, is_separator, is_dash, drop_dash, drop_last_dash, normalize, closes,
  is_nonempty, one_further, parenthesis, display_base_matches, effort_supported,
}
use agents_with_chatgpt.Catalog.Identity.{named, tiers, first_hits, match_identity}
use agents_with_chatgpt.Catalog.Suffix.{
  add_token, add_tokens, effort_tokens, insert_token, longest_first, without_suffix,
}
use agents_with_chatgpt.Catalog.Resolution.{
  ResolveRequest, ResolveSelection, matched, not_found, answer, relevant_sections, entries_of,
  is_given, from_provider, provider_filtered, chosen, text_of, effort_or_default, check_effort,
  finish_match, effort_conflicts, split_found, split_at, try_tokens, split_trailing_effort,
  match_reason, identified, default_match, against_filtered, resolve_against_entries, is_stale,
  has_models, offers, absence, or_result, resolve_sections, resolve_model_selection,
}
use agents_with_chatgpt.Catalog.Resolution.Known.{Unsupported, resolve-known}

abbrev astra : Entry
astra = record {
  agent = codex;
  provider_id = none;
  model_id = "gpt-6-astra";
  display_name = some "GPT-6 Astra";
  supported_efforts = "low" ∷ "Max" ∷ [];
  default_effort = some "low";
  is_default = true;
  hidden = false;
}

abbrev mini : Entry
mini = record astra { model_id = "gpt-6-astra-mini"; display_name = none; is_default = false }

abbrev section : Section
section = record {
  agent = codex;
  is_complete = true;
  models = astra ∷ mini ∷ [];
  served_from_stale_cache = false;
}

-- the section of another agent, of which nothing is known
abbrev blank : Section
blank = record { agent = zcode; is_complete = false; models = []; served_from_stale_cache = true }

abbrev pub catalog : ModelCatalog
catalog = record { catalog_revision = "r1"; is_fresh = true; agents = blank ∷ section ∷ [] }

abbrev pub request : String → Option String → ResolveRequest
request m effort = record {
  agent = some codex;
  provider_id = none;
  model = some m;
  effort = effort;
}

abbrev pub selection : ResolveSelection
selection = record {
  agent = codex;
  provider_id = none;
  model_id = "gpt-6-astra";
  effort = some (codes "max");
}

pub suffix_matched :
    (resolve_model_selection (some catalog) (request " GPT 6_Astra Max" none)).status ≡ matched
unfolding agent_eq same units lower trim_start trim_end trim_text squash is_separator is_dash
    drop_dash drop_last_dash normalize closes is_nonempty one_further parenthesis
    display_base_matches effort_supported answer relevant_sections entries_of is_given from_provider
    provider_filtered named tiers first_hits match_identity chosen text_of effort_or_default
    check_effort finish_match add_token add_tokens effort_tokens insert_token longest_first
    without_suffix effort_conflicts split_found split_at try_tokens split_trailing_effort
    match_reason identified default_match against_filtered resolve_against_entries is_stale
    has_models offers absence or_result resolve_sections resolve_model_selection
suffix_matched = refl

pub suffix_selected :
    (resolve_model_selection (some catalog) (request " GPT 6_Astra Max" none)).selection
    ≡ some selection
unfolding agent_eq same units lower trim_start trim_end trim_text squash is_separator is_dash
    drop_dash drop_last_dash normalize closes is_nonempty one_further parenthesis
    display_base_matches effort_supported answer relevant_sections entries_of is_given from_provider
    provider_filtered named tiers first_hits match_identity chosen text_of effort_or_default
    check_effort finish_match add_token add_tokens effort_tokens insert_token longest_first
    without_suffix effort_conflicts split_found split_at try_tokens split_trailing_effort
    match_reason identified default_match against_filtered resolve_against_entries is_stale
    has_models offers absence or_result resolve_sections resolve_model_selection
suffix_selected = refl

abbrev ultra : ResolveRequest
ultra = request "gpt-6-astra" (some "ultra")

advertised :
    Memᴰ astra (provider_filtered (entries_of (relevant_sections catalog (some codex))) ultra)
unfolding agent_eq same units lower trim_start trim_end trim_text squash is_separator is_dash
    drop_dash drop_last_dash normalize closes is_nonempty one_further parenthesis
    display_base_matches effort_supported answer relevant_sections entries_of is_given from_provider
    provider_filtered named tiers first_hits match_identity chosen text_of effort_or_default
    check_effort finish_match add_token add_tokens effort_tokens insert_token longest_first
    without_suffix effort_conflicts split_found split_at try_tokens split_trailing_effort
    match_reason identified default_match against_filtered resolve_against_entries is_stale
    has_models offers absence or_result resolve_sections resolve_model_selection
advertised = Memᴰ.head refl

by_its_id : same (codes astra.model_id) (trim_text (codes "gpt-6-astra")) ≡ true
unfolding agent_eq same units lower trim_start trim_end trim_text squash is_separator is_dash
    drop_dash drop_last_dash normalize closes is_nonempty one_further parenthesis
    display_base_matches effort_supported
by_its_id = refl

too_much : (resolve_model_selection (some catalog) ultra).status ≡ not_found
unfolding agent_eq same units lower trim_start trim_end trim_text squash is_separator is_dash
    drop_dash drop_last_dash normalize closes is_nonempty one_further parenthesis
    display_base_matches effort_supported answer relevant_sections entries_of is_given from_provider
    provider_filtered named tiers first_hits match_identity chosen text_of effort_or_default
    check_effort finish_match add_token add_tokens effort_tokens insert_token longest_first
    without_suffix effort_conflicts split_found split_at try_tokens split_trailing_effort
    match_reason identified default_match against_filtered resolve_against_entries is_stale
    has_models offers absence or_result resolve_sections resolve_model_selection
too_much = refl

abbrev id : String
id = "gpt-6-astra"

has_name : id ≢ ""
has_name e = ground (arith, e, eq_iff id "")

resolve-known_example :
    Unsupported astra (some "ultra") (resolve_model_selection (some catalog) ultra)
resolve-known_example =
    resolve-known catalog ultra astra "gpt-6-astra" refl has_name by_its_id advertised too_much
