-- ===== src/Catalog/Resolution/Offered.antt =====
-- `resolveModelSelection` of src/execution/model-catalog.ts matches nothing but what is advertised.
use mathlib.Core.Path.{subst}
use agents_with_chatgpt.Prelude.{
  ◌≡◌, refl, sym, ◌∙◌, inl, inr, String, Bool, true, false, ◌&&◌, not, Option, none, some, List, [],
  ◌∷◌, all, keep, length, codes, nat_eq, All, All-keep, Bool-cases, arith, if-holds, ◌==◌,
  if◌then◌else◌,
}
use agents_with_chatgpt.Catalog.{
  Entry, Section, ModelCatalog, Text, same, lower, trim_text, normalize,
}
use agents_with_chatgpt.Catalog.Identity.{Identity, nothing, one, more, match_identity}
use agents_with_chatgpt.Catalog.Suffix.{without_suffix}
use agents_with_chatgpt.Catalog.Resolution.{
  ResolveRequest, ResolveSelection, Reason, name_suffix, matched, ResolveResult, relevant_sections,
  entries_of, provider_filtered, is_given, text_of, answer, finish_match, effort_conflicts,
  split_found, split_at, try_tokens, split_trailing_effort, identified, default_match,
  against_filtered, resolve_against_entries, is_stale, absence, or_result, has_models, not_found,
  unknown_agent, resolve_sections, resolve_model_selection,
}
use agents_with_chatgpt.Catalog.Resolution.Listed.{
  Listed, InScope, FoundIn, entries-FoundIn, sections-InScope, filtered-Listed,
}
use agents_with_chatgpt.Catalog.Resolution.Matching.{
  Asked, Offered, same-text, some-text, not-false, text_of-none, text_of-Asked, Right, RightIf,
  finish-Right, none-RightIf, some-RightIf, other-RightIf, OneOf, match_identity-Listed,
}

module _ (c : ModelCatalog) (r : ResolveRequest) where
  suffix-Asked :
      (token u : Text) (s : String)
      → effort_conflicts r.effort token ≡ false
      → some token ≡ some u
      → r.effort ≡ some s
      → Asked s u
  unfolding effort_conflicts
  suffix-Asked token u s calm is_u given =
      let calm_text : effort_conflicts (some s) token ≡ false =
        subst (λ (o : Option String). effort_conflicts o token ≡ false) given calm in
      let met : same (lower (codes s)) token ≡ true = not-false _ calm_text in
      Asked.in_lower_case
        (some-text u token (sym is_u) ∙ sym (same-text (lower (codes s)) token met))

  split_found-RightIf :
      (stale : Bool) (token : Text) (i : Identity)
      → OneOf c r i
      → RightIf c r stale (split_found r stale token i)
  unfolding split_found OneOf answer
  split_found-RightIf stale token nothing h = none-RightIf c r stale
  split_found-RightIf stale token (more es) h = other-RightIf c r stale _ (λ m. absurd (cc))
  split_found-RightIf stale token (one e) h = elim (Bool-cases (effort_conflicts r.effort token)) [
    | inl clash ↦ rw clash (other-RightIf c r stale _ (λ m. absurd (cc)))
    | inr calm ↦ rw calm (
        some-RightIf c r stale _ (
          finish-Right c r e (some token) name_suffix stale (h e refl)
            (λ u is_u s given. suffix-Asked token u s calm is_u given) (λ gone. absurd (cc))))
  ]

  split_at-RightIf :
      (es : List Entry) (stale : Bool) (token : Text) (o : Option Text)
      → All (Listed c r) es
      → RightIf c r stale (split_at es r stale token o)
  unfolding split_at
  split_at-RightIf es stale token none h = none-RightIf c r stale
  split_at-RightIf es stale token (some []) h = none-RightIf c r stale
  split_at-RightIf es stale token (some (x ∷ xs)) h =
      split_found-RightIf stale token (match_identity es (x ∷ xs))
        (match_identity-Listed c r es (x ∷ xs) h)

  or-RightIf :
      (stale : Bool) (o p : Option ResolveResult)
      → RightIf c r stale o
      → RightIf c r stale p
      → RightIf c r stale (elim o [ none ↦ p | some x ↦ some x ])
  or-RightIf stale none p h k = k
  or-RightIf stale (some x) p h k = h

  try_tokens-RightIf :
      (es : List Entry) (stale : Bool) (query : Text) (ts : List Text)
      → All (Listed c r) es
      → RightIf c r stale (try_tokens es r stale query ts)
  unfolding try_tokens
  try_tokens-RightIf es stale query [] h = none-RightIf c r stale
  try_tokens-RightIf es stale query (t ∷ ts) h =
      or-RightIf stale (split_at es r stale t (without_suffix (45 ∷ t) query)) _
        (split_at-RightIf es stale t (without_suffix (45 ∷ t) query) h)
        (try_tokens-RightIf es stale query ts h)

  given-Right :
      (e : Entry) (reason : Reason) (stale : Bool)
      → Listed c r e
      → Right c r stale (finish_match e (text_of r.effort) reason stale)
  given-Right e reason stale l =
      finish-Right c r e (text_of r.effort) reason stale l
        (λ u is_u s given. text_of-Asked r.effort u s is_u given) (text_of-none r.effort)

  identified-RightIf :
      (es : List Entry) (query : Text) (stale : Bool) (i : Identity)
      → All (Listed c r) es
      → OneOf c r i
      → RightIf c r stale (identified es r query stale i)
  unfolding identified split_trailing_effort OneOf answer
  identified-RightIf es query stale nothing h k = try_tokens-RightIf es stale (normalize query) _ h
  identified-RightIf es query stale (more fs) h k = other-RightIf c r stale _ (λ m. absurd (cc))
  identified-RightIf es query stale (one e) h k =
      some-RightIf c r stale _ (given-Right e _ stale (k e refl))

  default-RightIf :
      (stale : Bool) (es : List Entry)
      → All (Listed c r) es
      → RightIf c r stale (default_match r stale es)
  unfolding default_match
  default-RightIf stale [] h = none-RightIf c r stale
  default-RightIf stale (e ∷ []) h = some-RightIf c r stale _ (given-Right e _ stale h.0)
  default-RightIf stale (e ∷ f ∷ es) h = none-RightIf c r stale

  model-RightIf :
      (es : List Entry) (stale : Bool) (o : Option String)
      → All (Listed c r) es
      → RightIf c r stale (elim o [
        | none ↦ default_match r stale (keep (λ e. e.is_default && not e.hidden) es)
        | some m ↦
            if m == ""
            then default_match r stale (keep (λ e. e.is_default && not e.hidden) es)
            else identified es r
                (trim_text (codes m))
                stale
                (match_identity es (trim_text (codes m)))
      ])
  model-RightIf es stale none h = default-RightIf stale _ (All-keep (Listed c r) _ es h)
  model-RightIf es stale (some m) h =
      if-holds (RightIf c r stale) (m == "")
        (default-RightIf stale _ (All-keep (Listed c r) _ es h))
        (identified-RightIf es (trim_text (codes m)) stale _ h
          (match_identity-Listed c r es (trim_text (codes m)) h))

  against-RightIf :
      (es : List Entry) (stale : Bool)
      → All (FoundIn c r) es
      → RightIf c r stale (resolve_against_entries es r stale)
  unfolding resolve_against_entries against_filtered
  against-RightIf es stale h =
      if-holds (RightIf c r stale)
        (nat_eq (length (provider_filtered es r)) 0 && is_given r.provider_id)
        (none-RightIf c r stale)
        (model-RightIf (provider_filtered es r) stale r.model (filtered-Listed c r es h))

  or_result-Right :
      (stale : Bool) (o : Option ResolveResult) (x : ResolveResult)
      → RightIf c r stale o
      → (x.status ≡ matched → ⊥)
      → Right c r stale (or_result o x)
  unfolding or_result RightIf Right
  or_result-Right stale none x h k = λ s m e. absurd (k m)
  or_result-Right stale (some y) x h k = h y refl

  absence-Unmatched : (ss : List Section) → (absence ss r).status ≡ matched → ⊥
  unfolding absence answer
  absence-Unmatched ss m = elim (Bool-cases (all (λ s. has_models s && s.is_complete) ss)) [
    | inl whole ↦ ground (arith, m, whole)
    | inr part ↦ ground (arith, m, part)
  ]

  sections-Right :
      (ss : List Section)
      → All (InScope c r) ss
      → Right c r (is_stale c ss) (resolve_sections c ss r)
  unfolding resolve_sections answer Right
  sections-Right ss h = elim (Bool-cases (all (λ s. not (has_models s)) ss)) [
    | inl bare ↦ rw bare (λ s m k. absurd (cc))
    | inr some_models ↦ elim (Bool-cases (is_stale c ss)) [
      | inl old ↦
          rw (some_models, old)
            (or_result-Right true (resolve_against_entries (entries_of ss) r true) _
              (against-RightIf (entries_of ss) true (entries-FoundIn c r ss h)) (λ m. absurd (cc)))
      | inr fresh ↦
          rw (some_models, fresh)
            (or_result-Right false (resolve_against_entries (entries_of ss) r false) (absence ss r)
              (against-RightIf (entries_of ss) false (entries-FoundIn c r ss h))
              (absence-Unmatched ss))
    ]
  ]

  scope-Right :
      (ss : List Section)
      → All (InScope c r) ss
      → Right c r (is_stale c ss) (elim ss [
        | [] ↦ answer not_found unknown_agent none []
        | x ∷ xs ↦ resolve_sections c (x ∷ xs) r
      ])
  unfolding answer Right
  scope-Right [] h = λ s m k. absurd (cc)
  scope-Right (x ∷ xs) h = sections-Right (x ∷ xs) h

-- A selection that is matched is offered: it is an entry of the catalog, in a section of the agent
-- that was asked for and of the provider that was asked for, and the effort is one that the entry
-- supports and is the one that was asked for, or the entry's default where none was. The catalog is
-- then not stale, as a whole or in a section that the request is about.
pub resolve-Offered :
    (c : ModelCatalog) (r : ResolveRequest) (s : ResolveSelection)
    → (resolve_model_selection (some c) r).status ≡ matched
    → (resolve_model_selection (some c) r).selection ≡ some s
    → (is_stale c (relevant_sections c r.agent) ≡ false) × Offered c r s
unfolding resolve_model_selection Right
resolve-Offered c r s = scope-Right c r (relevant_sections c r.agent) (sections-InScope c r) s
