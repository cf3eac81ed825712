-- ===== src/Catalog/Resolution/Known.antt =====
-- `resolveModelSelection` of src/execution/model-catalog.ts never says of a model that is advertised
-- that it does not exist.
use mathlib.Core.Path.{subst}
use mathlib.Core.List.{Memᴰ}
use agents_with_chatgpt.Prelude.{
  ◌≡◌, ◌≢◌, refl, sym, ap, ◌∙◌, inl, inr, String, Bool, true, false, ◌&&◌, not, Option, none, some,
  List, [], ◌∷◌, all, keep, length, codes, nat_eq, eq_iff, any, All, ◌⊎◌, Bool-cases, arith,
  if◌then◌else◌,
}
use agents_with_chatgpt.Catalog.{
  Entry, Section, ModelCatalog, Text, same, trim_text, normalize, effort_supported,
}
use agents_with_chatgpt.Catalog.Identity.{Identity, one, more, first_hits, tiers, match_identity}
use agents_with_chatgpt.Catalog.Resolution.{
  ResolveRequest, Reason, effort_unsupported, not_found, ResolveResult, relevant_sections,
  entries_of, provider_filtered, answer, check_effort, finish_match, identified, against_filtered,
  resolve_against_entries, is_stale, has_models, or_result, resolve_sections,
  resolve_model_selection, unknown_agent, text_of, stale_match, match_reason,
}

-- An effort was asked for, and it is none of those that the entry supports, which are some; the
-- reason names it and the entry.
pub record Unsupported (e : Entry) (asked : Option String) (x : ResolveResult) : Type 0 where
  pub effort : String
  pub is_asked : asked ≡ some effort
  pub told : x.reason ≡ effort_unsupported e.model_id (codes effort)
  pub some_efforts : e.supported_efforts ≢ []
  pub not_among : All (λ s. normalize (codes s) ≢ normalize (codes effort)) e.supported_efforts

-- The only thing that is not found is the effort, at this entry.
Known : Entry → Option String → ResolveResult → Type 0
Known e asked x = x.status ≡ not_found → Unsupported e asked x

same_refl : (xs : Text) → same xs xs ≡ true
unfolding same
same_refl [] = refl
same_refl (x ∷ xs) = ground (arith, same_refl xs)

any-false :
    (u : Text) (ss : List String)
    → any (λ s. same (normalize (codes s)) u) ss ≡ false
    → All (λ s. normalize (codes s) ≢ u) ss
any-false u [] h = tt
any-false u (s ∷ ss) h = (
  λ e.
      let here : same (normalize (codes s)) u ≡ true =
        subst (λ v. same (normalize (codes s)) v ≡ true) e (same_refl (normalize (codes s))) in
      ground (arith, h, here),
  any-false u ss (ground (arith, h)),
)

keep-here :
    {A : Type 0} (p : A → Bool) (x : A) (xs : List A) → p x ≡ true → keep p (x ∷ xs) ≡ x ∷ keep p xs
keep-here p x xs h = rw h refl

keep-skip :
    {A : Type 0} (p : A → Bool) (x : A) (xs : List A) → p x ≡ false → keep p (x ∷ xs) ≡ keep p xs
keep-skip p x xs h = rw h refl

kept :
    {A : Type 0} (p : A → Bool) (x : A) (xs : List A) → Memᴰ x xs → p x ≡ true → Memᴰ x (keep p xs)
kept p x [] m h = elim m [ ]
kept p x (y ∷ xs) (Memᴰ.head e) h =
    subst (Memᴰ x) (sym (keep-here p y xs (ap p (sym e) ∙ h))) (Memᴰ.head e)
kept p x (y ∷ xs) (Memᴰ.tail m) h = elim (Bool-cases (p y)) [
  | inl is ↦ subst (Memᴰ x) (sym (keep-here p y xs is)) (Memᴰ.tail (kept p x xs m h))
  | inr skipped ↦ subst (Memᴰ x) (sym (keep-skip p y xs skipped)) (kept p x xs m h)
]

-- The entry is the one that is meant, or there are several.
Means : Entry → Identity → Type 0
Means e i = (i ≡ one e) ⊎ ((fs : List Entry) × (i ≡ more fs))

hits : Identity → List Entry → Identity
hits rest es = elim es [ [] ↦ rest | e ∷ es ↦ elim es [ [] ↦ one e | f ∷ fs ↦ more (e ∷ f ∷ fs) ] ]

hits-Means : (rest : Identity) (e : Entry) (es : List Entry) → Memᴰ e es → Means e (hits rest es)
unfolding hits Means
hits-Means rest e [] m = elim m [ ]
hits-Means rest e (f ∷ []) (Memᴰ.head same_one) = inl (ap one (sym same_one))
hits-Means rest e (f ∷ []) (Memᴰ.tail m) = elim m [ ]
hits-Means rest e (f ∷ g ∷ gs) m = inr (f ∷ g ∷ gs, refl)

hit-Means :
    (p : Entry → Bool) (ps : List (Entry → Bool)) (e : Entry) (es : List Entry)
    → Memᴰ e es
    → p e ≡ true
    → Means e (first_hits (p ∷ ps) es)
unfolding first_hits hits
hit-Means p ps e es m h = hits-Means (first_hits ps es) e (keep p es) (kept p e es m h)

check-Known :
    (e : Entry) (asked : Option String) (reason : Reason)
    → Known e asked (check_effort e (text_of asked) reason)
unfolding Known check_effort answer text_of effort_supported
check-Known e none reason = λ m. absurd (cc)
check-Known e (some s) reason = elim (Bool-cases (nat_eq (length e.supported_efforts) 0)) [
  | inl bare ↦ rw bare (λ m. absurd (cc))
  | inr able ↦ elim (Bool-cases (effort_supported e (codes s))) [
    | inl good ↦ rw (able, good) (λ m. absurd (cc))
    | inr bad ↦
        rw (able, bad)
          (λ m. record {
            effort = s;
            is_asked = refl;
            told = refl;
            some_efforts = λ empty. ground (arith, able, ap length empty);
            not_among = any-false (normalize (codes s)) e.supported_efforts bad;
          })
  ]
]

finish-Known :
    (e : Entry) (asked : Option String) (reason : Reason) (stale : Bool)
    → Known e asked (finish_match e (text_of asked) reason stale)
unfolding finish_match answer Known
finish-Known e asked reason true = λ m. absurd (cc)
finish-Known e asked reason false = check-Known e asked reason

identified-Known :
    (es : List Entry) (r : ResolveRequest) (q : Text) (stale : Bool) (e : Entry) (i : Identity)
    → Means e i
    → (x : ResolveResult) × (identified es r q stale i ≡ some x) × Known e r.effort x
unfolding identified answer Known Means
identified-Known es r q stale e i (inl is) = (
  _,
  ap (identified es r q stale) is,
  finish-Known e r.effort (if stale then stale_match else match_reason q e) stale,
)
identified-Known es r q stale e i (inr (fs, is)) =
    (_, ap (identified es r q stale) is, λ m. absurd (cc))

match-Means :
    (e : Entry) (es : List Entry) (q : Text)
    → Memᴰ e es
    → same (codes e.model_id) q ≡ true
    → Means e (match_identity es q)
unfolding match_identity tiers
match-Means e es q m h = hit-Means (λ x. same (codes x.model_id) q) _ e es m h

full : (e : Entry) (es : List Entry) → Memᴰ e es → nat_eq (length es) 0 ≡ false
full e [] m = elim m [ ]
full e (x ∷ es) m = ground arith

skip-if : (b c : Bool) (x y : Option ResolveResult) → b ≡ false → (if b && c then x else y) ≡ y
skip-if b c x y h = rw h refl

some-result : (x y : ResolveResult) → some x ≡ some y → x ≡ y
some-result x y h = cc

module _ (r : ResolveRequest) (e : Entry) (name : String) (given : r.model ≡ some name)
    (some_name : name ≢ "")
    (same_name : same (codes e.model_id) (trim_text (codes name)) ≡ true) where
  model-named :
      (es : List Entry) (stale : Bool)
      → against_filtered es r stale
        ≡ identified es r
            (trim_text (codes name))
            stale
            (match_identity es (trim_text (codes name)))
  unfolding against_filtered
  model-named es stale = ground (arith, given, eq_iff name "")

  against-Known :
      (es : List Entry) (stale : Bool)
      → Memᴰ e (provider_filtered es r)
      → (x : ResolveResult) × (resolve_against_entries es r stale ≡ some x) × Known e r.effort x
  unfolding resolve_against_entries
  against-Known es stale m =
      let (x, got, known) =
        identified-Known (provider_filtered es r) r (trim_text (codes name)) stale e
          (match_identity (provider_filtered es r) (trim_text (codes name)))
          (match-Means e (provider_filtered es r) (trim_text (codes name)) m same_name) in
      (
        x,
        skip-if _ _ _ _ (full e (provider_filtered es r) m)
            ∙ model-named (provider_filtered es r) stale
            ∙ got,
        known,
      )

  or-Known :
      (o : Option ResolveResult) (y x : ResolveResult)
      → o ≡ some x
      → Known e r.effort x
      → Known e r.effort (or_result o y)
  unfolding or_result
  or-Known none y x h k = absurd (cc)
  or-Known (some z) y x h k = subst (Known e r.effort) (some-result x z (sym h)) k

  sections-Known :
      (c : ModelCatalog) (ss : List Section)
      → Memᴰ e (provider_filtered (entries_of ss) r)
      → Known e r.effort (resolve_sections c ss r)
  unfolding resolve_sections answer Known
  sections-Known c ss m = elim (Bool-cases (all (λ s. not (has_models s)) ss)) [
    | inl bare ↦ rw bare (λ h. absurd (cc))
    | inr some_models ↦ elim (Bool-cases (is_stale c ss)) [
      | inl old ↦
          let (x, got, known) = against-Known (entries_of ss) true m in
          rw (some_models, old) (or-Known _ _ x got known)
      | inr fresh ↦
          let (x, got, known) = against-Known (entries_of ss) false m in
          rw (some_models, fresh) (or-Known _ _ x got known)
    ]
  ]

  scope-Known :
      (c : ModelCatalog) (ss : List Section)
      → Memᴰ e (provider_filtered (entries_of ss) r)
      → Known e r.effort (elim ss [
        | [] ↦ answer not_found unknown_agent none []
        | x ∷ xs ↦ resolve_sections c (x ∷ xs) r
      ])
  unfolding entries_of provider_filtered
  scope-Known c [] m = elim m [ ]
  scope-Known c (x ∷ xs) m = sections-Known c (x ∷ xs) m

-- A model that the catalog advertises, for the agent and the provider that are asked for, is never
-- answered to be missing when it is asked for by its own id: "not found" then means that an effort
-- was asked for which is none of those that this very entry supports, its texts normalized, and the
-- reason says so.
pub resolve-known :
    (c : ModelCatalog) (r : ResolveRequest) (e : Entry) (name : String)
    → r.model ≡ some name
    → name ≢ ""
    → same (codes e.model_id) (trim_text (codes name)) ≡ true
    → Memᴰ e (provider_filtered (entries_of (relevant_sections c r.agent)) r)
    → (resolve_model_selection (some c) r).status ≡ not_found
    → Unsupported e r.effort (resolve_model_selection (some c) r)
unfolding resolve_model_selection Known
resolve-known c r e name given some_name same_name m =
    scope-Known r e name given some_name same_name c (relevant_sections c r.agent) m
