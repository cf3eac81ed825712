-- ===== src/Catalog/Resolution/Matching.antt =====
-- src/execution/model-catalog.ts: the end of a resolution, `finishMatch`, and what it answers with.
use mathlib.Core.Path.{subst}
use agents_with_chatgpt.Prelude.{
  ◌≡◌, refl, sym, ap, ◌∙◌, inl, inr, String, Bool, true, false, not, Option, none, some, List, [],
  ◌∷◌, keep, length, codes, nat_eq, All, All-keep, Bool-cases, arith,
}
use agents_with_chatgpt.Catalog.{Entry, ModelCatalog, Text, same, lower, effort_supported}
use agents_with_chatgpt.Catalog.Identity.{Identity, one, more, first_hits, tiers, match_identity}
use agents_with_chatgpt.Catalog.Resolution.{
  ResolveRequest, ResolveSelection, Reason, matched, ResolveResult, text_of, answer, chosen,
  check_effort, finish_match,
}
use agents_with_chatgpt.Catalog.Resolution.Listed.{Listed}

-- The effort that was asked for, as it was written or in lower case.
pub data Asked (s : String) (t : Text) : Type 0 where
  as_written : t ≡ codes s → Asked s t
  in_lower_case : t ≡ lower (codes s) → Asked s t

pub data EffortOf (r : ResolveRequest) (e : Entry) (t : Option Text) : Type 0 where
  of_default : r.effort ≡ none → t ≡ text_of e.default_effort → EffortOf r e t
  supported :
      (u : Text)
      → t ≡ some u
      → effort_supported e u ≡ true
      → ((s : String) → r.effort ≡ some s → Asked s u)
      → EffortOf r e t

pub record Offered (c : ModelCatalog) (r : ResolveRequest) (s : ResolveSelection) : Type 0 where
  pub entry : Entry
  pub listed : Listed c r entry
  pub agent : s.agent ≡ entry.agent
  pub provider_id : s.provider_id ≡ entry.provider_id
  pub model_id : s.model_id ≡ entry.model_id
  pub effort : EffortOf r entry s.effort

pub same-text : (xs ys : Text) → same xs ys ≡ true → xs ≡ ys
unfolding same
same-text [] [] h = refl
same-text [] (y ∷ ys) h = absurd (cc)
same-text (x ∷ xs) [] h = absurd (cc)
same-text (x ∷ xs) (y ∷ ys) h = ground (arith, same-text xs ys)

some-string : (x y : String) → some x ≡ some y → x ≡ y
some-string x y h = cc

pub not-false : (b : Bool) → not b ≡ false → b ≡ true
not-false b h = ground (arith, h)

pub some-text : (x y : Text) → some x ≡ some y → x ≡ y
some-text x y h = cc

pub text_of-none : (o : Option String) → text_of o ≡ none → o ≡ none
unfolding text_of
text_of-none none h = refl
text_of-none (some s) h = absurd (cc)

pub text_of-Asked :
    (o : Option String) (u : Text) (s : String) → text_of o ≡ some u → o ≡ some s → Asked s u
unfolding text_of
text_of-Asked none u s h k = absurd (cc)
text_of-Asked (some x) u s h k =
    Asked.as_written (some-text u (codes x) (sym h) ∙ ap codes (some-string x s k))

pub some-same : (x y : ResolveSelection) → some x ≡ some y → x ≡ y
some-same x y h = cc

module _ (c : ModelCatalog) (r : ResolveRequest) where
  -- A match is of something offered, and of a catalog that is not stale.
  unfoldable pub Right : Bool → ResolveResult → Type 0
  Right stale x =
      (s : ResolveSelection)
      → x.status ≡ matched
      → x.selection ≡ some s
      → (stale ≡ false) × Offered c r s

  unfoldable pub RightIf : Bool → Option ResolveResult → Type 0
  RightIf stale o = (x : ResolveResult) → o ≡ some x → Right stale x

  chosen-Offered :
      (e : Entry) (t : Option Text) (s : ResolveSelection)
      → Listed c r e
      → EffortOf r e t
      → some (chosen e t) ≡ some s
      → Offered c r s
  unfolding chosen
  chosen-Offered e t s l effort h = subst (Offered c r) (some-same _ s h) (record {
    entry = e;
    listed = l;
    agent = refl;
    provider_id = refl;
    model_id = refl;
    effort = effort;
  })

  check-Right :
      (e : Entry) (u : Text) (reason : Reason)
      → Listed c r e
      → ((s : String) → r.effort ≡ some s → Asked s u)
      → Right false (check_effort e (some u) reason)
  unfolding check_effort answer Right
  check-Right e u reason l asked = elim (Bool-cases (nat_eq (length e.supported_efforts) 0)) [
    | inl bare ↦ rw bare (λ s m h. absurd (cc))
    | inr able ↦ elim (Bool-cases (effort_supported e u)) [
      | inl yes_it ↦
          rw (able, yes_it)
            (λ s m h.
              (refl, chosen-Offered e (some u) s l (EffortOf.supported u refl yes_it asked) h))
      | inr not_it ↦ rw (able, not_it) (λ s m h. absurd (cc))
    ]
  ]

  pub finish-Right :
      (e : Entry) (t : Option Text) (reason : Reason) (stale : Bool)
      → Listed c r e
      → ((u : Text) → t ≡ some u → (s : String) → r.effort ≡ some s → Asked s u)
      → (t ≡ none → r.effort ≡ none)
      → Right stale (finish_match e t reason stale)
  unfolding finish_match check_effort answer Right
  finish-Right e t reason true l asked free = λ s m h. absurd (cc)
  finish-Right e none reason false l asked free = λ s m h. (
    refl,
    chosen-Offered e (text_of e.default_effort) s l (EffortOf.of_default (free refl) refl) h,
  )
  finish-Right e (some u) reason false l asked free = check-Right e u reason l (asked u refl)

  pub none-RightIf : (stale : Bool) → RightIf stale none
  unfolding RightIf
  none-RightIf stale x e = absurd (cc)

  pub some-RightIf : (stale : Bool) (x : ResolveResult) → Right stale x → RightIf stale (some x)
  unfolding RightIf
  some-RightIf stale x h y e = subst (Right stale) (cc) h

  -- an answer that matches nothing
  pub other-RightIf :
      (stale : Bool) (x : ResolveResult) → (x.status ≡ matched → ⊥) → RightIf stale (some x)
  unfolding Right
  other-RightIf stale x h = some-RightIf stale x (λ s m k. absurd (h m))

  unfoldable pub OneOf : Identity → Type 0
  OneOf i = (e : Entry) → i ≡ one e → Listed c r e

  hits-Listed :
      (hits : List Entry) (rest : Identity) (e : Entry)
      → All (Listed c r) hits
      → (rest ≡ one e → Listed c r e)
      → (elim hits [ [] ↦ rest | x ∷ xs ↦ elim xs [ [] ↦ one x | y ∷ ys ↦ more (x ∷ y ∷ ys) ] ])
        ≡ one e
      → Listed c r e
  hits-Listed [] rest e a f k = f k
  hits-Listed (x ∷ []) rest e a f k = subst (Listed c r) (cc) a.0
  hits-Listed (x ∷ y ∷ ys) rest e a f k = absurd (cc)

  first_hits-Listed :
      (ps : List (Entry → Bool)) (es : List Entry) → All (Listed c r) es → OneOf (first_hits ps es)
  unfolding first_hits OneOf
  first_hits-Listed [] es h e k = absurd (cc)
  first_hits-Listed (p ∷ ps) es h e k =
      hits-Listed (keep p es) (first_hits ps es) e (All-keep (Listed c r) p es h)
        (first_hits-Listed ps es h e) k

  pub match_identity-Listed :
      (es : List Entry) (query : Text) → All (Listed c r) es → OneOf (match_identity es query)
  unfolding match_identity
  match_identity-Listed es query h = first_hits-Listed (tiers query) es h
