-- ===== src/Catalog/Resolution/Listed.antt =====
-- src/execution/model-catalog.ts: the entries that a request may be answered with.
use mathlib.Core.List.{Memᴰ}
use agents_with_chatgpt.Prelude.{
  ◌≡◌, refl, true, List, [], ◌∷◌, All, All-append, All-keep, All-map, All-kept,
}
use agents_with_chatgpt.Catalog.{Entry, Section, ModelCatalog}
use agents_with_chatgpt.Catalog.Resolution.{
  ResolveRequest, asks_agent, relevant_sections, entries_of, from_provider, provider_filtered,
}

-- The entry stands in a section of the catalog that the request is about, and is the provider's
-- that the request names.
pub record Listed (c : ModelCatalog) (r : ResolveRequest) (e : Entry) : Type 0 where
  pub section : Section
  pub in_catalog : Memᴰ section c.agents
  pub asked : asks_agent r.agent section.agent ≡ true
  pub in_section : Memᴰ e section.models
  pub provider : from_provider r.provider_id e ≡ true

pub All-self : {A : Type 0} (xs : List A) → All (λ x. Memᴰ x xs) xs
All-self [] = tt
All-self (x ∷ xs) = (
  Memᴰ.head refl,
  All-map (λ y. Memᴰ y xs) (λ y. Memᴰ y (x ∷ xs)) xs (λ y m. Memᴰ.tail m) (All-self xs),
)

All-both :
    {A : Type 0} (P Q : A → Type 0) (xs : List A) → All P xs → All Q xs → All (λ x. P x × Q x) xs
All-both P Q [] p q = tt
All-both P Q (x ∷ xs) p q = ((p.0, q.0), All-both P Q xs p.1 q.1)

unfoldable pub InScope : ModelCatalog → ResolveRequest → Section → Type 0
InScope c r s = Memᴰ s c.agents × (asks_agent r.agent s.agent ≡ true)

unfoldable pub FoundIn : ModelCatalog → ResolveRequest → Entry → Type 0
FoundIn c r e = (s : Section) × InScope c r s × Memᴰ e s.models

pub entries-FoundIn :
    (c : ModelCatalog) (r : ResolveRequest) (ss : List Section)
    → All (InScope c r) ss
    → All (FoundIn c r) (entries_of ss)
unfolding entries_of FoundIn
entries-FoundIn c r [] h = tt
entries-FoundIn c r (s ∷ ss) h =
    All-append (FoundIn c r) s.models (entries_of ss)
      (All-map (λ e. Memᴰ e s.models) (FoundIn c r) s.models (λ e m. (s, h.0, m))
        (All-self s.models))
      (entries-FoundIn c r ss h.1)

pub sections-InScope :
    (c : ModelCatalog) (r : ResolveRequest) → All (InScope c r) (relevant_sections c r.agent)
unfolding relevant_sections InScope
sections-InScope c r =
    All-both (λ s. Memᴰ s c.agents) _ (relevant_sections c r.agent)
      (All-keep (λ s. Memᴰ s c.agents) _ c.agents (All-self c.agents)) (All-kept _ c.agents)

pub filtered-Listed :
    (c : ModelCatalog) (r : ResolveRequest) (es : List Entry)
    → All (FoundIn c r) es
    → All (Listed c r) (provider_filtered es r)
unfolding provider_filtered FoundIn InScope
filtered-Listed c r es h =
    All-map (λ e. FoundIn c r e × (from_provider r.provider_id e ≡ true)) (Listed c r)
      (provider_filtered es r)
      (λ e x. record {
        section = x.0.0;
        in_catalog = x.0.1.0;
        asked = x.0.1.1;
        in_section = x.0.2;
        provider = x.1;
      })
      (All-both (FoundIn c r) _ (provider_filtered es r)
        (All-keep (FoundIn c r) (from_provider r.provider_id) es h)
        (All-kept (from_provider r.provider_id) es))
