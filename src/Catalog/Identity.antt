-- ===== src/Catalog/Identity.antt =====
-- src/execution/model-catalog.ts: `matchIdentity`, which entries a name means.
use agents_with_chatgpt.Prelude.{Bool, false, none, some, List, [], ◌∷◌, keep, codes}
use agents_with_chatgpt.Catalog.{Entry, Text, same, lower, normalize, display_base_matches}

unfoldable pub named : (Text → Bool) → Entry → Bool
named p e = elim e.display_name [ none ↦ false | some n ↦ p (codes n) ]

-- the tiers of `matchIdentity`, the strictest first
unfoldable pub tiers : Text → List (Entry → Bool)
tiers query =
    (λ e. same (codes e.model_id) query)
    ∷ (λ e. same (lower (codes e.model_id)) (lower query))
    ∷ (λ e. named (λ n. same (lower n) (lower query)) e)
    ∷ (λ e. same (normalize (codes e.model_id)) (normalize query))
    ∷ (λ e. named (λ n. display_base_matches n query) e)
    ∷ []

pub data Identity : Type 0 where
  nothing : Identity
  one : Entry → Identity
  more : List Entry → Identity

unfoldable pub first_hits : List (Entry → Bool) → List Entry → Identity
first_hits [] entries = nothing
first_hits (p ∷ ps) entries =
    let rest = first_hits ps entries in
    elim (keep p entries) [
      | [] ↦ rest
      | e ∷ es ↦ elim es [ [] ↦ one e | f ∷ fs ↦ more (e ∷ f ∷ fs) ]
    ]

-- `matchIdentity`
unfoldable pub match_identity : List Entry → Text → Identity
match_identity entries query = first_hits (tiers query) entries
