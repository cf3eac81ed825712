-- ===== src/Catalog/Suffix.antt =====
-- src/execution/model-catalog.ts: the part of `splitTrailingEffort` that handles texts, which are the
-- efforts the entries support, the longest first, and a name without the effort at its end.
use agents_with_chatgpt.Prelude.{
  String, Option, none, some, List, [], ◌∷◌, ◌++◌, any, codes, ltb, ◌==◌, if◌then◌else◌,
}
use agents_with_chatgpt.Catalog.{Entry, Text, same, lower, units}

-- `new Set` keeps the first of equal texts
unfoldable pub add_token : Text → List Text → List Text
add_token t ts = if any (same t) ts then ts else ts ++ t ∷ []

unfoldable pub add_tokens : List String → List Text → List Text
add_tokens [] ts = ts
add_tokens (s ∷ ss) ts = add_tokens ss (if s == "" then ts else add_token (lower (codes s)) ts)

unfoldable pub effort_tokens : List Entry → List Text → List Text
effort_tokens [] ts = ts
effort_tokens (e ∷ es) ts = effort_tokens es (add_tokens e.supported_efforts ts)

-- `sort((a, b) => b.length - a.length)`, which keeps the order of equally long texts
unfoldable pub insert_token : Text → List Text → List Text
insert_token t [] = t ∷ []
insert_token t (u ∷ us) =
    let rest = insert_token t us in if ltb (units t) (units u) then u ∷ rest else t ∷ u ∷ us

unfoldable pub longest_first : List Text → List Text
longest_first [] = []
longest_first (t ∷ ts) = insert_token t (longest_first ts)

-- what stands before the suffix
unfoldable pub without_suffix : Text → Text → Option Text
without_suffix suffix [] = if same suffix [] then some [] else none
without_suffix suffix (c ∷ cs) =
    let rest = without_suffix suffix cs in
    if same suffix (c ∷ cs) then some [] else elim rest [ none ↦ none | some t ↦ some (c ∷ t) ]
