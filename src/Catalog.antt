-- ===== src/Catalog.antt =====
-- src/execution/model-catalog.ts: what the agents advertise, and how a name is compared with it. Of
-- an entry, what only describes it is left out. Texts are compared as lists of code points; letters
-- are folded as in ASCII.
pub mod Identity
pub mod Suffix
pub mod Resolution
use agents_with_chatgpt.Prelude.{
  ℕ, ◌+◌, String, Bool, true, false, ◌&&◌, ◌||◌, not, Option, none, some, List, [], ◌∷◌, ◌++◌, map,
  any, all, keep, length, take, is_some, is_blank, fold_case, codes, nat_eq, ltb, leb, ◌==◌,
  if◌then◌else◌,
}

-- `CatalogAgent`
pub data Agent : Type 0 where
  codex antigravity zcode dsh : Agent

unfoldable pub agent_eq : Agent → Agent → Bool
agent_eq codex codex = true
agent_eq antigravity antigravity = true
agent_eq zcode zcode = true
agent_eq dsh dsh = true
agent_eq _ _ = false

-- `CatalogModelEntry`; of the efforts, the names
pub record Entry : Type 0 where
  pub agent : Agent
  pub provider_id : Option String
  pub model_id : String
  pub display_name : Option String
  pub supported_efforts : List String
  pub default_effort : Option String
  pub is_default : Bool
  pub hidden : Bool

-- `AgentCatalogSection`
pub record Section : Type 0 where
  pub agent : Agent
  pub is_complete : Bool
  pub models : List Entry
  pub served_from_stale_cache : Bool

-- `ModelCatalog`
pub record ModelCatalog : Type 0 where
  pub catalog_revision : String
  pub is_fresh : Bool
  pub agents : List Section

pub record Candidate : Type 0 where
  pub agent : Agent
  pub provider_id : Option String
  pub model_id : String
  pub display_name : Option String
  pub default_effort : Option String

-- `toCandidate`
abbrev pub to_candidate : Entry → Candidate
to_candidate e = record {
  agent = e.agent;
  provider_id = e.provider_id;
  model_id = e.model_id;
  display_name = e.display_name;
  default_effort = e.default_effort;
}

abbrev pub Text : Type 0
Text = List ℕ

pub same : Text → Text → Bool
same [] [] = true
same (x ∷ xs) (y ∷ ys) = nat_eq x y && same xs ys
same _ _ = false

-- `length`, in units of UTF-16
pub units : Text → ℕ
units [] = 0
units (c ∷ cs) = (if leb 65536 c then 2 else 1) + units cs

pub lower : Text → Text
lower = map fold_case

pub trim_start : Text → Text
trim_start [] = []
trim_start (c ∷ cs) = let rest = trim_start cs in if is_blank c then rest else c ∷ cs

pub trim_end : Text → Text
trim_end [] = []
trim_end (c ∷ cs) = elim (trim_end cs) [
  | [] ↦ if is_blank c then [] else c ∷ []
  | d ∷ ds ↦ c ∷ d ∷ ds
]

pub trim_text : Text → Text
trim_text t = trim_end (trim_start t)

-- `replace(/[class]+/g, "-")`; whether a run has begun is an argument
squash : (ℕ → Bool) → Bool → Text → Text
squash p running [] = []
squash p running (c ∷ cs) =
    let inside = squash p true cs in
    let outside = squash p false cs in
    if p c then (if running then inside else 45 ∷ inside) else c ∷ outside

is_separator : ℕ → Bool
is_separator c = nat_eq c 95 || is_blank c

is_dash : ℕ → Bool
is_dash c = nat_eq c 45

drop_dash : Text → Text
drop_dash [] = []
drop_dash (c ∷ cs) = if is_dash c then cs else c ∷ cs

drop_last_dash : Text → Text
drop_last_dash [] = []
drop_last_dash (c ∷ []) = if is_dash c then [] else c ∷ []
drop_last_dash (c ∷ d ∷ cs) = let rest = drop_last_dash (d ∷ cs) in c ∷ rest

-- `normalizeModelToken`
pub normalize : Text → Text
normalize t =
    drop_last_dash
      (drop_dash (squash is_dash false (squash is_separator false (trim_text (lower t)))))

-- what stands before the last character, which is ")", where no other ")" stands there
closes : Text → Option Text
closes [] = none
closes (c ∷ []) = if nat_eq c 41 then some [] else none
closes (c ∷ d ∷ cs) =
    let rest = closes (d ∷ cs) in
    if nat_eq c 41 then none else elim rest [ none ↦ none | some t ↦ some (c ∷ t) ]

is_nonempty : Option Text → Bool
is_nonempty none = false
is_nonempty (some []) = false
is_nonempty (some (c ∷ cs)) = true

one_further : Option (ℕ × Text) → Option (ℕ × Text)
one_further none = none
one_further (some (n, t)) = some (n + 1, t)

-- /\(([^)]+)\)\s*$/ on a text without blanks at its end: how far before the match, and what is in it
parenthesis : Text → Option (ℕ × Text)
parenthesis [] = none
parenthesis (c ∷ cs) =
    let further = one_further (parenthesis cs) in
    if nat_eq c 40 && is_nonempty (closes cs)
    then (elim (closes cs) [ none ↦ none | some t ↦ some (0, t) ])
    else further

-- `displayBaseMatches`; the place of the parenthesis is counted in the trimmed text and cut off in
-- the text as it is
pub display_base_matches : Text → Text → Bool
display_base_matches name query = elim (parenthesis (trim_text name)) [
  | none ↦ same (normalize name) (normalize query)
  | some (n, t) ↦
      same (normalize (trim_text (take n name))) (normalize query)
      || same (normalize query) (normalize (trim_text (take n name) ++ 45 ∷ normalize t))
]

-- `effortSupported`
pub effort_supported : Entry → Text → Bool
effort_supported e effort =
    any (λ s. same (normalize (codes s)) (normalize effort)) e.supported_efforts
