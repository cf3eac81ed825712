-- ===== src/Prelude/Patterns.antt =====
-- The anchored regular expressions of the source: a literal prefix, then a run of one character
-- class with bounds on its length. Texts are read as lists of code points.
use Prim.Native.Nat.{ℕ, ◌+◌, ◌-◌}
use text.Mathlib.Text.{◌==◌}
use Prim.Native.Char.{code}
use Prim.Native.String.{String}
use mathlib.Core.Bool.{Bool, true, false, ◌&&◌, ◌||◌, not}
use mathlib.Core.Option.{Option, none, some}
use mathlib.Core.List.{List, [], ◌∷◌, ◌++◌, map}
use mathlib.Core.Path.{◌≡◌, refl, ap, ◌∙◌}
use mathlib.Core.Logic.{◌↔◌, inl, inr}
use native.Mathlib.Omega.{arith}
use agents_with_chatgpt.Prelude.Tests.{leb, nat_eq, if◌then◌else◌, Bool-cases, Option-cases}
use agents_with_chatgpt.Prelude.Lists.{length, all}

-- the text as a list of its code points
abbrev pub codes : String → List ℕ
codes String.[] = []
codes (String.◌∷◌ head tail) = code head ∷ codes tail

-- [lo-hi]
abbrev pub in_range : ℕ → ℕ → ℕ → Bool
in_range lo hi n = leb lo n && leb n hi

-- [0-9a-f]
abbrev pub is_hex : ℕ → Bool
is_hex n = in_range 48 57 n || in_range 97 102 n

-- [0-9a-f-]
abbrev pub is_hex_dash : ℕ → Bool
is_hex_dash n = is_hex n || nat_eq n 45

-- [A-Za-z0-9]
abbrev pub is_alnum : ℕ → Bool
is_alnum n = in_range 48 57 n || in_range 65 90 n || in_range 97 122 n

-- [A-Za-z0-9_-]
abbrev pub is_id : ℕ → Bool
is_id n = is_alnum n || nat_eq n 95 || nat_eq n 45

-- the `i` flag, over ASCII
abbrev pub fold_case : ℕ → ℕ
fold_case n = if in_range 65 90 n then n + 32 else n

abbrev pub after_prefix : List ℕ → List ℕ → Option (List ℕ)
after_prefix [] cs = some cs
after_prefix (p ∷ ps) [] = none
after_prefix (p ∷ ps) (c ∷ cs) = if nat_eq p c then after_prefix ps cs else none

-- /^[class]{lo,hi}$/
abbrev pub spans : (ℕ → Bool) → ℕ → ℕ → List ℕ → Bool
spans p lo hi cs = all p cs && leb lo (length cs) && leb (length cs) hi

abbrev pub spans_opt : (ℕ → Bool) → ℕ → ℕ → Option (List ℕ) → Bool
spans_opt p lo hi none = false
spans_opt p lo hi (some cs) = spans p lo hi cs

-- /^prefix[class]{lo,hi}$/
unfoldable pub matches : String → (ℕ → Bool) → ℕ → ℕ → String → Bool
matches prefix p lo hi s = spans_opt p lo hi (after_prefix (codes prefix) (codes s))

-- /^prefix[class]{lo,hi}$/i, the prefix written in lower case
unfoldable pub matches_i : String → (ℕ → Bool) → ℕ → ℕ → String → Bool
matches_i prefix p lo hi s =
    spans_opt p lo hi (after_prefix (codes prefix) (map fold_case (codes s)))

-- /^[first][rest]{0,hi}$/
abbrev pub leads : (ℕ → Bool) → (ℕ → Bool) → ℕ → List ℕ → Bool
leads first rest hi [] = false
leads first rest hi (c ∷ cs) = first c && spans rest 0 hi cs

unfoldable pub matches_head : (ℕ → Bool) → (ℕ → Bool) → ℕ → String → Bool
matches_head first rest hi s = leads first rest hi (codes s)

-- the white space and line ends that `trim` takes off
abbrev pub is_blank : ℕ → Bool
is_blank n =
    in_range 9 13 n
    || nat_eq n 32
    || nat_eq n 160
    || nat_eq n 5760
    || in_range 8192 8202 n
    || in_range 8232 8233 n
    || nat_eq n 8239
    || nat_eq n 8287
    || nat_eq n 12288
    || nat_eq n 65279

abbrev trim_start : String → String
trim_start String.[] = ""
trim_start (String.◌∷◌ head tail) =
    let rest = trim_start tail in if is_blank (code head) then rest else String.◌∷◌ head tail

abbrev trim_end : String → String
trim_end String.[] = ""
trim_end (String.◌∷◌ head tail) =
    let rest = trim_end tail in
    if is_blank (code head) && rest == "" then "" else String.◌∷◌ head rest

-- `s.trim()`
unfoldable pub trim : String → String
trim s = trim_end (trim_start s)

-- the UTF-16 units of one character
abbrev units : ℕ → ℕ
units n = if leb 65536 n then 2 else 1

-- `s.slice(0, n)`; of a pair of units that the cut would split, nothing is kept
unfoldable pub slice_to : ℕ → String → String
slice_to n String.[] = ""
slice_to n (String.◌∷◌ head tail) =
    let rest = slice_to (n - units (code head)) tail in
    if leb (units (code head)) n then String.◌∷◌ head rest else ""

-- `s.length`
unfoldable pub text_length : String → ℕ
text_length String.[] = 0
text_length (String.◌∷◌ head tail) = units (code head) + text_length tail

-- A place in the text where `p` holds of what follows.
abbrev somewhere : (List ℕ → Bool) → List ℕ → Bool
somewhere p [] = p []
somewhere p (c ∷ cs) = p (c ∷ cs) || somewhere p cs

-- `\b`, behind a letter or digit
abbrev pub ends_word : List ℕ → Bool
ends_word [] = true
ends_word (c ∷ cs) = not (is_alnum c || nat_eq c 95)

abbrev follows : (List ℕ → Bool) → Option (List ℕ) → Bool
follows p none = false
follows p (some cs) = p cs

-- /text/i and /text\b/i, the text in lower case, anywhere in `s`
unfoldable pub contains_i : String → String → Bool
contains_i text s =
    somewhere (λ cs. follows (λ rest. true) (after_prefix (codes text) cs))
      (map fold_case (codes s))

unfoldable pub contains_word_i : String → String → Bool
contains_word_i text s =
    somewhere (λ cs. follows ends_word (after_prefix (codes text) cs)) (map fold_case (codes s))

-- `s.includes(text)`
unfoldable pub contains : String → String → Bool
contains text s = somewhere (λ cs. follows (λ rest. true) (after_prefix (codes text) cs)) (codes s)

after_prefix-split : (ps cs rest : List ℕ) → after_prefix ps cs ≡ some rest → cs ≡ ps ++ rest
after_prefix-split [] cs rest h = ground (arith, h)
after_prefix-split (p ∷ ps) [] rest h = absurd (cc)
after_prefix-split (p ∷ ps) (c ∷ cs) rest h = ground (arith, h, after_prefix-split ps cs rest)

after_prefix-append : (ps rest : List ℕ) → after_prefix ps (ps ++ rest) ≡ some rest
after_prefix-append [] rest = refl
after_prefix-append (p ∷ ps) rest = ground (arith, after_prefix-append ps rest)

somewhere-split :
    (p : List ℕ → Bool) (cs : List ℕ)
    → somewhere p cs ≡ true
    → (before rest : List ℕ) × (cs ≡ before ++ rest) × (p rest ≡ true)
somewhere-split p [] h = ([], [], refl, h)
somewhere-split p (c ∷ cs) h = elim (Bool-cases (p (c ∷ cs))) [
  | inl here ↦ ([], c ∷ cs, refl, here)
  | inr not_here ↦
      let (before, rest, e, there) = somewhere-split p cs (ground (arith, h, not_here)) in
      (c ∷ before, rest, ap (λ xs. c ∷ xs) e, there)
]

somewhere-append :
    (p : List ℕ → Bool) (before rest : List ℕ) → p rest ≡ true → somewhere p (before ++ rest) ≡ true
somewhere-append p [] [] h = h
somewhere-append p [] (c ∷ cs) h = ground (arith, h)
somewhere-append p (b ∷ before) rest h = ground (arith, somewhere-append p before rest h)

-- A text that is followed by something that passes the test.
follows_iff :
    (q : List ℕ → Bool) (ps cs : List ℕ)
    → (somewhere (λ xs. follows q (after_prefix ps xs)) cs ≡ true)
      ↔ ((before rest : List ℕ) × (cs ≡ before ++ (ps ++ rest)) × (q rest ≡ true))
follows_iff q ps cs = (
  λ h.
      let (before, tail, e, there) = somewhere-split (λ xs. follows q (after_prefix ps xs)) cs h in
      elim (Option-cases (after_prefix ps tail)) [
        | inl nowhere ↦ absurd (ground (arith, there, nowhere))
        | inr (rest, found) ↦ (
          before,
          rest,
          e ∙ ap (λ xs. before ++ xs) (after_prefix-split ps tail rest found),
          ground (arith, there, found),
        )
      ],
  λ h.
      let (before, rest, e, passes) = h in
      let here : follows q (after_prefix ps (ps ++ rest)) ≡ true =
        ap (follows q) (after_prefix-append ps rest) ∙ passes in
      ap (somewhere (λ xs. follows q (after_prefix ps xs))) e
      ∙ somewhere-append (λ xs. follows q (after_prefix ps xs)) before (ps ++ rest) here,
)

pub contains_i_iff :
    (text s : String)
    → (contains_i text s ≡ true)
      ↔ ((before rest : List ℕ) × (map fold_case (codes s) ≡ before ++ (codes text ++ rest)))
unfolding contains_i
contains_i_iff text s =
    let here = follows_iff (λ rest. true) (codes text) (map fold_case (codes s)) in
    (
      λ h. let (before, rest, e, _) = here.0 h in (before, rest, e),
      λ h. let (before, rest, e) = h in here.1 (before, rest, e, refl),
    )

pub contains_word_i_iff :
    (text s : String)
    → (contains_word_i text s ≡ true) ↔ (
        (before rest : List ℕ) × (map fold_case (codes s) ≡ before ++ (codes text ++ rest))
        × (ends_word rest ≡ true))
unfolding contains_word_i
contains_word_i_iff text s = follows_iff ends_word (codes text) (map fold_case (codes s))
