-- ===== src/Pairing/Codes.antt =====
-- The codes themselves: `generateCode`, `formatPairingCode` and `normalizePairingCode` of
-- src/pairing/manager.ts.
use mathlib.Core.Path.{subst}
use agents_with_chatgpt.Prelude.{
  ◌-◌, ◌%◌, Option-cases, ap, ◌∙◌, length-drop, All-drop, ℕ, zero, suc, ◌≤◌, ◌≡◌, refl, true, some,
  List, [], ◌∷◌, ◌++◌, take, drop, length, all, arith, inl, inr, All,
}
use agents_with_chatgpt.Pairing.{
  alphabet, nth, cons_some, code_chars, generate_code, format_pairing_code, upper, is_code_char,
  normalize_pairing_code,
}

-- A character that normalization keeps as it is.
abbrev pub IsCodeChar : ℕ → Type 0
IsCodeChar c = is_code_char c ≡ true

nth-IsCodeChar :
    (n : ℕ) (xs : List ℕ) (c : ℕ) → All IsCodeChar xs → nth n xs ≡ some c → IsCodeChar c
unfolding nth
nth-IsCodeChar n [] c h e = absurd (cc)
nth-IsCodeChar n (x ∷ xs) c h e = ground (arith, nth-IsCodeChar (n - 1) xs c h.1)

all-IsCodeChar : (xs : List ℕ) → all is_code_char xs ≡ true → All IsCodeChar xs
all-IsCodeChar [] h = tt
all-IsCodeChar (x ∷ xs) h = (ground arith, all-IsCodeChar xs (ground arith))

alphabet-IsCodeChar : All IsCodeChar alphabet
unfolding is_code_char
alphabet-IsCodeChar = all-IsCodeChar alphabet refl

code_chars-IsCodeChar : (bs : List ℕ) → All IsCodeChar (code_chars bs)
unfolding code_chars cons_some
code_chars-IsCodeChar [] = tt
code_chars-IsCodeChar (b ∷ bs) = elim (Option-cases (nth (b % length alphabet) alphabet)) [
  | inl nobody ↦ ground (arith, code_chars-IsCodeChar bs)
  | inr (c, found) ↦ ground (
    arith,
    code_chars-IsCodeChar bs,
    nth-IsCodeChar (b % length alphabet) alphabet c alphabet-IsCodeChar found,
  )
]

upper-IsCodeChar : (c : ℕ) → IsCodeChar c → upper c ≡ c
unfolding upper is_code_char
upper-IsCodeChar c h = ground arith

normalize-keeps : (cs : List ℕ) → All IsCodeChar cs → normalize_pairing_code cs ≡ cs
unfolding normalize_pairing_code
normalize-keeps [] h = refl
normalize-keeps (c ∷ cs) h = ground (arith, upper-IsCodeChar c h.0, normalize-keeps cs h.1)

normalize-append :
    (xs ys : List ℕ)
    → normalize_pairing_code (xs ++ ys) ≡ normalize_pairing_code xs ++ normalize_pairing_code ys
unfolding normalize_pairing_code
normalize-append [] ys = refl
normalize-append (x ∷ xs) ys = ground (arith, normalize-append xs ys)

take-drop : (n : ℕ) (xs : List ℕ) → take n xs ++ drop n xs ≡ xs
take-drop zero xs = refl
take-drop (suc n) [] = refl
take-drop (suc n) (x ∷ xs) = ap (λ ys. x ∷ ys) (take-drop n xs)

take-all : (n : ℕ) (xs : List ℕ) → length xs ≤ n → take n xs ≡ xs
take-all zero [] h = refl
take-all zero (x ∷ xs) h = absurd (omega (arith, h))
take-all (suc n) [] h = refl
take-all (suc n) (x ∷ xs) h = ap (λ ys. x ∷ ys) (take-all n xs (omega (arith, h)))

All-take : (n : ℕ) (xs : List ℕ) → All IsCodeChar xs → All IsCodeChar (take n xs)
All-take zero xs h = tt
All-take (suc n) [] h = tt
All-take (suc n) (x ∷ xs) h = (h.0, All-take n xs h.1)

length-take : (n : ℕ) (xs : List ℕ) → n ≤ length xs → length (take n xs) ≡ n
length-take zero xs h = refl
length-take (suc n) [] h = absurd (omega (arith, h))
length-take (suc n) (x ∷ xs) h = omega (arith, length-take n xs)

-- A code of eight characters survives being shown and typed in again.
normalize-format :
    (raw : List ℕ)
    → All IsCodeChar raw
    → length raw ≡ 8
    → normalize_pairing_code (format_pairing_code raw) ≡ raw
unfolding format_pairing_code
normalize-format raw h n =
    let first : List ℕ = take 4 raw in
    let second : List ℕ = take 4 (drop 4 raw) in
    let whole : second ≡ drop 4 raw = take-all 4 (drop 4 raw) (omega (arith, length-drop 4 raw)) in
    let dash : normalize_pairing_code (45 ∷ second) ≡ normalize_pairing_code second =
      unfold normalize_pairing_code in unfold upper in unfold is_code_char in refl in
    normalize-append first (45 ∷ second)
    ∙ ap (λ ys. normalize_pairing_code first ++ ys) dash
    ∙ ap (λ ys. ys ++ normalize_pairing_code second) (normalize-keeps first (All-take 4 raw h))
    ∙ ap (λ ys. first ++ ys)
        (normalize-keeps second (All-take 4 (drop 4 raw) (All-drop IsCodeChar 4 raw h)))
    ∙ ap (λ ys. first ++ ys) whole
    ∙ take-drop 4 raw

-- Whatever random bytes a code is made from, what the authorization page shows for it is read back
-- as that code, and the code has eight characters.
pub generate-reads_back :
    (bytes raw : List ℕ)
    → generate_code 8 bytes ≡ some raw
    → (normalize_pairing_code (format_pairing_code raw) ≡ raw) × (length raw ≡ 8)
unfolding generate_code
generate-reads_back bytes raw e =
    let made : take 8 (code_chars bytes) ≡ raw = ground arith in
    let enough : 8 ≤ length (code_chars bytes) = ground arith in
    let eight : length raw ≡ 8 = ground (arith, length-take 8 (code_chars bytes)) in
    let good : All IsCodeChar raw =
      subst (All IsCodeChar) made (All-take 8 (code_chars bytes) (code_chars-IsCodeChar bytes)) in
    (normalize-format raw good eight, eight)
