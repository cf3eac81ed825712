-- ===== src/Orchestrator/Audits.antt =====
-- The audits of a run (src/execution/orchestrator-core.ts) as lists: how the tests on them carry over
-- when one is added or written to.
use agents_with_chatgpt.Prelude.{
  ◌+◌, ◌≤◌, ◌≡◌, refl, sym, ◌∙◌, Bool, true, false, none, some, inl, inr, List, [], ◌∷◌, ◌++◌, All,
  any, find, update_first, is_some, arith, Bool-cases, Option-cases, if-holds,
}
use agents_with_chatgpt.Orchestrator.{Audit, Verdict, Run}
use agents_with_chatgpt.Orchestrator.Sound.{Open, open_count}

pub any-append :
    {A : Type 0} (p : A → Bool) (xs ys : List A) → any p xs ≡ true → any p (xs ++ ys) ≡ true
any-append p [] ys h = absurd (cc)
any-append p (x ∷ xs) ys h = ground (arith, any-append p xs ys)

find-here :
    {A : Type 0} (q : A → Bool) (x : A) (xs : List A) → q x ≡ true → find q (x ∷ xs) ≡ some x
find-here q x xs h = rw h refl

find-later :
    {A : Type 0} (q : A → Bool) (x : A) (xs : List A) → q x ≡ false → find q (x ∷ xs) ≡ find q xs
find-later q x xs h = rw h refl

-- What a write keeps of the element that it meets, it keeps of the list.
pub any-update_first :
    {A : Type 0} (p q : A → Bool) (f : A → A) (xs : List A)
    → ((x : A) → find q xs ≡ some x → p x ≡ true → p (f x) ≡ true)
    → any p xs ≡ true
    → any p (update_first q f xs) ≡ true
any-update_first p q f [] k h = h
any-update_first p q f (x ∷ xs) k h = elim (Bool-cases (q x)) [
  | inl e ↦ ground (arith, k x (find-here q x xs e))
  | inr e ↦
      let rest = any-update_first p q f xs (λ y m. k y (find-later q x xs e ∙ m)) in
      ground (arith, rest)
]

pub any-written :
    {A : Type 0} (p q : A → Bool) (f : A → A) (xs : List A) (x : A)
    → find q xs ≡ some x
    → p (f x) ≡ true
    → any p (update_first q f xs) ≡ true
any-written p q f [] x e h = absurd (cc)
any-written p q f (y ∷ xs) x e h = elim (Bool-cases (q y)) [
  | inl is ↦ ground (arith, find-here q y xs is)
  | inr not_it ↦
      let rest = any-written p q f xs x (sym (find-later q y xs not_it) ∙ e) h in
      ground (arith, rest)
]

pub All-update_first :
    {A : Type 0} (P : A → Type 0) (q : A → Bool) (f : A → A) (xs : List A)
    → ((x : A) → P x → P (f x))
    → All P xs
    → All P (update_first q f xs)
All-update_first P q f [] k h = tt
All-update_first P q f (x ∷ xs) k h =
    if-holds (All P) (q x) (k x h.0, h.1) (h.0, All-update_first P q f xs k h.1)

pub verdict-skips :
    (a : Audit) (xs : List Audit) (v : Verdict)
    → a.verdict ≡ some v
    → open_count (a ∷ xs) ≡ open_count xs
unfolding open_count
verdict-skips a xs v e = rw e refl

pub open-counts : (a : Audit) (xs : List Audit) → a.verdict ≡ none → open_count (a ∷ xs) ≡ 0 → ⊥
unfolding open_count
open-counts a xs e h = ground arith

-- Where no audit is open, each may be read for any run.
pub Open-closed : (q : Run) (xs : List Audit) → open_count xs ≡ 0 → All (Open q) xs
unfolding open_count Open
Open-closed q [] h = tt
Open-closed q (a ∷ xs) h = elim (Option-cases a.verdict) [
  | inl e ↦ absurd (open-counts a xs e h)
  | inr (v, e) ↦ ((λ o. absurd (cc)), Open-closed q xs (sym (verdict-skips a xs v e) ∙ h))
]

pub open_count-append :
    (xs : List Audit) (a : Audit) → open_count (xs ++ a ∷ []) ≤ open_count xs + 1
unfolding open_count
open_count-append [] a = ground arith
open_count-append (x ∷ xs) a = ground (arith, open_count-append xs a)

-- A write that leaves each verdict leaves the count.
pub open_count-kept :
    (q : Audit → Bool) (f : Audit → Audit) (xs : List Audit)
    → ((a : Audit) → (f a).verdict ≡ a.verdict)
    → open_count (update_first q f xs) ≡ open_count xs
unfolding open_count
open_count-kept q f [] k = refl
open_count-kept q f (a ∷ xs) k = ground (arith, open_count-kept q f xs k, k a)

-- A verdict on an open audit closes one.
pub open_count-judged :
    (q : Audit → Bool) (f : Audit → Audit) (xs : List Audit) (a : Audit)
    → find q xs ≡ some a
    → a.verdict ≡ none
    → is_some (f a).verdict ≡ true
    → open_count (update_first q f xs) + 1 ≡ open_count xs
unfolding open_count
open_count-judged q f [] a e o j = absurd (cc)
open_count-judged q f (x ∷ xs) a e o j = elim (Bool-cases (q x)) [
  | inl is ↦ ground (arith, find-here q x xs is)
  | inr not_it ↦
      let rest = open_count-judged q f xs a (sym (find-later q x xs not_it) ∙ e) o j in
      ground (arith, rest)
]
