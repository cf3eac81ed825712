-- ===== src/Registry/Order.antt =====
-- src/session/registry.ts: the order of the tasks that a session has seen.
use agents_with_chatgpt.Prelude.{
  ℕ, ◌<◌, ◌≡◌, refl, sym, ap, ◌∙◌, ◌⊎◌, inl, inr, String, true, false, Option, none, some, opt_eq,
  ltb, arith, opt_eq_iff, Bool-cases, Option-cases,
}
use agents_with_chatgpt.Registry.{Session, SessionTaskUpdate, Surroundings, is_superseded, applied}

-- The second session's last task is not one before the first session's. With equal numbers, it is
-- the same task, unless the first session named none.
pub data NotBefore (s s' : Session) : Type 0 where
  unnumbered : s.last_task_sequence ≡ none → NotBefore s s'
  later :
      (n m : ℕ)
      → s.last_task_sequence ≡ some n
      → s'.last_task_sequence ≡ some m
      → n < m
      → NotBefore s s'
  level :
      s.last_task_sequence ≡ s'.last_task_sequence
      → (s.last_task_id ≡ none) ⊎ (s'.last_task_id ≡ s.last_task_id)
      → NotBefore s s'

pub NotBefore-refl : (s : Session) → NotBefore s s
NotBefore-refl s = level refl (inr refl)

named_trans :
    (a b c : Option String) → (a ≡ none) ⊎ (b ≡ a) → (b ≡ none) ⊎ (c ≡ b) → (a ≡ none) ⊎ (c ≡ a)
named_trans a b c (inl h) k = inl h
named_trans a b c (inr h) (inl k) = inl (sym h ∙ k)
named_trans a b c (inr h) (inr k) = inr (k ∙ h)

some-injective : (a b : ℕ) → some a ≡ some b → a ≡ b
some-injective a b h = ground (arith, h)

some-none : {x : Option ℕ} (a : ℕ) → x ≡ some a → x ≡ none → ⊥
some-none a h k = absurd (cc)

pub NotBefore-trans : (a b c : Session) → NotBefore a b → NotBefore b c → NotBefore a c
NotBefore-trans a b c (unnumbered h) k = unnumbered h
NotBefore-trans a b c (later n m p q l) (unnumbered h) = absurd (some-none m q h)
NotBefore-trans a b c (later n m p q l) (later n' m' p' q' l') =
    later n m' p q' (omega (arith, l, l', some-injective m n' (sym q ∙ p')))
NotBefore-trans a b c (later n m p q l) (level h k) = later n m p (sym h ∙ q) l
NotBefore-trans a b c (level h k) (unnumbered h') = unnumbered (h ∙ h')
NotBefore-trans a b c (level h k) (later n m p q l) = later n m (h ∙ p) q l
NotBefore-trans a b c (level h k) (level h' k') =
    level (h ∙ h') (named_trans a.last_task_id b.last_task_id c.last_task_id k k')

applied-sequence :
    (e : Surroundings) (u : SessionTaskUpdate) (s : Session) (n : ℕ)
    → u.task_sequence ≡ some n
    → (applied e u s).last_task_sequence ≡ some n
unfolding applied
applied-sequence e u s n said = rw said refl

-- An update of the last number is of the last task.
level_named :
    (u : SessionTaskUpdate) (s : Session) (n : ℕ)
    → s.last_task_sequence ≡ some n
    → u.task_sequence ≡ some n
    → is_superseded u s ≡ false
    → (s.last_task_id ≡ none) ⊎ (some u.task_id ≡ s.last_task_id)
unfolding is_superseded
level_named u s n is said h = elim (Option-cases s.last_task_id) [
  | inl unnamed ↦ inl unnamed
  | inr (t, named) ↦
      let test : opt_eq s.last_task_id (some u.task_id) ≡ true =
        ground (arith, h, is, said, named) in
      inr (sym ((opt_eq_iff s.last_task_id (some u.task_id)).0 test))
]

earlier_is_superseded :
    (u : SessionTaskUpdate) (s : Session) (last n : ℕ)
    → s.last_task_sequence ≡ some last
    → u.task_sequence ≡ some n
    → is_superseded u s ≡ false
    → ltb n last ≡ false
unfolding is_superseded
earlier_is_superseded u s last n is said h = ground (arith, h, is, said)

pub applied-NotBefore :
    (e : Surroundings) (u : SessionTaskUpdate) (s : Session)
    → is_superseded u s ≡ false
    → NotBefore s (applied e u s)
unfolding is_superseded applied
applied-NotBefore e u s h = elim (Option-cases s.last_task_sequence) [
  | inl none_yet ↦ unnumbered none_yet
  | inr (last, is) ↦ elim (Option-cases u.task_sequence) [
    | inl unsaid ↦
        let test : opt_eq s.last_task_id (some u.task_id) ≡ true = ground (arith, h, is, unsaid) in
        level (rw unsaid refl) (inr (sym ((opt_eq_iff s.last_task_id (some u.task_id)).0 test)))
    | inr (n, said) ↦ elim (Bool-cases (ltb last n)) [
      | inl less ↦ later last n is (applied-sequence e u s n said) (ground (arith, less))
      | inr not_less ↦
          let same : last ≡ n =
            ground (arith, not_less, earlier_is_superseded u s last n is said h) in
          let is_n : s.last_task_sequence ≡ some n = is ∙ ap some same in
          level (is_n ∙ sym (applied-sequence e u s n said)) (level_named u s n is_n said h)
    ]
  ]
]
