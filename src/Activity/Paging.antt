-- ===== src/Activity/Paging.antt =====
-- Reading the log of src/session-plane/store.ts page by page.
use mathlib.Core.Path.{subst}
use agents_with_chatgpt.Prelude.{
  ℕ, zero, suc, ◌<◌, ◌≤◌, ◌≡◌, ◌⊎◌, refl, sym, ap, Bool, true, false, ◌&&◌, Option, none, some, inl,
  inr, List, [], ◌∷◌, ◌++◌, length, take, ltb, length-take-le, arith, Bool-cases, if◌then◌else◌,
}
use agents_with_chatgpt.Activity.{
  Event, Line, blank, malformed, entry, Filter, past, wants, selects, select_events, page_limit,
}
use agents_with_chatgpt.Activity.Order.{Rising}

-- All events that a filter selects, in the order of the log.
abbrev pub selected : Filter → List Line → List Event
selected q [] = []
selected q (entry e ∷ ls) = let rest = selected q ls in if selects q e then e ∷ rest else rest
selected q (_ ∷ ls) = selected q ls

-- The number of the last event of a page, or `n` where there is none.
abbrev pub last_of : ℕ → List Event → ℕ
last_of n [] = n
last_of n (e ∷ es) = last_of e.seq es

abbrev pub after : ℕ → Filter → Filter
after n q = record q { after_seq = some n }

select_events-take :
    (q : Filter) (n : ℕ) (ls : List Line) → select_events q n ls ≡ take n (selected q ls)
unfolding select_events
select_events-take q zero ls = refl
select_events-take q (suc n) [] = refl
select_events-take q (suc n) (blank ∷ ls) = select_events-take q (suc n) ls
select_events-take q (suc n) (malformed ∷ ls) = select_events-take q (suc n) ls
select_events-take q (suc n) (entry e ∷ ls) = elim (Bool-cases (selects q e)) [
  | inl hit ↦ rw hit (ap (◌∷◌ e) (select_events-take q n ls))
  | inr miss ↦ rw miss (select_events-take q (suc n) ls)
]

-- the part of a filter that does not look at the number
fits : Filter → Event → Bool
fits q e =
    wants q.provider (some e.fact.provider)
    && wants q.session_id e.fact.session_id
    && wants q.workspace_id e.fact.workspace_id

selects-after : (a : ℕ) (q : Filter) (e : Event) → selects (after a q) e ≡ (ltb a e.seq && fits q e)
unfolding selects fits past
selects-after a q e = ground arith

-- Where all numbers are above both bounds, the bounds make no difference.
selected_same :
    (a b lo hi : ℕ) (q : Filter) (ls : List Line)
    → a ≤ lo
    → b ≤ lo
    → Rising lo hi ls
    → selected (after a q) ls ≡ selected (after b q) ls
selected_same a b lo hi q [] ha hb h = refl
selected_same a b lo hi q (blank ∷ ls) ha hb h = selected_same a b lo hi q ls ha hb h
selected_same a b lo hi q (malformed ∷ ls) ha hb h = selected_same a b lo hi q ls ha hb h
selected_same a b lo hi q (entry e ∷ ls) ha hb (first, rest) = ground (
  arith,
  selects-after a q e,
  selects-after b q e,
  selected_same a b e.seq hi q ls (omega arith) (omega arith) rest,
)

-- The last number of a page is not below the bound.
last_of-le :
    (a lo hi : ℕ) (q : Filter) (n : ℕ) (ls : List Line)
    → Rising lo hi ls
    → a ≤ last_of a (take n (selected (after a q) ls))
last_of-le a lo hi q zero ls r = omega arith
last_of-le a lo hi q (suc n) [] r = omega arith
last_of-le a lo hi q (suc n) (blank ∷ ls) r = last_of-le a lo hi q (suc n) ls r
last_of-le a lo hi q (suc n) (malformed ∷ ls) r = last_of-le a lo hi q (suc n) ls r
last_of-le a lo hi q (suc n) (entry e ∷ ls) (first, rest) =
    elim (Bool-cases (selects (after a q) e)) [
      | inl hit ↦
          let above : a < e.seq = ground (arith, selects-after a q e, hit) in
          rw (hit, selected_same a e.seq e.seq hi q ls (omega arith) (omega arith) rest)
            (omega (arith, above, last_of-le e.seq e.seq hi q n ls rest))
      | inr miss ↦ rw miss (last_of-le a e.seq hi q (suc n) ls rest)
    ]

-- A number that is not above the bound is left out.
selects-le :
    (a c : ℕ) (q : Filter) (e : Event)
    → (e.seq ≤ c) ⊎ ((a ≤ c) × (selects (after a q) e ≡ false))
    → selects (after c q) e ≡ false
selects-le a c q e h = ground (arith, selects-after a q e, selects-after c q e)

selected-hit :
    (q : Filter) (e : Event) (ls : List Line) (rest : List Event)
    → selects q e ≡ true
    → selected q ls ≡ rest
    → selected q (entry e ∷ ls) ≡ e ∷ rest
selected-hit q e ls rest hit same = rw hit (ap (◌∷◌ e) same)

selected-miss :
    (q : Filter) (e : Event) (ls : List Line)
    → selects q e ≡ false
    → selected q (entry e ∷ ls) ≡ selected q ls
selected-miss q e ls miss = rw miss refl

page-rest :
    (a lo hi : ℕ) (q : Filter) (n : ℕ) (ls : List Line)
    → Rising lo hi ls
    → take n (selected (after a q) ls)
        ++ selected (after (last_of a (take n (selected (after a q) ls))) q) ls
      ≡ selected (after a q) ls
page-rest a lo hi q zero ls r = refl
page-rest a lo hi q (suc n) [] r = refl
page-rest a lo hi q (suc n) (blank ∷ ls) r = page-rest a lo hi q (suc n) ls r
page-rest a lo hi q (suc n) (malformed ∷ ls) r = page-rest a lo hi q (suc n) ls r
page-rest a lo hi q (suc n) (entry e ∷ ls) (first, rest) =
    elim (Bool-cases (selects (after a q) e)) [
      | inl hit ↦
          let above : a < e.seq = ground (arith, selects-after a q e, hit) in
          let same = selected_same a e.seq e.seq hi q ls (omega arith) (omega arith) rest in
          let gone = selects-le a _ q e (inl (last_of-le e.seq e.seq hi q n ls rest)) in
          subst
            (λ xs.
              take (suc n) xs ++ selected (after (last_of a (take (suc n) xs)) q) (entry e ∷ ls)
              ≡ xs)
            (sym (selected-hit (after a q) e ls _ hit same))
            (rw gone (ap (◌∷◌ e) (page-rest e.seq e.seq hi q n ls rest)))
      | inr miss ↦
          let gone = selects-le a _ q e (inr (last_of-le a e.seq hi q (suc n) ls rest, miss)) in
          subst
            (λ xs.
              take (suc n) xs ++ selected (after (last_of a (take (suc n) xs)) q) (entry e ∷ ls)
              ≡ xs)
            (sym (selected-miss (after a q) e ls miss))
            (rw gone (page-rest a e.seq hi q (suc n) ls rest))
    ]

page_limit-bounds : (limit : Option ℕ) → (1 ≤ page_limit limit) × (page_limit limit ≤ 100)
unfolding page_limit
page_limit-bounds none = omega arith
page_limit-bounds (some n) = ground arith

-- A page has at most 100 events, and the events after the last of a page, together with the page,
-- are all that the filter selects: where the numbers rise, reading on from the last number misses
-- none and repeats none.
pub page-continues :
    (a hi : ℕ) (q : Filter) (limit : Option ℕ) (ls : List Line)
    → Rising 0 hi ls
    → (length (select_events (after a q) (page_limit limit) ls) ≤ 100)
      × (select_events (after a q) (page_limit limit) ls
            ++ selected (after (last_of a (select_events (after a q) (page_limit limit) ls)) q) ls
          ≡ selected (after a q) ls)
page-continues a hi q limit ls r =
    let n : ℕ = page_limit limit in
    let (low, high) = page_limit-bounds limit in
    rw (select_events-take (after a q) n ls)
      (omega (arith, length-take-le n (selected (after a q) ls), high), page-rest a 0 hi q n ls r)
