-- ===== src/Access/Clients/Codes.antt =====
-- How often a pairing code may be tried: `confirmPairing` of z2c/src/authz/pairing.ts.
use agents_with_chatgpt.Prelude.{
  ℕ, ◌+◌, ◌≤◌, length, String, ◌≡◌, ◌≢◌, refl, false, none, some, inl, inr, ok, ◌⊎◌, ◌∙◌, List, [],
  ◌∷◌, map, find, drop_first, update_first, includes, trim, ◌==◌, arith, eq_iff, Bool-cases,
  Option-cases, find-holds, result, after, All,
}
use agents_with_chatgpt.Access.Clients.{
  Pending, Client, Pairings, find_pending, burn, count_attempt, check_code, confirm_pairing,
}

abbrev pub ids : List Pending → List String
ids = map (λ p. p.pairing_id)

-- No two pairings that wait share an id.
unfoldable pub Distinct : List Pending → Type 0
Distinct [] = Unit
Distinct (p ∷ ps) = (includes p.pairing_id (ids ps) ≡ false) × Distinct ps

abbrev by_id : String → List Pending → List Pending
by_id id = drop_first (λ p. p.pairing_id == id)

abbrev tried : String → List Pending → List Pending
tried id = update_first (λ p. p.pairing_id == id) (λ p. record p { attempts = p.attempts + 1 })

find-absent :
    (id : String) (ps : List Pending)
    → includes id (ids ps) ≡ false
    → find (λ p. p.pairing_id == id) ps ≡ none
unfolding includes
find-absent id [] h = refl
find-absent id (p ∷ ps) h = ground (arith, find-absent id ps)

find-drop_first :
    (id : String) (ps : List Pending)
    → Distinct ps
    → find (λ p. p.pairing_id == id) (by_id id ps) ≡ none
unfolding Distinct
find-drop_first id [] d = refl
find-drop_first id (p ∷ ps) d =
    ground (arith, eq_iff p.pairing_id id, find-absent id ps, find-drop_first id ps d.1)

ids-tried : (id : String) (ps : List Pending) → ids (tried id ps) ≡ ids ps
ids-tried id [] = refl
ids-tried id (p ∷ ps) = ground (arith, ids-tried id ps)

includes-drop_first :
    (k id : String) (ps : List Pending)
    → includes k (ids ps) ≡ false
    → includes k (ids (by_id id ps)) ≡ false
unfolding includes
includes-drop_first k id [] h = refl
includes-drop_first k id (p ∷ ps) h = ground (arith, includes-drop_first k id ps)

Distinct-drop_first : (id : String) (ps : List Pending) → Distinct ps → Distinct (by_id id ps)
unfolding Distinct
Distinct-drop_first id [] d = tt
Distinct-drop_first id (p ∷ ps) d =
    ground (arith, includes-drop_first p.pairing_id id ps d.0, Distinct-drop_first id ps d.1)

Distinct-tried : (id : String) (ps : List Pending) → Distinct ps → Distinct (tried id ps)
unfolding Distinct
Distinct-tried id [] d = tt
Distinct-tried id (p ∷ ps) d = elim (Bool-cases (p.pairing_id == id)) [
  | inl hit ↦ rw hit d
  | inr miss ↦ rw miss (rw (ids-tried id ps) d.0, Distinct-tried id ps d.1)
]

find-tried :
    (id : String) (ps : List Pending) (p : Pending)
    → find (λ q. q.pairing_id == id) ps ≡ some p
    → find (λ q. q.pairing_id == id) (tried id ps) ≡ some (record p { attempts = p.attempts + 1 })
find-tried id [] p e = absurd (cc)
find-tried id (q ∷ ps) p e = ground (arith, find-tried id ps p)

pub gone-burn :
    (id : String) (st : Pairings) → Distinct st.pending → find_pending id (burn id st) ≡ none
unfolding find_pending burn
gone-burn id st d = find-drop_first id st.pending d

pub find_pending-id :
    (id : String) (st : Pairings) (p : Pending) → find_pending id st ≡ some p → p.pairing_id ≡ id
unfolding find_pending
find_pending-id id st p e =
    (eq_iff p.pairing_id id).0 (find-holds (λ q. q.pairing_id == id) st.pending e)

module _ (hash_token : String → String) (id code client_id token : String) where
  -- What is left of a pairing's tries: it is gone, or at least `n` of them are spent.
  pub data Spent (n : ℕ) (st : Pairings) : Type 0 where
    gone : find_pending id st ≡ none → Spent n st
    left : (p : Pending) → find_pending id st ≡ some p → p.code ≡ code → n ≤ p.attempts → Spent n st

  guess : ℕ → String → Pairings → Pairings
  guess now g st = after (confirm_pairing hash_token now id g client_id token) st

  -- The state after a sequence of guesses, each at its own time.
  pub guesses : List (ℕ × String) → Pairings → Pairings
  guesses [] st = st
  guesses ((now, g) ∷ gs) st = guesses gs (guess now g st)

  confirm-known :
      (now : ℕ) (g : String) (st : Pairings) (p : Pending)
      → find_pending id st ≡ some p
      → confirm_pairing hash_token now id g client_id token st
        ≡ check_code hash_token now g client_id token p st
  unfolding confirm_pairing
  confirm-known now g st p e = ground arith

  guess-Distinct :
      (now : ℕ) (g : String) (st : Pairings)
      → Distinct st.pending
      → Distinct (guess now g st).pending
  unfolding guess confirm_pairing check_code burn count_attempt
  guess-Distinct now g st d = elim (Option-cases (find_pending id st)) [
    | inl nobody ↦ ground arith
    | inr (p, e) ↦ ground (
      arith,
      Distinct-drop_first p.pairing_id st.pending d,
      Distinct-tried p.pairing_id st.pending d,
    )
  ]

  gone-after :
      (now : ℕ) (g : String) (st : Pairings) → find_pending id st ≡ none → guess now g st ≡ st
  unfolding guess confirm_pairing
  gone-after now g st e = ground arith

  left-tried :
      (st : Pairings) (p : Pending)
      → find_pending id st ≡ some p
      → find_pending id (count_attempt id st) ≡ some (record p { attempts = p.attempts + 1 })
  unfolding find_pending count_attempt
  left-tried st p e = find-tried id st.pending p e

  -- A wrong code burns the pairing or counts as a try.
  guess-wrong :
      (now : ℕ) (g : String) (st : Pairings) (p : Pending)
      → find_pending id st ≡ some p
      → trim g ≢ p.code
      → (guess now g st ≡ burn id st) ⊎ (guess now g st ≡ count_attempt id st)
  unfolding guess check_code
  guess-wrong now g st p e wrong =
      ground (arith, confirm-known now g st p e, eq_iff (trim g) p.code, find_pending-id id st p e)

  guess-Spent :
      (n now : ℕ) (g : String) (st : Pairings)
      → Distinct st.pending
      → trim g ≢ code
      → Spent n st
      → Spent (n + 1) (guess now g st)
  guess-Spent n now g st d wrong (gone e) = gone (rw (gone-after now g st e) e)
  guess-Spent n now g st d wrong (left p e same more) =
      elim (guess-wrong now g st p e (λ h. wrong (h ∙ same))) [
        | inl b ↦ gone (rw b (gone-burn id st d))
        | inr c ↦
            left (record p { attempts = p.attempts + 1 }) (rw c (left-tried st p e)) same
              (omega arith)
      ]

  guesses-Spent :
      (n : ℕ) (gs : List (ℕ × String)) (st : Pairings)
      → Distinct st.pending
      → All (λ g. trim g.1 ≢ code) gs
      → Spent n st
      → Spent (n + length gs) (guesses gs st)
  unfolding guesses
  guesses-Spent n [] st d wrong s = (let e : n + 0 ≡ n = omega arith in rw e s)
  guesses-Spent n ((now, g) ∷ gs) st d (w, ws) s =
      let e : n + length ((now, g) ∷ gs) ≡ (n + 1) + length gs = omega arith in
      rw e (
        guesses-Spent (n + 1) gs (guess now g st) (guess-Distinct now g st d) ws
          (guess-Spent n now g st d w s))

  Spent-refused :
      (now : ℕ) (st : Pairings)
      → Spent 5 st
      → ((c : Client) → result (confirm_pairing hash_token now id code client_id token) st ≢ ok c)
        × ((after (confirm_pairing hash_token now id code client_id token) st).clients ≡ st.clients)
  unfolding confirm_pairing check_code burn
  Spent-refused now st (gone e) = (λ c. ground arith, ground arith)
  Spent-refused now st (left q e s m) = (
    λ c. ground (arith, confirm-known now code st q e),
    ground (arith, confirm-known now code st q e),
  )

  Spent-fewer : (n m : ℕ) (st : Pairings) → m ≤ n → Spent n st → Spent m st
  Spent-fewer n m st h (gone e) = gone e
  Spent-fewer n m st h (left p e s k) = left p e s (omega arith)

  -- A pairing cannot be guessed: after five wrong codes, whenever they came, even the right code of
  -- that pairing is refused, and no client is added.
  pub guesses-refused :
      (now : ℕ) (gs : List (ℕ × String)) (st : Pairings) (p : Pending)
      → Distinct st.pending
      → find_pending id st ≡ some p
      → p.code ≡ code
      → All (λ g. trim g.1 ≢ code) gs
      → 5 ≤ length gs
      → ((c : Client)
          → result (confirm_pairing hash_token now id code client_id token) (guesses gs st) ≢ ok c)
        × ((after (confirm_pairing hash_token now id code client_id token) (guesses gs st)).clients
            ≡ (guesses gs st).clients)
  guesses-refused now gs st p d e same wrong five = Spent-refused now (guesses gs st) (
      Spent-fewer (0 + length gs) 5 (guesses gs st) (omega arith)
        (guesses-Spent 0 gs st d wrong (left p e same (omega arith))))
