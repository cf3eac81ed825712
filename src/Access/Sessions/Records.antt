-- ===== src/Access/Sessions/Records.antt =====
-- Lemmas on the list of sessions: z2c/src/authz/ownership.ts.
use agents_with_chatgpt.Prelude.{
  zero, suc, map, includes, ℕ, ◌≡◌, ◌≢◌, refl, String, true, false, none, some, arith, eq_iff,
  Bool-cases, inl, inr, List, [], ◌∷◌, ◌++◌, drop, ◌==◌,
}
use agents_with_chatgpt.Access.Sessions.{
  OwnedSession, Sessions, get_session, update_session, forget,
}

abbrev pub ids : Sessions → List String
ids = map (λ s. s.session_id)

-- No session is on record twice.
unfoldable pub Distinct : Sessions → Type 0
Distinct [] = Unit
Distinct (s ∷ ss) = (includes s.session_id (ids ss) ≡ false) × Distinct ss

find-includes :
    (id : String) (ss : Sessions) (s : OwnedSession)
    → get_session id ss ≡ some s
    → includes id (ids ss) ≡ true
unfolding get_session includes
find-includes id [] s e = absurd (cc)
find-includes id (x ∷ ss) s e = ground (arith, find-includes id ss s)

includes-drop :
    (n : ℕ) (id : String) (ss : Sessions)
    → includes id (ids ss) ≡ false
    → includes id (ids (drop n ss)) ≡ false
unfolding includes
includes-drop zero id ss h = h
includes-drop (suc n) id [] h = refl
includes-drop (suc n) id (s ∷ ss) h = includes-drop n id ss (ground arith)

pub found-drop :
    (n : ℕ) (id : String) (ss : Sessions) (s : OwnedSession)
    → Distinct ss
    → get_session id (drop n ss) ≡ some s
    → get_session id ss ≡ some s
unfolding get_session Distinct
found-drop zero id ss s d e = e
found-drop (suc n) id [] s d e = e
found-drop (suc n) id (x ∷ ss) s d e =
    ground (arith, eq_iff x.session_id id, found-drop n id ss s d.1 e, find-includes id ss s)

pub Distinct-drop : (n : ℕ) (ss : Sessions) → Distinct ss → Distinct (drop n ss)
unfolding Distinct
Distinct-drop zero ss d = d
Distinct-drop (suc n) [] d = tt
Distinct-drop (suc n) (s ∷ ss) d = Distinct-drop n ss d.1

ids-updated :
    (id : String) (f : OwnedSession → OwnedSession) (ss : Sessions)
    → ((s : OwnedSession) → (f s).session_id ≡ s.session_id)
    → ids (update_session id f ss) ≡ ids ss
unfolding update_session
ids-updated id f [] h = refl
ids-updated id f (s ∷ ss) h = ground (arith, h s, ids-updated id f ss h)

includes-updated :
    (k id : String) (f : OwnedSession → OwnedSession) (ss : Sessions)
    → ((s : OwnedSession) → (f s).session_id ≡ s.session_id)
    → includes k (ids ss) ≡ false
    → includes k (ids (update_session id f ss)) ≡ false
includes-updated k id f ss h e = rw (ids-updated id f ss h) e

pub Distinct-updated :
    (id : String) (f : OwnedSession → OwnedSession) (ss : Sessions)
    → ((s : OwnedSession) → (f s).session_id ≡ s.session_id)
    → Distinct ss
    → Distinct (update_session id f ss)
unfolding Distinct update_session
Distinct-updated id f [] h d = tt
Distinct-updated id f (s ∷ ss) h d = elim (Bool-cases (s.session_id == id)) [
  | inl hit ↦ rw hit (rw (h s) d.0, d.1)
  | inr miss ↦ rw miss (includes-updated s.session_id id f ss h d.0, Distinct-updated id f ss h d.1)
]

-- An update that keeps ids and owners keeps them for the session that is found.
pub found-updated :
    (id k : String) (f : OwnedSession → OwnedSession) (ss : Sessions) (s s' : OwnedSession)
    → ((x : OwnedSession) → (f x).session_id ≡ x.session_id)
    → ((x : OwnedSession) → (f x).client_id ≡ x.client_id)
    → get_session k ss ≡ some s
    → get_session k (update_session id f ss) ≡ some s'
    → s'.client_id ≡ s.client_id
unfolding get_session update_session
found-updated id k f [] s s' h o e e' = absurd (cc)
found-updated id k f (x ∷ ss) s s' h o e e' =
    ground (arith, h x, o x, found-updated id k f ss s s' h o)

gone-forgotten : (id : String) (ss : Sessions) → get_session id (forget id ss) ≡ none
unfolding get_session forget
gone-forgotten id [] = refl
gone-forgotten id (s ∷ ss) = ground (arith, gone-forgotten id ss)

pub found-forgotten :
    (id k : String) (ss : Sessions) (s s' : OwnedSession)
    → get_session k ss ≡ some s
    → get_session k (forget id ss) ≡ some s'
    → s' ≡ s
unfolding get_session forget
found-forgotten id k [] s s' e e' = absurd (cc)
found-forgotten id k (x ∷ ss) s s' e e' = ground (
  arith,
  eq_iff x.session_id id,
  eq_iff x.session_id k,
  found-forgotten id k ss s s',
  gone-forgotten k ss,
)

includes-append_new :
    (k : String) (ss : Sessions) (s : OwnedSession)
    → includes k (ids ss) ≡ false
    → k ≢ s.session_id
    → includes k (ids (ss ++ s ∷ [])) ≡ false
unfolding includes
includes-append_new k [] s h n = ground (arith, eq_iff s.session_id k)
includes-append_new k (x ∷ ss) s h n = ground (arith, includes-append_new k ss s)

pub Distinct-append :
    (ss : Sessions) (s : OwnedSession)
    → Distinct ss
    → get_session s.session_id ss ≡ none
    → Distinct (ss ++ s ∷ [])
unfolding Distinct get_session includes
Distinct-append [] s d e = (refl, tt)
Distinct-append (x ∷ ss) s d e = (
  includes-append_new x.session_id ss s d.0 (λ h. ground (arith, eq_iff x.session_id s.session_id)),
  Distinct-append ss s d.1 (ground arith),
)

pub find-appended :
    (k : String) (ss : Sessions) (s t : OwnedSession)
    → get_session k ss ≡ some t
    → get_session k (ss ++ s ∷ []) ≡ some t
unfolding get_session
find-appended k [] s t e = absurd (cc)
find-appended k (x ∷ ss) s t e = ground (arith, find-appended k ss s t)
