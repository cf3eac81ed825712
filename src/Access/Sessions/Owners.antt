-- ===== src/Access/Sessions/Owners.antt =====
-- The owner of a session over time: z2c/src/authz/ownership.ts.
use agents_with_chatgpt.Prelude.{
  ◌∙◌, includes, is_some, ℕ, ◌-◌, ◌≡◌, refl, String, true, false, some, arith, Option-cases, inl,
  inr, List, [], ◌∷◌, ◌++◌, length,
}
use agents_with_chatgpt.Access.Grants.{WorkspaceAccess}
use agents_with_chatgpt.Access.Sessions.{
  OwnedSession, Sessions, max_sessions, get_session, touched, demoted, new_session, used_again,
  record_session, touch, mark_stale, forget,
}
use agents_with_chatgpt.Access.Sessions.Records.{
  ids, Distinct, found-drop, Distinct-drop, Distinct-updated, found-updated, found-forgotten,
  Distinct-append, find-appended,
}

-- The calls that change the records.
pub data Call : Type 0 where
  records : ℕ → String → String → String → WorkspaceAccess → Call
  touches : ℕ → String → Call
  marks_stale : ℕ → String → Call
  forgets : String → Call

unfoldable pub step : Sessions → Call → Sessions
step ss (records now id workspace_id client_id mode) =
    record_session now id workspace_id client_id mode ss
step ss (touches now id) = touch now id ss
step ss (marks_stale now id) = mark_stale now id ss
step ss (forgets id) = forget id ss

unfoldable pub run : Sessions → List Call → Sessions
run ss [] = ss
run ss (c ∷ cs) = run (step ss c) cs

demoted-id : (now : ℕ) (s : OwnedSession) → (demoted now s).session_id ≡ s.session_id
unfolding demoted
demoted-id now s = ground arith

demoted-owner : (now : ℕ) (s : OwnedSession) → (demoted now s).client_id ≡ s.client_id
unfolding demoted
demoted-owner now s = ground arith

includes-forgotten :
    (k id : String) (ss : Sessions)
    → includes k (ids ss) ≡ false
    → includes k (ids (forget id ss)) ≡ false
unfolding includes forget
includes-forgotten k id [] h = refl
includes-forgotten k id (s ∷ ss) h = ground (arith, includes-forgotten k id ss)

Distinct-forgotten : (id : String) (ss : Sessions) → Distinct ss → Distinct (forget id ss)
unfolding Distinct forget
Distinct-forgotten id [] d = tt
Distinct-forgotten id (s ∷ ss) d =
    ground (arith, includes-forgotten s.session_id id ss d.0, Distinct-forgotten id ss d.1)

record-Distinct :
    (now : ℕ) (id workspace_id client_id : String) (mode : WorkspaceAccess) (ss : Sessions)
    → Distinct ss
    → Distinct (record_session now id workspace_id client_id mode ss)
unfolding record_session used_again new_session
record-Distinct now id workspace_id client_id mode ss d = ground (
  arith,
  Distinct-updated id (used_again now mode) ss (λ s. refl) d,
  Distinct-drop (length (ss ++ new_session now id workspace_id client_id mode ∷ []) - max_sessions)
      (ss ++ new_session now id workspace_id client_id mode ∷ []),
  Distinct-append ss (new_session now id workspace_id client_id mode) d,
)

-- No step puts a session on record twice.
step-Distinct : (ss : Sessions) (c : Call) → Distinct ss → Distinct (step ss c)
unfolding step touch mark_stale touched
step-Distinct ss (records now id workspace_id client_id mode) d =
    record-Distinct now id workspace_id client_id mode ss d
step-Distinct ss (touches now id) d = Distinct-updated id (touched now) ss (λ s. refl) d
step-Distinct ss (marks_stale now id) d = Distinct-updated id (demoted now) ss (demoted-id now) d
step-Distinct ss (forgets id) d = Distinct-forgotten id ss d

record-owner :
    (now : ℕ) (id workspace_id client_id : String) (mode : WorkspaceAccess) (ss : Sessions)
    (k : String) (s s' : OwnedSession)
    → Distinct ss
    → get_session k ss ≡ some s
    → get_session k (record_session now id workspace_id client_id mode ss) ≡ some s'
    → s'.client_id ≡ s.client_id
unfolding record_session used_again new_session
record-owner now id workspace_id client_id mode ss k s s' d e e' =
    let fresh : OwnedSession = new_session now id workspace_id client_id mode in
    let all : Sessions = ss ++ fresh ∷ [] in
    elim (Option-cases (get_session id ss)) [
      | inr (t, there) ↦
          found-updated id k (used_again now mode) ss s s' (λ x. refl) (λ x. refl) e (ground arith)
      | inl absent ↦
          (let found =
              found-drop (length all - max_sessions) k all s' (Distinct-append ss fresh d absent)
                (ground arith) in
            ground (arith, find-appended k ss fresh s e))
    ]

-- A step that leaves a session on record leaves it with its owner.
step-owner :
    (ss : Sessions) (c : Call) (k : String) (s s' : OwnedSession)
    → Distinct ss
    → get_session k ss ≡ some s
    → get_session k (step ss c) ≡ some s'
    → s'.client_id ≡ s.client_id
unfolding step touch mark_stale touched
step-owner ss (records now id workspace_id client_id mode) k s s' d e e' =
    record-owner now id workspace_id client_id mode ss k s s' d e e'
step-owner ss (touches now id) k s s' d e e' =
    found-updated id k (touched now) ss s s' (λ x. refl) (λ x. refl) e e'
step-owner ss (marks_stale now id) k s s' d e e' =
    found-updated id k (demoted now) ss s s' (demoted-id now) (demoted-owner now) e e'
step-owner ss (forgets id) k s s' d e e' = ground (arith, found-forgotten id k ss s s' e e')

-- The session is on record after each of the calls.
unfoldable pub Stays : String → Sessions → List Call → Type 0
Stays k ss [] = Unit
Stays k ss (c ∷ cs) = (is_some (get_session k (step ss c)) ≡ true) × Stays k (step ss c) cs

-- A session never changes hands: as long as it is on record, through any sequence of records (also
-- by other clients, and of so many sessions that old ones are dropped), uses, demotions and removals
-- of others, it belongs to the client that it belonged to first.
pub run-owner :
    (ss : Sessions) (cs : List Call) (k : String) (s s' : OwnedSession)
    → Distinct ss
    → get_session k ss ≡ some s
    → Stays k ss cs
    → get_session k (run ss cs) ≡ some s'
    → s'.client_id ≡ s.client_id
unfolding run Stays
run-owner ss [] k s s' d e st e' = ground arith
run-owner ss (c ∷ cs) k s s' d e (here, st) e' = elim (Option-cases (get_session k (step ss c))) [
  | inl gone ↦ absurd (ground arith)
  | inr (t, found) ↦
      run-owner (step ss c) cs k t s' (step-Distinct ss c d) found st e'
      ∙ step-owner ss c k s t d e found
]
