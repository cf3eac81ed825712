-- ===== src/Registry/Calls.antt =====
-- src/session/registry.ts: what its calls do to the sessions that it keeps.
use mathlib.Core.Path.{subst}
use agents_with_chatgpt.Prelude.{
  ◌≡◌, refl, sym, ap, ◌∙◌, inl, inr, String, ◌||◌, not, Option, none, some, List, [], ◌∷◌, is_some,
  read_key, write_key, read_key-write_key, ok, arith, eq_iff, Bool-cases, Result-cases, ◌==◌,
  if◌then◌else◌,
}
use agents_with_chatgpt.Registry.{
  Session, SessionStatus, SessionTaskUpdate, NewSession, Registry, Surroundings, save, store,
  check_owned, get_owned, new_session, create, set_status, is_superseded, is_settled, applied,
  is_session_id, is_task_id, is_bad_task, is_bad_sequence, update_from_task, Call, creates, updates,
  sets_status, perform, perform_all,
}
use agents_with_chatgpt.Registry.Order.{
  NotBefore, level, NotBefore-refl, NotBefore-trans, applied-NotBefore,
}

-- The map finds a session under the session's own id.
abbrev pub Keyed : Registry → Type 0
Keyed r = (id : String) (s : Session) → read_key id r.sessions ≡ some s → s.id ≡ id

-- What is found under an id is still found, and its last task is not an earlier one.
abbrev Advances : String → Registry → Registry → Type 0
Advances id r r' =
    (s : Session)
    → read_key id r.sessions ≡ some s
    → (s' : Session) × (read_key id r'.sessions ≡ some s') × NotBefore s s'

abbrev Good : Registry → Registry → Type 0
Good r r' = Keyed r' × ((id : String) → Advances id r r')

Good-refl : (r : Registry) → Keyed r → Good r r
Good-refl r k = (k, λ id s h. (s, h, NotBefore-refl s))

Good-trans : (a b c : Registry) → Good a b → Good b c → Good a c
Good-trans a b c g h = (
  h.0,
  λ id s e.
      let (t, e', n) = g.1 id s e in
      let (u, e'', m) = h.1 id t e' in (u, e'', NotBefore-trans s t u n m),
)

store-sessions :
    (e : Surroundings) (s : Session) (r : Registry)
    → (store e s r).1.sessions ≡ write_key s.id s r.sessions
unfolding store save
store-sessions e s r = elim (Bool-cases e.is_writable) [ inl w ↦ rw w refl | inr w ↦ rw w refl ]

store-read :
    (e : Surroundings) (s : Session) (r : Registry) (id : String)
    → read_key id (store e s r).1.sessions ≡ (if s.id == id then some s else read_key id r.sessions)
store-read e s r id =
    ap (read_key id) (store-sessions e s r) ∙ read_key-write_key s.id id s r.sessions

-- A session stored over one that it is not before.
store-Good :
    (e : Surroundings) (s : Session) (r : Registry)
    → Keyed r
    → ((old : Session) → read_key s.id r.sessions ≡ some old → NotBefore old s)
    → Good r (store e s r).1
store-Good e s r k n = (keyed, advances)
  where
    keyed : (id : String) (t : Session) → read_key id (store e s r).1.sessions ≡ some t → t.id ≡ id
    keyed id t h = elim (Bool-cases (s.id == id)) [
      | inl same ↦
          let found : s ≡ t = ground (arith, h, store-read e s r id, same) in
          sym (ap (λ (x : Session). x.id) found) ∙ (eq_iff s.id id).0 same
      | inr other ↦ k id t (ground (arith, h, store-read e s r id, other))
    ]

    advances :
        (id : String) (t : Session)
        → read_key id r.sessions ≡ some t
        → (t' : Session) × (read_key id (store e s r).1.sessions ≡ some t') × NotBefore t t'
    advances id t h = elim (Bool-cases (s.id == id)) [
      | inl same ↦ (
        s,
        ground (arith, store-read e s r id, same),
        n t (ap (λ i. read_key i r.sessions) ((eq_iff s.id id).0 same) ∙ h),
      )
      | inr other ↦ (t, ground (arith, h, store-read e s r id, other), NotBefore-refl t)
    ]

get_owned-found :
    (id owner_id : String) (workspace_id : Option String) (r : Registry) (s : Session)
    → get_owned id owner_id workspace_id r ≡ ok s
    → read_key id r.sessions ≡ some s
unfolding get_owned check_owned
get_owned-found id owner_id workspace_id r s h = ground (arith, h)

some_same : (a b : Session) → some a ≡ some b → a ≡ b
some_same a b h = ground (arith, h)

own_key :
    (r : Registry) (id : String) (s old : Session)
    → Keyed r
    → read_key id r.sessions ≡ some s
    → read_key s.id r.sessions ≡ some old
    → s ≡ old
own_key r id s old k found there =
    some_same s old (sym found ∙ ap (λ i. read_key i r.sessions) (sym (k id s found)) ∙ there)

apply-Good :
    (e : Surroundings) (u : SessionTaskUpdate) (s : Session) (r : Registry)
    → Keyed r
    → read_key u.session_id r.sessions ≡ some s
    → Good r
        (if is_superseded u s || is_settled u s then (ok s, r) else store e (applied e u s) r).1
unfolding applied
apply-Good e u s r k found = elim (Bool-cases (is_superseded u s || is_settled u s)) [
  | inl ignored ↦ rw ignored (Good-refl r k)
  | inr taken ↦ rw taken (
      store-Good e (applied e u s) r k (λ old there.
        let same : s ≡ old = own_key r u.session_id s old k found there in
        let ahead : NotBefore s (applied e u s) = applied-NotBefore e u s (ground (arith, taken)) in
        subst (λ (x : Session). NotBefore x (applied e u s)) same ahead))
]

update-Good :
    (e : Surroundings) (u : SessionTaskUpdate) (r : Registry)
    → Keyed r
    → Good r (update_from_task e u r).1
unfolding update_from_task
update-Good e u r k = elim (Bool-cases (is_task_id u.task_id)) [
  | inr bad ↦ rw bad (Good-refl r k)
  | inl good ↦ elim (Result-cases (get_owned u.session_id u.owner_id (some u.workspace_id) r)) [
    | inr (x, h) ↦ rw (good, h) (Good-refl r k)
    | inl (s, h) ↦
        rw (good, h)
          (apply-Good e u s r k
            (get_owned-found u.session_id u.owner_id (some u.workspace_id) r s h))
  ]
]

set_status-Good :
    (e : Surroundings) (id owner_id : String) (status : SessionStatus) (r : Registry)
    → Keyed r
    → Good r (set_status e id owner_id status r).1
unfolding set_status
set_status-Good e id owner_id status r k = elim (Result-cases (get_owned id owner_id none r)) [
  | inr (x, h) ↦ rw (set_status, h) (Good-refl r k)
  | inl (s, h) ↦
      rw (set_status, h)
        (store-Good e (record s { status = status; updated_at = e.now }) r k
          (λ old there.
            let same : s ≡ old =
              own_key r id s old k (get_owned-found id owner_id none r s h) there in
            subst (λ (x : Session). NotBefore x (record s { status = status; updated_at = e.now }))
              same (level refl (inr refl))))
]

create-Good : (e : Surroundings) (x : NewSession) (r : Registry) → Keyed r → Good r (create e x r).1
unfolding create new_session
create-Good e x r k =
    elim (Bool-cases (not (is_session_id x.id) || is_some (read_key x.id r.sessions))) [
      | inl bad ↦ rw bad (Good-refl r k)
      | inr free ↦
          elim (Bool-cases (is_bad_task x.last_task_id || is_bad_sequence x.last_task_sequence)) [
            | inl bad ↦ rw (free, bad) (Good-refl r k)
            | inr fine ↦
                rw (free, fine)
                  (store-Good e (new_session e x) r k
                    (λ old there. absurd (ground (arith, free, there))))
          ]
    ]

perform-Good : (e : Surroundings) (c : Call) (r : Registry) → Keyed r → Good r (perform e c r).1
unfolding perform
perform-Good e (creates x) r k = create-Good e x r k
perform-Good e (updates u) r k = update-Good e u r k
perform-Good e (sets_status id owner_id status) r k = set_status-Good e id owner_id status r k

perform_all-Good :
    (cs : List (Surroundings × Call)) (r : Registry) → Keyed r → Good r (perform_all cs r)
unfolding perform_all
perform_all-Good [] r k = Good-refl r k
perform_all-Good (c ∷ cs) r k =
    let g : Good r (perform c.0 c.1 r).1 = perform-Good c.0 c.1 r k in
    Good-trans r (perform c.0 c.1 r).1 (perform_all cs (perform c.0 c.1 r).1) g
      (perform_all-Good cs (perform c.0 c.1 r).1 g.0)

-- A session never goes back to an earlier task: after any calls that create sessions, set their
-- status or report on tasks, in any order and whichever writes fail, a session that was there is
-- still there; the number of its last task has not gone down; and with the same number, the last
-- task is the same one, if there was one.
pub perform_all-NotBefore :
    (cs : List (Surroundings × Call)) (r : Registry) (id : String) (s : Session)
    → Keyed r
    → read_key id r.sessions ≡ some s
    → (s' : Session) × (read_key id (perform_all cs r).sessions ≡ some s') × NotBefore s s'
perform_all-NotBefore cs r id s k h = (perform_all-Good cs r k).1 id s h
