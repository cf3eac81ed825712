-- ===== src/Native/Control.antt =====
-- Who may steer and who may read a session, by src/execution/zcode-session-ownership.ts.
use mathlib.Core.Path.{subst}
use agents_with_chatgpt.Prelude.{
  ◌≡◌, ◌≢◌, refl, sym, ap, ◌∙◌, ◌↔◌, ◌⊎◌, inl, inr, String, Bool, true, false, ◌||◌, not, Option,
  none, some, ok, err, List, [], ◌∷◌, map, find, keep, update_first, includes, arith, eq_iff,
  Bool-cases, ◌==◌,
}
use agents_with_chatgpt.Native.{
  Owned, whole, tolerated, load_state, Sessions, sessions_of, saved, is_session, find_session,
  not_owned, workspace_mismatch, principal_of, is_owner, access_to, assert_can_access, observable,
  assert_can_observe, control_of, assert_can_control, without_delegate, change, revoke_found,
  revoke_delegation,
}

-- The local operator, the owner, or a client that the owner let steer the session.
abbrev pub MaySteer : String → Owned → Type 0
MaySteer p o = (p ≡ "local") ⊎ (o.client_id ≡ p) ⊎ (includes p o.delegated_controllers ≡ true)

abbrev may_steer : String → Owned → Bool
may_steer p o = is_owner p o || includes p o.delegated_controllers

none-some : (o : Owned) → none ≡ some o → ⊥
none-some o h = absurd (cc)

may_steer_iff : (p : String) (o : Owned) → (may_steer p o ≡ true) ↔ MaySteer p o
unfolding is_owner
may_steer_iff p o = (to, from)
  where
    to : may_steer p o ≡ true → MaySteer p o
    to h = elim (Bool-cases (p == "local")) [
      | inl local ↦ inl ((eq_iff p "local").0 local)
      | inr other ↦ elim (Bool-cases (o.client_id == p)) [
        | inl owner ↦ inr (inl ((eq_iff o.client_id p).0 owner))
        | inr foreign ↦ inr (inr (ground (arith, h, other, foreign)))
      ]
    ]

    from : MaySteer p o → may_steer p o ≡ true
    from (inl local) = ground (arith, (eq_iff p "local").1 local)
    from (inr (inl owner)) = ground (arith, (eq_iff o.client_id p).1 owner)
    from (inr (inr delegated)) = ground (arith, delegated)

control_of-through :
    (p workspace : String) (x o : Owned)
    → control_of p workspace (some x) ≡ ok o
    → (x ≡ o) × (x.workspace_id == workspace ≡ true) × (may_steer p x ≡ true) × (x.control ≡ true)
unfolding control_of
control_of-through p workspace x o h = ground (arith, h)

control_of_iff :
    (p workspace : String) (x : Option Owned) (o : Owned)
    → (control_of p workspace x ≡ ok o)
      ↔ ((x ≡ some o) × (o.workspace_id ≡ workspace) × MaySteer p o × (o.control ≡ true))
unfolding control_of
control_of_iff p workspace none o = (λ h. absurd (cc), λ h. absurd (none-some o h.0))
control_of_iff p workspace (some x) o = (
  λ h.
      let (same, place, steer, can) = control_of-through p workspace x o h in
      (
        ap some same,
        ap (λ (y : Owned). y.workspace_id) (sym same) ∙ (eq_iff x.workspace_id workspace).0 place,
        subst (MaySteer p) same ((may_steer_iff p x).0 steer),
        ap (λ (y : Owned). y.control) (sym same) ∙ can,
      ),
  λ h.
      let place : o.workspace_id == workspace ≡ true = (eq_iff o.workspace_id workspace).1 h.1 in
      let steer : may_steer p o ≡ true = (may_steer_iff p o).1 h.2 in
      let can : o.control ≡ true = h.3 in
      subst (λ (y : Option Owned). control_of p workspace y ≡ ok o) (sym h.0)
        (ground (arith, place, steer, can)),
)

-- What was saved is read back as it was.
tolerated-whole : (xs : List Owned) → tolerated (map whole xs) ≡ xs
unfolding tolerated
tolerated-whole [] = refl
tolerated-whole (x ∷ xs) = ap (λ ys. x ∷ ys) (tolerated-whole xs)

pub sessions_of-saved : (xs : List Owned) (s : Sessions) → sessions_of (saved xs s) ≡ xs
unfolding sessions_of saved load_state
sessions_of-saved xs s = elim (Bool-cases s.on_disk) [
  | inl disk ↦ rw disk (tolerated-whole xs)
  | inr memory ↦ rw memory refl
]

-- A session may be steered exactly by the local operator, by its owner and by the clients that the
-- owner named, in the workspace that it belongs to, while its control capability stands.
pub assert_can_control_iff :
    (auth : Option (Option String)) (id workspace : String) (s : Sessions) (o : Owned)
    → (assert_can_control auth id workspace s ≡ ok o) ↔ (
        (find_session id (sessions_of s) ≡ some o)
        × (o.workspace_id ≡ workspace)
        × MaySteer (principal_of auth) o
        × (o.control ≡ true))
unfolding assert_can_control
assert_can_control_iff auth id workspace s o =
    control_of_iff (principal_of auth) workspace (find_session id (sessions_of s)) o

access-foreign :
    (p workspace : String) (x : Option Owned)
    → p ≢ "local"
    → ((o : Owned) → x ≡ some o → o.client_id ≢ p)
    → access_to p workspace x ≡ err not_owned
unfolding access_to is_owner
access-foreign p workspace none far other = refl
access-foreign p workspace (some o) far other =
    let not_mine : o.client_id ≢ p = other o refl in
    ground (arith, far, not_mine, eq_iff p "local", eq_iff o.client_id p)

-- Of reading, a client that does not own a session learns nothing: whether the session exists, is
-- another client's or belongs to another workspace, the answer is the same.
pub observe-no_oracle :
    (auth : Option (Option String)) (id workspace : String) (s : Sessions)
    → principal_of auth ≢ "local"
    → ((o : Owned) → find_session id (sessions_of s) ≡ some o → o.client_id ≢ principal_of auth)
    → (assert_can_access auth id workspace s ≡ err not_owned)
      × (assert_can_observe auth id workspace s ≡ err not_owned)
unfolding assert_can_access assert_can_observe observable
observe-no_oracle auth id workspace s far other =
    let denied =
      access-foreign (principal_of auth) workspace (find_session id (sessions_of s)) far other in
    (denied, ap observable denied)

same-owned : (x y : Owned) → some x ≡ some y → x ≡ y
same-owned x y h = cc

control-oracle :
    (p workspace : String) (x : Option Owned)
    → ((o : Owned) → x ≡ some o → MaySteer p o → ⊥)
    → (control_of p workspace x ≡ err workspace_mismatch)
      ↔ ((o : Owned) × (x ≡ some o) × (o.workspace_id ≢ workspace))
unfolding control_of
control-oracle p workspace none other = (λ h. absurd (cc), λ h. absurd (none-some h.0 h.1))
control-oracle p workspace (some o) other = (
  λ h. (o, refl, λ here. ground (arith, h, (eq_iff o.workspace_id workspace).1 here)),
  λ h.
      let far : o.workspace_id ≢ workspace =
        λ here. h.2 (ap (λ (y : Owned). y.workspace_id) (sym (same-owned o h.0 h.1)) ∙ here) in
      ground (arith, far, eq_iff o.workspace_id workspace),
)

-- Of steering, a client that may not steer a session is answered "workspace mismatch" exactly when the
-- session exists and belongs to another workspace than the one it names; a session that does not
-- exist is answered differently.
pub control-reveals :
    (auth : Option (Option String)) (id workspace : String) (s : Sessions)
    → ((o : Owned) → find_session id (sessions_of s) ≡ some o → MaySteer (principal_of auth) o → ⊥)
    → (assert_can_control auth id workspace s ≡ err workspace_mismatch)
      ↔ ((o : Owned) × (find_session id (sessions_of s) ≡ some o) × (o.workspace_id ≢ workspace))
unfolding assert_can_control
control-reveals auth id workspace s other =
    control-oracle (principal_of auth) workspace (find_session id (sessions_of s)) other

skip-first :
    (id : String) (x : Owned) (xs : List Owned) {o : Owned}
    → x.session_id == id ≡ false
    → find (is_session id) (x ∷ xs) ≡ some o
    → find (is_session id) xs ≡ some o
unfolding is_session
skip-first id x xs miss h = ground (arith, miss, h)

find-updated :
    (id : String) (f : Owned → Owned) (xs : List Owned) (o : Owned)
    → ((x : Owned) → (f x).session_id ≡ x.session_id)
    → find_session id xs ≡ some o
    → find_session id (update_first (is_session id) f xs) ≡ some (f o)
unfolding find_session is_session
find-updated id f [] o same h = absurd (cc)
find-updated id f (x ∷ xs) o same h = elim (Bool-cases (x.session_id == id)) [
  | inl hit ↦ ground (arith, hit, h, same x)
  | inr miss ↦
      let rest = find-updated id f xs o same (skip-first id x xs miss h) in
      ground (arith, miss, rest)
]

true-false : true ≡ false → ⊥
true-false h = absurd (cc)

keep-without : (c : String) (ds : List String) → includes c (keep (λ d. not (d == c)) ds) ≡ false
unfolding includes
keep-without c [] = refl
keep-without c (d ∷ ds) = ground (arith, keep-without c ds)

revoked-state :
    (id owner c : String) (s : Sessions) (o : Owned)
    → find_session id (sessions_of s) ≡ some o
    → o.client_id ≡ owner
    → find_session id (sessions_of (revoke_delegation id owner c s).1) ≡ some (without_delegate c o)
unfolding revoke_delegation revoke_found change without_delegate
revoked-state id owner c s o found mine =
    let there : (revoke_found id owner c (some o) s).1 ≡ change id (without_delegate c) s =
      ground (arith, (eq_iff o.client_id owner).1 mine) in
    let went : (revoke_delegation id owner c s).1 ≡ change id (without_delegate c) s =
      ap (λ (y : Option Owned). (revoke_found id owner c y s).1) found ∙ there in
    ap (λ (y : Sessions). find_session id (sessions_of y)) went
    ∙ ap (find_session id)
        (sessions_of-saved (update_first (is_session id) (without_delegate c) (sessions_of s)) s)
    ∙ find-updated id (without_delegate c) (sessions_of s) o same_id found
  where
    same_id : (y : Owned) → (without_delegate c y).session_id ≡ y.session_id
    same_id y = refl

barred :
    (c : String) (o : Owned) → o.client_id ≢ c → c ≢ "local" → MaySteer c (without_delegate c o) → ⊥
unfolding without_delegate
barred c o other far (inl local) = far local
barred c o other far (inr (inl mine)) = other mine
barred c o other far (inr (inr delegated)) =
    true-false (sym delegated ∙ keep-without c o.delegated_controllers)

named-principal : (c : String) → c ≢ "" → principal_of (some (some c)) ≡ c
unfolding principal_of
named-principal c named = ground (arith, named, eq_iff c "")

-- Once the owner has taken it back, a client that is not the owner may not steer the session, in
-- whatever workspace it says it is, whether the sessions are on disk or in memory.
pub revoke-ends_control :
    (id owner c workspace : String) (s : Sessions) (o x : Owned)
    → find_session id (sessions_of s) ≡ some o
    → o.client_id ≡ owner
    → owner ≢ c
    → c ≢ "local"
    → c ≢ ""
    → assert_can_control (some (some c)) id workspace (revoke_delegation id owner c s).1 ≢ ok x
revoke-ends_control id owner c workspace s o x found mine other far named h =
    let (now, place, steer, can) =
      (assert_can_control_iff (some (some c)) id workspace (revoke_delegation id owner c s).1 x).0
        h in
    let is_it : x ≡ without_delegate c o =
      same-owned x (without_delegate c o) (sym now ∙ revoked-state id owner c s o found mine) in
    barred c o (λ own. other (sym mine ∙ own)) far
      (subst (λ (y : Owned). MaySteer c y) is_it
        (subst (λ (q : String). MaySteer q x) (named-principal c named) steer))
