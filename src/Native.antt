-- ===== src/Native.antt =====
-- src/execution/zcode-session-ownership.ts: which client may read, and which may steer, a session of
-- the ZCode lane. With a state directory every call reads the file again; without one the sessions
-- are in memory. A write goes through.
pub mod Control
mod Tests
use agents_with_chatgpt.Prelude.{
  ℕ, ◌-◌, String, Bool, true, false, ◌&&◌, ◌||◌, not, Option, none, some, Result, ok, err, List, [],
  ◌∷◌, ◌++◌, map, find, keep, drop, length, update_first, includes, is_some, or_else, ◌==◌,
  if◌then◌else◌,
}

pub data Access : Type 0 where
  readonly write : Access

-- `ZcodeOwnedSession`
pub record Owned : Type 0 where
  pub session_id : String
  pub workspace_id : String
  pub client_id : String
  pub access : Access
  pub observe : Bool
  pub control : Bool
  pub delegated_controllers : List String
  pub created_at : ℕ
  pub last_used_at : ℕ

-- `ZcodeOwnedSessionV1`
pub record OldOwned : Type 0 where
  pub session_id : String
  pub workspace_id : String
  pub client_id : String
  pub access : Access
  pub created_at : ℕ
  pub last_used_at : ℕ

-- `migrateV1Session`
abbrev pub migrate : OldOwned → Owned
migrate s = record {
  session_id = s.session_id;
  workspace_id = s.workspace_id;
  client_id = s.client_id;
  access = s.access;
  observe = true;
  control = true;
  delegated_controllers = [];
  created_at = s.created_at;
  last_used_at = s.last_used_at;
}

-- An element of the stored list: without a session id, without capabilities, or whole.
pub data Stored : Type 0 where
  no_session : Stored
  without : OldOwned → Stored
  whole : Owned → Stored

pub data File : Type 0 where
  unreadable : File
  version_1 version_2 : List Stored → File

abbrev without_capabilities : Owned → OldOwned
without_capabilities s = record {
  session_id = s.session_id;
  workspace_id = s.workspace_id;
  client_id = s.client_id;
  access = s.access;
  created_at = s.created_at;
  last_used_at = s.last_used_at;
}

migrated : List Stored → List Owned
migrated [] = []
migrated (no_session ∷ xs) = migrated xs
migrated (without s ∷ xs) = migrate s ∷ migrated xs
migrated (whole s ∷ xs) = migrate (without_capabilities s) ∷ migrated xs

tolerated : List Stored → List Owned
tolerated [] = []
tolerated (no_session ∷ xs) = tolerated xs
tolerated (without s ∷ xs) = migrate s ∷ tolerated xs
tolerated (whole s ∷ xs) = s ∷ tolerated xs

-- `parseState` and `loadState`
pub load_state : File → List Owned
load_state unreadable = []
load_state (version_1 xs) = migrated xs
load_state (version_2 xs) = tolerated xs

pub record Sessions : Type 0 where
  pub on_disk : Bool
  pub file : File
  pub memory : List Owned

pub sessions_of : Sessions → List Owned
sessions_of s = if s.on_disk then load_state s.file else s.memory

-- `save`
pub saved : List Owned → Sessions → Sessions
saved xs s = record s { memory = xs; file = if s.on_disk then version_2 (map whole xs) else s.file }

-- `state` after a call that only reads
reread : Sessions → Sessions
reread s = record s { memory = sessions_of s }

is_session : String → Owned → Bool
is_session id s = s.session_id == id

pub find_session : String → List Owned → Option Owned
find_session id xs = find (is_session id) xs

pub data Denial : Type 0 where
  not_owned workspace_mismatch control_denied observe_denied : Denial

-- `zcodeSessionClientId`, of the client's id where there is a client
pub principal_of : Option (Option String) → String
principal_of none = "local"
principal_of (some none) = "local"
principal_of (some (some id)) = if id == "" then "local" else id

max_sessions : ℕ
max_sessions = 5000

-- `record`
pub record_session : ℕ → String → String → String → Access → Sessions → Sessions
record_session now id workspace client access s =
    let xs = sessions_of s in
    if is_some (find_session id xs)
    then saved (update_first (is_session id) (λ o. record o { last_used_at = now }) xs) s
    else let new : Owned = record {
      session_id = id;
      workspace_id = workspace;
      client_id = client;
      access = access;
      observe = true;
      control = true;
      delegated_controllers = [];
      created_at = now;
      last_used_at = now;
    } in
      let all_of : List Owned = xs ++ new ∷ [] in
      saved (drop (length all_of - max_sessions) all_of) s

is_owner : String → Owned → Bool
is_owner p o = p == "local" || o.client_id == p

access_to : String → String → Option Owned → Result Denial Owned
access_to p workspace none = err not_owned
access_to p workspace (some o) =
    if not (is_owner p o)
    then err not_owned
    else if not (o.workspace_id == workspace)
    then err workspace_mismatch
    else ok o

-- `assertCanAccess`
pub assert_can_access : Option (Option String) → String → String → Sessions → Result Denial Owned
assert_can_access auth id workspace s =
    access_to (principal_of auth) workspace (find_session id (sessions_of s))

observable : Result Denial Owned → Result Denial Owned
observable (err x) = err x
observable (ok o) = if o.observe then ok o else err observe_denied

-- `assertCanObserve`
pub assert_can_observe : Option (Option String) → String → String → Sessions → Result Denial Owned
assert_can_observe auth id workspace s = observable (assert_can_access auth id workspace s)

control_of : String → String → Option Owned → Result Denial Owned
control_of p workspace none = err not_owned
control_of p workspace (some o) =
    if not (o.workspace_id == workspace)
    then err workspace_mismatch
    else if not (is_owner p o) && not (includes p o.delegated_controllers)
    then err not_owned
    else if not o.control
    then err control_denied
    else ok o

-- `assertCanControl`
pub assert_can_control : Option (Option String) → String → String → Sessions → Result Denial Owned
assert_can_control auth id workspace s =
    control_of (principal_of auth) workspace (find_session id (sessions_of s))

-- `delegated[]`, with one more
with_delegate : String → Owned → Owned
with_delegate c o = record o { delegated_controllers = o.delegated_controllers ++ c ∷ [] }

without_delegate : String → Owned → Owned
without_delegate c o = record o {
  delegated_controllers = keep (λ d. not (d == c)) o.delegated_controllers;
}

change : String → (Owned → Owned) → Sessions → Sessions
change id f s = saved (update_first (is_session id) f (sessions_of s)) s

delegate_found :
    String → String → String → Option Owned → Sessions → Result Denial (Unit {0}) × Sessions
delegate_found id owner c none s = (err not_owned, reread s)
delegate_found id owner c (some o) s =
    if not (o.client_id == owner)
    then (err not_owned, reread s)
    else if includes c o.delegated_controllers
    then (ok tt, reread s)
    else (ok tt, change id (with_delegate c) s)

-- `delegateControl`
pub delegate_control : String → String → String → Sessions → Result Denial (Unit {0}) × Sessions
delegate_control id owner c s = delegate_found id owner c (find_session id (sessions_of s)) s

revoke_found :
    String → String → String → Option Owned → Sessions → Result Denial (Unit {0}) × Sessions
revoke_found id owner c none s = (err not_owned, reread s)
revoke_found id owner c (some o) s =
    if not (o.client_id == owner)
    then (err not_owned, reread s)
    else (ok tt, change id (without_delegate c) s)

-- `revokeDelegation`
pub revoke_delegation : String → String → String → Sessions → Result Denial (Unit {0}) × Sessions
revoke_delegation id owner c s = revoke_found id owner c (find_session id (sessions_of s)) s

-- `touch`
pub touch_session : ℕ → String → Sessions → Sessions
touch_session now id s =
    if is_some (find_session id (sessions_of s))
    then change id (λ o. record o { last_used_at = now }) s
    else reread s

-- `forget`
pub forget_session : String → Sessions → Sessions
forget_session id s =
    if is_some (find_session id (sessions_of s))
    then saved (keep (λ o. not (is_session id o)) (sessions_of s)) s
    else reread s
