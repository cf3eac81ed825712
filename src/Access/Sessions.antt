-- ===== src/Access/Sessions.antt =====
-- z2c/src/authz/ownership.ts: which client owns which session.
pub mod Decisions
pub mod Records
pub mod Owners
mod Tests
use agents_with_chatgpt.Prelude.{
  ℕ, ◌-◌, String, Bool, true, false, not, Option, none, some, Exec, Result, ok, err, List, [], ◌∷◌,
  ◌++◌, find, keep, drop, length, update_first, is_some, ◌==◌, if◌then◌else◌,
}
use agents_with_chatgpt.Access.Grants.{WorkspaceAccess, readonly, write}

-- `OwnedSession`
pub record OwnedSession : Type 0 where
  pub session_id : String
  pub workspace_id : String
  pub client_id : String
  pub access_mode : WorkspaceAccess
  pub created_at : ℕ
  pub last_used_at : ℕ
  pub stale_at : Option ℕ

-- `Principal`: the holder of the service secret, or a paired client
pub data Principal : Type 0 where
  local : Principal
  client : String → Principal

pub data OwnershipError : Type 0 where
  session_not_owned ownership_denied session_readonly : OwnershipError

abbrev pub Sessions : Type 0
Sessions = List OwnedSession

abbrev pub max_sessions : ℕ
max_sessions = 2000

-- `get`
unfoldable pub get_session : String → Sessions → Option OwnedSession
get_session id = find (λ s. s.session_id == id)

pub update_session : String → (OwnedSession → OwnedSession) → Sessions → Sessions
update_session id f = update_first (λ s. s.session_id == id) f

new_session : ℕ → String → String → String → WorkspaceAccess → OwnedSession
new_session now id workspace_id client_id mode = record {
  session_id = id;
  workspace_id = workspace_id;
  client_id = client_id;
  access_mode = mode;
  created_at = now;
  last_used_at = now;
  stale_at = none;
}

used_again : ℕ → WorkspaceAccess → OwnedSession → OwnedSession
used_again now mode s = record s { last_used_at = now; access_mode = mode }

-- `record`
pub record_session : ℕ → String → String → String → WorkspaceAccess → Sessions → Sessions
record_session now id workspace_id client_id mode ss = elim (get_session id ss) [
  | some s ↦ update_session id (used_again now mode) ss
  | none ↦
      (let all = ss ++ new_session now id workspace_id client_id mode ∷ [] in
        drop (length all - max_sessions) all)
]

not_owner : Principal → OwnedSession → Bool
not_owner local s = false
not_owner (client c) s = not (s.client_id == c)

is_refused_write : WorkspaceAccess → WorkspaceAccess → Bool
is_refused_write write readonly = true
is_refused_write _ _ = false

check_access : Principal → WorkspaceAccess → OwnedSession → Result OwnershipError OwnedSession
check_access who access s =
    if not_owner who s
    then err ownership_denied
    else if is_refused_write access s.access_mode
    then err session_readonly
    else ok s

-- `assertCanAccess`
pub assert_can_access :
    Principal → String → WorkspaceAccess → Sessions → Result OwnershipError OwnedSession
assert_can_access who id access ss = elim (get_session id ss) [
  | none ↦ err session_not_owned
  | some s ↦ check_access who access s
]

touched : ℕ → OwnedSession → OwnedSession
touched now s = record s { last_used_at = now; stale_at = none }

-- `touch`
pub touch : ℕ → String → Sessions → Sessions
touch now id = update_session id (touched now)

demoted : ℕ → OwnedSession → OwnedSession
demoted now s = if is_some s.stale_at then s else record s { stale_at = some now }

-- `markStale`
pub mark_stale : ℕ → String → Sessions → Sessions
mark_stale now id = update_session id (demoted now)

-- `forget`
pub forget : String → Sessions → Sessions
forget id = keep (λ s. not (s.session_id == id))

-- `listFor`
pub list_for : Principal → Sessions → Sessions
list_for local ss = ss
list_for (client c) ss = keep (λ s. s.client_id == c) ss
