-- ===== src/Access/Sessions/Decisions.antt =====
-- When a call on a session is let through: `assertCanAccess` of z2c/src/authz/ownership.ts.
use agents_with_chatgpt.Prelude.{◌≡◌, ◌↔◌, refl, String, false, some, ok, arith, eq_iff}
use agents_with_chatgpt.Access.Grants.{WorkspaceAccess, readonly, write}
use agents_with_chatgpt.Access.Sessions.{
  OwnedSession, Principal, local, client, Sessions, get_session, not_owner, is_refused_write,
  check_access, assert_can_access,
}

-- Who may use a session: the local user any, a client its own.
abbrev pub MayUse : Principal → OwnedSession → Type 0
MayUse local s = Unit
MayUse (client c) s = s.client_id ≡ c

not_owner-MayUse : (who : Principal) (s : OwnedSession) → not_owner who s ≡ false → MayUse who s
unfolding not_owner
not_owner-MayUse local s e = tt
not_owner-MayUse (client c) s e = ground (arith, eq_iff s.client_id c)

MayUse-not_owner : (who : Principal) (s : OwnedSession) → MayUse who s → not_owner who s ≡ false
unfolding not_owner
MayUse-not_owner local s m = refl
MayUse-not_owner (client c) s m = ground (arith, eq_iff s.client_id c)

write-allowed :
    (access mode : WorkspaceAccess)
    → (is_refused_write access mode ≡ false) ↔ (access ≡ write → mode ≡ write)
unfolding is_refused_write
write-allowed write write = (λ e w. refl, λ h. refl)
write-allowed write readonly = (λ e w. absurd (ground arith), λ h. absurd (ground (arith, h refl)))
write-allowed readonly mode = (λ e w. absurd (ground arith), λ h. refl)

-- A call on a session is let through exactly if the session is on record, the caller is the local
-- user or the client that owns it, and a write is not made on a readonly session.
pub assert_can_access_iff :
    (who : Principal) (id : String) (access : WorkspaceAccess) (ss : Sessions) (s : OwnedSession)
    → (assert_can_access who id access ss ≡ ok s)
      ↔ ((get_session id ss ≡ some s) × MayUse who s × (access ≡ write → s.access_mode ≡ write))
unfolding assert_can_access check_access
assert_can_access_iff who id access ss s = (
  λ h. (
    ground arith,
    not_owner-MayUse who s (ground arith),
    (write-allowed access s.access_mode).0 (ground arith),
  ),
  λ h. ground (arith, h.0, MayUse-not_owner who s h.1, (write-allowed access s.access_mode).1 h.2),
)
