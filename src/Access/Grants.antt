-- ===== src/Access/Grants.antt =====
-- z2c/src/authz/grants.ts: which workspaces the local user has opened to paired clients. The id that
-- a path gives rise to and the random suffix are arguments of the call.
pub mod Decisions
pub mod Opening
mod Tests
use agents_with_chatgpt.Prelude.{
  ℕ, String, Bool, true, false, ◌&&◌, not, Option, none, some, or_else, Exec, Result, ok, err, List,
  [], ◌∷◌, ◌++◌, any, find, keep, update_first, is_some, ◌==◌, if◌then◌else◌,
}
use agents_with_chatgpt.Access.Workspaces.{Paths, WorkspaceError, canonicalize_workspace_path}

pub data WorkspaceAccess : Type 0 where
  readonly write : WorkspaceAccess

-- `WorkspaceGrant`; the permission to read is always given
pub record Grant : Type 0 where
  pub workspace_id : String
  pub canonical_path : String
  pub display_name : String
  pub can_write : Bool
  pub granted_at : ℕ
  pub revoked_at : Option ℕ

pub data GrantError : Type 0 where
  path_error : WorkspaceError → GrantError
  grant_not_found workspace_not_authorized invalid_path workspace_path_mismatch write_not_granted :
      GrantError

abbrev pub Action : Type 0 → Type 0
Action A = Exec (List Grant) GrantError A

pub record Options : Type 0 where
  pub display_name : Option String
  pub can_write : Option Bool
  pub workspace_id : Option String

unfoldable pub is_active : Grant → Bool
is_active g = not (is_some g.revoked_at)

unfoldable pub has_path : String → Grant → Bool
has_path path g = is_active g && g.canonical_path == path

unfoldable pub has_id : String → Grant → Bool
has_id id g = is_active g && g.workspace_id == id

pub amend : Options → Grant → Grant
amend opts g = record g {
  can_write = or_else opts.can_write g.can_write;
  display_name = or_else opts.display_name g.display_name;
}

-- the id of a new grant: one that an active grant has is given the suffix
id_for : Options → String → String → List Grant → String
id_for opts seed suffixed gs =
    let id = or_else opts.workspace_id seed in if any (has_id id) gs then suffixed else id

new_grant : ℕ → Options → String → String → Grant
new_grant now opts id path = record {
  workspace_id = id;
  canonical_path = path;
  display_name = or_else opts.display_name id;
  can_write = or_else opts.can_write true;
  granted_at = now;
  revoked_at = none;
}

authorize_path : ℕ → Options → String → String → String → Action Grant
authorize_path now opts seed suffixed path gs = elim (find (has_path path) gs) [
  | some g ↦ (ok (amend opts g), update_first (has_path path) (amend opts) gs)
  | none ↦ (let g = new_grant now opts (id_for opts seed suffixed gs) path in (ok g, gs ++ g ∷ []))
]

-- `authorize`; `seed` is "ws_" and the path's letters and digits, `suffixed` that with a suffix
pub authorize : Paths → ℕ → Options → (String → String) → String → String → Action Grant
authorize fs now opts seed suffixed raw gs = elim (canonicalize_workspace_path fs raw) [
  | err e ↦ (err (path_error e), gs)
  | ok path ↦ authorize_path now opts (seed path) suffixed path gs
]

-- `getActive`
unfoldable pub get_active : String → List Grant → Option Grant
get_active id = find (has_id id)

-- `revoke`
pub revoke : ℕ → String → Action (Unit {0})
revoke now id gs =
    if is_some (get_active id gs)
    then (ok tt, update_first (has_id id) (λ g. record g { revoked_at = some now }) gs)
    else (err grant_not_found, gs)

-- `list`
pub list_grants : List Grant → List Grant
list_grants = keep is_active

path_ok : Paths → Option String → Grant → Result GrantError (Unit {0})
path_ok fs none g = ok tt
path_ok fs (some raw) g = elim (canonicalize_workspace_path fs raw) [
  | err e ↦ err invalid_path
  | ok path ↦ if path == g.canonical_path then ok tt else err workspace_path_mismatch
]

write_ok : WorkspaceAccess → Grant → Result GrantError Grant
write_ok readonly g = ok g
write_ok write g = if g.can_write then ok g else err write_not_granted

access_grant : Paths → WorkspaceAccess → Option String → Grant → Result GrantError Grant
access_grant fs access raw g = elim (path_ok fs raw g) [ err e ↦ err e | ok u ↦ write_ok access g ]

-- `authorizeAccess`
pub authorize_access :
    Paths → String → WorkspaceAccess → Option String → List Grant → Result GrantError Grant
authorize_access fs id access raw gs = elim (get_active id gs) [
  | none ↦ err workspace_not_authorized
  | some g ↦ access_grant fs access raw g
]
