-- ===== src/Access/Workspaces.antt =====
-- z2c/src/core/workspaces/registry.ts: the workspaces that the GLM lane may work in, and the
-- canonical form of a path. What the platform's path library and file system answer is an argument.
pub mod Resolve
pub mod Tests
use agents_with_chatgpt.Prelude.{
  ℕ, String, Bool, true, false, ◌||◌, not, Option, none, some, or_else, Exec, Result, ok, err, List,
  [], ◌∷◌, any, codes, nat_eq, read_key, write_key, ◌==◌, if◌then◌else◌,
}

-- `WorkspaceEntry`
pub record Entry : Type 0 where
  pub workspace_id : String
  pub canonical_path : String
  pub display_name : String
  pub allowed : Bool

-- The registry's `Map`.
abbrev pub Registry : Type 0
Registry = List (String × Entry)

pub data WorkspaceError : Type 0 where
  invalid_path unknown_workspace unauthorized_workspace workspace_missing workspace_mismatch :
      WorkspaceError

-- node:path and node:fs, as far as they are asked
pub record Paths : Type 0 where
  pub is_absolute : String → Bool
  pub resolve : String → String
  -- realpathSync, none where it throws
  pub real_path : String → Option String
  pub to_lower_case : String → String
  -- `replace(/[\\/]+$/, "")`
  pub without_end_slashes : String → String
  pub exists : String → Bool

-- /[<>|]/
abbrev is_angle : ℕ → Bool
is_angle n = nat_eq n 60 || nat_eq n 62 || nat_eq n 124

unfoldable pub resolved_path : Paths → String → Result WorkspaceError String
resolved_path fs raw =
    let resolved = fs.resolve raw in
    if any is_angle (codes resolved)
    then err invalid_path
    else ok (fs.to_lower_case (or_else (fs.real_path resolved) (fs.without_end_slashes resolved)))

-- `canonicalizeWorkspacePath`; lower case and end slashes commute
unfoldable pub canonicalize_workspace_path : Paths → String → Result WorkspaceError String
canonicalize_workspace_path fs raw =
    if raw == ""
    then err invalid_path
    else if any (λ n. nat_eq n 0) (codes raw) || any is_angle (codes raw)
    then err invalid_path
    else if not (fs.is_absolute raw)
    then err invalid_path
    else resolved_path fs raw

register_at : String → Option String → String → Registry → Result WorkspaceError Entry × Registry
register_at id name path r =
    let entry : Entry = record {
      workspace_id = id;
      canonical_path = path;
      display_name = or_else name id;
      allowed = true;
    } in
    (ok entry, write_key id entry r)

-- `register`
pub register : Paths → String → String → Option String → Exec Registry WorkspaceError Entry
register fs id raw name r = elim (canonicalize_workspace_path fs raw) [
  | ok path ↦ register_at id name path r
  | err e ↦ (err e, r)
]

-- `get`
unfoldable pub get_entry : String → Registry → Result WorkspaceError Entry
get_entry id r = elim (read_key id r) [ none ↦ err unknown_workspace | some e ↦ ok e ]

-- `setAllowed`, which writes to the stored entry
pub set_allowed : String → Bool → Exec Registry WorkspaceError (Unit {0})
set_allowed id allowed r = elim (read_key id r) [
  | none ↦ (err unknown_workspace, r)
  | some e ↦ (ok tt, write_key id (record e { allowed = allowed }) r)
]

unfoldable pub authorize_entry : Paths → Entry → Result WorkspaceError Entry
authorize_entry fs e =
    if not e.allowed
    then err unauthorized_workspace
    else if not (fs.exists e.canonical_path)
    then err workspace_missing
    else ok e

-- `resolveAuthorized`
unfoldable pub resolve_authorized : Paths → String → Registry → Result WorkspaceError Entry
resolve_authorized fs id r = elim (get_entry id r) [ ok e ↦ authorize_entry fs e | err x ↦ err x ]

match_path : Paths → String → Entry → Result WorkspaceError (Unit {0})
match_path fs raw e = elim (canonicalize_workspace_path fs raw) [
  | err x ↦ err x
  | ok path ↦ if path == e.canonical_path then ok tt else err workspace_mismatch
]

-- `assertPathMatches`
pub assert_path_matches : Paths → String → String → Registry → Result WorkspaceError (Unit {0})
assert_path_matches fs id raw r = elim (get_entry id r) [
  | ok e ↦ match_path fs raw e
  | err x ↦ err x
]
