-- ===== src/Access/Workspaces/Resolve.antt =====
-- Which workspaces resolve: z2c/src/core/workspaces/registry.ts.
use agents_with_chatgpt.Prelude.{
  ◌≡◌, ◌≢◌, ◌↔◌, String, Bool, true, false, some, ok, err, arith, eq_iff, Option-cases, inl, inr,
  read_key, read_key-write_key, read_key-write_key_self, if◌then◌else◌, after,
}
use agents_with_chatgpt.Access.Workspaces.{
  Entry, Registry, Paths, workspace_missing, unauthorized_workspace, get_entry, set_allowed,
  authorize_entry, resolve_authorized,
}

-- A workspace resolves to an entry exactly if that is its entry, it is allowed and its path exists.
pub resolve_iff :
    (fs : Paths) (id : String) (r : Registry) (e : Entry)
    → (resolve_authorized fs id r ≡ ok e)
      ↔ ((read_key id r ≡ some e) × (e.allowed ≡ true) × (fs.exists e.canonical_path ≡ true))
unfolding resolve_authorized get_entry authorize_entry
resolve_iff fs id r e = elim (Option-cases (read_key id r)) [
  | inl nobody ↦ (λ h. ground arith, λ h. ground arith)
  | inr (f, found) ↦ (λ h. (ground arith, ground arith, ground arith), λ h. ground arith)
]

-- What is revoked no longer resolves, what is allowed again does if its path exists, and no other
-- workspace is touched by either.
pub set_allowed-resolves :
    (fs : Paths) (id : String) (allowed : Bool) (r : Registry) (e : Entry)
    → read_key id r ≡ some e
    → (resolve_authorized fs id (after (set_allowed id allowed) r) ≡ (
        if allowed
        then if fs.exists e.canonical_path
          then ok (record e { allowed = true })
          else err workspace_missing
        else err unauthorized_workspace))
      × ((other : String)
          → other ≢ id
          → resolve_authorized fs other (after (set_allowed id allowed) r)
            ≡ resolve_authorized fs other r)
unfolding set_allowed resolve_authorized get_entry authorize_entry
set_allowed-resolves fs id true r e known = (
  ground (arith, read_key-write_key_self id (record e { allowed = true }) r),
  λ other n.
      ground (arith, eq_iff id other, read_key-write_key id other (record e { allowed = true }) r),
)
set_allowed-resolves fs id false r e known = (
  ground (arith, read_key-write_key_self id (record e { allowed = false }) r),
  λ other n.
      ground (arith, eq_iff id other, read_key-write_key id other (record e { allowed = false }) r),
)
