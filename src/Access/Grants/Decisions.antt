-- ===== src/Access/Grants/Decisions.antt =====
-- When a call on a workspace is let through: z2c/src/authz/grants.ts.
use agents_with_chatgpt.Prelude.{
  ℕ, ◌≡◌, ◌↔◌, refl, String, Bool, true, false, none, some, ok, err, arith, eq_iff, eq_refl,
  Bool-cases, Option-cases, Result-cases, inl, inr, Option, List, [], ◌∷◌, find, any, update_first,
  after,
}
use agents_with_chatgpt.Access.Workspaces.{Paths, canonicalize_workspace_path}
use agents_with_chatgpt.Access.Grants.{
  WorkspaceAccess, readonly, write, Grant, Options, workspace_not_authorized, is_active, has_path,
  has_id, amend, get_active, revoke, path_ok, write_ok, access_grant, authorize_access,
}

-- The path that a call names, if it names one, is the granted one.
pub record PathMatches (fs : Paths) (raw : Option String) (g : Grant) : Type 0 where
  pub same : (p : String) → raw ≡ some p → canonicalize_workspace_path fs p ≡ ok g.canonical_path

path_ok-PathMatches :
    (fs : Paths) (raw : Option String) (g : Grant) → path_ok fs raw g ≡ ok tt → PathMatches fs raw g
unfolding path_ok
path_ok-PathMatches fs none g e = record { same = λ p h. absurd (ground arith) }
path_ok-PathMatches fs (some raw) g e = elim (Result-cases (canonicalize_workspace_path fs raw)) [
  | inl (path, found) ↦ record { same = λ p h. ground (arith, eq_iff path g.canonical_path) }
  | inr (x, failed) ↦ absurd (ground arith)
]

PathMatches-path_ok :
    (fs : Paths) (raw : Option String) (g : Grant) → PathMatches fs raw g → path_ok fs raw g ≡ ok tt
unfolding path_ok
PathMatches-path_ok fs none g m = refl
PathMatches-path_ok fs (some raw) g m = ground (arith, m.same raw refl, eq_refl g.canonical_path)

-- A call is let through exactly if an active grant of that workspace covers it: on the granted path,
-- if it names a path, and with the permission to write, if it writes. Whatever else it gives, the
-- grant that it is let through on is the first active one of that workspace.
pub authorize_access_iff :
    (fs : Paths) (id : String) (access : WorkspaceAccess) (raw : Option String) (gs : List Grant)
    (g : Grant)
    → (authorize_access fs id access raw gs ≡ ok g)
      ↔ ((get_active id gs ≡ some g) × PathMatches fs raw g × (access ≡ write → g.can_write ≡ true))
unfolding authorize_access access_grant write_ok
authorize_access_iff fs id readonly raw gs g = elim (Option-cases (get_active id gs)) [
  | inl nobody ↦ (λ h. absurd (ground arith), λ h. absurd (ground arith))
  | inr (f, found) ↦ (
    λ h. (ground arith, path_ok-PathMatches fs raw g (ground arith), λ w. absurd (ground arith)),
    λ h. ground (arith, PathMatches-path_ok fs raw g h.1),
  )
]
authorize_access_iff fs id write raw gs g = elim (Option-cases (get_active id gs)) [
  | inl nobody ↦ (λ h. absurd (ground arith), λ h. absurd (ground arith))
  | inr (f, found) ↦ (
    λ h. (ground arith, path_ok-PathMatches fs raw g (ground arith), λ w. ground arith),
    λ h. ground (arith, PathMatches-path_ok fs raw g h.1, h.2 refl),
  )
]

-- No two active grants have the same workspace id.
unfoldable pub DistinctIds : List Grant → Type 0
DistinctIds [] = Unit
DistinctIds (g ∷ gs) =
    (is_active g ≡ true → any (has_id g.workspace_id) gs ≡ false) × DistinctIds gs

found-any :
    (path : String) (gs : List Grant) (g : Grant)
    → find (has_path path) gs ≡ some g
    → any (has_id g.workspace_id) gs ≡ true
unfolding has_path has_id
found-any path [] g e = absurd (cc)
found-any path (x ∷ gs) g e = ground (arith, eq_refl g.workspace_id, found-any path gs g)

find_of_any : (p : Grant → Bool) (gs : List Grant) → any p gs ≡ false → find p gs ≡ none
find_of_any p [] h = refl
find_of_any p (g ∷ gs) h = ground (arith, find_of_any p gs)

find-revoked :
    (now : ℕ) (id : String) (gs : List Grant)
    → DistinctIds gs
    → find (has_id id) (update_first (has_id id) (λ g. record g { revoked_at = some now }) gs)
      ≡ none
unfolding DistinctIds has_id is_active
find-revoked now id [] d = refl
find-revoked now id (g ∷ gs) d =
    ground (arith, eq_iff g.workspace_id id, find_of_any (has_id id) gs, find-revoked now id gs d.1)

-- After a workspace is revoked, every call on it is refused.
pub revoke-refuses :
    (fs : Paths) (now : ℕ) (id : String) (access : WorkspaceAccess) (raw : Option String)
    (gs : List Grant)
    → DistinctIds gs
    → authorize_access fs id access raw (after (revoke now id) gs) ≡ err workspace_not_authorized
unfolding revoke authorize_access get_active
revoke-refuses fs now id access raw gs d = ground (arith, find-revoked now id gs d)

module _ (opts : Options) where
  pub find-amended :
      (path : String) (gs : List Grant) (g : Grant)
      → DistinctIds gs
      → find (has_path path) gs ≡ some g
      → find (has_id g.workspace_id) (update_first (has_path path) (amend opts) gs)
        ≡ some (amend opts g)
  unfolding DistinctIds has_path has_id is_active amend
  find-amended path [] g d e = absurd (cc)
  find-amended path (x ∷ gs) g d e = elim (Bool-cases (has_path path x)) [
    | inl hit ↦ (let same : x ≡ g = ground arith in ground (arith, eq_refl g.workspace_id))
    | inr miss ↦ ground (
      arith,
      eq_iff x.workspace_id g.workspace_id,
      find-amended path gs g d.1,
      found-any path gs g,
    )
  ]
