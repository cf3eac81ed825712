-- ===== src/Access/Grants/Opening.antt =====
-- What an authorization opens: `authorize` of z2c/src/authz/grants.ts.
use agents_with_chatgpt.Prelude.{
  ℕ, ◌≡◌, refl, String, Bool, true, false, none, some, ok, arith, eq_iff, eq_refl, Bool-cases,
  Option-cases, Result-cases, inl, inr, List, [], ◌∷◌, ◌++◌, find, any, update_first, find-holds,
  result, after,
}
use agents_with_chatgpt.Access.Workspaces.{Paths, canonicalize_workspace_path}
use agents_with_chatgpt.Access.Grants.{
  Grant, Options, is_active, has_path, has_id, amend, id_for, new_grant, authorize_path, authorize,
  get_active, revoke,
}
use agents_with_chatgpt.Access.Grants.Decisions.{DistinctIds, find-amended}

find-appended :
    (gs : List Grant) (g : Grant)
    → is_active g ≡ true
    → any (has_id g.workspace_id) gs ≡ false
    → find (has_id g.workspace_id) (gs ++ g ∷ []) ≡ some g
unfolding has_id
find-appended [] g a n = ground (arith, eq_refl g.workspace_id)
find-appended (x ∷ gs) g a n = ground (arith, find-appended gs g)

any-appended :
    (id : String) (gs : List Grant) (g : Grant)
    → any (has_id id) gs ≡ false
    → has_id id g ≡ false
    → any (has_id id) (gs ++ g ∷ []) ≡ false
any-appended id [] g n m = ground arith
any-appended id (x ∷ gs) g n m = ground (arith, any-appended id gs g)

DistinctIds-append :
    (gs : List Grant) (g : Grant)
    → DistinctIds gs
    → any (has_id g.workspace_id) gs ≡ false
    → DistinctIds (gs ++ g ∷ [])
unfolding DistinctIds has_id
DistinctIds-append [] g d n = (λ a. refl, tt)
DistinctIds-append (x ∷ gs) g d n = (
  λ a. any-appended x.workspace_id gs g (d.0 a) (
      unfold has_id in
      ground (arith, eq_iff x.workspace_id g.workspace_id, eq_iff g.workspace_id x.workspace_id)),
  DistinctIds-append gs g d.1 (ground arith),
)

any-amended :
    (opts : Options) (path id : String) (gs : List Grant)
    → any (has_id id) (update_first (has_path path) (amend opts) gs) ≡ any (has_id id) gs
unfolding amend has_id is_active
any-amended opts path id [] = refl
any-amended opts path id (g ∷ gs) = ground (arith, any-amended opts path id gs)

DistinctIds-amend :
    (opts : Options) (path : String) (gs : List Grant)
    → DistinctIds gs
    → DistinctIds (update_first (has_path path) (amend opts) gs)
unfolding DistinctIds
DistinctIds-amend opts path [] d = tt
DistinctIds-amend opts path (g ∷ gs) d = elim (Bool-cases (has_path path g)) [
  | inl hit ↦ rw hit (unfold amend is_active in d)
  | inr miss ↦ rw miss (
    λ a. rw (any-amended opts path g.workspace_id gs) (d.0 a),
    DistinctIds-amend opts path gs d.1,
  )
]

any-revoked :
    (now : ℕ) (id k : String) (gs : List Grant)
    → any (has_id k) gs ≡ false
    → any (has_id k) (update_first (has_id id) (λ g. record g { revoked_at = some now }) gs) ≡ false
unfolding has_id is_active
any-revoked now id k [] n = refl
any-revoked now id k (g ∷ gs) n = ground (arith, any-revoked now id k gs)

DistinctIds-revoked :
    (now : ℕ) (id : String) (gs : List Grant)
    → DistinctIds gs
    → DistinctIds (update_first (has_id id) (λ g. record g { revoked_at = some now }) gs)
unfolding DistinctIds
DistinctIds-revoked now id [] d = tt
DistinctIds-revoked now id (g ∷ gs) d = elim (Bool-cases (has_id id g)) [
  | inl hit ↦ rw hit (λ a. absurd (unfold is_active in ground arith), d.1)
  | inr miss ↦
      rw miss (λ a. any-revoked now id g.workspace_id gs (d.0 a), DistinctIds-revoked now id gs d.1)
]

-- A revocation keeps the ids of active grants apart.
pub DistinctIds-revoke :
    (now : ℕ) (id : String) (gs : List Grant)
    → DistinctIds gs
    → DistinctIds (after (revoke now id) gs)
unfolding revoke
DistinctIds-revoke now id gs d = ground (arith, DistinctIds-revoked now id gs d)

id_for-new :
    (opts : Options) (seed suffixed : String) (gs : List Grant)
    → any (has_id suffixed) gs ≡ false
    → any (has_id (id_for opts seed suffixed gs)) gs ≡ false
unfolding id_for
id_for-new opts seed suffixed gs n = ground arith

module _ (fs : Paths) (now : ℕ) (opts : Options) (seed : String → String)
    (suffixed raw path : String) (gs : List Grant) where
  authorize-known :
      (f : Grant)
      → canonicalize_workspace_path fs raw ≡ ok path
      → find (has_path path) gs ≡ some f
      → authorize fs now opts seed suffixed raw gs
        ≡ (ok (amend opts f), update_first (has_path path) (amend opts) gs)
  unfolding authorize authorize_path
  authorize-known f e found = ground arith

  authorize-new :
      canonicalize_workspace_path fs raw ≡ ok path
      → find (has_path path) gs ≡ none
      → authorize fs now opts seed suffixed raw gs ≡ (
        ok (new_grant now opts (id_for opts (seed path) suffixed gs) path),
        gs ++ new_grant now opts (id_for opts (seed path) suffixed gs) path ∷ [],
      )
  unfolding authorize authorize_path
  authorize-new e absent = ground arith

new_grant-opens :
    (now : ℕ) (opts : Options) (id path : String) (gs : List Grant)
    → DistinctIds gs
    → any (has_id id) gs ≡ false
    → (get_active id (gs ++ new_grant now opts id path ∷ []) ≡ some (new_grant now opts id path))
      × DistinctIds (gs ++ new_grant now opts id path ∷ [])
unfolding new_grant is_active get_active
new_grant-opens now opts id path gs d n = (
  find-appended gs (new_grant now opts id path) refl n,
  DistinctIds-append gs (new_grant now opts id path) d n,
)

-- Authorizing a path gives a grant of that very path that calls on its workspace are then decided
-- by, with the permission to write that was asked for, and keeps active ids apart, as long as the
-- random suffix makes an id that no active grant has.
pub authorize-opens :
    (fs : Paths) (now : ℕ) (opts : Options) (seed : String → String) (suffixed raw : String)
    (gs : List Grant) (g : Grant)
    → DistinctIds gs
    → any (has_id suffixed) gs ≡ false
    → result (authorize fs now opts seed suffixed raw) gs ≡ ok g
    → (get_active g.workspace_id (after (authorize fs now opts seed suffixed raw) gs) ≡ some g)
      × (canonicalize_workspace_path fs raw ≡ ok g.canonical_path)
      × ((b : Bool) → opts.can_write ≡ some b → g.can_write ≡ b)
      × DistinctIds (after (authorize fs now opts seed suffixed raw) gs)
unfolding get_active new_grant has_path amend
authorize-opens fs now opts seed suffixed raw gs g d fresh e =
    elim (Result-cases (canonicalize_workspace_path fs raw)) [
      | inr (x, failed) ↦ absurd (unfold authorize in ground arith)
      | inl (path, at) ↦ elim (Option-cases (find (has_path path) gs)) [
        | inr (f, found) ↦
            (let run = authorize-known fs now opts seed suffixed raw path gs f at found in
              let same : amend opts f ≡ g = ground arith in
              let here =
                (eq_iff f.canonical_path path).0
                  (ground (arith, find-holds (has_path path) gs found)) in
              (
                ground (arith, find-amended opts path gs f d found),
                ground arith,
                λ b h. ground arith,
                ground (arith, DistinctIds-amend opts path gs d),
              ))
        | inl absent ↦
            (let id = id_for opts (seed path) suffixed gs in
              let run = authorize-new fs now opts seed suffixed raw path gs at absent in
              let same : new_grant now opts id path ≡ g = ground arith in
              let opened =
                new_grant-opens now opts id path gs d
                  (id_for-new opts (seed path) suffixed gs fresh) in
              (
                ground (arith, opened.0),
                ground arith,
                λ b h. ground arith,
                ground (arith, opened.1),
              ))
      ]
    ]
