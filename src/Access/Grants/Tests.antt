-- ===== src/Access/Grants/Tests.antt =====
-- Tests of the grants.
use agents_with_chatgpt.Prelude.{
  arith, ◌≡◌, ◌↔◌, refl, String, true, false, none, some, ok, List, [], ◌∷◌, any, result,
}
use agents_with_chatgpt.Access.Workspaces.{canonicalize_workspace_path, resolved_path}
use agents_with_chatgpt.Access.Workspaces.Tests.{paths}
use agents_with_chatgpt.Access.Grants.{
  Grant, Options, write, authorize, get_active, has_id, has_path, is_active, amend,
  authorize_access, authorize_path,
}
use agents_with_chatgpt.Access.Grants.Decisions.{DistinctIds, PathMatches, authorize_access_iff}

abbrev grant : Grant
grant = record {
  workspace_id = "ws_main";
  canonical_path = "/work";
  display_name = "main";
  can_write = false;
  granted_at = 0;
  revoked_at = none;
}

abbrev grants : List Grant
grants = grant ∷ []

abbrev opts : Options
opts = record { display_name = none; can_write = some true; workspace_id = none }

abbrev seed : String → String
seed p = "ws_work"

grants-Distinct : DistinctIds grants
unfolding DistinctIds
grants-Distinct = (λ a. refl, tt)

free : any (has_id "ws_main_x") grants ≡ false
unfolding has_id is_active
free = refl

canonical : canonicalize_workspace_path paths "/work" ≡ ok "/work"
unfolding canonicalize_workspace_path resolved_path
canonical = refl

opened :
    result (authorize paths 5 opts seed "ws_main_x" "/work") grants
    ≡ ok (record grant { can_write = true })
unfolding authorize authorize_path has_path is_active amend
opened = ground (arith, canonical)

authorize_access_iff_example :
    (authorize_access paths "ws_main" write (some "/work") grants ≡ ok grant) ↔ (
      (get_active "ws_main" grants ≡ some grant)
      × PathMatches paths (some "/work") grant
      × (write ≡ write → false ≡ true))
authorize_access_iff_example =
    authorize_access_iff paths "ws_main" write (some "/work") grants grant
