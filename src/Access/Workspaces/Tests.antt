-- ===== src/Access/Workspaces/Tests.antt =====
-- Tests of the workspace registry, and a path library for the tests.
use agents_with_chatgpt.Prelude.{◌≡◌, refl, true, some, [], ◌∷◌, read_key}
use agents_with_chatgpt.Access.Workspaces.{Entry, Registry, Paths}

abbrev pub paths : Paths
paths = record {
  is_absolute = λ p. true;
  resolve = λ p. p;
  real_path = λ p. some p;
  to_lower_case = λ p. p;
  without_end_slashes = λ p. p;
  exists = λ p. true;
}

abbrev pub entry : Entry
entry = record {
  workspace_id = "ws_main";
  canonical_path = "/work";
  display_name = "main";
  allowed = true;
}

abbrev pub registry : Registry
registry = ("ws_main", entry) ∷ []

known : read_key "ws_main" registry ≡ some entry
unfolding read_key
known = refl
