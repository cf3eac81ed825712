-- ===== src/Native/Tests.antt =====
-- Tests of the ownership of the ZCode lane's sessions.
use agents_with_chatgpt.Prelude.{
  ◌≡◌, ◌≢◌, refl, ◌↔◌, inl, inr, String, true, Option, some, ok, err, [], ◌∷◌, includes, arith,
  eq_iff,
}
use agents_with_chatgpt.Native.{
  write, OldOwned, Owned, migrate, no_session, without, version_1, migrated, tolerated, load_state,
  Sessions, sessions_of, is_session, find_session, not_owned, workspace_mismatch, principal_of,
  assert_can_access, assert_can_observe, assert_can_control, delegate_control, revoke_delegation,
  delegate_found, change, with_delegate, saved,
}
use agents_with_chatgpt.Native.Control.{
  MaySteer, assert_can_control_iff, observe-no_oracle, control-reveals, revoke-ends_control,
}

abbrev old : OldOwned
old = record {
  session_id = "sess_1";
  workspace_id = "ws_main";
  client_id = "cli_1";
  access = write;
  created_at = 1;
  last_used_at = 2;
}

-- a file of the first version, with an element that is no session
abbrev sessions : Sessions
sessions = record { on_disk = true; file = version_1 (no_session ∷ without old ∷ []); memory = [] }

known : find_session "sess_1" (sessions_of sessions) ≡ some (migrate old)
unfolding find_session sessions_of load_state migrated is_session
known = refl

abbrev stranger : Option (Option String)
stranger = some (some "cli_2")

abbrev stranger_id : String
stranger_id = "cli_2"

is_stranger : principal_of stranger ≡ stranger_id
unfolding principal_of
is_stranger = refl

not_local : principal_of stranger ≢ "local"
unfolding principal_of
not_local e = ground (arith, e, eq_iff stranger_id "local")

foreign :
    (o : Owned)
    → find_session "sess_1" (sessions_of sessions) ≡ some o
    → o.client_id ≢ principal_of stranger
unfolding find_session sessions_of load_state migrated is_session principal_of
foreign o e mine = ground (arith, e, mine, eq_iff "cli_1" stranger_id)

no_way :
    (o : Owned)
    → find_session "sess_1" (sessions_of sessions) ≡ some o
    → MaySteer (principal_of stranger) o
    → ⊥
unfolding find_session sessions_of load_state migrated is_session principal_of includes
no_way o e (inl l) = ground (arith, l, eq_iff stranger_id "local")
no_way o e (inr (inl mine)) = ground (arith, e, mine, eq_iff "cli_1" stranger_id)
no_way o e (inr (inr delegated)) = ground (arith, e, delegated)

-- after the owner has let the other client steer
abbrev shared : Sessions
shared = (delegate_control "sess_1" "cli_1" "cli_2" sessions).1

abbrev shared_session : Owned
shared_session = record (migrate old) { delegated_controllers = "cli_2" ∷ [] }

shared_known : find_session "sess_1" (sessions_of shared) ≡ some shared_session
unfolding find_session sessions_of load_state migrated tolerated is_session delegate_control
    delegate_found change with_delegate saved includes
shared_known = refl

not_same : old.client_id ≢ stranger_id
not_same e = ground (arith, e, eq_iff old.client_id stranger_id)

far : stranger_id ≢ "local"
far e = ground (arith, e, eq_iff stranger_id "local")

named : stranger_id ≢ ""
named e = ground (arith, e, eq_iff stranger_id "")

assert_can_control_iff_example :
    (assert_can_control (some (some "cli_1")) "sess_1" "ws_main" sessions ≡ ok (migrate old)) ↔ (
      (find_session "sess_1" (sessions_of sessions) ≡ some (migrate old))
      × (old.workspace_id ≡ "ws_main")
      × MaySteer (principal_of (some (some "cli_1"))) (migrate old)
      × (true ≡ true))
assert_can_control_iff_example =
    assert_can_control_iff (some (some "cli_1")) "sess_1" "ws_main" sessions (migrate old)

observe-no_oracle_example :
    (assert_can_access stranger "sess_1" "ws_other" sessions ≡ err not_owned)
    × (assert_can_observe stranger "sess_1" "ws_other" sessions ≡ err not_owned)
observe-no_oracle_example =
    observe-no_oracle stranger "sess_1" "ws_other" sessions not_local foreign

control-reveals_example :
    (assert_can_control stranger "sess_1" "ws_other" sessions ≡ err workspace_mismatch) ↔ (
      (o : Owned) × (find_session "sess_1" (sessions_of sessions) ≡ some o)
      × (o.workspace_id ≢ "ws_other"))
control-reveals_example = control-reveals stranger "sess_1" "ws_other" sessions no_way

revoke-ends_control_example :
    assert_can_control stranger "sess_1" "ws_main"
      (revoke_delegation "sess_1" "cli_1" "cli_2" shared).1
    ≢ ok shared_session
revoke-ends_control_example =
    revoke-ends_control "sess_1" "cli_1" stranger_id "ws_main" shared shared_session shared_session
      shared_known refl not_same far named
