-- ===== src/Access/Sessions/Tests.antt =====
-- Tests of the ownership of sessions.
use agents_with_chatgpt.Prelude.{◌≡◌, refl, none, some, List, [], ◌∷◌, includes}
use agents_with_chatgpt.Access.Grants.{write, readonly}
use agents_with_chatgpt.Access.Sessions.{
  OwnedSession, Sessions, get_session, record_session, touch, update_session, used_again, touched,
}
use agents_with_chatgpt.Access.Sessions.Records.{Distinct}
use agents_with_chatgpt.Access.Sessions.Owners.{Call, records, touches, step, run, Stays, run-owner}

abbrev session : OwnedSession
session = record {
  session_id = "sess_1";
  workspace_id = "ws_main";
  client_id = "cli_1";
  access_mode = write;
  created_at = 0;
  last_used_at = 0;
  stale_at = none;
}

abbrev sessions : Sessions
sessions = session ∷ []

-- Another client records the same session as its own, and uses it.
abbrev calls : List Call
calls = records 5 "sess_1" "ws_main" "cli_2" readonly ∷ touches 6 "sess_1" ∷ []

abbrev after_calls : OwnedSession
after_calls = record session { access_mode = readonly; last_used_at = 6 }

sessions-Distinct : Distinct sessions
unfolding Distinct includes
sessions-Distinct = (refl, tt)

here : get_session "sess_1" sessions ≡ some session
unfolding get_session
here = refl

stays : Stays "sess_1" sessions calls
unfolding Stays step get_session record_session touch update_session used_again touched
stays = (refl, (refl, tt))

still : get_session "sess_1" (run sessions calls) ≡ some after_calls
unfolding get_session run step record_session touch update_session used_again touched
still = refl

run-owner_example : after_calls.client_id ≡ session.client_id
run-owner_example =
    run-owner sessions calls "sess_1" session after_calls sessions-Distinct here stays still
