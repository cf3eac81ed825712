-- ===== src/Access/Clients/Tests.antt =====
-- Tests of the pairing of devices.
use agents_with_chatgpt.Prelude.{
  All, ◌==◌, includes, trim, ℕ, ◌≡◌, ◌≢◌, refl, String, false, some, none, ok, List, [], ◌∷◌,
  result, after, arith, eq_iff,
}
use agents_with_chatgpt.Access.Clients.{
  Pending, Client, Pairings, find_pending, confirm_pairing, authenticate, revoke, holder, is_live,
  check_code, paired_client, principal_of,
}
use agents_with_chatgpt.Access.Clients.Codes.{Distinct, guesses, guesses-refused}
use agents_with_chatgpt.Access.Clients.Tokens.{DistinctClients}

-- A hash for the tests: the text itself.
abbrev same : String → String
same t = t

abbrev pairing : Pending
pairing = record {
  pairing_id = "pair_1";
  code = "123456";
  device_name = "phone";
  created_at = 0;
  expires_at = 300000;
  attempts = 0;
}

abbrev phone : Client
phone = record {
  client_id = "cli_1";
  device_name = "phone";
  token_hash = "z2cpair_1";
  paired_at = 1000;
  revoked_at = none;
}

abbrev tablet : Client
tablet = record phone { client_id = "cli_2"; token_hash = "z2cpair_2" }

abbrev waiting : Pairings
waiting = record { pending = pairing ∷ []; clients = [] }

abbrev two_clients : Pairings
two_clients = record { pending = []; clients = phone ∷ tablet ∷ [] }

abbrev wrong : List (ℕ × String)
wrong = (1, "0") ∷ (2, "1") ∷ (3, "2") ∷ (4, "3") ∷ (5, "4") ∷ []

waiting-Distinct : Distinct waiting.pending
unfolding Distinct includes
waiting-Distinct = (refl, tt)

two_clients-Distinct : DistinctClients two_clients.clients
unfolding DistinctClients includes
two_clients-Distinct = (refl, (refl, tt))

found : find_pending "pair_1" waiting ≡ some pairing
unfolding find_pending
found = refl

confirmed :
    result (confirm_pairing same 1000 "pair_1" "123456" "cli_1" "z2cpair_1") waiting ≡ ok phone
unfolding confirm_pairing check_code paired_client find_pending trim
confirmed = refl

recognised :
    authenticate same (after (revoke 2000 "cli_1") two_clients) (some "z2cpair_2")
    ≡ some (record { client_id = "cli_2"; device_name = "phone" })
unfolding authenticate revoke holder is_live principal_of
recognised = refl

revoked : result (revoke 2000 "cli_1") two_clients ≡ ok tt
unfolding revoke is_live
revoked = refl

filled : phone.token_hash ≢ ""
filled = ground (arith, eq_iff phone.token_hash "")

differs : (g : String) → (trim g == "123456") ≡ false → trim g ≢ "123456"
differs g e h = ground (arith, eq_iff (trim g) "123456")

wrong-All : All (λ g. trim g.1 ≢ "123456") wrong
unfolding trim
wrong-All = (
  differs "0" refl,
  (differs "1" refl, (differs "2" refl, (differs "3" refl, (differs "4" refl, tt)))),
)

guesses-refused_example :
    ((c : Client)
      → result
          (confirm_pairing same 6 "pair_1" "123456" "cli_1" "z2cpair_1")
          (guesses same "pair_1" "123456" "cli_1" "z2cpair_1" wrong waiting)
        ≢ ok c)
    × ((after
          (confirm_pairing same 6 "pair_1" "123456" "cli_1" "z2cpair_1")
          (guesses same "pair_1" "123456" "cli_1" "z2cpair_1" wrong waiting)).clients
        ≡ (guesses same "pair_1" "123456" "cli_1" "z2cpair_1" wrong waiting).clients)
guesses-refused_example =
    guesses-refused same "pair_1" "123456" "cli_1" "z2cpair_1" 6 wrong waiting pairing
      waiting-Distinct found refl wrong-All (omega arith)
