-- ===== src/Pairing/Tests.antt =====
-- Tests of the pairing code.
use agents_with_chatgpt.Prelude.{
  nat_eq, ℕ, ◌≡◌, ◌≢◌, refl, String, true, none, some, List, [], ◌∷◌, arith, codes, if◌then◌else◌,
}
use agents_with_chatgpt.Pairing.{
  Session, Manager, Limits, accepted, generate_code, code_chars, nth, cons_some,
  format_pairing_code, normalize_pairing_code, create, verify, check_ip_rate, check_session, upper,
  is_code_char,
}
use agents_with_chatgpt.Pairing.Verification.{verify-once, create-verify}

abbrev limits : Limits
limits = record { ttl = 300000; max_attempts = 5; ip_rate_limit = 10; ip_rate_window = 60000 }

-- A hash for the tests, which tells two codes apart by their first character.
abbrev hash : List ℕ → String
hash [] = ""
hash (c ∷ cs) = if nat_eq c 65 then "A" else "?"

abbrev bytes : List ℕ
bytes = 0 ∷ 255 ∷ 1 ∷ 2 ∷ 3 ∷ 4 ∷ 5 ∷ 6 ∷ 7 ∷ []

abbrev raw : List ℕ
raw = codes "ABCDEFGH"

abbrev nobody : Manager
nobody = record { session = none; ip_hits = [] }

abbrev session : Session
session = record {
  id = "s1";
  code_hash = "A";
  created_at = 0;
  expires_at = 300000;
  attempts_left = 5;
}

abbrev manager : Manager
manager = record { session = some session; ip_hits = [] }

generated : generate_code 8 bytes ≡ some raw
unfolding generate_code code_chars nth cons_some
generated = refl

right : (verify hash limits 9 raw none manager).0 ≡ accepted "s1"
unfolding verify check_ip_rate check_session normalize_pairing_code upper is_code_char
right = refl

verify-once_example :
    (verify hash limits 10 raw none (verify hash limits 9 raw none manager).1).0 ≢ accepted "s1"
verify-once_example = verify-once hash limits 9 10 raw raw none none manager "s1" "s1" right

within : (check_ip_rate hash limits 9 none manager).0 ≡ true
unfolding check_ip_rate
within = refl

some_tries : limits.max_attempts ≢ 0
some_tries e = omega (arith, e)

created : (check_ip_rate hash limits 9 none (create hash limits 0 "s1" raw nobody)).0 ≡ true
unfolding check_ip_rate
created = refl

create-verify_example :
    (verify hash limits 9 (format_pairing_code raw) none (create hash limits 0 "s1" raw nobody)).0
    ≡ accepted "s1"
create-verify_example =
    create-verify hash limits 0 9 bytes raw none nobody "s1" generated some_tries (omega arith)
      created
