-- ===== src/Pairing/Verification.antt =====
-- When a code is accepted: `verify` of src/pairing/manager.ts.
use agents_with_chatgpt.Prelude.{
  ap, ◌||◌, ℕ, ◌+◌, ◌-◌, ◌≤◌, ◌≡◌, ◌≢◌, ◌↔◌, refl, String, true, Option, none, some, List, arith,
  eq_iff, Option-cases, inl, inr, ltb, leb, if◌then◌else◌,
}
use agents_with_chatgpt.Pairing.{
  Session, Manager, Limits, accepted, normalize_pairing_code, format_pairing_code, generate_code,
  create, check_ip_rate, wrong_code, check_session, verify,
}
use agents_with_chatgpt.Pairing.Codes.{generate-reads_back}

module _ (hash_code : List ℕ → String) (limits : Limits) where
  same_session :
      (now : ℕ) (ip : Option String) (m : Manager)
      → (check_ip_rate hash_code limits now ip m).1.session ≡ m.session
  unfolding check_ip_rate
  same_session now none m = refl
  same_session now (some ip) m = ground arith

  -- There is a session that has not expired and has tries left, and the code is its code.
  pub record IsRight (now : ℕ) (input : List ℕ) (m : Manager) (id : String) : Type 0 where
    pub session : Session
    pub here : m.session ≡ some session
    pub named : session.id ≡ id
    pub in_time : now ≤ session.expires_at
    pub tries : session.attempts_left ≢ 0
    pub same : hash_code (normalize_pairing_code input) ≡ session.code_hash

  verify-IsRight :
      (now : ℕ) (input : List ℕ) (ip : Option String) (m : Manager) (id : String) (s : Session)
      → m.session ≡ some s
      → (verify hash_code limits now input ip m).0 ≡ accepted id
      → IsRight now input m id
  unfolding verify check_session wrong_code
  verify-IsRight now input ip m id s found h =
      let kept = same_session now ip m in
      record {
        session = s;
        here = found;
        named = ground (arith, kept);
        in_time = ground (arith, kept);
        tries = λ z. ground (arith, kept);
        same = ground (arith, kept, eq_iff (hash_code (normalize_pairing_code input)) s.code_hash);
      }

  -- A code is accepted exactly if the caller is within its rate, there is a session, it has not
  -- expired and has tries left, and the code is the session's.
  pub verify_iff :
      (now : ℕ) (input : List ℕ) (ip : Option String) (m : Manager) (id : String)
      → ((verify hash_code limits now input ip m).0 ≡ accepted id)
        ↔ (((check_ip_rate hash_code limits now ip m).0 ≡ true) × IsRight now input m id)
  unfolding verify check_session wrong_code
  verify_iff now input ip m id = (
    λ h. (
      ground arith,
      elim (Option-cases m.session) [
        | inl nobody ↦ absurd (ground (arith, same_session now ip m))
        | inr (s, found) ↦ verify-IsRight now input ip m id s found h
      ],
    ),
    λ h. ground (
      arith,
      same_session now ip m,
      h.1.here,
      h.1.named,
      h.1.in_time,
      h.1.tries,
      h.1.same,
      eq_iff (hash_code (normalize_pairing_code input)) h.1.session.code_hash,
    ),
  )

  -- A code is good once: after it was accepted no code is, until a new session is made.
  pub verify-once :
      (now later : ℕ) (input input' : List ℕ) (ip ip' : Option String) (m : Manager)
      (id id' : String)
      → (verify hash_code limits now input ip m).0 ≡ accepted id
      → (verify hash_code limits later input' ip' (verify hash_code limits now input ip m).1).0
        ≢ accepted id'
  unfolding verify check_session wrong_code
  verify-once now later input input' ip ip' m id id' e =
      let gone : (verify hash_code limits now input ip m).1.session ≡ none =
        ground (arith, same_session now ip m) in
      λ h. ground (arith, same_session later ip' (verify hash_code limits now input ip m).1)

  -- A wrong code that is not over the rate costs a try, and the last try removes the session.
  pub verify-wrong :
      (now : ℕ) (input : List ℕ) (ip : Option String) (m : Manager) (s : Session)
      → (check_ip_rate hash_code limits now ip m).0 ≡ true
      → m.session ≡ some s
      → hash_code (normalize_pairing_code input) ≢ s.code_hash
      → (verify hash_code limits now input ip m).1.session ≡ (
          if ltb s.expires_at now || leb s.attempts_left 1
          then none
          else some (record s { attempts_left = s.attempts_left - 1 }))
  unfolding verify check_session wrong_code
  verify-wrong now input ip m s a e n =
      ground (
        arith,
        same_session now ip m,
        eq_iff (hash_code (normalize_pairing_code input)) s.code_hash,
      )

  -- The code that is shown is accepted in time: whatever random bytes a session's code was made
  -- from, typing in what the page shows, within the session's time and the caller's rate, is
  -- accepted as that session.
  pub create-verify :
      (now later : ℕ) (bytes raw : List ℕ) (ip : Option String) (m : Manager) (id : String)
      → generate_code 8 bytes ≡ some raw
      → limits.max_attempts ≢ 0
      → later ≤ now + limits.ttl
      → (check_ip_rate hash_code limits later ip (create hash_code limits now id raw m)).0 ≡ true
      → (verify hash_code limits later
          (format_pairing_code raw)
          ip
          (create hash_code limits now id raw m)).0
        ≡ accepted id
  unfolding create
  create-verify now later bytes raw ip m id made some_tries in_time within =
      (verify_iff later (format_pairing_code raw) ip (create hash_code limits now id raw m) id).1 (
        within,
        record {
          session = record {
            id = id;
            code_hash = hash_code raw;
            created_at = now;
            expires_at = now + limits.ttl;
            attempts_left = limits.max_attempts;
          };
          here = refl;
          named = refl;
          in_time = in_time;
          tries = some_tries;
          same = ap hash_code (generate-reads_back bytes raw made).0;
        },
      )
