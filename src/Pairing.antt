-- ===== src/Pairing.antt =====
-- src/pairing/manager.ts: the code that the authorization page shows. Codes are lists of code
-- points; random ids and codes are arguments of the call that makes them, and so is the time.
-- `hash_code` is SHA-256.
pub mod Codes
pub mod Verification
mod Tests
use agents_with_chatgpt.Prelude.{
  ℕ, ◌+◌, ◌-◌, ◌*◌, ◌/◌, ◌%◌, ◌<◌, String, Bool, true, false, ◌&&◌, ◌||◌, not, Option, none, some,
  List, [], ◌∷◌, ◌++◌, map, keep, take, drop, length, codes, in_range, fold_case, read_key,
  write_key, nat_eq, leb, ltb, ◌==◌, if◌then◌else◌,
}

-- ALPHABET
abbrev pub alphabet : List ℕ
alphabet = codes "ABCDEFGHJKMNPQRSTUVWXYZ23456789"

nth : ℕ → List ℕ → Option ℕ
nth n [] = none
nth n (x ∷ xs) = if nat_eq n 0 then some x else nth (n - 1) xs

cons_some : Option ℕ → List ℕ → List ℕ
cons_some none cs = cs
cons_some (some c) cs = c ∷ cs

-- the characters that one block of random bytes gives: a byte at or above 248 is thrown away
pub code_chars : List ℕ → List ℕ
code_chars [] = []
code_chars (b ∷ bs) =
    let rest = code_chars bs in
    if ltb b (256 / length alphabet * length alphabet)
    then cons_some (nth (b % length alphabet) alphabet) rest
    else rest

-- `generateCode`, from the bytes of all its blocks; none while there are too few
pub generate_code : ℕ → List ℕ → Option (List ℕ)
generate_code n bytes =
    let chars = code_chars bytes in if leb n (length chars) then some (take n chars) else none

-- `formatPairingCode`
pub format_pairing_code : List ℕ → List ℕ
format_pairing_code raw = take 4 raw ++ 45 ∷ take 4 (drop 4 raw)

-- a letter in upper case, of ASCII
upper : ℕ → ℕ
upper n = if in_range 97 122 n then n - 32 else n

-- [A-Z2-9]
unfoldable pub is_code_char : ℕ → Bool
is_code_char n = in_range 65 90 n || in_range 50 57 n

-- `normalizePairingCode`
pub normalize_pairing_code : List ℕ → List ℕ
normalize_pairing_code input = keep is_code_char (map upper input)

-- `PairingSession`; a session that is used is at once removed
pub record Session : Type 0 where
  pub id : String
  pub code_hash : String
  pub created_at : ℕ
  pub expires_at : ℕ
  pub attempts_left : ℕ

pub record Hits : Type 0 where
  pub count : ℕ
  pub reset_at : ℕ

-- `PairingManager`: `create` clears the sessions first, so there is one at most
pub record Manager : Type 0 where
  pub session : Option Session
  pub ip_hits : List (String × Hits)

-- `PairingManagerOptions`
pub record Limits : Type 0 where
  pub ttl : ℕ
  pub max_attempts : ℕ
  pub ip_rate_limit : ℕ
  pub ip_rate_window : ℕ

pub data VerifyResult : Type 0 where
  accepted : String → VerifyResult
  invalid : ℕ → VerifyResult
  expired too_many_attempts rate_limited no_active_session : VerifyResult

module _ (hash_code : List ℕ → String) (limits : Limits) where
  -- `create`
  pub create : ℕ → String → List ℕ → Manager → Manager
  create now id raw m = record m {
    session = some (record {
      id = id;
      code_hash = hash_code raw;
      created_at = now;
      expires_at = now + limits.ttl;
      attempts_left = limits.max_attempts;
    });
  }

  first_hit : ℕ → Hits
  first_hit now = record { count = 1; reset_at = now + limits.ip_rate_window }

  hit : ℕ → Option Hits → Hits
  hit now none = first_hit now
  hit now (some h) = if ltb h.reset_at now then first_hit now else record h { count = h.count + 1 }

  hit_allowed : ℕ → Option Hits → Bool
  hit_allowed now none = true
  hit_allowed now (some h) = ltb h.reset_at now || leb (h.count + 1) limits.ip_rate_limit

  -- `checkIpRate`
  pub check_ip_rate : ℕ → Option String → Manager → Bool × Manager
  check_ip_rate now none m = (true, m)
  check_ip_rate now (some ip) m = if ip == "" then (true, m) else (
    hit_allowed now (read_key ip m.ip_hits),
    record m { ip_hits = write_key ip (hit now (read_key ip m.ip_hits)) m.ip_hits },
  )

  -- what is left after a wrong code
  wrong_code : Session → Manager → VerifyResult × Manager
  wrong_code s m =
      if leb s.attempts_left 1 then (too_many_attempts, record m { session = none }) else (
        invalid (s.attempts_left - 1),
        record m { session = some (record s { attempts_left = s.attempts_left - 1 }) },
      )

  check_session : ℕ → List ℕ → Option Session → Manager → VerifyResult × Manager
  check_session now input none m = (no_active_session, m)
  check_session now input (some s) m =
      if ltb s.expires_at now
      then (expired, record m { session = none })
      else if nat_eq s.attempts_left 0
      then (too_many_attempts, record m { session = none })
      else if hash_code (normalize_pairing_code input) == s.code_hash
      then (accepted s.id, record m { session = none })
      else wrong_code s m

  -- `verify`
  pub verify : ℕ → List ℕ → Option String → Manager → VerifyResult × Manager
  verify now input ip m =
      let (allowed, m') = check_ip_rate now ip m in
      if not allowed then (rate_limited, m') else check_session now input m'.session m'

-- `hasActiveSession`
pub has_active_session : ℕ → Manager → Bool
has_active_session now m = elim m.session [ none ↦ false | some s ↦ leb now s.expires_at ]

-- `invalidateAll`
pub invalidate_all : Manager → Manager
invalidate_all m = record m { session = none }
