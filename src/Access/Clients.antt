-- ===== src/Access/Clients.antt =====
-- z2c/src/authz/pairing.ts: pairing a device. Random ids, codes and tokens are arguments of the call
-- that makes them, and so is the time. `hash_token` is SHA-256.
pub mod Codes
pub mod Tokens
mod Tests
use agents_with_chatgpt.Prelude.{
  ℕ, ◌+◌, String, Bool, true, false, not, Option, none, some, Exec, ok, err, List, [], ◌∷◌, ◌++◌,
  ◌-◌, ◌&&◌, any, find, keep, drop_first, update_first, last_n, is_some, leb, ltb, trim, slice_to,
  ◌==◌, if◌then◌else◌,
}

pub data PairingState : Type 0 where
  unpaired pairing_pending paired revoked : PairingState

-- `PendingPairing`
pub record Pending : Type 0 where
  pub pairing_id : String
  pub code : String
  pub device_name : String
  pub created_at : ℕ
  pub expires_at : ℕ
  pub attempts : ℕ

-- `PairedClient`
pub record Client : Type 0 where
  pub client_id : String
  pub device_name : String
  pub token_hash : String
  pub paired_at : ℕ
  pub revoked_at : Option ℕ

-- `PairingStateFile`
pub record Pairings : Type 0 where
  pub pending : List Pending
  pub clients : List Client

pub data PairingError : Type 0 where
  pairing_not_found pairing_expired pairing_burned pairing_code_mismatch client_not_found :
      PairingError

-- `Principal` of a paired device
pub record Principal : Type 0 where
  pub client_id : String
  pub device_name : String

abbrev pub Action : Type 0 → Type 0
Action A = Exec Pairings PairingError A

abbrev pub code_ttl : ℕ
code_ttl = 300000

abbrev pub max_attempts : ℕ
max_attempts = 5

abbrev pub max_pending : ℕ
max_pending = 3

unfoldable pub is_live : Client → Bool
is_live c = not (is_some c.revoked_at)

device_name_of : String → String
device_name_of raw = let name = slice_to 60 (trim raw) in if name == "" then "device" else name

-- `beginPairing`
pub begin_pairing : ℕ → String → String → String → Action Pending
begin_pairing now id code raw_name st =
    let pairing : Pending = record {
      pairing_id = id;
      code = code;
      device_name = device_name_of raw_name;
      created_at = now;
      expires_at = now + code_ttl;
      attempts = 0;
    } in
    (
      ok pairing,
      record st {
        pending =
            last_n (max_pending - 1) (keep (λ p. ltb now p.expires_at) st.pending) ++ pairing ∷ [];
      },
    )

unfoldable pub find_pending : String → Pairings → Option Pending
find_pending id st = find (λ p. p.pairing_id == id) st.pending

unfoldable pub burn : String → Pairings → Pairings
burn id st = record st { pending = drop_first (λ p. p.pairing_id == id) st.pending }

unfoldable pub count_attempt : String → Pairings → Pairings
count_attempt id st = record st {
  pending =
      update_first (λ p. p.pairing_id == id) (λ p. record p { attempts = p.attempts + 1 })
        st.pending;
}

module _ (hash_token : String → String) where
  paired_client : ℕ → String → String → Pending → Client
  paired_client now client_id token p = record {
    client_id = client_id;
    device_name = p.device_name;
    token_hash = hash_token token;
    paired_at = now;
    revoked_at = none;
  }

  check_code : ℕ → String → String → String → Pending → Action Client
  check_code now code client_id token p st =
      if leb p.expires_at now
      then (err pairing_expired, burn p.pairing_id st)
      else if leb max_attempts p.attempts
      then (err pairing_burned, burn p.pairing_id st)
      else if not (trim code == p.code)
      then (err pairing_code_mismatch, count_attempt p.pairing_id st)
      else (let c = paired_client now client_id token p in
          let st' = burn p.pairing_id st in (ok c, record st' { clients = st'.clients ++ c ∷ [] }))

  -- `confirmPairing`, with the client id and the token that it makes when the code is right
  pub confirm_pairing : ℕ → String → String → String → String → Action Client
  confirm_pairing now id code client_id token st = elim (find_pending id st) [
    | none ↦ (err pairing_not_found, st)
    | some p ↦ check_code now code client_id token p st
  ]

  pub holder : String → Client → Bool
  holder hash c = c.token_hash == hash && is_live c

  principal_of : Option Client → Option Principal
  principal_of none = none
  principal_of (some c) = some (record { client_id = c.client_id; device_name = c.device_name })

  -- `authenticate`
  pub authenticate : Pairings → Option String → Option Principal
  authenticate st none = none
  authenticate st (some token) =
      if token == "" then none else principal_of (find (holder (hash_token token)) st.clients)

-- `revoke`
pub revoke : ℕ → String → Action (Unit {0})
revoke now id st =
    if any (λ c. c.client_id == id && is_live c) st.clients
    then (
      ok tt,
      record st {
        clients =
            update_first (λ c. c.client_id == id && is_live c)
              (λ c. record c { revoked_at = some now }) st.clients;
      },
    )
    else (err client_not_found, st)

-- the state that `listClients` adds to each client
pub client_state : Client → PairingState
client_state c = if is_live c then paired else revoked

-- `pairingState`
pub pairing_state : ℕ → Pairings → PairingState
pairing_state now st =
    if any is_live st.clients
    then paired
    else if any (λ p. ltb now p.expires_at) st.pending
    then pairing_pending
    else unpaired
