-- ===== src/Access/Secrets.antt =====
-- z2c/src/service/security.ts: the service secrets, the newest first, and their rotation. Random ids
-- and secrets are arguments of the call that makes them.
pub mod Rotation
mod Tests
use agents_with_chatgpt.Prelude.{
  ◌+◌, ℕ, ◌-◌, ◌*◌, String, Bool, true, false, not, Option, none, some, or_else, List, [], ◌∷◌,
  find, keep, map, take, is_some, ltb, leb, ◌==◌, if◌then◌else◌,
}

-- `ServiceSecretRecord`
pub record Secret : Type 0 where
  pub id : String
  pub secret : String
  pub created_at : ℕ
  pub retired_at : Option ℕ

-- `ServiceSecurityState`
pub record Security : Type 0 where
  pub install_id : String
  pub secrets : List Secret
  pub rotation_grace : ℕ

abbrev pub max_kept_retired : ℕ
max_kept_retired = 5

-- ROTATION_GRACE_MS
abbrev pub default_grace : ℕ
default_grace = 24 * 60 * 60000

-- the state of an installation that has none yet
pub new_security : ℕ → String → String → String → Security
new_security now install_id id secret = record {
  install_id = install_id;
  secrets = record { id = id; secret = secret; created_at = now; retired_at = none } ∷ [];
  rotation_grace = default_grace;
}

is_expired : ℕ → ℕ → Option ℕ → Bool
is_expired now grace none = false
is_expired now grace (some t) = ltb grace (now - t)

-- the loop of `authenticate`; `constantTimeEquals` is equality
accepts : ℕ → ℕ → String → List Secret → Bool
accepts now grace presented [] = false
accepts now grace presented (s ∷ ss) =
    let rest = accepts now grace presented ss in
    if is_expired now grace s.retired_at then rest else if presented == s.secret then true else rest

-- `authenticate`
pub authenticate : ℕ → Option String → Security → Bool
authenticate now none st = false
authenticate now (some presented) st =
    if presented == "" then false else accepts now st.rotation_grace presented st.secrets

retire : ℕ → Secret → Secret
retire now s = if is_some s.retired_at then s else record s { retired_at = some now }

in_grace : ℕ → ℕ → Secret → Bool
in_grace now grace s = leb (now - or_else s.retired_at 0) grace

fresh_secret : ℕ → String → String → Secret
fresh_secret now id secret = record {
  id = id;
  secret = secret;
  created_at = now;
  retired_at = none;
}

-- `rotate`
pub rotate : ℕ → String → String → Security → Security
rotate now id secret st = record st {
  secrets = take (1 + max_kept_retired) (
      fresh_secret now id secret
      ∷ keep (in_grace now st.rotation_grace) (map (retire now) st.secrets));
}

head_secret : List Secret → Option Secret
head_secret [] = none
head_secret (s ∷ ss) = some s

-- `currentSecret`
pub current_secret : Security → Option Secret
current_secret st = elim (find (λ s. not (is_some s.retired_at)) st.secrets) [
  | some s ↦ some s
  | none ↦ head_secret st.secrets
]
