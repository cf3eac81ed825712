-- ===== src/Access/Secrets/Rotation.antt =====
-- The rotation of the service secret: z2c/src/service/security.ts.
use agents_with_chatgpt.Prelude.{
  ℕ, zero, suc, ◌-◌, ◌≤◌, ◌≡◌, ◌≢◌, ◌↔◌, refl, sym, String, true, false, none, some, arith, eq_iff,
  eq_refl, List, [], ◌∷◌, keep, map, take, length, length-take-le, All-keep, is_some, All, leb,
}
use agents_with_chatgpt.Access.Secrets.{
  Secret, Security, is_expired, accepts, authenticate, retire, in_grace, fresh_secret, rotate,
}

abbrev pub IsRetired : Secret → Type 0
IsRetired s = is_some s.retired_at ≡ true

-- The secrets as `rotate` leaves them: the newest is the only one that is not retired, and there
-- are at most six.
pub data IsRotated : Security → Type 0 where
  rotated :
      (st : Security) (current : Secret) (old : List Secret)
      → st.secrets ≡ current ∷ old
      → current.retired_at ≡ none
      → All IsRetired old
      → length st.secrets ≤ 6
      → IsRotated st

retire-IsRetired : (now : ℕ) (s : Secret) → IsRetired (retire now s)
unfolding retire
retire-IsRetired now s = ground arith

All-IsRetired : (now : ℕ) (ss : List Secret) → All IsRetired (map (retire now) ss)
All-IsRetired now [] = tt
All-IsRetired now (s ∷ ss) = (retire-IsRetired now s, All-IsRetired now ss)

All-take : (n : ℕ) (ss : List Secret) → All IsRetired ss → All IsRetired (take n ss)
All-take zero ss h = tt
All-take (suc n) [] h = tt
All-take (suc n) (s ∷ ss) h = (h.0, All-take n ss h.1)

-- Every rotation makes the new secret the only one that is not retired, and keeps at most five
-- others, all of them retired, whatever the secrets were before.
pub rotate-IsRotated :
    (now : ℕ) (id secret : String) (st : Security) → IsRotated (rotate now id secret st)
unfolding rotate fresh_secret
rotate-IsRotated now id secret st =
    let kept : List Secret = keep (in_grace now st.rotation_grace) (map (retire now) st.secrets) in
    rotated (rotate now id secret st) (fresh_secret now id secret) (take 5 kept) refl refl
      (All-take 5 kept (
        All-keep IsRetired (in_grace now st.rotation_grace) (map (retire now) st.secrets)
          (All-IsRetired now st.secrets)))
      (omega (arith, length-take-le 5 kept))

rotate-current :
    (now : ℕ) (id secret : String) (st : Security) (current : Secret) (old : List Secret)
    → st.secrets ≡ current ∷ old
    → current.retired_at ≡ none
    → (rotate now id secret st).secrets
      ≡ fresh_secret now id secret
        ∷ record current { retired_at = some now }
        ∷ take 4 (keep (in_grace now st.rotation_grace) (map (retire now) old))
unfolding rotate retire in_grace
rotate-current now id secret st current old e live = ground arith

accepts-other :
    (now grace : ℕ) (p : String) (ss : List Secret)
    → All (λ s. s.secret ≢ p) ss
    → accepts now grace p ss ≡ false
unfolding accepts
accepts-other now grace p [] h = refl
accepts-other now grace p (s ∷ ss) h =
    ground (arith, eq_iff p s.secret, accepts-other now grace p ss h.1)

others-retired :
    (p : String) (now : ℕ) (ss : List Secret)
    → All (λ s. s.secret ≢ p) ss
    → All (λ s. s.secret ≢ p) (map (retire now) ss)
unfolding retire
others-retired p now [] h = tt
others-retired p now (s ∷ ss) h = (λ e. ground (arith, h.0), others-retired p now ss h.1)

others-take :
    (p : String) (n : ℕ) (ss : List Secret)
    → All (λ s. s.secret ≢ p) ss
    → All (λ s. s.secret ≢ p) (take n ss)
others-take p zero ss h = tt
others-take p (suc n) [] h = tt
others-take p (suc n) (s ∷ ss) h = (h.0, others-take p n ss h.1)

accepts-second :
    (later grace now : ℕ) (p : String) (first second : Secret) (rest : List Secret)
    → first.retired_at ≡ none
    → first.secret ≢ p
    → second.secret ≡ p
    → second.retired_at ≡ some now
    → accepts later grace p rest ≡ false
    → accepts later grace p (first ∷ second ∷ rest) ≡ leb (later - now) grace
unfolding accepts is_expired
accepts-second later grace now p first second rest a b c d e =
    ground (arith, eq_iff p first.secret, eq_iff p second.secret)

accepts-first :
    (later grace : ℕ) (first : Secret) (rest : List Secret)
    → first.retired_at ≡ none
    → accepts later grace first.secret (first ∷ rest) ≡ true
unfolding accepts is_expired
accepts-first later grace first rest a = ground (arith, eq_refl first.secret)

-- The secret that a rotation retires stays good for the grace window and no longer, and the new
-- one is good at once and at any later time.
pub rotate-grace :
    (now later : ℕ) (id secret : String) (st : Security) (current : Secret) (old : List Secret)
    → st.secrets ≡ current ∷ old
    → current.retired_at ≡ none
    → current.secret ≢ ""
    → secret ≢ ""
    → current.secret ≢ secret
    → All (λ s. s.secret ≢ current.secret) old
    → ((authenticate later (some current.secret) (rotate now id secret st) ≡ true)
        ↔ (later - now ≤ st.rotation_grace))
      × (authenticate later (some secret) (rotate now id secret st) ≡ true)
unfolding authenticate fresh_secret rotate
rotate-grace now later id secret st current old e live filled new other alone =
    let shape = rotate-current now id secret st current old e live in
    let grace = st.rotation_grace in
    let rest : List Secret = take 4 (keep (in_grace now grace) (map (retire now) old)) in
    let fresh : Secret = fresh_secret now id secret in
    let retired : Secret = record current { retired_at = some now } in
    let alone' = accepts-other later grace current.secret rest (
      others-take current.secret 4 _ (
        All-keep (λ s. s.secret ≢ current.secret) (in_grace now grace) _
          (others-retired current.secret now old alone))) in
    let second =
      accepts-second later grace now current.secret fresh retired rest refl (λ h. other (sym h))
        refl refl alone' in
    let first = accepts-first later grace fresh (retired ∷ rest) refl in
    (
      (
        λ h. ground (arith, eq_iff current.secret "", second, shape),
        λ h. ground (arith, eq_iff current.secret "", second, shape),
      ),
      ground (arith, eq_iff secret "", first, shape),
    )
