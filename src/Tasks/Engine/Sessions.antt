-- ===== src/Tasks/Engine/Sessions.antt =====
-- z2c/src/core/tasks/engine.ts: what is read of a session before an instruction is sent to it, and
-- the sending itself, which waits for a session that says it is busy.
pub mod Settling
use mathlib.Core.Path.{subst}
use agents_with_chatgpt.Prelude.{
  ℕ, ◌+◌, ◌*◌, ◌≤◌, ◌≡◌, ◌↔◌, refl, String, Bool, true, false, ◌||◌, not, Option, none, some,
  Result, ok, err, List, [], ◌∷◌, ◌++◌, length, ltb, opt_eq, or_else, contains_i, contains_word_i,
  slice_to, if◌then◌else◌, arith, ap, ◌∙◌, ◌<◌, ◌⊎◌, inl, inr, map, fold_case, codes, ends_word,
  contains_i_iff, contains_word_i_iff, Bool-cases, opt_eq_iff,
}
use agents_with_chatgpt.Tasks.Model.{Binding, AvailableModel, EntitlementReadback}
use agents_with_chatgpt.Tasks.Engine.{Failure, provider_failure, session_busy}

-- `state.entitlement`
pub record Reported : Type 0 where
  pub access_mode : Option String
  pub source : String

-- What the binding takes from SessionStateAttestation, and the status.
pub record SessionState : Type 0 where
  pub provider_id : Option String
  pub model_id : Option String
  pub binding_source : String
  pub thought_level : Option String
  pub plan_enabled : Option Bool
  pub available_models : Option (List AvailableModel)
  pub entitlement : Option Reported
  pub status : Option String

readback : Reported → EntitlementReadback
readback r = record { observed = r.access_mode; source = r.source }

binding_of_state : SessionState → Binding
binding_of_state s = record {
  provider_id = or_else s.provider_id "";
  model_id = or_else s.model_id "";
  source = s.binding_source;
  thought_level = s.thought_level;
  plan_enabled = s.plan_enabled;
  available_models = s.available_models;
  entitlement = elim s.entitlement [ none ↦ none | some r ↦ some (readback r) ];
}

-- A surface of the provider: it has none, or a call of it threw, or brought something.
pub data Surface (A : Type 0) : Type 0 where
  missing : Surface A
  threw : Failure → Surface A
  gave : A → Surface A

-- `readSessionBinding`
pub record PlainBinding : Type 0 where
  pub provider_id : String
  pub model_id : String
  pub source : String

plain : PlainBinding → Binding
plain b = record {
  provider_id = b.provider_id;
  model_id = b.model_id;
  source = b.source;
  thought_level = none;
  plan_enabled = none;
  available_models = none;
  entitlement = none;
}

plain_evidence : Result Failure (Option PlainBinding) → Result Failure (Option Binding)
plain_evidence (err x) = err x
plain_evidence (ok none) = ok none
plain_evidence (ok (some b)) = ok (some (plain b))

-- `collectExecutionEvidence`, from what `readSessionState` and `readSessionBinding` bring
pub collect_execution_evidence :
    Surface SessionState → Result Failure (Option PlainBinding) → Result Failure (Option Binding)
collect_execution_evidence (gave s) b = ok (some (binding_of_state s))
collect_execution_evidence (threw x) b = ok none
collect_execution_evidence missing b = plain_evidence b

-- /already running for this session|-32010\b/i
unfoldable pub says_busy : String → Bool
says_busy m = contains_i "already running for this session" m || contains_word_i "-32010" m

-- A pause of 500 ms and the reading after it, if it could be read, and the time then.
pub record Poll : Type 0 where
  pub status : Option String
  pub at : ℕ

-- the loop that waits for an idle session
unfoldable pub settles : ℕ → ℕ → List Poll → Bool
settles deadline now [] = false
settles deadline now (p ∷ ps) =
    let rest = settles deadline p.at ps in
    if ltb now deadline then (if opt_eq p.status (some "idle") then true else rest) else false

busy : String → Failure
busy m = session_busy (slice_to 160 m)

-- the second and last call
retried : {A : Type 0} → Result String A → ℕ × Result Failure A
retried (ok a) = (2, ok a)
retried (err m) = (2, err (busy m))

-- What an error of the first call leads to, where the state can be read and where it cannot.
after_refusal : {A : Type 0} → String → Bool → Bool → Result String A → ℕ × Result Failure A
after_refusal m readable idle again =
    if not (says_busy m) || not readable
    then (1, err (provider_failure m))
    else if idle
    then retried again
    else (1, err (busy m))

-- `sendWithBusySettle`, with how often the instruction was sent: what the first call brings, if
-- the state can be read, the time, the budget, what is read while waiting, and a second call.
pub send_with_busy_settle :
    {A : Type 0}
    → Result String A
    → Bool
    → ℕ
    → ℕ
    → List Poll
    → Result String A
    → ℕ × Result Failure A
send_with_busy_settle (ok a) readable now settle polls again = (1, ok a)
send_with_busy_settle (err m) readable now settle polls again =
    after_refusal m readable (settles (now + settle) now polls) again

-- Each pause takes its time.
unfoldable pub Paced : ℕ → List Poll → Type 0
Paced now [] = Unit
Paced now (p ∷ ps) = (now + 500 ≤ p.at) × Paced p.at ps

-- The wait ends: once as many pauses are given as half seconds fit in the budget, what a longer wait
-- would bring is not asked for.
pub settles-ends :
    (deadline now : ℕ) (polls more : List Poll)
    → Paced now polls
    → deadline ≤ now + 500 * length polls
    → settles deadline now (polls ++ more) ≡ settles deadline now polls
unfolding settles Paced
settles-ends deadline now [] [] h enough = refl
settles-ends deadline now [] (p ∷ ps) h enough = ground arith
settles-ends deadline now (p ∷ ps) more (paced, later) enough =
    ground (arith, settles-ends deadline p.at ps more later)
