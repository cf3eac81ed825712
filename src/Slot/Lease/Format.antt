-- ===== src/Slot/Lease/Format.antt =====
-- What the file format of a lease keeps: src/execution/slot.ts, `validateLock` against the object
-- that is written.
use agents_with_chatgpt.Prelude.{
  opt_holds, ℕ, ◌<◌, String, ◌≡◌, refl, Bool, true, as_str, Option, none, some, arith, Value,
  absent_or, opt_str, as_str-opt_str,
}
use agents_with_chatgpt.Queue.Pause.{is_workspace_id}
use agents_with_chatgpt.Slot.Lease.{
  Lock, Provider, codex, gemini, z2c, is_safe_task_id, is_session_id, is_idempotency_key,
  is_fingerprint, provider_name, provider_of_name, provider_of, pid_of, optional_fields_ok, lock_of,
  validate_fields, validate_lock, lock_json,
}

-- The leases that the bridge writes.
pub record IsWellFormed (l : Lock) : Type 0 where
  pub workspace : is_workspace_id l.workspace_id ≡ true
  pub task : is_safe_task_id l.task_id ≡ true
  pub session : opt_holds is_session_id l.session_id ≡ true
  pub key : opt_holds is_idempotency_key l.idempotency_key ≡ true
  pub fingerprint : opt_holds is_fingerprint l.request_fingerprint ≡ true
  pub process : 0 < l.pid

provider_of_name-provider_name : (p : Provider) → provider_of_name (provider_name p) ≡ some p
unfolding provider_of_name provider_name
provider_of_name-provider_name codex = refl
provider_of_name-provider_name gemini = refl
provider_of_name-provider_name z2c = refl

absent_or-opt_str :
    (test : String → Bool) (o : Option String) → absent_or test (opt_str o) ≡ opt_holds test o
absent_or-opt_str test none = refl
absent_or-opt_str test (some s) = refl

opt_holds-any : (o : Option String) → opt_holds (λ _. true) o ≡ true
opt_holds-any none = refl
opt_holds-any (some s) = refl

pid_of-num : (n : ℕ) → 0 < n → pid_of (Value.num n) ≡ some n
unfolding pid_of
pid_of-num n h = ground arith

-- Every lease that is written is read back as it was, field by field.
pub validate_lock-lock_json : (l : Lock) → IsWellFormed l → validate_lock (lock_json l) ≡ some l
unfolding validate_lock validate_fields lock_json optional_fields_ok lock_of provider_of
validate_lock-lock_json l v = simp (
  v.workspace,
  v.task,
  v.session,
  v.key,
  v.fingerprint,
  absent_or-opt_str,
  opt_holds-any,
  provider_of_name-provider_name,
  as_str-opt_str,
  pid_of-num l.pid v.process,
)

opt_holds_of_absent_or :
    (test : String → Bool) (v : Value) → absent_or test v ≡ true → opt_holds test (as_str v) ≡ true
opt_holds_of_absent_or test Value.undefined e = refl
opt_holds_of_absent_or test (Value.str s) e = e
opt_holds_of_absent_or test _ e = refl

pid_of-pos : (v : Value) {n : ℕ} → pid_of v ≡ some n → 0 < n
unfolding pid_of
pid_of-pos (Value.num k) {n} e = ground arith
pid_of-pos _ e = absurd (cc)

-- Whatever the lock file holds, a lease that is read from it is well formed.
pub validate_lock-IsWellFormed : (v : Value) (l : Lock) → validate_lock v ≡ some l → IsWellFormed l
unfolding validate_lock validate_fields optional_fields_ok lock_of pid_of
validate_lock-IsWellFormed v l e = record {
  workspace = ground arith;
  task = ground arith;
  session = ground arith;
  key = ground arith;
  fingerprint = ground arith;
  process = ground arith;
}
