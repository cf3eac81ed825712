-- ===== src/Orchestrator/Sound.antt =====
-- No step of a plan is passed over without an audit: the invariant of every stored run, kept by each
-- call of src/execution/orchestrator-core.ts, whatever the lanes answer and whichever save fails.
use mathlib.Core.Path.{subst}
use agents_with_chatgpt.Prelude.{
  ℕ, ◌+◌, ◌≤◌, ◌<◌, ◌≡◌, refl, sym, ap, ◌∙◌, String, Bool, true, false, ◌&&◌, Option, none, some,
  Result, ok, err, inl, inr, after, result, pure, throw, ◌>>=◌, ◌>>◌, List, [], ◌∷◌, is_some, All,
  length, any, nat_eq, read_key, read_key-write_key, arith, Result-cases, if-holds, bind-ok,
  bind-err, ◌==◌, if◌then◌else◌, require,
}
use agents_with_chatgpt.Orchestrator.{
  no_blockers, Verdict, pass, Audit, waiting_audit, complete, Run, Failure, Disk, Action, stored,
  next_generation, save,
}

is_pass : Option Verdict → Bool
is_pass (some pass) = true
is_pass _ = false

-- An audit that lets a step pass: its verdict is PASS and no evidence was against it.
unfoldable pub passes : ℕ → Audit → Bool
unfolding is_pass
passes n a = nat_eq a.step n && is_pass a.verdict && no_blockers a.blockers

-- An audit without a verdict is about the attempt that waits for it.
unfoldable pub Open : Run → Audit → Type 0
Open r a =
    a.verdict ≡ none → (r.state ≡ waiting_audit) × (a.step ≡ r.step) × (a.attempt ≡ r.attempt)

-- how many audits have no verdict
unfoldable pub open_count : List Audit → ℕ
open_count [] = 0
open_count (a ∷ xs) = let rest = open_count xs in if is_some a.verdict then rest else rest + 1

pub open-fails : (n : ℕ) (a : Audit) → a.verdict ≡ none → passes n a ≡ true → ⊥
unfolding passes is_pass
open-fails n a e h = ground arith

-- A PASS on an audit without blockers lets its step pass.
pub clean-passes :
    (n : ℕ) (a : Audit)
    → a.step ≡ n
    → a.verdict ≡ some pass
    → no_blockers a.blockers ≡ true
    → passes n a ≡ true
unfolding passes is_pass
clean-passes n a e v h = ground arith

-- What holds of every stored run.
pub record Sound (r : Run) : Type 0 where
  pub within : r.step ≤ length r.steps
  pub ahead : (r.state ≡ complete → ⊥) → r.step < length r.steps
  pub ended : r.state ≡ complete → r.step ≡ length r.steps
  pub passed : (n : ℕ) → n < r.step → any (passes n) r.audits ≡ true
  pub opened : All (Open r) r.audits
  pub single : open_count r.audits ≤ 1

abbrev pub SoundDisk : Disk → Type 0
SoundDisk d = (id : String) (r : Run) → read_key id d.runs ≡ some r → Sound r

-- A call that keeps every stored run sound and gives a run with the property.
pub record Keeps (P : Run → Type 0) (m : Action Run) : Type 0 where
  pub disk : (d : Disk) → SoundDisk d → SoundDisk (after m d)
  pub run : (d : Disk) (r : Run) → SoundDisk d → result m d ≡ ok r → P r

module _ (P : Run → Type 0) where
  pub Keeps-pure : (r : Run) → P r → Keeps P (pure r)
  Keeps-pure r s = record { disk = λ d h. h; run = λ d q h e. subst P (cc) s }

  pub Keeps-throw : (x : Failure) → Keeps P (throw x)
  Keeps-throw x = record { disk = λ d h. h; run = λ d r h e. absurd (cc) }

  pub Keeps-if :
      (b : Bool) (m n : Action Run) → Keeps P m → Keeps P n → Keeps P (if b then m else n)
  Keeps-if true m n k l = k
  Keeps-if false m n k l = l

pub Sound-next : (r : Run) → Sound r → Sound (next_generation r)
unfolding next_generation Open
Sound-next r s = record {
  within = s.within;
  ahead = s.ahead;
  ended = s.ended;
  passed = s.passed;
  opened = s.opened;
  single = s.single;
}

stored-cases :
    (b : Bool) (o : Option Run) (r q : Run)
    → (if b then some r else o) ≡ some q
    → Sound r
    → (o ≡ some q → Sound q)
    → Sound q
stored-cases true o r q e s h = subst Sound (cc) s
stored-cases false o r q e s h = h e

SoundDisk-stored : (r : Run) (d : Disk) → Sound r → SoundDisk d → SoundDisk (stored r d)
unfolding stored
SoundDisk-stored r d s h id q e =
    stored-cases (r.run_id == id) (read_key id d.runs) r q
      (sym (read_key-write_key r.run_id id r d.runs) ∙ e) s (h id q)

pub Keeps-save : (P : Run → Type 0) (r : Run) → Sound r → P (next_generation r) → Keeps P (save r)
unfolding save
Keeps-save P r s p = record {
  disk = λ d h.
      if-holds (λ (x : Result Failure Run × Disk). SoundDisk x.1) (nat_eq d.saves_left 0) h
        (SoundDisk-stored (next_generation r) d (Sound-next r s) h);
  run = λ d q h e.
      if-holds (λ (x : Result Failure Run × Disk). x.0 ≡ ok q → P q) (nat_eq d.saves_left 0)
        (λ bad. absurd (cc)) (λ same. subst P (cc) p) e;
}

err-not_ok : (x : Failure) (q : Run) (r : Result Failure Run) → r ≡ err x → r ≡ ok q → ⊥
err-not_ok x q r a b = cc

pub Keeps-bind :
    (P Q : Run → Type 0) (m : Action Run) (f : Run → Action Run)
    → Keeps P m
    → ((r : Run) → P r → Keeps Q (f r))
    → Keeps Q (m >>= f)
Keeps-bind P Q m f k h = record {
  disk = λ d s. elim (Result-cases (result m d)) [
    | inl (r, got) ↦
        subst (λ x. SoundDisk x.1) (sym (bind-ok m f d r got))
          ((h r (k.run d r s got)).disk (after m d) (k.disk d s))
    | inr (x, bad) ↦ subst (λ y. SoundDisk y.1) (sym (bind-err m f d x bad)) (k.disk d s)
  ];
  run = λ d q s e. elim (Result-cases (result m d)) [
    | inl (r, got) ↦
        (h r (k.run d r s got)).run (after m d) q (k.disk d s)
          (ap (λ x. x.0) (sym (bind-ok m f d r got)) ∙ e)
    | inr (x, bad) ↦
        absurd (err-not_ok x q ((m >>= f) d).0 (ap (λ y. y.0) (bind-err m f d x bad)) e)
  ];
}

pub Keeps-require :
    (P : Run → Type 0) (b : Bool) (x : Failure) (m : Action Run)
    → (b ≡ true → Keeps P m)
    → Keeps P (do require b x; m)
Keeps-require P true x m k = record { disk = (k refl).disk; run = (k refl).run }
Keeps-require P false x m k = record { disk = λ d h. h; run = λ d r h e. absurd (cc) }
