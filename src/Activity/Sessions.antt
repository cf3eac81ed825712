-- ===== src/Activity/Sessions.antt =====
-- The projected session records of src/session-plane/store.ts.
use agents_with_chatgpt.Prelude.{
  ℕ, zero, suc, ◌-◌, ◌≤◌, ◌≡◌, refl, Bool, true, List, [], length, last_n, drop, arith,
  if◌then◌else◌,
}

-- sessions.json: missing or not what the code writes, or the records
pub data SessionsFile (A : Type 0) : Type 0 where
  no_sessions : SessionsFile A
  sessions : List A → SessionsFile A

module _ {A : Type 0} where
  read_sessions : SessionsFile A → List A
  read_sessions no_sessions = []
  read_sessions (sessions xs) = xs

  -- `loadSessions`, with a state directory or without
  pub load_sessions : Bool → SessionsFile A → List A
  load_sessions has_dir f = if has_dir then read_sessions f else []

  -- `saveSessions`: the newest 5000
  pub save_sessions : Bool → List A → SessionsFile A → SessionsFile A
  save_sessions has_dir xs f = if has_dir then sessions (last_n 5000 xs) else f

  drop_none : (n : ℕ) (xs : List A) → n ≡ 0 → drop n xs ≡ xs
  drop_none zero xs h = refl
  drop_none (suc n) xs h = absurd (omega arith)

  -- Up to 5000 records come back as they were saved.
  pub load_sessions-save_sessions :
      (xs : List A) (f : SessionsFile A)
      → length xs ≤ 5000
      → load_sessions true (save_sessions true xs f) ≡ xs
  unfolding load_sessions save_sessions read_sessions
  load_sessions-save_sessions xs f h = drop_none (length xs - 5000) xs (omega arith)
