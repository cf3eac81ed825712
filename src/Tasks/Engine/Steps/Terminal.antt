-- ===== src/Tasks/Engine/Steps/Terminal.antt =====
-- "Terminal truth": what no step of z2c/src/core/tasks/engine.ts takes back.
use mathlib.Core.Path.{subst}
use agents_with_chatgpt.Prelude.{
  bind-after, slice_to, sym, ℕ, String, ◌≡◌, refl, true, false, Option, none, some, inl, inr, after,
  arith, Bool-cases, Option-cases, if◌then◌else◌,
}
use agents_with_chatgpt.Tasks.Model.{Task, TaskStatus, is_terminal, is_running, failed}
use agents_with_chatgpt.Tasks.Store.{find_task, with_status, set_status, save_output}
use agents_with_chatgpt.Tasks.Store.Updates.{set_status-state}
use agents_with_chatgpt.Tasks.Engine.{Failure, Env, Engine, Run, stored}
use agents_with_chatgpt.Tasks.Engine.Steps.{
  Outcome, turned, broke, TurnStatus, output_of, point_to_output, close_turn, finish_turn,
  turn_ended, checkpoint, fail_running, recover,
}
use agents_with_chatgpt.Tasks.Engine.Steps.Keeping.{
  Has, update-Has, save_output-Has, point-Has, checkpoint-Has,
}

module _ (id : String) (status : TaskStatus) (over : is_terminal status ≡ true) where
  -- A status that is set on a task that is not over leaves a task that is over as it is.
  pub set_status-Has :
      (now : ℕ) (k : String) (s : TaskStatus) (exit : Option String) (e : Engine)
      → ((u : Task) → find_task k e.store.state ≡ some u → is_terminal u.status ≡ false)
      → Has id status e.store.state
      → Has id status (after (stored (set_status now k s exit)) e).store.state
  unfolding with_status stored
  set_status-Has now k s exit e live a =
      subst (Has id status) (sym (set_status-state now k s exit e.store)) (
        update-Has id k status (with_status now s exit) e.store.state (λ u. refl)
          (λ u known same. absurd (ground (arith, live u known))) a)

  close_turn-Has :
      (env : Env) (k : String) (ts : TurnStatus) (detail : Option String) (found : Option Task)
      (e : Engine)
      → find_task k e.store.state ≡ found
      → Has id status e.store.state
      → Has id status (after (close_turn env k ts detail found) e).store.state
  unfolding close_turn
  close_turn-Has env k ts detail none e at a = a
  close_turn-Has env k ts detail (some u) e at a = elim (Bool-cases (is_terminal u.status)) [
    | inl done ↦ rw done a
    | inr live ↦ rw live (set_status-Has env.now k _ _ e (λ v known. ground (arith)) a)
  ]

  finish_turn-Has :
      (env : Env) (t : Task) (output_id text : String) (ts : TurnStatus) (detail : Option String)
      (e : Engine)
      → Has id status e.store.state
      → Has id status (after (finish_turn env t output_id text ts detail) e).store.state
  unfolding finish_turn
  finish_turn-Has env t output_id text ts detail e a =
      let save : Run (Unit {0}) = stored (save_output (output_of env t output_id text)) in
      let saved = save_output-Has id status (output_of env t output_id text) e a in
      let next : Engine = point_to_output t.task_id output_id (after save e) in
      bind-after (λ d. Has id status d.store.state) save _ e saved
        (λ u.
          close_turn-Has env t.task_id ts detail (find_task t.task_id next.store.state) next refl
            (point-Has id status t.task_id output_id (after save e) saved))

  turn_ended-after :
      (env : Env) (t : Task) (output_id text : String) (ts : TurnStatus) (detail : Option String)
      (e : Engine)
      → (turn_ended env t (turned output_id text ts detail) e).1
        ≡ after (finish_turn env t output_id text ts detail) e
  unfolding turn_ended
  turn_ended-after env t output_id text ts detail e = ground arith

  pub turn_ended-Has :
      (env : Env) (t : Task) (o : Outcome) (e : Engine)
      → Has id status e.store.state
      → Has id status (turn_ended env t o e).1.store.state
  unfolding turn_ended
  turn_ended-Has env t (broke x) e a = a
  turn_ended-Has env t (turned output_id text ts detail) e a =
      subst (λ d. Has id status d.store.state)
        (sym (turn_ended-after env t output_id text ts detail e))
        (finish_turn-Has env t output_id text ts detail e a)

  fail_running-after :
      (env : Env) (k : String) (x : Failure) (u : Task) (e : Engine)
      → (fail_running env k x u e).1 ≡ (
          if is_running u.status
          then after (stored (set_status env.now k failed (some (slice_to 200 (env.message x))))) e
          else e)
  unfolding fail_running
  fail_running-after env k x u e = ground arith

  fail_running-Has :
      (env : Env) (k : String) (x : Failure) (u v : Task) (e : Engine)
      → find_task k e.store.state ≡ some v
      → v.status ≡ u.status
      → Has id status e.store.state
      → Has id status (fail_running env k x u e).1.store.state
  unfolding is_terminal is_running
  fail_running-Has env k x u v e known same a =
      subst (λ d. Has id status d.store.state) (sym (fail_running-after env k x u e))
        (elim (Bool-cases (is_running u.status)) [
          | inr idle ↦ rw idle a
          | inl live ↦ rw live (set_status-Has env.now k failed _ e (λ t found. ground arith) a)
        ])

  recover-after :
      (env : Env) (t u : Task) (x : Failure) (p : Option (String × String)) (e : Engine)
      → find_task t.task_id e.store.state ≡ some u
      → (recover env t x p e).1 ≡ (fail_running env t.task_id x u (checkpoint env t u p e)).1
  unfolding recover
  recover-after env t u x p e known = ground arith

  recover-lost :
      (env : Env) (t : Task) (x : Failure) (p : Option (String × String)) (e : Engine)
      → find_task t.task_id e.store.state ≡ none
      → (recover env t x p e).1 ≡ e
  unfolding recover
  recover-lost env t x p e lost = ground arith

  pub recover-Has :
      (env : Env) (t : Task) (x : Failure) (p : Option (String × String)) (e : Engine)
      → Has id status e.store.state
      → Has id status (recover env t x p e).1.store.state
  unfolding recover
  recover-Has env t x p e a = elim (Option-cases (find_task t.task_id e.store.state)) [
    | inl lost ↦ subst (λ d. Has id status d.store.state) (sym (recover-lost env t x p e lost)) a
    | inr (u, known) ↦
        (let still =
            checkpoint-Has t.task_id u.status env t u p e
              (record { task = u; known = known; now = refl }) in
          subst (λ d. Has id status d.store.state) (sym (recover-after env t u x p e known))
            (fail_running-Has env t.task_id x u still.task (checkpoint env t u p e) still.known
              still.now (checkpoint-Has id status env t u p e a)))
  ]
