-- ===== src/Tasks/Engine/Steps.antt =====
-- z2c/src/core/tasks/engine.ts: the rest of `runTask` and `pump` after each `await`, cancellation,
-- pausing, and reading a task's output.
pub mod Keeping
pub mod Terminal
pub mod Arrivals
pub mod Cancelling
use agents_with_chatgpt.Prelude.{
  result, after, ℕ, String, Bool, true, false, ◌&&◌, ◌||◌, not, Option, none, some, Result, ok, err,
  pure, throw, get, put, require, ◌>>=◌, ◌>>◌, List, [], ◌∷◌, find, is_some, opt_eq, or_else,
  includes, remove_first, trim, slice_to, ◌==◌, if◌then◌else◌,
}
use agents_with_chatgpt.Tasks.Model.{
  Task, TaskStatus, completed, failed, cancelled, Binding, is_terminal, is_running,
}
use agents_with_chatgpt.Tasks.Store.{
  Store, State, Queue, Output, find_task, queue_of, update_task, set_status, attach_output,
  get_or_create_queue, save_queue, save_output, admit_task,
}
use agents_with_chatgpt.Attestation.{governed_binding}
use agents_with_chatgpt.Access.Workspaces.{Entry, resolve_authorized}
use agents_with_chatgpt.Tasks.Engine.{
  Failure, store_failure, workspace_failure, binding_unverified, not_found, workspace_mismatch,
  no_output, output_mismatch, lost_task, Env, Phase, gathering, sending, failing, ended, Engine,
  Run, stored, phase_of, at_phase, stop_pump, is_readonly, request_of, plan_enabled, is_truthy,
  pump_round, kick,
}

-- the binding that `collectExecutionEvidence` brings
evidence_phase : Option Binding → Task → Phase
evidence_phase b t =
    if not (governed_binding b (request_of t))
    then failing t binding_unverified
    else if is_readonly t.write_scope && not (plan_enabled b)
    then failing t binding_unverified
    else sending t

pub data TurnStatus : Type 0 where
  turn_completed turn_stopped turn_failed : TurnStatus

-- What comes of the turn: its text under a new output id, or an error of the provider.
pub data Outcome : Type 0 where
  turned : String → String → TurnStatus → Option String → Outcome
  broke : Failure → Outcome

status_after : TurnStatus → TaskStatus
status_after turn_completed = completed
status_after turn_stopped = cancelled
status_after turn_failed = failed

exit_after : TurnStatus → Option String → String
exit_after turn_completed detail = "ok"
exit_after turn_stopped detail = "session stopped"
exit_after turn_failed detail = or_else detail "turn failed"

output_of : Env → Task → String → String → Output
output_of env t output_id text = record {
  output_id = output_id;
  task_id = t.task_id;
  workspace_id = t.workspace_id;
  session_id = t.zcode_session_id;
  text = text;
  created_at = env.now;
}

unfoldable pub point_to_output : String → String → Engine → Engine
point_to_output id output_id e = record e {
  store = record e.store {
    state = update_task id (λ t. record t { output_id = some output_id }) e.store.state;
  };
}

-- "never overwrite terminal truth"
close_turn : Env → String → TurnStatus → Option String → Option Task → Run (Unit {0})
close_turn env id status detail none = throw lost_task
close_turn env id status detail (some fresh) =
    if is_terminal fresh.status
    then pure tt
    else stored (set_status env.now id (status_after status) (some (exit_after status detail)))

-- the end of the `try` block of `runTask`
finish_turn : Env → Task → String → String → TurnStatus → Option String → Run (Unit {0})
finish_turn env t output_id text status detail = do
  stored (save_output (output_of env t output_id text))
  e ← get
  put (point_to_output t.task_id output_id e)
  e' ← get
  close_turn env t.task_id status detail (find_task t.task_id e'.store.state)

pub turn_ended : Env → Task → Outcome → Engine → Phase × Engine
turn_ended env t (broke x) e = (failing t x, e)
turn_ended env t (turned output_id text status detail) e =
    let (r, e') = finish_turn env t output_id text status detail e in
    elim r [ ok u ↦ (ended t.task_id none, e') | err x ↦ (failing t x, e') ]

-- the checkpoint of the `catch` block, whose errors are swallowed
pub save_partial : Env → Task → String → String → Engine → Engine
save_partial env t output_id text e =
    after
      (stored (save_output (output_of env t output_id text))
        >> stored (attach_output t.task_id output_id))
      e

pub checkpoint : Env → Task → Task → Option (String × String) → Engine → Engine
checkpoint env t u none e = e
checkpoint env t u (some (output_id, text)) e =
    if is_truthy t.zcode_session_id && not (is_truthy u.output_id) && not (trim text == "")
    then save_partial env t output_id text e
    else e

fail_running : Env → String → Failure → Task → Engine → Phase × Engine
fail_running env id x u e =
    if is_running u.status
    then (let (r, e') =
          stored (set_status env.now id failed (some (slice_to 200 (env.message x)))) e in
        elim r [ ok v ↦ (ended id (some x), e') | err y ↦ (ended id (some y), e') ])
    else (ended id (some x), e)

-- the `catch` block of `runTask`, with the id and the text that the checkpoint reads
pub recover : Env → Task → Failure → Option (String × String) → Engine → Phase × Engine
recover env t x partial e = elim (find_task t.task_id e.store.state) [
  | none ↦ (ended t.task_id (some lost_task), e)
  | some u ↦ fail_running env t.task_id x u (checkpoint env t u partial e)
]

-- the handler that `pump` puts on `runTask`
after_error : Env → String → Failure → Option Task → Run (Unit {0})
after_error env id x none = pure tt
after_error env id x (some t) =
    if is_terminal t.status
    then pure tt
    else stored (set_status env.now id failed (some (slice_to 200 (env.message x))))

handle_error : Env → String → Option Failure → Run (Unit {0})
handle_error env id none = pure tt
handle_error env id (some x) = do e ← get; after_error env id x (find_task id e.store.state)

release_queue : String → Run (Unit {0})
release_queue w = do
  q ← stored (get_or_create_queue w)
  stored (save_queue w (record q { active_task = none }))

next_round : Env → String → Result Failure (Unit {0}) → Engine → Engine
next_round env w (ok u) e = pump_round env w e
next_round env w (err x) e = stop_pump w e

pub close_round : Env → String → String → Option Failure → Run (Unit {0})
close_round env w id x = handle_error env id x >> release_queue w

-- the rest of the round, and the next one
settle : Env → String → String → Option Failure → Engine → Engine
settle env w id x e =
    next_round env w (result (close_round env w id x) e) (after (close_round env w id x) e)

move : String → Phase × Engine → Engine
move w (p, e) = at_phase w p e

-- What happens to the dispatcher of a workspace; `unseen` is the evidence that could not be had.
pub data Arrival : Type 0 where
  evidence : Option Binding → Arrival
  unseen : Failure → Arrival
  outcome : Outcome → Arrival
  partial : Option (String × String) → Arrival
  settled : Arrival

arrive_at : Env → String → Arrival → Phase → Engine → Engine
arrive_at env w (evidence b) (gathering t) e = move w (evidence_phase b t, e)
arrive_at env w (unseen x) (gathering t) e = move w (failing t x, e)
arrive_at env w (outcome o) (sending t) e = move w (turn_ended env t o e)
arrive_at env w (partial p) (failing t x) e = move w (recover env t x p e)
arrive_at env w settled (ended id x) e = settle env w id x e
arrive_at env w _ _ e = e

pub arrive : Env → String → Arrival → Engine → Engine
arrive env w a e = elim (phase_of w e) [ none ↦ e | some p ↦ arrive_at env w a p e ]

unfoldable pub wrong_workspace : Option String → Task → Bool
wrong_workspace none t = false
wrong_workspace (some w) t = not (w == "") && not (w == t.workspace_id)

unfoldable pub find_owned : Option String → String → Option Task → Result Failure Task
find_owned w id none = err not_found
find_owned w id (some t) = if wrong_workspace w t then err workspace_mismatch else ok t

-- `getTask`, up to the view
unfoldable pub get_task : Option String → String → Engine → Result Failure Task
get_task w id e = find_owned w id (find_task id e.store.state)

cancel_with : Env → Task → String → Run (Unit {0})
cancel_with env t why = stored (set_status env.now t.task_id cancelled (some why))

cancel_live : Env → Task → Run (Unit {0})
cancel_live env t = do
  q ← stored (get_or_create_queue t.workspace_id)
  if includes t.task_id q.queued_task_ids
      then (do
        stored (
            save_queue t.workspace_id
              (record q { queued_task_ids = remove_first t.task_id q.queued_task_ids }))
        cancel_with env t "cancelled while queued")
      else if opt_eq q.active_task (some t.task_id) && is_truthy t.zcode_session_id
      then cancel_with env t "session stop requested"
      else cancel_with env t "cancelled before dispatch"

cancel_found : Env → Result Failure Task → Run (Unit {0})
cancel_found env (err x) = throw x
cancel_found env (ok t) = if is_terminal t.status then pure tt else cancel_live env t

-- `cancelTask`, up to the view
pub cancel_task : Env → Option String → String → Run (Unit {0})
cancel_task env w id = do e ← get; cancel_found env (get_task w id e)
