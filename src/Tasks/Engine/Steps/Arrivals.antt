-- ===== src/Tasks/Engine/Steps/Arrivals.antt =====
-- "Never overwrite terminal truth", for every step of z2c/src/core/tasks/engine.ts that is not asked
-- for by a caller.
use mathlib.Core.Path.{subst}
use agents_with_chatgpt.Prelude.{
  includes, String, ◌≡◌, ◌≢◌, refl, sym, ap, ◌∙◌, true, false, Option, none, some, Result, ok, err,
  inl, inr, List, [], ◌∷◌, after, result, bind-after, arith, eq_iff, eq_refl, Bool-cases,
  Option-cases,
}
use agents_with_chatgpt.Tasks.Model.{Task, TaskStatus, is_terminal, failed}
use agents_with_chatgpt.Tasks.Store.{
  State, Queue, find_task, queue_of, update_task, with_status, create_queue, set_queue, set_status,
  get_or_create_queue,
}
use agents_with_chatgpt.Tasks.Store.Queues.{tasks-create_queue, queue_of-set_queue}
use agents_with_chatgpt.Tasks.Store.Updates.{
  set_status-state, save_queue-state, find_task-update_other,
}
use agents_with_chatgpt.Tasks.Engine.{
  Failure, Env, Phase, gathering, sending, failing, ended, Engine, stored, phase_of, at_phase,
  stop_pump,
}
use agents_with_chatgpt.Tasks.Engine.Rounds.{Waits, pump_round-Has}
use agents_with_chatgpt.Tasks.Engine.Steps.{
  after_error, handle_error, release_queue, next_round, close_round, settle, move, Arrival,
  evidence, unseen, outcome, partial, settled, arrive_at, arrive,
}
use agents_with_chatgpt.Tasks.Engine.Steps.Keeping.{Has, same_tasks-Has}
use agents_with_chatgpt.Tasks.Engine.Steps.Terminal.{set_status-Has, turn_ended-Has, recover-Has}

-- The line of a workspace.
abbrev pub line : String → Engine → List String
line w e = (queue_of w e.store.state).queued_task_ids

-- What closing a round for a task leaves alone: the line, the other tasks, and what is over.
record Closed (w k id : String) (status : TaskStatus) (e d : Engine) : Type 0 where
  pub same_line : line w d ≡ line w e
  pub others : (j : String) → j ≢ k → find_task j d.store.state ≡ find_task j e.store.state
  pub has : Has id status d.store.state

module _ (w k id : String) (status : TaskStatus) (over : is_terminal status ≡ true) (env : Env)
    (e : Engine) where
  set_failed-Closed :
      (x : Option String)
      → ((u : Task) → find_task k e.store.state ≡ some u → is_terminal u.status ≡ false)
      → Has id status e.store.state
      → Closed w k id status e (after (stored (set_status env.now k failed x)) e)
  unfolding stored queue_of update_task with_status
  set_failed-Closed x live a = record {
    same_line =
        ap (λ st. (queue_of w st).queued_task_ids) (set_status-state env.now k failed x e.store);
    others = λ j n.
        ap (find_task j) (set_status-state env.now k failed x e.store)
        ∙ find_task-update_other j k (with_status env.now failed x) e.store.state (λ u. refl) n;
    has = set_status-Has id status over env.now k failed x e live a;
  }

  same-Closed : Has id status e.store.state → Closed w k id status e e
  same-Closed a = record { same_line = refl; others = λ j n. refl; has = a }

  after_error-Closed :
      (x : Failure) (found : Option Task)
      → find_task k e.store.state ≡ found
      → Has id status e.store.state
      → Closed w k id status e (after (after_error env k x found) e)
  unfolding after_error
  after_error-Closed x none at a = same-Closed a
  after_error-Closed x (some u) at a = elim (Bool-cases (is_terminal u.status)) [
    | inl done ↦ rw done (same-Closed a)
    | inr live ↦ rw live (set_failed-Closed _ (λ v known. ground arith) a)
  ]

  handle_error-Closed :
      (x : Option Failure)
      → Has id status e.store.state
      → Closed w k id status e (after (handle_error env k x) e)
  unfolding handle_error
  handle_error-Closed none a = same-Closed a
  handle_error-Closed (some x) a = after_error-Closed x (find_task k e.store.state) refl a

released-tasks :
    (w : String) (d : Engine) → (after (release_queue w) d).store.state.tasks ≡ d.store.state.tasks
unfolding release_queue stored get_or_create_queue set_queue
released-tasks w d =
    ap (λ st. st.tasks)
      (save_queue-state w (record (queue_of w d.store.state) { active_task = none })
        (record d.store { state = create_queue w d.store.state }))
    ∙ tasks-create_queue w d.store.state

set_queue-line :
    (w : String) (q : Queue) (st : State)
    → (queue_of w (set_queue w q st)).queued_task_ids ≡ q.queued_task_ids
set_queue-line w q st = ground (arith, queue_of-set_queue w w q st, eq_refl w)

released-line : (w : String) (d : Engine) → line w (after (release_queue w) d) ≡ line w d
unfolding release_queue stored get_or_create_queue
released-line w d =
    let q : Queue = record (queue_of w d.store.state) { active_task = none } in
    let st : State = create_queue w d.store.state in
    ap (λ s. (queue_of w s).queued_task_ids) (save_queue-state w q (record d.store { state = st }))
    ∙ set_queue-line w q st

release-Closed :
    (w k id : String) (status : TaskStatus) (e d : Engine)
    → Closed w k id status e d
    → Closed w k id status e (after (release_queue w) d)
unfolding find_task
release-Closed w k id status e d c = record {
  same_line = released-line w d ∙ c.same_line;
  others = λ j n. rw (released-tasks w d) (c.others j n);
  has =
      same_tasks-Has id status d.store.state (after (release_queue w) d).store.state
        (released-tasks w d) c.has;
}

-- The task whose run has ended, where the dispatcher waits for one, is not in the line.
unfoldable pub Apart : String → Engine → Option Phase → Type 0
Apart w e (some (ended k x)) = includes k (line w e) ≡ false
Apart w e _ = Unit

module _ (w id : String) (status : TaskStatus) (over : is_terminal status ≡ true) (env : Env)
    (e : Engine) where
  close_round-Closed :
      (k : String) (x : Option Failure)
      → Has id status e.store.state
      → Closed w k id status e (after (close_round env w k x) e)
  unfolding close_round
  close_round-Closed k x a =
      let handled = handle_error-Closed w k id status over env e x a in
      bind-after (λ d. Closed w k id status e d) (handle_error env k x) (λ u. release_queue w) e
        handled (λ u. release-Closed w k id status e (after (handle_error env k x) e) handled)

  Waits-Closed :
      (k : String) (d : Engine) (ks : List String)
      → Closed w k id status e d
      → includes k ks ≡ false
      → Waits ks e.store.state
      → Waits ks d.store.state
  unfolding Waits includes
  Waits-Closed k d [] c apart h = tt
  Waits-Closed k d (next ∷ rest) c apart h =
      λ u known. h u (sym (c.others next (λ same. ground (arith, eq_iff next k))) ∙ known)

  next_round-Has :
      (r : Result Failure (Unit {0})) (d : Engine)
      → Waits (line w d) d.store.state
      → Has id status d.store.state
      → Has id status (next_round env w r d).store.state
  unfolding next_round stop_pump
  next_round-Has (ok u) d h a = pump_round-Has id status over env w d h a
  next_round-Has (err x) d h a = a

  settle-Has :
      (k : String) (x : Option Failure)
      → includes k (line w e) ≡ false
      → Waits (line w e) e.store.state
      → Has id status e.store.state
      → Has id status (settle env w k x e).store.state
  unfolding settle
  settle-Has k x apart h a =
      let d : Engine = after (close_round env w k x) e in
      let c = close_round-Closed k x a in
      next_round-Has (result (close_round env w k x) e) d
        (rw c.same_line (Waits-Closed k d (line w e) c apart h)) c.has

  arrive_at-Has :
      (a : Arrival) (p : Phase)
      → Apart w e (some p)
      → Waits (line w e) e.store.state
      → Has id status e.store.state
      → Has id status (arrive_at env w a p e).store.state
  unfolding arrive_at move at_phase Apart
  arrive_at-Has (evidence b) (gathering t) q h a = a
  arrive_at-Has (unseen x) (gathering t) q h a = a
  arrive_at-Has (outcome o) (sending t) q h a = turn_ended-Has id status over env t o e a
  arrive_at-Has (partial o) (failing t x) q h a = recover-Has id status over env t x o e a
  arrive_at-Has settled (ended k x) q h a = settle-Has k x q h a
  arrive_at-Has _ _ q h a = a

  arrive-idle : (a : Arrival) → phase_of w e ≡ none → arrive env w a e ≡ e
  unfolding arrive
  arrive-idle a idle = ground arith

  arrive-busy :
      (a : Arrival) (p : Phase) → phase_of w e ≡ some p → arrive env w a e ≡ arrive_at env w a p e
  unfolding arrive
  arrive-busy a p at = ground arith

  -- Whatever arrives at a dispatcher, the evidence on a session or its failure, the end of a turn,
  -- what a failed turn left, or the end of a run with the start of the next one, also while writes
  -- fail: a task that is over keeps its status, as long as the first in line is not over and a task
  -- whose run has ended is not in the line.
  pub arrive-keeps_terminal :
      (a : Arrival)
      → Apart w e (phase_of w e)
      → Waits (line w e) e.store.state
      → Has id status e.store.state
      → Has id status (arrive env w a e).store.state
  arrive-keeps_terminal a q h b = elim (Option-cases (phase_of w e)) [
    | inl idle ↦ subst (λ d. Has id status d.store.state) (sym (arrive-idle a idle)) b
    | inr (p, at) ↦
        subst (λ d. Has id status d.store.state) (sym (arrive-busy a p at))
          (arrive_at-Has a p (subst (λ o. Apart w e o) at q) h b)
  ]
