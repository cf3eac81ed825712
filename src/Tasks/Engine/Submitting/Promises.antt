-- ===== src/Tasks/Engine/Submitting/Promises.antt =====
-- What a caller of `submitTask` of z2c/src/core/tasks/engine.ts may rely on when a task is admitted.
use agents_with_chatgpt.Prelude.{
  text_length, ◌≤◌, ◌≡◌, ◌≢◌, refl, sym, ap, ◌∙◌, String, true, false, Option, none, some, Result,
  ok, result, after, List, [], ◌∷◌, ◌++◌, length, nat_eq, trim, is_some, read_key, arith, eq_iff,
}
use mathlib.Core.Path.{subst}
use agents_with_chatgpt.Tasks.Model.{Task, Binding, queued, readonly, is_terminal}
use agents_with_chatgpt.Tasks.Idempotency.{SubmitInput, scope_of, mode_of, request_fields}
use agents_with_chatgpt.Tasks.Store.{Store, find_task, queue_of, admit_task}
use agents_with_chatgpt.Tasks.Store.Eviction.{Distinct}
use agents_with_chatgpt.Tasks.Store.Admission.{admit_task-admits}
use agents_with_chatgpt.Attestation.{governed_binding, plan_or_default}
use agents_with_chatgpt.Attestation.Admissible.{IsAdmissible, PlanAttested, governed-exact}
use agents_with_chatgpt.Access.Workspaces.{Entry}
use agents_with_chatgpt.Access.Workspaces.Resolve.{resolve_iff}
use agents_with_chatgpt.Tasks.Engine.{
  Failure, Env, Engine, is_truthy, phase_of, plan_enabled, is_readonly, request_of, kick,
}
use agents_with_chatgpt.Tasks.Engine.Submitting.{
  Config, Accepted, admitted, at_once, check_input, given_instruction, new_task, observed,
  request_hash, proof_of,
}
use agents_with_chatgpt.Tasks.Engine.Submitting.Accepting.{check_input-Accepts, check_input-origin}
use agents_with_chatgpt.Tasks.Engine.Submitting.Admitted.{observed-through}

-- The task is the one that the request asks for, on this session of this workspace.
pub record AsAsked (env : Env) (i : SubmitInput) (w path session : String) (t : Task) : Type 0 where
  pub workspace : t.workspace_id ≡ w
  pub on_session : t.zcode_session_id ≡ some session
  pub waits : t.status ≡ queued
  pub whole_text :
      (key : String) → i.idempotency_key ≡ some key → key ≢ "" → t.instruction ≡ i.instruction
  pub trimmed_text : i.idempotency_key ≡ none → t.instruction ≡ trim i.instruction
  pub scope : t.write_scope ≡ scope_of i.write_scope
  pub mode : t.mode ≡ mode_of i.mode
  pub model : t.requested_model_id ≡ i.model_id
  pub effort : t.requested_thought_level ≡ i.thought_level
  pub plan : t.entitlement_plan ≡ some (plan_or_default i.entitlement_plan)
  pub resumes : t.resume_of_session_id ≡ i.resume_session_id
  pub bound :
      (key : String)
      → i.idempotency_key ≡ some key
      → key ≢ ""
      → t.idempotency
        ≡ some
            (record { key = key; fingerprint = env.hash (request_fields i); workspace_path = path })

-- What was read of the session is what the task runs on, and meets the request with nothing put in
-- the place of anything that was asked for.
pub record Evidence (i : SubmitInput) (b : Binding) (t : Task) : Type 0 where
  pub kept : t.model_binding ≡ some b
  pub admissible : IsAdmissible b
  pub plan : PlanAttested (plan_or_default i.entitlement_plan) b
  pub model : (m : String) → i.model_id ≡ some m → m ≢ "" → b.model_id ≡ m
  pub effort : (l : String) → i.thought_level ≡ some l → l ≢ "" → b.thought_level ≡ some l
  pub only_plans : scope_of i.write_scope ≡ readonly → b.plan_enabled ≡ some true

-- Nothing runs or waits in the workspace's queue, which is not paused.
pub record Idle (w : String) (e : Engine) : Type 0 where
  pub going : (queue_of w e.store.state).paused ≡ false
  pub nothing_active : is_truthy (queue_of w e.store.state).active_task ≡ false
  pub nothing_waits : (queue_of w e.store.state).queued_task_ids ≡ []
  pub no_dispatcher : phase_of w e ≡ none

-- The task is on disk, at the end of its workspace's line, and the other lines are as they were.
pub record Durable (t : Task) (old new : Store) : Type 0 where
  pub on_disk : new.durable ≡ new.state
  pub there : find_task t.task_id new.state ≡ some t
  pub last : queue_of t.workspace_id new.state ≡ record (queue_of t.workspace_id old.state) {
    queued_task_ids = (queue_of t.workspace_id old.state).queued_task_ids ++ t.task_id ∷ [];
  }
  pub others : (v : String) → v ≢ t.workspace_id → queue_of v new.state ≡ queue_of v old.state

module _ (cfg : Config) (env0 env : Env) (i : SubmitInput) (a : Accepted) (id session : String)
    (accepts : check_input cfg env0 i ≡ ok a) where
  new-AsAsked :
      (b : Option Binding)
      → AsAsked env i a.workspace_id a.path session (new_task env a id session b)
  unfolding new_task proof_of request_hash given_instruction is_truthy
  new-AsAsked b =
      let (same, text, _) = check_input-Accepts cfg env0 i a accepts in
      record {
        workspace = refl;
        on_session = refl;
        waits = refl;
        whole_text = λ key e n. text ∙ ground (arith, e, n, eq_iff key "");
        trimmed_text = λ e. text ∙ ground (arith, e);
        scope = ap (λ (x : SubmitInput). scope_of x.write_scope) same;
        mode = ap (λ (x : SubmitInput). mode_of x.mode) same;
        model = ap (λ (x : SubmitInput). x.model_id) same;
        effort = ap (λ (x : SubmitInput). x.thought_level) same;
        plan = ap (λ (x : SubmitInput). some (plan_or_default x.entitlement_plan)) same;
        resumes = ap (λ (x : SubmitInput). x.resume_session_id) same;
        bound = λ key e n.
            let given : a.input.idempotency_key ≡ some key =
              ap (λ (x : SubmitInput). x.idempotency_key) same ∙ e in
            ground (
              arith,
              given,
              n,
              eq_iff key "",
              ap (λ (x : SubmitInput). env.hash (request_fields x)) same,
            );
      }

  enabled : (b : Binding) → plan_enabled (some b) ≡ true → b.plan_enabled ≡ some true
  unfolding plan_enabled
  enabled b h = ground (arith, h)

  new-Evidence :
      (b : Option Binding)
      → governed_binding
          (new_task env a id session b).model_binding
          (request_of (new_task env a id session b))
        ≡ true
      → (is_readonly (new_task env a id session b).write_scope ≡ true
          → plan_enabled (new_task env a id session b).model_binding ≡ true)
      → (c : Binding) × (b ≡ some c) × Evidence i c (new_task env a id session b)
  unfolding new_task request_of is_readonly governed_binding plan_or_default
  new-Evidence none governed plans = absurd (ground (arith, governed))
  new-Evidence (some c) governed plans =
      let (same, _, _) = check_input-Accepts cfg env0 i a accepts in
      let (good, plan, model, effort, _) =
        governed-exact c (request_of (new_task env a id session (some c)))
          (plan_or_default a.input.entitlement_plan) governed refl in
      (
        c,
        refl,
        record {
          kept = refl;
          admissible = good;
          plan =
              subst (λ (x : SubmitInput). PlanAttested (plan_or_default x.entitlement_plan) c) same
                plan;
          model = λ m e n. model m (ap (λ (x : SubmitInput). x.model_id) same ∙ e) n;
          effort = λ l e n. effort l (ap (λ (x : SubmitInput). x.thought_level) same ∙ e) n;
          only_plans = λ only. enabled c (
              plans
                (ap is_readonly (ap (λ (x : SubmitInput). scope_of x.write_scope) same ∙ only)));
        },
      )

  free-Idle : (e : Engine) → at_once a e ≡ true → i.immediate ≡ true → Idle a.workspace_id e
  unfolding at_once
  free-Idle e free now =
      let (same, _, _) = check_input-Accepts cfg env0 i a accepts in
      let now_a : a.input.immediate ≡ true = ap (λ (x : SubmitInput). x.immediate) same ∙ now in
      record {
        going = ground (arith, free, now_a);
        nothing_active = ground (arith, free, now_a);
        nothing_waits =
            no_ids (queue_of a.workspace_id e.store.state).queued_task_ids
              (ground (arith, free, now_a));
        no_dispatcher = no_phase (phase_of a.workspace_id e) (ground (arith, free, now_a));
      }
    where
      no_ids : (xs : List String) → nat_eq (length xs) 0 ≡ true → xs ≡ []
      no_ids [] h = refl
      no_ids (x ∷ xs) h = absurd (ground (arith, h))

      no_phase : {A : Type 0} (o : Option A) → is_some o ≡ false → o ≡ none
      no_phase none h = refl
      no_phase (some x) h = absurd (cc)

  -- When a submission ends with an admitted task, the task is the one that the request asks for, its
  -- key bound to it, with a text that is not blank and not too long; it runs on evidence of its
  -- session that was read and meets the request exactly, plan mode included where it is to read
  -- only; its workspace is the one that was registered under the id asked for and allowed when the
  -- request was checked, and is still registered, allowed and there under the same path; a request
  -- that may not wait found the queue idle; and before the queue's dispatcher was woken, the task was
  -- on disk at the end of its line, with no other line changed. The new id is none of a known task,
  -- and known ids differ.
  pub observed-admits :
      (r : Result Failure (Option Binding)) (e : Engine) (t : Task)
      → find_task id e.store.state ≡ none
      → Distinct e.store.state.tasks
      → result (observed env a id session r) e ≡ ok (admitted t)
      → (t.task_id ≡ id)
        × AsAsked env i a.workspace_id a.path session t
        × ((b : Binding) × (r ≡ ok (some b)) × Evidence i b t)
        × ((origin : Entry) × (read_key i.workspace_id env0.registry ≡ some origin)
            × (origin.allowed ≡ true)
            × (origin.workspace_id ≡ a.workspace_id)
            × (origin.canonical_path ≡ a.path))
        × (trim t.instruction ≢ "")
        × (text_length t.instruction ≤ cfg.max_instruction_chars)
        × ((entry : Entry) × (read_key a.workspace_id env.registry ≡ some entry)
            × (entry.allowed ≡ true)
            × (env.paths.exists a.path ≡ true)
            × (entry.canonical_path ≡ a.path))
        × (i.immediate ≡ true → Idle a.workspace_id e)
        × ((s : Store) × Durable t e.store s
            × (after (observed env a id session r) e
                ≡ kick env a.workspace_id (record e { store = s })))
  unfolding find_task new_task is_terminal
  observed-admits r e t new distinct h =
      let (b, entry, got, same, governed, plans, known, path, free, stored_it, left) =
        observed-through env a id session r e t h in
      let task : Task = new_task env a id session b in
      let asked : AsAsked env i a.workspace_id a.path session t =
        subst (AsAsked env i a.workspace_id a.path session) (sym same) (new-AsAsked b) in
      let (c, is_c, evidence) =
        new-Evidence b
          (subst (λ (x : Task). governed_binding x.model_binding (request_of x) ≡ true) same
            governed)
          (subst
            (λ (x : Task). is_readonly x.write_scope ≡ true → plan_enabled x.model_binding ≡ true)
            same plans) in
      let (there, allowed, exists) =
        (resolve_iff env.paths a.workspace_id env.registry entry).0 known in
      let (origin, origin_known, origin_id, origin_path, some_text, short) =
        check_input-origin cfg env0 i a accepts in
      let origin_found =
        (resolve_iff env0.paths i.workspace_id env0.registry origin).0 origin_known in
      let its_id : t.task_id ≡ id = ap (λ (x : Task). x.task_id) same in
      let (written, found, last, others) =
        admit_task-admits t e.store (ap (λ k. find_task k e.store.state) its_id ∙ new) distinct
          (ap (λ s. is_terminal s) asked.waits) stored_it in
      (
        its_id,
        asked,
        (c, got ∙ ap ok is_c, subst (Evidence i c) (sym same) evidence),
        (origin, origin_found.0, origin_found.1, sym origin_id, sym origin_path),
        subst (λ (x : Task). trim x.instruction ≢ "") (sym same) some_text,
        subst (λ (x : Task). text_length x.instruction ≤ cfg.max_instruction_chars) (sym same)
            short,
        (entry, there, allowed, ap env.paths.exists (sym path) ∙ exists, path),
        free-Idle e free,
        (
          after (admit_task t) e.store,
          record { on_disk = written; there = found; last = last; others = others },
          left,
        ),
      )
