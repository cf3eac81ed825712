-- ===== src/Tasks/Engine/Submitting/Resubmitting.antt =====
-- `submitTask` of z2c/src/core/tasks/engine.ts, called again with the same request and key.
use mathlib.Core.Path.{subst}
use agents_with_chatgpt.Prelude.{
  ℕ, ◌≡◌, refl, sym, ap, ◌∙◌, String, true, false, Option, some, Result, ok, result, [], ◌∷◌, keep,
  opt_holds,
}
use agents_with_chatgpt.Tasks.Model.{Task, TaskStatus, Binding}
use agents_with_chatgpt.Tasks.Idempotency.{SubmitInput, RequestFields}
use agents_with_chatgpt.Attestation.{governed_binding}
use agents_with_chatgpt.Access.Workspaces.{Entry, resolve_authorized}
use agents_with_chatgpt.Slot.Lease.{is_idempotency_key, is_native_task_id, is_session_id}
use agents_with_chatgpt.Tasks.Engine.{
  Failure, Env, Engine, request_of, plan_enabled, is_readonly, keyed_admission_valid,
}
use agents_with_chatgpt.Tasks.Engine.Requests.{has_key}
use agents_with_chatgpt.Tasks.Engine.Submitting.{
  Config, Accepted, replayed, admitted, Health, keyed_task, bound_to, found, enter, new_task,
  observed, check_input, submit_task, supported,
}
use agents_with_chatgpt.Tasks.Engine.Submitting.Admitted.{observed-through}
use agents_with_chatgpt.Tasks.Engine.Submitting.Accepting.{
  check_input-Accepts, check_input-again, given-text,
}
use agents_with_chatgpt.Tasks.Engine.Submitting.Replaying.{
  later, key-some, new-bound, new-valid, enter-reaches, keyed_task-only, found-replays,
}

submit_task-enters :
    (cfg : Config) (env : Env) (i : SubmitInput) (a : Accepted) (h : Health) (e : Engine)
    → check_input cfg env i ≡ ok a
    → submit_task cfg env i h e ≡ enter cfg env a h e
unfolding submit_task
submit_task-enters cfg env i a h e ok_input = rw (ok_input, submit_task) refl

-- A request with a key that was admitted is answered with the same task when it is made again, all
-- its checks included, and nothing changes. This is so whatever came of the task meanwhile, where it
-- is the only one with the key; the state can be saved; the workspace, registered under the id that
-- is asked for, is authorized with the path it had; the runtime supports the plan that is asked for,
-- which is looked at before the key; the hash is the same function; and the ids of the task and the
-- session have their forms. The clock and the provider's health do not matter.
pub resubmit-replays :
    (cfg : Config) (env now : Env) (i : SubmitInput) (a : Accepted) (id session key : String)
    (r : Result Failure (Option Binding)) (e e' : Engine) (t : Task) (entry : Entry) (h : Health)
    (status : TaskStatus) (started completed : Option ℕ) (exit output : Option String)
    → check_input cfg env i ≡ ok a
    → result (observed env a id session r) e ≡ ok (admitted t)
    → i.idempotency_key ≡ some key
    → is_native_task_id id ≡ true
    → is_session_id session ≡ true
    → a.workspace_id ≡ i.workspace_id
    → ((f : RequestFields) → now.hash f ≡ env.hash f)
    → keep (has_key a.workspace_id key) e'.store.state.tasks
      ≡ later t status started completed exit output ∷ []
    → e'.store.persistence_failed ≡ false
    → resolve_authorized now.paths i.workspace_id now.registry ≡ ok entry
    → entry.workspace_id ≡ i.workspace_id
    → entry.canonical_path ≡ a.path
    → supported now i.entitlement_plan ≡ true
    → submit_task cfg now i h e'
      ≡ (ok (replayed (later t status started completed exit output)), e')
resubmit-replays cfg env now i a id session key r e e' t entry h status started completed exit
      output accepts admits given good_id good_session same_id same_hash alone healthy known
      entry_id path plan =
    let (b, there, got, same, governed, plans, _, _, _, _, _) =
      observed-through env a id session r e t admits in
    let (input, text, key_ok) = check_input-Accepts cfg env i a accepts in
    let key_given : a.input.idempotency_key ≡ some key =
      ap (λ (x : SubmitInput). x.idempotency_key) input ∙ given in
    let good_key : is_idempotency_key key ≡ true =
      subst (λ (o : Option String). opt_holds is_idempotency_key o ≡ true) given key_ok in
    let id_kept : a.workspace_id ≡ a.input.workspace_id =
      same_id ∙ sym (ap (λ (x : SubmitInput). x.workspace_id) input) in
    let text_kept : a.instruction ≡ a.input.instruction =
      text
      ∙ given-text i key given (key-some key good_key)
      ∙ sym (ap (λ (x : SubmitInput). x.instruction) input) in
    let u : Task = later (new_task env a id session b) status started completed exit output in
    let bound : bound_to now a u ≡ true =
      new-bound env now a id session key b status started completed exit output same_hash id_kept
        text_kept key_given good_key in
    let valid : keyed_admission_valid now u a.path ≡ true =
      new-valid env now a id session key b status started completed exit output same_hash id_kept
        text_kept key_given good_key good_id good_session
        (subst (λ (x : Task). governed_binding x.model_binding (request_of x) ≡ true) same governed)
        (subst
          (λ (x : Task). is_readonly x.write_scope ≡ true → plan_enabled x.model_binding ≡ true)
          same plans) in
    let only_it : keyed_task a e' ≡ ok (some u) = keyed_task-only a key u e' key_given (
      subst
        (λ (x : Task).
          keep (has_key a.workspace_id key) e'.store.state.tasks
          ≡ later x status started completed exit output ∷ [])
        same alone) in
    let again : check_input cfg now i ≡ ok a =
      check_input-again cfg env now i a entry accepts plan known (entry_id ∙ sym same_id) path in
    let known_a : resolve_authorized now.paths a.workspace_id now.registry ≡ ok entry =
      subst (λ w. resolve_authorized now.paths w now.registry ≡ ok entry) (sym same_id) known in
    subst
      (λ (x : Task).
        submit_task cfg now i h e'
        ≡ (ok (replayed (later x status started completed exit output)), e'))
      (sym same)
      (submit_task-enters cfg now i a h e' again
        ∙ enter-reaches cfg now a h entry e' healthy known_a path
        ∙ ap (λ (x : Result Failure (Option Task)). found cfg now a h x e') only_it
        ∙ found-replays cfg now a h u e' bound valid)
