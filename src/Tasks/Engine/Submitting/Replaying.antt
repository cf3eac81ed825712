-- ===== src/Tasks/Engine/Submitting/Replaying.antt =====
-- `submitTask` of z2c/src/core/tasks/engine.ts on a key that was used before: the durable answer is
-- given again, and no second task is made.
use mathlib.Core.Path.{subst}
use agents_with_chatgpt.Prelude.{
  ℕ, ◌≡◌, ◌≢◌, refl, sym, ap, ◌∙◌, String, true, false, ◌&&◌, Option, none, some, ok, [], ◌∷◌, keep,
  arith, eq_iff, eq_refl, matches_head, ◌==◌,
}
use agents_with_chatgpt.Tasks.Model.{Task, TaskStatus, Binding, Idempotency, EntitlementPlan}
use agents_with_chatgpt.Tasks.Idempotency.{
  RequestFields, plan_field, request_fields, request_of_task,
}
use agents_with_chatgpt.Tasks.Store.{assert_healthy}
use agents_with_chatgpt.Tasks.Store.Success.{assert_healthy-passes}
use agents_with_chatgpt.Attestation.{governed_binding, plan_or_default, is_default}
use agents_with_chatgpt.Access.Workspaces.{Entry, resolve_authorized}
use agents_with_chatgpt.Slot.Lease.{is_idempotency_key, is_native_task_id, is_session_id}
use agents_with_chatgpt.Tasks.Engine.{
  Env, Engine, stored, request_of, plan_enabled, is_readonly, session_valid, proof_valid,
  keyed_admission_valid,
}
use agents_with_chatgpt.Tasks.Engine.Requests.{has_key, only, resolved}
use agents_with_chatgpt.Tasks.Engine.Submitting.{
  Config, Accepted, replayed, Health, same_workspace, keyed_task, bound_to, request_hash, replay,
  found, enter, new_task, proof_of,
}

-- The task with what its run may have changed.
abbrev pub later : Task → TaskStatus → Option ℕ → Option ℕ → Option String → Option String → Task
later t status started completed exit output = record t {
  status = status;
  started_at = started;
  completed_at = completed;
  exit_status = exit;
  output_id = output;
}

plan_field-default :
    (p : Option EntitlementPlan) → plan_field (some (plan_or_default p)) ≡ plan_field p
unfolding plan_field plan_or_default is_default
plan_field-default none = refl
plan_field-default (some p) = refl

-- The fingerprint of a stored task is made of the same fields as that of its request.
fields-new :
    (env : Env) (a : Accepted) (id session : String) (b : Option Binding) (status : TaskStatus)
    (started completed : Option ℕ) (exit output : Option String)
    → a.workspace_id ≡ a.input.workspace_id
    → a.instruction ≡ a.input.instruction
    → request_fields
        (request_of_task (later (new_task env a id session b) status started completed exit output))
      ≡ request_fields a.input
unfolding request_fields request_of_task new_task
fields-new env a id session b status started completed exit output same_id same_text =
    rw (same_id, same_text, plan_field-default a.input.entitlement_plan) refl

module _ (env : Env) (a : Accepted) (key : String)
    (given : a.input.idempotency_key ≡ some key) where
  abbrev proof : Idempotency
  proof = record { key = key; fingerprint = request_hash env a; workspace_path = a.path }

  new_task-proof :
      (id session : String) (b : Option Binding)
      → key ≢ ""
      → (new_task env a id session b).idempotency ≡ some proof
  unfolding new_task proof_of
  new_task-proof id session b some_key = ground (arith, given, eq_iff key "")

valid-proof :
    (env : Env) (t : Task) (path : String) (p : Idempotency)
    → t.idempotency ≡ some p
    → proof_valid env t path p ≡ true
    → keyed_admission_valid env t path ≡ true
unfolding keyed_admission_valid
valid-proof env t path p e h =
    subst
      (λ (o : Option Idempotency).
        (elim o [ none ↦ false | some q ↦ proof_valid env t path q ]) ≡ true)
      (sym e) h

false-true : false ≡ true → ⊥
false-true h = absurd (cc)

pub key-some : (key : String) → is_idempotency_key key ≡ true → key ≢ ""
unfolding is_idempotency_key matches_head
key-some key h e = absurd (false-true (sym (ap is_idempotency_key e) ∙ h))

-- A task that was admitted for a keyed request, however far it has come, is proved to be that
-- request's: its fingerprint, its path and its evidence pass.
module _ (env now : Env) (a : Accepted) (id session key : String) (b : Option Binding)
    (status : TaskStatus) (started completed : Option ℕ) (exit output : Option String)
    (same_hash : (f : RequestFields) → now.hash f ≡ env.hash f)
    (same_id : a.workspace_id ≡ a.input.workspace_id)
    (same_text : a.instruction ≡ a.input.instruction) (given : a.input.idempotency_key ≡ some key)
    (good_key : is_idempotency_key key ≡ true) where
  abbrev pub new : Task
  new = later (new_task env a id session b) status started completed exit output

  new-fingerprint : now.hash (request_fields (request_of_task new)) ≡ request_hash env a
  unfolding request_hash
  new-fingerprint =
      same_hash _
      ∙ ap env.hash
          (fields-new env a id session b status started completed exit output same_id same_text)

  same_request : request_hash now a ≡ request_hash env a
  unfolding request_hash
  same_request = same_hash _

  pub new-bound : bound_to now a new ≡ true
  unfolding bound_to
  new-bound =
      subst
        (λ (o : Option Idempotency).
          (elim o [
            | none ↦ false
            | some p ↦ p.fingerprint == request_hash now a && p.workspace_path == a.path
          ])
          ≡ true)
        (sym (new_task-proof env a key given id session b (key-some key good_key)))
        (let same : request_hash now a ≡ request_hash env a = same_request in
          rw (same, eq_refl (request_hash env a), eq_refl a.path) refl)

  pub new-valid :
      is_native_task_id id ≡ true
      → is_session_id session ≡ true
      → governed_binding
          (new_task env a id session b).model_binding
          (request_of (new_task env a id session b))
        ≡ true
      → (is_readonly (new_task env a id session b).write_scope ≡ true
          → plan_enabled (new_task env a id session b).model_binding ≡ true)
      → keyed_admission_valid now new a.path ≡ true
  unfolding proof_valid session_valid new_task request_of
  new-valid good_id good_session governed plans =
      valid-proof now new a.path
        (record { key = key; fingerprint = request_hash env a; workspace_path = a.path })
        (new_task-proof env a key given id session b (key-some key good_key))
        (ground (
          arith,
          good_key,
          good_id,
          eq_refl a.path,
          good_session,
          governed,
          plans,
          new-fingerprint,
          eq_refl (request_hash env a),
        ))

same_workspace-passes :
    (env : Env) (a : Accepted) (entry : Entry) (e : Engine)
    → resolve_authorized env.paths a.workspace_id env.registry ≡ ok entry
    → entry.canonical_path ≡ a.path
    → same_workspace env a e ≡ (ok tt, e)
unfolding same_workspace resolved
same_workspace-passes env a entry e known path = ground (arith, known, path, eq_refl a.path)

healthy-passes :
    (e : Engine) → e.store.persistence_failed ≡ false → stored assert_healthy e ≡ (ok tt, e)
unfolding stored
healthy-passes e h = rw (assert_healthy-passes e.store h) refl

pub enter-reaches :
    (cfg : Config) (env : Env) (a : Accepted) (h : Health) (entry : Entry) (e : Engine)
    → e.store.persistence_failed ≡ false
    → resolve_authorized env.paths a.workspace_id env.registry ≡ ok entry
    → entry.canonical_path ≡ a.path
    → enter cfg env a h e ≡ found cfg env a h (keyed_task a e) e
unfolding enter
enter-reaches cfg env a h entry e healthy known path =
    rw (healthy-passes e healthy, same_workspace-passes env a entry e known path) refl

pub keyed_task-only :
    (a : Accepted) (key : String) (t : Task) (e : Engine)
    → a.input.idempotency_key ≡ some key
    → keep (has_key a.workspace_id key) e.store.state.tasks ≡ t ∷ []
    → keyed_task a e ≡ ok (some t)
unfolding keyed_task only
keyed_task-only a key t e given alone = rw (given, alone, keyed_task) refl

pub found-replays :
    (cfg : Config) (env : Env) (a : Accepted) (h : Health) (t : Task) (e : Engine)
    → bound_to env a t ≡ true
    → keyed_admission_valid env t a.path ≡ true
    → found cfg env a h (ok (some t)) e ≡ (ok (replayed t), e)
unfolding found replay
found-replays cfg env a h t e bound valid = ground (arith, bound, valid)
