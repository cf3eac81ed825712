-- ===== src/Tasks/Engine/Submitting/Admitted.antt =====
-- What `submitTask` of z2c/src/core/tasks/engine.ts has seen to when it admits a task.
use mathlib.Core.Path.{subst}
use agents_with_chatgpt.Prelude.{
  ◌≡◌, refl, sym, ap, ◌∙◌, String, Bool, true, false, ◌||◌, not, Option, Result, ok, err, result,
  after, inl, inr, Result-cases, pure, get, put, require, ◌>>=◌, ◌>>◌, bind-through,
  require-through, arith, eq_iff, ◌==◌,
}
use agents_with_chatgpt.Tasks.Model.{Task, Binding}
use agents_with_chatgpt.Tasks.Idempotency.{scope_of}
use agents_with_chatgpt.Tasks.Store.{Action, admit_task}
use agents_with_chatgpt.Attestation.{governed_binding, plan_or_default}
use agents_with_chatgpt.Access.Workspaces.{Entry, resolve_authorized}
use agents_with_chatgpt.Tasks.Engine.{
  Failure, workspace_mismatch, binding_unverified, session_busy, Env, Engine, Run, stored,
  request_of, plan_enabled, is_readonly, kick,
}
use agents_with_chatgpt.Tasks.Engine.Requests.{resolved}
use agents_with_chatgpt.Tasks.Engine.Submitting.{
  Accepted, Stage, admitted, same_workspace, at_once, request_made, new_task, admit,
  admit_unless_busy, observed,
}

resolved-through :
    (env : Env) (w : String) (e : Engine) (entry : Entry)
    → result (resolved env w) e ≡ ok entry
    → (resolve_authorized env.paths w env.registry ≡ ok entry) × (after (resolved env w) e ≡ e)
unfolding resolved
resolved-through env w e entry h =
    elim (Result-cases (resolve_authorized env.paths w env.registry)) [
      | inl (x, e) ↦ ground (arith, h, e)
      | inr (x, e) ↦ absurd (ground (arith, h, e))
    ]

pub stored-through :
    {A : Type 0} (m : Action A) (e : Engine) (x : A)
    → result (stored m) e ≡ ok x
    → (result m e.store ≡ ok x) × (after (stored m) e ≡ record e { store = after m e.store })
unfolding stored
stored-through m e x h = elim (Result-cases (result m e.store)) [
  | inl (y, got) ↦ ground (arith, h, got)
  | inr (y, got) ↦ absurd (ground (arith, h, got))
]

require-ok :
    (b : Bool) (x : Failure) (e : Engine) (u : Unit {0})
    → result (require b x) e ≡ ok u
    → (b ≡ true) × (after (require {E = Failure} b x) e ≡ e)
require-ok true x e u h = (refl, refl)
require-ok false x e u h = absurd (cc)

pub same_workspace-through :
    (env : Env) (a : Accepted) (e : Engine) (u : Unit {0})
    → result (same_workspace env a) e ≡ ok u
    → (entry : Entry) × (resolve_authorized env.paths a.workspace_id env.registry ≡ ok entry)
      × (entry.canonical_path ≡ a.path)
      × (after (same_workspace env a) e ≡ e)
unfolding same_workspace
same_workspace-through env a e u h =
    let (entry, got, through) = bind-through (resolved env a.workspace_id) _ e u h in
    let (known, same) = resolved-through env a.workspace_id e entry got in
    let test : Run (Unit {0}) = require (entry.canonical_path == a.path) workspace_mismatch in
    let run : same_workspace env a e ≡ test e = through ∙ ap test same in
    let (here, left) =
      require-ok (entry.canonical_path == a.path) workspace_mismatch e u
        (sym (ap (λ x. x.0) run) ∙ h) in
    (entry, known, (eq_iff entry.canonical_path a.path).0 here, ap (λ x. x.1) run ∙ left)

record Admits (env : Env) (a : Accepted) (t : Task) (m : Run Stage) (e : Engine) : Type 0 where
  entry : Entry
  known : resolve_authorized env.paths a.workspace_id env.registry ≡ ok entry
  path : entry.canonical_path ≡ a.path
  stored_it : result (admit_task t) e.store ≡ ok tt
  left : m e ≡ (
    ok (admitted t),
    kick env a.workspace_id (record e { store = after (admit_task t) e.store }),
  )

admit-Admits :
    (env : Env) (a : Accepted) (t : Task) (e : Engine) (s : Stage)
    → result (admit env a t) e ≡ ok s
    → Admits env a t (admit env a t) e
unfolding admit
admit-Admits env a t e s h =
    let (u, same, s1) = bind-through (same_workspace env a) _ e s h in
    let (entry, known, path, left) = same_workspace-through env a e u same in
    let rest : Run Stage = (do
      stored (admit_task t)
      e' ← get
      put (kick env a.workspace_id e')
      pure (admitted t)) in
    let run : admit env a t e ≡ rest e = s1 ∙ ap rest left in
    let (v, put_in, s2) =
      bind-through (stored (admit_task t)) _ e s (sym (ap (λ x. x.0) run) ∙ h) in
    let (done, now) = stored-through (admit_task t) e v put_in in
    record {
      entry = entry;
      known = known;
      path = path;
      stored_it = done;
      left = run ∙ s2 ∙ ap (λ d. (ok (admitted t), kick env a.workspace_id d)) now;
    }

abbrev ended : Task → Result Failure Stage
ended t = ok (admitted t)

admitted-same : (t u : Task) → ended t ≡ ended u → t ≡ u
admitted-same t u h = cc

-- What the last part of a submission went through when it ends with an admitted task.
pub observed-through :
    (env : Env) (a : Accepted) (id session : String) (r : Result Failure (Option Binding))
    (e : Engine) (t : Task)
    → result (observed env a id session r) e ≡ ok (admitted t)
    → (b : Option Binding) × (entry : Entry) × (r ≡ ok b)
      × (t ≡ new_task env a id session b)
      × (governed_binding t.model_binding (request_of t) ≡ true)
      × (is_readonly t.write_scope ≡ true → plan_enabled t.model_binding ≡ true)
      × (resolve_authorized env.paths a.workspace_id env.registry ≡ ok entry)
      × (entry.canonical_path ≡ a.path)
      × (at_once a e ≡ true)
      × (result (admit_task t) e.store ≡ ok tt)
      × (after (observed env a id session r) e
          ≡ kick env a.workspace_id (record e { store = after (admit_task t) e.store }))
unfolding observed admit_unless_busy new_task request_of request_made plan_or_default
observed-through env a id session (err x) e t h = absurd (cc)
observed-through env a id session (ok b) e t h =
    let new = new_task env a id session b in
    let (governed, s1) =
      require-through (governed_binding b (request_made a)) binding_unverified _ e (admitted t) h in
    let (plans, s2) =
      require-through (not (is_readonly (scope_of a.input.write_scope)) || plan_enabled b)
        binding_unverified _ e (admitted t) (sym (ap (λ x. x.0) s1) ∙ h) in
    let (free, s3) =
      require-through (at_once a e) (session_busy "became paused or busy") (admit env a new) e
        (admitted t) (sym (ap (λ x. x.0) (s1 ∙ s2)) ∙ h) in
    let run = s1 ∙ s2 ∙ s3 in
    let done = admit-Admits env a new e (admitted t) (sym (ap (λ x. x.0) run) ∙ h) in
    let same : new ≡ t = admitted-same new t (sym (ap (λ x. x.0) (run ∙ done.left)) ∙ h) in
    (
      b,
      done.entry,
      refl,
      sym same,
      subst (λ (x : Task). governed_binding x.model_binding (request_of x) ≡ true) same governed,
      subst (λ (x : Task). is_readonly x.write_scope ≡ true → plan_enabled x.model_binding ≡ true)
          same (λ only. ground (arith, only, plans)),
      done.known,
      done.path,
      free,
      subst (λ (x : Task). result (admit_task x) e.store ≡ ok tt) same done.stored_it,
      ap (λ x. x.1) (run ∙ done.left)
          ∙ ap
              (λ (x : Task).
                kick env a.workspace_id (record e { store = after (admit_task x) e.store }))
              same,
    )
