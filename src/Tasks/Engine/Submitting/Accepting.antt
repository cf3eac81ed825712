-- ===== src/Tasks/Engine/Submitting/Accepting.antt =====
-- `submitTask` of z2c/src/core/tasks/engine.ts, its first part: what an accepted request has passed.
use agents_with_chatgpt.Prelude.{
  ◌≡◌, ◌≢◌, String, true, some, ok, inl, inr, Result-cases, arith, eq_iff, opt_holds, trim,
  text_length, ◌≤◌,
}
use agents_with_chatgpt.Tasks.Idempotency.{SubmitInput}
use agents_with_chatgpt.Access.Workspaces.{Entry, resolve_authorized}
use agents_with_chatgpt.Slot.Lease.{is_idempotency_key}
use agents_with_chatgpt.Tasks.Engine.{Env, is_truthy}
use agents_with_chatgpt.Tasks.Engine.Submitting.{
  Config, Accepted, check_input, check_workspace, check_texts, given_instruction, supported,
}

check_texts-Accepts :
    (cfg : Config) (i : SubmitInput) (entry : Entry) (a : Accepted)
    → check_texts cfg i entry ≡ ok a
    → (a.input ≡ i) × (a.instruction ≡ given_instruction i)
unfolding check_texts
check_texts-Accepts cfg i entry a h = ground (arith, h)

check_workspace-Accepts :
    (cfg : Config) (env : Env) (i : SubmitInput) (a : Accepted)
    → check_workspace cfg env i ≡ ok a
    → (a.input ≡ i) × (a.instruction ≡ given_instruction i)
unfolding check_workspace
check_workspace-Accepts cfg env i a h =
    elim (Result-cases (resolve_authorized env.paths i.workspace_id env.registry)) [
      | inl (entry, e) ↦ check_texts-Accepts cfg i entry a (ground (arith, h, e))
      | inr (x, e) ↦ absurd (ground (arith, h, e))
    ]

pub check_input-Accepts :
    (cfg : Config) (env : Env) (i : SubmitInput) (a : Accepted)
    → check_input cfg env i ≡ ok a
    → (a.input ≡ i)
      × (a.instruction ≡ given_instruction i)
      × (opt_holds is_idempotency_key i.idempotency_key ≡ true)
unfolding check_input
check_input-Accepts cfg env i a h =
    let (same, text) = check_workspace-Accepts cfg env i a (ground (arith, h)) in
    (same, text, ground (arith, h))

pub given-text :
    (i : SubmitInput) (key : String)
    → i.idempotency_key ≡ some key
    → key ≢ ""
    → given_instruction i ≡ i.instruction
unfolding given_instruction is_truthy
given-text i key e some_key = ground (arith, e, eq_iff key "")

-- Two entries of one workspace with the same path are accepted alike.
check_texts-same :
    (cfg : Config) (i : SubmitInput) (x y : Entry) (a : Accepted)
    → check_texts cfg i x ≡ ok a
    → y.workspace_id ≡ a.workspace_id
    → y.canonical_path ≡ a.path
    → check_texts cfg i y ≡ ok a
unfolding check_texts
check_texts-same cfg i x y a h same_id same_path = ground (arith, h, same_id, same_path)

check_workspace-texts :
    (cfg : Config) (env : Env) (i : SubmitInput) (a : Accepted)
    → check_workspace cfg env i ≡ ok a
    → (x : Entry) × (check_texts cfg i x ≡ ok a)
      × (resolve_authorized env.paths i.workspace_id env.registry ≡ ok x)
unfolding check_workspace
check_workspace-texts cfg env i a h =
    elim (Result-cases (resolve_authorized env.paths i.workspace_id env.registry)) [
      | inl (x, e) ↦ (x, ground (arith, h, e), e)
      | inr (x, e) ↦ absurd (ground (arith, h, e))
    ]

check_texts-origin :
    (cfg : Config) (i : SubmitInput) (x : Entry) (a : Accepted)
    → check_texts cfg i x ≡ ok a
    → (a.workspace_id ≡ x.workspace_id)
      × (a.path ≡ x.canonical_path)
      × (trim a.instruction ≢ "")
      × (text_length a.instruction ≤ cfg.max_instruction_chars)
unfolding check_texts
check_texts-origin cfg i x a h = (
  ground (arith, h),
  ground (arith, h),
  λ e. ground (arith, h, e, eq_iff (trim a.instruction) "", eq_iff (trim (given_instruction i)) ""),
  ground (arith, h),
)

-- An accepted request is about the workspace that was found under its id, authorized and there, and
-- has a text of an allowed length.
pub check_input-origin :
    (cfg : Config) (env : Env) (i : SubmitInput) (a : Accepted)
    → check_input cfg env i ≡ ok a
    → (x : Entry) × (resolve_authorized env.paths i.workspace_id env.registry ≡ ok x)
      × (a.workspace_id ≡ x.workspace_id)
      × (a.path ≡ x.canonical_path)
      × (trim a.instruction ≢ "")
      × (text_length a.instruction ≤ cfg.max_instruction_chars)
unfolding check_input
check_input-origin cfg env i a h =
    let (x, texts, known) = check_workspace-texts cfg env i a (ground (arith, h)) in
    let (its_id, its_path, some_text, short) = check_texts-origin cfg i x a texts in
    (x, known, its_id, its_path, some_text, short)

check_workspace-again :
    (cfg : Config) (now : Env) (i : SubmitInput) (x entry : Entry) (a : Accepted)
    → check_texts cfg i x ≡ ok a
    → supported now i.entitlement_plan ≡ true
    → resolve_authorized now.paths i.workspace_id now.registry ≡ ok entry
    → entry.workspace_id ≡ a.workspace_id
    → entry.canonical_path ≡ a.path
    → check_workspace cfg now i ≡ ok a
unfolding check_workspace
check_workspace-again cfg now i x entry a h plan known same_id same_path =
    ground (arith, known, plan, check_texts-same cfg i x entry a h same_id same_path)

-- A request that was accepted is accepted again while its workspace is authorized under the same
-- path and the runtime supports the plan that it asks for.
pub check_input-again :
    (cfg : Config) (env now : Env) (i : SubmitInput) (a : Accepted) (entry : Entry)
    → check_input cfg env i ≡ ok a
    → supported now i.entitlement_plan ≡ true
    → resolve_authorized now.paths i.workspace_id now.registry ≡ ok entry
    → entry.workspace_id ≡ a.workspace_id
    → entry.canonical_path ≡ a.path
    → check_input cfg now i ≡ ok a
unfolding check_input
check_input-again cfg env now i a entry h plan known same_id same_path =
    let (x, texts, _) = check_workspace-texts cfg env i a (ground (arith, h)) in
    let again : check_workspace cfg now i ≡ ok a =
      check_workspace-again cfg now i x entry a texts plan known same_id same_path in
    ground (arith, h, again)
