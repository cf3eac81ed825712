-- ===== src/Orchestrator/Tests.antt =====
-- Tests of the orchestrator: a plan of one step, from its creation to its end.
use agents_with_chatgpt.Prelude.{
  ◌≡◌, refl, String, Bool, true, false, Option, none, some, Result, ok, List, [], ◌∷◌, any,
  read_key, write_key, arith,
}
use agents_with_chatgpt.Catalog.{agent_eq, ModelCatalog}
use agents_with_chatgpt.Catalog.Resolution.{text_of, ResolveSelection, relevant_sections, is_stale}
use agents_with_chatgpt.Catalog.Resolution.Matching.{Offered}
use agents_with_chatgpt.Catalog.Resolution.Tests.{
  catalog, selection, suffix_matched, suffix_selected,
}
use agents_with_chatgpt.Orchestrator.{
  Agent, codex, Selected, Step, LaneStatus, running, completed, failed, LaneTask, AuditId, Audit,
  pass, complete, Run, is_completed, is_zero, verified, command_blockers, pass_blockers,
  no_blockers, same_id, stored, next_generation, save,
}
use agents_with_chatgpt.Orchestrator.Advance.{
  Lane, World, manager_lane, lane, request_as_is, resolve_step, step_at, current_step, current_id,
  is_over, with_audit, is_task_running, is_run_running, observed, look_in, agent_of, observe,
  is_final, submitted, note_dispatch, submit_in, submit_step, submit, is_unavailable,
  failed_selection, selected, select, is_dispatched, select_or_submit, dispatch, at_rest, advance,
}
use agents_with_chatgpt.Orchestrator.Selection.{
  request_of, selected_from, wants_route, defect, check_match, mentions_effort, check_status,
  check_answer, check_catalog, resolve_selection, resolve_selection-Offered,
}
use agents_with_chatgpt.Orchestrator.Operations.{
  owned, load, text_list_eq, bool_eq, same_step, same_steps, resolve_all, created, create_locked,
  create, pause, is_waiting, has_id, update_audit, claim_found, claim_in, claim, verdict_eq,
  agent_of_audit, look_again, check_pass, check_verdict, go_on, decided, decide, judge_found, judge,
  submit_audit, recover_one, recover_each, recover,
}
use agents_with_chatgpt.Orchestrator.Sound.{passes}
use agents_with_chatgpt.Orchestrator.Calls.{
  Call, creating, claiming, judging, recovering, restarting, perform, perform_all, no_runs,
  complete-audited,
}

abbrev step : Step
step = record {
  instruction = "build";
  write_scope = "src" ∷ [];
  network = false;
  run_tests = true;
  agent = codex;
  model = some "gpt";
  effort = none;
  provider_route = none;
  entitlement_plan = none;
}

abbrev choice : Selected
choice = record {
  agent = codex;
  provider_id = none;
  model_id = "gpt";
  effort = none;
  catalog_revision = some "r1";
  resolved_at = "noon";
}

abbrev task : LaneStatus → LaneTask
task s = record {
  task_id = "t1";
  status = s;
  output_ids = [];
  has_error = false;
  verification = none;
  commands = [];
}

abbrev lane_at : LaneStatus → Lane
lane_at s = record { submit = λ x y z. ok (task s); look = λ x. ok (task s) }

abbrev world : LaneStatus → World
world s = record {
  now = "noon";
  resolve_selection = none;
  injected = λ a. none;
  manager = λ a. lane_at s;
  authorizes = λ o. true;
}

abbrev audit_id : AuditId
audit_id = record { run = "r"; step = 0; attempt = 1 }

-- The third save of the creation fails, the next process finds the task at its end.
abbrev history : List Call
history =
    restarting 2
    ∷ creating (world running) "ws" (λ s. true) "r" "me" (step ∷ [])
    ∷ restarting 10
    ∷ recovering (world completed)
    ∷ claiming "r" "me" audit_id "auditor"
    ∷ judging (world completed) "r" "me" audit_id "auditor" pass none
    ∷ []

-- as above, but the task is found to have failed when PASS is given
abbrev refused_history : List Call
refused_history =
    restarting 10
    ∷ creating (world completed) "ws" (λ s. true) "r" "me" (step ∷ [])
    ∷ claiming "r" "me" audit_id "auditor"
    ∷ judging (world failed) "r" "me" audit_id "auditor" pass none
    ∷ []

abbrev final_audit : Audit
final_audit = record {
  id = audit_id;
  sequence = 4;
  task_id = "t1";
  step = 0;
  attempt = 1;
  output_ids = [];
  terminal_status = completed;
  blockers = [];
  resolved = some (record choice { catalog_revision = none });
  claimant = some "auditor";
  verdict = some pass;
  note = none;
}

abbrev final_run : Run
final_run = record {
  run_id = "r";
  workspace_id = "ws";
  owner_id = "me";
  generation = 6;
  state = complete;
  paused = false;
  steps = step ∷ [];
  step = 1;
  attempt = 1;
  task_id = none;
  resolved = none;
  failure = none;
  audits = final_audit ∷ [];
}

final_run_found : read_key "r" (perform_all history no_runs).runs ≡ some final_run
unfolding text_of perform_all perform read_key write_key passes is_completed is_zero verified
    command_blockers pass_blockers no_blockers same_id stored next_generation save manager_lane lane
    request_as_is resolve_step step_at current_step current_id is_over with_audit is_task_running
    is_run_running observed look_in agent_of observe is_final submitted note_dispatch submit_in
    submit_step submit is_unavailable failed_selection selected select is_dispatched
    select_or_submit dispatch at_rest advance owned load text_list_eq bool_eq same_step same_steps
    resolve_all created create_locked create pause is_waiting has_id update_audit claim_found
    claim_in claim verdict_eq agent_of_audit look_again check_pass check_verdict go_on decided
    decide judge_found judge submit_audit recover_one recover_each recover
final_run_found = refl

is_waiting_run : Option Run → Bool
is_waiting_run none = false
is_waiting_run (some r) = is_waiting r.state

refused_test : is_waiting_run (read_key "r" (perform_all refused_history no_runs).runs) ≡ true
unfolding is_waiting_run text_of perform_all perform read_key write_key passes is_completed is_zero
    verified command_blockers pass_blockers no_blockers same_id stored next_generation save
    manager_lane lane request_as_is resolve_step step_at current_step current_id is_over with_audit
    is_task_running is_run_running observed look_in agent_of observe is_final submitted
    note_dispatch submit_in submit_step submit is_unavailable failed_selection selected select
    is_dispatched select_or_submit dispatch at_rest advance owned load text_list_eq bool_eq
    same_step same_steps resolve_all created create_locked create pause is_waiting has_id
    update_audit claim_found claim_in claim verdict_eq agent_of_audit look_again check_pass
    check_verdict go_on decided decide judge_found judge submit_audit recover_one recover_each
    recover
refused_test = refl

complete-audited_example : any (passes 0) final_run.audits ≡ true
complete-audited_example =
    complete-audited history "r" final_run 0 final_run_found refl (omega arith)

-- a step that names its model with the effort
abbrev named_step : Step
named_step = record step { model = some " GPT 6_Astra Max" }

abbrev found : Selected
found = selected_from "noon" "r1" selection

abbrev service : Option (Agent → Result String ModelCatalog)
service = some (λ a. ok catalog)

selection_found : resolve_selection "noon" service (codex ∷ []) named_step ≡ ok found
unfolding agent_eq wants_route defect check_match mentions_effort check_status check_answer
    check_catalog resolve_selection
selection_found = ground (arith, suffix_matched, suffix_selected)

resolve_selection-Offered_example :
    (get : (Agent → Result String ModelCatalog)) × (c : ModelCatalog) × (s : ResolveSelection)
    × (service ≡ some get)
    × (any (agent_eq codex) (codex ∷ []) ≡ true)
    × (get codex ≡ ok c)
    × (c.is_fresh ≡ true)
    × (is_stale c (relevant_sections c (some codex)) ≡ false)
    × Offered c (request_of named_step) s
    × (wants_route none s.provider_id ≡ true)
    × (found ≡ selected_from "noon" c.catalog_revision s)
resolve_selection-Offered_example =
    resolve_selection-Offered "noon" service (codex ∷ []) named_step found selection_found
