-- ===== src/Tasks/Store/Broken.antt =====
-- z2c/src/core/tasks/persistence.ts after a write that failed.
use agents_with_chatgpt.Prelude.{◌≡◌, refl, ◌∙◌, Bool, true, List, [], ◌∷◌, arith, err, result}
use agents_with_chatgpt.Tasks.Store.{
  Store, persistence_unavailable, assert_healthy, write_state, save, admit_task, roll_back,
  upsert_task, modify, set_status, attach_output, get_or_create_queue, save_queue, save_output,
  Call, saves, admits, upserts, sets_status, attaches_output, makes_queue, saves_queue,
  saves_output, perform, perform_all,
}

-- No call writes the file, or makes the store fit to write it.
perform-Broken :
    (c : Call) (s : Store)
    → s.persistence_failed ≡ true
    → ((perform c s).durable ≡ s.durable) × ((perform c s).persistence_failed ≡ true)
unfolding perform save assert_healthy write_state upsert_task modify set_status attach_output
    save_queue save_output admit_task roll_back get_or_create_queue
perform-Broken saves s h = ground (arith, h)
perform-Broken (admits t) s h = ground (arith, h)
perform-Broken (upserts t) s h = ground (arith, h)
perform-Broken (sets_status now id status exit) s h = ground (arith, h)
perform-Broken (attaches_output id output_id) s h = ground (arith, h)
perform-Broken (makes_queue w) s h = ground (arith, h)
perform-Broken (saves_queue w q) s h = ground (arith, h)
perform-Broken (saves_output o) s h = ground (arith, h)

pub perform_all-Broken :
    (cs : List (Bool × Call)) (s : Store)
    → s.persistence_failed ≡ true
    → ((perform_all cs s).durable ≡ s.durable) × ((perform_all cs s).persistence_failed ≡ true)
unfolding perform_all
perform_all-Broken [] s h = (refl, h)
perform_all-Broken (c ∷ cs) s h =
    let (kept, broken) = perform-Broken c.1 (record s { disk_ok = c.0 }) h in
    let (later, still) = perform_all-Broken cs (perform c.1 (record s { disk_ok = c.0 })) broken in
    (later ∙ kept, still)

pub save-Broken :
    (s : Store) → s.persistence_failed ≡ true → result save s ≡ err persistence_unavailable
unfolding save assert_healthy
save-Broken s h = ground (arith, h)
