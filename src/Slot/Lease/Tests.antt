-- ===== src/Slot/Lease/Tests.antt =====
-- Tests of the lease's file format.
use agents_with_chatgpt.Prelude.{◌≡◌, refl, true, false}
use agents_with_chatgpt.Slot.Lease.{is_task_id, is_session_id, is_idempotency_key}

patterns :
    (is_task_id "c2c_0123abcd" ≡ true)
    × (is_task_id "c2c_0123abc" ≡ false)
    × (is_task_id "c2c_0123abcX" ≡ false)
    × (is_session_id "SESS_00000000-0000-0000-0000-00000000000A" ≡ true)
    × (is_idempotency_key "a-1" ≡ true)
    × (is_idempotency_key "-a1" ≡ false)
unfolding is_task_id is_session_id is_idempotency_key
patterns = (refl, refl, refl, refl, refl, refl)
