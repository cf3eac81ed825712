-- ===== src/Slot/History/Tests.antt =====
-- Tests of a lease over time.
use agents_with_chatgpt.Prelude.{◌≢◌, refl, some, List, [], ◌∷◌, arith, eq_iff}
use agents_with_chatgpt.Slot.Lease.{codex, gemini}
use agents_with_chatgpt.Slot.History.{
  Call, acquires, releases, renews, run, Holds, Respects, run-Holds,
}
use agents_with_chatgpt.Slot.Fixtures.{
  host, ws, task, lease, leased_disk, ws-valid, held-leased_disk,
}

-- Another task tries to take the lease and to release it, and its holder renews it.
abbrev calls : List Call
calls = acquires host "c2c_ffffffff" gemini ∷ releases "c2c_ffffffff" ∷ renews host task ∷ []

leased_disk-Holds : Holds ws task codex (some "boot-1") leased_disk
leased_disk-Holds = record {
  lease = lease;
  there = held-leased_disk;
  task = refl;
  provider = refl;
  boot = refl;
  workspace = refl;
}

other_task : "c2c_ffffffff" ≢ task
other_task = ground (arith, eq_iff "c2c_ffffffff" task)

run-Holds_example : Holds ws task codex (some "boot-1") (run ws leased_disk calls)
run-Holds_example =
    run-Holds ws task codex (some "boot-1") leased_disk calls ws-valid leased_disk-Holds
      (unfold Respects in (tt, (other_task, (tt, tt))))
