-- ===== src/Slot/Fixtures.antt =====
-- A host, a lease and a disk for the tests of src/execution/slot.ts.
use agents_with_chatgpt.Prelude.{◌≡◌, refl, arith, true, none, some, String, missing, json}
use agents_with_chatgpt.Host.{Host, Disk}
use agents_with_chatgpt.Queue.Pause.{is_workspace_id}
use agents_with_chatgpt.Slot.Lease.{Lock, codex, is_safe_task_id, lock_json}
use agents_with_chatgpt.Slot.Lease.Format.{IsWellFormed}
use agents_with_chatgpt.Slot.Operations.Acquire.{held, held-written}

abbrev pub host : Host
host = record {
  pid = 42;
  boot_id = some "boot-1";
  runtime_generation = "gen-1";
  now = "2026-01-01T00:00:00.000Z";
  lease_end = "2026-01-01T00:01:00.000Z";
  dispatch_env = none;
}

abbrev pub ws : String
ws = "ws_main"

abbrev pub task : String
task = "c2c_0123456789ab"

abbrev pub lease : Lock
lease = record {
  workspace_id = ws;
  provider = codex;
  task_id = task;
  session_id = none;
  native_task_id = none;
  idempotency_key = none;
  request_fingerprint = none;
  dispatched_at = none;
  pid = 42;
  acquired_at = "2026-01-01T00:00:00.000Z";
  boot_id = some "boot-1";
  runtime_generation = some "gen-1";
  owner_identity = some "gen-1";
  heartbeat_at = none;
  lease_expires_at = none;
}

abbrev pub empty_disk : Disk
empty_disk = record {
  policy_file = missing;
  queue_file = missing;
  lock_file = missing;
  legacy_file = missing;
}

abbrev pub leased_disk : Disk
leased_disk = record empty_disk { lock_file = json (lock_json lease) }

pub ws-valid : is_workspace_id ws ≡ true
unfolding is_workspace_id
ws-valid = refl

pub task-safe : is_safe_task_id task ≡ true
unfolding is_safe_task_id
task-safe = refl

pub lease-IsWellFormed : IsWellFormed lease
lease-IsWellFormed = record {
  workspace = ws-valid;
  task = task-safe;
  session = refl;
  key = refl;
  fingerprint = refl;
  process = omega arith;
}

pub held-leased_disk : held leased_disk ≡ some lease
held-leased_disk = held-written empty_disk lease lease-IsWellFormed
