-- ===== src/Host.antt =====
-- What the bridge's code reads from the process that runs it, and the files that it keeps for one
-- workspace under the state directory. Each call takes the host as it stands at that moment.
use agents_with_chatgpt.Prelude.{ℕ, String, Option, File}

pub record Host : Type 0 where
  pub pid : ℕ
  -- src/bridge/boot-identity.ts: null where the platform gives no boot id
  pub boot_id : Option String
  pub runtime_generation : String
  -- new Date().toISOString(), and the same with a minute added
  pub now : String
  pub lease_end : String
  -- process.env.PRODUCT_TASK_DISPATCH_PAUSED
  pub dispatch_env : Option String

-- dispatch-policy.json; queues/<id>.json; locks/<id>.json; tasks/<id>/.writer-lock.json
pub record Disk : Type 0 where
  pub policy_file : File
  pub queue_file : File
  pub lock_file : File
  pub legacy_file : File
