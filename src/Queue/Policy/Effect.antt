-- ===== src/Queue/Policy/Effect.antt =====
-- The effect of the operator's switch: src/config/dispatch-policy.ts.
use agents_with_chatgpt.Prelude.{
  ◌≡◌, refl, Bool, ◌||◌, none, some, String, json, missing, false, arith,
}
use agents_with_chatgpt.Host.{Host, Disk}
use agents_with_chatgpt.Queue.Policy.{
  product_dispatch_paused, set_product_dispatch_paused, dispatch_policy_status, read_policy,
  env_active, policy_of_fields, policy_of_flag, policy_json, valid,
}

-- A policy that was written reads back as it was written.
read_policy-policy_json :
    (b : Bool) (now : String)
    → read_policy (json (policy_json b now))
      ≡ record { state = valid; product_task_dispatch_paused = some b; updated_at = some now }
unfolding read_policy policy_json policy_of_fields policy_of_flag
read_policy-policy_json b now = refl

-- The operator's pause holds at once whatever the policy file held before, and lifting it leaves
-- dispatch paused exactly while the process environment pauses it.
pub set_policy-takes_effect :
    (h : Host) (b : Bool) (d : Disk)
    → product_dispatch_paused h (set_product_dispatch_paused h b d).policy_file
      ≡ (dispatch_policy_status h d.policy_file).env_active || b
unfolding set_product_dispatch_paused product_dispatch_paused dispatch_policy_status
set_policy-takes_effect h b d = ground (arith, read_policy-policy_json b h.now)

-- With no policy file and no pause in the environment, dispatch is not paused.
pub dispatch-unpaused :
    (h : Host) → h.dispatch_env ≡ none → product_dispatch_paused h missing ≡ false
unfolding product_dispatch_paused dispatch_policy_status read_policy env_active
dispatch-unpaused h e = ground arith
