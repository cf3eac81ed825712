-- ===== src/Orchestrator/Calls.antt =====
-- src/execution/orchestrator-core.ts over a whole history: calls one after another, each with what the
-- hooks and lanes answer at its time, and processes that die between two saves and start again.
use agents_with_chatgpt.Prelude.{
  ℕ, ◌<◌, ◌≡◌, String, Bool, true, Option, some, after, List, [], ◌∷◌, length, any, read_key, arith,
}
use agents_with_chatgpt.Orchestrator.{Step, AuditId, Verdict, complete, Run, Disk}
use agents_with_chatgpt.Orchestrator.Advance.{World}
use agents_with_chatgpt.Orchestrator.Sound.{passes, SoundDisk}
use agents_with_chatgpt.Orchestrator.Operations.{create, pause, claim, submit_audit, recover}
use agents_with_chatgpt.Orchestrator.Operations.Sound.{create-Keeps, pause-Keeps, recover-SoundDisk}
use agents_with_chatgpt.Orchestrator.Operations.Claiming.{claim-Keeps}
use agents_with_chatgpt.Orchestrator.Operations.Submitting.{submit_audit-Keeps}

pub data Call : Type 0 where
  creating : World → String → (Step → Bool) → String → String → List Step → Call
  pausing : World → String → String → Bool → Call
  claiming : String → String → AuditId → String → Call
  judging : World → String → String → AuditId → String → Verdict → Option String → Call
  recovering : World → Call
  restarting : ℕ → Call

-- A process that starts again has so many saves until it dies, or its disk is full.
unfoldable pub perform : Call → Disk → Disk
perform (creating w workspace validate id owner steps) d =
    after (create w workspace validate id owner steps) d
perform (pausing w id owner paused) d = after (pause w id owner paused) d
perform (claiming id owner k who) d = after (claim id owner k who) d
perform (judging w id owner k who v remark) d = after (submit_audit w id owner k who v remark) d
perform (recovering w) d = recover w d
perform (restarting n) d = record d { saves_left = n }

unfoldable pub perform_all : List Call → Disk → Disk
perform_all [] d = d
perform_all (c ∷ cs) d = perform_all cs (perform c d)

abbrev pub no_runs : Disk
no_runs = record { runs = []; dispatches = []; saves_left = 0 }

perform-SoundDisk : (c : Call) (d : Disk) → SoundDisk d → SoundDisk (perform c d)
unfolding perform
perform-SoundDisk (creating w workspace validate id owner steps) d h =
    (create-Keeps w workspace validate id owner steps).disk d h
perform-SoundDisk (pausing w id owner paused) d h = (pause-Keeps w id owner paused).disk d h
perform-SoundDisk (claiming id owner k who) d h = (claim-Keeps id owner k who).disk d h
perform-SoundDisk (judging w id owner k who v remark) d h =
    (submit_audit-Keeps w id owner k who v remark).disk d h
perform-SoundDisk (recovering w) d h = recover-SoundDisk w d h
perform-SoundDisk (restarting n) d h = h

perform_all-SoundDisk : (cs : List Call) (d : Disk) → SoundDisk d → SoundDisk (perform_all cs d)
unfolding perform_all
perform_all-SoundDisk [] d h = h
perform_all-SoundDisk (c ∷ cs) d h =
    perform_all-SoundDisk cs (perform c d) (perform-SoundDisk c d h)

no_runs-SoundDisk : SoundDisk no_runs
unfolding read_key
no_runs-SoundDisk id r e = absurd (cc)

-- Whatever calls were made, in whatever order, whatever the hooks and lanes answered and whichever
-- saves failed: a stored run that is complete has, for each step of its plan, an audit of that step
-- with the verdict PASS and without a blocker in its evidence.
pub complete-audited :
    (cs : List Call) (id : String) (r : Run) (n : ℕ)
    → read_key id (perform_all cs no_runs).runs ≡ some r
    → r.state ≡ complete
    → n < length r.steps
    → any (passes n) r.audits ≡ true
complete-audited cs id r n found ended below =
    let sound = perform_all-SoundDisk cs no_runs no_runs-SoundDisk id r found in
    sound.passed n (omega (arith, sound.ended ended, below))
