-- ===== src/Queue/Pause/Dispatch.antt =====
-- When the two switches let a queue dispatch: src/config/dispatch-policy.ts and
-- src/execution/queue-state.ts, read together.
use agents_with_chatgpt.Prelude.{
  ◌≡◌, refl, ◌≢◌, inl, inr, Bool, true, false, Option, none, some, String, File, missing,
  unreadable, json, Value, undefined, null, bool, num, other_num, str, arr, obj, Fields, prop, ap,
  ◌∙◌, ◌↔◌, arith, eq_iff, eq_refl, Bool-cases, ok, result, after,
}
use agents_with_chatgpt.Host.{Host, Disk}
use agents_with_chatgpt.Queue.Policy.{product_dispatch_paused}
use agents_with_chatgpt.Queue.Policy.Effect.{dispatch-unpaused}
use agents_with_chatgpt.Queue.Pause.{
  default, PauseState, manual, is_workspace_id, valid_persisted_state,
  read_workspace_queue_pause_state, state_of_file, state_of_record, persisted_fields, persisted_of,
  is_one, is_text, pause_json, write_workspace_queue_pause_state,
}

-- What a queue file must be for its workspace to dispatch: it is not there, or it is an object with
-- version 1, the workspace's id, a pause that is off, and a time.
pub data Runs (w : String) (f : File) : Type 0 where
  never_paused : f ≡ missing → Runs w f
  resumed :
      (fs : Fields) (at : String)
      → f ≡ json (obj fs)
      → prop "version" fs ≡ num 1
      → prop "workspaceId" fs ≡ str w
      → prop "paused" fs ≡ bool false
      → prop "updatedAt" fs ≡ str at
      → at ≢ ""
      → Runs w f

is_one-num : (v : Value) → is_one v ≡ true → v ≡ num 1
is_one-num (num n) h = ap num (ground (arith, h))
is_one-num undefined h = absurd (cc)
is_one-num null h = absurd (cc)
is_one-num (bool b) h = absurd (cc)
is_one-num other_num h = absurd (cc)
is_one-num (str s) h = absurd (cc)
is_one-num (arr xs) h = absurd (cc)
is_one-num (obj fs) h = absurd (cc)

is_text-str : (w : String) (v : Value) → is_text w v ≡ true → v ≡ str w
is_text-str w (str s) h = ap str ((eq_iff s w).0 h)
is_text-str w undefined h = absurd (cc)
is_text-str w null h = absurd (cc)
is_text-str w (bool b) h = absurd (cc)
is_text-str w (num n) h = absurd (cc)
is_text-str w other_num h = absurd (cc)
is_text-str w (arr xs) h = absurd (cc)
is_text-str w (obj fs) h = absurd (cc)

-- What the last two fields are where they say that the queue runs.
persisted_of-running :
    (paused updated : Value) (at : String)
    → persisted_of paused updated ≡ some (false, at)
    → (paused ≡ bool false) × (updated ≡ str at) × (at ≢ "")
unfolding persisted_of
persisted_of-running (bool b) (str s) at h = (
  ap bool (ground (arith, h)),
  ap str (ground (arith, h)),
  λ e. ground (arith, h, e, eq_iff s ""),
)
persisted_of-running (bool b) undefined at h = absurd (cc)
persisted_of-running (bool b) null at h = absurd (cc)
persisted_of-running (bool b) (bool c) at h = absurd (cc)
persisted_of-running (bool b) (num n) at h = absurd (cc)
persisted_of-running (bool b) other_num at h = absurd (cc)
persisted_of-running (bool b) (arr xs) at h = absurd (cc)
persisted_of-running (bool b) (obj fs) at h = absurd (cc)
persisted_of-running undefined v at h = absurd (cc)
persisted_of-running null v at h = absurd (cc)
persisted_of-running (num n) v at h = absurd (cc)
persisted_of-running other_num v at h = absurd (cc)
persisted_of-running (str s) v at h = absurd (cc)
persisted_of-running (arr xs) v at h = absurd (cc)
persisted_of-running (obj fs) v at h = absurd (cc)

fields-Runs :
    (w : String) (fs : Fields) (at : String)
    → persisted_fields w (some fs) ≡ some (false, at)
    → Runs w (json (obj fs))
unfolding persisted_fields
fields-Runs w fs at h =
    let (off, timed, filled) =
      persisted_of-running (prop "paused" fs) (prop "updatedAt" fs) at (ground (arith, h)) in
    resumed fs at refl (is_one-num (prop "version" fs) (ground (arith, h)))
      (is_text-str w (prop "workspaceId" fs) (ground (arith, h))) off timed filled

value-Runs :
    (w : String) (v : Value) (at : String)
    → valid_persisted_state w v ≡ some (false, at)
    → Runs w (json v)
unfolding valid_persisted_state persisted_fields
value-Runs w (obj fs) at h = fields-Runs w fs at h
value-Runs w undefined at h = absurd (cc)
value-Runs w null at h = absurd (cc)
value-Runs w (bool b) at h = absurd (cc)
value-Runs w (num n) at h = absurd (cc)
value-Runs w other_num at h = absurd (cc)
value-Runs w (str s) at h = absurd (cc)
value-Runs w (arr xs) at h = absurd (cc)

state_of_record-running :
    (w : String) (r : Option (Bool × String))
    → (state_of_record w r).paused ≡ false
    → (at : String) × (r ≡ some (false, at))
unfolding state_of_record
state_of_record-running w none p = absurd (cc)
state_of_record-running w (some (b, at)) p = (at, ap (λ (c : Bool). some (c, at)) p)

state_of_file-Runs : (w : String) (f : File) → (state_of_file w f).paused ≡ false → Runs w f
unfolding state_of_file
state_of_file-Runs w missing p = never_paused refl
state_of_file-Runs w unreadable p = absurd (cc)
state_of_file-Runs w (json v) p =
    let (at, found) = state_of_record-running w (valid_persisted_state w v) p in
    value-Runs w v at found

Runs-state_of_file : (w : String) (f : File) → Runs w f → (state_of_file w f).paused ≡ false
unfolding state_of_file valid_persisted_state persisted_fields persisted_of state_of_record
Runs-state_of_file w f (never_paused e) = rw e refl
Runs-state_of_file w f (resumed fs at e version id off timed filled) =
    rw e (ground (arith, version, id, off, timed, eq_iff at "", eq_refl w))

-- A queue is read as running exactly where the operator's policy does not pause dispatch, the
-- workspace's id is valid, and the workspace's own file is missing or is an object with version 1,
-- this workspace's id, a pause that is off and a time that is no empty text: a file that does not
-- parse, that lacks one of these, or that names another workspace, never releases work.
pub read-Runs_iff :
    (h : Host) (w : String) (d : Disk)
    → ((s : PauseState) × (result (read_workspace_queue_pause_state h w) d ≡ ok s)
        × (s.paused ≡ false))
      ↔ ((product_dispatch_paused h d.policy_file ≡ false)
          × (is_workspace_id w ≡ true)
          × Runs w d.queue_file)
unfolding read_workspace_queue_pause_state
read-Runs_iff h w d = (to, from)
  where
    to :
        ((s : PauseState) × (result (read_workspace_queue_pause_state h w) d ≡ ok s)
          × (s.paused ≡ false))
        → (product_dispatch_paused h d.policy_file ≡ false)
          × (is_workspace_id w ≡ true)
          × Runs w d.queue_file
    to (s, e, p) = elim (Bool-cases (product_dispatch_paused h d.policy_file)) [
      | inl stopped ↦ absurd (ground (arith, e, p, stopped))
      | inr going ↦ elim (Bool-cases (is_workspace_id w)) [
        | inl valid ↦
            let same : state_of_file w d.queue_file ≡ s = ground (arith, e, going, valid) in
            (going, valid, state_of_file-Runs w d.queue_file (ap (λ x. x.paused) same ∙ p))
        | inr bad ↦ absurd (ground (arith, e, going, bad))
      ]
    ]

    from :
        (product_dispatch_paused h d.policy_file ≡ false)
          × (is_workspace_id w ≡ true)
          × Runs w d.queue_file
        → (s : PauseState) × (result (read_workspace_queue_pause_state h w) d ≡ ok s)
          × (s.paused ≡ false)
    from (going, valid, runs) = (
      state_of_file w d.queue_file,
      ground (arith, going, valid),
      Runs-state_of_file w d.queue_file runs,
    )

state_of_file-pause_json :
    (w : String) (b : Bool) (now : String)
    → now ≢ ""
    → state_of_file w (json (pause_json w b now))
      ≡ record { workspace_id = w; paused = b; updated_at = some now; reason = manual }
unfolding state_of_file valid_persisted_state persisted_fields persisted_of state_of_record
    pause_json
state_of_file-pause_json w b now n = ground (arith, eq_iff now "", eq_refl w)

-- What is written is what is read: after a pause or a resume of a valid workspace id the queue
-- reads as written, unless the operator's policy pauses all dispatch.
pub read-write :
    (h h' : Host) (w : String) (b : Bool) (d : Disk)
    → is_workspace_id w ≡ true
    → h.now ≢ ""
    → product_dispatch_paused h' d.policy_file ≡ false
    → result
        (read_workspace_queue_pause_state h' w)
        (after (write_workspace_queue_pause_state h w b) d)
      ≡ ok (record { workspace_id = w; paused = b; updated_at = some h.now; reason = manual })
unfolding read_workspace_queue_pause_state write_workspace_queue_pause_state
read-write h h' w b d i n p = ground (arith, state_of_file-pause_json w b h.now n)

-- Reading the switch writes nothing.
pub read_pause-after :
    (h : Host) (w : String) (d : Disk) → after (read_workspace_queue_pause_state h w) d ≡ d
unfolding read_workspace_queue_pause_state
read_pause-after h w d = ground arith

-- A valid workspace with no files and no pause in the environment reads as running.
pub read-no_files :
    (h : Host) (w : String) (d : Disk)
    → h.dispatch_env ≡ none
    → d.policy_file ≡ missing
    → d.queue_file ≡ missing
    → is_workspace_id w ≡ true
    → result (read_workspace_queue_pause_state h w) d
      ≡ ok (record { workspace_id = w; paused = false; updated_at = none; reason = default })
unfolding read_workspace_queue_pause_state state_of_file
read-no_files h w d e p q v = ground (arith, dispatch-unpaused h e)
