-- ===== src/Activity.antt =====
-- src/session-plane/store.ts: the log of what agents did. A file has one line for each fact, with its
-- number; what was written is remembered by its key, so that a later projection of the same facts
-- writes nothing. Of the file system this has the file, the one it is renamed to, and which of the
-- calls on them go through.
pub mod Writing
pub mod Order
pub mod Continuing
pub mod Paging
pub mod Journal
pub mod Sessions
mod Tests
use agents_with_chatgpt.Prelude.{
  ℕ, ◌+◌, ◌*◌, String, Bool, true, false, ◌&&◌, ◌||◌, not, Option, none, some, Exec, Result, ok,
  err, pure, List, [], ◌∷◌, ◌++◌, map, length, take, last_n, keep, ltb, leb, nat_eq, zero, suc,
  includes, opt_eq, slice_to, ◌==◌, if◌then◌else◌,
}

-- `AppendableActivityEvent`
pub record Fact : Type 0 where
  pub key : String
  pub at : String
  pub kind : String
  pub provider : String
  pub workspace_id : Option String
  pub session_id : Option String
  pub task_id : Option String
  pub summary : String
  pub output_ref : Option (String × ℕ)

-- `AgentActivityEvent`: the fact, with its number
pub record Event : Type 0 where
  pub seq : ℕ
  pub fact : Fact

-- A line is empty, no JSON, or an event.
pub data Line : Type 0 where
  blank malformed : Line
  entry : Event → Line

pub record Disk : Type 0 where
  -- activity.jsonl, and activity.jsonl.1
  pub log : Option (List Line)
  pub old : Option (List Line)
  -- statSync(file).size
  pub size : ℕ
  pub can_read : Bool
  pub can_rename : Bool
  pub can_append : Bool

-- `AgentPlaneStore`, and the disk. With no state directory, it lives in the process only.
pub record Plane : Type 0 where
  pub activity_keys : List String
  pub last_seq : ℕ
  pub activity_loaded : Bool
  pub has_dir : Bool
  pub disk : Disk

abbrev pub max_activity_events : ℕ
max_activity_events = 4000

-- one line of the loop of `loadActivity`
load_line : Line → Plane → Plane
load_line (entry e) s = record s {
  last_seq = if ltb s.last_seq e.seq then e.seq else s.last_seq;
  activity_keys = e.fact.key ∷ s.activity_keys;
}
load_line _ s = s

load_lines : List Line → Plane → Plane
load_lines [] s = s
load_lines (l ∷ ls) s = load_lines ls (load_line l s)

pub load_log : Option (List Line) → Plane → Plane
load_log none s = s
load_log (some ls) s = if s.disk.can_read then load_lines ls s else s

-- `loadActivity`
unfoldable pub load_activity : Plane → Plane
unfolding load_line load_lines load_log
load_activity s =
    let s' = record s { activity_keys = []; last_seq = 0; activity_loaded = true } in
    if s.has_dir then load_log s.disk.log s' else s'

pub ensure_loaded : Plane → Plane
ensure_loaded s = if s.activity_loaded then s else load_activity s

-- what the filter lets through: a key, and not one that is known before the call
pub is_fresh : List String → Fact → Bool
is_fresh keys f = not (f.key == "") && not (includes f.key keys)

-- what is written of a fact
unfoldable pub stored_fact : Fact → Fact
stored_fact f = record f { key = slice_to 200 f.key; summary = slice_to 300 f.summary }

-- the loop that numbers the facts
unfoldable pub numbered : ℕ → List Fact → List Line
numbered n [] = []
numbered n (f ∷ fs) = entry (record { seq = n + 1; fact = stored_fact f }) ∷ numbered (n + 1) fs

-- the keys and the last number, which the loop keeps also when the write fails
remembered : List Fact → Plane → Plane
remembered fs s = record s {
  activity_keys = map (λ f. f.key) fs ++ s.activity_keys;
  last_seq = s.last_seq + length fs;
}

is_blank_line : Line → Bool
is_blank_line blank = true
is_blank_line _ = false

pub append_lines : List Line → Disk → Bool × Disk
append_lines new d =
    if d.can_append
    then (true, record d { log = some (elim d.log [ none ↦ new | some ls ↦ ls ++ new ]) })
    else (false, d)

pub is_full : Disk → List Line → Bool
is_full d ls =
    leb max_activity_events (length (keep (λ l. not (is_blank_line l)) ls))
    || ltb (8 * 1024 * 1024) d.size

pub rotated : List Line → List Line → Disk → Bool × Disk
rotated new ls d =
    if d.can_rename then append_lines new (record d { log = none; old = some ls }) else (false, d)

-- the `try` block of `appendActivity`: whether it got through, and the disk after it
pub write_lines : List Line → Disk → Bool × Disk
write_lines new d = elim d.log [
  | none ↦ append_lines new d
  | some ls ↦
      if not d.can_read
      then (false, d)
      else if is_full d ls
      then rotated new ls d
      else append_lines new d
]

pub written : List Fact → Plane → ℕ × Plane
written fs s =
    let (through, d) = write_lines (numbered s.last_seq fs) s.disk in
    (if through then length fs else 0, record (remembered fs s) { disk = d })

pub append_fresh : List Fact → Plane → ℕ × Plane
append_fresh [] s = (0, s)
append_fresh (f ∷ fs) s =
    if s.has_dir then written (f ∷ fs) s else (length (f ∷ fs), remembered (f ∷ fs) s)

append_loaded : List Fact → Plane → ℕ × Plane
append_loaded fs s = append_fresh (keep (is_fresh s.activity_keys) fs) s

-- `appendActivity`: the number of events written
pub append_activity : List Fact → Plane → ℕ × Plane
append_activity [] s = (0, s)
append_activity (f ∷ fs) s = append_loaded (f ∷ fs) (ensure_loaded s)

-- the filters of `readActivity`, each for no value or any
pub record Filter : Type 0 where
  pub after_seq : Option ℕ
  pub provider : Option String
  pub session_id : Option String
  pub workspace_id : Option String

pub past : Option ℕ → ℕ → Bool
past none n = true
past (some a) n = ltb a n

-- `!wanted || value === wanted`
pub wants : Option String → Option String → Bool
wants none v = true
wants (some w) v = w == "" || opt_eq v (some w)

pub selects : Filter → Event → Bool
selects q e =
    past q.after_seq e.seq
    && wants q.provider (some e.fact.provider)
    && wants q.session_id e.fact.session_id
    && wants q.workspace_id e.fact.workspace_id

-- the loop of `readActivity`, which stops once it has `limit` events
pub select_events : Filter → ℕ → List Line → List Event
select_events q zero ls = []
select_events q (suc n) [] = []
select_events q (suc n) (entry e ∷ ls) =
    let rest = select_events q n ls in
    let others = select_events q (suc n) ls in if selects q e then e ∷ rest else others
select_events q (suc n) (_ ∷ ls) = select_events q (suc n) ls

-- Math.max(1, Math.min(limit ?? 50, 100))
pub page_limit : Option ℕ → ℕ
page_limit none = 50
page_limit (some n) = if nat_eq n 0 then 1 else if ltb 100 n then 100 else n

read_log : Filter → Option ℕ → Disk → List Event
read_log q limit d = elim d.log [
  | none ↦ []
  | some ls ↦ if d.can_read then select_events q (page_limit limit) ls else []
]

-- `readActivity`: the events and the last number, and the store, which it may have loaded
pub read_activity : Filter → Option ℕ → Plane → (List Event × ℕ) × Plane
read_activity q limit s =
    let s' = ensure_loaded s in
    ((if s'.has_dir then read_log q limit s'.disk else [], s'.last_seq), s')
