-- ===== src/Activity/Journal.antt =====
-- src/session-plane/store.ts as a journal: a list of facts in which each key is published once. The
-- log file with its numbers, the keys in memory and a restart, which loads them again, implement it.
pub mod Loading
pub mod Publishing
use mathlib.Core.Path.{subst}
use agents_with_chatgpt.Prelude.{
  ℕ, ◌+◌, ◌*◌, ◌<◌, ◌≤◌, ◌≡◌, refl, sym, ap, ◌∙◌, String, Bool, true, false, ◌&&◌, ◌||◌, not,
  Option, none, some, inl, inr, List, [], ◌∷◌, ◌++◌, map, length, keep, All, All-append, All-keep,
  includes, includes-append, slice_to, arith, eq_iff, eq_refl, Bool-cases, ◌==◌, if◌then◌else◌,
  length-append, length-keep-le, ltb, leb, lt→ltb,
}
use agents_with_chatgpt.Activity.{
  Fact, Event, Line, blank, malformed, entry, Disk, Plane, max_activity_events, load_line,
  load_lines, load_log, load_activity, ensure_loaded, is_fresh, stored_fact, numbered, remembered,
  is_blank_line, append_lines, is_full, rotated, write_lines, written, append_fresh, append_loaded,
  append_activity,
}
use agents_with_chatgpt.Activity.Writing.{keys_of, ensure_loaded-idle, ensure_loaded-loaded}

abbrev pub Journal : Type 0
Journal = List Fact

-- A fact with a key that the journal does not have.
abbrev pub is_new : Journal → Fact → Bool
is_new j f = not (f.key == "") && not (includes f.key (keys_of j))

abbrev pub publish : List Fact → Journal → Journal
publish fs j = j ++ keep (is_new j) fs

-- what is cut off when a fact is written is nothing
abbrev pub Short : Fact → Type 0
Short f = stored_fact f ≡ f

abbrev pub lines_of : Disk → List Line
lines_of d = elim d.log [ none ↦ [] | some ls ↦ ls ]

-- The log holds the journal, numbered from 1, and so does the memory once it is loaded.
pub record Tracks (s : Plane) (j : Journal) : Type 0 where
  pub on_disk : lines_of s.disk ≡ numbered 0 j
  pub short : All Short j
  pub in_memory :
      s.activity_loaded ≡ true
      → (s.last_seq ≡ length j)
        × ((k : String) → includes k s.activity_keys ≡ includes k (keys_of j))

-- There is a directory, its file can be read and appended to, and is below both limits.
pub record Works (s : Plane) (j : Journal) : Type 0 where
  pub dir : s.has_dir ≡ true
  pub reads : s.disk.can_read ≡ true
  pub appends : s.disk.can_append ≡ true
  pub few : length j < max_activity_events
  pub small : s.disk.size ≤ 8 * 1024 * 1024
