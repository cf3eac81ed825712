-- ===== src/Activity/Tests.antt =====
-- Tests of the log of activities.
use agents_with_chatgpt.Prelude.{
  ◌≤◌, ◌≡◌, refl, String, true, false, none, some, List, [], ◌∷◌, ◌++◌, length, arith, includes,
  slice_to,
}
use agents_with_chatgpt.Activity.{
  Fact, Line, entry, Disk, Plane, Filter, append_activity, select_events, page_limit, stored_fact,
  numbered,
}
use agents_with_chatgpt.Activity.Writing.{append-twice}
use agents_with_chatgpt.Activity.Journal.{Tracks, Works, publish}
use agents_with_chatgpt.Activity.Journal.Publishing.{append-Tracks}
use agents_with_chatgpt.Activity.Paging.{selected, last_of, after, page-continues}

abbrev fact : String → Fact
fact k = record {
  key = k;
  at = "2026-01-01";
  kind = "task.created";
  provider = "codex";
  workspace_id = some "ws_main";
  session_id = none;
  task_id = none;
  summary = "made";
  output_ref = none;
}

abbrev disk : Disk
disk = record {
  log = some (entry (record { seq = 1; fact = fact "a" }) ∷ []);
  old = none;
  size = 100;
  can_read = true;
  can_rename = true;
  can_append = true;
}

-- after a restart
abbrev plane : Plane
plane = record {
  activity_keys = [];
  last_seq = 0;
  activity_loaded = false;
  has_dir = true;
  disk = disk;
}

abbrev facts : List Fact
facts = fact "a" ∷ fact "b" ∷ []

append-twice_example :
    append_activity facts (append_activity facts plane).1 ≡ (0, (append_activity facts plane).1)
append-twice_example = append-twice facts plane

tracks : Tracks plane (fact "a" ∷ [])
unfolding numbered stored_fact slice_to
tracks = record { on_disk = refl; short = (refl, tt); in_memory = λ h. absurd (cc) }

works : Works plane (fact "a" ∷ [])
works = record { dir = refl; reads = refl; appends = refl; few = omega arith; small = omega arith }

append-Tracks_example :
    Tracks (append_activity facts plane).1 (publish facts (fact "a" ∷ []))
    × ((append_activity facts plane).0 ≡ 1)
unfolding includes stored_fact slice_to
append-Tracks_example = append-Tracks facts plane (fact "a" ∷ []) tracks works (refl, (refl, tt))

abbrev lines : List Line
lines =
    entry (record { seq = 1; fact = fact "a" }) ∷ entry (record { seq = 2; fact = fact "b" }) ∷ []

abbrev filter : Filter
filter = record { after_seq = none; provider = none; session_id = none; workspace_id = none }

page-continues_example :
    (length (select_events (after 0 filter) (page_limit (some 1)) lines) ≤ 100)
    × (select_events (after 0 filter) (page_limit (some 1)) lines
          ++ selected
              (after
                (last_of 0 (select_events (after 0 filter) (page_limit (some 1)) lines))
                filter)
              lines
        ≡ selected (after 0 filter) lines)
page-continues_example =
    page-continues 0 2 filter (some 1) lines (omega arith, (omega arith, omega arith))
