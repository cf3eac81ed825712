-- ===== src/Activity/Continuing.antt =====
-- What a call of `appendActivity` of src/session-plane/store.ts leaves of the log, and how the numbers
-- go on.
use agents_with_chatgpt.Prelude.{ℕ, ◌+◌, ◌≡◌, none, some, List, ◌++◌, length}
use agents_with_chatgpt.Activity.{Fact, Line, Disk, Plane, load_activity, numbered}
use agents_with_chatgpt.Activity.Order.{Rising}

-- What becomes of the log, where the numbers of what was there end with `hi` and these facts are new:
-- the lines that are written number them from there on.
pub data Continued (hi : ℕ) (fs : List Fact) (before left : Disk) : Type 0 where
  -- nothing was new, or the write failed
  kept : left.log ≡ before.log → Continued hi fs before left
  started :
      before.log ≡ none
      → left.log ≡ some (numbered hi fs)
      → Rising hi (hi + length fs) (numbered hi fs)
      → Continued hi fs before left
  extended :
      (ls : List Line)
      → before.log ≡ some ls
      → left.log ≡ some (ls ++ numbered hi fs)
      → Rising hi (hi + length fs) (numbered hi fs)
      → Continued hi fs before left
  -- it was full, and is the old log now
  renewed :
      (ls : List Line)
      → before.log ≡ some ls
      → left.old ≡ some ls
      → left.log ≡ some (numbered hi fs)
      → Rising hi (hi + length fs) (numbered hi fs)
      → Continued hi fs before left
  -- it was renamed, and then the write failed: a store that starts with this disk counts from 0
  lost :
      (ls : List Line)
      → before.log ≡ some ls
      → left.old ≡ some ls
      → left.log ≡ none
      → ((s : Plane) → s.disk ≡ left → (load_activity s).last_seq ≡ 0)
      → Continued hi fs before left
