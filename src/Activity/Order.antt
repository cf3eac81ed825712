-- ===== src/Activity/Order.antt =====
-- The numbers in the log of src/session-plane/store.ts rise, whatever fails.
use mathlib.Core.Path.{subst}
use agents_with_chatgpt.Prelude.{
  ℕ, ◌+◌, ◌<◌, ◌≤◌, ◌≡◌, refl, sym, ap, ◌∙◌, Bool, true, false, Option, none, some, inl, inr, List,
  [], ◌∷◌, ◌++◌, length, arith, Bool-cases, if-holds, if◌then◌else◌,
}
use agents_with_chatgpt.Activity.{
  Fact, Line, blank, malformed, entry, Disk, Plane, load_line, load_lines, load_log, load_activity,
  ensure_loaded, numbered, remembered, append_lines, is_full, rotated, write_lines, written,
  append_fresh, append_loaded, append_activity,
}
use agents_with_chatgpt.Activity.Writing.{ensure_loaded-idle}

-- The numbers of the lines rise, each is above `lo` and none above `hi`.
abbrev pub Rising : ℕ → ℕ → List Line → Type 0
Rising lo hi [] = lo ≤ hi
Rising lo hi (entry e ∷ ls) = (lo < e.seq) × Rising e.seq hi ls
Rising lo hi (_ ∷ ls) = Rising lo hi ls

abbrev pub RisingLog : ℕ → Option (List Line) → Type 0
RisingLog hi none = Unit
RisingLog hi (some ls) = Rising 0 hi ls

-- The log rises, up to the last number where it is in memory.
pub record Ordered (s : Plane) : Type 0 where
  pub top : ℕ
  pub rises : RisingLog top s.disk.log
  pub below : s.activity_loaded ≡ true → top ≤ s.last_seq

Rising-le : (lo hi : ℕ) (ls : List Line) → Rising lo hi ls → lo ≤ hi
Rising-le lo hi [] h = h
Rising-le lo hi (blank ∷ ls) h = Rising-le lo hi ls h
Rising-le lo hi (malformed ∷ ls) h = Rising-le lo hi ls h
Rising-le lo hi (entry e ∷ ls) (h, rest) = omega (arith, Rising-le e.seq hi ls rest)

Rising-from : (lo mid hi : ℕ) (ls : List Line) → lo ≤ mid → Rising mid hi ls → Rising lo hi ls
Rising-from lo mid hi [] h a = omega arith
Rising-from lo mid hi (blank ∷ ls) h a = Rising-from lo mid hi ls h a
Rising-from lo mid hi (malformed ∷ ls) h a = Rising-from lo mid hi ls h a
Rising-from lo mid hi (entry e ∷ ls) h (first, rest) = (omega arith, rest)

Rising-to : (lo hi top : ℕ) (ls : List Line) → hi ≤ top → Rising lo hi ls → Rising lo top ls
Rising-to lo hi top [] h a = omega arith
Rising-to lo hi top (blank ∷ ls) h a = Rising-to lo hi top ls h a
Rising-to lo hi top (malformed ∷ ls) h a = Rising-to lo hi top ls h a
Rising-to lo hi top (entry e ∷ ls) h (first, rest) = (first, Rising-to e.seq hi top ls h rest)

Rising-append :
    (lo mid hi : ℕ) (xs ys : List Line)
    → Rising lo mid xs
    → Rising mid hi ys
    → Rising lo hi (xs ++ ys)
Rising-append lo mid hi [] ys a b = Rising-from lo mid hi ys a b
Rising-append lo mid hi (blank ∷ xs) ys a b = Rising-append lo mid hi xs ys a b
Rising-append lo mid hi (malformed ∷ xs) ys a b = Rising-append lo mid hi xs ys a b
Rising-append lo mid hi (entry e ∷ xs) ys (h, a) b = (h, Rising-append e.seq mid hi xs ys a b)

pub Rising-numbered :
    (lo n : ℕ) (fs : List Fact) → lo ≤ n → Rising lo (n + length fs) (numbered n fs)
unfolding numbered
Rising-numbered lo n [] h = omega arith
Rising-numbered lo n (f ∷ fs) h = (
  omega arith,
  Rising-to (n + 1) (n + 1 + length fs) (n + length (f ∷ fs)) (numbered (n + 1) fs) (omega arith)
      (Rising-numbered (n + 1) (n + 1) fs (omega arith)),
)

RisingLog-to :
    (hi top : ℕ) (log : Option (List Line)) → hi ≤ top → RisingLog hi log → RisingLog top log
RisingLog-to hi top none h a = tt
RisingLog-to hi top (some ls) h a = Rising-to 0 hi top ls h a

append_lines-Rising :
    (hi top : ℕ) (new : List Line) (d : Disk) (log : Option (List Line))
    → d.log ≡ log
    → RisingLog hi log
    → Rising hi top new
    → RisingLog top (append_lines new d).1.log
unfolding append_lines
append_lines-Rising hi top new d none at a b = elim (Bool-cases d.can_append) [
  | inl through ↦ rw (through, at) (Rising-from 0 hi top new (omega arith) b)
  | inr failed ↦ rw (failed, at) tt
]
append_lines-Rising hi top new d (some ls) at a b = elim (Bool-cases d.can_append) [
  | inl through ↦ rw (through, at) (Rising-append 0 hi top ls new a b)
  | inr failed ↦ rw (failed, at) (Rising-to 0 hi top ls (Rising-le hi top new b) a)
]

pub write_lines-none :
    (new : List Line) (d : Disk) → d.log ≡ none → write_lines new d ≡ append_lines new d
unfolding write_lines
write_lines-none new d at = ground arith

pub write_lines-some :
    (new : List Line) (d : Disk) (ls : List Line)
    → d.log ≡ some ls
    → d.can_read ≡ true
    → write_lines new d ≡ (if is_full d ls then rotated new ls d else append_lines new d)
unfolding write_lines
write_lines-some new d ls at reads = ground arith

rotated-Rising :
    (hi top : ℕ) (new ls : List Line) (d : Disk)
    → d.log ≡ some ls
    → Rising 0 hi ls
    → Rising hi top new
    → RisingLog top (rotated new ls d).1.log
unfolding rotated
rotated-Rising hi top new ls d at a b =
    let clear : Disk = record d { log = none; old = some ls } in
    if-holds (λ (r : Bool × Disk). RisingLog top r.1.log) d.can_rename
      (append_lines-Rising hi top new clear none refl tt b)
      (subst (RisingLog top) (sym at) (Rising-to 0 hi top ls (Rising-le hi top new b) a))

write_lines-Rising :
    (hi top : ℕ) (new : List Line) (d : Disk) (log : Option (List Line))
    → d.log ≡ log
    → d.can_read ≡ true
    → RisingLog hi log
    → Rising hi top new
    → RisingLog top (write_lines new d).1.log
unfolding write_lines
write_lines-Rising hi top new d none at reads a b =
    subst (λ r. RisingLog top r.1.log) (sym (write_lines-none new d at))
      (append_lines-Rising hi top new d none at a b)
write_lines-Rising hi top new d (some ls) at reads a b =
    subst (λ r. RisingLog top r.1.log) (sym (write_lines-some new d ls at reads))
      (if-holds (λ (r : Bool × Disk). RisingLog top r.1.log) (is_full d ls)
        (rotated-Rising hi top new ls d at a b) (append_lines-Rising hi top new d (some ls) at a b))

load_lines-Rising :
    (lo hi : ℕ) (ls : List Line) (s : Plane)
    → s.last_seq ≡ lo
    → Rising lo hi ls
    → Rising lo (load_lines ls s).last_seq ls
unfolding load_lines load_line
load_lines-Rising lo hi [] s at h = omega arith
load_lines-Rising lo hi (blank ∷ ls) s at h = load_lines-Rising lo hi ls s at h
load_lines-Rising lo hi (malformed ∷ ls) s at h = load_lines-Rising lo hi ls s at h
load_lines-Rising lo hi (entry e ∷ ls) s at (first, rest) =
    (first, load_lines-Rising e.seq hi ls (load_line (entry e) s) (ground arith) rest)

load_lines-disk :
    (ls : List Line) (s : Plane)
    → ((load_lines ls s).disk ≡ s.disk) × ((load_lines ls s).has_dir ≡ s.has_dir)
unfolding load_lines load_line
load_lines-disk [] s = (refl, refl)
load_lines-disk (blank ∷ ls) s = load_lines-disk ls s
load_lines-disk (malformed ∷ ls) s = load_lines-disk ls s
load_lines-disk (entry e ∷ ls) s = load_lines-disk ls (load_line (entry e) s)

abbrev pub empty : Plane → Plane
empty s = record s { activity_keys = []; last_seq = 0; activity_loaded = true }

load_log-some :
    (ls : List Line) (s : Plane) → s.disk.can_read ≡ true → load_log (some ls) s ≡ load_lines ls s
unfolding load_log
load_log-some ls s reads = ground arith

load_log-Rising :
    (s : Plane) (hi : ℕ) (log : Option (List Line))
    → s.disk.can_read ≡ true
    → RisingLog hi log
    → RisingLog (load_log log (empty s)).last_seq log
load_log-Rising s hi none reads h = tt
load_log-Rising s hi (some ls) reads h =
    subst (λ t. Rising 0 t.last_seq ls) (sym (load_log-some ls (empty s) reads))
      (load_lines-Rising 0 hi ls (empty s) refl h)

pub load_log-disk :
    (log : Option (List Line)) (s : Plane)
    → ((load_log log s).disk ≡ s.disk) × ((load_log log s).has_dir ≡ s.has_dir)
unfolding load_log
load_log-disk none s = (refl, refl)
load_log-disk (some ls) s = ground (arith, load_lines-disk ls s)

-- A store that is in memory, with its log up to the last number.
pub record Up (s : Plane) : Type 0 where
  pub rises : RisingLog s.last_seq s.disk.log
  pub dir : s.has_dir ≡ true
  pub reads : s.disk.can_read ≡ true

pub load_activity-log :
    (s : Plane) → s.has_dir ≡ true → load_activity s ≡ load_log s.disk.log (empty s)
unfolding load_activity
load_activity-log s dir = ground arith

loaded-Up :
    (s : Plane) → Ordered s → s.has_dir ≡ true → s.disk.can_read ≡ true → Up (load_activity s)
loaded-Up s o dir reads =
    let (disk, has) = load_log-disk s.disk.log (empty s) in
    subst Up (sym (load_activity-log s dir)) (record {
      rises =
          subst (λ d. RisingLog (load_log s.disk.log (empty s)).last_seq d.log) (sym disk)
            (load_log-Rising s o.top s.disk.log reads o.rises);
      dir = has ∙ dir;
      reads = ap (λ d. d.can_read) disk ∙ reads;
    })

pub ensure_loaded-fresh :
    (s : Plane) → s.activity_loaded ≡ false → ensure_loaded s ≡ load_activity s
unfolding ensure_loaded
ensure_loaded-fresh s h = ground arith

pub ensure_loaded-Up :
    (s : Plane) → Ordered s → s.has_dir ≡ true → s.disk.can_read ≡ true → Up (ensure_loaded s)
ensure_loaded-Up s o dir reads = elim (Bool-cases s.activity_loaded) [
  | inl loaded ↦ subst Up (sym (ensure_loaded-idle s loaded)) (record {
    rises = RisingLog-to o.top s.last_seq s.disk.log (o.below loaded) o.rises;
    dir = dir;
    reads = reads;
  })
  | inr fresh ↦ subst Up (sym (ensure_loaded-fresh s fresh)) (loaded-Up s o dir reads)
]

pub append_fresh-dir :
    (f : Fact) (fs : List Fact) (s : Plane)
    → s.has_dir ≡ true
    → append_fresh (f ∷ fs) s ≡ written (f ∷ fs) s
unfolding append_fresh
append_fresh-dir f fs s dir = ground arith

append_fresh-Ordered : (fs : List Fact) (s : Plane) → Up s → Ordered (append_fresh fs s).1
unfolding append_fresh written remembered
append_fresh-Ordered [] s u = record { top = s.last_seq; rises = u.rises; below = λ _. omega arith }
append_fresh-Ordered (f ∷ fs) s u =
    let new : List Fact = f ∷ fs in
    subst (λ r. Ordered r.1) (sym (append_fresh-dir f fs s u.dir))
      (record {
        top = s.last_seq + length new;
        rises =
            write_lines-Rising s.last_seq (s.last_seq + length new) (numbered s.last_seq new) s.disk
              s.disk.log refl u.reads u.rises
              (Rising-numbered s.last_seq s.last_seq new (omega arith));
        below = λ _. omega arith;
      })

-- Whether the log can be renamed and appended to or not, where it can be read, its numbers rise from
-- line to line after a call as before it, and are at most the last number that the store remembers.
pub append-Ordered :
    (fs : List Fact) (s : Plane)
    → s.has_dir ≡ true
    → s.disk.can_read ≡ true
    → Ordered s
    → Ordered (append_activity fs s).1
unfolding append_activity append_loaded
append-Ordered [] s dir reads o = o
append-Ordered (f ∷ fs) s dir reads o =
    append_fresh-Ordered _ (ensure_loaded s) (ensure_loaded-Up s o dir reads)
