-- ===== src/Activity/Journal/Loading.antt =====
-- What `loadActivity` of src/session-plane/store.ts reads back of a journal.
use mathlib.Core.Path.{subst}
use agents_with_chatgpt.Prelude.{
  ℕ, ◌+◌, ◌≡◌, refl, sym, ap, ◌∙◌, String, true, false, ◌||◌, Option, none, some, inl, inr, List,
  [], ◌∷◌, length, All, includes, arith, Bool-cases, ◌==◌,
}
use agents_with_chatgpt.Activity.{
  Fact, Event, Line, entry, Plane, load_line, load_lines, load_log, load_activity, ensure_loaded,
  stored_fact, numbered,
}
use agents_with_chatgpt.Activity.Writing.{keys_of, ensure_loaded-idle}
use agents_with_chatgpt.Activity.Journal.{Journal, Short, lines_of, Tracks, Works}

record Loaded (s t : Plane) (j : List Fact) : Type 0 where
  pub last : t.last_seq ≡ s.last_seq + length j
  pub known :
      (k : String)
      → includes k t.activity_keys ≡ (includes k (keys_of j) || includes k s.activity_keys)
  pub disk : t.disk ≡ s.disk
  pub dir : t.has_dir ≡ s.has_dir
  pub loaded : t.activity_loaded ≡ s.activity_loaded

load_line-next :
    (n : ℕ) (f : Fact) (s : Plane)
    → s.last_seq ≡ n
    → Short f
    → Loaded s (load_line (entry (record { seq = n + 1; fact = stored_fact f })) s) (f ∷ [])
unfolding load_line includes
load_line-next n f s at short = record {
  last = ground arith;
  known = λ k. ground (arith, ap (λ g. g.key == k) short);
  disk = refl;
  dir = refl;
  loaded = refl;
}

Loaded-step :
    (f : Fact) (fs : List Fact) (s t u : Plane)
    → Loaded s t (f ∷ [])
    → Loaded t u fs
    → Loaded s u (f ∷ fs)
unfolding includes
Loaded-step f fs s t u a b = record {
  last = omega (arith, a.last, b.last);
  known = λ k. ground (arith, a.known k, b.known k);
  disk = b.disk ∙ a.disk;
  dir = b.dir ∙ a.dir;
  loaded = b.loaded ∙ a.loaded;
}

load_lines-numbered :
    (n : ℕ) (j : List Fact) (s : Plane)
    → s.last_seq ≡ n
    → All Short j
    → Loaded s (load_lines (numbered n j) s) j
unfolding load_lines numbered includes
load_lines-numbered n [] s at h = record {
  last = omega arith;
  known = λ k. refl;
  disk = refl;
  dir = refl;
  loaded = refl;
}
load_lines-numbered n (f ∷ fs) s at (short, shorts) =
    let e : Event = record { seq = n + 1; fact = stored_fact f } in
    let a = load_line-next n f s at short in
    Loaded-step f fs s (load_line (entry e) s) _ a
      (load_lines-numbered (n + 1) fs (load_line (entry e) s) (omega (arith, a.last, at)) shorts)

abbrev empty : Plane → Plane
empty s = record s { activity_keys = []; last_seq = 0; activity_loaded = true }

abbrev pub log_lines : Option (List Line) → List Line
log_lines log = elim log [ none ↦ [] | some ls ↦ ls ]

load_log-lines :
    (log : Option (List Line)) (s : Plane)
    → s.disk.can_read ≡ true
    → load_log log s ≡ load_lines (log_lines log) s
unfolding load_log load_lines
load_log-lines none s reads = refl
load_log-lines (some ls) s reads = ground arith

ensure_loaded-load :
    (s : Plane)
    → s.activity_loaded ≡ false
    → s.has_dir ≡ true
    → s.disk.can_read ≡ true
    → ensure_loaded s ≡ load_lines (lines_of s.disk) (empty s)
unfolding ensure_loaded load_activity
ensure_loaded-load s fresh dir reads = ground (arith, load_log-lines s.disk.log (empty s) reads)

Loaded-Tracks :
    (s t : Plane) (j : Journal)
    → Tracks s j
    → Works s j
    → Loaded (empty s) t j
    → Tracks t j × Works t j
unfolding includes
Loaded-Tracks s t j a w l = (
  record {
    on_disk = ap lines_of l.disk ∙ a.on_disk;
    short = a.short;
    in_memory = λ h. (omega (arith, l.last), λ k. ground (arith, l.known k));
  },
  record {
    dir = l.dir ∙ w.dir;
    reads = ap (λ d. d.can_read) l.disk ∙ w.reads;
    appends = ap (λ d. d.can_append) l.disk ∙ w.appends;
    few = w.few;
    small = ground (arith, ap (λ d. d.size) l.disk, w.small);
  },
)

pub ensure_loaded-Tracks :
    (s : Plane) (j : Journal)
    → Tracks s j
    → Works s j
    → Tracks (ensure_loaded s) j × Works (ensure_loaded s) j
ensure_loaded-Tracks s j t w = elim (Bool-cases s.activity_loaded) [
  | inl loaded ↦ subst (λ d. Tracks d j × Works d j) (sym (ensure_loaded-idle s loaded)) (t, w)
  | inr fresh ↦
      subst (λ d. Tracks d j × Works d j)
        (sym
          (ensure_loaded-load s fresh w.dir w.reads ∙ ap (λ ls. load_lines ls (empty s)) t.on_disk))
        (Loaded-Tracks s _ j t w (load_lines-numbered 0 j (empty s) refl t.short))
]
