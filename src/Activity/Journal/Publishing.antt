-- ===== src/Activity/Journal/Publishing.antt =====
-- What `appendActivity` of src/session-plane/store.ts adds to a journal.
use mathlib.Core.Path.{subst}
use agents_with_chatgpt.Prelude.{
  ℕ, ◌+◌, ◌*◌, ◌<◌, ◌≤◌, ◌≡◌, refl, sym, ap, ◌∙◌, Bool, true, not, Option, none, some, List, [],
  ◌∷◌, ◌++◌, length, keep, All, All-append, All-keep, includes-append, arith, length-append,
  length-keep-le,
}
use agents_with_chatgpt.Activity.{
  Fact, Line, entry, Disk, Plane, max_activity_events, ensure_loaded, is_fresh, stored_fact,
  numbered, remembered, is_blank_line, append_lines, is_full, write_lines, written, append_fresh,
  append_loaded, append_activity,
}
use agents_with_chatgpt.Activity.Writing.{keys_of, ensure_loaded-loaded}
use agents_with_chatgpt.Activity.Journal.{Journal, is_new, publish, Short, lines_of, Tracks, Works}
use agents_with_chatgpt.Activity.Journal.Loading.{log_lines, ensure_loaded-Tracks}

length-numbered : (n : ℕ) (j : List Fact) → length (numbered n j) ≡ length j
unfolding numbered
length-numbered n [] = refl
length-numbered n (f ∷ fs) = omega (arith, length-numbered (n + 1) fs)

numbered-append :
    (n : ℕ) (xs ys : List Fact)
    → numbered n (xs ++ ys) ≡ numbered n xs ++ numbered (n + length xs) ys
unfolding numbered
numbered-append n [] ys = ap (λ m. numbered m ys) (omega arith)
numbered-append n (f ∷ fs) ys =
    ap (◌∷◌ (entry (record { seq = n + 1; fact = stored_fact f })))
      (numbered-append (n + 1) fs ys ∙ ap (λ m. numbered (n + 1) fs ++ numbered m ys) (omega arith))

-- A log below the limits takes what is appended.
write_lines-small :
    (new : List Line) (log : Option (List Line)) (d : Disk)
    → d.log ≡ log
    → d.can_read ≡ true
    → d.can_append ≡ true
    → length (log_lines log) < max_activity_events
    → d.size ≤ 8 * 1024 * 1024
    → ((write_lines new d).0 ≡ true) × (lines_of (write_lines new d).1 ≡ log_lines log ++ new)
unfolding write_lines append_lines is_full
write_lines-small new none d at reads appends few small = ground arith
write_lines-small new (some ls) d at reads appends few small =
    ground (arith, length-keep-le (λ l. not (is_blank_line l)) ls)

keys_of-append : (xs ys : List Fact) → keys_of (xs ++ ys) ≡ keys_of xs ++ keys_of ys
keys_of-append [] ys = refl
keys_of-append (f ∷ fs) ys = ap (◌∷◌ f.key) (keys_of-append fs ys)

append_nil : (xs : List Fact) → xs ++ [] ≡ xs
append_nil [] = refl
append_nil (f ∷ fs) = ap (◌∷◌ f) (append_nil fs)

written-Tracks :
    (new : List Fact) (s : Plane) (j : Journal)
    → s.activity_loaded ≡ true
    → Tracks s j
    → Works s j
    → All Short new
    → Tracks (written new s).1 (j ++ new) × ((written new s).0 ≡ length new)
unfolding written remembered
written-Tracks new s j loaded t w h =
    let few : length (lines_of s.disk) < max_activity_events =
      omega (arith, ap length t.on_disk, length-numbered 0 j, w.few) in
    let (through, lines) =
      write_lines-small (numbered s.last_seq new) s.disk.log s.disk refl w.reads w.appends few
        w.small in
    let (last, known) = t.in_memory loaded in
    (
      record {
        on_disk =
            lines
            ∙ ap (λ ls. ls ++ numbered s.last_seq new) t.on_disk
            ∙ ap (λ n. numbered 0 j ++ numbered n new) (omega (arith, last))
            ∙ sym (numbered-append 0 j new);
        short = All-append Short j new t.short h;
        in_memory = λ _. (
          omega (arith, last, length-append j new),
          λ k. ground (
            arith,
            known k,
            keys_of-append j new,
            includes-append k (keys_of j) (keys_of new),
            includes-append k (keys_of new) s.activity_keys,
          ),
        );
      },
      ground (arith, through),
    )

append_fresh-written :
    (f : Fact) (fs : List Fact) (s : Plane)
    → s.has_dir ≡ true
    → append_fresh (f ∷ fs) s ≡ written (f ∷ fs) s
unfolding append_fresh
append_fresh-written f fs s dir = ground arith

append_fresh-Tracks :
    (new : List Fact) (s : Plane) (j : Journal)
    → s.activity_loaded ≡ true
    → Tracks s j
    → Works s j
    → All Short new
    → Tracks (append_fresh new s).1 (j ++ new) × ((append_fresh new s).0 ≡ length new)
unfolding append_fresh
append_fresh-Tracks [] s j loaded t w h = (rw (append_nil j) t, refl)
append_fresh-Tracks (f ∷ fs) s j loaded t w h =
    subst (λ r. Tracks r.1 (j ++ f ∷ fs) × (r.0 ≡ length (f ∷ fs)))
      (sym (append_fresh-written f fs s w.dir)) (written-Tracks (f ∷ fs) s j loaded t w h)

keep-same : (p q : Fact → Bool) (fs : List Fact) → ((f : Fact) → p f ≡ q f) → keep p fs ≡ keep q fs
keep-same p q [] h = refl
keep-same p q (f ∷ fs) h = ground (arith, h f, keep-same p q fs h)

append_loaded-Tracks :
    (fs : List Fact) (s : Plane) (j : Journal)
    → s.activity_loaded ≡ true
    → Tracks s j
    → Works s j
    → All Short fs
    → Tracks (append_loaded fs s).1 (publish fs j)
      × ((append_loaded fs s).0 ≡ length (keep (is_new j) fs))
unfolding append_loaded is_fresh
append_loaded-Tracks fs s j loaded t w h =
    let (last, known) = t.in_memory loaded in
    let same =
      keep-same (is_fresh s.activity_keys) (is_new j) fs (λ f. ground (arith, known f.key)) in
    subst
      (λ xs.
        Tracks (append_fresh xs s).1 (publish fs j)
        × ((append_fresh xs s).0 ≡ length (keep (is_new j) fs)))
      (sym same)
      (append_fresh-Tracks (keep (is_new j) fs) s j loaded t w (All-keep Short (is_new j) fs h))

-- While the log can be read and appended to and is below its limits, and no key or summary is cut
-- off, the store publishes to the journal: what is appended is what the journal does not have yet,
-- in the order given, and the number returned says how many; this goes on after a restart, when
-- nothing is in memory.
pub append-Tracks :
    (fs : List Fact) (s : Plane) (j : Journal)
    → Tracks s j
    → Works s j
    → All Short fs
    → Tracks (append_activity fs s).1 (publish fs j)
      × ((append_activity fs s).0 ≡ length (keep (is_new j) fs))
unfolding append_activity
append-Tracks [] s j t w h = (rw (append_nil j) t, refl)
append-Tracks (f ∷ fs) s j t w h =
    let (t', w') = ensure_loaded-Tracks s j t w in
    append_loaded-Tracks (f ∷ fs) (ensure_loaded s) j (ensure_loaded-loaded s) t' w' h
