-- ===== src/Activity/Writing.antt =====
-- What src/session-plane/store.ts writes, against a journal that holds each fact once.
use agents_with_chatgpt.Prelude.{
  ◌≡◌, refl, ap, ◌∙◌, String, Bool, true, false, Option, none, some, inl, inr, List, [], ◌∷◌, ◌++◌,
  map, keep, includes, includes-append, arith, eq_refl, Bool-cases,
}
use agents_with_chatgpt.Activity.{
  Fact, Line, blank, malformed, entry, Plane, load_line, load_lines, load_log, load_activity,
  ensure_loaded, is_fresh, remembered, written, append_fresh, append_loaded, append_activity,
}

abbrev pub keys_of : List Fact → List String
keys_of fs = map (λ f. f.key) fs

includes-kept :
    (p : Fact → Bool) (k : String) (f : Fact) (fs : List Fact)
    → includes k (keys_of (keep p fs)) ≡ true
    → includes k (keys_of (keep p (f ∷ fs))) ≡ true
unfolding includes
includes-kept p k f fs h = ground arith

includes-kept_head :
    (p : Fact → Bool) (f : Fact) (fs : List Fact)
    → p f ≡ true
    → includes f.key (keys_of (keep p (f ∷ fs))) ≡ true
unfolding includes
includes-kept_head p f fs h = ground (arith, eq_refl f.key)

known-not_fresh :
    (keys : List String) (f : Fact) → includes f.key keys ≡ true → is_fresh keys f ≡ false
unfolding is_fresh
known-not_fresh keys f h = ground arith

not_fresh-more :
    (keys more : List String) (f : Fact)
    → is_fresh keys f ≡ false
    → (includes f.key keys ≡ true → includes f.key more ≡ true)
    → is_fresh more f ≡ false
unfolding is_fresh
not_fresh-more keys more f h up = ground arith

-- Facts that are not fresh beside `keys` are not fresh beside more.
keep-known :
    (keys more : List String) (fs : List Fact)
    → ((k : String)
        → includes k (keys_of (keep (is_fresh keys) fs)) ≡ true
        → includes k more ≡ true)
    → ((k : String) → includes k keys ≡ true → includes k more ≡ true)
    → keep (is_fresh more) fs ≡ []
keep-known keys more [] new old = refl
keep-known keys more (f ∷ fs) new old =
    let p : Fact → Bool = is_fresh keys in
    let rest = keep-known keys more fs (λ k h. new k (includes-kept p k f fs h)) old in
    let gone : is_fresh more f ≡ false = elim (Bool-cases (p f)) [
      | inl fresh ↦ known-not_fresh more f (new f.key (includes-kept_head p f fs fresh))
      | inr known ↦ not_fresh-more keys more f known (old f.key)
    ] in
    rw gone rest

load_lines-loaded :
    (ls : List Line) (s : Plane) → (load_lines ls s).activity_loaded ≡ s.activity_loaded
unfolding load_line load_lines
load_lines-loaded [] s = refl
load_lines-loaded (blank ∷ ls) s = load_lines-loaded ls s
load_lines-loaded (malformed ∷ ls) s = load_lines-loaded ls s
load_lines-loaded (entry e ∷ ls) s = load_lines-loaded ls (load_line (entry e) s)

load_log-loaded :
    (log : Option (List Line)) (s : Plane) → (load_log log s).activity_loaded ≡ s.activity_loaded
unfolding load_log
load_log-loaded none s = refl
load_log-loaded (some ls) s = ground (arith, load_lines-loaded ls s)

pub ensure_loaded-loaded : (s : Plane) → (ensure_loaded s).activity_loaded ≡ true
unfolding ensure_loaded load_activity
ensure_loaded-loaded s = ground (
  arith,
  load_log-loaded s.disk.log
      (record s { activity_keys = []; last_seq = 0; activity_loaded = true }),
)

pub ensure_loaded-idle : (s : Plane) → s.activity_loaded ≡ true → ensure_loaded s ≡ s
unfolding ensure_loaded
ensure_loaded-idle s h = ground arith

append_fresh-keys :
    (fs : List Fact) (s : Plane)
    → (append_fresh fs s).1.activity_keys ≡ keys_of fs ++ s.activity_keys
unfolding append_fresh written remembered
append_fresh-keys [] s = refl
append_fresh-keys (f ∷ fs) s = ground arith

append_fresh-loaded :
    (fs : List Fact) (s : Plane) → (append_fresh fs s).1.activity_loaded ≡ s.activity_loaded
unfolding append_fresh written remembered
append_fresh-loaded [] s = refl
append_fresh-loaded (f ∷ fs) s = ground arith

append_loaded-loaded :
    (fs : List Fact) (s : Plane) → (append_loaded fs s).1.activity_loaded ≡ s.activity_loaded
unfolding append_loaded
append_loaded-loaded fs s = append_fresh-loaded (keep (is_fresh s.activity_keys) fs) s

again-none :
    (fs : List Fact) (s : Plane) → keep (is_fresh (append_loaded fs s).1.activity_keys) fs ≡ []
unfolding append_loaded
again-none fs s =
    let new : List Fact = keep (is_fresh s.activity_keys) fs in
    keep-known s.activity_keys (append_fresh new s).1.activity_keys fs
      (λ k h.
        ground (arith, append_fresh-keys new s, includes-append k (keys_of new) s.activity_keys))
      (λ k h.
        ground (arith, append_fresh-keys new s, includes-append k (keys_of new) s.activity_keys))

append_loaded-none :
    (fs : List Fact) (s : Plane)
    → keep (is_fresh s.activity_keys) fs ≡ []
    → append_loaded fs s ≡ (0, s)
unfolding append_loaded append_fresh
append_loaded-none fs s h = rw h refl

-- Appending the same facts a second time writes nothing and changes nothing, whatever became of the
-- first time: also where its write failed, so that those facts are not written later either.
pub append-twice :
    (fs : List Fact) (s : Plane)
    → append_activity fs (append_activity fs s).1 ≡ (0, (append_activity fs s).1)
unfolding append_activity
append-twice [] s = refl
append-twice (f ∷ fs) s =
    let d : Plane = ensure_loaded s in
    let a : Plane = (append_loaded (f ∷ fs) d).1 in
    let loaded : a.activity_loaded ≡ true =
      append_loaded-loaded (f ∷ fs) d ∙ ensure_loaded-loaded s in
    ap (append_loaded (f ∷ fs)) (ensure_loaded-idle a loaded)
    ∙ append_loaded-none (f ∷ fs) a (again-none (f ∷ fs) d)
