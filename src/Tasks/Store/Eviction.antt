-- ===== src/Tasks/Store/Eviction.antt =====
-- Which tasks the store may forget: the eviction of z2c/src/core/tasks/persistence.ts.
use agents_with_chatgpt.Prelude.{
  ℕ, zero, suc, String, ◌≡◌, refl, Bool, false, Option, none, some, inl, inr, List, [], ◌∷◌, map,
  take, keep, find, includes, ◌==◌, arith, eq_iff, Bool-cases, if◌then◌else◌,
}
use agents_with_chatgpt.Tasks.Model.{Task}
use agents_with_chatgpt.Tasks.Store.{drop_tasks}

abbrev pub ids : List Task → List String
ids = map (λ t. t.task_id)

-- No two tasks share an id.
unfoldable pub Distinct : List Task → Type 0
Distinct [] = Unit
Distinct (t ∷ ts) = (includes t.task_id (ids ts) ≡ false) × Distinct ts

abbrev by_id : String → List Task → Option Task
by_id id = find (λ t. t.task_id == id)

find-drop_tasks :
    (id : String) (gone : List String) (ts : List Task)
    → by_id id (drop_tasks gone ts) ≡ (if includes id gone then none else by_id id ts)
unfolding drop_tasks
find-drop_tasks id gone [] = ground arith
find-drop_tasks id gone (t ∷ ts) = ground (arith, eq_iff t.task_id id, find-drop_tasks id gone ts)

includes-keep :
    (p : Task → Bool) (id : String) (ts : List Task)
    → includes id (ids ts) ≡ false
    → includes id (ids (keep p ts)) ≡ false
unfolding includes
includes-keep p id [] h = refl
includes-keep p id (t ∷ ts) h = ground (arith, includes-keep p id ts)

includes-take :
    (n : ℕ) (id : String) (ts : List Task)
    → includes id (ids ts) ≡ false
    → includes id (ids (take n ts)) ≡ false
unfolding includes
includes-take zero id ts h = refl
includes-take (suc n) id [] h = refl
includes-take (suc n) id (t ∷ ts) h = ground (arith, includes-take n id ts)

-- A task that the test passes over is not among those that it picks.
not_picked :
    (p : Task → Bool) (id : String) (ts : List Task) (t : Task)
    → Distinct ts
    → by_id id ts ≡ some t
    → p t ≡ false
    → includes id (ids (keep p ts)) ≡ false
unfolding includes Distinct
not_picked p id [] t d e h = refl
not_picked p id (u ∷ ts) t d e h = elim (Bool-cases (u.task_id == id)) [
  | inl here ↦
      (let same : u.task_id ≡ id = (eq_iff u.task_id id).0 here in
        let passed : p u ≡ false = ground arith in
        rw passed (includes-keep p id ts (rw same at d.0)))
  | inr there ↦ ground (arith, not_picked p id ts t d.1)
]

pub survives :
    (p : Task → Bool) (n : ℕ) (id : String) (ts : List Task) (t : Task)
    → Distinct ts
    → by_id id ts ≡ some t
    → p t ≡ false
    → by_id id (drop_tasks (ids (take n (keep p ts))) ts) ≡ some t
survives p n id ts t d e h =
    rw
      (
        find-drop_tasks id (ids (take n (keep p ts))) ts,
        includes-take n id (keep p ts) (not_picked p id ts t d e h),
      )
      e
