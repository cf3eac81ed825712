-- ===== src/Prelude/Maps.antt =====
-- A string-keyed object as an association list: reading a key, assigning to it, and lists of texts
-- as sets.
use Prim.Native.String.{String}
use mathlib.Core.Path.{◌≡◌, refl}
use mathlib.Core.Bool.{Bool, false, ◌&&◌, ◌||◌}
use agents_with_chatgpt.Prelude.Lists.{keep}
use mathlib.Core.Option.{Option, none, some}
use mathlib.Core.List.{List, [], ◌∷◌, ◌++◌}
use native.Mathlib.Omega.{arith}
use text.Mathlib.Text.{◌==◌}
use text.Mathlib.TextEquality.{eq_iff}
use text.Mathlib.TextPositions.{eq_refl}
use agents_with_chatgpt.Prelude.Tests.{if◌then◌else◌}

module _ {ℓ} {V : Type ℓ} where
  -- `rows[key]`
  unfoldable pub read_key : String → List (String × V) → Option V
  read_key key [] = none
  read_key key (row ∷ rows) = if row.0 == key then some row.1 else read_key key rows

  -- `rows[key] = new`
  unfoldable pub write_key : String → V → List (String × V) → List (String × V)
  write_key key new [] = (key, new) ∷ []
  write_key key new (row ∷ rows) =
      if row.0 == key then (row.0, new) ∷ rows else row ∷ write_key key new rows

  pub read_key-write_key :
      (key other : String) (new : V) (rows : List (String × V))
      → read_key other (write_key key new rows)
        ≡ (if key == other then some new else read_key other rows)
  unfolding read_key write_key
  read_key-write_key key other new [] = refl
  read_key-write_key key other new (row ∷ rows) = ground (
    arith,
    read_key-write_key key other new rows,
    eq_iff row.0 key,
    eq_iff row.0 other,
    eq_iff key other,
  )

  pub read_key-write_key_self :
      (key : String) (new : V) (rows : List (String × V))
      → read_key key (write_key key new rows) ≡ some new
  read_key-write_key_self key new rows = rw (read_key-write_key key key new rows, eq_refl key)

-- `xs.includes(k)`
unfoldable pub includes : String → List String → Bool
includes k [] = false
includes k (x ∷ xs) = x == k || includes k xs

-- `xs.filter(x => x !== k)`, and the same at the first place only
unfoldable pub remove_first : String → List String → List String
remove_first k [] = []
remove_first k (x ∷ xs) = if x == k then xs else x ∷ remove_first k xs

-- `[...new Set(xs)]`, each text at its first place
unfoldable pub without : String → List String → List String
without k [] = []
without k (x ∷ xs) = let rest = without k xs in if x == k then rest else x ∷ rest

pub includes-append :
    (k : String) (xs ys : List String) → includes k (xs ++ ys) ≡ (includes k xs || includes k ys)
unfolding includes
includes-append k [] ys = refl
includes-append k (x ∷ xs) ys = ground (arith, includes-append k xs ys)

pub includes-without :
    (k j : String) (xs : List String)
    → includes k (without j xs) ≡ (if j == k then false else includes k xs)
unfolding includes without
includes-without k j [] = ground arith
includes-without k j (x ∷ xs) =
    ground (arith, eq_iff j k, eq_iff x j, eq_iff x k, includes-without k j xs)

pub includes-keep :
    (p : String → Bool) (k : String) (xs : List String)
    → includes k (keep p xs) ≡ (includes k xs && p k)
unfolding includes
includes-keep p k [] = refl
includes-keep p k (x ∷ xs) = ground (arith, eq_iff x k, includes-keep p k xs)

-- No text stands twice.
abbrev pub NoDup : List String → Type 0
NoDup [] = Unit
NoDup (x ∷ xs) = (includes x xs ≡ false) × NoDup xs

pub NoDup-keep : (p : String → Bool) (xs : List String) → NoDup xs → NoDup (keep p xs)
NoDup-keep p [] h = tt
NoDup-keep p (x ∷ xs) h = ground (arith, includes-keep p x xs, NoDup-keep p xs h.1)
