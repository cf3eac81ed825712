-- ===== src/Prelude/Values.antt =====
-- Values of the source language, as `JSON.parse` returns them and as object literals build them.
-- A key that is missing and a key that holds `undefined` read alike.
use Prim.Native.Nat.{ℕ}
use Prim.Native.String.{String}
use mathlib.Core.Path.{◌≡◌, refl}
use mathlib.Core.Bool.{Bool, true, false}
use mathlib.Core.Option.{Option, none, some}
use text.Mathlib.Text.{◌==◌}
use agents_with_chatgpt.Prelude.Tests.{if◌then◌else◌}

-- `other_num` stands for the numbers that are negative or not whole.
mutual
  pub data Value : Type 0 where
    undefined : Value
    null : Value
    bool : Bool → Value
    num : ℕ → Value
    other_num : Value
    str : String → Value
    arr : Items → Value
    obj : Fields → Value

  pub data Fields : Type 0 where
    end : Fields
    field : String → Value → Fields → Fields

  pub data Items : Type 0 where
    no_items : Items
    item : Value → Items → Items

abbrev pub prop : String → Fields → Value
prop k end = undefined
prop k (field j v fs) = if j == k then v else prop k fs

abbrev pub as_fields : Value → Option Fields
as_fields (obj fs) = some fs
as_fields _ = none

abbrev pub as_str : Value → Option String
as_str (str s) = some s
as_str _ = none

abbrev pub as_num : Value → Option ℕ
as_num (num n) = some n
as_num _ = none

-- `v === undefined || test(v)`, where the test is about a text
abbrev pub absent_or : (String → Bool) → Value → Bool
absent_or test undefined = true
absent_or test (str s) = test s
absent_or test _ = false

abbrev pub str_holds : (String → Bool) → Value → Bool
str_holds test (str s) = test s
str_holds test _ = false

-- `...(typeof o === "string" ? { k: o } : {})`
abbrev pub opt_str : Option String → Value
opt_str none = undefined
opt_str (some s) = str s

pub as_str-opt_str : (o : Option String) → as_str (opt_str o) ≡ o
as_str-opt_str none = refl
as_str-opt_str (some s) = refl

-- A file that holds JSON: missing, present but not parseable, or parsed.
pub data File : Type 0 where
  missing : File
  unreadable : File
  json : Value → File
