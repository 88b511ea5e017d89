-- ===== src/Base/Values.antt =====
-- The values of `JSON.parse` and `JSON.stringify`. An object is its fields in order, a number is a
-- natural number, and `none` of `Option Json` is `undefined`.
use Prim.Native.Nat.{ℕ, zero, suc}
use mathlib.Core.Bool.{Bool, true, false}
use mathlib.Core.Option.{Option, none, some}
use mathlib.Core.List.{List, [], ◌∷◌}
use warder.Base.Tests.{if◌then◌else◌}
use warder.Base.Strings.{Text, text_eq}

mutual
  pub data Json : Type 0 where
    null : Json
    bool : Bool → Json
    num : ℕ → Json
    str : Text → Json
    arr : Items → Json
    obj : Fields → Json

  pub data Items : Type 0 where
    no_items : Items
    item : Json → Items → Items

  pub data Fields : Type 0 where
    no_fields : Fields
    field : Text → Json → Fields → Fields

unfoldable pub items : Items → List Json
items no_items = []
items (item v vs) = v ∷ items vs

unfoldable pub array_of : List Json → Items
array_of [] = no_items
array_of (v ∷ vs) = item v (array_of vs)

-- An object literal. A field whose value is `undefined` is dropped when the object is printed.
abbrev pub record_of : List (Text × Option Json) → Fields
record_of [] = no_fields
record_of ((k, none) ∷ rest) = record_of rest
record_of ((k, some v) ∷ rest) = field k v (record_of rest)

abbrev pub object : List (Text × Option Json) → Json
object fs = obj (record_of fs)

unfoldable pub field? : Text → Fields → Option Json
unfolding text_eq
field? k no_fields = none
field? k (field j v fs) = if text_eq j k then some v else field? k fs

-- `v?.k`: `undefined` on `null`, on `undefined`, and on a value that has no fields.
unfoldable pub prop? : Text → Option Json → Option Json
unfolding field?
prop? k (some (obj fs)) = field? k fs
prop? k (some null) = none
prop? k (some (bool b)) = none
prop? k (some (num n)) = none
prop? k (some (str s)) = none
prop? k (some (arr vs)) = none
prop? k none = none

-- `v ?? d`
unfoldable pub or_else : Option Json → Json → Json
or_else none d = d
or_else (some null) d = d
or_else (some (bool b)) d = bool b
or_else (some (num n)) d = num n
or_else (some (str s)) d = str s
or_else (some (arr vs)) d = arr vs
or_else (some (obj fs)) d = obj fs

-- Whether a value counts as true in a condition.
unfoldable pub truthy : Option Json → Bool
truthy none = false
truthy (some null) = false
truthy (some (bool b)) = b
truthy (some (num zero)) = false
truthy (some (num (suc n))) = true
truthy (some (str [])) = false
truthy (some (str (c ∷ s))) = true
truthy (some (arr vs)) = true
truthy (some (obj fs)) = true

-- `v === "…"`
unfoldable pub is_str : Text → Option Json → Bool
unfolding text_eq
is_str t (some (str s)) = text_eq s t
is_str t (some null) = false
is_str t (some (bool b)) = false
is_str t (some (num n)) = false
is_str t (some (arr vs)) = false
is_str t (some (obj fs)) = false
is_str t none = false
