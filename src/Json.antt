-- ===== src/Json.antt =====
-- The values that `json.loads` gives, and what the handlers of coordinator/*.py and
-- worker/worker.py ask of them. A float is kept as its text: no code computes with one.
use chaos_harness.Common.{
  String, Bool, true, false, Option, none, some, str_eq, if◌then◌else◌, not, ◌==◌,
}
use chaos_harness.Common.Int.{ℤ, pos, negsuc}

mutual
  pub data Json : Type 0 where
    null : Json
    bool : Bool → Json
    num : ℤ → Json
    real : String → Json
    str : String → Json
    arr : Items → Json
    obj : Fields → Json

  pub data Items : Type 0 where
    nil : Items
    cons : Json → Items → Items

  pub data Fields : Type 0 where
    end : Fields
    field : String → Json → Fields → Fields

-- `d.get(k, default)` on the fields of a dict.
unfoldable pub get_or : String → Fields → Json → Json
get_or k end default = default
get_or k (field j v rest) default =
    let later = get_or k rest default in if str_eq j k then v else later

-- `d.get(k)`: a missing key reads as None, which is `null`.
unfoldable pub get : String → Fields → Json
unfolding get_or
get k d = get_or k d null

-- `isinstance(v, int)`, with the integer: a Python bool is an int.
unfoldable pub as_int : Json → Option ℤ
as_int (num n) = some n
as_int (bool true) = some (pos 1)
as_int (bool false) = some (pos 0)
as_int _ = none

-- `isinstance(v, str)`, with the text.
unfoldable pub as_str : Json → Option String
as_str (str s) = some s
as_str _ = none

-- `isinstance(v, dict)`, with the fields.
unfoldable pub as_obj : Json → Option Fields
as_obj (obj fs) = some fs
as_obj _ = none

-- `v if v is not None else {}`.
unfoldable pub or_empty : Json → Json
or_empty null = obj end
or_empty v = v

-- Truth of a value, which `v or {}` and `not v` test.
unfoldable pub truthy : Json → Bool
truthy null = false
truthy (bool b) = b
truthy (num (pos n)) = not (n == 0)
truthy (num (negsuc n)) = true
truthy (str s) = if str_eq s "" then false else true
truthy (arr nil) = false
truthy (obj end) = false
truthy _ = true

-- `d[k]`, `none` where it raises KeyError.
unfoldable pub find : String → Fields → Option Json
find k end = none
find k (field j v rest) = let later = find k rest in if str_eq j k then some v else later
