-- ===== src/Base/Values.antt =====
-- The values of `json.loads` and `yaml.safe_load`. Numbers are integers.
use Prim.Native.String.{String}
use mathlib.Core.Bool.{Bool, true, false, not, ◌&&◌}
use mathlib.Core.Option.{Option, none, some}
use package.fm.Base.Tests.{if◌then◌else◌, ◌==◌, string_eq, nat_eq}
use package.fm.Base.Int.{ℤ, pos_part, neg_part}

mutual
  pub data Value : Type 0 where
    null : Value
    bool : Bool → Value
    int : ℤ → Value
    str : String → Value
    list : Values → Value
    dict : Fields → Value

  pub data Values : Type 0 where
    nil : Values
    cons : Value → Values → Values

  pub data Fields : Type 0 where
    end : Fields
    field : String → Value → Fields → Fields

-- `d.get(key)`, with `none` for a missing key.
unfoldable pub get_field : String → Fields → Option Value
get_field k end = none
get_field k (field j v fs) = if j == k then some v else get_field k fs

-- `v == "text"`
abbrev pub is_text : String → Value → Bool
is_text t (str s) = s == t
is_text t _ = false

-- A value as a condition.
unfoldable pub is_truthy : Value → Bool
is_truthy null = false
is_truthy (bool b) = b
is_truthy (int n) = not (pos_part n == 0 && neg_part n == 0)
is_truthy (str s) = not (s == "")
is_truthy (list nil) = false
is_truthy (list (cons v vs)) = true
is_truthy (dict end) = false
is_truthy (dict (field k v fs)) = true

-- `d.get(key, default)`
abbrev pub get_or : Value → String → Fields → Value
get_or v k fs = elim (get_field k fs) [ none ↦ v | some w ↦ w ]
