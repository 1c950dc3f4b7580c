-- ===== src/Json.antt =====
-- What the code reads of a JSON value that it has decoded without a type, as interface{}.
use cbdynclusterd.Prelude.{ℕ, String, Bool, true, false, if◌then◌else◌, ◌==◌}
use cbdynclusterd.Prelude.Int.{ℤ}
use cbdynclusterd.Prelude.Result.{Result, ok, panic}

-- `number m e` is m / 10^e: the code compares such numbers with small integers only, where the
-- rounding of a float64 plays no part. The keys of an object are distinct.
mutual
  pub data Json : Type 0 where
    null : Json
    flag : Bool → Json
    number : ℤ → ℕ → Json
    str : String → Json
    array : Elements → Json
    object : Members → Json

  pub data Elements : Type 0 where
    nil : Elements
    cons : Json → Elements → Elements

  pub data Members : Type 0 where
    end : Members
    member : String → Json → Members → Members

-- m[k]; a missing key reads as nil, like null.
unfoldable pub field : String → Members → Json
field k end = null
field k (member j v m) = if j == k then v else field k m

-- v.(string), v.(float64) and v.(map[string]interface{}), which panic for another type
unfoldable pub as_text : Json → Result String
as_text (str s) = ok s
as_text _ = panic

unfoldable pub as_number : Json → Result (ℤ × ℕ)
as_number (number m e) = ok (m, e)
as_number _ = panic

unfoldable pub as_object : Json → Result Members
as_object (object m) = ok m
as_object _ = panic

-- v == nil
unfoldable pub is_nil : Json → Bool
is_nil null = true
is_nil _ = false
