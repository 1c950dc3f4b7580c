-- ===== src/Prelude/Dict.antt =====
-- Go maps with string keys, as association lists. A read of a missing key gives the zero value,
-- which the reader supplies.
use Prim.Native.String.{String}
use mathlib.Core.List.{List, [], ◌∷◌}
use mathlib.Core.Option.{Option, none, some}
use text.Mathlib.Text.{◌==◌}
use cbdynclusterd.Prelude.Tests.{if◌then◌else◌}

module _ {ℓ} {V : Type ℓ} where
  unfoldable pub lookup : String → List (String × V) → Option V
  lookup k [] = none
  lookup k ((j, v) ∷ m) = if j == k then some v else lookup k m

-- m[k] of a map[string]string
unfoldable pub lookup_text : String → List (String × String) → String
lookup_text k m = elim (lookup k m) [ none ↦ "" | some v ↦ v ]
