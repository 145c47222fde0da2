-- ===== src/Base/Maps.antt =====
-- Go maps keyed by strings, as association lists in the order of a range over them.
use mathlib.Core.Path.{◌≡◌}
use mathlib.Core.List.{List, [], ◌∷◌}
use mathlib.Core.Option.{Option, none, some}
use Prim.Native.String.{String}
use native.Mathlib.Omega.{arith}
use vybe.Base.Tests.{if◌then◌else◌}
use vybe.Base.Text.{str_eq, eq_iff}

module _ {ℓ} {V : Type ℓ} where
  -- `m[k]`
  unfoldable pub entry : String → List (String × V) → Option V
  entry k [] = none
  entry k ((j, v) ∷ m) = if str_eq k j then some v else entry k m

  -- `delete(m, k)`
  unfoldable pub without_entry : String → List (String × V) → List (String × V)
  without_entry k [] = []
  without_entry k ((j, v) ∷ m) =
      let rest = without_entry k m in if str_eq k j then rest else (j, v) ∷ rest

  -- `m[k] = v`
  unfoldable pub put_entry : String → V → List (String × V) → List (String × V)
  put_entry k v m = (k, v) ∷ without_entry k m

  pub entry-without_entry :
      (k j : String) (m : List (String × V))
      → entry j (without_entry k m) ≡ (if str_eq k j then none else entry j m)
  unfolding entry without_entry
  entry-without_entry k j [] = ground arith
  entry-without_entry k j ((i, v) ∷ m) =
      ground (arith, eq_iff k j, eq_iff k i, eq_iff j i, entry-without_entry k j m)

  pub entry-put_entry :
      (k j : String) (v : V) (m : List (String × V))
      → entry j (put_entry k v m) ≡ (if str_eq k j then some v else entry j m)
  unfolding entry put_entry
  entry-put_entry k j v m = ground (arith, eq_iff k j, eq_iff j k, entry-without_entry k j m)
