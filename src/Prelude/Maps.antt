-- ===== src/Prelude/Maps.antt =====
-- Go maps from texts, as lists of their entries: `m[k]` with `ok`, and `m[k] = v`, which keeps the
-- place of a key that is there.
use text.Mathlib.TextEquality.{eq_iff}
use Prim.Native.String.{String}
use mathlib.Core.Path.{◌≡◌, refl}
use mathlib.Core.Bool.{false}
use mathlib.Core.Option.{Option, none, some}
use mathlib.Core.List.{List, [], ◌∷◌, map}
use native.Mathlib.Omega.{arith}
use rolebasedgroup.Prelude.Tests.{if◌then◌else◌}
use rolebasedgroup.Prelude.Text.{str_eq, contains, Distinct}

module _ {ℓ} {V : Type ℓ} where
  unfoldable pub map_get : List (String × V) → String → Option V
  map_get [] k = none
  map_get ((j, v) ∷ m) k = if str_eq j k then some v else map_get m k

  unfoldable pub map_put : String → V → List (String × V) → List (String × V)
  map_put k v [] = (k, v) ∷ []
  map_put k v ((j, w) ∷ m) = if str_eq j k then (k, v) ∷ m else (j, w) ∷ map_put k v m

  abbrev pub keys : List (String × V) → List String
  keys m = map (λ e. e.0) m

  pub map_get-put :
      (k j : String) (v : V) (m : List (String × V))
      → map_get (map_put k v m) j ≡ (if str_eq k j then some v else map_get m j)
  unfolding map_get map_put
  map_get-put k j v [] = refl
  map_get-put k j v ((i, w) ∷ m) =
      ground (arith, eq_iff k j, eq_iff i k, eq_iff i j, map_get-put k j v m)

  pub map_get-lacks :
      (m : List (String × V)) (k : String) → contains (keys m) k ≡ false → map_get m k ≡ none
  unfolding map_get contains
  map_get-lacks [] k h = refl
  map_get-lacks ((j, w) ∷ m) k h = ground (arith, map_get-lacks m k)

  map_put-lacks :
      (k j : String) (v : V) (m : List (String × V))
      → contains (keys m) j ≡ false
      → str_eq k j ≡ false
      → contains (keys (map_put k v m)) j ≡ false
  unfolding contains map_put
  map_put-lacks k j v [] h q = ground arith
  map_put-lacks k j v ((i, w) ∷ m) h q = ground (arith, map_put-lacks k j v m)

  map_put-Distinct :
      (k : String) (v : V) (m : List (String × V))
      → Distinct (keys m)
      → Distinct (keys (map_put k v m))
  unfolding contains map_put
  map_put-Distinct k v [] d = (refl, tt)
  map_put-Distinct k v ((j, w) ∷ m) d =
      ground (arith, eq_iff j k, eq_iff k j, map_put-lacks k j v m d.0, map_put-Distinct k v m d.1)
