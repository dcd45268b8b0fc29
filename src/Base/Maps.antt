-- ===== src/Base/Maps.antt =====
-- Total maps from texts: what a store holds under each key.
use Prim.Native.String.{String}
use mathlib.Core.Option.{Option, none, some}
use mathlib.Core.List.{List, [], ◌∷◌}
use package.fm.Base.Tests.{if◌then◌else◌, ◌==◌, string_eq}

abbrev pub update {ℓ} : {V : Type ℓ} → (String → V) → String → V → String → V
update m k v j = if k == j then v else m j

-- A `dict` in the order in which its keys came in: `d[k] = v` and `d.get(k)`.
unfoldable pub put {ℓ} : {V : Type ℓ} → String → V → List (String × V) → List (String × V)
put k v [] = (k, v) ∷ []
put k v ((j, w) ∷ rest) =
    let others = put k v rest in if j == k then (j, v) ∷ rest else (j, w) ∷ others

unfoldable pub look_up {ℓ} : {V : Type ℓ} → String → List (String × V) → Option V
look_up k [] = none
look_up k ((j, v) ∷ rest) = if j == k then some v else look_up k rest
