-- ===== src/Base/Dict.antt =====
-- A dict from texts: its entries in the order of insertion, each key once.
use semi_automated_research.Base.Logic.{if◌then◌else◌}
use semi_automated_research.Base.Equality.{◌==◌, string_eq, text_eq}
use Prim.Native.String.{String}
use mathlib.Core.Path.{◌≡◌, refl}
use mathlib.Core.Option.{Option, none, some}
use mathlib.Core.List.{List, [], ◌∷◌}
use native.Mathlib.Omega.{arith}

-- `d.get(key)`.
abbrev pub lookup {ℓ} : {V : Type ℓ} → String → List (String × V) → Option V
lookup key [] = none
lookup key ((k, v) ∷ d) = let rest = lookup key d in if k == key then some v else rest

-- `d[key] = value`.
abbrev pub put {ℓ} : {V : Type ℓ} → String → V → List (String × V) → List (String × V)
put key v [] = (key, v) ∷ []
put key v ((k, w) ∷ d) = let rest = put key v d in if k == key then (k, v) ∷ d else (k, w) ∷ rest

-- `d.update(others)`.
abbrev pub update {ℓ} : {V : Type ℓ} → List (String × V) → List (String × V) → List (String × V)
update d [] = d
update d ((k, v) ∷ others) = update (put k v d) others

pub lookup-put {ℓ} :
    {V : Type ℓ} (i key : String) (v : V) (d : List (String × V))
    → lookup i (put key v d) ≡ (if key == i then some v else lookup i d)
lookup-put i key v [] = refl
lookup-put i key v ((k, w) ∷ d) =
    ground (arith, lookup-put i key v d, text_eq k key, text_eq k i, text_eq key i)
