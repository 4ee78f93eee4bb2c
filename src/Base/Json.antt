-- ===== src/Base/Json.antt =====
-- The values of the JSON columns (`dict[str, Any]`), with Python's integers and floats.
use mathlib.Core.Bool.{Bool}
use Prim.Native.Nat.{ℕ}
use Prim.Native.String.{String}
use mathlib.Core.Option.{Option, none, some}
use semi_automated_research.Base.Logic.{if◌then◌else◌}
use semi_automated_research.Base.Equality.{◌==◌, string_eq}

pub data ℤ : Type 0 where
  pos : ℕ → ℤ
  negsuc : ℕ → ℤ

-- A double: a finite one is a signed whole number times a power of two.
pub data Float : Type 0 where
  finite : ℤ → ℤ → Float
  infinity : Float
  neg_infinity : Float
  nan : Float

mutual
  pub data Json : Type 0 where
    null : Json
    bool : Bool → Json
    int : ℤ → Json
    float : Float → Json
    str : String → Json
    arr : Items → Json
    obj : Fields → Json

  pub data Items : Type 0 where
    nil : Items
    cons : Json → Items → Items

  pub data Fields : Type 0 where
    empty : Fields
    field : String → Json → Fields → Fields

-- `d.get(key)`; of two entries for one key the first counts, since `set` replaces it.
abbrev pub get : String → Fields → Option Json
get key empty = none
get key (field k v d) = if k == key then some v else get key d

-- `d[key] = v`.
abbrev pub set : String → Json → Fields → Fields
set key v empty = field key v empty
set key v (field k w d) = if k == key then field k v d else field k w (set key v d)

-- `d or {}`.
abbrev pub or_empty : Option Fields → Fields
or_empty none = empty
or_empty (some d) = d
