-- ===== src/Base/Lists.antt =====
-- Lists over the native numbers, and Python's `any` and `all`.
use Prim.Native.Nat.{ℕ, suc, ◌+◌}
use Prim.Native.String.{String}
use mathlib.Core.Path.{◌≡◌, refl}
use mathlib.Core.Bool.{Bool, true, false, ◌&&◌, ◌||◌}
use mathlib.Core.List.{List, [], ◌∷◌, ◌++◌}
use native.Mathlib.Omega.{arith}
use semi_automated_research.Base.Logic.{if◌then◌else◌}
use Prim.Native.String.{◌++◌ as text_append}

module _ {ℓ} {A : Type ℓ} where
  abbrev pub length : List A → ℕ
  length [] = 0
  length (x ∷ xs) = suc (length xs)

  abbrev pub any : (A → Bool) → List A → Bool
  any p [] = false
  any p (x ∷ xs) = p x || any p xs

  abbrev pub all : (A → Bool) → List A → Bool
  all p [] = true
  all p (x ∷ xs) = p x && all p xs

  pub length-append : (xs ys : List A) → length (xs ++ ys) ≡ length xs + length ys
  length-append [] ys = omega arith
  length-append (x ∷ xs) ys = omega (arith, length-append xs ys)

  pub any-append : (p : A → Bool) (xs ys : List A) → any p (xs ++ ys) ≡ (any p xs || any p ys)
  any-append p [] ys = refl
  any-append p (x ∷ xs) ys = ground (arith, any-append p xs ys)

  pub all-append : (p : A → Bool) (xs ys : List A) → all p (xs ++ ys) ≡ (all p xs && all p ys)
  all-append p [] ys = refl
  all-append p (x ∷ xs) ys = ground (arith, all-append p xs ys)

-- An f-string: its pieces, one after the other.
abbrev pub f_string : List String → String
f_string [] = ""
f_string (piece ∷ pieces) = text_append piece (f_string pieces)

module _ {ℓ} {A : Type ℓ} where
  pub all-weaken :
      (P Q : A → Bool) (xs : List A)
      → ((x : A) → P x ≡ true → Q x ≡ true)
      → all P xs ≡ true
      → all Q xs ≡ true
  all-weaken P Q [] weaker h = refl
  all-weaken P Q (x ∷ xs) weaker h = ground (arith, weaker x, all-weaken P Q xs weaker)

-- The rows that a WHERE clause keeps.
module _ {ℓ} {A : Type ℓ} where
  abbrev pub where_rows : (A → Bool) → List A → List A
  where_rows p [] = []
  where_rows p (x ∷ xs) = let rest = where_rows p xs in if p x then x ∷ rest else rest
