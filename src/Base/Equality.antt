-- ===== src/Base/Equality.antt =====
-- Python's `==` and `in`, for the types whose values the program compares.
use Prim.Native.Nat.{ℕ, compare, Ordering}
use Prim.Native.String.{String}
use mathlib.Core.Path.{◌≡◌, refl}
use mathlib.Core.Logic.{◌↔◌}
use mathlib.Core.Bool.{Bool, true, false, ◌||◌}
use mathlib.Core.List.{List, [], ◌∷◌}
use native.Mathlib.Omega.{arith}
use text.Mathlib.Text.{◌==◌ as text_beq}
use text.Mathlib.TextEquality.{eq_iff}

-- A test that decides equality.
pub record Eq {ℓ} (T : Type ℓ) : Type ℓ where
  pub beq : (x y : T) → Bool
  pub beq_iff : (x y : T) → (beq x y ≡ true) ↔ (x ≡ y)

infix 50 ◌==◌
abbrev pub ◌==◌ {ℓ} : {T : Type ℓ} ⦃eq : Eq T⦄ → T → T → Bool
◌==◌ ⦃eq⦄ = eq.beq

abbrev pub nat_beq : ℕ → ℕ → Bool
nat_beq a b = elim (compare a b) [ Ordering.eq ↦ true | _ ↦ false ]

pub nat_beq_iff : (a b : ℕ) → (nat_beq a b ≡ true) ↔ (a ≡ b)
nat_beq_iff a b = ground arith

instance abbrev pub string_eq : Eq String
string_eq = record { beq_iff = eq_iff; beq = text_beq }

instance abbrev pub nat_eq : Eq ℕ
nat_eq = record { beq_iff = nat_beq_iff; beq = nat_beq }

-- Text equality as the tactics use it: at each pair of texts that a goal compares.
pub text_eq : (s t : String) → (text_beq s t ≡ true) ↔ (s ≡ t)
text_eq = eq_iff

pub text_eq_refl : (s : String) → text_beq s s ≡ true
text_eq_refl s = (eq_iff s s).1 refl

pub nat_beq_refl : (n : ℕ) → nat_beq n n ≡ true
nat_beq_refl n = ground arith

-- `a in xs`.
abbrev pub contains {ℓ} : {T : Type ℓ} ⦃eq : Eq T⦄ → T → List T → Bool
contains x [] = false
contains x (y ∷ ys) = x == y || contains x ys
