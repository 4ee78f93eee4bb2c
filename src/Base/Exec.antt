-- ===== src/Base/Exec.antt =====
-- Methods that mutate a state and may raise. What was written before a raise stays written, so the
-- state comes back beside the error too.
pub mod Keeps
pub mod Leads
pub mod Returned
use mathlib.Core.Path.{◌≡◌, refl}
use mathlib.Core.Logic.{◌⊎◌, inl, inr}
use mathlib.Core.Bool.{Bool, true, false}
use mathlib.Core.Option.{Option, none, some}
use mathlib.Core.List.{List, [], ◌∷◌}
use semi_automated_research.Base.Logic.{if◌then◌else◌}

-- The exception classes that the services raise; messages are left out.
pub data Error : Type 0 where
  invalid_transition lookup_error value_error key_error integrity_error : Error
  runtime_error file_not_found io_error timeout_error type_error attribute_error : Error

pub data Result {ℓ} (A : Type ℓ) : Type ℓ where
  ok : A → Result A
  err : Error → Result A

pub Result-cases {ℓ} :
    {A : Type ℓ} (r : Result A) → ((a : A) × (r ≡ ok a)) ⊎ ((e : Error) × (r ≡ err e))
Result-cases (ok a) = inl (a, refl)
Result-cases (err e) = inr (e, refl)

abbrev pub Exec {ℓ} : Type ℓ → Type ℓ → Type ℓ
Exec S A = S → Result A × S

module _ {ℓ} {S A : Type ℓ} where
  unfoldable pub pure : A → Exec S A
  pure a s = (ok a, s)

  unfoldable pub raise : Error → Exec S A
  raise e s = (err e, s)

  unfoldable pub gets : (S → A) → Exec S A
  gets f s = (ok (f s), s)

  unfoldable pub or_raise : Option A → Error → Exec S A
  or_raise none e s = (err e, s)
  or_raise (some a) e s = (ok a, s)

module _ {S : Type 0} where
  unfoldable pub modify : (S → S) → Exec S Unit
  modify f s = (ok tt, f s)

  unfoldable pub raise_if : Bool → Error → Exec S Unit
  raise_if true e s = (err e, s)
  raise_if false e s = (ok tt, s)

module _ {ℓ} {S A B : Type ℓ} where
  abbrev pub continue : Result A → (A → Exec S B) → Exec S B
  continue (ok a) f s = f a s
  continue (err e) f s = (err e, s)

  infixl 5 ◌>>=◌ ◌>>◌
  -- Opening this opens the other ways to build a method too.
  unfoldable pub ◌>>=◌ : Exec S A → (A → Exec S B) → Exec S B
  unfolding pure raise gets or_raise modify raise_if
  ◌>>=◌ m f s = let (r, s') = m s in continue r f s'

  abbrev pub ◌>>◌ : Exec S A → Exec S B → Exec S B
  m >> n = m >>= λ _. n

-- A write that a constraint on the state may refuse.
unfoldable pub write_unless : {S : Type 0} → (S → Bool) → Error → (S → S) → Exec S Unit
write_unless test e f s = if test s then (err e, s) else (ok tt, f s)

-- `for x in xs: out.append(...)`: the loop's body says whether `x` is listed.
module _ {S A B : Type 0} (body : A → Exec S (Option B)) where
  unfoldable pub collect : List A → Exec S (List B)
  collect [] = pure []
  collect (x ∷ xs) =
      let rest = collect xs in
      do found ← body x; others ← rest; pure (elim found [ none ↦ others | some b ↦ b ∷ others ])
