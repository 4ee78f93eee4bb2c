-- ===== src/Base/Exec/Keeps.antt =====
-- Invariants of methods: one rule for each way to build a method. A method that raises owes nothing,
-- since the transaction around it is rolled back.
use mathlib.Core.Path.{◌≡◌, refl}
use mathlib.Core.Logic.{inl, inr}
use mathlib.Core.Bool.{Bool, true, false}
use mathlib.Core.Option.{Option, none, some}
use mathlib.Core.List.{List, [], ◌∷◌}
use semi_automated_research.Base.Logic.{if◌then◌else◌, Bool-cases}
use semi_automated_research.Base.Exec.{
  Error, Result, ok, err, Exec, pure, raise, gets, or_raise, continue, ◌>>=◌, modify, raise_if,
  write_unless, collect,
}

abbrev pub After {κ} : {S A : Type 0} → (S → Type κ) → Result A × S → Type κ
After P (ok a, s) = P s
After P (err e, s) = Unit

-- What holds after each way to return holds after the call.
pub After-of {κ} :
    {S A : Type 0} (P : S → Type κ) (x : Result A × S) → ((a : A) → x.0 ≡ ok a → P x.1) → After P x
After-of P (ok a, s) h = h a refl
After-of P (err e, s) h = tt

-- `P` holds after `m` returns, if it held before.
pub record Keeps {κ} {S A : Type 0} (P : S → Type κ) (m : Exec S A) : Type κ where
  pub at : (s : S) → P s → After P (m s)

module _ {κ} {S A : Type 0} {P : S → Type κ} where
  pub Keeps-raise : (e : Error) → Keeps P (raise {A = A} e)
  unfolding raise
  Keeps-raise e = record { at = λ before held. tt }

  pub Keeps-pure : (a : A) → Keeps P (pure a)
  unfolding pure
  Keeps-pure a = record { at = λ before held. held }

  pub Keeps-gets : (read : S → A) → Keeps P (gets read)
  unfolding gets
  Keeps-gets read = record { at = λ before held. held }

  pub Keeps-or_raise : (o : Option A) (e : Error) → Keeps P (or_raise o e)
  unfolding or_raise
  Keeps-or_raise none e = record { at = λ before held. tt }
  Keeps-or_raise (some a) e = record { at = λ before held. held }

module _ {κ} {S A B : Type 0} {P : S → Type κ} where
  After-continue :
      (r : Result A) (s : S) (f : A → Exec S B)
      → ((a : A) → Keeps P (f a))
      → After P (r, s)
      → After P (continue r f s)
  After-continue (ok a) s f k h = (k a).at s h
  After-continue (err e) s f k h = tt

  pub Keeps-bind :
      (first : Exec S A) (next : A → Exec S B)
      → Keeps P first
      → ((a : A) → Keeps P (next a))
      → Keeps P (first >>= next)
  unfolding ◌>>=◌
  Keeps-bind first next kept onward = record {
    at = λ s h. After-continue (first s).0 (first s).1 next onward (kept.at s h);
  }

module _ {κ} {S : Type 0} {P : S → Type κ} where
  pub Keeps-modify : (f : S → S) → ((s : S) → P s → P (f s)) → Keeps P (modify f)
  unfolding modify
  Keeps-modify f k = record { at = k }

  pub Keeps-raise_if : (b : Bool) (e : Error) → Keeps P (raise_if b e)
  unfolding raise_if
  Keeps-raise_if true e = record { at = λ before held. tt }
  Keeps-raise_if false e = record { at = λ before held. held }

module _ {κ} {S A : Type 0} {P : S → Type κ} where
  pub Keeps-if :
      (test : Bool) (yes_body no_body : Exec S A)
      → (test ≡ true → Keeps P yes_body)
      → (test ≡ false → Keeps P no_body)
      → Keeps P (if test then yes_body else no_body)
  Keeps-if true yes_body no_body on_yes on_no = on_yes refl
  Keeps-if false yes_body no_body on_yes on_no = on_no refl

module _ {κ} {S A B : Type 0} {P : S → Type κ} where
  pub Keeps-collect :
      (body : A → Exec S (Option B)) (xs : List A)
      → ((x : A) → Keeps P (body x))
      → Keeps P (collect body xs)
  unfolding collect
  Keeps-collect body [] k = Keeps-pure []
  Keeps-collect body (x ∷ xs) k =
      Keeps-bind (body x) _ (k x)
        (λ found. Keeps-bind (collect body xs) _ (Keeps-collect body xs k) (λ others. Keeps-pure _))

module _ {κ} {S : Type 0} {P : S → Type κ} where
  pub Keeps-write_unless :
      (test : S → Bool) (e : Error) (f : S → S)
      → ((s : S) → P s → test s ≡ false → P (f s))
      → Keeps P (write_unless test e f)
  unfolding write_unless
  Keeps-write_unless test e f k = record {
    at = λ s h. elim (Bool-cases (test s)) [
      | inl refused ↦ rw refused tt
      | inr free ↦ rw free (k s h free)
    ];
  }

pub ruleset keeps_rules = (
  Keeps-pure, Keeps-raise, Keeps-gets, Keeps-or_raise, Keeps-bind, Keeps-raise_if, Keeps-if,
  Keeps-collect,
)
