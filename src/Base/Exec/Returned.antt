-- ===== src/Base/Exec/Returned.antt =====
-- What a method that returns has done: each of its steps returned.
use semi_automated_research.Base.Exec.Keeps.{After, Keeps}
use semi_automated_research.Base.Exec.Leads.{Leads}
use mathlib.Core.Path.{subst, ◌≡◌, refl}
use mathlib.Core.Option.{Option, none, some}
use semi_automated_research.Base.Exec.{
  Error, Result, ok, err, Exec, continue, pure, or_raise, ◌>>=◌,
}

-- The first step of a method returned, and the rest returned from there.
pub record Steps {S A B : Type 0} (first : Exec S A) (next : A → Exec S B) (s : S)
    (out : Result B × S) : Type 0 where
  pub value : A
  pub between : S
  pub ran : first s ≡ (ok value, between)
  pub onward : next value between ≡ out

module _ {S A B : Type 0} where
  continued :
      (first : Exec S A) (next : A → Exec S B) (s : S) (b : B) (s' : S) (r : Result A) (between : S)
      → first s ≡ (r, between)
      → continue r next between ≡ (ok b, s')
      → Steps first next s (ok b, s')
  continued first next s b s' (ok a) between ran h = record {
    value = a;
    between = between;
    ran = ran;
    onward = h;
  }
  continued first next s b s' (err e) between ran h = cc

  pub bind_ok :
      (first : Exec S A) (next : A → Exec S B) (s : S) (b : B) (s' : S)
      → (first >>= next) s ≡ (ok b, s')
      → Steps first next s (ok b, s')
  unfolding ◌>>=◌
  bind_ok first next s b s' h = continued first next s b s' (first s).0 (first s).1 refl h

pub Keeps_ok {κ} :
    {S A : Type 0} {P : S → Type κ} (m : Exec S A) (s : S) (a : A) (s' : S)
    → Keeps P m
    → m s ≡ (ok a, s')
    → P s
    → P s'
Keeps_ok {P = P} m s a s' k h before = subst (After P) h (k.at s before)

pub Leads_ok {κ μ} :
    {S A : Type 0} {P : S → Type κ} {Q : S → Type μ} (m : Exec S A) (s : S) (a : A) (s' : S)
    → Leads P Q m
    → m s ≡ (ok a, s')
    → P s
    → Q s'
Leads_ok {Q = Q} m s a s' led h before = subst (After Q) h (led.at s before)

pub or_raise_ok :
    {S A : Type 0} (found : Option A) (e : Error) (s : S) (a : A) (s' : S)
    → or_raise found e s ≡ (ok a, s')
    → (found ≡ some a) × (s' ≡ s)
unfolding or_raise
or_raise_ok none e s a s' h = cc
or_raise_ok (some b) e s a s' h = (cc, cc)

pub pure_ok : {S A : Type 0} (a : A) (s : S) (b : A) (s' : S) → pure a s ≡ (ok b, s') → a ≡ b
unfolding pure
pure_ok a s b s' h = cc
