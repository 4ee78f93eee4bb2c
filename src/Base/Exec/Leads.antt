-- ===== src/Base/Exec/Leads.antt =====
-- Methods that lead from one property of the state to another.
use semi_automated_research.Base.Exec.{Result, ok, err, Exec, continue, ◌>>=◌}
use semi_automated_research.Base.Exec.Keeps.{After, Keeps}

-- `Q` holds after `m` returns, if `P` held before.
pub record Leads {κ μ} {S A : Type 0} (P : S → Type κ) (Q : S → Type μ) (m : Exec S A)
    : Type (κ ⊔ μ) where
  pub at : (s : S) → P s → After Q (m s)

module _ {μ ν} {S A B : Type 0} {Q : S → Type μ} {R : S → Type ν} where
  continue-After :
      (r : Result A) (s : S) (f : A → Exec S B)
      → ((a : A) → Leads Q R (f a))
      → After Q (r, s)
      → After R (continue r f s)
  continue-After (ok a) s f onward h = (onward a).at s h
  continue-After (err e) s f onward h = tt

module _ {κ μ ν} {S A B : Type 0} {P : S → Type κ} {Q : S → Type μ} {R : S → Type ν} where
  pub Leads-bind :
      (first : Exec S A) (next : A → Exec S B)
      → Leads P Q first
      → ((a : A) → Leads Q R (next a))
      → Leads P R (first >>= next)
  unfolding ◌>>=◌
  Leads-bind first next led onward = record {
    at = λ s h. continue-After (first s).0 (first s).1 next onward (led.at s h);
  }

both-After {κ μ} :
    {S A : Type 0} (P : S → Type κ) (Q : S → Type μ) (x : Result A × S)
    → After P x
    → After Q x
    → After (λ s. P s × Q s) x
both-After P Q (ok a, s) p q = (p, q)
both-After P Q (err e, s) p q = tt

module _ {κ μ} {S A : Type 0} {P : S → Type κ} {Q : S → Type μ} where
  -- What two invariants say apart, they say together.
  pub Leads-both :
      (m : Exec S A) → Keeps P m → Keeps Q m → Leads (λ s. P s × Q s) (λ s. P s × Q s) m
  Leads-both m p q = record { at = λ s h. both-After P Q (m s) (p.at s h.0) (q.at s h.1) }
