-- ===== src/Samples/Ids.antt =====
-- The ids that the sample environment draws are all different.
use text.Mathlib.TextPositions.{len-append}
use Prim.Native.String.{len}
use semi_automated_research.Base.{
  ◌<◌, false, inl, inr, Bool-cases, ℕ, zero, suc, ◌+◌, ◌≡◌, refl, ap, arith, ◌==◌, string_eq,
  text_eq, f_string, [], ◌∷◌,
}
use semi_automated_research.EventLog.Fresh.{IsUnique, event_id}
use semi_automated_research.Samples.{sample_env, tally}

len-tally : (n : ℕ) → len (tally n) ≡ n + 1
len-tally zero = refl
len-tally (suc n) =
    let whole : len (tally (suc n)) ≡ 1 + len (f_string (tally n ∷ [])) =
      len-append "1" (f_string (tally n ∷ [])) in
    let piece : len (f_string (tally n ∷ [])) ≡ len (tally n) + 0 = len-append (tally n) "" in
    omega (arith, whole, piece, len-tally n)

len-event_id : (n : ℕ) → len (event_id sample_env n) ≡ n + 5
len-event_id n =
    let outer : len (event_id sample_env n) ≡ 3 + len (f_string ("_" ∷ tally n ∷ [])) =
      len-append "evt" (f_string ("_" ∷ tally n ∷ [])) in
    let inner : len (f_string ("_" ∷ tally n ∷ [])) ≡ 1 + len (f_string (tally n ∷ [])) =
      len-append "_" (f_string (tally n ∷ [])) in
    let piece : len (f_string (tally n ∷ [])) ≡ len (tally n) + 0 = len-append (tally n) "" in
    omega (arith, outer, inner, piece, len-tally n)

pub sample_env-IsUnique : IsUnique sample_env
sample_env-IsUnique m n h =
    let same : len (event_id sample_env m) ≡ len (event_id sample_env n) =
      ap len ((text_eq (event_id sample_env m) (event_id sample_env n)).0 h) in
    omega (arith, same, len-event_id m, len-event_id n)

-- An id that was drawn earlier is another one.
pub older_id : (m n : ℕ) → m < n → (event_id sample_env m == event_id sample_env n) ≡ false
older_id m n before = elim (Bool-cases (event_id sample_env m == event_id sample_env n)) [
  | inl same ↦ let equal = sample_env-IsUnique m n same in absurd (omega (arith, equal, before))
  | inr other ↦ other
]
