-- ===== src/Db/Table.antt =====
-- A table as the list of its rows, in the order of insertion, with the primary key `id`.
use mathlib.Core.Path.{subst}
use text.Mathlib.TextEquality.{eq_iff}
use semi_automated_research.Base.{
  ◌≡◌, refl, sym, inl, inr, Bool, true, all, all-weaken, String, Bool-cases, Option, none, some,
  List, [], ◌∷◌, ◌++◌, arith, ◌==◌, string_eq, if◌then◌else◌,
}

pub record Row (A : Type 0) : Type 0 where
  pub id : A → String

module _ {A : Type 0} ⦃row : Row A⦄ where
  -- `session.get(A, id)`, and the object that a reference to row `id` denotes.
  unfoldable pub find : String → List A → Option A
  find i [] = none
  find i (r ∷ rs) = if row.id r == i then some r else find i rs

  -- The object with the id of `new` holds the attributes of `new` now.
  unfoldable pub store : A → List A → List A
  store new [] = []
  store new (r ∷ rs) = if row.id r == row.id new then new ∷ rs else r ∷ store new rs

  pub find-store :
      (i : String) (new old : A) (rs : List A)
      → find (row.id new) rs ≡ some old
      → find i (store new rs) ≡ (if row.id new == i then some new else find i rs)
  unfolding find store
  find-store i new old [] h = cc
  find-store i new old (r ∷ rs) h = elim (Bool-cases (row.id r == row.id new)) [
    | inl same ↦ rw same (ground (arith, eq_iff (row.id r) (row.id new)))
    | inr other ↦
        let rest = find-store i new old rs (rw other at h) in
        rw other (
          ground (
            arith,
            rest,
            eq_iff (row.id r) (row.id new),
            eq_iff (row.id r) i,
            eq_iff (row.id new) i,
          ))
  ]

  pub find-append :
      (i : String) (rs : List A) (new : A)
      → find i (rs ++ new ∷ [])
        ≡ elim (find i rs) [ none ↦ if row.id new == i then some new else none | some r ↦ some r ]
  unfolding find
  find-append i [] new = ground arith
  find-append i (r ∷ rs) new = ground (arith, find-append i rs new)

  pub id-find : (i : String) (rs : List A) (r : A) → find i rs ≡ some r → row.id r ≡ i
  unfolding find
  id-find i [] r h = cc
  id-find i (x ∷ rs) r h = ground (arith, id-find i rs r, eq_iff (row.id x) i)

  -- A row that was found is found again by its own id.
  pub find_self :
      (i : String) (rs : List A) (r : A) → find i rs ≡ some r → find (row.id r) rs ≡ some r
  find_self i rs r h = subst (λ k. find k rs ≡ some r) (sym (id-find i rs r h)) h

  -- Every row passes `Q` after a write, if the written row does and the rows passed `P` before.
  pub all-store :
      (P Q : A → Bool) (new : A) (rs : List A)
      → ((r : A) → P r ≡ true → Q r ≡ true)
      → Q new ≡ true
      → all P rs ≡ true
      → all Q (store new rs) ≡ true
  unfolding store
  all-store P Q new [] weaker fine h = refl
  all-store P Q new (r ∷ rs) weaker fine h = elim (Bool-cases (row.id r == row.id new)) [
    | inl same ↦ rw same (ground (arith, all-weaken P Q rs weaker))
    | inr other ↦ rw other (ground (arith, weaker r, all-store P Q new rs weaker))
  ]

  -- A row that is found passes what all rows pass.
  pub all-find :
      (P : A → Bool) (i : String) (rs : List A) (r : A)
      → all P rs ≡ true
      → find i rs ≡ some r
      → P r ≡ true
  unfolding find
  all-find P i [] r h found = cc
  all-find P i (x ∷ rs) r h found = ground (arith, all-find P i rs r)
