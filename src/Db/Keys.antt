-- ===== src/Db/Keys.antt =====
-- Tables whose rows have different ids.
use mathlib.Core.Option.{some-injective}
use semi_automated_research.Base.{
  String, ◌≡◌, refl, sym, ◌∙◌, ◌⊎◌, inl, inr, Option-cases, Bool, true, none, some, List, [], ◌∷◌,
  ◌++◌, arith, ◌==◌, string_eq, all, Bool-cases, text_eq,
}
use semi_automated_research.Db.Table.{Row, find, store, find-append}

module _ {A : Type 0} ⦃row : Row A⦄ where
  abbrev pub Distinct : List A → Type 0
  Distinct [] = Unit
  Distinct (r ∷ rs) = (find (row.id r) rs ≡ none) × Distinct rs

  none-find-store :
      (i : String) (new : A) (rs : List A) → find i rs ≡ none → find i (store new rs) ≡ none
  unfolding find store
  none-find-store i new [] h = refl
  none-find-store i new (r ∷ rs) h = elim (Bool-cases (row.id r == row.id new)) [
    | inl same ↦ rw same (ground (arith, text_eq (row.id r) (row.id new)))
    | inr other ↦ rw other (ground (arith, none-find-store i new rs))
  ]

  -- A write makes no row appear.
  pub find-store_none :
      (i : String) (new : A) (rs : List A) → find i (store new rs) ≡ none → find i rs ≡ none
  unfolding find store
  find-store_none i new [] h = refl
  find-store_none i new (r ∷ rs) h = elim (Bool-cases (row.id r == row.id new)) [
    | inl same ↦ ground (arith, (rw same at h), same, text_eq (row.id r) (row.id new))
    | inr other ↦ ground (arith, find-store_none i new rs, (rw other at h))
  ]

  pub store-Distinct : (new : A) (rs : List A) → Distinct rs → Distinct (store new rs)
  unfolding store
  store-Distinct new [] h = tt
  store-Distinct new (r ∷ rs) h = elim (Bool-cases (row.id r == row.id new)) [
    | inl same ↦ rw same (rw (← (text_eq (row.id r) (row.id new)).0 same) h.0, h.1)
    | inr other ↦ rw other (none-find-store (row.id r) new rs h.0, store-Distinct new rs h.1)
  ]

  pub find-append_some :
      (i : String) (rs : List A) (new r : A)
      → find i (rs ++ new ∷ []) ≡ some r
      → (find i rs ≡ some r) ⊎ (r ≡ new)
  find-append_some i rs new r h = elim (Option-cases (find i rs)) [
    | inl absent ↦ elim (Bool-cases (row.id new == i)) [
      | inl here ↦ inr (sym (some-injective new r (rw (find-append i rs new, absent, here) at h)))
      | inr other ↦ cc (rw (find-append i rs new, absent, other) at h)
    ]
    | inr (q, present) ↦ inl (present ∙ (rw (find-append i rs new, present) at h))
  ]

  pub find-append_none :
      (i : String) (rs : List A) (new : A) → find i (rs ++ new ∷ []) ≡ none → find i rs ≡ none
  find-append_none i rs new h = elim (Option-cases (find i rs)) [
    | inl absent ↦ absent
    | inr (q, present) ↦ cc (rw (find-append i rs new, present) at h)
  ]

  -- What was found is found after an insertion.
  pub find-append_kept :
      (i : String) (rs : List A) (new r : A) → find i rs ≡ some r → find i (rs ++ new ∷ []) ≡ some r
  find-append_kept i rs new r h = rw (find-append i rs new, h) refl

  pub append-Distinct :
      (rs : List A) (new : A)
      → Distinct rs
      → find (row.id new) rs ≡ none
      → Distinct (rs ++ new ∷ [])
  unfolding find
  append-Distinct [] new h fresh = (refl, tt)
  append-Distinct (r ∷ rs) new h fresh = (
    rw (find-append (row.id r) rs new, h.0)
        (ground (arith, text_eq (row.id r) (row.id new), text_eq (row.id new) (row.id r))),
    append-Distinct rs new h.1 (ground arith),
  )

  -- Each row of `xs` is what `ws` holds under its id.
  abbrev Held : List A → List A → Type 0
  Held ws [] = Unit
  Held ws (x ∷ xs) = (find (row.id x) ws ≡ some x) × Held ws xs

  Held-cons : (w : A) (ws xs : List A) → find (row.id w) ws ≡ none → Held ws xs → Held (w ∷ ws) xs
  unfolding find
  Held-cons w ws [] absent h = tt
  Held-cons w ws (x ∷ xs) absent h =
      (ground (arith, text_eq (row.id w) (row.id x)), Held-cons w ws xs absent h.1)

  Held-self : (ws : List A) → Distinct ws → Held ws ws
  unfolding find
  Held-self [] h = tt
  Held-self (w ∷ ws) h =
      (ground (arith, text_eq (row.id w) (row.id w)), Held-cons w ws ws h.0 (Held-self ws h.1))

  Held-all :
      (P : A → Bool) (ws xs : List A)
      → ((x : A) → find (row.id x) ws ≡ some x → P x ≡ true)
      → Held ws xs
      → all P xs ≡ true
  Held-all P ws [] good h = refl
  Held-all P ws (x ∷ xs) good h = rw (good x h.0) (Held-all P ws xs good h.1)

  -- A test that every row passes which is found under its own id is passed by all rows.
  pub Distinct-all :
      (P : A → Bool) (ws : List A)
      → Distinct ws
      → ((x : A) → find (row.id x) ws ≡ some x → P x ≡ true)
      → all P ws ≡ true
  Distinct-all P ws h good = Held-all P ws ws good (Held-self ws h)
