-- ===== src/Validators/Finite.antt =====
-- The floats that `_contains_nonfinite` looks at.
use semi_automated_research.Base.{
  ◌≡◌, refl, sym, Bool, true, false, not, List, [], ◌∷◌, ◌++◌, any, any-append,
}
use semi_automated_research.Base.Json.{
  Float, finite, infinity, neg_infinity, nan, Json, Items, Fields, null, bool, int, float, str, arr,
  obj, nil, cons, empty, field,
}
use semi_automated_research.Validators.Reasons.{
  contains_nonfinite, some_item_nonfinite, some_field_nonfinite,
}

abbrev pub is_finite : Float → Bool
is_finite (finite m e) = true
is_finite _ = false

-- All floats of a value, at any depth; keys of objects hold none.
unfoldable mutual
  pub floats : Json → List Float
  floats (float x) = x ∷ []
  floats (arr items) = item_floats items
  floats (obj fields) = field_floats fields
  floats _ = []

  pub item_floats : Items → List Float
  item_floats nil = []
  item_floats (cons v items) = floats v ++ item_floats items

  pub field_floats : Fields → List Float
  field_floats empty = []
  field_floats (field key v fields) = floats v ++ field_floats fields

mutual
  unfolding contains_nonfinite some_item_nonfinite some_field_nonfinite floats item_floats
      field_floats

  pub contains_nonfinite-any :
      (v : Json) → contains_nonfinite v ≡ any (λ x. not (is_finite x)) (floats v)
  contains_nonfinite-any null = refl
  contains_nonfinite-any (bool b) = refl
  contains_nonfinite-any (int n) = refl
  contains_nonfinite-any (float (finite m e)) = refl
  contains_nonfinite-any (float infinity) = refl
  contains_nonfinite-any (float neg_infinity) = refl
  contains_nonfinite-any (float nan) = refl
  contains_nonfinite-any (str s) = refl
  contains_nonfinite-any (arr items) = some_item_nonfinite-any items
  contains_nonfinite-any (obj fields) = some_field_nonfinite-any fields

  some_item_nonfinite-any :
      (items : Items) → some_item_nonfinite items ≡ any (λ x. not (is_finite x)) (item_floats items)
  some_item_nonfinite-any nil = refl
  some_item_nonfinite-any (cons v items) =
      rw (contains_nonfinite-any v, some_item_nonfinite-any items)
        (sym (any-append (λ x. not (is_finite x)) (floats v) (item_floats items)))

  some_field_nonfinite-any :
      (fields : Fields)
      → some_field_nonfinite fields ≡ any (λ x. not (is_finite x)) (field_floats fields)
  some_field_nonfinite-any empty = refl
  some_field_nonfinite-any (field key v fields) =
      rw (contains_nonfinite-any v, some_field_nonfinite-any fields)
        (sym (any-append (λ x. not (is_finite x)) (floats v) (field_floats fields)))

-- `_contains_nonfinite` is true just of the values one of whose floats, at any depth, is infinite or not
-- a number.
pub contains_nonfinite_lem :
    (v : Json) → contains_nonfinite v ≡ any (λ x. not (is_finite x)) (floats v)
contains_nonfinite_lem v = contains_nonfinite-any v
