-- ===== src/Validators/Names.antt =====
-- services/validators.py: the names of the Artifacts that have to be there, and of the validators.
use Prim.Native.Nat.{Ordering}
use Prim.Native.String.{compare}
use text.Mathlib.Text.{starts_with}
use semi_automated_research.Base.{
  String, Option, none, some, Bool, ◌||◌, List, [], ◌∷◌, map, ◌==◌, string_eq, where_rows, f_string,
}
use semi_automated_research.Base.Json.{Json, Items, Fields, str, arr, obj, nil, cons, empty, field}
use semi_automated_research.Domain.ComputeStatus.{compute_execution_status_eq}
use semi_automated_research.Domain.Resource.{artifact_integrity_status_eq}
use semi_automated_research.Compute.Protocol.{ComputeTaskSpec, OutputSpec}

-- `set(value).update(...)` and `sorted`: a sorted list without repetitions.
unfoldable pub add_sorted : String → List String → List String
add_sorted name [] = name ∷ []
add_sorted name (x ∷ xs) =
    let rest = add_sorted name xs in
    elim (compare name x) [
      | Ordering.lt ↦ name ∷ x ∷ xs
      | Ordering.eq ↦ x ∷ xs
      | Ordering.gt ↦ x ∷ rest
    ]

unfoldable pub add_all : List String → List String → List String
unfolding add_sorted
add_all [] xs = xs
add_all (name ∷ names) xs = let rest = add_all names xs in add_sorted name rest

-- The characters of a text, as texts.
abbrev characters : String → List String
characters String.[] = []
characters (String.◌∷◌ c s) = String.◌∷◌ c String.[] ∷ characters s

abbrev keys_of : Fields → List String
keys_of empty = []
keys_of (field k v d) = k ∷ keys_of d

-- The texts of an array, where all its items are texts. Another item makes `set` or `sorted` raise.
abbrev all_texts : Items → Option (List String)
all_texts nil = some []
all_texts (cons (str s) items) = elim (all_texts items) [ none ↦ none | some xs ↦ some (s ∷ xs) ]
all_texts (cons _ items) = none

-- `set(policy.get("required_artifacts", []))`, to be sorted among texts; `none` raises `TypeError`.
abbrev pub required_of : Option Json → Option (List String)
required_of none = some []
required_of (some (arr items)) = all_texts items
required_of (some (str s)) = some (characters s)
required_of (some (obj fields)) = some (keys_of fields)
required_of (some _) = none

-- The texts among the items: a scalar is in the set and equals no name; a list or a dict is unhashable.
abbrev some_texts : Items → Option (List String)
some_texts nil = some []
some_texts (cons (str s) items) = elim (some_texts items) [ none ↦ none | some xs ↦ some (s ∷ xs) ]
some_texts (cons (arr xs) items) = none
some_texts (cons (obj d) items) = none
some_texts (cons _ items) = some_texts items

-- `validators.update(policy.get("validators", []))`.
abbrev pub validators_of : Option Json → Option (List String)
validators_of none = some []
validators_of (some (arr items)) = some_texts items
validators_of (some (str s)) = some (characters s)
validators_of (some (obj fields)) = some (keys_of fields)
validators_of (some _) = none

abbrev pub output_names : (OutputSpec → Bool) → List OutputSpec → List String
output_names p outputs = map (λ o. o.logical_name) (where_rows p outputs)

-- The names that have to be there, beside those of the policy, which are given.
unfoldable pub required_names : ComputeTaskSpec → List String → List String
unfolding add_all
required_names spec policy =
    add_all ("run.out" ∷ "run.error" ∷ "exit.json" ∷ [])
      (add_all (output_names (λ o. o.required) spec.outputs) (add_all policy []))

abbrev pub is_named_for : String → String → Bool
is_named_for logical_name name =
    name == logical_name || starts_with name (f_string (logical_name ∷ ":" ∷ []))
