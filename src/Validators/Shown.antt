-- ===== src/Validators/Shown.antt =====
-- The names of a run's files: no reason to reject a name shows a verified Artifact under it.
use mathlib.Core.List.{Memᴰ}
use mathlib.Core.Path.{subst}
use Prim.Native.Nat.{Ordering}
use Prim.Native.String.{compare}
use text.Mathlib.TextEquality.{path_by_compare}
use semi_automated_research.Base.{
  String, ◌≡◌, refl, sym, ap, ◌⊎◌, inl, inr, Bool, true, false, ◌||◌, List, [], ◌∷◌, ◌++◌, arith,
  ◌==◌, string_eq, contains, text_eq, Bool-cases,
}
use semi_automated_research.Base.Dict.{put}
use semi_automated_research.Domain.ComputeStatus.{compute_execution_status_eq}
use semi_automated_research.Domain.Resource.{ArtifactIntegrityStatus, artifact_integrity_status_eq}
use semi_automated_research.Db.Models.{Artifact, task_row}
use semi_automated_research.Validators.Names.{add_sorted, add_all, is_named_for}
use semi_automated_research.Validators.Reasons.{
  Reason, by_name, matching, name_reason, name_reasons,
}
use semi_automated_research.Validators.{is_empty}

pub is_empty-append :
    (xs ys : List Reason) → is_empty (xs ++ ys) ≡ true → (is_empty xs ≡ true) × (is_empty ys ≡ true)
is_empty-append [] ys h = (refl, h)
is_empty-append (x ∷ xs) ys h = cc

Mem-cons {ℓ} : {A : Type ℓ} {e x : A} {xs : List A} → Memᴰ e (x ∷ xs) → (e ≡ x) ⊎ Memᴰ e xs
Mem-cons (Memᴰ.head same) = inl same
Mem-cons (Memᴰ.tail there) = inr there

put-all :
    (P : String × Artifact → Type 0) (k : String) (v : Artifact) (d : List (String × Artifact))
    → ((e : String × Artifact) → Memᴰ e d → P e)
    → P (k, v)
    → (e : String × Artifact) → Memᴰ e (put k v d)
    → P e
put-all P k v [] before here e there = elim (Mem-cons there) [
  | inl same ↦ subst P (sym same) here
  | inr nowhere ↦ elim nowhere [ ]
]
put-all P k v ((j, w) ∷ d) before here e there = elim (Bool-cases (j == k)) [
  | inl own ↦
      let here_too : P (j, v) = subst (λ i. P (i, v)) (sym ((text_eq j k).0 own)) here in
      let inside : Memᴰ e ((j, v) ∷ d) = rw own at there in
      elim (Mem-cons inside) [
        | inl same ↦ subst P (sym same) here_too
        | inr old ↦ before e (Memᴰ.tail old)
      ]
  | inr other ↦
      let inside : Memᴰ e ((j, w) ∷ put k v d) = rw other at there in
      elim (Mem-cons inside) [
        | inl same ↦ subst P (sym same) (before (j, w) (Memᴰ.head refl))
        | inr old ↦ put-all P k v d (λ x listed. before x (Memᴰ.tail listed)) here e old
      ]
]

-- An entry of the dict of names is an Artifact under its own name.
by_name-all :
    (P : String × Artifact → Type 0) (d : List (String × Artifact)) (artifacts : List Artifact)
    → ((e : String × Artifact) → Memᴰ e d → P e)
    → ((a : Artifact) → Memᴰ a artifacts → P (a.logical_name, a))
    → (e : String × Artifact) → Memᴰ e (by_name d artifacts)
    → P e
unfolding by_name
by_name-all P d [] before new e there = before e there
by_name-all P d (a ∷ artifacts) before new e there =
    by_name-all P (put a.logical_name a d) artifacts
      (put-all P a.logical_name a d before (new a (Memᴰ.head refl)))
      (λ b listed. new b (Memᴰ.tail listed)) e there

matching-first :
    (name : String) (d : List (String × Artifact)) (a : Artifact) (rest : List Artifact)
    → matching name d ≡ a ∷ rest
    → (k : String) × Memᴰ {A = String × Artifact} (k, a) d × (is_named_for name k ≡ true)
unfolding matching
matching-first name [] a rest h = cc
matching-first name ((k, b) ∷ d) a rest h = elim (Bool-cases (is_named_for name k)) [
  | inl named ↦
      let same : b ≡ a = cc (rw named at h) in (k, Memᴰ.head (ap (λ x. (k, x)) (sym same)), named)
  | inr other ↦
      let (j, there, named) = matching-first name d a rest (rw other at h) in
      (j, Memᴰ.tail there, named)
]

List-cases {ℓ} : {A : Type ℓ} (xs : List A) → (xs ≡ []) ⊎ ((x : A) × (ys : List A) × (xs ≡ x ∷ ys))
List-cases [] = inl refl
List-cases (x ∷ xs) = inr (x, xs, refl)

-- An Artifact of the list stands for the name, and is VERIFIED.
pub record IsShown (name : String) (artifacts : List Artifact) : Type 0 where
  pub artifact : Artifact
  pub listed : Memᴰ artifact artifacts
  pub named : is_named_for name artifact.logical_name ≡ true
  pub verified : artifact.integrity_status ≡ ArtifactIntegrityStatus.verified

name_reason-IsShown :
    (name : String) (artifacts : List Artifact)
    → is_empty (name_reason name (matching name (by_name [] artifacts))) ≡ true
    → IsShown name artifacts
unfolding name_reason
name_reason-IsShown name artifacts h = elim (List-cases (matching name (by_name [] artifacts))) [
  | inl nothing ↦ cc (rw nothing at h)
  | inr (a, rest, found) ↦
      let (k, there, named) = matching-first name (by_name [] artifacts) a rest found in
      let (listed, own) =
        by_name-all (λ e. Memᴰ e.1 artifacts × (e.1.logical_name ≡ e.0)) [] artifacts
          (λ e nowhere. elim nowhere [ ]) (λ b listed. (listed, refl)) (k, a) there in
      record {
        artifact = a;
        listed = listed;
        named = subst (λ n. is_named_for name n ≡ true) (sym own) named;
        verified =
            (artifact_integrity_status_eq.beq_iff a.integrity_status
                ArtifactIntegrityStatus.verified).0
              (ground (arith, (rw found at h)));
      }
]

pub name_reasons-IsShown :
    (name : String) (names : List String) (artifacts : List Artifact)
    → contains name names ≡ true
    → is_empty (name_reasons names (by_name [] artifacts)) ≡ true
    → IsShown name artifacts
unfolding name_reasons
name_reasons-IsShown name [] artifacts listed h = cc
name_reasons-IsShown name (x ∷ names) artifacts listed h =
    let (first, rest) = is_empty-append _ _ h in
    elim (Bool-cases (name == x)) [
      | inl same ↦
          subst (λ n. IsShown n artifacts) (sym ((text_eq name x).0 same))
            (name_reason-IsShown x artifacts first)
      | inr other ↦ name_reasons-IsShown name names artifacts (rw other at listed) rest
    ]

||-again : (a b : Bool) → (a || b) ≡ (a || (a || b))
||-again true b = refl
||-again false b = refl

placed :
    (name x y : String) (xs rest : List String) (o : Ordering)
    → (o ≡ Ordering.eq → x ≡ y)
    → contains name rest ≡ (name == x || contains name xs)
    → contains name
        (elim o [ Ordering.lt ↦ x ∷ y ∷ xs | Ordering.eq ↦ y ∷ xs | Ordering.gt ↦ y ∷ rest ])
      ≡ (name == x || (name == y || contains name xs))
placed name x y xs rest Ordering.lt same e = refl
placed name x y xs rest Ordering.eq same e =
    subst (λ z. (name == y || contains name xs) ≡ (name == z || (name == y || contains name xs)))
      (sym (same refl)) (||-again (name == y) (contains name xs))
placed name x y xs rest Ordering.gt same e = ground arith

contains-add_sorted :
    (name x : String) (xs : List String)
    → contains name (add_sorted x xs) ≡ (name == x || contains name xs)
unfolding add_sorted
contains-add_sorted name x [] = refl
contains-add_sorted name x (y ∷ xs) =
    placed name x y xs (add_sorted x xs) (compare x y) (path_by_compare x y)
      (contains-add_sorted name x xs)

pub contains-add_all :
    (name : String) (names xs : List String)
    → contains name (add_all names xs) ≡ (contains name names || contains name xs)
unfolding add_all
contains-add_all name [] xs = refl
contains-add_all name (x ∷ names) xs =
    let before = contains-add_all name names xs in
    rw (contains-add_sorted name x (add_all names xs), before) (ground arith)
