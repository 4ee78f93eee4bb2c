-- ===== src/Compute/Local/Collect/Named.antt =====
-- The candidates of an output bear its name.
use semi_automated_research.Base.{
  ℕ, ◌+◌, String, ◌≡◌, refl, sym, ap, inl, inr, some, Bool, true, ◌&&◌, List, [], ◌∷◌, string_eq,
  text_eq_refl, contains, all, f_string, arith, Bool-cases,
}
use text.Mathlib.Text.{starts_with}
use Prim.Native.String.{◌++◌}
use text.Mathlib.TextPositions.{starts_with-append}
use text.Mathlib.TextLemmas.{append_assoc}
use mathlib.Core.Path.{subst}
use semi_automated_research.Base.Json.{Json, Fields, get}
use semi_automated_research.Base.Exec.{ok, pure}
use semi_automated_research.Base.Exec.Returned.{bind_ok, or_raise_ok, pure_ok}
use semi_automated_research.Compute.Protocol.{ArtifactCandidate}
use semi_automated_research.Compute.Local.Collect.{Workdir, match_name, candidate, match_all}
use semi_automated_research.Validators.Names.{is_named_for}

prefixed :
    (name rest : String) → starts_with (name ++ (":" ++ rest)) (f_string (name ∷ ":" ∷ [])) ≡ true
prefixed name rest =
    subst (λ s. starts_with s (f_string (name ∷ ":" ∷ [])) ≡ true) (append_assoc name ":" rest)
      (starts_with-append (f_string (name ∷ ":" ∷ [])) rest)

both : {a b : Bool} → a ≡ true → b ≡ true → (a && b) ≡ true
both p q = ground arith

module _ (w : Workdir) (d : Fields) (v : Json) (several : Bool) where
  named :
      (index : ℕ) (path : String)
      → is_named_for (w.text v) (match_name w several (w.text v) index path) ≡ true
  named index path = elim (Bool-cases several) [
    | inl many ↦
        let start = prefixed (w.text v) (f_string (w.digits index ∷ ":" ∷ w.name path ∷ [])) in
        rw many (ground (arith, start))
    | inr one ↦ rw one (ground (arith, text_eq_refl (w.text v)))
  ]

  -- A candidate bears the output's name, and its path is a file.
  abbrev pub is_fit : ArtifactCandidate → Bool
  is_fit c = is_named_for (w.text v) c.logical_name && w.is_file c.path

  candidate-is_fit :
      (index : ℕ) (path : String) (seen seen' : List String) (c : ArtifactCandidate)
      → get "logical_name" d ≡ some v
      → w.is_file path ≡ true
      → candidate w d several index path seen ≡ (ok c, seen')
      → is_fit c ≡ true
  unfolding candidate pure
  candidate-is_fit index path seen seen' c known file h =
      let first = bind_ok _ _ seen c seen' h in
      let second = bind_ok _ _ first.between c seen' first.onward in
      let third = bind_ok _ _ second.between c seen' second.onward in
      let given = (or_raise_ok _ _ _ _ _ first.ran).0 in
      let same : first.value ≡ v = cc in
      let made = ap (λ x. x.0) third.onward in
      let titled : c.logical_name ≡ match_name w several (w.text v) index path = cc in
      let placed : c.path ≡ path = cc in
      both (subst (λ n. is_named_for (w.text v) n ≡ true) (sym titled) (named index path))
        (subst (λ n. w.is_file n ≡ true) (sym placed) file)

  -- Where the loop over the matches of one output returns, every candidate bears the name of the output,
  -- as the validator asks for it, and its path is a file.
  pub match_all_named :
      (paths : List String) (index : ℕ) (seen seen' : List String) (cs : List ArtifactCandidate)
      → get "logical_name" d ≡ some v
      → match_all w d several index paths seen ≡ (ok cs, seen')
      → all is_fit cs ≡ true
  unfolding match_all
  match_all_named [] index seen seen' cs known h =
      subst (λ xs. all is_fit xs ≡ true) (pure_ok [] seen cs seen' h) refl
  match_all_named (path ∷ paths) index seen seen' cs known h =
      let looked = bind_ok _ _ seen cs seen' h in
      elim (Bool-cases (w.is_file path)) [
        | inr other ↦
            match_all_named paths (index + 1) looked.between seen' cs known
              (rw other at looked.onward)
        | inl file ↦ elim (Bool-cases (contains (w.resolve path) looked.value)) [
          | inl twice ↦
              match_all_named paths (index + 1) looked.between seen' cs known
                (rw (file, twice) at looked.onward)
          | inr fresh ↦
              let taken = bind_ok _ _ looked.between cs seen' (rw (file, fresh) at looked.onward) in
              let noted = bind_ok _ _ taken.between cs seen' taken.onward in
              let more = bind_ok _ _ noted.between cs seen' noted.onward in
              let listed = pure_ok (taken.value ∷ more.value) more.between cs seen' more.onward in
              subst (λ xs. all is_fit xs ≡ true) listed
                (both
                  (candidate-is_fit index path looked.between taken.between taken.value known file
                    taken.ran)
                  (match_all_named paths (index + 1) noted.between more.between more.value known
                    more.ran))
        ]
      ]
