-- ===== src/Compute/Local/Collect.antt =====
-- compute/local/provider.py: `LocalProvider.collect`, which lists the files of a run. What the reads of
-- the directory answer, and Python's `str` and `bool`, are parameters.
pub mod Named
use semi_automated_research.Base.{
  ℕ, ◌+◌, String, Option, none, some, Bool, true, false, not, ◌&&◌, ◌||◌, List, [], ◌∷◌, ◌++◌, map,
  ◌==◌, string_eq, contains, where_rows, length, ltb, f_string, if◌then◌else◌,
}
use semi_automated_research.Base.Json.{
  Json, Items, Fields, str, arr, obj, nil, cons, empty, field, get,
}
use semi_automated_research.Base.Exec.{
  Exec, Result, ok, err, pure, raise, gets, modify, or_raise, key_error, type_error, ◌>>=◌, ◌>>◌,
}
use semi_automated_research.Compute.Protocol.{ArtifactCandidate}

-- What is read: `prepared.json`, whether a path is there, the sorted matches of a glob, whether a path is
-- a file, its resolved form and its last part; and how Python prints and tests a value.
pub record Workdir : Type 0 where
  pub remote_workdir : String
  pub prepared : Result Fields
  pub exists : String → Bool
  pub matches : String → Result (List String)
  pub is_file : String → Bool
  pub resolve : String → String
  pub name : String → String
  pub text : Json → String
  pub truth : Json → Bool
  pub digits : ℕ → String

-- The names of the files of every run, and their kinds.
abbrev fixed : List (String × String)
fixed =
    ("run.out", "LOG")
    ∷ ("run.error", "LOG")
    ∷ ("exit.json", "RUN_EXIT")
    ∷ ("manifest.json", "RUN_MANIFEST")
    ∷ []

abbrev need : String → Fields → Exec (List String) Json
need key d = or_raise (get key d) key_error

-- `for output in prepared.get("outputs", [])`: what there is to go over.
abbrev outputs_of : Option Json → Option Items
outputs_of none = some nil
outputs_of (some (arr items)) = some items
outputs_of (some (str String.[])) = some nil
outputs_of (some (obj empty)) = some nil
outputs_of (some _) = none

module _ (w : Workdir) where
  abbrev run_file : String → String
  run_file filename = f_string (w.remote_workdir ∷ "/" ∷ filename ∷ [])

  abbrev fixed_candidate : String × String → ArtifactCandidate
  fixed_candidate (filename, kind) = record {
    logical_name = filename;
    path = run_file filename;
    artifact_kind = kind;
    required = true;
    evidence_candidate = false;
    metadata = empty;
  }

  abbrev fixed_candidates : List ArtifactCandidate
  fixed_candidates = map fixed_candidate (where_rows (λ f. w.exists (run_file f.0)) fixed)

  -- `bool(output.get(key, False))`.
  abbrev flag : String → Fields → Bool
  flag key d = elim (get key d) [ none ↦ false | some v ↦ w.truth v ]

  -- The name of a match; where there are several, with its number and the file's name.
  abbrev pub match_name : Bool → String → ℕ → String → String
  match_name several logical_name index path =
      if several
      then f_string (logical_name ∷ ":" ∷ w.digits index ∷ ":" ∷ w.name path ∷ [])
      else logical_name

  unfoldable pub candidate : Fields → Bool → ℕ → String → Exec (List String) ArtifactCandidate
  candidate d several index path = do
    logical_name ← need "logical_name" d
    artifact_kind ← need "artifact_kind" d
    glob ← need "glob" d
    pure (record {
      logical_name = match_name several (w.text logical_name) index path;
      path = path;
      artifact_kind = w.text artifact_kind;
      required = flag "required" d;
      evidence_candidate = flag "evidence_candidate" d;
      metadata = field "source_glob" glob empty;
    })

  -- The loop over the matches of one output; the state is the set `seen`.
  unfoldable pub match_all :
      Fields → Bool → ℕ → List String → Exec (List String) (List ArtifactCandidate)
  match_all d several index [] = pure []
  match_all d several index (path ∷ paths) =
      let rest = match_all d several (index + 1) paths in
      do
        seen ← gets (λ seen. seen)
        if not (w.is_file path) || contains (w.resolve path) seen then rest else (do
          c ← candidate d several index path
          modify (λ seen. w.resolve path ∷ seen)
          cs ← rest
          pure (c ∷ cs))

  unfoldable pub output_candidates : Json → Exec (List String) (List ArtifactCandidate)
  output_candidates (obj d) = do
    glob ← need "glob" d
    paths ← (λ seen. (w.matches (w.text glob), seen))
    match_all d (ltb 1 (length paths)) 0 paths
  output_candidates _ = raise type_error

  unfoldable pub all_outputs : Items → Exec (List String) (List ArtifactCandidate)
  all_outputs nil = pure []
  all_outputs (cons output items) =
      let rest = all_outputs items in
      do cs ← output_candidates output; others ← rest; pure (cs ++ others)

  -- `LocalProvider.collect`.
  unfoldable pub collect : Exec (List String) (List ArtifactCandidate)
  collect = do
    prepared ← (λ seen. (w.prepared, seen))
    modify (λ seen. map (λ c. w.resolve c.path) fixed_candidates)
    items ← or_raise (outputs_of (get "outputs" prepared)) type_error
    cs ← all_outputs items
    pure (fixed_candidates ++ cs)
