-- ===== src/Samples/Collecting.antt =====
-- The theorem on collected files, applied to a directory with two matches of one output.
use semi_automated_research.Base.{ℕ, zero, String, ◌≡◌, refl, true, false, [], ◌∷◌, all}
use semi_automated_research.Base.Json.{Json, Fields, str, empty, field}
use semi_automated_research.Base.Exec.{ok, ◌>>=◌}
use semi_automated_research.Compute.Protocol.{ArtifactCandidate}
use semi_automated_research.Compute.Local.Collect.{Workdir, candidate, match_all}
use semi_automated_research.Compute.Local.Collect.Named.{is_fit, match_all_named}

abbrev text_of : Json → String
text_of (str s) = s
text_of _ = "?"

abbrev digit : ℕ → String
digit zero = "0"
digit _ = "1"

abbrev directory : Workdir
directory = record {
  remote_workdir = "/jobs/1";
  prepared = ok empty;
  exists = λ path. false;
  matches = λ glob. ok [];
  is_file = λ path. true;
  resolve = λ path. path;
  name = λ path. path;
  text = text_of;
  truth = λ v. false;
  digits = digit;
}

abbrev output : Fields
output =
    field "logical_name" (str "metrics")
      (field "artifact_kind" (str "METRICS") (field "glob" (str "*") empty))

abbrev collected : ArtifactCandidate
collected = record {
  logical_name = "metrics:1:b";
  path = "b";
  artifact_kind = "METRICS";
  required = false;
  evidence_candidate = false;
  metadata = field "source_glob" (str "*") empty;
}

match_all_named_example : all (is_fit directory output (str "metrics") true) (collected ∷ []) ≡ true
unfolding match_all candidate ◌>>=◌
match_all_named_example =
    match_all_named directory output (str "metrics") true ("a" ∷ "b" ∷ []) 0 ("a" ∷ [])
      ("b" ∷ "a" ∷ []) (collected ∷ []) refl refl
