-- ===== src/Compute/Codec.antt =====
-- What pydantic and Python's `json` answer, which are no part of the repository.
use semi_automated_research.Base.{String, Option}
use semi_automated_research.Base.Json.{Json, Fields}
use semi_automated_research.Compute.Protocol.{ComputeTaskSpec, ResourceSnapshot}

-- What the JSON file of an Artifact gives: its value; the text of an `OSError` or of a
-- `JSONDecodeError`; or a `UnicodeDecodeError`, which is neither.
pub data Loaded : Type 0 where
  parsed : Json → Loaded
  unreadable : String → Loaded
  undecodable : Loaded

-- `ComputeTaskSpec.model_validate`, where `none` raises, and `model_dump(mode="json")`; the reading of
-- the file at a path.
pub record Codec : Type 0 where
  pub model_validate : Fields → Option ComputeTaskSpec
  pub dump_spec : ComputeTaskSpec → Fields
  pub dump_snapshot : ResourceSnapshot → Fields
  pub load : String → Loaded
