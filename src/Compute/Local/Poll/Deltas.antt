-- ===== src/Compute/Local/Poll/Deltas.antt =====
-- What successive polls read of a log that only grows.
use semi_automated_research.Base.{some, List, [], ◌∷◌, ◌++◌, length}
use semi_automated_research.Base.Json.{ℤ}
use semi_automated_research.World.{Bytes}
use semi_automated_research.Compute.Local.Poll.{read_delta}

-- The bytes that later polls read, one after another. Between two polls a piece was appended before the
-- size was taken, and `late` between that and the end of the read.
unfoldable pub follow : Bytes → ℤ → List (Bytes × Bytes) → List Bytes
follow content offset [] = []
follow content offset ((piece, late) ∷ rounds) =
    let grown = content ++ piece in
    let (delta, next) =
      read_delta (some (record { size = length grown; content = grown ++ late })) offset in
    delta ∷ follow grown next rounds
