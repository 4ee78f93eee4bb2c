-- ===== src/Artifacts/Content.antt =====
-- The content-addressed files: what a content's file holds, however the copy went.
use semi_automated_research.Base.{
  ℕ, String, ◌≡◌, refl, ◌∙◌, inl, inr, none, some, Bool, true, false, not, ◌==◌, string_eq,
  text_eq_refl, length, Bool-cases, Option-cases,
}
use semi_automated_research.Base.Dict.{lookup, put, lookup-put}
use semi_automated_research.Base.Exec.{Result, ok, err, ◌>>=◌}
use semi_automated_research.ProjectState.Rows.{is_absent}
use semi_automated_research.World.{Bytes, Files}
use semi_automated_research.Artifacts.{
  Storage, destination, temporary, copy_in, copied_or_checked, keep_content,
}

module _ (storage : Storage) (project_id : String) (content : Bytes) (before : Files) where
  abbrev digest : String
  digest = storage.sha256 content

  abbrev home : String
  home = destination storage project_id digest

  abbrev leftover : Bool
  leftover = not (is_absent (lookup (temporary storage project_id digest) before.tree))

  -- A file is there with the content's hash, the size is its size, and no other file has changed.
  pub record IsKept (size : ℕ) (after : Files) : Type 0 where
    pub bytes : Bytes
    pub there : lookup home after.tree ≡ some bytes
    pub addressed : (storage.sha256 bytes == digest) ≡ true
    pub measured : size ≡ length bytes
    pub others :
        (path : String) → (home == path) ≡ false → lookup path after.tree ≡ lookup path before.tree

  abbrev KeptAfter : Result ℕ × Files → Type 0
  KeptAfter (ok size, after) = IsKept size after
  KeptAfter (err e, after) = after.tree ≡ before.tree

  abbrev copy : Bytes
  copy = storage.copied before.copies content

  checked-KeptAfter :
      (old : Bytes)
      → lookup home before.tree ≡ some old
      → KeptAfter (keep_content storage project_id content before)
  unfolding keep_content copied_or_checked ◌>>=◌
  checked-KeptAfter old found = elim (Bool-cases (storage.sha256 old == digest)) [
    | inl same ↦
        rw (found, same, found)
          (record {
            bytes = old;
            there = found;
            addressed = same;
            measured = refl;
            others = λ path other. refl;
          })
    | inr other ↦ rw (found, other) refl
  ]

  home-put : lookup home (put home copy before.tree) ≡ some copy
  home-put = lookup-put home home copy before.tree ∙ rw (text_eq_refl home) refl

  copied-KeptAfter :
      lookup home before.tree ≡ none → KeptAfter (keep_content storage project_id content before)
  unfolding keep_content copied_or_checked copy_in ◌>>=◌
  copied-KeptAfter missing = elim (Bool-cases leftover) [
    | inl left ↦ rw (missing, left) refl
    | inr clear ↦ elim (Bool-cases (storage.sha256 copy == digest)) [
      | inl same ↦
          rw (missing, clear, same, home-put)
            (record {
              bytes = copy;
              there = home-put;
              addressed = same;
              measured = refl;
              others = λ path other. lookup-put path home copy before.tree ∙ rw other refl;
            })
      | inr other ↦ rw (missing, clear, other) refl
    ]
  ]

  keep_content-KeptAfter : KeptAfter (keep_content storage project_id content before)
  keep_content-KeptAfter = elim (Option-cases (lookup home before.tree)) [
    | inl missing ↦ copied-KeptAfter missing
    | inr (old, found) ↦ checked-KeptAfter old found
  ]

  -- Where the store keeps a content, whatever the copy of it held, the file under the content's digest
  -- is there and has that hash, the size returned is the file's, and no other file has changed.
  pub keep_content_lem :
      (size : ℕ) (after : Files)
      → keep_content storage project_id content before ≡ (ok size, after)
      → IsKept size after
  keep_content_lem size after h = rw h at keep_content-KeptAfter
