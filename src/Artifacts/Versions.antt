-- ===== src/Artifacts/Versions.antt =====
-- The versions that Artifacts of one name get.
use mathlib.Core.List.{Memᴰ}
use mathlib.Core.Path.{subst}
use semi_automated_research.Base.{
  ◌++◌, Option, none, some, refl, sym, ◌∙◌, ap, text_eq_refl, ℕ, ◌<◌, String, ◌≡◌, Bool, true, List,
  [], ◌∷◌, arith, ◌&&◌, ◌==◌, string_eq, Bool-cases, Option-cases, inl, inr,
}
use semi_automated_research.Base.Exec.{
  ◌>>◌, pure, ok, integrity_error, write_unless, ◌>>=◌, gets, raise_if, modify,
}
use semi_automated_research.Base.Exec.Keeps.{Keeps, keeps_rules, Keeps-write_unless}
use semi_automated_research.Base.Exec.Returned.{bind_ok, Keeps_ok}
use semi_automated_research.Db.Models.{Artifact}
use semi_automated_research.Db.Session.{Db, Session, with_new_artifact}
use semi_automated_research.Db.Session.Guard.{select, flush, passes_listeners}
use semi_automated_research.EventLog.{Entry, append}
use semi_automated_research.Invariant.Sees.{
  IsApart, Sees, flush-Sees, new_id-Sees, utc_now-Sees, append-Sees,
}
use semi_automated_research.Artifacts.{
  Storage, IngestArgs, max_version, next_version, new_artifact, link_task, enter_artifact,
}

abbrev pub is_named : String → String → Artifact → Bool
is_named project_id name r = r.project_id == project_id && r.logical_name == name

max_version_head :
    (project_id name : String) (r : Artifact) (rs : List Artifact)
    → is_named project_id name r ≡ true
    → r.version < next_version (max_version project_id name (r ∷ rs))
unfolding max_version
max_version_head project_id name r rs own = elim (Option-cases (max_version project_id name rs)) [
  | inl first ↦ rw (own, first) (omega arith)
  | inr (v, rest) ↦ rw (own, rest) (ground arith)
]

max_version_tail :
    (project_id name : String) (n : ℕ) (r : Artifact) (rs : List Artifact)
    → n < next_version (max_version project_id name rs)
    → 0 < n
    → n < next_version (max_version project_id name (r ∷ rs))
unfolding max_version
max_version_tail project_id name n r rs h some_n =
    elim (Option-cases (max_version project_id name rs)) [
      | inl first ↦ absurd (omega (arith, (rw first at h)))
      | inr (v, rest) ↦ elim (Bool-cases (is_named project_id name r)) [
        | inl own ↦ rw (own, rest) (ground (arith, (rw rest at h)))
        | inr other ↦ rw (other, rest) (rw rest at h)
      ]
    ]

-- One more than the greatest version is above that of every Artifact of the Project with the name, where
-- those count from 1.
pub next_version_above :
    (project_id name : String) (rows : List Artifact) (r : Artifact)
    → Memᴰ r rows
    → is_named project_id name r ≡ true
    → 0 < r.version
    → r.version < next_version (max_version project_id name rows)
next_version_above project_id name [] r listed own positive = elim listed [ ]
next_version_above project_id name (x ∷ rows) r (Memᴰ.head same) own positive =
    subst (λ y. r.version < next_version (max_version project_id name (y ∷ rows))) same
      (max_version_head project_id name r rows own)
next_version_above project_id name (x ∷ rows) r (Memᴰ.tail there) own positive =
    max_version_tail project_id name r.version x rows
      (next_version_above project_id name rows r there own positive) positive

abbrev artifacts_of : Db → List Artifact
artifacts_of db = db.artifacts

artifacts_of-IsApart : IsApart artifacts_of
artifacts_of-IsApart = record { at = λ db es ps. refl }

select_value :
    {A : Type 0} (f : Db → A) (s : Session) (v : A) (s' : Session)
    → select f s ≡ (ok v, s')
    → (v ≡ f s.db) × (s'.db ≡ s.db)
unfolding select flush ◌>>=◌ gets
select_value f s v s' h = elim (Bool-cases (passes_listeners s)) [
  | inl pass ↦ let done = rw pass at h in (cc, cc)
  | inr stop ↦ absurd (cc (rw stop at h))
]

write_unless_ok :
    (test : Session → Bool) (f : Session → Session) (s s' : Session)
    → write_unless test integrity_error f s ≡ (ok tt, s')
    → f s ≡ s'
unfolding write_unless ◌>>=◌ gets raise_if modify
write_unless_ok test f s s' h = elim (Bool-cases (test s)) [
  | inl stop ↦ absurd (cc (rw stop at h))
  | inr free ↦ ap (λ x. x.1) (rw free at h)
]

link_task-Sees :
    (rows : List Artifact) (task_id : Option String) (id : String)
    → Keeps (Sees artifacts_of rows) (link_task task_id id)
unfolding link_task
link_task-Sees rows none id = search keeps_rules
link_task-Sees rows (some task_id) id = Keeps-write_unless _ _ _ λ s h free. h

announced-Sees :
    (rows : List Artifact) (task_id : Option String) (id : String) (created verified : Entry)
    → Keeps
        (Sees artifacts_of rows)
        (flush >> (link_task task_id id >> (append created >> (append verified >> pure id))))
announced-Sees rows task_id id created verified =
    search (keeps_rules, flush-Sees, link_task-Sees, append-Sees, artifacts_of-IsApart) depth 10

module _ (storage : Storage) (a : IngestArgs) (digest : String) (size : ℕ) where
  -- Where `enter_artifact` returns, it has added one Artifact of the Project with the logical name, whose
  -- version is above that of every Artifact of the Project with that name that counts from 1.
  pub enter_artifact_version :
      (s s' : Session) (id : String)
      → enter_artifact storage a digest size s ≡ (ok id, s')
      → (row : Artifact) × (s'.db.artifacts ≡ s.db.artifacts ++ row ∷ [])
        × (is_named a.project_id a.logical_name row ≡ true)
        × ((r : Artifact)
            → Memᴰ r s.db.artifacts
            → is_named a.project_id a.logical_name r ≡ true
            → 0 < r.version
            → r.version < row.version)
  unfolding enter_artifact
  enter_artifact_version s s' id h =
      let old = s.db.artifacts in
      let chosen = bind_ok _ _ s id s' h in
      let timed = bind_ok _ _ chosen.between id s' chosen.onward in
      let drawn = bind_ok _ _ timed.between id s' timed.onward in
      let stamped = bind_ok _ _ drawn.between id s' drawn.onward in
      let added = bind_ok _ _ stamped.between id s' stamped.onward in
      let (asked, same) =
        select_value (λ db. max_version a.project_id a.logical_name db.artifacts) s chosen.value
          chosen.between chosen.ran in
      let row : Artifact =
        new_artifact storage a digest size (next_version chosen.value) timed.value drawn.value
          stamped.value in
      let before : artifacts_of stamped.between.db ≡ old =
        Keeps_ok _ drawn.between stamped.value stamped.between (utc_now-Sees artifacts_of old)
          stamped.ran
          (Keeps_ok _ timed.between drawn.value drawn.between (new_id-Sees artifacts_of old "art")
            drawn.ran
            (Keeps_ok _ chosen.between timed.value timed.between (utc_now-Sees artifacts_of old)
              timed.ran (ap artifacts_of same))) in
      let inserted =
        write_unless_ok _ (with_new_artifact row) stamped.between added.between added.ran in
      let rows : List Artifact = old ++ row ∷ [] in
      let listed : artifacts_of added.between.db ≡ rows =
        ap (λ x. x.db.artifacts) (sym inserted) ∙ ap (λ rs. rs ++ row ∷ []) before in
      (
        row,
        Keeps_ok _ added.between id s' (announced-Sees rows a.task_id drawn.value _ _) added.onward
            listed,
        rw (text_eq_refl a.project_id, text_eq_refl a.logical_name) refl,
        λ r there own positive.
            subst (λ v. r.version < next_version v) (sym asked)
              (next_version_above a.project_id a.logical_name old r there own positive),
      )
