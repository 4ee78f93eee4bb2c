-- ===== src/Reconciler/Quiet.antt =====
-- A poll that fails, or that did not confirm what it reports, changes no execution status.
use semi_automated_research.Base.{
  ℕ, ◌+◌, String, ◌≡◌, refl, sym, ap, ◌∙◌, inl, inr, Option, none, some, false, List, ◌==◌,
  string_eq, text_eq, Bool-cases, Option-cases,
}
use semi_automated_research.Base.Json.{Fields, empty, field}
use semi_automated_research.Base.Exec.{Error, Result, ok, err, pure, ◌>>=◌}
use semi_automated_research.Base.Exec.Keeps.{Keeps, Keeps-pure, Keeps-bind, keeps_rules}
use semi_automated_research.Domain.ComputeStatus.{ComputeExecutionStatus}
use semi_automated_research.Domain.Observation.{ObservationStatus, observation_status_eq}
use semi_automated_research.Db.Table.{find, store, find-store, id-find}
use semi_automated_research.Db.Models.{ComputeJob, compute_job_row}
use semi_automated_research.Db.Session.{Db, with_job, edit_job, new_id}
use semi_automated_research.Db.Session.Guard.{select}
use semi_automated_research.EventLog.{Entry, append}
use semi_automated_research.Transitions.{update_observation_status}
use semi_automated_research.Compute.Protocol.{ComputeJobView, JobObservation}
use semi_automated_research.Compute.Effects.{Providers}
use semi_automated_research.World.{World}
use semi_automated_research.World.Always.{Always-bind, Always-pure}
use semi_automated_research.World.Sees.{begin-Sees}
use semi_automated_research.Reconciler.{after_poll}
use semi_automated_research.Reconciler.Records.{
  with_progress, polled, observed, poll_failed, record_observation,
}
use semi_automated_research.Invariant.Sees.{IsApart, Sees, select-Sees, new_id-Sees, append-Sees}

-- The execution status of the ComputeJob with the id, if there is one.
abbrev pub status_in : Option ComputeJob → Option ComputeExecutionStatus
status_in none = none
status_in (some j) = some j.execution_status

abbrev pub status_of : String → Db → Option ComputeExecutionStatus
status_of id db = status_in (find id db.compute_jobs)

status_of-IsApart : (id : String) → IsApart (status_of id)
status_of-IsApart id = record { at = λ db es ps. refl }

-- A row written over one with its id and its status changes no status.
written-status :
    (id : String) (new old : ComputeJob) (rows : List ComputeJob) (k : String)
    → find id rows ≡ some old
    → new.id ≡ old.id
    → new.execution_status ≡ old.execution_status
    → status_in (find k (store new rows)) ≡ status_in (find k rows)
written-status id new old rows k found same status =
    let own : new.id ≡ id = same ∙ id-find id rows old found in
    let there : find new.id rows ≡ some old = rw own found in
    let after = find-store k new old rows there in
    elim (Bool-cases (new.id == k)) [
      | inl hit ↦
          let key : k ≡ new.id = sym ((text_eq new.id k).0 hit) in
          let before : find k rows ≡ some old = rw key there in
          rw (after, hit, before) (ap some status)
      | inr miss ↦ rw (after, miss) refl
    ]

module _ (k : String) (v : Option ComputeExecutionStatus) where
  edit_job-Sees :
      (id : String) (f : ComputeJob → ComputeJob)
      → ((j : ComputeJob) → (f j).id ≡ j.id)
      → ((j : ComputeJob) → (f j).execution_status ≡ j.execution_status)
      → Keeps (Sees (status_of k) v) (edit_job id f)
  unfolding edit_job ◌>>=◌
  edit_job-Sees id f same status = record {
    at = λ s h. elim (Option-cases (find id s.db.compute_jobs)) [
      | inl missing ↦ rw missing tt
      | inr (j, found) ↦
          rw found (written-status id (f j) j s.db.compute_jobs k found (same j) (status j) ∙ h)
    ];
  }

  update_observation_status-Sees :
      (id : String) (status : ObservationStatus) (correlation_id : Option String)
      (payload : Option Fields)
      → Keeps (Sees (status_of k) v) (update_observation_status id status correlation_id payload)
  unfolding update_observation_status ◌>>=◌
  update_observation_status-Sees id status correlation_id payload = record {
    at = λ s h. elim (Option-cases (find id s.db.compute_jobs)) [
      | inl missing ↦ rw missing tt
      | inr (j, found) ↦ elim (Bool-cases (j.observation_status == status)) [
        | inl kept ↦ rw (found, kept) h
        | inr changed ↦
            let j' = record j { observation_status = status; lock_version = j.lock_version + 1 } in
            let after = written-status id j' j s.db.compute_jobs k found refl refl ∙ h in
            rw (found, changed) ((appended _).at (with_job j' s) after)
      ]
    ];
  }
    where
      appended : (a : Entry) → Keeps (Sees (status_of k) v) (append a >>= λ e. pure tt)
      appended a =
          Keeps-bind _ _ (append-Sees (status_of k) v (status_of-IsApart k) a) (λ e. Keeps-pure tt)

with_progress-same :
    (d : Fields) (now : ℕ) (j : ComputeJob)
    → ((with_progress d now j).id ≡ j.id)
      × ((with_progress d now j).execution_status ≡ j.execution_status)
with_progress-same empty now j = (refl, refl)
with_progress-same (field key x d) now j = (refl, refl)

-- An observation that the provider did not confirm, or none at all.
abbrev pub IsUncertain : Result JobObservation → Type 0
IsUncertain (err e) = Unit
IsUncertain (ok o) = (o.observation_status == ObservationStatus.fresh) ≡ false

module _ (k : String) (v : Option ComputeExecutionStatus) where
  select-kept : {A : Type 0} (f : Db → A) → Keeps (Sees (status_of k) v) (select f)
  select-kept f = select-Sees (status_of k) v f

  new_id-kept : (prefix : String) → Keeps (Sees (status_of k) v) (new_id prefix)
  new_id-kept prefix = new_id-Sees (status_of k) v prefix

  module _ (interval : ℕ) where
    polled-kept :
        (now : ℕ) (id : String) → Keeps (Sees (status_of k) v) (edit_job id (polled interval now))
    polled-kept now id = edit_job-Sees k v id (polled interval now) (λ j. refl) (λ j. refl)

    observed-kept :
        (o : JobObservation) (id : String)
        → Keeps (Sees (status_of k) v) (edit_job id (observed interval o))
    observed-kept o id =
        edit_job-Sees k v id (observed interval o)
          (λ j. (with_progress-same o.progress o.observed_at _).0)
          (λ j. (with_progress-same o.progress o.observed_at _).1)

    poll_failed-kept :
        (now : ℕ) (e : Error) (id : String)
        → Keeps (Sees (status_of k) v) (poll_failed interval now e id)
    unfolding poll_failed
    poll_failed-kept now e id =
        search (keeps_rules, select-kept, update_observation_status-Sees, polled-kept) depth 12

    record_observation-kept :
        (o : JobObservation)
        → (o.observation_status == ObservationStatus.fresh) ≡ false
        → Keeps (Sees (status_of k) v) (record_observation interval o)
    unfolding record_observation
    record_observation-kept o stale = rw stale (
        search
          (keeps_rules, select-kept, new_id-kept, update_observation_status-Sees, observed-kept)
          depth 14)

module _ {W : Type 0} (providers : Providers W) where
  -- Where a poll raised, or what it reports is not FRESH, the transactions that follow it leave the
  -- execution status of every ComputeJob as it was, whether they commit or raise.
  pub after_poll_quiet :
      (interval now : ℕ) (view : ComputeJobView) (answer : Result JobObservation) (w : World W)
      (k : String)
      → IsUncertain answer
      → status_of k (after_poll providers interval now view answer w).1.session.db
        ≡ status_of k w.session.db
  unfolding after_poll
  after_poll_quiet interval now view (err e) w k uncertain =
      let v = status_of k w.session.db in
      (Always-bind _ _ (begin-Sees (status_of k) v _ (poll_failed-kept k v interval now e view.id))
          (λ u. Always-pure none)).at
        w refl
  after_poll_quiet interval now view (ok o) w k uncertain =
      let v = status_of k w.session.db in
      (Always-bind _ _
          (begin-Sees (status_of k) v _ (record_observation-kept k v interval o uncertain))
          (λ u. Always-pure (some view.id))).at
        w refl
