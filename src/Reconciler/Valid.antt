-- ===== src/Reconciler/Valid.antt =====
-- The operations of services/reconciler.py keep the session valid, whatever the providers do.
use semi_automated_research.Base.{ℕ, String, refl, List, [], ◌∷◌}
use semi_automated_research.Base.Json.{Fields, empty, field}
use semi_automated_research.Base.Exec.{Error, Result, ok, err}
use semi_automated_research.Base.Exec.Keeps.{Keeps, keeps_rules}
use semi_automated_research.Db.Models.{ComputeJob}
use semi_automated_research.Invariant.{IsValid}
use semi_automated_research.Invariant.Flush.{select-IsValid, new_id-IsValid, the_job-IsValid}
use semi_automated_research.Invariant.Edits.{IsQuietJob, edit_job-IsValid}
use semi_automated_research.Invariant.Transitions.{transition_task-IsValid}
use semi_automated_research.Invariant.Jobs.{
  transition_compute_job-IsValid, update_observation_status-IsValid,
}
use semi_automated_research.Compute.Protocol.{
  ComputeTaskSpec, ComputeJobView, JobObservation, ArtifactCandidate,
}
use semi_automated_research.Compute.Codec.{Codec}
use semi_automated_research.Compute.Effects.{Providers}
use semi_automated_research.Artifacts.{Storage}
use semi_automated_research.Artifacts.Valid.{ingest_file-HasValid}
use semi_automated_research.World.Always.{
  Always, Always-bind, Always-pure, HasValid, always_rules, begin-HasValid,
}
use semi_automated_research.Reconciler.Records.{
  submitted_as, mark_submitted, polled, poll_failed, with_progress, observed, ended,
  observe_running, observe_end, observe_fresh, record_observation, close_job,
}
use semi_automated_research.Reconciler.{
  submit_created, reconcile_created, after_poll, poll_one, ingest_all, collect_one,
  reconcile_collecting, reconcile_due,
}

submitted_as-quiet : (external_id : String) → IsQuietJob (submitted_as external_id)
submitted_as-quiet external_id = record {
  id = λ j. refl;
  project_id = λ j. refl;
  status = λ j. refl;
  sound = λ j h. record { submitted = h.submitted; started = h.started; finished = h.finished };
}

polled-quiet : (interval now : ℕ) → IsQuietJob (polled interval now)
polled-quiet interval now = record {
  id = λ j. refl;
  project_id = λ j. refl;
  status = λ j. refl;
  sound = λ j h. record { submitted = h.submitted; started = h.started; finished = h.finished };
}

ended-quiet : (o : JobObservation) → IsQuietJob (ended o)
ended-quiet o = record {
  id = λ j. refl;
  project_id = λ j. refl;
  status = λ j. refl;
  sound = λ j h. record { submitted = h.submitted; started = h.started; finished = h.finished };
}

with_progress-quiet : (d : Fields) (now : ℕ) → IsQuietJob (with_progress d now)
with_progress-quiet empty now = record {
  id = λ j. refl;
  project_id = λ j. refl;
  status = λ j. refl;
  sound = λ j h. h;
}
with_progress-quiet (field k v d) now = record {
  id = λ j. refl;
  project_id = λ j. refl;
  status = λ j. refl;
  sound = λ j h. record { submitted = h.submitted; started = h.started; finished = h.finished };
}

observed-quiet : (interval : ℕ) (o : JobObservation) → IsQuietJob (observed interval o)
observed-quiet interval o =
    let q = with_progress-quiet o.progress o.observed_at in
    record {
      id = λ j. q.id _;
      project_id = λ j. q.project_id _;
      status = λ j. q.status _;
      sound = λ j h.
          q.sound _
            (record { submitted = h.submitted; started = h.started; finished = h.finished });
    }

ruleset record_rules = (
  keeps_rules, select-IsValid, new_id-IsValid, the_job-IsValid, edit_job-IsValid,
  submitted_as-quiet, polled-quiet, ended-quiet, observed-quiet, transition_compute_job-IsValid,
  transition_task-IsValid, update_observation_status-IsValid,
)

pub mark_submitted-IsValid :
    (id external_id : String) → Keeps IsValid (mark_submitted id external_id)
unfolding mark_submitted
mark_submitted-IsValid id external_id = search record_rules depth 12

pub poll_failed-IsValid :
    (interval now : ℕ) (e : Error) (id : String) → Keeps IsValid (poll_failed interval now e id)
unfolding poll_failed
poll_failed-IsValid interval now e id = search record_rules depth 12

observe_running-IsValid :
    (o : JobObservation) (corr : String) (job : ComputeJob)
    → Keeps IsValid (observe_running o corr job)
unfolding observe_running
observe_running-IsValid o corr job = search record_rules

observe_end-IsValid :
    (o : JobObservation) (corr : String) (job : ComputeJob) → Keeps IsValid (observe_end o corr job)
unfolding observe_end
observe_end-IsValid o corr job = search record_rules depth 12

observe_fresh-IsValid : (o : JobObservation) (corr : String) → Keeps IsValid (observe_fresh o corr)
unfolding observe_fresh
observe_fresh-IsValid o corr =
    search (record_rules, observe_running-IsValid, observe_end-IsValid) depth 12

pub record_observation-IsValid :
    (interval : ℕ) (o : JobObservation) → Keeps IsValid (record_observation interval o)
unfolding record_observation
record_observation-IsValid interval o = search (record_rules, observe_fresh-IsValid) depth 14

pub close_job-IsValid : (id corr : String) → Keeps IsValid (close_job id corr)
unfolding close_job
close_job-IsValid id corr = search record_rules depth 14

module _ {W : Type 0} (providers : Providers W) where
  submit_created-HasValid :
      (x : ComputeJobView × ComputeTaskSpec)
      → Always (HasValid {W = W}) (submit_created providers x)
  unfolding submit_created
  submit_created-HasValid x = search (always_rules, mark_submitted-IsValid) depth 12

  pub reconcile_created-HasValid :
      (codec : Codec) → Always (HasValid {W = W}) (reconcile_created providers codec)
  unfolding reconcile_created
  reconcile_created-HasValid codec = search (always_rules, submit_created-HasValid)

  after_poll-HasValid :
      (interval now : ℕ) (view : ComputeJobView) (r : Result JobObservation)
      → Always (HasValid {W = W}) (after_poll providers interval now view r)
  unfolding after_poll
  after_poll-HasValid interval now view (err e) = search (always_rules, poll_failed-IsValid)
  after_poll-HasValid interval now view (ok o) = search (always_rules, record_observation-IsValid)

  poll_one-HasValid :
      (interval now : ℕ) (view : ComputeJobView)
      → Always (HasValid {W = W}) (poll_one providers interval now view)
  unfolding poll_one
  poll_one-HasValid interval now view = search (always_rules, after_poll-HasValid)

  ingest_all-HasValid :
      (storage : Storage) (view : ComputeJobView) (corr : String) (cs : List ArtifactCandidate)
      → Always (HasValid {W = W}) (ingest_all providers storage view corr cs)
  unfolding ingest_all
  ingest_all-HasValid storage view corr [] = Always-pure tt
  ingest_all-HasValid storage view corr (c ∷ cs) =
      Always-bind _ _ (begin-HasValid _ (ingest_file-HasValid storage _))
        (λ _. ingest_all-HasValid storage view corr cs)

  collect_one-HasValid :
      (storage : Storage) (view : ComputeJobView)
      → Always (HasValid {W = W}) (collect_one providers storage view)
  unfolding collect_one
  collect_one-HasValid storage view =
      search (always_rules, ingest_all-HasValid, close_job-IsValid) depth 12

  reconcile_collecting-HasValid :
      (storage : Storage) → Always (HasValid {W = W}) (reconcile_collecting providers storage)
  unfolding reconcile_collecting
  reconcile_collecting-HasValid storage = search (always_rules, collect_one-HasValid)

  pub reconcile_due-HasValid :
      (storage : Storage) (interval : ℕ)
      → Always (HasValid {W = W}) (reconcile_due providers storage interval)
  unfolding reconcile_due
  reconcile_due-HasValid storage interval =
      search (always_rules, reconcile_collecting-HasValid, poll_one-HasValid) depth 12
