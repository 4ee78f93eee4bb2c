-- ===== src/Reconciler/Resume.antt =====
-- A ComputeJob that LocalProvider has launched is not launched again by the next `reconcile_created`.
use semi_automated_research.Base.{String, ◌≡◌, refl, sym, ◌∙◌, some}
use mathlib.Core.Path.{subst}
use semi_automated_research.Base.Exec.{ok, ◌>>=◌}
use semi_automated_research.Compute.Protocol.{ComputeTaskSpec, ComputeJobView, PreparedJob}
use semi_automated_research.Compute.Registry
use semi_automated_research.Compute.Registry.{ComputeProvider}
use semi_automated_research.Compute.Effects
use semi_automated_research.Compute.Effects.{Providers}
use semi_automated_research.Compute.Local.Submission.{Host, Machine, submit, reconcile_submission}
use semi_automated_research.Compute.Local.Submission.Recovery.{submit_once}
use semi_automated_research.World.{World, on_session, on_outside, begin}
use semi_automated_research.Reconciler.{or_submit, submit_created}
use semi_automated_research.Reconciler.Records.{mark_submitted}

module _ (host : Host) (providers : Providers Machine) (job : PreparedJob) (view : ComputeJobView)
    (spec : ComputeTaskSpec) where
  -- Once LocalProvider's `submit` has returned an id under the key of a ComputeJob, whose registered
  -- provider answers `reconcile_submission` as LocalProvider does, the next round of `reconcile_created`
  -- launches nothing: it leaves the machine as it is, and all it does is to record that id.
  pub submit_created_resumes :
      (before : Machine) (w : World Machine) (external_id : String) (p : ComputeProvider)
      → ((m : Machine)
          → (providers.ops view.provider_id).reconcile_submission view.submission_key m
            ≡ reconcile_submission host view.submission_key m)
      → submit host job before ≡ (ok external_id, w.outside)
      → view.submission_key ≡ job.submission_key
      → Registry.get (providers.registry w.outside) view.provider_id ≡ ok p
      → (submit_created providers (view, spec) w
          ≡ begin (on_session (mark_submitted view.id external_id)) w)
        × ((submit_created providers (view, spec) w).1.outside ≡ w.outside)
  unfolding submit_created or_submit on_outside Effects.get ◌>>=◌ begin on_session
  submit_created_resumes before w external_id p is_local submitted key known =
      let launched : reconcile_submission host view.submission_key w.outside
          ≡ (ok (some external_id), w.outside) =
        subst (λ k. reconcile_submission host k w.outside ≡ (ok (some external_id), w.outside))
          (sym key) (submit_once host job before w.outside external_id submitted).1 in
      (
        rw (known, is_local w.outside ∙ launched) refl,
        rw (known, is_local w.outside ∙ launched) refl,
      )
