-- ===== src/Controller/Valid.antt =====
-- A tick of the controller keeps the session valid, whatever the providers do and wherever it stops.
use semi_automated_research.Base.{String, refl, Option}
use semi_automated_research.Base.Json.{ℤ}
use semi_automated_research.Base.Exec.Keeps.{Keeps, keeps_rules}
use semi_automated_research.Invariant.{IsValid}
use semi_automated_research.Invariant.Flush.{select-IsValid}
use semi_automated_research.Invariant.Edits.{IsQuietTask, edit_task-IsValid}
use semi_automated_research.Invariant.Transitions.{transition_task-IsValid}
use semi_automated_research.Readiness.Valid.{reconcile-IsValid, recover_expired_leases-IsValid}
use semi_automated_research.Compute.Codec.{Codec}
use semi_automated_research.Compute.Effects.{Providers}
use semi_automated_research.Validators.Reasons.{ValidationResult}
use semi_automated_research.Validators.Valid.{validate_compute_task-IsValid}
use semi_automated_research.Dispatcher.Valid.{dispatch_ready-HasValid}
use semi_automated_research.Reconciler.Valid.{reconcile_created-HasValid, reconcile_due-HasValid}
use semi_automated_research.World.{World}
use semi_automated_research.World.Always.{Always, HasValid, always_rules}
use semi_automated_research.Controller.{
  summed_up, explained, settle, verify_one, verify_completed_work, Settings, tick,
}

module _ (repr : Option ℤ → String) where
  pub summed_up-IsQuietTask : (v : ValidationResult) → IsQuietTask (summed_up repr v)
  summed_up-IsQuietTask v = record {
    id = λ t. refl;
    project_id = λ t. refl;
    status = λ t. refl;
    sound = λ t h. record {
      started = h.started;
      attempted = h.attempted;
      finished = h.finished;
      unowned = h.unowned;
      unleased = h.unleased;
    };
  }

  pub explained-IsQuietTask : (v : ValidationResult) → IsQuietTask (explained repr v)
  explained-IsQuietTask v = record {
    id = λ t. refl;
    project_id = λ t. refl;
    status = λ t. refl;
    sound = λ t h. record {
      started = h.started;
      attempted = h.attempted;
      finished = h.finished;
      unowned = h.unowned;
      unleased = h.unleased;
    };
  }

  settle-IsValid : (id : String) (v : ValidationResult) → Keeps IsValid (settle repr id v)
  unfolding settle
  settle-IsValid id v =
      search (keeps_rules, edit_task-IsValid, explained-IsQuietTask, transition_task-IsValid) depth
        10

  verify_one-IsValid : (codec : Codec) (id : String) → Keeps IsValid (verify_one repr codec id)
  unfolding verify_one
  verify_one-IsValid codec id =
      search
        (
          keeps_rules, validate_compute_task-IsValid, edit_task-IsValid, summed_up-IsQuietTask,
          settle-IsValid,
        )
        depth 12

  pub verify_completed_work-IsValid :
      (codec : Codec) → Keeps IsValid (verify_completed_work repr codec)
  unfolding verify_completed_work
  verify_completed_work-IsValid codec = search (keeps_rules, select-IsValid, verify_one-IsValid)

module _ {W : Type 0} (providers : Providers W) (settings : Settings) where
  tick-HasValid : Always (HasValid {W = W}) (tick providers settings)
  unfolding tick
  tick-HasValid =
      search
        (
          always_rules, reconcile_due-HasValid, recover_expired_leases-IsValid,
          reconcile_created-HasValid, reconcile-IsValid, verify_completed_work-IsValid,
          dispatch_ready-HasValid,
        )
        depth 20

  -- Whatever the providers, the files and the store do, a tick that begins in a valid session leaves a
  -- valid session, also where it raises on the way.
  pub tick-IsValid :
      (w : World W) → IsValid w.session → IsValid (tick providers settings w).1.session
  tick-IsValid w h = tick-HasValid.at w h
