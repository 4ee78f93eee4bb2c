-- ===== src/Compute/Effects.antt =====
-- compute/base.py: the operations of a `ComputeProvider` that act on the world outside, as the
-- controller calls them. `W` is the state of that world; what a provider answers to the router may
-- change with it.
use semi_automated_research.Base.{String, Option, List}
use semi_automated_research.Base.Exec.{Exec}
use semi_automated_research.Compute.Protocol.{
  ComputeTaskSpec, PreparedJob, ComputeJobView, JobObservation, ArtifactCandidate,
}
use semi_automated_research.Compute.Registry
use semi_automated_research.Compute.Registry.{ComputeProvider, ProviderRegistry}
use semi_automated_research.Compute.Router
use semi_automated_research.Compute.Router.{ComputeRoute}

pub record ProviderOps (W : Type 0) : Type 0 where
  pub prepare : ComputeTaskSpec → String → Exec W PreparedJob
  pub submit : PreparedJob → Exec W String
  pub reconcile_submission : String → Exec W (Option String)
  pub poll : ComputeJobView → Exec W JobObservation
  pub collect : ComputeJobView → Exec W (List ArtifactCandidate)

-- The registry, and the operations of the provider with an id.
pub record Providers (W : Type 0) : Type 0 where
  pub registry : W → ProviderRegistry
  pub ops : String → ProviderOps W

module _ {W : Type 0} (providers : Providers W) where
  -- `self.registry.get(provider_id)`.
  unfoldable pub get : String → Exec W ComputeProvider
  get id w = (Registry.get (providers.registry w) id, w)

  -- `self.router.route(spec)`.
  unfoldable pub route : ComputeTaskSpec → Exec W ComputeRoute
  route spec w = (Router.route (providers.registry w) spec, w)
