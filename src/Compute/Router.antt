-- ===== src/Compute/Router.antt =====
-- compute/router.py: the first provider and offer that a Task's specification fits.
pub mod Choice
use semi_automated_research.Base.{
  ℕ, String, Option, none, some, Bool, true, false, not, ◌&&◌, ◌||◌, List, [], ◌∷◌, ◌==◌, nat_eq,
  leb, ltb, if◌then◌else◌,
}
use semi_automated_research.Base.Exec.{Error, Result, ok, err, runtime_error, lookup_error}
use semi_automated_research.Compute.Protocol.{
  ComputeTaskSpec, ResourceRequirements, ResourceOffer, ResourceSnapshot,
}
use semi_automated_research.Compute.Registry
use semi_automated_research.Compute.Registry.{ComputeProvider, ProviderRegistry}

-- `offer.gpu_memory_gb or 0`.
abbrev pub memory_of : Option ℕ → ℕ
memory_of none = 0
memory_of (some m) = m

-- The two tests on the GPUs of an offer, which `LocalProvider.can_run` makes too.
abbrev pub fits : ResourceRequirements → ResourceOffer → Bool
fits r o =
    (r.gpu_count == 0 && o.gpu_per_node == 0)
    || (ltb 0 r.gpu_count
        && (leb r.gpu_count o.gpu_per_node && leb r.min_gpu_memory_gb (memory_of o.gpu_memory_gb)))

abbrev pub is_available : ResourceOffer → Bool
is_available o = o.operational && o.schedulable

-- The inner loop: the first offer that is available and fits.
unfoldable pub first_offer : ResourceRequirements → List ResourceOffer → Option ResourceOffer
first_offer r [] = none
first_offer r (o ∷ os) = if is_available o && fits r o then some o else first_offer r os

pub record ComputeRoute : Type 0 where
  pub provider_id : String
  pub resource_class : String
  pub snapshot : ResourceSnapshot

-- The route over an offer that the inner loop has found.
unfoldable pub route_over : String → ResourceSnapshot → Option ResourceOffer → Option ComputeRoute
route_over provider_id snapshot none = none
route_over provider_id snapshot (some o) =
    some
      (record { provider_id = provider_id; resource_class = o.resource_class; snapshot = snapshot })

-- One round of the outer loop: `none` goes on to the next provider.
unfoldable pub route_to : ComputeTaskSpec → String → ComputeProvider → Option ComputeRoute
route_to spec provider_id p =
    if p.probe.can_submit && p.can_run spec p.discover_resources
    then route_over provider_id p.discover_resources
        (first_offer spec.resources p.discover_resources.offers)
    else none

unfoldable pub or_next : Option ComputeRoute → Result ComputeRoute → Result ComputeRoute
or_next none rest = rest
or_next (some r) rest = ok r

unfoldable pub with_provider :
    ComputeTaskSpec → String → Result ComputeProvider → Result ComputeRoute → Result ComputeRoute
with_provider spec id (err e) rest = err e
with_provider spec id (ok p) rest = or_next (route_to spec id p) rest

-- The outer loop.
unfoldable pub route_from : ProviderRegistry → ComputeTaskSpec → List String → Result ComputeRoute
route_from registry spec [] = err runtime_error
route_from registry spec (id ∷ ids) =
    let rest = route_from registry spec ids in with_provider spec id (Registry.get registry id) rest

-- `ComputeRouter.route`.
unfoldable pub route : ProviderRegistry → ComputeTaskSpec → Result ComputeRoute
route registry spec = route_from registry spec spec.routing.allowed_providers
