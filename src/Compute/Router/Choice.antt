-- ===== src/Compute/Router/Choice.antt =====
-- What `ComputeRouter.route` chooses.
use mathlib.Core.List.{Memᴰ}
use mathlib.Core.Option.{some-injective}
use semi_automated_research.Base.{
  String, ◌≡◌, refl, sym, ap, ◌∙◌, ◌++◌, inl, inr, ◌⊎◌, Option, none, some, true, ◌&&◌, List, [],
  ◌∷◌, arith, Bool-cases, Option-cases, &&-true,
}
use semi_automated_research.Base.Exec.{Result, ok, err, runtime_error}
use semi_automated_research.Compute.Protocol.{
  ComputeTaskSpec, ResourceRequirements, ResourceOffer, ResourceSnapshot,
}
use semi_automated_research.Compute.Registry
use semi_automated_research.Compute.Registry.{ComputeProvider, ProviderRegistry}
use semi_automated_research.Compute.Router.{
  fits, is_available, first_offer, route_over, route_to, or_next, with_provider, route_from, route,
  ComputeRoute,
}

first_offer_sound :
    (r : ResourceRequirements) (os : List ResourceOffer) (o : ResourceOffer)
    → first_offer r os ≡ some o
    → Memᴰ o os × (is_available o ≡ true) × (fits r o ≡ true)
unfolding first_offer
first_offer_sound r [] o h = cc
first_offer_sound r (x ∷ os) o h = elim (Bool-cases (is_available x && fits r x)) [
  | inl good ↦
      let same : x ≡ o = some-injective x o (rw good at h) in
      let (available, fitting) = &&-true (is_available x) (fits r x) good in
      (Memᴰ.head (sym same), rw (← same) available, rw (← same) fitting)
  | inr bad ↦
      let (there, available, fitting) = first_offer_sound r os o (rw bad at h) in
      (Memᴰ.tail there, available, fitting)
]

-- What makes a route right: its provider is registered under its id, takes submissions and says that it
-- can run the Task, and one of the offers that it listed is available, fits and has the route's class.
pub record IsRoute (registry : ProviderRegistry) (spec : ComputeTaskSpec) (r : ComputeRoute)
    : Type 0 where
  pub provider : ComputeProvider
  pub registered : Registry.get registry r.provider_id ≡ ok provider
  pub accepting : provider.probe.can_submit ≡ true
  pub listed : r.snapshot ≡ provider.discover_resources
  pub feasible : provider.can_run spec r.snapshot ≡ true
  pub offer : ResourceOffer
  pub offered : Memᴰ offer r.snapshot.offers
  pub available : is_available offer ≡ true
  pub fitting : fits spec.resources offer ≡ true
  pub class : r.resource_class ≡ offer.resource_class

route_over_inv :
    (id : String) (snapshot : ResourceSnapshot) (found : Option ResourceOffer) (r : ComputeRoute)
    → route_over id snapshot found ≡ some r
    → (o : ResourceOffer) × (found ≡ some o)
      × (r ≡ record { provider_id = id; resource_class = o.resource_class; snapshot = snapshot })
unfolding route_over
route_over_inv id snapshot none r h = cc
route_over_inv id snapshot (some o) r h = (o, refl, sym (some-injective _ r h))

route_to_inv :
    (spec : ComputeTaskSpec) (id : String) (p : ComputeProvider) (r : ComputeRoute)
    → route_to spec id p ≡ some r
    → (p.probe.can_submit ≡ true)
      × (p.can_run spec p.discover_resources ≡ true)
      × (route_over id p.discover_resources (first_offer spec.resources p.discover_resources.offers)
          ≡ some r)
unfolding route_to
route_to_inv spec id p r h =
    elim (Bool-cases (p.probe.can_submit && p.can_run spec p.discover_resources)) [
      | inl good ↦ let (up, runs) = &&-true _ _ good in (up, runs, rw good at h)
      | inr bad ↦ cc (rw bad at h)
    ]

route_to_sound :
    (registry : ProviderRegistry) (spec : ComputeTaskSpec) (id : String) (p : ComputeProvider)
    (r : ComputeRoute)
    → Registry.get registry id ≡ ok p
    → route_to spec id p ≡ some r
    → IsRoute registry spec r × (r.provider_id ≡ id)
route_to_sound registry spec id p r known h =
    let (up, runs, over) = route_to_inv spec id p r h in
    let (o, found, made) = route_over_inv id p.discover_resources _ r over in
    let (there, available, fitting) =
      first_offer_sound spec.resources p.discover_resources.offers o found in
    rw made (
      record {
        provider = p;
        registered = known;
        accepting = up;
        listed = refl;
        feasible = runs;
        offer = o;
        offered = there;
        available = available;
        fitting = fitting;
        class = refl;
      },
      refl,
    )

with_provider_inv :
    (spec : ComputeTaskSpec) (id : String) (asked : Result ComputeProvider)
    (rest : Result ComputeRoute) (r : ComputeRoute)
    → with_provider spec id asked rest ≡ ok r
    → (p : ComputeProvider) × (asked ≡ ok p) × ((route_to spec id p ≡ some r) ⊎ (rest ≡ ok r))
unfolding with_provider or_next
with_provider_inv spec id (err e) rest r h = cc
with_provider_inv spec id (ok p) rest r h = elim (Option-cases (route_to spec id p)) [
  | inl onward ↦ (p, refl, inr (rw (onward, or_next) at h))
  | inr (q, here) ↦ (p, refl, inl (here ∙ ground (arith, (rw (here, or_next) at h))))
]

route_from_sound :
    (registry : ProviderRegistry) (spec : ComputeTaskSpec) (ids : List String) (r : ComputeRoute)
    → route_from registry spec ids ≡ ok r
    → IsRoute registry spec r × Memᴰ r.provider_id ids
unfolding route_from
route_from_sound registry spec [] r h = cc
route_from_sound registry spec (id ∷ ids) r h =
    let (p, known, found) =
      with_provider_inv spec id (Registry.get registry id) (route_from registry spec ids) r h in
    elim found [
      | inl here ↦
          let (good, same) = route_to_sound registry spec id p r known here in
          (good, Memᴰ.head same)
      | inr later ↦
          let (good, there) = route_from_sound registry spec ids r later in (good, Memᴰ.tail there)
    ]

-- The provider of a route that the router returns is registered, allowed by the Task, accepts
-- submissions and says that it can run the Task, and one of the offers that it listed is available,
-- fits and has the route's class.
pub route_sound :
    (registry : ProviderRegistry) (spec : ComputeTaskSpec) (r : ComputeRoute)
    → route registry spec ≡ ok r
    → IsRoute registry spec r × Memᴰ r.provider_id spec.routing.allowed_providers
unfolding route
route_sound registry spec r h = route_from_sound registry spec spec.routing.allowed_providers r h

-- Every allowed provider is registered and none is feasible.
abbrev pub NoneFeasible : ProviderRegistry → ComputeTaskSpec → List String → Type 0
NoneFeasible registry spec [] = Unit
NoneFeasible registry spec (id ∷ ids) =
    ((p : ComputeProvider) × (Registry.get registry id ≡ ok p) × (route_to spec id p ≡ none))
    × NoneFeasible registry spec ids

route_from_none :
    (registry : ProviderRegistry) (spec : ComputeTaskSpec) (ids : List String)
    → NoneFeasible registry spec ids
    → route_from registry spec ids ≡ err runtime_error
unfolding route_from with_provider or_next
route_from_none registry spec [] h = refl
route_from_none registry spec (id ∷ ids) ((p, known, onward), h) =
    rw (known, with_provider, onward, or_next) (route_from_none registry spec ids h)

-- The first allowed provider over which there is a route is taken, where those before it are known and
-- not feasible.
route_from_first :
    (registry : ProviderRegistry) (spec : ComputeTaskSpec) (before : List String) (id : String)
    (after : List String) (p : ComputeProvider) (r : ComputeRoute)
    → NoneFeasible registry spec before
    → Registry.get registry id ≡ ok p
    → route_to spec id p ≡ some r
    → route_from registry spec (before ++ id ∷ after) ≡ ok r
unfolding route_from with_provider or_next
route_from_first registry spec [] id after p r none_before known here =
    rw (known, with_provider, here, or_next) refl
route_from_first registry spec (b ∷ before) id after p r ((q, known_q, onward), h) known here =
    rw (known_q, with_provider, onward, or_next)
      (route_from_first registry spec before id after p r h known here)

-- The router takes the first allowed provider over which there is a route, where those before it are
-- registered and not feasible.
pub route_first :
    (registry : ProviderRegistry) (spec : ComputeTaskSpec) (before : List String) (id : String)
    (after : List String) (p : ComputeProvider) (r : ComputeRoute)
    → spec.routing.allowed_providers ≡ before ++ id ∷ after
    → NoneFeasible registry spec before
    → Registry.get registry id ≡ ok p
    → route_to spec id p ≡ some r
    → route registry spec ≡ ok r
unfolding route
route_first registry spec before id after p r listed h known here =
    ap (route_from registry spec) listed
    ∙ route_from_first registry spec before id after p r h known here

-- Where every allowed provider is registered and none is feasible, the router raises `RuntimeError`.
pub route_none :
    (registry : ProviderRegistry) (spec : ComputeTaskSpec)
    → NoneFeasible registry spec spec.routing.allowed_providers
    → route registry spec ≡ err runtime_error
unfolding route
route_none registry spec h = route_from_none registry spec spec.routing.allowed_providers h
