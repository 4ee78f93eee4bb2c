-- ===== src/Compute/Local/Offers/Feasible.antt =====
-- What the router makes of the local provider's answers.
use mathlib.Core.Path.{subst}
use mathlib.Core.Option.{some-injective}
use mathlib.Core.List.{Memᴰ}
use semi_automated_research.Base.{
  ℕ, ◌<◌, String, ◌≡◌, refl, sym, inl, inr, some, true, ◌&&◌, List, [], ◌∷◌, arith, map, Bool-cases,
  &&-true,
}
use semi_automated_research.Compute.Protocol.{ComputeTaskSpec, ResourceOffer}
use semi_automated_research.Compute.Router.{fits, is_available, first_offer, route_over, route_to}
use semi_automated_research.Compute.Local.Offers.{
  Gpu, discover_resources, gpu_offer, cpu_offer, local_provider, has_capabilities, some_offer_runs,
  can_run, probe,
}

runs-first_offer :
    (spec : ComputeTaskSpec) (os : List ResourceOffer)
    → some_offer_runs spec os ≡ true
    → (o : ResourceOffer) × (first_offer spec.resources os ≡ some o)
unfolding some_offer_runs first_offer
runs-first_offer spec [] h = cc
runs-first_offer spec (o ∷ os) h = elim (Bool-cases (is_available o && fits spec.resources o)) [
  | inl good ↦ (o, rw good refl)
  | inr bad ↦
      let (q, later) = runs-first_offer spec os (ground (arith, h, bad)) in (q, rw bad later)
]

-- The offer that is taken is one of the offers.
first_offer-Mem :
    (spec : ComputeTaskSpec) (os : List ResourceOffer) (o : ResourceOffer)
    → first_offer spec.resources os ≡ some o
    → Memᴰ o os
unfolding first_offer
first_offer-Mem spec [] o h = cc
first_offer-Mem spec (x ∷ os) o h = elim (Bool-cases (is_available x && fits spec.resources x)) [
  | inl good ↦ Memᴰ.head (sym (some-injective x o (rw good at h)))
  | inr bad ↦ Memᴰ.tail (first_offer-Mem spec os o (rw bad at h))
]

module _ (decimal : ℕ → String) (rounded_gb : ℕ → ℕ) (spec : ComputeTaskSpec) where
  abbrev offers_of : List Gpu → List ResourceOffer
  offers_of = map (gpu_offer decimal rounded_gb)

  gpus-run :
      (gpus : List Gpu)
      → some_offer_runs spec (offers_of gpus) ≡ true
      → (0 < spec.resources.gpu_count)
        × ((g : Gpu)
            → has_capabilities spec.resources.required_capabilities (gpu_offer decimal rounded_gb g)
              ≡ true)
  unfolding some_offer_runs
  gpus-run [] h = cc
  gpus-run (g ∷ gpus) h =
      elim (Bool-cases (
        has_capabilities spec.resources.required_capabilities (gpu_offer decimal rounded_gb g)
        && fits spec.resources (gpu_offer decimal rounded_gb g))) [
          | inl good ↦
              let (capable, fitting) = &&-true _ _ good in
              (ground (arith, fitting), λ other. capable)
          | inr bad ↦ gpus-run gpus (rw bad at h)
        ]

  first_gpu :
      (gpus : List Gpu) (o : ResourceOffer)
      → first_offer spec.resources (offers_of gpus) ≡ some o
      → (g : Gpu) × (gpu_offer decimal rounded_gb g ≡ o)
  unfolding first_offer
  first_gpu [] o h = cc
  first_gpu (g ∷ gpus) o h =
      elim (Bool-cases (fits spec.resources (gpu_offer decimal rounded_gb g))) [
        | inl good ↦ (g, some-injective (gpu_offer decimal rounded_gb g) o (rw good at h))
        | inr bad ↦ first_gpu gpus o (rw bad at h)
      ]

  first_capable :
      (cpu_count : ℕ) (gpus : List Gpu) (o : ResourceOffer)
      → some_offer_runs spec (cpu_offer cpu_count ∷ offers_of gpus) ≡ true
      → first_offer spec.resources (cpu_offer cpu_count ∷ offers_of gpus) ≡ some o
      → has_capabilities spec.resources.required_capabilities o ≡ true
  unfolding some_offer_runs first_offer
  first_capable cpu_count gpus o runs first =
      elim (Bool-cases (fits spec.resources (cpu_offer cpu_count))) [
        | inl cpu_fits ↦
            elim (Bool-cases
              (has_capabilities spec.resources.required_capabilities (cpu_offer cpu_count))) [
                | inl capable ↦
                    subst (λ x. has_capabilities spec.resources.required_capabilities x ≡ true)
                      (some-injective (cpu_offer cpu_count) o (rw cpu_fits at first)) capable
                | inr lacking ↦
                    let (wants_gpu, _) = gpus-run gpus (rw lacking at runs) in
                    absurd (ground (arith, cpu_fits, wants_gpu))
              ]
        | inr cpu_short ↦
            let (_, capable) = gpus-run gpus (ground (arith, runs, cpu_short)) in
            let (g, same) = first_gpu gpus o (rw cpu_short at first) in
            subst (λ x. has_capabilities spec.resources.required_capabilities x ≡ true) same
              (capable g)
      ]

  -- A Task that the local provider can run is routed over it, where its directory is writable, to the
  -- class of one of the offers that it discovers, which has all the capabilities that the Task
  -- requires.
  pub local-route_to :
      (root : String) (now cpu_count : ℕ) (gpus : List Gpu)
      → can_run spec (discover_resources decimal rounded_gb now cpu_count gpus) ≡ true
      → (o : ResourceOffer) × (route_to spec "local"
            (local_provider decimal rounded_gb root true now cpu_count gpus)
          ≡ some (record {
            provider_id = "local";
            resource_class = o.resource_class;
            snapshot = discover_resources decimal rounded_gb now cpu_count gpus;
          }))
        × Memᴰ o (discover_resources decimal rounded_gb now cpu_count gpus).offers
        × (has_capabilities spec.resources.required_capabilities o ≡ true)
  unfolding can_run discover_resources route_to route_over probe
  local-route_to root now cpu_count gpus runs =
      let (o, first) = runs-first_offer spec (cpu_offer cpu_count ∷ offers_of gpus) runs in
      (
        o,
        rw (runs, first) refl,
        first_offer-Mem spec (cpu_offer cpu_count ∷ offers_of gpus) o first,
        first_capable cpu_count gpus o runs first,
      )
