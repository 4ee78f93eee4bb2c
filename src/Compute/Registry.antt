-- ===== src/Compute/Registry.antt =====
-- compute/registry.py and compute/base.py: a provider, as far as the router asks it, and the registry.
use semi_automated_research.Base.{
  String, ◌≡◌, Option, none, some, Bool, List, [], ◌∷◌, ◌++◌, arith, ◌==◌, string_eq, text_eq,
  if◌then◌else◌,
}
use semi_automated_research.Base.Exec.{Result, ok, err, value_error, lookup_error}
use semi_automated_research.Compute.Protocol.{ProviderHealth, ResourceSnapshot, ComputeTaskSpec}

-- What a `ComputeProvider` answers while a Task is routed.
pub record ComputeProvider : Type 0 where
  pub provider_id : String
  pub probe : ProviderHealth
  pub discover_resources : ResourceSnapshot
  pub can_run : ComputeTaskSpec → ResourceSnapshot → Bool

-- `ProviderRegistry`: a dict from provider ids to providers, in the order of insertion.
abbrev pub ProviderRegistry : Type 0
ProviderRegistry = List (String × ComputeProvider)

abbrev lookup : String → ProviderRegistry → Option ComputeProvider
lookup id [] = none
lookup id ((k, p) ∷ r) = if k == id then some p else lookup id r

-- `ProviderRegistry.register`.
unfoldable pub register : ComputeProvider → ProviderRegistry → Result ProviderRegistry
register p r = elim (lookup p.provider_id r) [
  | none ↦ ok (r ++ (p.provider_id, p) ∷ [])
  | some q ↦ err value_error
]

-- `ProviderRegistry.get`.
unfoldable pub get : ProviderRegistry → String → Result ComputeProvider
get r id = elim (lookup id r) [ none ↦ err lookup_error | some p ↦ ok p ]

lookup-append :
    (id : String) (r : ProviderRegistry) (k : String) (p : ComputeProvider)
    → lookup id (r ++ (k, p) ∷ [])
      ≡ elim (lookup id r) [ none ↦ if k == id then some p else none | some q ↦ some q ]
lookup-append id [] k p = ground arith
lookup-append id ((j, q) ∷ r) k p = ground (arith, lookup-append id r k p)

-- `register` has returned only where no provider had the id. Afterwards the provider is the one that is
-- got under its id, and every other id is answered as before.
pub get-register :
    (p : ComputeProvider) (r r' : ProviderRegistry) (id : String)
    → register p r ≡ ok r'
    → (get r p.provider_id ≡ err lookup_error)
      × (get r' id ≡ (if p.provider_id == id then ok p else get r id))
unfolding register get
get-register p r r' id h = (
  ground (arith, h),
  ground (arith, lookup-append id r p.provider_id p, text_eq p.provider_id id),
)
