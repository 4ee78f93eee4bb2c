-- ===== src/Compute/Local/Offers.antt =====
-- compute/local/provider.py: `probe`, `discover_resources` and `can_run`. How Python writes a number
-- and rounds gigabytes are parameters, as are the GPUs that `nvidia-smi` lists.
pub mod Feasible
use semi_automated_research.Base.{
  ℕ, ◌+◌, zero, suc, String, Option, none, some, Bool, true, false, not, ◌&&◌, List, [], ◌∷◌, map,
  ◌==◌, string_eq, contains, all, length, f_string, if◌then◌else◌,
}
use semi_automated_research.Base.Time.{seconds}
use semi_automated_research.Base.Json.{Fields, empty, field, str, int, pos}
use semi_automated_research.Domain.Resource.{HealthLevel, AccessStatus, ResourceState, AccessMode}
use semi_automated_research.Compute.Protocol.{
  ComputeTaskSpec, ProviderHealth, ResourceOffer, ResourceSnapshot,
}
use semi_automated_research.Compute.Registry.{ComputeProvider}
use semi_automated_research.Compute.Router.{fits, is_available}

-- A line of `nvidia-smi`.
pub record Gpu : Type 0 where
  pub index : ℕ
  pub name : String
  pub memory_mb : ℕ

-- `LocalProvider.probe`.
unfoldable pub probe : String → ℕ → Bool → ProviderHealth
probe root checked writable = record {
  provider_id = "local";
  checked_at = checked;
  valid_until = checked + seconds 30;
  level = if writable then HealthLevel.healthy else HealthLevel.unavailable;
  access = AccessStatus.reachable;
  transport = "local_process";
  scheduler = "local_process";
  storage = "local_filesystem";
  can_submit = writable;
  can_poll = true;
  can_collect = true;
  human_action_required = false;
  human_action_code = none;
  reasons = if writable then [] else "provider root is not writable" ∷ [];
  metadata = field "root" (str root) empty;
}

abbrev pub cpu_offer : ℕ → ResourceOffer
cpu_offer cpu_count = record {
  resource_class = "local_cpu";
  resource_state = ResourceState.up;
  operational = true;
  schedulable = true;
  gpu_model = none;
  gpu_memory_gb = none;
  gpu_per_node = 0;
  idle_nodes = 1;
  allocated_nodes = 0;
  total_nodes = 1;
  queue_depth = 0;
  access_mode = AccessMode.automatic;
  capabilities = "cpu" ∷ "local_process" ∷ [];
  metadata = field "cpu_count" (int (pos cpu_count)) empty;
}

module _ (decimal : ℕ → String) (rounded_gb : ℕ → ℕ) where
  abbrev pub gpu_offer : Gpu → ResourceOffer
  gpu_offer gpu = record {
    resource_class = f_string ("local_gpu_" ∷ decimal gpu.index ∷ []);
    resource_state = ResourceState.up;
    operational = true;
    schedulable = true;
    gpu_model = some gpu.name;
    gpu_memory_gb = some (rounded_gb gpu.memory_mb);
    gpu_per_node = 1;
    idle_nodes = 1;
    allocated_nodes = 0;
    total_nodes = 1;
    queue_depth = 0;
    access_mode = AccessMode.automatic;
    capabilities = "cpu" ∷ "cuda" ∷ "local_process" ∷ [];
    metadata = field "gpu_index" (int (pos gpu.index)) empty;
  }

  -- `LocalProvider.discover_resources`.
  unfoldable pub discover_resources : ℕ → ℕ → List Gpu → ResourceSnapshot
  discover_resources observed cpu_count gpus = record {
    provider_id = "local";
    observed_at = observed;
    valid_until = observed + seconds 15;
    offers = cpu_offer cpu_count ∷ map gpu_offer gpus;
    metadata = field "gpu_count" (int (pos (length gpus))) empty;
  }

-- `required_caps.issubset(set(offer.capabilities))`.
abbrev pub has_capabilities : List String → ResourceOffer → Bool
has_capabilities required o = all (λ c. contains c o.capabilities) required

-- The loop of `can_run`.
unfoldable pub some_offer_runs : ComputeTaskSpec → List ResourceOffer → Bool
some_offer_runs spec [] = false
some_offer_runs spec (o ∷ os) =
    if is_available o
      && (has_capabilities spec.resources.required_capabilities o && fits spec.resources o)
    then true
    else some_offer_runs spec os

-- `LocalProvider.can_run`.
unfoldable pub can_run : ComputeTaskSpec → ResourceSnapshot → Bool
unfolding some_offer_runs
can_run spec snapshot = some_offer_runs spec snapshot.offers

module _ (decimal : ℕ → String) (rounded_gb : ℕ → ℕ) where
  -- A `LocalProvider`, as the router asks it: its directory, whether that is writable, the clock, the
  -- CPUs and the GPUs.
  abbrev pub local_provider : String → Bool → ℕ → ℕ → List Gpu → ComputeProvider
  local_provider root writable now cpu_count gpus = record {
    provider_id = "local";
    probe = probe root now writable;
    discover_resources = discover_resources decimal rounded_gb now cpu_count gpus;
    can_run = can_run;
  }
