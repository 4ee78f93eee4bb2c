-- ===== src/Samples/Routing.antt =====
-- The theorems on routing, applied to a machine with one small GPU.
use semi_automated_research.Base.{
  ℕ, zero, String, ◌≡◌, refl, none, some, true, false, List, [], ◌∷◌, ◌++◌, string_eq, ◌==◌,
  if◌then◌else◌,
}
use mathlib.Core.List.{Memᴰ}
use semi_automated_research.Base.Exec.{ok, err, runtime_error, lookup_error}
use semi_automated_research.Compute.Protocol.{ComputeTaskSpec, ResourceOffer}
use semi_automated_research.Compute.Registry.{
  ComputeProvider, ProviderRegistry, register, get, get-register,
}
use semi_automated_research.Compute.Router.{
  ComputeRoute, route_to, route, first_offer, route_over, route_from, or_next, with_provider,
}
use semi_automated_research.Compute.Router.Choice.{IsRoute, route_sound, route_first, route_none}
use semi_automated_research.Compute.Local.Offers.{
  Gpu, gpu_offer, discover_resources, has_capabilities, some_offer_runs, can_run, probe,
  local_provider,
}
use semi_automated_research.Compute.Local.Offers.Feasible.{local-route_to}

abbrev digits : ℕ → String
digits zero = "0"
digits _ = "1"

-- A Task that asks for a GPU, and one that asks for the queue of a cluster.
abbrev pub gpu_spec : List String → ComputeTaskSpec
gpu_spec capabilities = record {
  project_id = "prj_1";
  task_id = "tsk_1";
  submission_key = "key-1";
  execution = record {
    command = "train" ∷ [];
    entrypoint_artifact_id = none;
    argv = [];
    environment_ref = "project-default";
    env = [];
  };
  resources = record {
    gpu_count = 1;
    min_gpu_memory_gb = 16;
    cpu_cores = 1;
    memory_gb = 1;
    walltime_sec = 3600;
    required_capabilities = capabilities;
  };
  outputs = [];
  routing = record { allowed_providers = "local" ∷ []; allow_manual_provider = false };
  success = record { require_zero_exit_code = true; required_validators = [] };
}

abbrev small_gpu : Gpu
small_gpu = record { index = 0; name = "GPU"; memory_mb = 24 }

abbrev pub machine : ComputeProvider
machine = local_provider digits (λ m. m) "/srv" true 0 4 (small_gpu ∷ [])

abbrev pub machines : ProviderRegistry
machines = ("local", machine) ∷ []

abbrev pub gpu_route : ComputeRoute
gpu_route = record {
  provider_id = "local";
  resource_class = "local_gpu_0";
  snapshot = discover_resources digits (λ m. m) 0 4 (small_gpu ∷ []);
}

route_sound_example :
    IsRoute machines (gpu_spec ("cuda" ∷ [])) gpu_route × Memᴰ {A = String} "local" ("local" ∷ [])
unfolding route route_from with_provider or_next route_to route_over first_offer get can_run
    some_offer_runs discover_resources probe
route_sound_example = route_sound machines (gpu_spec ("cuda" ∷ [])) gpu_route refl

local-route_to_example :
    (o : ResourceOffer) × (route_to (gpu_spec ("cuda" ∷ [])) "local" machine
      ≡ some (record {
        provider_id = "local";
        resource_class = o.resource_class;
        snapshot = discover_resources digits (λ m. m) 0 4 (small_gpu ∷ []);
      }))
    × Memᴰ o (discover_resources digits (λ m. m) 0 4 (small_gpu ∷ [])).offers
    × (has_capabilities ("cuda" ∷ []) o ≡ true)
unfolding can_run some_offer_runs discover_resources
local-route_to_example =
    local-route_to digits (λ m. m) (gpu_spec ("cuda" ∷ [])) "/srv" 0 4 (small_gpu ∷ []) refl

-- A provider whose queue has one offer.
abbrev cluster : ComputeProvider
cluster = record {
  provider_id = "cluster";
  probe = probe "/srv" 0 true;
  discover_resources = record {
    provider_id = "cluster";
    observed_at = 0;
    valid_until = 15;
    offers = gpu_offer digits (λ m. m) small_gpu ∷ [];
    metadata = (gpu_offer digits (λ m. m) small_gpu).metadata;
  };
  can_run = can_run;
}

get-register_example :
    (get machines "cluster" ≡ err lookup_error)
    × (get (machines ++ ("cluster", cluster) ∷ []) "cluster"
        ≡ (if ◌==◌ {T = String} "cluster" "cluster" then ok cluster else get machines "cluster"))
unfolding register
get-register_example =
    get-register cluster machines (machines ++ ("cluster", cluster) ∷ []) "cluster" refl

-- A machine without a GPU, and both machines.
abbrev bare : ComputeProvider
bare = local_provider digits (λ m. m) "/srv" true 0 4 []

abbrev both : ProviderRegistry
both = ("bare", bare) ∷ ("local", machine) ∷ []

abbrev either_spec : ComputeTaskSpec
either_spec = record (gpu_spec ("cuda" ∷ [])) {
  routing = record { allowed_providers = "bare" ∷ "local" ∷ []; allow_manual_provider = false };
}

route_first_example : route both either_spec ≡ ok gpu_route
unfolding get route_to route_over first_offer can_run some_offer_runs discover_resources probe
route_first_example =
    route_first both either_spec ("bare" ∷ []) "local" [] machine gpu_route refl
      ((bare, refl, refl), tt) refl refl

route_none_example : route (("local", bare) ∷ []) (gpu_spec ("cuda" ∷ [])) ≡ err runtime_error
unfolding get route_to route_over first_offer can_run some_offer_runs discover_resources probe
route_none_example =
    route_none (("local", bare) ∷ []) (gpu_spec ("cuda" ∷ [])) ((bare, refl, refl), tt)
