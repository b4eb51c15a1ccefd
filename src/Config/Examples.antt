-- ===== src/Config/Examples.antt =====
-- The theorems on the configuration, at a concrete file.
use local_router.Prelude.{◌≡◌, refl, ◌-◌, ◌^◌, arith, ◌↔◌, true, false, none, List, [], ◌∷◌, All}
use local_router.Prelude.Int.{pos, negsuc, ◌+ℤ◌, ◌≤ℤ◌}
use local_router.Config.{ModelConfig, ProviderConfig, Config}
use local_router.Config.Checks.{zero_provider, validate}
use local_router.Config.Priorities.{
  fill_priorities, fill_providers, fill_models, next_int, max_int, max_of_models, max_priority,
  AllBelow, ProvidersFilled, fill_priorities-Filled,
}
use local_router.Config.Schema.{Distinct}
use local_router.Config.Valid.{IsProvider, HasDefault, validate_iff}

-- A model without a priority.
abbrev llama : ModelConfig
llama = record {
  id = "llama";
  priority = pos 0;
  is_free = false;
  api_key = "";
  limits = [];
  temperature = none;
  top_p = none;
  max_tokens = none;
  seed = none;
}

abbrev phi : ModelConfig
phi = record llama { id = "phi"; priority = pos 7 }

abbrev providers : List ProviderConfig
providers =
    record zero_provider {
      id = "near";
      type = "ollama";
      endpoint = "http://localhost:11434";
      models = llama ∷ phi ∷ [];
      limits =
          record {
            requests = pos 10;
            window = "1m";
            concurrent_requests = pos 0;
            window_dur = pos 0;
          }
          ∷ [];
    }
    ∷ record zero_provider { id = "far"; type = "google"; is_remote = true }
    ∷ []

abbrev config : Config
config = record {
  version = pos 2;
  port = pos 8080;
  default_model = "phi";
  latency_threshold_ms = pos 2000;
  fallback_enabled = true;
  level = "INFO";
  providers = providers;
  nodes = [];
  remotes = [];
}

fill_priorities-Filled_example :
    let top = max_priority (pos 0) providers in
    (pos 0 ≤ℤ top)
    × AllBelow top providers
    × ProvidersFilled top providers (fill_priorities providers)
unfolding max_priority max_of_models ◌+ℤ◌
fill_priorities-Filled_example = fill_priorities-Filled providers (omega arith)

-- With the greatest priority in the file the counter starts below zero.
abbrev greatest : List ProviderConfig
greatest = record zero_provider { models = record phi { priority = max_int } ∷ llama ∷ [] } ∷ []

fill_priorities_wraps :
    fill_priorities greatest
    ≡ record zero_provider {
      models =
          record phi { priority = max_int } ∷ record llama { priority = negsuc (2 ^ 63 - 2) } ∷ [];
    }
      ∷ []
unfolding fill_priorities fill_providers fill_models next_int max_priority max_of_models ◌+ℤ◌
fill_priorities_wraps = refl

validate_iff_example : (validate (λ s. s) config ≡ none) ↔ (
    (config.version ≡ pos 2)
    × Distinct providers
    × All IsProvider providers
    × HasDefault "phi" providers)
validate_iff_example = validate_iff (λ s. s) config
