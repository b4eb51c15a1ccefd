-- ===== src/Registry/Examples.antt =====
-- The registry's theorems at a concrete configuration.
use local_router.Prelude.{
  map, keep, ◌≡◌, refl, String, false, none, List, [], ◌∷◌, ◌++◌, In, All, Some, or_zero,
}
use local_router.Prelude.Int.{pos}
use local_router.Prelude.Sorting.{IsSorted, sort, insert}
use mathlib.Core.List.{Perm}
use local_router.GoMap
use local_router.Config.{ModelConfig, ProviderConfig}
use local_router.Registry.{
  Entry, Registry, entry_less, any_less, build, finish_building, add_providers, add_models,
  note_provider, for_model, model_key,
}
use local_router.Registry.Discovery.{set_discovered_models, is_stale, in_config, base_of, find_any}
use local_router.Registry.Index.{
  IsIndexed, with_key, build-IsIndexed, set_discovered_models-IsIndexed,
}
use local_router.Registry.Lookup.{
  any_entry, gets_entry, for_model-entries, set_discovered_models-all,
}

abbrev model : String → ModelConfig
model id = record {
  id = id;
  priority = pos 3;
  is_free = false;
  api_key = "";
  limits = [];
  temperature = none;
  top_p = none;
  max_tokens = none;
  seed = none;
}

abbrev provider : String → List ModelConfig → ProviderConfig
provider id models = record {
  id = id;
  type = "ollama";
  endpoint = "http://localhost";
  api_key = "";
  timeout_ms = pos 0;
  stream_timeout_ms = pos 0;
  chat_path = "";
  health_check_path = "";
  recovery_window = "";
  limits = [];
  models = models;
  is_remote = false;
  skipped = false;
  recovery_window_dur = pos 0;
}

-- "a" names two models, "b" takes any.
abbrev configured : List ProviderConfig
configured = provider "a" (model "llama" ∷ model "phi" ∷ []) ∷ provider "b" [] ∷ []

abbrev built : Registry
built = build configured "phi"

set_discovered_models-IsIndexed_example :
    IsIndexed (set_discovered_models "b" ("phi" ∷ "qwen" ∷ []) "phi" built)
set_discovered_models-IsIndexed_example =
    set_discovered_models-IsIndexed "b" ("phi" ∷ "qwen" ∷ []) "phi" built
      (build-IsIndexed configured "phi")

for_model-entries_example :
    let own = with_key model_key "phi" built.all in
    IsSorted entry_less (for_model built "phi")
    × All (λ e. e.model_id ≡ "phi") (for_model built "phi")
    × Perm
        (for_model built "phi")
        (own ++ map (any_entry "phi") (keep (gets_entry built.injected own) built.any_model))
for_model-entries_example = for_model-entries built "phi" (build-IsIndexed configured "phi")

set_discovered_models-all_example :
    let all = (set_discovered_models "b" ("phi" ∷ "qwen" ∷ []) "phi" built).all in
    let own = or_zero [] (GoMap.get built.by_provider "b") in
    ((e : Entry) → In e built.all → is_stale "b" e ≡ false → In e all)
    × ((m : String)
        → In m ("phi" ∷ "qwen" ∷ [])
        → in_config own m ≡ false
        → Some (λ e. (e.provider_id ≡ "b") × (e.model_id ≡ m)) all)
unfolding base_of find_any build finish_building add_providers add_models note_provider GoMap.get
    GoMap.put GoMap.empty sort any_less insert
set_discovered_models-all_example =
    set_discovered_models-all "b" "phi" ("phi" ∷ "qwen" ∷ []) built (false, pos 3) refl
