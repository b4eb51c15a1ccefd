-- ===== src/Discovery/Examples.antt =====
-- The generated configuration, where two variables are set.
use local_router.Prelude.{
  ◌≡◌, refl, String, true, false, Option, none, some, List, [], ◌∷◌, map, keep, str_eq,
  if◌then◌else◌,
}
use local_router.Provider.{other, Outcome, ok, err}
use local_router.Adapters.Http.{HttpReply, replied, bind, decoded}
use local_router.Discovery.{
  env_providers, append_discovered, discover_from_env, Decoders, ListedModel, parse_open_ai_models,
  read_listed, fetch_models, discover_models_for_providers, ProviderModels, GeneratedConfig,
  new_config, generate_config_from_env, add_env_providers, add_env_provider_with_models,
}
use local_router.Discovery.Found.{name_of, config_name, are_fine, has_key, generate_config-are_fine}

-- Keys for Groq and for Google.
abbrev getenv : String → String
getenv name =
    if str_eq name "GROQ_API_KEY" then "k" else if str_eq name "GOOGLE_API_KEY" then "g" else ""

abbrev listed : List ListedModel
listed = record { id = "llama"; deleted = false } ∷ record { id = "old"; deleted = true } ∷ []

abbrev decoders : Decoders
decoders = record { open_ai = λ text. ok listed; ollama = λ text. err (other text) }

abbrev get : String → HttpReply
get url = replied 200 (record { text = "{}"; head = "{}"; lines = []; scan_error = none })

abbrev or_none : Outcome (List ProviderModels) → List ProviderModels
or_none (ok pms) = pms
or_none (err e) = []

abbrev found : List ProviderModels
found = or_none (discover_models_for_providers decoders get (discover_from_env getenv))

abbrev or_new : Option GeneratedConfig → GeneratedConfig
or_new none = new_config
or_new (some g) = g

abbrev generated : GeneratedConfig
generated = or_new (generate_config_from_env found)

generate_config-are_fine_example :
    (map config_name generated.providers ≡ map name_of (keep (has_key getenv) env_providers))
    × (are_fine (map config_name generated.providers) ≡ true)
unfolding discover_from_env append_discovered discover_models_for_providers fetch_models read_listed
    parse_open_ai_models bind decoded generate_config_from_env add_env_providers
    add_env_provider_with_models keep
generate_config-are_fine_example =
    generate_config-are_fine getenv decoders get found generated refl refl
