-- ===== src/Discovery.antt =====
-- internal/discovery/env.go and internal/discovery/config.go: the providers that the environment gives
-- keys for, and the configuration that is generated for them. The text that `Write` makes of it is
-- left out.
pub mod Found
mod Examples
use Prim.Native.String.{◌++◌ as str_append}
use local_router.Prelude.{
  String, Bool, true, false, not, ◌&&◌, Option, none, some, List, [], ◌∷◌, ◌++◌, map, keep,
  if◌then◌else◌, str_eq,
}
use local_router.Prelude.Int.{ℤ, pos}
use local_router.Provider.{Error, other, Outcome, ok, err}
use local_router.Adapters.Http.{HttpReply, unreachable, replied, named, bind, decoded}

pub record EnvProvider : Type 0 where
  pub id : String
  pub type : String
  pub env_var : String
  pub endpoint : String
  pub priority : ℤ
  pub is_free : Bool
  pub recovery_window : String
  pub timeout_ms : ℤ

pub record ProviderModels : Type 0 where
  pub provider : EnvProvider
  pub models : List String

abbrev pub env_providers : List EnvProvider
env_providers =
    record {
      id = "openrouter";
      type = "openai-compatible";
      env_var = "OPENROUTER_API_KEY";
      endpoint = "https://openrouter.ai/api/v1";
      priority = pos 10;
      is_free = true;
      recovery_window = "15m";
      timeout_ms = pos 30000;
    }
    ∷ record {
      id = "groq";
      type = "openai-compatible";
      env_var = "GROQ_API_KEY";
      endpoint = "https://api.groq.com/openai/v1";
      priority = pos 20;
      is_free = true;
      recovery_window = "10m";
      timeout_ms = pos 30000;
    }
    ∷ record {
      id = "nvidia";
      type = "openai-compatible";
      env_var = "NVIDIA_API_KEY";
      endpoint = "https://integrate.api.nvidia.com/v1";
      priority = pos 30;
      is_free = false;
      recovery_window = "10m";
      timeout_ms = pos 30000;
    }
    ∷ record {
      id = "github";
      type = "openai-compatible";
      env_var = "GITHUB_TOKEN";
      endpoint = "https://models.github.ai/v1";
      priority = pos 40;
      is_free = true;
      recovery_window = "15m";
      timeout_ms = pos 30000;
    }
    ∷ record {
      id = "mistral";
      type = "openai-compatible";
      env_var = "MISTRAL_API_KEY";
      endpoint = "https://api.mistral.ai/v1";
      priority = pos 50;
      is_free = true;
      recovery_window = "15m";
      timeout_ms = pos 30000;
    }
    ∷ record {
      id = "cohere";
      type = "cohere";
      env_var = "COHERE_API_KEY";
      endpoint = "https://api.cohere.com/v1";
      priority = pos 60;
      is_free = true;
      recovery_window = "15m";
      timeout_ms = pos 30000;
    }
    ∷ record {
      id = "zhipu";
      type = "openai-compatible";
      env_var = "ZHIPU_API_KEY";
      endpoint = "https://open.bigmodel.cn/api/paas/v4";
      priority = pos 70;
      is_free = true;
      recovery_window = "15m";
      timeout_ms = pos 30000;
    }
    ∷ record {
      id = "cerebras";
      type = "openai-compatible";
      env_var = "CEREBRAS_API_KEY";
      endpoint = "https://api.cerebras.ai/v1";
      priority = pos 80;
      is_free = true;
      recovery_window = "10m";
      timeout_ms = pos 30000;
    }
    ∷ record {
      id = "siliconflow";
      type = "openai-compatible";
      env_var = "SILICONFLOW_API_KEY";
      endpoint = "https://api.siliconflow.cn/v1";
      priority = pos 90;
      is_free = true;
      recovery_window = "10m";
      timeout_ms = pos 30000;
    }
    ∷ record {
      id = "google";
      type = "google";
      env_var = "GOOGLE_API_KEY";
      endpoint = "";
      priority = pos 100;
      is_free = true;
      recovery_window = "15m";
      timeout_ms = pos 30000;
    }
    ∷ record {
      id = "anthropic";
      type = "anthropic";
      env_var = "ANTHROPIC_KEY";
      endpoint = "";
      priority = pos 110;
      is_free = false;
      recovery_window = "10m";
      timeout_ms = pos 30000;
    }
    ∷ record {
      id = "deepseek";
      type = "openai-compatible";
      env_var = "DEEPSEEK_KEY";
      endpoint = "https://api.deepseek.com/v1";
      priority = pos 120;
      is_free = false;
      recovery_window = "10m";
      timeout_ms = pos 30000;
    }
    ∷ []

-- The loop of `DiscoverFromEnv`; `getenv` is `os.Getenv`.
unfoldable pub append_discovered :
    (String → String) → List EnvProvider → List EnvProvider → List EnvProvider
append_discovered getenv [] found = found
append_discovered getenv (p ∷ ps) found =
    append_discovered getenv ps (if str_eq (getenv p.env_var) "" then found else found ++ p ∷ [])

unfoldable pub discover_from_env : (String → String) → List EnvProvider
unfolding append_discovered
discover_from_env getenv = append_discovered getenv env_providers []

-- An entry of the list of models of an OpenAI-compatible service.
pub record ListedModel : Type 0 where
  pub id : String
  pub deleted : Bool

-- The decoders of the two kinds of answers.
pub record Decoders : Type 0 where
  pub open_ai : String → Outcome (List ListedModel)
  pub ollama : String → Outcome (List String)

unfoldable pub parse_open_ai_models : Decoders → String → Outcome (List String)
unfolding bind decoded
parse_open_ai_models decoders text =
    bind (decoded "decode" (decoders.open_ai text))
      (λ found. ok (map (λ m. m.id) (keep (λ m. not m.deleted && not (str_eq m.id "")) found)))

unfoldable pub parse_ollama_models : Decoders → String → Outcome (List String)
unfolding bind decoded
parse_ollama_models decoders text =
    bind (decoded "decode" (decoders.ollama text)) (λ found. ok (named found))

-- The status of the answer is not looked at.
unfoldable pub read_listed : Decoders → String → HttpReply → Outcome (List String)
unfolding parse_open_ai_models parse_ollama_models decoded
read_listed decoders type (unreachable e) = err (Error.wrapped "request failed" e)
read_listed decoders type (replied code body) = decoded "parse models" (
    if str_eq type "ollama"
    then parse_ollama_models decoders body.text
    else parse_open_ai_models decoders body.text)

-- FetchModels, where the request can be made; `get` is the answer to a GET of the URL.
unfoldable pub fetch_models : Decoders → (String → HttpReply) → EnvProvider → Outcome (List String)
unfolding read_listed
fetch_models decoders get p =
    if str_eq p.endpoint ""
    then ok []
    else read_listed decoders p.type (get (str_append p.endpoint "/models"))

-- DiscoverModelsForProviders: the first error ends it.
unfoldable pub discover_models_for_providers :
    Decoders → (String → HttpReply) → List EnvProvider → Outcome (List ProviderModels)
unfolding fetch_models bind decoded
discover_models_for_providers decoders get [] = ok []
discover_models_for_providers decoders get (p ∷ ps) =
    let rest = discover_models_for_providers decoders get ps in
    bind (decoded (str_append "fetch models for " p.id) (fetch_models decoders get p))
      (λ models. bind rest (λ results. ok (record { provider = p; models = models } ∷ results)))

-- ### The generated configuration

pub record LimitConfig : Type 0 where
  pub requests : ℤ
  pub window : String

pub record ModelConfig : Type 0 where
  pub id : String
  pub is_free : Bool

pub record ConfigProvider : Type 0 where
  pub id : String
  pub type : String
  pub endpoint : String
  pub api_key : String
  pub timeout_ms : ℤ
  pub recovery_window : String
  pub limits : List LimitConfig
  pub models : List ModelConfig

-- The level of the log, the latency's threshold and the fallback are constants.
pub record GeneratedConfig : Type 0 where
  pub version : ℤ
  pub default_model : String
  pub latency_threshold_ms : ℤ
  pub providers : List ConfigProvider

-- NewConfigWriter
abbrev pub new_config : GeneratedConfig
new_config = record {
  version = pos 2;
  default_model = "";
  latency_threshold_ms = pos 2000;
  providers = [];
}

abbrev pub model_of : Bool → String → ModelConfig
model_of is_free id = record { id = id; is_free = is_free }

abbrev pub env_provider_with_models : ProviderModels → ConfigProvider
env_provider_with_models pm = record {
  id = pm.provider.id;
  type = pm.provider.type;
  endpoint = pm.provider.endpoint;
  api_key = str_append "${" (str_append pm.provider.env_var "}");
  timeout_ms = pm.provider.timeout_ms;
  recovery_window = pm.provider.recovery_window;
  limits = if pm.provider.is_free then record { requests = pos 100; window = "1m" } ∷ [] else [];
  models = map (model_of pm.provider.is_free) pm.models;
}

unfoldable pub add_env_provider_with_models : ProviderModels → GeneratedConfig → GeneratedConfig
add_env_provider_with_models pm g = record g {
  providers = g.providers ++ env_provider_with_models pm ∷ [];
}

-- `for _, pm := range providers`
unfoldable pub add_env_providers : List ProviderModels → GeneratedConfig → GeneratedConfig
unfolding add_env_provider_with_models
add_env_providers [] g = g
add_env_providers (pm ∷ pms) g = add_env_providers pms (add_env_provider_with_models pm g)

abbrev pub first_model : List String → String → String
first_model [] old = old
first_model (m ∷ ms) old = m

-- GenerateConfigFromEnv up to the writing of the file; `none` is the error that there are no providers.
unfoldable pub generate_config_from_env : List ProviderModels → Option GeneratedConfig
unfolding add_env_providers
generate_config_from_env [] = none
generate_config_from_env (pm ∷ pms) =
    let g = add_env_providers (pm ∷ pms) new_config in
    some (record g { default_model = first_model pm.models g.default_model })

pub record LocalRouterInstance : Type 0 where
  pub ip : String
  pub port : String
  pub version : String
  pub providers : List String
  pub models : List String

-- strings.ReplaceAll(s, ".", "-")
unfoldable pub dots_to_dashes : String → String
dots_to_dashes String.[] = ""
dots_to_dashes (String.◌∷◌ c s) =
    let rest = dots_to_dashes s in
    if str_eq (String.◌∷◌ c String.[]) "." then str_append "-" rest else String.◌∷◌ c rest

unfoldable pub network_provider : LocalRouterInstance → ConfigProvider
unfolding dots_to_dashes
network_provider i = record {
  id = str_append "localrouter-" (dots_to_dashes i.ip);
  type = "openai-compatible";
  endpoint = str_append "http://" (str_append i.ip (str_append ":" (str_append i.port "/v1")));
  api_key = "";
  timeout_ms = pos 30000;
  recovery_window = "5m";
  limits = [];
  models = map (model_of false) i.models;
}

unfoldable pub add_network_instances : List LocalRouterInstance → GeneratedConfig → GeneratedConfig
unfolding network_provider
add_network_instances [] g = g
add_network_instances (i ∷ is_) g =
    add_network_instances is_ (record g { providers = g.providers ++ network_provider i ∷ [] })

abbrev pub first_env_model : List ProviderModels → String
first_env_model [] = ""
first_env_model (pm ∷ pms) = first_model pm.models ""

abbrev pub first_instance_model : List LocalRouterInstance → String
first_instance_model [] = ""
first_instance_model (i ∷ is_) = first_model i.models ""

abbrev is_empty {ℓ} : {A : Type ℓ} → List A → Bool
is_empty [] = true
is_empty (x ∷ xs) = false

abbrev has_models : List ProviderModels → Bool
has_models [] = false
has_models (pm ∷ pms) = not (is_empty pm.models)

-- GenerateConfigFromDiscovery up to the writing of the file.
unfoldable pub generate_config_from_discovery :
    List ProviderModels → List LocalRouterInstance → Option GeneratedConfig
unfolding add_env_providers add_network_instances
generate_config_from_discovery pms found =
    if is_empty pms && is_empty found
    then none
    else some (record (add_network_instances found (add_env_providers pms new_config)) {
      default_model = if has_models pms then first_env_model pms else first_instance_model found;
    })
