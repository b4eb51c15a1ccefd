-- ===== src/Adapters/Factory.antt =====
-- internal/provider/factory/factory.go
use local_router.Prelude.{String, Option, none, some, List, [], ◌∷◌, str_eq, if◌then◌else◌, ◌||◌}
use local_router.Prelude.Int.{ℤ}
use local_router.Config.{ModelConfig, ProviderConfig}
use local_router.Config.Checks.{stream_timeout_ms_or_default}
use local_router.Provider.{Provider, Outcome}
use local_router.Adapters.Http.{Send, positive_or, default_timeout_ms}
use local_router.Adapters.OpenAi
use local_router.Adapters.Ollama
use local_router.Adapters.Anthropic
use local_router.Adapters.Google
use local_router.Adapters.Cohere

-- The JSON codecs of the protocols.
pub record Codecs : Type 0 where
  pub open_ai : OpenAi.Codec
  pub decode_tags : String → Outcome (List String)
  pub anthropic : Anthropic.Codec
  pub google : Google.Codec
  pub cohere : Cohere.Codec

unfoldable pub model_key : List ModelConfig → String
model_key [] = ""
model_key (m ∷ ms) = let rest = model_key ms in if str_eq m.api_key "" then rest else m.api_key

unfoldable pub resolve_api_key : ProviderConfig → String
unfolding model_key
resolve_api_key p = if str_eq p.api_key "" then model_key p.models else p.api_key

abbrev pub timeout_of : ProviderConfig → ℤ
timeout_of p = positive_or default_timeout_ms p.timeout_ms

abbrev pub stream_timeout_of : ProviderConfig → ℤ
stream_timeout_of p = positive_or (timeout_of p) (stream_timeout_ms_or_default p)

-- New(p). `none` is the error for an unknown type.
unfoldable pub new : {S : Type 0} → Send S → Codecs → ProviderConfig → Option (Provider S)
unfolding resolve_api_key stream_timeout_ms_or_default OpenAi.new OpenAi.new_with_health_path
    OpenAi.as_provider Ollama.as_provider Anthropic.new Anthropic.as_provider Google.new
    Google.as_provider Cohere.new Cohere.as_provider
new send codecs p =
    let timeout = timeout_of p in
    let stream_timeout = stream_timeout_of p in
    if str_eq p.type "ollama"
    then some (
        Ollama.as_provider send codecs.open_ai codecs.decode_tags
          (Ollama.new p.id p.endpoint p.api_key timeout stream_timeout p.chat_path))
    else if str_eq p.type "openai-compatible" || str_eq p.type "mistral"
    then some (
        OpenAi.as_provider send codecs.open_ai (
          OpenAi.new_with_health_path p.id p.endpoint (resolve_api_key p) timeout stream_timeout
            p.chat_path p.health_check_path))
    else if str_eq p.type "anthropic"
    then some (
        Anthropic.as_provider send codecs.anthropic
          (Anthropic.new p.id p.api_key "" timeout stream_timeout))
    else if str_eq p.type "google"
    then some (
        Google.as_provider send codecs.google (Google.new p.id p.api_key "" timeout stream_timeout))
    else if str_eq p.type "cohere"
    then some (
        Cohere.as_provider send codecs.cohere (Cohere.new p.id p.api_key "" timeout stream_timeout))
    else none
