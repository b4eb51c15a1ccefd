-- ===== src/Adapters.antt =====
-- internal/provider/*/adapter.go and internal/provider/factory: the clients of the services, as
-- providers of the router. The network and the JSON decoders are parameters: `send` is what
-- `http.Client.Do` answers, `Codec` what encoding/json does with the types of an adapter.
pub mod Http
pub mod Scan
pub mod OpenAi
pub mod Ollama
pub mod Anthropic
pub mod Google
pub mod Cohere
pub mod Factory
pub mod Made
pub mod Shape
pub mod Frames
pub mod Errors
mod Examples
