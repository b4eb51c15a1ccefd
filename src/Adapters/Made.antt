-- ===== src/Adapters/Made.antt =====
-- What `New` of internal/provider/factory/factory.go makes: one of the five kinds of adapters.
use local_router.Prelude.{
  ◌≡◌, ◌↔◌, refl, ap, inl, inr, String, false, ◌||◌, none, some, str_eq, arith, Bool-cases,
}
use local_router.Config.{ProviderConfig}
use local_router.Config.Checks.{valid_type}
use local_router.Provider.{Provider}
use local_router.Adapters.Http.{Send}
use local_router.Adapters.OpenAi
use local_router.Adapters.Ollama
use local_router.Adapters.Anthropic
use local_router.Adapters.Google
use local_router.Adapters.Cohere
use local_router.Adapters.Factory
use local_router.Adapters.Factory.{Codecs}

-- A provider of one of the five types, with the id `id`.
pub data IsAdapter {S : Type 0} (send : Send S) (codecs : Codecs) (id : String) (p : Provider S)
    : Type 0 where
  ollama :
      (a : OpenAi.OpenAi)
      → Ollama.as_provider send codecs.open_ai codecs.decode_tags a ≡ p
      → a.id ≡ id
      → IsAdapter send codecs id p
  open_ai :
      (a : OpenAi.OpenAi)
      → OpenAi.as_provider send codecs.open_ai a ≡ p
      → a.id ≡ id
      → IsAdapter send codecs id p
  anthropic :
      (a : Anthropic.Anthropic)
      → Anthropic.as_provider send codecs.anthropic a ≡ p
      → a.id ≡ id
      → IsAdapter send codecs id p
  google :
      (a : Google.Google)
      → Google.as_provider send codecs.google a ≡ p
      → a.id ≡ id
      → IsAdapter send codecs id p
  cohere :
      (a : Cohere.Cohere)
      → Cohere.as_provider send codecs.cohere a ≡ p
      → a.id ≡ id
      → IsAdapter send codecs id p

some_injective : {S : Type 0} {p q : Provider S} → some p ≡ some q → p ≡ q
some_injective h = cc h

pub new-IsAdapter :
    {S : Type 0} (send : Send S) (codecs : Codecs) (c : ProviderConfig) (p : Provider S)
    → Factory.new send codecs c ≡ some p
    → IsAdapter send codecs c.id p
unfolding Factory.new OpenAi.new OpenAi.new_with_health_path Anthropic.new Google.new Cohere.new
new-IsAdapter send codecs c p h = elim (Bool-cases (str_eq c.type "ollama")) [
  | inl t ↦
      ollama
        (Ollama.new c.id c.endpoint c.api_key (Factory.timeout_of c) (Factory.stream_timeout_of c)
          c.chat_path)
        (some_injective (rw (t, Factory.new) at h)) refl
  | inr t ↦ elim (Bool-cases (str_eq c.type "openai-compatible" || str_eq c.type "mistral")) [
    | inl u ↦
        open_ai
          (OpenAi.new_with_health_path c.id c.endpoint (Factory.resolve_api_key c)
            (Factory.timeout_of c) (Factory.stream_timeout_of c) c.chat_path c.health_check_path)
          (some_injective (rw (t, u, Factory.new) at h)) refl
    | inr u ↦ elim (Bool-cases (str_eq c.type "anthropic")) [
      | inl v ↦
          anthropic
            (Anthropic.new c.id c.api_key "" (Factory.timeout_of c) (Factory.stream_timeout_of c))
            (some_injective (rw (t, u, v, Factory.new) at h)) refl
      | inr v ↦ elim (Bool-cases (str_eq c.type "google")) [
        | inl w ↦
            google
              (Google.new c.id c.api_key "" (Factory.timeout_of c) (Factory.stream_timeout_of c))
              (some_injective (rw (t, u, v, w, Factory.new) at h)) refl
        | inr w ↦ elim (Bool-cases (str_eq c.type "cohere")) [
          | inl x ↦
              cohere
                (Cohere.new c.id c.api_key "" (Factory.timeout_of c) (Factory.stream_timeout_of c))
                (some_injective (rw (t, u, v, w, x, Factory.new) at h)) refl
          | inr x ↦ absurd (ground (arith, t, u, v, w, x, h))
        ]
      ]
    ]
  ]
]

pub IsAdapter-id :
    {S : Type 0} (send : Send S) (codecs : Codecs) (id : String) (p : Provider S)
    → IsAdapter send codecs id p
    → p.id ≡ id
unfolding Ollama.as_provider OpenAi.as_provider Anthropic.as_provider Google.as_provider
    Cohere.as_provider
IsAdapter-id send codecs id p (ollama a made same) = cc (ap (λ q. q.id) made, same)
IsAdapter-id send codecs id p (open_ai a made same) = cc (ap (λ q. q.id) made, same)
IsAdapter-id send codecs id p (anthropic a made same) = cc (ap (λ q. q.id) made, same)
IsAdapter-id send codecs id p (google a made same) = cc (ap (λ q. q.id) made, same)
IsAdapter-id send codecs id p (cohere a made same) = cc (ap (λ q. q.id) made, same)

-- The factory knows exactly the types of provider that the validation of the configuration accepts.
pub new_iff :
    {S : Type 0} (send : Send S) (codecs : Codecs) (c : ProviderConfig)
    → (Factory.new send codecs c ≡ none) ↔ (valid_type c.type ≡ false)
unfolding Factory.new
new_iff send codecs c = (λ h. ground (arith, h), λ h. ground (arith, h))
