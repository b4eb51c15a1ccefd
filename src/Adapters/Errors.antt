-- ===== src/Adapters/Errors.antt =====
-- How the adapters report an answer with a status other than 200.
use local_router.Prelude.{◌≡◌, refl, ap, sym, ◌∙◌, ℕ, String, true, false, ◌==◌, some}
use local_router.Config.{ProviderConfig}
use local_router.Provider.{Provider, Request, err}
use local_router.Adapters.Http.{Body, HttpRequest, replied, Send, new_http_error, accepted, bind}
use local_router.Adapters.OpenAi
use local_router.Adapters.Ollama
use local_router.Adapters.Anthropic
use local_router.Adapters.Google
use local_router.Adapters.Cohere
use local_router.Adapters.Factory
use local_router.Adapters.Factory.{Codecs}
use local_router.Adapters.Made.{
  IsAdapter, ollama, open_ai, anthropic, google, cohere, new-IsAdapter,
}

-- Every request is answered with this status and this body.
abbrev Answers : {S : Type 0} → Send S → S → ℕ → Body → Type 0
Answers send s code body = (r : HttpRequest) → (send r s).0 ≡ replied code body

abbrev Fails : {S : Type 0} → Provider S → Request → S → ℕ → Body → Type 0
Fails p req s code body =
    ((p.complete req s).0 ≡ err (new_http_error code body.head))
    × ((p.stream req s).0 ≡ err (new_http_error code body.head))

adapter-Fails :
    {S : Type 0} (send : Send S) (codecs : Codecs) (id : String) (p : Provider S) (req : Request)
    (s : S) (code : ℕ) (body : Body)
    → IsAdapter send codecs id p
    → Answers send s code body
    → (code == 200) ≡ false
    → Fails p req s code body
unfolding Ollama.as_provider OpenAi.as_provider OpenAi.complete OpenAi.stream OpenAi.read_response
    OpenAi.read_stream Anthropic.as_provider Anthropic.complete Anthropic.stream
    Anthropic.read_response Anthropic.read_stream Google.as_provider Google.complete Google.stream
    Google.read_response Google.read_stream Cohere.as_provider Cohere.complete Cohere.stream
    Cohere.read_response Cohere.read_stream accepted bind
adapter-Fails send codecs id p req s code body (ollama a e same) answers bad = (
  ap (λ q. (q.complete req s).0) (sym e)
      ∙ rw (answers (OpenAi.chat_request codecs.open_ai a req false), bad) refl,
  ap (λ q. (q.stream req s).0) (sym e)
      ∙ rw (answers (OpenAi.chat_request codecs.open_ai a req true), bad) refl,
)
adapter-Fails send codecs id p req s code body (open_ai a e same) answers bad = (
  ap (λ q. (q.complete req s).0) (sym e)
      ∙ rw (answers (OpenAi.chat_request codecs.open_ai a req false), bad) refl,
  ap (λ q. (q.stream req s).0) (sym e)
      ∙ rw (answers (OpenAi.chat_request codecs.open_ai a req true), bad) refl,
)
adapter-Fails send codecs id p req s code body (anthropic a e same) answers bad = (
  ap (λ q. (q.complete req s).0) (sym e)
      ∙ rw (answers (Anthropic.messages_request codecs.anthropic a req false), bad) refl,
  ap (λ q. (q.stream req s).0) (sym e)
      ∙ rw (answers (Anthropic.messages_request codecs.anthropic a req true), bad) refl,
)
adapter-Fails send codecs id p req s code body (google a e same) answers bad = (
  ap (λ q. (q.complete req s).0) (sym e)
      ∙ rw (answers (Google.gemini_request codecs.google a req false), bad) refl,
  ap (λ q. (q.stream req s).0) (sym e)
      ∙ rw (answers (Google.gemini_request codecs.google a req true), bad) refl,
)
adapter-Fails send codecs id p req s code body (cohere a e same) answers bad = (
  ap (λ q. (q.complete req s).0) (sym e)
      ∙ rw (answers (Cohere.chat_request codecs.cohere a req false), bad) refl,
  ap (λ q. (q.stream req s).0) (sym e)
      ∙ rw (answers (Cohere.chat_request codecs.cohere a req true), bad) refl,
)

-- Where the service answers with a status other than 200, a provider that the factory made fails with
-- exactly that status and the head of the body as an HTTPError, for a completion and for a stream,
-- whichever of the protocols it speaks.
pub new-Fails :
    {S : Type 0} (send : Send S) (codecs : Codecs) (c : ProviderConfig) (p : Provider S)
    (req : Request) (s : S) (code : ℕ) (body : Body)
    → Factory.new send codecs c ≡ some p
    → ((r : HttpRequest) → (send r s).0 ≡ replied code body)
    → (code == 200) ≡ false
    → ((p.complete req s).0 ≡ err (new_http_error code body.head))
      × ((p.stream req s).0 ≡ err (new_http_error code body.head))
new-Fails send codecs c p req s code body made answers bad =
    adapter-Fails send codecs c.id p req s code body (new-IsAdapter send codecs c p made) answers
      bad
