-- ===== src/Adapters/Ollama.antt =====
-- internal/provider/ollama/adapter.go: the OpenAI adapter with two methods of its own. Neither sends
-- the key. `decode_tags` yields the names of the models.
use Prim.Native.String.{◌++◌ as str_append}
use local_router.Prelude.{String, Option, some, List, []}
use local_router.Prelude.Int.{ℤ}
use local_router.Provider.{Provider, Error, Outcome}
use local_router.Adapters.Http.{HttpRequest, Send, checked_status, read_models}
use local_router.Adapters.OpenAi.{OpenAi, Codec}
use local_router.Adapters.OpenAi

abbrev pub new : String → String → String → ℤ → ℤ → String → OpenAi
new = OpenAi.new

abbrev tags_request : OpenAi → HttpRequest
tags_request a = record {
  method = "GET";
  url = str_append a.endpoint "/api/tags";
  headers = [];
  body = "";
  timeout_ms = a.timeout_ms;
}

unfoldable pub health_check : {S : Type 0} → Send S → OpenAi → S → Option Error × S
unfolding checked_status
health_check send a s =
    let (reply, s') = send (tags_request a) s in (checked_status "ollama health" reply, s')

unfoldable pub list_models :
    {S : Type 0}
    → Send S
    → (String → Outcome (List String))
    → OpenAi
    → S
    → Outcome (List String) × S
unfolding read_models
list_models send decode_tags a s =
    let (reply, s') = send (tags_request a) s in
    (read_models "ollama list models" decode_tags reply, s')

-- The embedded adapter answers for the other methods.
unfoldable pub as_provider :
    {S : Type 0} → Send S → Codec → (String → Outcome (List String)) → OpenAi → Provider S
unfolding OpenAi.as_provider health_check list_models
as_provider send codec decode_tags a = record (OpenAi.as_provider send codec a) {
  health_check = health_check send a;
  list_models = some (list_models send decode_tags a);
}
