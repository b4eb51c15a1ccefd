-- ===== src/Server/Incoming.antt =====
-- Requests and complete answers of internal/server/sse.go: `toProviderMessage`, `handleCompletions` and
-- `handleComplete`. What is logged is left out.
use Prim.Native.String.{◌++◌ as str_append}
use local_router.Prelude.{
  ℕ, ◌/◌, String, Bool, not, ◌&&◌, Option, none, some, List, [], ◌∷◌, map, keep, str_eq,
  if◌then◌else◌,
}
use local_router.Prelude.Int.{ℤ, sub_ℕ}
use local_router.Prelude.Time.{Time}
use local_router.Provider.{Message, Request, Response, Usage, Float64}
use local_router.Router.{
  Services, Routers, RouteError, model_not_found, all_providers_failed, Reply, answer, refuse,
}
use local_router.Router.Calls.{route}

pub record ContentBlock : Type 0 where
  pub type : String
  pub text : String

-- `content` is the raw JSON.
pub record IncomingMessage : Type 0 where
  pub role : String
  pub content : String

pub record CompletionRequest : Type 0 where
  pub model : String
  pub messages : List IncomingMessage
  pub stream : Bool
  pub temperature : Option Float64
  pub top_p : Option Float64
  pub max_tokens : Option ℤ
  pub seed : Option ℤ

-- The JSON decoder on a body, and on a message's content as a string or as a list of blocks.
pub record Decoders : Type 0 where
  pub request : String → Option CompletionRequest
  pub text : String → Option String
  pub blocks : String → Option (List ContentBlock)

-- strings.Join(parts, "\n")
unfoldable pub join_lines : List String → String
join_lines [] = ""
join_lines (s ∷ []) = s
join_lines (s ∷ (t ∷ ts)) = str_append s (str_append "\n" (join_lines (t ∷ ts)))

abbrev pub is_text_block : ContentBlock → Bool
is_text_block b = str_eq b.type "text" && not (str_eq b.text "")

unfoldable pub content_of : Decoders → String → String
unfolding join_lines
content_of decoders raw = elim (decoders.text raw) [
  | some s ↦ s
  | none ↦ elim (decoders.blocks raw) [
    | some blocks ↦ join_lines (map (λ b. b.text) (keep is_text_block blocks))
    | none ↦ raw
  ]
]

unfoldable pub to_provider_message : Decoders → IncomingMessage → Message
unfolding content_of
to_provider_message decoders m = record { role = m.role; content = content_of decoders m.content }

unfoldable pub to_request : Decoders → CompletionRequest → Request
unfolding to_provider_message
to_request decoders req = record {
  model = req.model;
  messages = map (to_provider_message decoders) req.messages;
  stream = req.stream;
  api_key = "";
  temperature = req.temperature;
  top_p = req.top_p;
  max_tokens = req.max_tokens;
  seed = req.seed;
}

-- What `handleCompletions` does with a body: it is refused (400), or goes to one of two handlers.
pub data Dispatch : Type 0 where
  invalid : Dispatch
  complete stream : Request → Dispatch

unfoldable pub dispatch : Decoders → String → Dispatch
unfolding to_request
dispatch decoders body = elim (decoders.request body) [
  | none ↦ invalid
  | some req ↦ elim req.messages [
    | [] ↦ invalid
    | m ∷ ms ↦
        if req.stream
        then Dispatch.stream (to_request decoders req)
        else complete (to_request decoders req)
  ]
]

-- The texts of the router's errors.
unfoldable pub route_error_text : RouteError → String
route_error_text model_not_found = "model not found or no providers configured"
route_error_text all_providers_failed = "all providers failed or unavailable"

-- The seconds from 1970 on; `Time` counts nanoseconds from the year 1.
unfoldable pub unix : Time → ℤ
unix t = sub_ℕ (t / 1000000000) 62135596800

-- The answer's one choice carries the role "assistant" and the reason "stop".
pub record CompletionResponse : Type 0 where
  pub id : String
  pub object : String
  pub created : ℤ
  pub model : String
  pub message : Message
  pub finish_reason : String
  pub usage : Usage

pub data Answer : Type 0 where
  http_error : ℕ → String → Answer
  completion : CompletionResponse → Answer

unfoldable pub completion_of : Time → Response → CompletionResponse
unfolding unix
completion_of now resp = record {
  id = resp.id;
  object = "chat.completion";
  created = unix now;
  model = resp.model;
  message = record { role = "assistant"; content = resp.content };
  finish_reason = "stop";
  usage = resp.usage;
}

unfoldable pub answer_of : Reply Response × Services → Answer × Services
unfolding completion_of route_error_text
answer_of (answer resp, s) = (completion (completion_of s.now resp), s)
answer_of (refuse x, s) = (
  http_error 503 (
      str_append "{\"error\":{\"message\":\""
        (str_append (route_error_text x) "\",\"type\":\"router_error\"}}")),
  s,
)

unfoldable pub handle_complete : Routers → Request → Services → Option (Answer × Services)
unfolding answer_of
handle_complete rs req s = elim (route rs req s) [ none ↦ none | some y ↦ some (answer_of y) ]
