-- ===== src/Adapters/OpenAi.antt =====
-- internal/provider/openaicompat/adapter.go
use Prim.Native.String.{◌++◌ as str_append}
use local_router.Prelude.{
  String, Bool, true, false, not, Option, none, some, List, [], ◌∷◌, ◌++◌, str_eq, after_prefix,
  if◌then◌else◌,
}
use local_router.Prelude.Int.{ℤ}
use local_router.Provider.{
  Provider, Request, Response, Message, Float64, Error, Outcome, ok, err, StreamStart,
}
use local_router.Adapters.Http.{
  HttpRequest, HttpReply, Send, accepted, bind, decoded, trim_slashes, positive_or, text_or,
  default_timeout_ms, bearer, checked_status, read_models,
}
use local_router.Adapters.Scan.{Action, skip, stop, emit, fail, scan_chunks, start_of}

pub record OpenAi : Type 0 where
  pub id : String
  pub endpoint : String
  pub api_key : String
  pub chat_path : String
  pub health_check_path : String
  pub timeout_ms : ℤ
  pub stream_timeout_ms : ℤ

-- NewWithHealthPath
unfoldable pub new_with_health_path : String → String → String → ℤ → ℤ → String → String → OpenAi
unfolding trim_slashes
new_with_health_path id endpoint key timeout stream_timeout chat_path health_check_path =
    let timeout' = positive_or default_timeout_ms timeout in
    record {
      id = id;
      endpoint = trim_slashes endpoint;
      api_key = key;
      chat_path = text_or "/v1/chat/completions" chat_path;
      health_check_path = text_or "/v1/models" health_check_path;
      timeout_ms = timeout';
      stream_timeout_ms = positive_or timeout' stream_timeout;
    }

unfoldable pub new : String → String → String → ℤ → ℤ → String → OpenAi
unfolding new_with_health_path
new id endpoint key timeout stream_timeout chat_path =
    new_with_health_path id endpoint key timeout stream_timeout chat_path ""

pub record OaiRequest : Type 0 where
  pub model : String
  pub messages : List Message
  pub stream : Bool
  pub temperature : Option Float64
  pub top_p : Option Float64
  pub max_tokens : Option ℤ
  pub seed : Option ℤ

-- The contents of the choices' messages.
pub record OaiResponse : Type 0 where
  pub id : String
  pub model : String
  pub choices : List String
  pub prompt_tokens : ℤ
  pub completion_tokens : ℤ

-- `decode_chunk` yields the contents of the choices' deltas, `decode_models` the ids of the data.
pub record Codec : Type 0 where
  pub marshal : OaiRequest → String
  pub decode : String → Outcome OaiResponse
  pub decode_chunk : String → Outcome (List String)
  pub decode_models : String → Outcome (List String)

unfoldable pub to_oai : Request → Bool → OaiRequest
to_oai req stream = record {
  model = req.model;
  messages = req.messages;
  stream = stream;
  temperature = req.temperature;
  top_p = req.top_p;
  max_tokens = req.max_tokens;
  seed = req.seed;
}

-- The key of the request comes before the adapter's.
unfoldable pub authorization : OpenAi → Request → List (String × String)
authorization a req =
    if not (str_eq req.api_key "")
    then bearer req.api_key
    else if not (str_eq a.api_key "")
    then bearer a.api_key
    else []

unfoldable pub own_authorization : OpenAi → List (String × String)
own_authorization a = if str_eq a.api_key "" then [] else bearer a.api_key

unfoldable pub chat_request : Codec → OpenAi → Request → Bool → HttpRequest
unfolding to_oai authorization
chat_request codec a req stream = record {
  method = "POST";
  url = str_append a.endpoint a.chat_path;
  headers =
      ("Content-Type", "application/json")
      ∷ ((if stream then ("Accept", "text/event-stream") ∷ [] else []) ++ authorization a req);
  body = codec.marshal (to_oai req stream);
  timeout_ms = if stream then a.stream_timeout_ms else a.timeout_ms;
}

abbrev pub first_text : List String → String
first_text [] = ""
first_text (t ∷ ts) = t

unfoldable pub to_response : OaiResponse → Response
to_response r = record {
  id = r.id;
  model = r.model;
  content = first_text r.choices;
  usage = record { prompt_tokens = r.prompt_tokens; completion_tokens = r.completion_tokens };
}

unfoldable pub read_response : Codec → HttpReply → Outcome Response
unfolding accepted bind decoded to_response
read_response codec reply =
    bind (accepted reply)
      (λ body. bind (decoded "decode" (codec.decode body.text)) (λ r. ok (to_response r)))

-- The text of the first choice, where it is not empty.
unfoldable pub first_delta : List String → Action
first_delta [] = skip
first_delta (t ∷ ts) = if str_eq t "" then skip else emit (t ∷ [])

unfoldable pub decoded_line : Outcome (List String) → Action
unfolding first_delta
decoded_line (err e) = fail (Error.wrapped "parse stream" e)
decoded_line (ok choices) = first_delta choices

unfoldable pub data_line : Codec → Option String → Action
unfolding decoded_line
data_line codec none = skip
data_line codec (some payload) =
    if str_eq payload "[DONE]" then stop else decoded_line (codec.decode_chunk payload)

-- The loop body has no state.
unfoldable pub step : Codec → Unit {0} → String → Unit {0} × Action
unfolding data_line after_prefix
step codec st line = (st, data_line codec (after_prefix "data: " line))

unfoldable pub read_stream : Codec → HttpReply → Outcome StreamStart
unfolding accepted bind step scan_chunks start_of
read_stream codec reply =
    bind (accepted reply)
      (λ body. ok (start_of (scan_chunks (step codec) tt body.lines body.scan_error)))

unfoldable pub complete :
    {S : Type 0} → Send S → Codec → OpenAi → Request → S → Outcome Response × S
unfolding chat_request read_response
complete send codec a req s =
    let (reply, s') = send (chat_request codec a req false) s in (read_response codec reply, s')

unfoldable pub stream :
    {S : Type 0} → Send S → Codec → OpenAi → Request → S → Outcome StreamStart × S
unfolding chat_request read_stream
stream send codec a req s =
    let (reply, s') = send (chat_request codec a req true) s in (read_stream codec reply, s')

unfoldable pub get_request : OpenAi → String → HttpRequest
unfolding own_authorization
get_request a path = record {
  method = "GET";
  url = str_append a.endpoint path;
  headers = own_authorization a;
  body = "";
  timeout_ms = a.timeout_ms;
}

unfoldable pub health_check : {S : Type 0} → Send S → OpenAi → S → Option Error × S
unfolding get_request checked_status
health_check send a s =
    let (reply, s') = send (get_request a a.health_check_path) s in
    (checked_status "health check" reply, s')

unfoldable pub list_models : {S : Type 0} → Send S → Codec → OpenAi → S → Outcome (List String) × S
unfolding get_request read_models
list_models send codec a s =
    let (reply, s') = send (get_request a "/v1/models") s in
    (read_models "list models" codec.decode_models reply, s')

unfoldable pub as_provider : {S : Type 0} → Send S → Codec → OpenAi → Provider S
unfolding complete stream health_check list_models
as_provider send codec a = record {
  id = a.id;
  complete = complete send codec a;
  stream = stream send codec a;
  health_check = health_check send a;
  list_models = some (list_models send codec a);
}
