-- ===== src/Adapters/Cohere.antt =====
-- internal/provider/cohere/adapter.go
use Prim.Native.String.{◌++◌ as str_append}
use local_router.Prelude.{
  String, Bool, true, false, Option, none, some, List, [], ◌∷◌, str_eq, after_prefix, if◌then◌else◌,
}
use local_router.Prelude.Int.{ℤ}
use local_router.Provider.{
  Provider, Request, Response, Message, Error, Outcome, ok, err, StreamStart,
}
use local_router.Adapters.Http.{
  HttpRequest, HttpReply, Send, accepted, bind, decoded, trim_slashes, positive_or, text_or,
  default_timeout_ms, checked, bearer,
}
use local_router.Adapters.Scan.{Action, skip, stop, emit, fail, scan_chunks, start_of}

pub record Cohere : Type 0 where
  pub id : String
  pub api_key : String
  pub endpoint : String
  pub timeout_ms : ℤ
  pub stream_timeout_ms : ℤ

unfoldable pub new : String → String → String → ℤ → ℤ → Cohere
unfolding trim_slashes
new id key endpoint timeout stream_timeout =
    let timeout' = positive_or default_timeout_ms timeout in
    record {
      id = id;
      api_key = key;
      endpoint = trim_slashes (text_or "https://api.cohere.com/v2" endpoint);
      timeout_ms = timeout';
      stream_timeout_ms = positive_or timeout' stream_timeout;
    }

pub record CohRequest : Type 0 where
  pub model : String
  pub messages : List Message
  pub stream : Bool

-- A typed text: a block of a response.
pub record Block : Type 0 where
  pub type : String
  pub text : String

pub record CohResponse : Type 0 where
  pub id : String
  pub content : List Block
  pub input_tokens : ℤ
  pub output_tokens : ℤ

pub record Codec : Type 0 where
  pub marshal : CohRequest → String
  pub decode : String → Outcome CohResponse
  pub decode_delta : String → Outcome String

-- The temperature, the limits and the seed of the request are not sent.
unfoldable pub to_coh : Request → Bool → CohRequest
to_coh req stream = record { model = req.model; messages = req.messages; stream = stream }

unfoldable pub chat_request : Codec → Cohere → Request → Bool → HttpRequest
unfolding to_coh
chat_request codec a req stream = record {
  method = "POST";
  url = str_append a.endpoint "/v2/chat";
  headers = ("Content-Type", "application/json") ∷ bearer a.api_key;
  body = codec.marshal (to_coh req stream);
  timeout_ms = if stream then a.stream_timeout_ms else a.timeout_ms;
}

-- The texts of the blocks of type "text".
unfoldable pub joined_text : List Block → String
joined_text [] = ""
joined_text (b ∷ bs) =
    let rest = joined_text bs in if str_eq b.type "text" then str_append b.text rest else rest

unfoldable pub to_response : Request → CohResponse → Response
unfolding joined_text
to_response req r = record {
  id = r.id;
  model = req.model;
  content = joined_text r.content;
  usage = record { prompt_tokens = r.input_tokens; completion_tokens = r.output_tokens };
}

unfoldable pub read_response : Codec → Request → HttpReply → Outcome Response
unfolding accepted bind decoded to_response
read_response codec req reply =
    bind (accepted reply)
      (λ body. bind (decoded "decode" (codec.decode body.text)) (λ r. ok (to_response req r)))

unfoldable pub decoded_delta : Outcome String → Action
decoded_delta (err e) = fail (Error.wrapped "parse stream" e)
decoded_delta (ok text) = if str_eq text "" then skip else emit (text ∷ [])

unfoldable pub data_line : Codec → String → Option String → Action
unfolding decoded_delta
data_line codec last none = skip
data_line codec last (some payload) =
    if str_eq last "content-delta" then decoded_delta (codec.decode_delta payload) else skip

-- The state is `lastEvent`; the second argument is what follows "event: ".
unfoldable pub event_line : Codec → String → Option String → Option String → String × Action
unfolding data_line
event_line codec last (some event) payload =
    (event, if str_eq event "message-end" then stop else skip)
event_line codec last none payload = (last, data_line codec last payload)

unfoldable pub step : Codec → String → String → String × Action
unfolding event_line after_prefix
step codec last line =
    event_line codec last (after_prefix "event: " line) (after_prefix "data: " line)

unfoldable pub read_stream : Codec → HttpReply → Outcome StreamStart
unfolding accepted bind step scan_chunks start_of
read_stream codec reply =
    bind (accepted reply)
      (λ body. ok (start_of (scan_chunks (step codec) "" body.lines body.scan_error)))

unfoldable pub complete :
    {S : Type 0} → Send S → Codec → Cohere → Request → S → Outcome Response × S
unfolding chat_request read_response
complete send codec a req s =
    let (reply, s') = send (chat_request codec a req false) s in (read_response codec req reply, s')

unfoldable pub stream :
    {S : Type 0} → Send S → Codec → Cohere → Request → S → Outcome StreamStart × S
unfolding chat_request read_stream
stream send codec a req s =
    let (reply, s') = send (chat_request codec a req true) s in (read_stream codec reply, s')

unfoldable pub health_check : {S : Type 0} → Send S → Cohere → S → Option Error × S
unfolding checked
health_check send a s =
    let (reply, s') =
      send
        (record {
          method = "GET";
          url = str_append a.endpoint "/v2/models";
          headers = bearer a.api_key;
          body = "";
          timeout_ms = a.timeout_ms;
        })
        s in
    (checked reply, s')

unfoldable pub as_provider : {S : Type 0} → Send S → Codec → Cohere → Provider S
unfolding complete stream health_check
as_provider send codec a = record {
  id = a.id;
  complete = complete send codec a;
  stream = stream send codec a;
  health_check = health_check send a;
  list_models = none;
}
