-- ===== src/Adapters/Anthropic.antt =====
-- internal/provider/anthropic/adapter.go
use Prim.Native.String.{◌++◌ as str_append}
use local_router.Prelude.{
  String, Bool, true, false, not, ◌&&◌, ◌||◌, Option, none, some, List, [], ◌∷◌, ◌==◌, str_eq,
  after_prefix, if◌then◌else◌,
}
use local_router.Prelude.Int.{ℤ, pos}
use local_router.Provider.{
  Provider, Request, Response, Message, Error, Outcome, ok, err, StreamStart,
}
use local_router.Adapters.Http.{
  HttpRequest, HttpReply, unreachable, replied, Send, accepted, bind, decoded, trim_slashes,
  positive_or, text_or, default_timeout_ms, new_http_error,
}
use local_router.Adapters.Scan.{Action, skip, stop, emit, fail, scan_chunks, start_of}

pub record Anthropic : Type 0 where
  pub id : String
  pub api_key : String
  pub endpoint : String
  pub timeout_ms : ℤ
  pub stream_timeout_ms : ℤ

unfoldable pub new : String → String → String → ℤ → ℤ → Anthropic
unfolding trim_slashes
new id key endpoint timeout stream_timeout =
    let timeout' = positive_or default_timeout_ms timeout in
    record {
      id = id;
      api_key = key;
      endpoint = trim_slashes (text_or "https://api.anthropic.com" endpoint);
      timeout_ms = timeout';
      stream_timeout_ms = positive_or timeout' stream_timeout;
    }

pub record AntRequest : Type 0 where
  pub model : String
  pub messages : List Message
  pub max_tokens : ℤ
  pub stream : Bool

-- A typed text: a block of a response, or the delta of an event.
pub record Block : Type 0 where
  pub type : String
  pub text : String

pub record AntResponse : Type 0 where
  pub id : String
  pub model : String
  pub content : List Block
  pub input_tokens : ℤ
  pub output_tokens : ℤ

pub record Codec : Type 0 where
  pub marshal : AntRequest → String
  pub decode : String → Outcome AntResponse
  pub decode_delta : String → Outcome Block

-- The temperature, the limits and the seed of the request are not sent.
unfoldable pub to_ant : Request → Bool → AntRequest
to_ant req stream = record {
  model = req.model;
  messages = req.messages;
  max_tokens = pos 1024;
  stream = stream;
}

abbrev key_headers : Anthropic → List (String × String)
key_headers a = ("x-api-key", a.api_key) ∷ ("anthropic-version", "2023-06-01") ∷ []

unfoldable pub messages_request : Codec → Anthropic → Request → Bool → HttpRequest
unfolding to_ant
messages_request codec a req stream = record {
  method = "POST";
  url = str_append a.endpoint "/v1/messages";
  headers = ("Content-Type", "application/json") ∷ key_headers a;
  body = codec.marshal (to_ant req stream);
  timeout_ms = if stream then a.stream_timeout_ms else a.timeout_ms;
}

-- The texts of the blocks of type "text".
unfoldable pub joined_text : List Block → String
joined_text [] = ""
joined_text (b ∷ bs) =
    let rest = joined_text bs in if str_eq b.type "text" then str_append b.text rest else rest

unfoldable pub to_response : AntResponse → Response
unfolding joined_text
to_response r = record {
  id = r.id;
  model = r.model;
  content = joined_text r.content;
  usage = record { prompt_tokens = r.input_tokens; completion_tokens = r.output_tokens };
}

unfoldable pub read_response : Codec → HttpReply → Outcome Response
unfolding accepted bind decoded to_response
read_response codec reply =
    bind (accepted reply)
      (λ body. bind (decoded "decode" (codec.decode body.text)) (λ r. ok (to_response r)))

unfoldable pub decoded_delta : Outcome Block → Action
decoded_delta (err e) = fail (Error.wrapped "parse stream" e)
decoded_delta (ok d) =
    if str_eq d.type "text_delta" && not (str_eq d.text "") then emit (d.text ∷ []) else skip

unfoldable pub data_line : Codec → String → Option String → Action
unfolding decoded_delta
data_line codec last none = skip
data_line codec last (some payload) =
    if str_eq last "content_block_delta" then decoded_delta (codec.decode_delta payload) else skip

-- The state is `lastEvent`; the second argument is what follows "event: ".
unfoldable pub event_line : Codec → String → Option String → Option String → String × Action
unfolding data_line
event_line codec last (some event) payload =
    (event, if str_eq event "message_stop" then stop else skip)
event_line codec last none payload = (last, data_line codec last payload)

unfoldable pub step : Codec → String → String → String × Action
unfolding event_line after_prefix
step codec last line =
    event_line codec last (after_prefix "event: " line) (after_prefix "data: " line)

unfoldable pub read_stream : Codec → HttpReply → Outcome StreamStart
unfolding accepted bind step scan_chunks start_of
read_stream codec reply =
    bind (accepted reply)
      (λ body. ok (start_of (scan_chunks (step codec) "" body.lines body.scan_error)))

unfoldable pub complete :
    {S : Type 0} → Send S → Codec → Anthropic → Request → S → Outcome Response × S
unfolding messages_request read_response
complete send codec a req s =
    let (reply, s') = send (messages_request codec a req false) s in (read_response codec reply, s')

unfoldable pub stream :
    {S : Type 0} → Send S → Codec → Anthropic → Request → S → Outcome StreamStart × S
unfolding messages_request read_stream
stream send codec a req s =
    let (reply, s') = send (messages_request codec a req true) s in (read_stream codec reply, s')

-- Any answer but 401 and 403 counts as healthy.
unfoldable pub checked_key : HttpReply → Option Error
checked_key (unreachable e) = some e
checked_key (replied code body) =
    if code == 401 || code == 403 then some (new_http_error code "") else none

unfoldable pub health_check : {S : Type 0} → Send S → Anthropic → S → Option Error × S
unfolding checked_key
health_check send a s =
    let (reply, s') =
      send
        (record {
          method = "GET";
          url = str_append a.endpoint "/v1/models";
          headers = key_headers a;
          body = "";
          timeout_ms = a.timeout_ms;
        })
        s in
    (checked_key reply, s')

unfoldable pub as_provider : {S : Type 0} → Send S → Codec → Anthropic → Provider S
unfolding complete stream health_check
as_provider send codec a = record {
  id = a.id;
  complete = complete send codec a;
  stream = stream send codec a;
  health_check = health_check send a;
  list_models = none;
}
