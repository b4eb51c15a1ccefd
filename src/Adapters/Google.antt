-- ===== src/Adapters/Google.antt =====
-- internal/provider/google/adapter.go
use Prim.Native.String.{◌++◌ as str_append}
use local_router.Prelude.{
  String, Bool, true, false, not, Option, none, some, List, [], ◌∷◌, ◌++◌, keep, str_eq,
  after_prefix, if◌then◌else◌,
}
use local_router.Prelude.Int.{ℤ}
use local_router.Provider.{
  Provider, Request, Response, Message, Error, Outcome, ok, err, StreamStart,
}
use local_router.Adapters.Http.{
  HttpRequest, HttpReply, Send, accepted, bind, decoded, trim_slashes, positive_or, text_or,
  default_timeout_ms, checked,
}
use local_router.Adapters.Scan.{Action, skip, emit, fail, scan_chunks, start_of}

pub record Google : Type 0 where
  pub id : String
  pub api_key : String
  pub endpoint : String
  pub timeout_ms : ℤ
  pub stream_timeout_ms : ℤ

unfoldable pub new : String → String → String → ℤ → ℤ → Google
unfolding trim_slashes
new id key endpoint timeout stream_timeout =
    let timeout' = positive_or default_timeout_ms timeout in
    record {
      id = id;
      api_key = key;
      endpoint = trim_slashes (text_or "https://generativelanguage.googleapis.com" endpoint);
      timeout_ms = timeout';
      stream_timeout_ms = positive_or timeout' stream_timeout;
    }

pub record Content : Type 0 where
  pub role : String
  pub parts : List String

pub record GeminiRequest : Type 0 where
  pub contents : List Content
  pub system_instruction : Option Content

-- The texts of the parts, for each candidate.
pub record GeminiResponse : Type 0 where
  pub candidates : List (List String)
  pub prompt_token_count : ℤ
  pub candidates_token_count : ℤ

pub record Codec : Type 0 where
  pub marshal : GeminiRequest → String
  pub decode : String → Outcome GeminiResponse

abbrev pub single : String → String → Content
single role text = record { role = role; parts = text ∷ [] }

abbrev add_system : Option Content → String → Content
add_system none text = single "user" text
add_system (some c) text = record c { parts = c.parts ++ text ∷ [] }

-- The loop of `buildGeminiReq`, from its variables `system` and `contents`.
unfoldable pub build_from : List Message → GeminiRequest → GeminiRequest
build_from [] g = g
build_from (m ∷ ms) g = build_from ms (
    if str_eq m.role "system"
    then record g { system_instruction = some (add_system g.system_instruction m.content) }
    else if str_eq m.role "assistant"
    then record g { contents = g.contents ++ single "model" m.content ∷ [] }
    else record g { contents = g.contents ++ single m.role m.content ∷ [] })

unfoldable pub build_gemini_req : List Message → GeminiRequest
unfolding build_from
build_gemini_req ms = build_from ms (record { contents = []; system_instruction = none })

unfoldable pub action_url : Google → String → String → String
action_url a model action =
    str_append a.endpoint (str_append "/v1beta/models/" (str_append model (str_append ":" action)))

unfoldable pub gemini_request : Codec → Google → Request → Bool → HttpRequest
unfolding build_gemini_req action_url
gemini_request codec a req stream = record {
  method = "POST";
  url = action_url a req.model (if stream then "streamGenerateContent" else "generateContent");
  headers = ("Content-Type", "application/json") ∷ ("X-goog-api-key", a.api_key) ∷ [];
  body = codec.marshal (build_gemini_req req.messages);
  timeout_ms = if stream then a.stream_timeout_ms else a.timeout_ms;
}

abbrev pub first_parts : List (List String) → List String
first_parts [] = []
first_parts (parts ∷ rest) = parts

unfoldable pub concat_text : List String → String
concat_text [] = ""
concat_text (t ∷ ts) = str_append t (concat_text ts)

unfoldable pub to_response : Request → GeminiResponse → Response
unfolding concat_text
to_response req r = record {
  id = "";
  model = req.model;
  content = concat_text (first_parts r.candidates);
  usage = record {
    prompt_tokens = r.prompt_token_count;
    completion_tokens = r.candidates_token_count;
  };
}

unfoldable pub read_response : Codec → Request → HttpReply → Outcome Response
unfolding accepted bind decoded to_response
read_response codec req reply =
    bind (accepted reply)
      (λ body. bind (decoded "decode" (codec.decode body.text)) (λ r. ok (to_response req r)))

unfoldable pub decoded_line : Outcome GeminiResponse → Action
decoded_line (err e) = fail (Error.wrapped "parse stream" e)
decoded_line (ok r) = emit (keep (λ t. not (str_eq t "")) (first_parts r.candidates))

unfoldable pub data_line : Codec → Option String → Action
unfolding decoded_line
data_line codec none = skip
data_line codec (some payload) = decoded_line (codec.decode payload)

unfoldable pub step : Codec → Unit {0} → String → Unit {0} × Action
unfolding data_line after_prefix
step codec st line = (st, data_line codec (after_prefix "data: " line))

unfoldable pub read_stream : Codec → HttpReply → Outcome StreamStart
unfolding accepted bind step scan_chunks start_of
read_stream codec reply =
    bind (accepted reply)
      (λ body. ok (start_of (scan_chunks (step codec) tt body.lines body.scan_error)))

unfoldable pub complete :
    {S : Type 0} → Send S → Codec → Google → Request → S → Outcome Response × S
unfolding gemini_request read_response
complete send codec a req s =
    let (reply, s') = send (gemini_request codec a req false) s in
    (read_response codec req reply, s')

unfoldable pub stream :
    {S : Type 0} → Send S → Codec → Google → Request → S → Outcome StreamStart × S
unfolding gemini_request read_stream
stream send codec a req s =
    let (reply, s') = send (gemini_request codec a req true) s in (read_stream codec reply, s')

unfoldable pub health_check : {S : Type 0} → Send S → Google → S → Option Error × S
unfolding checked
health_check send a s =
    let (reply, s') =
      send
        (record {
          method = "GET";
          url = str_append a.endpoint "/v1beta/models";
          headers = ("X-goog-api-key", a.api_key) ∷ [];
          body = "";
          timeout_ms = a.timeout_ms;
        })
        s in
    (checked reply, s')

unfoldable pub as_provider : {S : Type 0} → Send S → Codec → Google → Provider S
unfolding complete stream health_check
as_provider send codec a = record {
  id = a.id;
  complete = complete send codec a;
  stream = stream send codec a;
  health_check = health_check send a;
  list_models = none;
}
