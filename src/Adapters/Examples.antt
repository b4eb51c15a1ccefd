-- ===== src/Adapters/Examples.antt =====
-- The theorems on the adapters, at concrete services.
use Prim.Native.String.{◌++◌ as str_append}
use local_router.Prelude.{
  keep, ◌≡◌, refl, ap, inl, inr, String, true, false, Option, none, some, List, [], ◌∷◌, map, arith,
  str_eq, eq_iff, after_prefix, after_prefix-append, Bool-cases,
}
use local_router.Prelude.Int.{pos}
use local_router.Config.{ProviderConfig}
use local_router.Config.Checks.{zero_provider}
use local_router.Provider.{Provider, Request, other, Outcome, ok, err}
use local_router.Adapters.Http.{Scanned, Body, replied, Send}
use local_router.Adapters.Scan.{delta_chunk, start_of}
use local_router.Adapters.OpenAi
use local_router.Adapters.Anthropic
use local_router.Adapters.Factory
use local_router.Adapters.Factory.{Codecs}
use local_router.Adapters.Frames.{
  IsDataLines, IsEventLines, stream-IsDataLines, stream-IsEventLines,
}
use local_router.Adapters.Shape.{StartIsStream, stream-StartIsStream}

-- A chunk is written as a brace and its text.
abbrev enc : String → String
enc t = str_append "{" t

abbrev undo : Option String → Outcome (List String)
undo none = err (other "no brace")
undo (some t) = ok (t ∷ [])

abbrev codec : OpenAi.Codec
codec = record {
  marshal = λ r. r.model;
  decode = λ s. err (other s);
  decode_chunk = λ s. undo (after_prefix "{" s);
  decode_models = λ s. err (other s);
}

decode-enc : (t : String) → codec.decode_chunk (enc t) ≡ ok (t ∷ [])
decode-enc t = ap undo (after_prefix-append "{" t)

enc_not_done : (t : String) → str_eq (enc t) "[DONE]" ≡ false
unfolding after_prefix
enc_not_done t = elim (Bool-cases (str_eq (enc t) "[DONE]")) [
  | inr differ ↦ differ
  | inl same ↦
      let e : enc t ≡ "[DONE]" = ground (arith, same, eq_iff (enc t) "[DONE]") in
      absurd (ground (arith, after_prefix-append "{" t, ap (after_prefix "{") e))
]

abbrev line : String → Scanned
line text = record { text = text; is_done = false; sends = none }

abbrev body : Body
body = record {
  text = "";
  head = "";
  lines =
      line "data: {"
      ∷ line "data: {hel"
      ∷ line ""
      ∷ line ": comment"
      ∷ line "data: {lo"
      ∷ line "data: [DONE]"
      ∷ line "data: x"
      ∷ [];
  scan_error = none;
}

abbrev send : Send (Unit {0})
send r s = (replied 200 body, s)

abbrev adapter : OpenAi.OpenAi
adapter = OpenAi.new "a" "http://localhost" "" (pos 0) (pos 0) ""

abbrev request : Request
request = record {
  model = "phi";
  messages = record { role = "user"; content = "hi" } ∷ [];
  stream = true;
  api_key = "";
  temperature = none;
  top_p = none;
  max_tokens = none;
  seed = none;
}

abbrev texts : List String
texts = "hel" ∷ "lo" ∷ []

body-IsDataLines : IsDataLines codec enc texts body.lines
unfolding after_prefix
body-IsDataLines =
    IsDataLines.silent "{" ("" ∷ []) _ _ _ (refl, refl) refl refl refl refl
      (IsDataLines.text "hel" _ _ _ (refl, refl) refl
        (IsDataLines.between _ _ _ (refl, refl) refl
          (IsDataLines.between _ _ _ (refl, refl) refl
            (IsDataLines.text "lo" _ _ _ (refl, refl) refl
              (IsDataLines.done _ _ (refl, refl) refl)))))

stream-IsDataLines_example :
    (OpenAi.stream send codec adapter request tt).0 ≡ ok (start_of (map delta_chunk texts))
unfolding keep
stream-IsDataLines_example =
    stream-IsDataLines send codec enc adapter request tt texts body decode-enc enc_not_done refl
      refl body-IsDataLines

-- ### Events

abbrev as_delta : Outcome (List String) → Outcome Anthropic.Block
as_delta (ok (t ∷ ts)) = ok (record { type = "text_delta"; text = t })
as_delta (ok []) = err (other "empty")
as_delta (err e) = err e

abbrev event_codec : Anthropic.Codec
event_codec = record {
  marshal = λ r. r.model;
  decode = λ s. err (other s);
  decode_delta = λ s. as_delta (undo (after_prefix "{" s));
}

decode_delta-enc :
    (t : String) → event_codec.decode_delta (enc t) ≡ ok (record { type = "text_delta"; text = t })
decode_delta-enc t = ap (λ o. as_delta (undo o)) (after_prefix-append "{" t)

abbrev event_body : Body
event_body = record {
  text = "";
  head = "";
  lines =
      line "event: message_start"
      ∷ line "data: {}"
      ∷ line ""
      ∷ line "event: content_block_delta"
      ∷ line "data: {hel"
      ∷ line "data: {"
      ∷ line "data: {lo"
      ∷ line "event: message_stop"
      ∷ line "data: {x"
      ∷ [];
  scan_error = none;
}

abbrev send_events : Send (Unit {0})
send_events r s = (replied 200 event_body, s)

abbrev claude : Anthropic.Anthropic
claude = Anthropic.new "c" "key" "" (pos 0) (pos 0)

abbrev some_empty : List String
some_empty = "hel" ∷ "" ∷ "lo" ∷ []

event_body-IsEventLines :
    IsEventLines "content_block_delta" "message_stop" enc "" some_empty event_body.lines
unfolding after_prefix
event_body-IsEventLines =
    IsEventLines.event _ "message_start" _ _ _ (refl, refl) refl refl
      (IsEventLines.other_data _ "{}" _ _ _ (refl, refl) refl refl
        (IsEventLines.between _ _ _ _ (refl, refl) refl refl
          (IsEventLines.event _ "content_block_delta" _ _ _ (refl, refl) refl refl
            (IsEventLines.text "hel" _ _ _ (refl, refl) refl
              (IsEventLines.text "" _ _ _ (refl, refl) refl
                (IsEventLines.text "lo" _ _ _ (refl, refl) refl
                  (IsEventLines.done _ _ _ (refl, refl) refl)))))))

stream-IsEventLines_example :
    (Anthropic.stream send_events event_codec claude request tt).0
    ≡ ok (start_of (map delta_chunk texts))
unfolding keep
stream-IsEventLines_example =
    stream-IsEventLines send_events event_codec enc claude request tt some_empty event_body
      decode_delta-enc refl refl event_body-IsEventLines

-- ### The factory

abbrev codecs : Codecs
codecs = record {
  open_ai = codec;
  decode_tags = λ s. err (other s);
  anthropic = event_codec;
  google = record { marshal = λ r. ""; decode = λ s. err (other s) };
  cohere = record {
    marshal = λ r. "";
    decode = λ s. err (other s);
    decode_delta = λ s. err (other s);
  };
}

abbrev config : ProviderConfig
config = record zero_provider { id = "c"; type = "anthropic"; api_key = "key" }

abbrev made : Provider (Unit {0})
made =
    Anthropic.as_provider send_events event_codec
      (Anthropic.new "c" "key" "" (Factory.timeout_of config) (Factory.stream_timeout_of config))

stream-StartIsStream_example : StartIsStream (start_of (map delta_chunk texts))
unfolding Factory.new Anthropic.as_provider keep
stream-StartIsStream_example =
    stream-StartIsStream send_events codecs config made request tt
      (start_of (map delta_chunk texts)) refl
      (stream-IsEventLines send_events event_codec enc
        (Anthropic.new "c" "key" "" (Factory.timeout_of config) (Factory.stream_timeout_of config))
        request tt some_empty event_body decode_delta-enc refl refl event_body-IsEventLines)
