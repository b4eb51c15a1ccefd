-- ===== src/Adapters/Frames.antt =====
-- What the adapters read from the lines of a streamed body: frames of server-sent events.
use Prim.Native.String.{◌++◌ as str_append}
use Prim.Native.String.append
use local_router.Prelude.{
  ◌≡◌, refl, ap, ◌∙◌, String, true, false, not, keep, Bool-cases, inl, inr, if◌then◌else◌, none,
  some, List, [], ◌∷◌, map, str_eq, after_prefix, after_prefix-append,
}
use local_router.Provider.{Request, ok}
use local_router.Adapters.Http.{Scanned, Body, replied, Send, accepted, bind}
use local_router.Adapters.Scan.{
  Action, skip, stop, emit, delta_chunk, perform, finish, scan_chunks, start_of,
}
use local_router.Adapters.OpenAi
use local_router.Adapters.Anthropic
use local_router.Adapters.Cohere

-- A line that is read while the request's context is not done.
abbrev IsLive : Scanned → Type 0
IsLive l = (l.is_done ≡ false) × (l.sends ≡ none)

-- The texts that a caller gets to see.
abbrev pub visible : List String → List String
visible ts = keep (λ t. not (str_eq t "")) ts

-- A chunk without a text: no choices, or a first one whose text is empty, as in the chunks that carry
-- the role, the reason of the end or the usage.
abbrev pub IsSilent : List String → Type 0
IsSilent [] = Unit
IsSilent (t ∷ ts) = str_eq t "" ≡ true

-- Lines that carry some texts, each encoded by `enc` behind "data: ". Chunks without a text and lines
-- of another form may stand between them, and everything behind the line with the end mark is not
-- looked at.
pub data IsDataLines (codec : OpenAi.Codec) (enc : String → String)
    : List String → List Scanned → Type 0 where
  ended : IsDataLines codec enc [] []
  done :
      (l : Scanned) (ls : List Scanned)
      → IsLive l
      → l.text ≡ str_append "data: " "[DONE]"
      → IsDataLines codec enc [] (l ∷ ls)
  text :
      (t : String) (ts : List String) (l : Scanned) (ls : List Scanned)
      → IsLive l
      → l.text ≡ str_append "data: " (enc t)
      → IsDataLines codec enc ts ls
      → IsDataLines codec enc (t ∷ ts) (l ∷ ls)
  silent :
      (payload : String) (choices ts : List String) (l : Scanned) (ls : List Scanned)
      → IsLive l
      → l.text ≡ str_append "data: " payload
      → str_eq payload "[DONE]" ≡ false
      → codec.decode_chunk payload ≡ ok choices
      → IsSilent choices
      → IsDataLines codec enc ts ls
      → IsDataLines codec enc ts (l ∷ ls)
  between :
      (ts : List String) (l : Scanned) (ls : List Scanned)
      → IsLive l
      → after_prefix "data: " l.text ≡ none
      → IsDataLines codec enc ts ls
      → IsDataLines codec enc ts (l ∷ ls)

-- Lines that carry some texts in events called `delta`, up to an event called `end`; `last` is the
-- event that the lines continue.
pub data IsEventLines (delta end : String) (enc : String → String)
    : String → List String → List Scanned → Type 0 where
  ended : (last : String) → IsEventLines delta end enc last [] []
  done :
      (last : String) (l : Scanned) (ls : List Scanned)
      → IsLive l
      → l.text ≡ str_append "event: " end
      → IsEventLines delta end enc last [] (l ∷ ls)
  event :
      (last name : String) (ts : List String) (l : Scanned) (ls : List Scanned)
      → IsLive l
      → str_eq name end ≡ false
      → l.text ≡ str_append "event: " name
      → IsEventLines delta end enc name ts ls
      → IsEventLines delta end enc last ts (l ∷ ls)
  text :
      (t : String) (ts : List String) (l : Scanned) (ls : List Scanned)
      → IsLive l
      → l.text ≡ str_append "data: " (enc t)
      → IsEventLines delta end enc delta ts ls
      → IsEventLines delta end enc delta (t ∷ ts) (l ∷ ls)
  other_data :
      (last payload : String) (ts : List String) (l : Scanned) (ls : List Scanned)
      → IsLive l
      → str_eq last delta ≡ false
      → l.text ≡ str_append "data: " payload
      → IsEventLines delta end enc last ts ls
      → IsEventLines delta end enc last ts (l ∷ ls)
  between :
      (last : String) (ts : List String) (l : Scanned) (ls : List Scanned)
      → IsLive l
      → after_prefix "event: " l.text ≡ none
      → after_prefix "data: " l.text ≡ none
      → IsEventLines delta end enc last ts ls
      → IsEventLines delta end enc last ts (l ∷ ls)

-- One live line of a scan.
live-scan_chunks :
    {St : Type 0} (step : St → String → St × Action) (st st' : St) (action : Action) (l : Scanned)
    (ls : List Scanned)
    → IsLive l
    → step st l.text ≡ (st', action)
    → scan_chunks step st (l ∷ ls) none ≡ perform action none (scan_chunks step st' ls none)
unfolding scan_chunks
live-scan_chunks step st st' action l ls (live, sends) moves = rw (live, sends, moves) refl

-- A text adds a chunk, unless it is empty.
abbrev text_action : String → Action
text_action t = if str_eq t "" then skip else emit (t ∷ [])

perform-text_action :
    (t : String) (ts : List String)
    → perform (text_action t) none (map delta_chunk (visible ts))
      ≡ map delta_chunk (visible (t ∷ ts))
unfolding perform keep
perform-text_action t ts = elim (Bool-cases (str_eq t "")) [
  | inl empty ↦ rw empty refl
  | inr full ↦ rw full refl
]

-- ### OpenAI

first_delta-silent : (choices : List String) → IsSilent choices → OpenAi.first_delta choices ≡ skip
unfolding OpenAi.first_delta
first_delta-silent [] h = refl
first_delta-silent (t ∷ ts) h = rw h refl

data_line-step :
    (codec : OpenAi.Codec) (payload line : String)
    → line ≡ str_append "data: " payload
    → OpenAi.step codec tt line ≡ (tt, OpenAi.data_line codec (some payload))
unfolding OpenAi.step
data_line-step codec payload line h = rw (h, after_prefix-append "data: " payload) refl

module _ (codec : OpenAi.Codec) (enc : String → String)
    (decode-enc : (t : String) → codec.decode_chunk (enc t) ≡ ok (t ∷ []))
    (enc_not_done : (t : String) → str_eq (enc t) "[DONE]" ≡ false) where
  scan_chunks-data :
      (ts : List String) (ls : List Scanned)
      → IsDataLines codec enc ts ls
      → scan_chunks (OpenAi.step codec) tt ls none ≡ map delta_chunk (visible ts)
  unfolding scan_chunks finish perform OpenAi.data_line OpenAi.decoded_line OpenAi.first_delta
      OpenAi.step keep
  scan_chunks-data ts ls ended = refl
  scan_chunks-data ts ls (done l ls' live h) =
      live-scan_chunks (OpenAi.step codec) tt tt stop l ls' live
        (data_line-step codec "[DONE]" l.text h)
  scan_chunks-data ts ls (text t ts' l ls' live h rest) =
      live-scan_chunks (OpenAi.step codec) tt tt (text_action t) l ls' live
        (data_line-step codec (enc t) l.text h ∙ rw (enc_not_done t, decode-enc t) refl)
      ∙ ap (perform (text_action t) none) (scan_chunks-data ts' ls' rest)
      ∙ perform-text_action t ts'
  scan_chunks-data ts ls (silent payload choices ts' l ls' live h goes reads quiet rest) =
      live-scan_chunks (OpenAi.step codec) tt tt skip l ls' live (
        data_line-step codec payload l.text h
        ∙ rw (goes, reads) (ap (λ a. (tt, a)) (first_delta-silent choices quiet)))
      ∙ scan_chunks-data ts' ls' rest
  scan_chunks-data ts ls (between ts' l ls' live h rest) =
      live-scan_chunks (OpenAi.step codec) tt tt skip l ls' live (rw h refl)
      ∙ scan_chunks-data ts' ls' rest

-- The text of a stream that is not cancelled and breaks off nowhere comes through whole: of the texts
-- that the service encodes in the lines of its answer, with chunks without a text, comments, blank
-- lines and other fields between them, a caller of the OpenAI adapter receives exactly those that are
-- not empty, one chunk each and in order; the line with the end mark and what follows it add nothing.
-- The codec decodes each encoded text, and no encoded text is the end mark.
pub stream-IsDataLines :
    {S : Type 0} (send : Send S) (codec : OpenAi.Codec) (enc : String → String) (a : OpenAi.OpenAi)
    (req : Request) (s : S) (texts : List String) (body : Body)
    → ((t : String) → codec.decode_chunk (enc t) ≡ ok (t ∷ []))
    → ((t : String) → str_eq (enc t) "[DONE]" ≡ false)
    → (send (OpenAi.chat_request codec a req true) s).0 ≡ replied 200 body
    → body.scan_error ≡ none
    → IsDataLines codec enc texts body.lines
    → (OpenAi.stream send codec a req s).0 ≡ ok (start_of (map delta_chunk (visible texts)))
unfolding OpenAi.stream OpenAi.read_stream accepted bind
stream-IsDataLines send codec enc a req s texts body decode-enc enc_not_done replies clean lines =
    rw (replies, clean)
      (ap (λ cs. ok (start_of cs))
        (scan_chunks-data codec enc decode-enc enc_not_done texts body.lines lines))

-- ### Events

-- A line cannot start with both words.
event_of_data : (payload : String) → after_prefix "event: " (str_append "data: " payload) ≡ none
unfolding after_prefix
event_of_data payload = ap (after_prefix "event: ") (append.cons "d" "ata: " payload)

-- A scan that follows the events, as `step` of the Anthropic and Cohere adapters does.
module _ (delta end : String) (enc : String → String) (step : String → String → String × Action)
    (step-end : (last : String) → step last (str_append "event: " end) ≡ (end, stop))
    (step-event : (last name : String)
      → str_eq name end ≡ false
      → step last (str_append "event: " name) ≡ (name, skip))
    (step-text : (t : String) → step delta (str_append "data: " (enc t)) ≡ (delta, text_action t))
    (step-other : (last payload : String)
      → str_eq last delta ≡ false
      → step last (str_append "data: " payload) ≡ (last, skip))
    (step-between : (last line : String)
      → after_prefix "event: " line ≡ none
      → after_prefix "data: " line ≡ none
      → step last line ≡ (last, skip)) where
  scan_chunks-events :
      (last : String) (ts : List String) (ls : List Scanned)
      → IsEventLines delta end enc last ts ls
      → scan_chunks step last ls none ≡ map delta_chunk (visible ts)
  unfolding scan_chunks finish perform keep
  scan_chunks-events last ts ls (ended l) = refl
  scan_chunks-events last ts ls (done v l ls' live h) =
      live-scan_chunks step v end stop l ls' live (ap (step v) h ∙ step-end v)
  scan_chunks-events last ts ls (event v name ts' l ls' live goes h rest) =
      live-scan_chunks step v name skip l ls' live (ap (step v) h ∙ step-event v name goes)
      ∙ scan_chunks-events name ts' ls' rest
  scan_chunks-events last ts ls (text t ts' l ls' live h rest) =
      live-scan_chunks step delta delta (text_action t) l ls' live (ap (step delta) h ∙ step-text t)
      ∙ ap (perform (text_action t) none) (scan_chunks-events delta ts' ls' rest)
      ∙ perform-text_action t ts'
  scan_chunks-events last ts ls (other_data v payload ts' l ls' live goes h rest) =
      live-scan_chunks step v v skip l ls' live (ap (step v) h ∙ step-other v payload goes)
      ∙ scan_chunks-events v ts' ls' rest
  scan_chunks-events last ts ls (between v ts' l ls' live he hd rest) =
      live-scan_chunks step v v skip l ls' live (step-between v l.text he hd)
      ∙ scan_chunks-events v ts' ls' rest

event-after_prefix :
    (name : String) → after_prefix "event: " (str_append "event: " name) ≡ some name
event-after_prefix name = after_prefix-append "event: " name

data-after_prefix :
    (payload : String) → after_prefix "data: " (str_append "data: " payload) ≡ some payload
data-after_prefix payload = after_prefix-append "data: " payload

decoded_delta-text :
    (t : String)
    → Anthropic.decoded_delta (ok (record { type = "text_delta"; text = t })) ≡ text_action t
unfolding Anthropic.decoded_delta
decoded_delta-text t = elim (Bool-cases (str_eq t "")) [
  | inl empty ↦ rw empty refl
  | inr full ↦ rw full refl
]

-- Where a stream is not cancelled and breaks off nowhere, the texts of an answer that is made of events
-- come through the Anthropic adapter: exactly those that are not empty, in order, and one chunk each;
-- events of other kinds and the fields between them add nothing, and "message_stop" ends the stream.
-- The codec decodes each encoded text.
pub stream-IsEventLines :
    {S : Type 0} (send : Send S) (codec : Anthropic.Codec) (enc : String → String)
    (a : Anthropic.Anthropic) (req : Request) (s : S) (texts : List String) (body : Body)
    → ((t : String) → codec.decode_delta (enc t) ≡ ok (record { type = "text_delta"; text = t }))
    → (send (Anthropic.messages_request codec a req true) s).0 ≡ replied 200 body
    → body.scan_error ≡ none
    → IsEventLines "content_block_delta" "message_stop" enc "" texts body.lines
    → (Anthropic.stream send codec a req s).0 ≡ ok (start_of (map delta_chunk (visible texts)))
unfolding Anthropic.stream Anthropic.read_stream Anthropic.step Anthropic.event_line
    Anthropic.data_line accepted bind
stream-IsEventLines send codec enc a req s texts body decode-enc replies clean lines =
    rw (replies, clean)
      (ap (λ cs. ok (start_of cs))
        (scan_chunks-events "content_block_delta" "message_stop" enc (Anthropic.step codec)
          (λ last. refl) (λ last name goes. rw (event-after_prefix name, goes) refl)
          (λ t.
            rw (event_of_data (enc t), data-after_prefix (enc t), decode-enc t)
              (ap (λ x. ("content_block_delta", x)) (decoded_delta-text t)))
          (λ last payload goes. rw (event_of_data payload, data-after_prefix payload, goes) refl)
          (λ last line he hd. rw (he, hd) refl) "" texts body.lines lines))

-- The same for the Cohere adapter, whose events are called otherwise.
pub stream-IsCohereLines :
    {S : Type 0} (send : Send S) (codec : Cohere.Codec) (enc : String → String) (a : Cohere.Cohere)
    (req : Request) (s : S) (texts : List String) (body : Body)
    → ((t : String) → codec.decode_delta (enc t) ≡ ok t)
    → (send (Cohere.chat_request codec a req true) s).0 ≡ replied 200 body
    → body.scan_error ≡ none
    → IsEventLines "content-delta" "message-end" enc "" texts body.lines
    → (Cohere.stream send codec a req s).0 ≡ ok (start_of (map delta_chunk (visible texts)))
unfolding Cohere.stream Cohere.read_stream Cohere.step Cohere.event_line Cohere.data_line
    Cohere.decoded_delta accepted bind
stream-IsCohereLines send codec enc a req s texts body decode-enc replies clean lines =
    rw (replies, clean)
      (ap (λ cs. ok (start_of cs))
        (scan_chunks-events "content-delta" "message-end" enc (Cohere.step codec) (λ last. refl)
          (λ last name goes. rw (event-after_prefix name, goes) refl)
          (λ t. rw (event_of_data (enc t), data-after_prefix (enc t), decode-enc t) refl)
          (λ last payload goes. rw (event_of_data payload, data-after_prefix payload, goes) refl)
          (λ last line he hd. rw (he, hd) refl) "" texts body.lines lines))
