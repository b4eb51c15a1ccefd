-- ===== src/Adapters/Shape.antt =====
-- The shape of the streams that the adapters send.
use local_router.Prelude.{
  ℕ, zero, suc, ◌≡◌, refl, ap, ◌∙◌, ◌⊎◌, inl, inr, String, true, false, not, ◌&&◌, Option, none,
  some, List, [], ◌∷◌, ◌++◌, map, All, All-keep, Bool-cases, str_eq, ltb, length, arith,
  after_prefix, subst,
}
use local_router.Config.{ProviderConfig}
use local_router.Provider.{Provider, Request, Error, Chunk, StreamStart, Outcome, ok, err}
use local_router.Adapters.Http.{Scanned, Body, HttpReply, Send, accepted, bind}
use local_router.Adapters.Scan.{
  Action, skip, stop, emit, fail, delta_chunk, error_chunk, take, perform, scan_chunks, start_of,
  is_cut,
}
use local_router.Adapters.OpenAi
use local_router.Adapters.Ollama
use local_router.Adapters.Anthropic
use local_router.Adapters.Google
use local_router.Adapters.Cohere
use local_router.Adapters.Factory
use local_router.Adapters.Factory.{Codecs}
use local_router.Adapters.Made.{
  IsAdapter, ollama, open_ai, anthropic, google, cohere, new-IsAdapter,
}

-- Texts that are not empty, and after them at most one error, which ends the stream.
abbrev pub IsStream : List Chunk → Type 0
IsStream [] = Unit
IsStream (c ∷ cs) =
    ((c.err ≡ none) × (str_eq c.delta "" ≡ false) × IsStream cs)
    ⊎ ((e : Error) × (c ≡ error_chunk e) × (cs ≡ []))

abbrev pub StartIsStream : StreamStart → Type 0
StartIsStream start = elim start.first [
  | none ↦ start.rest ≡ []
  | some c ↦ IsStream (c ∷ start.rest)
]

abbrev IsText : String → Type 0
IsText t = str_eq t "" ≡ false

abbrev Speaks : Action → Type 0
Speaks skip = Unit
Speaks stop = Unit
Speaks (emit texts) = All IsText texts
Speaks (fail e) = Unit

texts-IsStream :
    (texts : List String) (rest : List Chunk)
    → All IsText texts
    → IsStream rest
    → IsStream (map delta_chunk texts ++ rest)
texts-IsStream [] rest a r = r
texts-IsStream (t ∷ ts) rest a r = inl (refl, a.0, texts-IsStream ts rest a.1 r)

taken-IsStream :
    (k : ℕ) (texts : List String) → All IsText texts → IsStream (map delta_chunk (take k texts))
taken-IsStream zero texts a = tt
taken-IsStream (suc k) [] a = tt
taken-IsStream (suc k) (t ∷ ts) a = inl (refl, a.0, taken-IsStream k ts a.1)

perform-IsStream :
    (a : Action) (sends : Option ℕ) (rest : List Chunk)
    → Speaks a
    → IsStream rest
    → IsStream (perform a sends rest)
unfolding perform
perform-IsStream skip sends rest s r = r
perform-IsStream stop sends rest s r = tt
perform-IsStream (emit texts) none rest s r = texts-IsStream texts rest s r
perform-IsStream (emit texts) (some k) rest s r = elim (Bool-cases (ltb k (length texts))) [
  | inl cut ↦ rw cut (taken-IsStream k texts s)
  | inr whole ↦ rw whole (texts-IsStream texts rest s r)
]
perform-IsStream (fail e) sends rest s r = elim (Bool-cases (is_cut sends 1)) [
  | inl cut ↦ rw cut tt
  | inr whole ↦ rw whole (inr (e, refl, refl))
]

scan_chunks-IsStream :
    {St : Type 0} (step : St → String → St × Action)
    → ((st : St) (line : String) → Speaks (step st line).1)
    → (st : St) (lines : List Scanned) (scan_error : Option Error)
    → IsStream (scan_chunks step st lines scan_error)
unfolding scan_chunks
scan_chunks-IsStream step h st [] none = tt
scan_chunks-IsStream step h st [] (some e) = inr (e, refl, refl)
scan_chunks-IsStream step h st (l ∷ ls) scan_error = elim (Bool-cases l.is_done) [
  | inl done ↦ rw done tt
  | inr live ↦ rw live (
      perform-IsStream (step st l.text).1 l.sends _ (h st l.text)
        (scan_chunks-IsStream step h (step st l.text).0 ls scan_error))
]

start_of-IsStream : (cs : List Chunk) → IsStream cs → StartIsStream (start_of cs)
unfolding start_of
start_of-IsStream [] h = refl
start_of-IsStream (c ∷ cs) h = h

-- What every adapter does with the answer to a streaming request.
reply-IsStream :
    {St : Type 0} (step : St → String → St × Action) (st : St) (reply : HttpReply)
    (start : StreamStart)
    → ((st' : St) (line : String) → Speaks (step st' line).1)
    → bind (accepted reply) (λ body. ok (start_of (scan_chunks step st body.lines body.scan_error)))
      ≡ ok start
    → StartIsStream start
unfolding bind
reply-IsStream step st reply start h e = go (accepted reply) e
  where
    go :
        (o : Outcome Body)
        → bind o (λ body. ok (start_of (scan_chunks step st body.lines body.scan_error))) ≡ ok start
        → StartIsStream start
    go (err x) e = absurd (ground (arith, e))
    go (ok body) e =
        let same : start_of (scan_chunks step st body.lines body.scan_error) ≡ start = cc e in
        subst StartIsStream same
          (start_of-IsStream _ (scan_chunks-IsStream step h st body.lines body.scan_error))

open_ai_line-Speaks :
    (codec : OpenAi.Codec) (payload : Option String) → Speaks (OpenAi.data_line codec payload)
unfolding OpenAi.data_line OpenAi.decoded_line OpenAi.first_delta
open_ai_line-Speaks codec none = tt
open_ai_line-Speaks codec (some payload) = elim (Bool-cases (str_eq payload "[DONE]")) [
  | inl done ↦ rw done tt
  | inr more ↦ rw more (go (codec.decode_chunk payload))
]
  where
    go : (o : Outcome (List String)) → Speaks (OpenAi.decoded_line o)
    go (err e) = tt
    go (ok []) = tt
    go (ok (t ∷ ts)) = elim (Bool-cases (str_eq t "")) [
      | inl empty ↦ rw empty tt
      | inr full ↦ rw full (full, tt)
    ]

google_line-Speaks :
    (codec : Google.Codec) (payload : Option String) → Speaks (Google.data_line codec payload)
unfolding Google.data_line Google.decoded_line
google_line-Speaks codec none = tt
google_line-Speaks codec (some payload) = go (codec.decode payload)
  where
    go : (o : Outcome Google.GeminiResponse) → Speaks (Google.decoded_line o)
    go (err e) = tt
    go (ok r) =
        All-keep IsText (λ t. not (str_eq t "")) (Google.first_parts r.candidates)
          (λ t h. ground (arith, h))

anthropic_line-Speaks :
    (codec : Anthropic.Codec) (last : String) (event payload : Option String)
    → Speaks (Anthropic.event_line codec last event payload).1
unfolding Anthropic.event_line Anthropic.data_line Anthropic.decoded_delta
anthropic_line-Speaks codec last (some event) payload =
    elim (Bool-cases (str_eq event "message_stop")) [
      | inl ends ↦ rw ends tt
      | inr more ↦ rw more tt
    ]
anthropic_line-Speaks codec last none none = tt
anthropic_line-Speaks codec last none (some payload) =
    elim (Bool-cases (str_eq last "content_block_delta")) [
      | inl delta ↦ rw delta (go (codec.decode_delta payload))
      | inr other ↦ rw other tt
    ]
  where
    go : (o : Outcome Anthropic.Block) → Speaks (Anthropic.decoded_delta o)
    go (err e) = tt
    go (ok d) = elim (Bool-cases (str_eq d.type "text_delta" && not (str_eq d.text ""))) [
      | inl text ↦ rw text (ground (arith, text), tt)
      | inr none_there ↦ rw none_there tt
    ]

cohere_line-Speaks :
    (codec : Cohere.Codec) (last : String) (event payload : Option String)
    → Speaks (Cohere.event_line codec last event payload).1
unfolding Cohere.event_line Cohere.data_line Cohere.decoded_delta
cohere_line-Speaks codec last (some event) payload =
    elim (Bool-cases (str_eq event "message-end")) [ inl ends ↦ rw ends tt | inr more ↦ rw more tt ]
cohere_line-Speaks codec last none none = tt
cohere_line-Speaks codec last none (some payload) =
    elim (Bool-cases (str_eq last "content-delta")) [
      | inl delta ↦ rw delta (go (codec.decode_delta payload))
      | inr other ↦ rw other tt
    ]
  where
    go : (o : Outcome String) → Speaks (Cohere.decoded_delta o)
    go (err e) = tt
    go (ok t) = elim (Bool-cases (str_eq t "")) [
      | inl empty ↦ rw empty tt
      | inr full ↦ rw full (full, tt)
    ]

open_ai-IsStream :
    (codec : OpenAi.Codec) (reply : HttpReply) (start : StreamStart)
    → OpenAi.read_stream codec reply ≡ ok start
    → StartIsStream start
unfolding OpenAi.read_stream OpenAi.step
open_ai-IsStream codec reply start h =
    reply-IsStream (OpenAi.step codec) tt reply start
      (λ st line. open_ai_line-Speaks codec (after_prefix "data: " line)) h

google-IsStream :
    (codec : Google.Codec) (reply : HttpReply) (start : StreamStart)
    → Google.read_stream codec reply ≡ ok start
    → StartIsStream start
unfolding Google.read_stream Google.step
google-IsStream codec reply start h =
    reply-IsStream (Google.step codec) tt reply start
      (λ st line. google_line-Speaks codec (after_prefix "data: " line)) h

anthropic-IsStream :
    (codec : Anthropic.Codec) (reply : HttpReply) (start : StreamStart)
    → Anthropic.read_stream codec reply ≡ ok start
    → StartIsStream start
unfolding Anthropic.read_stream Anthropic.step
anthropic-IsStream codec reply start h =
    reply-IsStream (Anthropic.step codec) "" reply start
      (λ st line.
        anthropic_line-Speaks codec st (after_prefix "event: " line) (after_prefix "data: " line))
      h

cohere-IsStream :
    (codec : Cohere.Codec) (reply : HttpReply) (start : StreamStart)
    → Cohere.read_stream codec reply ≡ ok start
    → StartIsStream start
unfolding Cohere.read_stream Cohere.step
cohere-IsStream codec reply start h =
    reply-IsStream (Cohere.step codec) "" reply start
      (λ st line.
        cohere_line-Speaks codec st (after_prefix "event: " line) (after_prefix "data: " line))
      h

adapter-StartIsStream :
    {S : Type 0} (send : Send S) (codecs : Codecs) (id : String) (p : Provider S) (req : Request)
    (s : S) (start : StreamStart)
    → IsAdapter send codecs id p
    → (p.stream req s).0 ≡ ok start
    → StartIsStream start
unfolding Ollama.as_provider OpenAi.as_provider OpenAi.stream Anthropic.as_provider Anthropic.stream
    Google.as_provider Google.stream Cohere.as_provider Cohere.stream
adapter-StartIsStream send codecs id p req s start (ollama a e same) h =
    open_ai-IsStream codecs.open_ai (send (OpenAi.chat_request codecs.open_ai a req true) s).0 start
      (ap (λ q. (q.stream req s).0) e ∙ h)
adapter-StartIsStream send codecs id p req s start (open_ai a e same) h =
    open_ai-IsStream codecs.open_ai (send (OpenAi.chat_request codecs.open_ai a req true) s).0 start
      (ap (λ q. (q.stream req s).0) e ∙ h)
adapter-StartIsStream send codecs id p req s start (anthropic a e same) h =
    anthropic-IsStream codecs.anthropic
      (send (Anthropic.messages_request codecs.anthropic a req true) s).0 start
      (ap (λ q. (q.stream req s).0) e ∙ h)
adapter-StartIsStream send codecs id p req s start (google a e same) h =
    google-IsStream codecs.google (send (Google.gemini_request codecs.google a req true) s).0 start
      (ap (λ q. (q.stream req s).0) e ∙ h)
adapter-StartIsStream send codecs id p req s start (cohere a e same) h =
    cohere-IsStream codecs.cohere (send (Cohere.chat_request codecs.cohere a req true) s).0 start
      (ap (λ q. (q.stream req s).0) e ∙ h)

-- Whatever a service answers to a streaming request, and whenever the request is cancelled: a provider
-- that the factory made sends texts that are not empty, then at most one error, and nothing after
-- that. A stream without a first chunk has no chunks at all.
pub stream-StartIsStream :
    {S : Type 0} (send : Send S) (codecs : Codecs) (c : ProviderConfig) (p : Provider S)
    (req : Request) (s : S) (start : StreamStart)
    → Factory.new send codecs c ≡ some p
    → (p.stream req s).0 ≡ ok start
    → StartIsStream start
stream-StartIsStream send codecs c p req s start made h =
    adapter-StartIsStream send codecs c.id p req s start (new-IsAdapter send codecs c p made) h
