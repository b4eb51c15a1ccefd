-- ===== src/Server/Relayed.antt =====
-- What a client receives of a stream (`handleStream` of internal/server/sse.go).
use local_router.Prelude.{
  ◌≡◌, refl, ap, inl, inr, ℕ, String, Bool, true, false, Option, none, some, List, [], ◌∷◌, ◌++◌,
  map, keep, any, Option-cases, arith,
}
use local_router.Prelude.Int.{ℤ}
use local_router.Provider.{Request, Error, error_message, Chunk}
use local_router.Router.{Services, Routers, Reply, answer, refuse}
use local_router.Router.Calls.{Streaming, stream}
use local_router.Router.Termination.{IsKeyed, stream_returns}
use local_router.Server.Incoming.{unix}
use local_router.Server.Relay.{
  Write, ping, event, failure, done_mark, Pick, gone, tick, closed, got, Written, content_event,
  last_event, write_first, relay_chunk, relay, begin_stream, end_stream, end_relay, after_router,
  handle_stream,
}

-- Rounds that find all chunks of a stream and then the closed channel, with ticks in between.
pub data IsPicks : List Chunk → List Pick → Type 0 where
  ended : (picks : List Pick) → IsPicks [] (closed ∷ picks)
  waited : (cs : List Chunk) (picks : List Pick) → IsPicks cs picks → IsPicks cs (tick ∷ picks)
  received :
      (c : Chunk) (cs : List Chunk) (picks : List Pick)
      → IsPicks cs picks
      → IsPicks (c ∷ cs) (got c ∷ picks)

-- The chunks in front of the first error.
unfoldable pub before_error : List Chunk → List Chunk
before_error [] = []
before_error (c ∷ cs) = elim c.err [ none ↦ c ∷ before_error cs | some e ↦ [] ]

unfoldable pub first_error : List Chunk → Option Error
first_error [] = none
first_error (c ∷ cs) = elim c.err [ none ↦ first_error cs | some e ↦ some e ]

-- How the body ends: with the error, or with the reason "stop" and the end mark.
abbrev pub ending : ℤ → String → Option Error → List Write
ending created model none = last_event created model ∷ done_mark ∷ []
ending created model (some e) = failure (error_message e) ∷ []

abbrev pub is_data : Write → Bool
is_data ping = false
is_data (event e) = true
is_data (failure text) = true
is_data done_mark = true

abbrev pub transcript : ℤ → String → List Chunk → List Write
transcript created model cs =
    map (content_event created model) (before_error cs) ++ ending created model (first_error cs)

abbrev Relays : ℤ → String → List Chunk → Option Written → Type 0
Relays created model cs written =
    (ws : List Write) × (written ≡ some (ws, false))
    × (keep is_data ws ≡ transcript created model cs)

relay-Relays :
    (created : ℤ) (model : String) (cs : List Chunk) (picks : List Pick)
    → IsPicks cs picks
    → Relays created model cs (relay created model picks)
unfolding relay write_first relay_chunk content_event last_event before_error first_error keep
relay-Relays created model cs picks (ended later) = (_, refl, refl)
relay-Relays created model cs picks (waited cs' later h) =
    let (ws, written, same) = relay-Relays created model cs' later h in
    (ping ∷ ws, rw written refl, same)
relay-Relays created model cs picks (received c cs' later h) =
    let (ws, written, same) = relay-Relays created model cs' later h in
    elim (Option-cases c.err) [
      | inl fine ↦ (
        content_event created model c ∷ ws,
        rw (fine, written) refl,
        rw fine (ap (λ l. content_event created model c ∷ l) same),
      )
      | inr (e, bad) ↦ (failure (error_message e) ∷ [], rw bad refl, rw bad refl)
    ]

-- A client that stays to the end of a stream receives, apart from the comments that keep the
-- connection open, exactly one event for the text of each chunk in front of the first error, in
-- order and under the model's name, and then that error; or, where there is no error, the reason
-- "stop" and the end mark. The stream then counts as completed.
pub handle_stream-transcript :
    (picks : Streaming → List Pick) (meanwhile : Services → Services) (elapsed : ℕ) (rs : Routers)
    (req : Request) (s s' : Services) (started : Streaming)
    → stream rs req (begin_stream s) ≡ some (answer started, s')
    → IsPicks started.chunks (picks started)
    → (ws : List Write) × (handle_stream picks meanwhile elapsed rs req s
        ≡ some (ws, end_stream false elapsed (meanwhile s')))
      × (keep is_data ws ≡ transcript (unix s'.now) started.model started.chunks)
unfolding handle_stream after_router end_relay
handle_stream-transcript picks meanwhile elapsed rs req s s' started opened all =
    let (ws, written, same) =
      relay-Relays (unix s'.now) started.model started.chunks (picks started) all in
    (ws, rw (opened, written) refl, same)

-- ### The handler returns

abbrev is_end : Pick → Bool
is_end gone = true
is_end tick = false
is_end closed = true
is_end (got c) = false

-- The context's end or the channel's is found at some time.
abbrev pub Ends : List Pick → Type 0
Ends picks = any is_end picks ≡ true

relay_returns :
    (created : ℤ) (model : String) (picks : List Pick)
    → Ends picks
    → (w : Written) × (relay created model picks ≡ some w)
unfolding relay write_first relay_chunk content_event any
relay_returns created model [] h = absurd (ground (arith, h))
relay_returns created model (gone ∷ picks) h = (_, refl)
relay_returns created model (closed ∷ picks) h = (_, refl)
relay_returns created model (tick ∷ picks) h =
    let (w, e) = relay_returns created model picks h in ((ping ∷ w.0, w.1), rw e refl)
relay_returns created model (got c ∷ picks) h = elim (Option-cases c.err) [
  | inl fine ↦
      let (w, e) = relay_returns created model picks h in
      ((content_event created model c ∷ w.0, w.1), rw (fine, e) refl)
  | inr (x, bad) ↦ ((failure (error_message x) ∷ [], false), rw bad refl)
]

after_router_returns :
    (picks : Streaming → List Pick) (meanwhile : Services → Services) (elapsed : ℕ)
    (y : Reply Streaming × Services)
    → ((started : Streaming) → Ends (picks started))
    → (z : List Write × Services) × (after_router picks meanwhile elapsed (some y) ≡ some z)
unfolding after_router end_relay
after_router_returns picks meanwhile elapsed (refuse x, s) ends = (_, refl)
after_router_returns picks meanwhile elapsed (answer started, s) ends =
    let (w, e) = relay_returns (unix s.now) started.model (picks started) (ends started) in
    ((w.0, end_stream w.1 elapsed (meanwhile s)), rw e refl)

-- The handler of a streaming request returns: the providers are registered under their ids before
-- and after every reload, and
-- whatever stream it opens, the rounds of the loop find the closed channel or the end of the
-- request's context at some time.
pub handle_stream_returns :
    (picks : Streaming → List Pick) (meanwhile : Services → Services) (elapsed : ℕ) (rs : Routers)
    (req : Request) (s : Services)
    → ((n : ℕ) → IsKeyed (rs n))
    → ((started : Streaming) → any is_end (picks started) ≡ true)
    → (z : List Write × Services) × (handle_stream picks meanwhile elapsed rs req s ≡ some z)
unfolding handle_stream
handle_stream_returns picks meanwhile elapsed rs req s keyed ends =
    let (y, e) = stream_returns rs req (begin_stream s) keyed in
    rw e (after_router_returns picks meanwhile elapsed y ends)
