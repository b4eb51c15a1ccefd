-- ===== src/Server/Relay.antt =====
-- `handleStream` of internal/server/sse.go: the loop that writes the chunks of a stream to the client.
use local_router.Prelude.{
  ℕ, String, Bool, true, false, Option, none, some, List, [], ◌∷◌, if◌then◌else◌,
}
use local_router.Prelude.Int.{ℤ, pos, ◌+ℤ◌}
use local_router.Provider.{Request, Error, error_message, Chunk}
use local_router.Router.{Services, Routers, Reply, answer, refuse}
use local_router.Router.Calls.{Streaming, stream}
use local_router.Server.Incoming.{route_error_text, unix}

-- An event of the object "chat.completion.chunk" with one choice.
pub record StreamEvent : Type 0 where
  pub created : ℤ
  pub model : String
  pub content : String
  pub finish_reason : Option String

-- What is written and flushed: a comment, an event, the error's event, or the end mark.
pub data Write : Type 0 where
  ping : Write
  event : StreamEvent → Write
  failure : String → Write
  done_mark : Write

-- What a round of `select` finds ready: the request's context is done, the ticker, a chunk, or the
-- closed channel.
pub data Pick : Type 0 where
  gone tick closed : Pick
  got : Chunk → Pick

unfoldable pub content_event : ℤ → String → Chunk → Write
content_event created model c =
    event (record { created = created; model = model; content = c.delta; finish_reason = none })

unfoldable pub last_event : ℤ → String → Write
last_event created model =
    event (record { created = created; model = model; content = ""; finish_reason = some "stop" })

-- What the loop has written when it returns, and whether the client was gone.
abbrev pub Written : Type 0
Written = List Write × Bool

unfoldable pub write_first : Write → Option Written → Option Written
write_first w none = none
write_first w (some (ws, left)) = some (w ∷ ws, left)

-- A chunk ends the loop if it carries an error.
unfoldable pub relay_chunk : ℤ → String → Chunk → Option Error → Option Written → Option Written
unfolding write_first content_event
relay_chunk created model c (some e) rest = some (failure (error_message e) ∷ [], false)
relay_chunk created model c none rest = write_first (content_event created model c) rest

-- The loop over what its rounds find; `none` while it has not returned.
unfoldable pub relay : ℤ → String → List Pick → Option Written
unfolding relay_chunk last_event
relay created model [] = none
relay created model (gone ∷ picks) = some ([], true)
relay created model (tick ∷ picks) = write_first ping (relay created model picks)
relay created model (closed ∷ picks) = some (last_event created model ∷ done_mark ∷ [], false)
relay created model (got c ∷ picks) = relay_chunk created model c c.err (relay created model picks)

unfoldable pub begin_stream : Services → Services
begin_stream s = record s {
  metrics = record s.metrics { streams_started = s.metrics.streams_started +ℤ pos 1 };
}

-- The deferred function.
unfoldable pub end_stream : Bool → ℕ → Services → Services
end_stream disconnected elapsed s = record s {
  metrics = record s.metrics {
    streams_disconnected =
        if disconnected
        then s.metrics.streams_disconnected +ℤ pos 1
        else s.metrics.streams_disconnected;
    streams_completed =
        if disconnected then s.metrics.streams_completed else s.metrics.streams_completed +ℤ pos 1;
    stream_duration = s.metrics.stream_duration +ℤ pos elapsed;
  };
}

unfoldable pub end_relay : ℕ → Services → Option Written → Option (List Write × Services)
unfolding end_stream
end_relay elapsed s none = none
end_relay elapsed s (some (ws, disconnected)) = some (ws, end_stream disconnected elapsed s)

-- From the router's answer on. `picks` is what the rounds find, and `meanwhile` what else goes on in
-- the program while the stream is passed on.
unfoldable pub after_router :
    (Streaming → List Pick)
    → (Services → Services)
    → ℕ
    → Option (Reply Streaming × Services)
    → Option (List Write × Services)
unfolding relay end_relay end_stream route_error_text unix
after_router picks meanwhile elapsed none = none
after_router picks meanwhile elapsed (some (refuse x, s)) =
    some (failure (route_error_text x) ∷ [], end_stream false elapsed s)
after_router picks meanwhile elapsed (some (answer started, s)) =
    end_relay elapsed (meanwhile s) (relay (unix s.now) started.model (picks started))

-- For a writer that can flush; any other is answered with the status 500 before anything happens.
unfoldable pub handle_stream :
    (Streaming → List Pick)
    → (Services → Services)
    → ℕ
    → Routers
    → Request
    → Services
    → Option (List Write × Services)
unfolding begin_stream after_router
handle_stream picks meanwhile elapsed rs req s =
    after_router picks meanwhile elapsed (stream rs req (begin_stream s))
