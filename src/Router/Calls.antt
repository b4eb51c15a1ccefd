-- ===== src/Router/Calls.antt =====
-- `Route` and `Stream` of internal/router/router.go. Stream returns when the first chunk has come; the
-- goroutine that then passes the chunks on ends with `close_stream`.
use local_router.Prelude.{ℕ, String, Option, none, some, List, ◌∷◌}
use local_router.Provider.{Request, Response, Error, Outcome, ok, err, StreamStart, Chunk}
use local_router.Registry.{Entry}
use local_router.Router.{Services, Router, Routers, Round, done, Reply, resolve, apply_model_params}
use local_router.Router.Slots.{release}
use local_router.Router.Failover.{
  record_success, after_complete_error, after_stream_error, after_empty_stream, after_chunk_error,
}
use local_router.Router.Loop.{Attempt, run}

unfoldable pub after_complete :
    Router → String → Entry → List Entry → Outcome Response → Services → Round Response
after_complete r id e entries (ok response) s = done response (record_success id e s)
after_complete r id e entries (err x) s = after_complete_error r id e entries x s

unfoldable pub complete_attempt : Routers → Request → Attempt Response
unfolding after_complete
complete_attempt rs req p e entries s =
    let (outcome, s') = p.complete (apply_model_params req e) s in
    after_complete (rs s'.generation) p.id e entries outcome (release s.generation e s')

-- Route(ctx, req)
unfoldable pub route : Routers → Request → Services → Option (Reply Response × Services)
unfolding complete_attempt
route rs req s = run (complete_attempt rs req) rs (resolve (rs s.generation) req.model) s

-- What `Stream` returns: the model's name and the chunks. The entry and the generation
-- of its slots are for `close_stream`.
pub record Streaming : Type 0 where
  pub model : String
  pub chunks : List Chunk
  pub entry : Entry
  pub generation : ℕ

-- A stream whose first chunk carries no error keeps its slots; `g` is their generation.
unfoldable pub after_first :
    Router
    → String
    → Entry
    → ℕ
    → List Entry
    → Chunk
    → List Chunk
    → Option Error
    → Services
    → Round Streaming
after_first r id e g entries c rest none s =
    done (record { model = e.model_id; chunks = c ∷ rest; entry = e; generation = g })
      (record_success id e s)
after_first r id e g entries c rest (some x) s = after_chunk_error r id e entries x (release g e s)

unfoldable pub after_open :
    Router
    → String
    → Entry
    → ℕ
    → List Entry
    → StreamStart
    → Option Chunk
    → Services
    → Round Streaming
unfolding after_first
after_open r id e g entries start none s = after_empty_stream id entries (release g e s)
after_open r id e g entries start (some c) s = after_first r id e g entries c start.rest c.err s

unfoldable pub after_stream :
    Router → String → Entry → ℕ → List Entry → Outcome StreamStart → Services → Round Streaming
unfolding after_open
after_stream r id e g entries (ok start) s = after_open r id e g entries start start.first s
after_stream r id e g entries (err x) s = after_stream_error r id e entries x (release g e s)

unfoldable pub stream_attempt : Routers → Request → Attempt Streaming
unfolding after_stream
stream_attempt rs req p e entries s =
    let (outcome, s') = p.stream (apply_model_params req e) s in
    after_stream (rs s'.generation) p.id e s.generation entries outcome s'

-- Stream(ctx, req)
unfoldable pub stream : Routers → Request → Services → Option (Reply Streaming × Services)
unfolding stream_attempt
stream rs req s = run (stream_attempt rs req) rs (resolve (rs s.generation) req.model) s

-- The provider closes its channel.
unfoldable pub close_stream : Streaming → Services → Services
close_stream started s = release started.generation started.entry s
