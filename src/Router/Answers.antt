-- ===== src/Router/Answers.antt =====
-- Where the answers of `Route` and `Stream` (internal/router/router.go) come from.
use local_router.Prelude.{
  ℕ, zero, suc, ◌≡◌, refl, subst, String, not, ◌&&◌, Option, none, some, List, [], ◌∷◌, In, arith,
  inl, inr, Bool-cases, In-keep, str_eq, length,
}
use local_router.GoMap
use local_router.Provider.{Provider, Request, Response, Error, Outcome, ok, err, StreamStart, Chunk}
use local_router.Registry.{Entry}
use local_router.Router.{
  Services, Router, Routers, Round, retry, done, give_up, answer, filter_provider, filter_entry,
  resolve, apply_model_params,
}
use local_router.Router.Retry.{is_model_level_error}
use local_router.Router.Selection.{select_provider}
use local_router.Router.Slots.{acquire_concurrency}
use local_router.Router.Failover.{
  after_complete_error, after_stream_error, after_empty_stream, after_chunk_error,
}
use local_router.Router.Loop.{Attempt, attempt_selected, round, next, loop, run}
use local_router.Router.Calls.{
  after_complete, complete_attempt, route, Streaming, after_first, after_open, after_stream,
  stream_attempt, stream,
}
use local_router.Router.Generation.{select_provider-generation, acquire_concurrency-generation}
use local_router.Router.Selected.{select_provider-IsServing}

abbrev Within : List Entry → List Entry → Type 0
Within entries all = (x : Entry) → In x entries → In x all

filter_provider-Within :
    (entries all : List Entry) (id : String)
    → Within entries all
    → Within (filter_provider entries id) all
unfolding filter_provider
filter_provider-Within entries all id w x m =
    w x (In-keep (λ e. not (str_eq e.provider_id id)) x entries m).0

filter_entry-Within :
    (entries all : List Entry) (id model_id : String)
    → Within entries all
    → Within (filter_entry entries id model_id) all
unfolding filter_entry
filter_entry-Within entries all id model_id w x m =
    w x (In-keep (λ e. not (str_eq e.provider_id id && str_eq e.model_id model_id)) x entries m).0

-- A round goes on with some of the entries `all`, or answers what `P` allows.
abbrev Yields : {A : Type 0} → (A → Type 0) → List Entry → Round A → Type 0
Yields P all (retry entries s) = Within entries all
Yields P all (done a s) = P a
Yields P all (give_up x s) = Unit

module _ {A : Type 0} (attempt : Attempt A) (rs : Routers) (P : A → Type 0) (all : List Entry)
    (yields : (p : Provider Services) (e : Entry) (entries : List Entry) (s : Services)
      → Within entries all
      → In e all
      → GoMap.get (rs s.generation).providers e.provider_id ≡ some p
      → Yields P all (attempt p e entries s)) where
  attempt_selected-Yields :
      (entries : List Entry) (s : Services) (found : Option (Provider Services × Entry))
      → Within entries all
      → ((p : Provider Services) (e : Entry)
          → found ≡ some (p, e)
          → In e all × (GoMap.get (rs s.generation).providers e.provider_id ≡ some p))
      → Yields P all (attempt_selected attempt rs entries s found)
  unfolding attempt_selected
  attempt_selected-Yields entries s none w h = tt
  attempt_selected-Yields entries s (some (p, e)) w h =
      let (m, there) = h p e refl in
      elim (Bool-cases (acquire_concurrency e s).1) [
        | inl got ↦ rw got (
            yields p e entries (acquire_concurrency e s).0 w m
              (rw (acquire_concurrency-generation e s) there))
        | inr full ↦ rw full (filter_provider-Within entries all e.provider_id w)
      ]

  round-Yields :
      (entries : List Entry) (s : Services)
      → Within entries all
      → Yields P all (round attempt rs entries s)
  unfolding round
  round-Yields entries s w =
      attempt_selected-Yields entries (select_provider (rs s.generation) entries s).0
        (select_provider (rs s.generation) entries s).1 w
        (λ p e h.
          let (m, serving) = select_provider-IsServing (rs s.generation) entries s p e h in
          (w e m, rw (select_provider-generation (rs s.generation) entries s) serving.registered))

  next_answers :
      (fuel : ℕ) (x : Round A) (a : A) (s' : Services)
      → Yields P all x
      → ((entries : List Entry) (s : Services)
          → Within entries all
          → loop attempt rs fuel entries s ≡ some (answer a, s')
          → P a)
      → next attempt rs (loop attempt rs fuel) x ≡ some (answer a, s')
      → P a
  unfolding next
  next_answers fuel (retry entries s) a s' y ih h = ih entries s y h
  next_answers fuel (done b s) a s' y ih h = let same : b ≡ a = cc h in subst P same y
  next_answers fuel (give_up x s) a s' y ih h = absurd (ground (arith, h))

  loop_answers :
      (fuel : ℕ) (entries : List Entry) (s : Services) (a : A) (s' : Services)
      → Within entries all
      → loop attempt rs fuel entries s ≡ some (answer a, s')
      → P a
  unfolding loop
  loop_answers zero entries s a s' w h = absurd (ground (arith, h))
  loop_answers (suc fuel) [] s a s' w h = absurd (ground (arith, h))
  loop_answers (suc fuel) (e ∷ es) s a s' w h =
      next_answers fuel (round attempt rs (e ∷ es) s) a s' (round-Yields (e ∷ es) s w)
        (λ entries t. loop_answers fuel entries t a s') h

  run_answers :
      (entries : List Entry) (s : Services) (a : A) (s' : Services)
      → Within entries all
      → run attempt rs entries s ≡ some (answer a, s')
      → P a
  unfolding run
  run_answers [] s a s' w h = absurd (ground (arith, h))
  run_answers (e ∷ es) s a s' w h = loop_answers (suc (length (e ∷ es))) (e ∷ es) s a s' w h

-- Where a response comes from, if the `n`-th router resolved the model: one of the entries, its registered provider, and a moment at which
-- that provider gave this very response to the request with the entry's model and parameters.
pub record IsResponse (rs : Routers) (n : ℕ) (req : Request) (response : Response) : Type 0 where
  pub provider : Provider Services
  pub entry : Entry
  pub moment : Services
  pub resolved : In entry (resolve (rs n) req.model)
  pub registered : GoMap.get (rs moment.generation).providers entry.provider_id ≡ some provider
  pub given : (provider.complete (apply_model_params req entry) moment).0 ≡ ok response

after_complete-Yields :
    (rs : Routers) (n : ℕ) (r : Router) (req : Request) (p : Provider Services) (e : Entry)
    (entries : List Entry) (o : Outcome Response) (s moment : Services)
    → Within entries (resolve (rs n) req.model)
    → In e (resolve (rs n) req.model)
    → GoMap.get (rs moment.generation).providers e.provider_id ≡ some p
    → (p.complete (apply_model_params req e) moment).0 ≡ o
    → Yields (IsResponse rs n req) (resolve (rs n) req.model) (after_complete r p.id e entries o s)
unfolding after_complete after_complete_error
after_complete-Yields rs n r req p e entries (ok a) s moment w m there h = record {
  provider = p;
  entry = e;
  moment = moment;
  resolved = m;
  registered = there;
  given = h;
}
after_complete-Yields rs n r req p e entries (err x) s moment w m there h =
    elim (Bool-cases (is_model_level_error x && not e.is_remote)) [
      | inl yes_p ↦
          rw yes_p
            (filter_entry-Within entries (resolve (rs n) req.model) e.provider_id e.model_id w)
      | inr no_p ↦ rw no_p (filter_provider-Within entries (resolve (rs n) req.model) p.id w)
    ]

-- If `Route` returns a response, then it is the response that a provider gave: one that was registered,
-- when it was called, for an entry of the requested model (as the registry had it when the request
-- came), asked with the entry's model and parameters.
pub route-IsResponse :
    (rs : Routers) (req : Request) (s s' : Services) (response : Response)
    → route rs req s ≡ some (answer response, s')
    → IsResponse rs s.generation req response
unfolding route complete_attempt
route-IsResponse rs req s s' response h =
    run_answers (complete_attempt rs req) rs (IsResponse rs s.generation req)
      (resolve (rs s.generation) req.model)
      (λ p e entries t w m there.
        after_complete-Yields rs s.generation _ req p e entries _ _ t w m there refl)
      (resolve (rs s.generation) req.model) s response s' (λ x m. m) h

-- Where a stream comes from, if the `n`-th router resolved the model: the registered provider of its entry, which opened it at some moment with
-- a first chunk that carries no error. The client gets that chunk and those behind it.
pub record IsStream (rs : Routers) (n : ℕ) (req : Request) (started : Streaming) : Type 0 where
  pub provider : Provider Services
  pub moment : Services
  pub start : StreamStart
  pub chunk : Chunk
  pub resolved : In started.entry (resolve (rs n) req.model)
  pub registered :
      GoMap.get (rs moment.generation).providers started.entry.provider_id ≡ some provider
  pub opened : (provider.stream (apply_model_params req started.entry) moment).0 ≡ ok start
  pub first : start.first ≡ some chunk
  pub fine : chunk.err ≡ none
  pub named : started.model ≡ started.entry.model_id
  pub passed_on : started.chunks ≡ chunk ∷ start.rest

module _ (rs : Routers) (n : ℕ) (r : Router) (req : Request) (p : Provider Services) (e : Entry)
    (entries : List Entry) (moment : Services) (w : Within entries (resolve (rs n) req.model))
    (m : In e (resolve (rs n) req.model))
    (there : GoMap.get (rs moment.generation).providers e.provider_id ≡ some p) where
  after_first-Yields :
      (g : ℕ) (start : StreamStart) (c : Chunk) (o : Option Error) (s : Services)
      → (p.stream (apply_model_params req e) moment).0 ≡ ok start
      → start.first ≡ some c
      → c.err ≡ o
      → Yields
          (IsStream rs n req)
          (resolve (rs n) req.model)
          (after_first r p.id e g entries c start.rest o s)
  unfolding after_first after_chunk_error
  after_first-Yields g start c none s h first fine = record {
    provider = p;
    moment = moment;
    start = start;
    chunk = c;
    resolved = m;
    registered = there;
    opened = h;
    first = first;
    fine = fine;
    named = refl;
    passed_on = refl;
  }
  after_first-Yields g start c (some x) s h first fine =
      filter_provider-Within entries (resolve (rs n) req.model) p.id w

  after_open-Yields :
      (g : ℕ) (start : StreamStart) (o : Option Chunk) (s : Services)
      → (p.stream (apply_model_params req e) moment).0 ≡ ok start
      → start.first ≡ o
      → Yields
          (IsStream rs n req)
          (resolve (rs n) req.model)
          (after_open r p.id e g entries start o s)
  unfolding after_open after_empty_stream
  after_open-Yields g start none s h first =
      filter_provider-Within entries (resolve (rs n) req.model) p.id w
  after_open-Yields g start (some c) s h first = after_first-Yields g start c c.err s h first refl

  after_stream-Yields :
      (g : ℕ) (o : Outcome StreamStart) (s : Services)
      → (p.stream (apply_model_params req e) moment).0 ≡ o
      → Yields (IsStream rs n req) (resolve (rs n) req.model) (after_stream r p.id e g entries o s)
  unfolding after_stream after_stream_error
  after_stream-Yields g (ok start) s h = after_open-Yields g start start.first s h refl
  after_stream-Yields g (err x) s h =
      elim (Bool-cases (is_model_level_error x && not e.is_remote)) [
        | inl yes_p ↦
            rw yes_p
              (filter_entry-Within entries (resolve (rs n) req.model) e.provider_id e.model_id w)
        | inr no_p ↦ rw no_p (filter_provider-Within entries (resolve (rs n) req.model) p.id w)
      ]

-- If `Stream` returns a stream, then a provider opened it that was registered, when it was called, for
-- an entry of the requested model (as the registry had it when the request came), asked with the entry's
-- model and parameters; its first chunk carries no error, and the client gets this chunk and all those
-- behind it, under the entry's model name.
pub stream-IsStream :
    (rs : Routers) (req : Request) (s s' : Services) (started : Streaming)
    → stream rs req s ≡ some (answer started, s')
    → IsStream rs s.generation req started
unfolding stream stream_attempt
stream-IsStream rs req s s' started h =
    run_answers (stream_attempt rs req) rs (IsStream rs s.generation req)
      (resolve (rs s.generation) req.model)
      (λ p e entries t w m there.
        after_stream-Yields rs s.generation _ req p e entries t w m there t.generation _ _ refl)
      (resolve (rs s.generation) req.model) s started s' (λ x m. m) h
