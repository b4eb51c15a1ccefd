-- ===== src/Router/Termination.antt =====
-- Termination of `Route` and `Stream` (internal/router/router.go): the length of the list of entries
-- is the measure.
use local_router.Prelude.{
  ℕ, zero, suc, ◌<◌, ◌≡◌, refl, inl, inr, String, not, ◌&&◌, Option, none, some, List, [], ◌∷◌, In,
  arith, Bool-cases, length, length-keep-lt, str_eq, eq_iff,
}
use local_router.GoMap
use local_router.Provider.{Provider, Request, Response, Error, Outcome, ok, err, StreamStart, Chunk}
use local_router.Registry.{Entry}
use local_router.Router.{
  Routers, Services, Router, Round, retry, done, give_up, Reply, answer, refuse, filter_provider,
  filter_entry, resolve,
}
use local_router.Router.Retry.{is_model_level_error}
use local_router.Router.Selection.{select_provider}
use local_router.Router.Slots.{acquire_concurrency, release}
use local_router.Router.Failover.{
  after_complete_error, after_stream_error, after_empty_stream, after_chunk_error,
}
use local_router.Router.Loop.{Attempt, attempt_selected, round, next, loop, run}
use local_router.Router.Calls.{
  after_complete, complete_attempt, route, after_first, after_open, after_stream, stream_attempt,
  stream, Streaming,
}
use local_router.Router.Selected.{select_provider-IsServing}

-- The map of providers is keyed by the id that each provider reports.
unfoldable pub IsKeyed : Router → Type 0
IsKeyed r = (id : String) (p : Provider Services) → GoMap.get r.providers id ≡ some p → p.id ≡ id

-- A round that goes on does so with fewer than `n` entries.
abbrev pub Shorter : {A : Type 0} → ℕ → Round A → Type 0
Shorter n (retry entries s) = length entries < n
Shorter n (done a s) = Unit
Shorter n (give_up x s) = Unit

filter_provider_lt :
    (entries : List Entry) (e : Entry) (id : String)
    → In e entries
    → id ≡ e.provider_id
    → length (filter_provider entries id) < length entries
unfolding filter_provider
filter_provider_lt entries e id m h =
    length-keep-lt (λ x. not (str_eq x.provider_id id)) e entries m
      (ground (arith, eq_iff e.provider_id id))

filter_entry_lt :
    (entries : List Entry) (e : Entry)
    → In e entries
    → length (filter_entry entries e.provider_id e.model_id) < length entries
unfolding filter_entry
filter_entry_lt entries e m =
    length-keep-lt (λ x. not (str_eq x.provider_id e.provider_id && str_eq x.model_id e.model_id)) e
      entries m (ground (arith, eq_iff e.provider_id e.provider_id, eq_iff e.model_id e.model_id))

module _ (r : Router) (id : String) (e : Entry) (entries : List Entry) (m : In e entries)
    (keyed : id ≡ e.provider_id) where
  after_complete_error-Shorter :
      (A : Type 0) (x : Error) (s : Services)
      → Shorter (length entries) (after_complete_error {A = A} r id e entries x s)
  unfolding after_complete_error
  after_complete_error-Shorter A x s =
      elim (Bool-cases (is_model_level_error x && not e.is_remote)) [
        | inl yes_p ↦ rw yes_p (filter_entry_lt entries e m)
        | inr no_p ↦ rw no_p (filter_provider_lt entries e id m keyed)
      ]

  after_stream_error-Shorter :
      (A : Type 0) (x : Error) (s : Services)
      → Shorter (length entries) (after_stream_error {A = A} r id e entries x s)
  unfolding after_stream_error
  after_stream_error-Shorter A x s = elim (Bool-cases (is_model_level_error x && not e.is_remote)) [
    | inl yes_p ↦ rw yes_p (filter_entry_lt entries e m)
    | inr no_p ↦ rw no_p (filter_provider_lt entries e id m keyed)
  ]

  after_complete-Shorter :
      (o : Outcome Response) (s : Services)
      → Shorter (length entries) (after_complete r id e entries o s)
  unfolding after_complete
  after_complete-Shorter (ok a) s = tt
  after_complete-Shorter (err x) s = after_complete_error-Shorter Response x s

  after_first-Shorter :
      (g : ℕ) (c : Chunk) (rest : List Chunk) (o : Option Error) (s : Services)
      → Shorter (length entries) (after_first r id e g entries c rest o s)
  unfolding after_first after_chunk_error
  after_first-Shorter g c rest none s = tt
  after_first-Shorter g c rest (some x) s = filter_provider_lt entries e id m keyed

  after_open-Shorter :
      (g : ℕ) (start : StreamStart) (o : Option Chunk) (s : Services)
      → Shorter (length entries) (after_open r id e g entries start o s)
  unfolding after_open after_empty_stream
  after_open-Shorter g start none s = filter_provider_lt entries e id m keyed
  after_open-Shorter g start (some c) s = after_first-Shorter g c start.rest c.err s

  after_stream-Shorter :
      (g : ℕ) (o : Outcome StreamStart) (s : Services)
      → Shorter (length entries) (after_stream r id e g entries o s)
  unfolding after_stream
  after_stream-Shorter g (ok start) s = after_open-Shorter g start start.first s
  after_stream-Shorter g (err x) s = after_stream_error-Shorter Streaming x (release g e s)

-- What the loop asks of the code that calls the provider.
abbrev ShrinksAt : {A : Type 0} → Attempt A → Type 0
ShrinksAt attempt =
    (p : Provider Services) (e : Entry) (entries : List Entry) (s : Services)
    → In e entries
    → p.id ≡ e.provider_id
    → Shorter (length entries) (attempt p e entries s)

module _ {A : Type 0} (attempt : Attempt A) (rs : Routers) (shrinks : ShrinksAt attempt)
    (keyed : (n : ℕ) → IsKeyed (rs n)) where
  attempt_selected-Shorter :
      (entries : List Entry) (s : Services) (found : Option (Provider Services × Entry))
      → ((p : Provider Services) (e : Entry)
          → found ≡ some (p, e)
          → In e entries × (p.id ≡ e.provider_id))
      → Shorter (length entries) (attempt_selected attempt rs entries s found)
  unfolding attempt_selected
  attempt_selected-Shorter entries s none h = tt
  attempt_selected-Shorter entries s (some (p, e)) h =
      let (m, same) = h p e refl in
      elim (Bool-cases (acquire_concurrency e s).1) [
        | inl got ↦ rw got (shrinks p e entries (acquire_concurrency e s).0 m same)
        | inr full ↦ rw full (filter_provider_lt entries e e.provider_id m refl)
      ]

  round-Shorter :
      (entries : List Entry) (s : Services) → Shorter (length entries) (round attempt rs entries s)
  unfolding round IsKeyed
  round-Shorter entries s =
      attempt_selected-Shorter entries (select_provider (rs s.generation) entries s).0
        (select_provider (rs s.generation) entries s).1
        (λ p e h.
          let (m, serving) = select_provider-IsServing (rs s.generation) entries s p e h in
          (m, keyed s.generation e.provider_id p serving.registered))

  next_returns :
      (fuel n : ℕ) (x : Round A)
      → Shorter n x
      → ((entries : List Entry) (s : Services)
          → length entries < n
          → (y : Reply A × Services) × (loop attempt rs fuel entries s ≡ some y))
      → (y : Reply A × Services) × (next attempt rs (loop attempt rs fuel) x ≡ some y)
  unfolding next
  next_returns fuel n (retry entries s) h ih = ih entries s h
  next_returns fuel n (done a s) h ih = ((answer a, s), refl)
  next_returns fuel n (give_up x s) h ih = ((refuse x, s), refl)

  loop_returns :
      (fuel : ℕ) (entries : List Entry) (s : Services)
      → length entries < fuel
      → (y : Reply A × Services) × (loop attempt rs fuel entries s ≡ some y)
  unfolding loop
  loop_returns zero entries s h = absurd (ground (arith, h))
  loop_returns (suc fuel) [] s h = (_, refl)
  loop_returns (suc fuel) (e ∷ es) s h =
      next_returns fuel (length (e ∷ es)) (round attempt rs (e ∷ es) s) (round-Shorter (e ∷ es) s)
        (λ entries s' fewer. loop_returns fuel entries s' (omega (arith, h, fewer)))

  run_returns :
      (entries : List Entry) (s : Services)
      → (y : Reply A × Services) × (run attempt rs entries s ≡ some y)
  unfolding run
  run_returns [] s = (_, refl)
  run_returns (e ∷ es) s = loop_returns (suc (length (e ∷ es))) (e ∷ es) s (omega arith)

-- `Route` returns for every request, whatever the providers answer and whatever other requests and
-- reloads do to the shared state meanwhile, if the providers are registered under their own ids, before
-- and after every reload.
pub route_returns :
    (rs : Routers) (req : Request) (s : Services)
    → ((n : ℕ) → IsKeyed (rs n))
    → (y : Reply Response × Services) × (route rs req s ≡ some y)
unfolding route complete_attempt
route_returns rs req s keyed =
    run_returns (complete_attempt rs req) rs
      (λ p e entries s m same. after_complete-Shorter _ p.id e entries m same _ _) keyed
      (resolve (rs s.generation) req.model) s

-- `Stream` returns a stream or an error for every request under the same condition: the providers
-- are registered under their own ids, before and after every reload.
pub stream_returns :
    (rs : Routers) (req : Request) (s : Services)
    → ((n : ℕ) → IsKeyed (rs n))
    → (y : Reply Streaming × Services) × (stream rs req s ≡ some y)
unfolding stream stream_attempt
stream_returns rs req s keyed =
    run_returns (stream_attempt rs req) rs
      (λ p e entries s m same. after_stream-Shorter _ p.id e entries m same _ _ _) keyed
      (resolve (rs s.generation) req.model) s
