-- ===== src/Router/Blocking.antt =====
-- What a failure does to the state of a provider and to its models (internal/router/router.go).
use local_router.Prelude.{
  ◌≡◌, String, Bool, false, not, ◌&&◌, Option, none, some, List, if◌then◌else◌, arith, str_eq,
  Bool-cases, inl, inr,
}
use local_router.Prelude.Time.{Time, before, after, add}
use local_router.Health.{Monitor}
use local_router.Provider.{Error}
use local_router.State.Manager.{State, get_state, blocked_until}
use local_router.State.Manager.Laws.{get_state-block}
use local_router.Limits.Tracker.{Tracker, is_blocked}
use local_router.Limits.Cooldown.{is_blocked-block}
use local_router.Registry.{Entry}
use local_router.Router.{Services, Router, Round, retry, done, give_up, model_key}
use local_router.Router.Retry.{is_model_level_error}
use local_router.Router.Failover.{
  after_complete_error, after_stream_error, after_chunk_error, recovery_window, record_failure,
  block_provider, report_probe, cool_model, cooldown,
}

-- The services with which a round ends.
abbrev pub services_of : {A : Type 0} → Round A → Services
services_of (retry entries s) = s
services_of (done a s) = s
services_of (give_up x s) = s

-- After a failed `Complete`, a remote provider is blocked until its recovery window has passed, be the
-- error about the model or not; a local one is never blocked. No other provider changes its state.
-- The condition is that the provider was not blocked at `later` already.
pub get_state-after_complete_error :
    (A : Type 0) (r : Router) (id other : String) (e : Entry) (entries : List Entry) (err : Error)
    (s : Services) (later : Time) (health : Monitor)
    → before later (blocked_until s.state id) ≡ false
    → let s' = services_of (after_complete_error {A = A} r id e entries err s) in
      get_state later health s'.state other ≡ (
        if e.is_remote && str_eq id other && before later (add s.now (recovery_window r id))
        then State.blocked
        else get_state later health s.state other)
unfolding after_complete_error record_failure block_provider report_probe cool_model
get_state-after_complete_error A r id other e entries err s later health free =
    ground (arith, get_state-block s.now later (recovery_window r id) health s.state id other free)

-- The same holds where `Stream` fails, before the stream is open or on its first chunk: exactly the
-- remote provider is blocked, for its recovery window, if it was not blocked at `later` already.
pub get_state-after_stream_error :
    (A : Type 0) (r : Router) (id other : String) (e : Entry) (entries : List Entry) (err : Error)
    (s : Services) (later : Time) (health : Monitor)
    → before later (blocked_until s.state id) ≡ false
    → let opened = services_of (after_stream_error {A = A} r id e entries err s) in
      let chunk = services_of (after_chunk_error {A = A} r id e entries err s) in
      let expected =
        if e.is_remote && str_eq id other && before later (add s.now (recovery_window r id))
        then State.blocked
        else get_state later health s.state other in
      (get_state later health opened.state other ≡ expected)
      × (get_state later health chunk.state other ≡ expected)
unfolding after_stream_error after_chunk_error record_failure block_provider report_probe cool_model
get_state-after_stream_error A r id other e entries err s later health free =
    let law = get_state-block s.now later (recovery_window r id) health s.state id other free in
    (ground (arith, law), ground (arith, law))

-- Whether the cooldown of an entry's model is on, by the services' tracker of models.
abbrev pub is_cooling : Time → String → Option Tracker → Bool
is_cooling now key none = false
is_cooling now key (some t) = (is_blocked now key t).1

-- Where models have limits, a model of a local provider cools down after a failed `Complete` exactly if the error is
-- about the model (429 or 413), up to and including the end of the cooldown; no other model's cooldown
-- changes, and no cooldown at all after an error of a remote provider.
pub is_cooling-after_complete_error :
    (A : Type 0) (r : Router) (id key : String) (e : Entry) (entries : List Entry) (err : Error)
    (s : Services) (t : Tracker) (later : Time)
    → s.model_limits ≡ some t
    → let s' = services_of (after_complete_error {A = A} r id e entries err s) in
      is_cooling later key s'.model_limits ≡ (
        if is_model_level_error err && not e.is_remote && str_eq (model_key e) key
        then not (after later (add s.now (cooldown r id err)))
        else (is_blocked later key t).1)
unfolding after_complete_error record_failure block_provider report_probe cool_model
is_cooling-after_complete_error A r id key e entries err s t later on =
    elim (Bool-cases (is_model_level_error err && not e.is_remote)) [
      | inl about_model ↦
          rw (about_model, on)
            (ground (
              arith,
              about_model,
              is_blocked-block t (model_key e) key (add s.now (cooldown r id err)) later,
            ))
      | inr about_provider ↦ ground (arith, on, about_provider)
    ]
