-- ===== src/Start/Refused.antt =====
-- What a refusing service does to a request: from the status of its answer (internal/provider/*) to the
-- rounds of the router behind it (internal/router/router.go).
use local_router.Prelude.{
  ◌≡◌, refl, ℕ, String, false, not, ◌&&◌, ◌||◌, ◌==◌, some, List, str_eq, if◌then◌else◌, Bool-cases,
  inl, inr,
}
use local_router.Prelude.Time.{Time, before, add}
use local_router.Config.{ProviderConfig}
use local_router.Provider.{Provider, Request, Response, as_http}
use local_router.Health.{Monitor}
use local_router.State.Manager.{State, get_state, blocked_until}
use local_router.Registry.{Entry}
use local_router.Router.{
  Services, Router, Routers, retry, filter_provider, filter_entry, apply_model_params,
}
use local_router.Router.Retry.{is_model_level_error}
use local_router.Router.Slots.{release}
use local_router.Router.Failover.{after_complete_error, recovery_window}
use local_router.Router.Calls.{after_complete, complete_attempt}
use local_router.Router.Blocking.{services_of, get_state-after_complete_error}
use local_router.Adapters.Http.{Body, HttpRequest, replied, Send, new_http_error}
use local_router.Adapters.Factory
use local_router.Adapters.Factory.{Codecs}
use local_router.Adapters.Errors.{new-Fails}

-- The entries that are left when the provider of `e` has been refused with a status: all but `e`
-- where a local one has no quota for the model or finds the request too large, and otherwise all
-- those of other providers.
abbrev pub left_by : ℕ → String → Entry → List Entry → List Entry
left_by code id e entries =
    if (code == 429 || code == 413) && not e.is_remote
    then filter_entry entries e.provider_id e.model_id
    else filter_provider entries id

after_complete_error-left :
    (r : Router) (id : String) (e : Entry) (entries : List Entry) (code : ℕ) (head : String)
    (s : Services)
    → let round = after_complete_error {A = Response} r id e entries (new_http_error code head) s in
      round ≡ retry (left_by code id e entries) (services_of round)
unfolding after_complete_error is_model_level_error as_http
after_complete_error-left r id e entries code head s =
    elim (Bool-cases ((code == 429 || code == 413) && not e.is_remote)) [
      | inl about_model ↦ rw about_model refl
      | inr about_provider ↦ rw about_provider refl
    ]

-- Where the service of a provider that the factory made answers with a status other than 200, whichever
-- protocol it speaks, a round of `Route` never ends the request: it goes on, after 429 and 413 of a
-- local provider with all entries but this one, and otherwise with those of the other providers. A
-- remote provider is then blocked from the answer on for its recovery window, a local one is not, and
-- the other providers' states are those that they had when the answer came. The condition on the
-- states is that the provider was not blocked at `later` when the answer came.
pub complete_attempt-refused :
    (send : Send Services) (codecs : Codecs) (c : ProviderConfig) (p : Provider Services)
    (rs : Routers) (req : Request) (e : Entry) (entries : List Entry) (s : Services) (code : ℕ)
    (body : Body) (other : String) (later : Time) (health : Monitor)
    → Factory.new send codecs c ≡ some p
    → ((r : HttpRequest) → (send r s).0 ≡ replied code body)
    → (code == 200) ≡ false
    → before later (blocked_until (p.complete (apply_model_params req e) s).1.state p.id) ≡ false
    → let come = (p.complete (apply_model_params req e) s).1 in
      let round = complete_attempt rs req p e entries s in
      let window = recovery_window (rs come.generation) p.id in
      (round ≡ retry (left_by code p.id e entries) (services_of round))
      × (get_state later health (services_of round).state other ≡ (
          if e.is_remote && str_eq p.id other && before later (add come.now window)
          then State.blocked
          else get_state later health come.state other))
unfolding complete_attempt after_complete release
complete_attempt-refused send codecs c p rs req e entries s code body other later health made
      answers bad free =
    let x = new_http_error code body.head in
    let come = (p.complete (apply_model_params req e) s).1 in
    let r = rs come.generation in
    let given = release s.generation e come in
    let fails =
      (new-Fails send codecs c p (apply_model_params req e) s code body made answers bad).0 in
    rw fails (
      after_complete_error-left r p.id e entries code body.head given,
      get_state-after_complete_error Response r p.id other e entries x given later health free,
    )
