-- ===== src/Router/Selection.antt =====
-- `selectProvider` of internal/router/router.go.
use local_router.Prelude.{
  String, Bool, true, false, not, Option, none, some, List, [], ◌∷◌, if◌then◌else◌,
}
use local_router.Prelude.Int.{pos, ◌+ℤ◌}
use local_router.GoMap
use local_router.Provider.{Provider}
use local_router.State.Manager.{State, available, unhealthy, get_state, set_exhausted}
use local_router.Limits.Tracker.{is_blocked, record_request}
use local_router.Registry.{Entry}
use local_router.Router.{Services, Router, model_key}

abbrev pub is_available : State → Bool
is_available available = true
is_available unhealthy = false
is_available State.exhausted = false
is_available State.blocked = false

abbrev pub provider_state : Services → String → State
provider_state s id = get_state s.now s.health s.state id

-- The part under `modelLimits != nil`; true if the entry may go on.
unfoldable pub check_model : Entry → Services → Services × Bool
check_model e s = elim s.model_limits [
  | none ↦ (s, true)
  | some tracker ↦
      let (tracker', blocked) = is_blocked s.now (model_key e) tracker in
      let a = record_request s.now (model_key e) tracker' in
      if blocked
      then (record s { model_limits = some tracker' }, false)
      else (record s { model_limits = some a.tracker }, not a.exhausted)
]

-- `r.limits.Record` and what follows it; true if the provider may serve.
unfoldable pub check_provider : Entry → Services → Services × Bool
check_provider e s =
    let a = record_request s.now e.provider_id s.limits in
    if a.exhausted
    then (
      record s {
        limits = a.tracker;
        state = set_exhausted e.provider_id a.reset_at s.state;
        metrics = record s.metrics {
          provider_exhausted_events = s.metrics.provider_exhausted_events +ℤ pos 1;
        };
      },
      false,
    )
    else (record s { limits = a.tracker }, true)

-- One round of the loop; `none` is `continue`.
unfoldable pub try_entry : Router → Entry → Services → Services × Option (Provider Services)
try_entry r e s =
    if not (is_available (provider_state s e.provider_id))
    then (s, none)
    else elim (GoMap.get r.providers e.provider_id) [
      | none ↦ (s, none)
      | some p ↦
          let (s₁, model_ok) = check_model e s in
          let (s₂, provider_ok) = check_provider e s₁ in
          if not model_ok then (s₁, none) else if provider_ok then (s₂, some p) else (s₂, none)
    ]

-- `none` is `ErrAllProvidersFailed`.
unfoldable pub select_provider :
    Router → List Entry → Services → Services × Option (Provider Services × Entry)
select_provider r [] s = (s, none)
select_provider r (e ∷ es) s =
    let (s', found) = try_entry r e s in
    elim found [ some p ↦ (s', some (p, e)) | none ↦ select_provider r es s' ]
