-- ===== src/State/Report/Status.antt =====
-- `determineStatus`, `GetProviderState` and `GetGlobalState` of internal/state/report_state.go.
use local_router.Prelude.{
  ℕ, suc, ◌+◌, ◌≡◌, refl, String, Bool, true, false, ◌&&◌, ◌||◌, not, Option, none, some, List, [],
  ◌∷◌, ◌==◌, leb, ltb, if◌then◌else◌, or_zero, length, arith,
}
use local_router.Prelude.Time.{Time, zero_time, before}
use local_router.GoMap
use local_router.GoMap.{GoMap}
use local_router.State.Report.{
  ProviderStatus, healthy, degraded, blocked, unreachable, misconfigured, ErrorType, rate_limit,
  deprecated_model, empty_response, timeout, invalid_endpoint, HttpErrorInfo, ProbeResult,
  zero_probe, RequestOutcome, zero_outcome, RateLimitState, zero_rate_limit, ModelsInfo,
  zero_models, MetricsInfo, StateManager, metrics_of,
}

-- Shared by the two state managers' files on disk (internal/state/persistence.go).
pub record LimitWindowSave : Type 0 where
  pub count : ℕ
  pub reset_at : Time

pub record ProviderState : Type 0 where
  pub name : String
  pub status : ProviderStatus
  pub probe : ProbeResult
  pub request : RequestOutcome
  pub metrics : MetricsInfo
  pub rate_limit : RateLimitState
  pub models : ModelsInfo
  pub blocked_until : Option Time
  pub exhausted_until : Option Time
  pub limit_windows : List LimitWindowSave
  pub active_requests : ℕ

pub record GlobalState : Type 0 where
  pub total_requests : ℕ
  pub total_failures : ℕ
  pub active_providers : ℕ
  pub blocked_providers : ℕ
  pub generated_at : Time

unfoldable pub is_unreachable_error : Option HttpErrorInfo → Bool
is_unreachable_error none = false
is_unreachable_error (some e) = elim e.http_code [
  | none ↦ false
  | some code ↦ code == 404 || leb 500 code
]

abbrev pub probe_fails : Option ProbeResult → Bool
probe_fails none = false
probe_fails (some p) = not p.success || is_unreachable_error p.error

abbrev is_transient_type : ErrorType → Bool
is_transient_type empty_response = true
is_transient_type timeout = true
is_transient_type _ = false

-- The check for transient failures, which wants a last error to be there.
abbrev is_transient : RequestOutcome → Bool
is_transient o =
    ltb 0 o.consecutive_failures
    && (elim o.last_error [ none ↦ false | some e ↦ is_transient_type e.type ])

abbrev pub error_status : ErrorType → ProviderStatus
error_status deprecated_model = misconfigured
error_status invalid_endpoint = misconfigured
error_status rate_limit = blocked
error_status _ = degraded

-- From the label `checkOutcome` on.
unfoldable pub outcome_status : RequestOutcome → ProviderStatus
outcome_status o = elim o.last_error [
  | some e ↦ error_status e.type
  | none ↦ if is_transient o then degraded else healthy
]

abbrev pub is_held : Time → StateManager → String → Bool
is_held now sm id =
    before now (or_zero zero_time (GoMap.get sm.blocked id))
    || before now (or_zero zero_time (GoMap.get sm.exhausted id))

-- A nil pointer is `none`.
unfoldable pub determine_status :
    Time → StateManager → String → Option ProbeResult → Option RequestOutcome → ProviderStatus
unfolding outcome_status is_unreachable_error
determine_status now sm id probe outcome =
    if is_held now sm id
    then blocked
    else if probe_fails probe
    then unreachable
    else outcome_status (or_zero zero_outcome outcome)

-- GetProviderState, and getProviderStateLocked, which has the same body.
unfoldable pub get_provider_state : Time → StateManager → String → ProviderState
get_provider_state now sm id =
    let probe = or_zero zero_probe (GoMap.get sm.probe_results id) in
    let outcome = or_zero zero_outcome (GoMap.get sm.request_outcomes id) in
    let metrics = metrics_of sm id in
    record {
      name = id;
      status = determine_status now sm id (some probe) (some outcome);
      probe = probe;
      request = outcome;
      metrics = record {
        total_requests = metrics.total_requests;
        total_failures = metrics.total_failures;
        consecutive_failures = outcome.consecutive_failures;
      };
      rate_limit = or_zero zero_rate_limit (GoMap.get sm.rate_limit_state id);
      models = or_zero zero_models (GoMap.get sm.models_info id);
      blocked_until = none;
      exhausted_until = none;
      limit_windows = [];
      active_requests = 0;
    }

abbrev pub counts_as_blocked : ProviderStatus → Bool
counts_as_blocked blocked = true
counts_as_blocked unreachable = true
counts_as_blocked _ = false

-- The status by which `GetGlobalState` counts a provider: the maps' pointers are passed as they are.
unfoldable pub global_status : Time → StateManager → String → ProviderStatus
global_status now sm id =
    determine_status now sm id (GoMap.get sm.probe_results id) (GoMap.get sm.request_outcomes id)

-- The body of the loop of `GetGlobalState`.
unfoldable pub count_provider : Time → StateManager → String → GlobalState → GlobalState
count_provider now sm id g =
    let m = metrics_of sm id in
    let held = counts_as_blocked (global_status now sm id) in
    record g {
      total_requests = g.total_requests + m.total_requests;
      total_failures = g.total_failures + m.total_failures;
      blocked_providers = if held then g.blocked_providers + 1 else g.blocked_providers;
      active_providers = if held then g.active_providers else g.active_providers + 1;
    }

-- `for id := range sm.metrics`
unfoldable pub count_providers : Time → StateManager → List String → GlobalState → GlobalState
count_providers now sm [] g = g
count_providers now sm (id ∷ ids) g = count_providers now sm ids (count_provider now sm id g)

unfoldable pub get_global_state : Time → StateManager → GlobalState
get_global_state now sm = count_providers now sm (GoMap.keys sm.metrics) (record {
  total_requests = 0;
  total_failures = 0;
  active_providers = 0;
  blocked_providers = 0;
  generated_at = now;
})

unfoldable pub states_of : Time → StateManager → List String → List ProviderState
states_of now sm [] = []
states_of now sm (id ∷ ids) = get_provider_state now sm id ∷ states_of now sm ids

unfoldable pub get_all_provider_states : Time → StateManager → List ProviderState
unfolding states_of
get_all_provider_states now sm = states_of now sm (GoMap.keys sm.metrics)

count_provider-partition :
    (now : Time) (sm : StateManager) (id : String) (g : GlobalState)
    → let r = count_provider now sm id g in
      r.active_providers + r.blocked_providers ≡ suc (g.active_providers + g.blocked_providers)
unfolding count_provider
count_provider-partition now sm id g = ground arith

count_providers-partition :
    (now : Time) (sm : StateManager) (ids : List String) (g : GlobalState)
    → let r = count_providers now sm ids g in
      r.active_providers + r.blocked_providers
      ≡ g.active_providers + g.blocked_providers + length ids
unfolding count_providers
count_providers-partition now sm [] g = omega arith
count_providers-partition now sm (id ∷ ids) g = omega (
  arith,
  count_provider-partition now sm id g,
  count_providers-partition now sm ids (count_provider now sm id g),
)

length-states_of :
    (now : Time) (sm : StateManager) (ids : List String)
    → length (states_of now sm ids) ≡ length ids
unfolding states_of
length-states_of now sm [] = refl
length-states_of now sm (id ∷ ids) = omega (arith, length-states_of now sm ids)

-- The report counts every provider that it lists once, as active or as blocked.
pub get_global_state-partition :
    (now : Time) (sm : StateManager)
    → let g = get_global_state now sm in
      g.active_providers + g.blocked_providers ≡ length (get_all_provider_states now sm)
unfolding get_global_state get_all_provider_states
get_global_state-partition now sm = omega (
  arith,
  length-states_of now sm (GoMap.keys sm.metrics),
  count_providers-partition now sm (GoMap.keys sm.metrics),
)
