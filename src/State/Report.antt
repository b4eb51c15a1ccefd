-- ===== src/State/Report.antt =====
-- internal/state/report_state.go: what the report knows of each provider. The pointers that its maps
-- hold are changed only under its lock, so a map holds the values.
pub mod Status
pub mod Counting
pub mod Stale
use local_router.Prelude.{
  ℕ, suc, ◌+◌, String, Bool, true, false, ◌&&◌, ◌||◌, not, Option, none, some, List, [], ◌∷◌, ◌++◌,
  ◌==◌, leb, ltb, if◌then◌else◌, or_zero,
}
use local_router.Prelude.Time.{Time, Duration, zero_time, before, add}
use local_router.GoMap
use local_router.GoMap.{GoMap}
use local_router.Provider.{Error, HttpError, assert_http, is_deadline, error_message}

pub data ProviderStatus : Type 0 where
  healthy degraded blocked unreachable misconfigured : ProviderStatus

unfoldable pub status_string : ProviderStatus → String
status_string healthy = "healthy"
status_string degraded = "degraded"
status_string blocked = "blocked"
status_string unreachable = "unreachable"
status_string misconfigured = "misconfigured"

-- `ErrorTypeNone` is `no_error`; the others drop the prefix `ErrorTypeError`.
pub data ErrorType : Type 0 where
  no_error rate_limit deprecated_model empty_response timeout invalid_endpoint unknown : ErrorType

unfoldable pub error_type_string : ErrorType → String
error_type_string rate_limit = "rate_limit"
error_type_string deprecated_model = "deprecated_model"
error_type_string empty_response = "empty_response"
error_type_string timeout = "timeout"
error_type_string invalid_endpoint = "invalid_endpoint"
error_type_string unknown = "unknown"
error_type_string no_error = "unknown"

-- `RawBody` is set nowhere.
pub record HttpErrorInfo : Type 0 where
  pub type : ErrorType
  pub message : String
  pub http_code : Option ℕ

pub record ProbeResult : Type 0 where
  pub success : Bool
  pub latency_ms : ℕ
  pub last_checked : Time
  pub error : Option HttpErrorInfo

abbrev pub zero_probe : ProbeResult
zero_probe = record { success = false; latency_ms = 0; last_checked = zero_time; error = none }

pub record RequestOutcome : Type 0 where
  pub last_success : Option Time
  pub last_failure : Option Time
  pub last_error : Option HttpErrorInfo
  pub consecutive_failures : ℕ

abbrev pub zero_outcome : RequestOutcome
zero_outcome = record {
  last_success = none;
  last_failure = none;
  last_error = none;
  consecutive_failures = 0;
}

pub record RateLimitState : Type 0 where
  pub limited : Bool
  pub last_429 : Option Time
  pub recovery_window : Option ℕ

abbrev pub zero_rate_limit : RateLimitState
zero_rate_limit = record { limited = false; last_429 = none; recovery_window = none }

pub record ModelsInfo : Type 0 where
  pub discovered : ℕ
  pub last_updated : Time

abbrev pub zero_models : ModelsInfo
zero_models = record { discovered = 0; last_updated = zero_time }

pub record MetricsInfo : Type 0 where
  pub total_requests : ℕ
  pub total_failures : ℕ
  pub consecutive_failures : ℕ

abbrev pub zero_metrics : MetricsInfo
zero_metrics = record { total_requests = 0; total_failures = 0; consecutive_failures = 0 }

pub record StateManager : Type 0 where
  pub blocked : GoMap Time
  pub exhausted : GoMap Time
  pub probe_results : GoMap ProbeResult
  pub request_outcomes : GoMap RequestOutcome
  pub rate_limit_state : GoMap RateLimitState
  pub models_info : GoMap ModelsInfo
  pub metrics : GoMap MetricsInfo

-- The health reader that the constructor stores is never read.
unfoldable pub new : StateManager
new = record {
  blocked = GoMap.empty;
  exhausted = GoMap.empty;
  probe_results = GoMap.empty;
  request_outcomes = GoMap.empty;
  rate_limit_state = GoMap.empty;
  models_info = GoMap.empty;
  metrics = GoMap.empty;
}

-- The error of a probe, classified.
unfoldable pub probe_error : Error → HttpErrorInfo
probe_error e = elim (assert_http e) [
  | none ↦ record { type = unknown; message = error_message e; http_code = some 0 }
  | some h ↦ record {
    type =
        if h.status_code == 429
        then rate_limit
        else if h.status_code == 404
        then invalid_endpoint
        else unknown;
    message = error_message e;
    http_code = some h.status_code;
  }
]

unfoldable pub record_probe_result :
    Time → String → Bool → ℕ → Option Error → StateManager → StateManager
record_probe_result now id success latency err sm = record sm {
  probe_results = GoMap.put sm.probe_results id (record {
    success = success;
    latency_ms = latency;
    last_checked = now;
    error = elim err [ none ↦ none | some e ↦ some (probe_error e) ];
  });
}

-- The counters of a provider; a missing entry is created with zeros.
abbrev pub metrics_of : StateManager → String → MetricsInfo
metrics_of sm id = or_zero zero_metrics (GoMap.get sm.metrics id)

unfoldable pub succeeded : Time → Option RequestOutcome → RequestOutcome
succeeded now (some outcome) = record outcome { last_success = some now; consecutive_failures = 0 }
succeeded now none = record zero_outcome { last_success = some now }

unfoldable pub record_request_success : Time → String → StateManager → StateManager
record_request_success now id sm =
    let m = metrics_of sm id in
    record sm {
      metrics = GoMap.put sm.metrics id (record m { total_requests = m.total_requests + 1 });
      request_outcomes =
          GoMap.put sm.request_outcomes id (succeeded now (GoMap.get sm.request_outcomes id));
    }

-- The classification at the head of `RecordRequestFailure`: the type and the code.
unfoldable pub classify_failure : Error → ErrorType × ℕ
classify_failure e = elim (assert_http e) [
  | some h ↦ (
    if h.status_code == 429
        then rate_limit
        else if h.status_code == 404
        then deprecated_model
        else if h.status_code == 405
        then invalid_endpoint
        else unknown,
    h.status_code,
  )
  | none ↦ (if is_deadline e then timeout else empty_response, 0)
]

unfoldable pub failure_info : Error → HttpErrorInfo
unfolding classify_failure
failure_info e =
    let (type, code) = classify_failure e in
    record { type = type; message = error_message e; http_code = some code }

unfoldable pub failed : Time → Error → Option RequestOutcome → RequestOutcome
unfolding failure_info
failed now e (some outcome) = record outcome {
  last_failure = some now;
  last_error = some (failure_info e);
  consecutive_failures = outcome.consecutive_failures + 1;
}
failed now e none = record zero_outcome {
  last_failure = some now;
  last_error = some (failure_info e);
  consecutive_failures = 1;
}

abbrev pub is_rate_limit : ErrorType → Bool
is_rate_limit rate_limit = true
is_rate_limit _ = false

unfoldable pub record_request_failure : Time → String → Error → StateManager → StateManager
record_request_failure now id e sm =
    let m = metrics_of sm id in
    record sm {
      metrics = GoMap.put sm.metrics id (record m { total_failures = m.total_failures + 1 });
      request_outcomes =
          GoMap.put sm.request_outcomes id (failed now e (GoMap.get sm.request_outcomes id));
      rate_limit_state = GoMap.put sm.rate_limit_state id (
          if is_rate_limit (classify_failure e).0
          then record { limited = true; last_429 = some now; recovery_window = some 300 }
          else zero_rate_limit);
    }

unfoldable pub record_models_discovered : Time → String → ℕ → StateManager → StateManager
record_models_discovered now id count sm = record sm {
  models_info = GoMap.put sm.models_info id (record { discovered = count; last_updated = now });
}

unfoldable pub block : Time → String → Duration → StateManager → StateManager
block now id d sm = record sm { blocked = GoMap.put sm.blocked id (add now d) }

unfoldable pub set_exhausted : String → Time → StateManager → StateManager
set_exhausted id reset_at sm = record sm { exhausted = GoMap.put sm.exhausted id reset_at }
