-- ===== src/Router/Failover.antt =====
-- What `Route` and `Stream` of internal/router/router.go do after a provider has answered or failed,
-- once its slots are released.
use local_router.Prelude.{
  String, false, not, ◌&&◌, Option, none, some, List, if◌then◌else◌, or_zero,
}
use local_router.Prelude.Int.{pos, ◌+ℤ◌, eqb_ℤ}
use local_router.Prelude.Time.{Duration, add}
use local_router.GoMap
use local_router.Provider.{Error, other}
use local_router.State.Manager
use local_router.State.Report.{
  StateManager, record_request_failure, record_request_success, record_probe_result,
}
use local_router.Limits.Tracker.{Tracker}
use local_router.Limits.Tracker
use local_router.Metrics.{Collector}
use local_router.Registry.{Entry}
use local_router.Router.{Services, Router, Round, retry, filter_provider, filter_entry, model_key}
use local_router.Router.Retry.{is_model_level_error, retry_after_duration}

-- Every error blocks for the provider's window.
abbrev pub classify_error : Error → Duration → Duration
classify_error err window = window

abbrev pub recovery_window : Router → String → Duration
recovery_window r id = or_zero (pos 0) (GoMap.get r.recovery_windows id)

-- A missing window is zero, for which a model cools down for sixty seconds.
unfoldable pub cooldown : Router → String → Error → Duration
cooldown r id err =
    let window = recovery_window r id in
    retry_after_duration r.parse_duration err
      (if eqb_ℤ window (pos 0) then pos 60000000000 else window)

abbrev map_report : (StateManager → StateManager) → Option StateManager → Option StateManager
map_report f none = none
map_report f (some report) = some (f report)

abbrev count_failure : Collector → Collector
count_failure c = record c { failures = c.failures +ℤ pos 1 }

-- A failure goes to the report and to the metrics.
unfoldable pub record_failure : String → Error → Services → Services
record_failure id err s = record s {
  report = map_report (record_request_failure s.now id err) s.report;
  metrics = count_failure s.metrics;
}

unfoldable pub block_provider : Router → String → Error → Services → Services
block_provider r id err s = record s {
  state = Manager.block s.now id (classify_error err (recovery_window r id)) s.state;
  metrics = record s.metrics { provider_block_events = s.metrics.provider_block_events +ℤ pos 1 };
}

unfoldable pub report_probe : String → Error → Services → Services
report_probe id err s = record s {
  report = map_report (record_probe_result s.now id false 0 (some err)) s.report;
}

unfoldable pub cool_model : Option Tracker → Router → String → Entry → Error → Services → Services
unfolding cooldown
cool_model none r id e err s = s
cool_model (some tracker) r id e err s = record s {
  model_limits = some (Tracker.block (model_key e) (add s.now (cooldown r id err)) tracker);
}

-- The error branch after `Complete`.
unfoldable pub after_complete_error :
    {A : Type 0} → Router → String → Entry → List Entry → Error → Services → Round A
unfolding record_failure block_provider report_probe cool_model
after_complete_error r id e entries err s =
    let s' = record_failure id err s in
    if is_model_level_error err && not e.is_remote
    then retry (filter_entry entries e.provider_id e.model_id)
        (cool_model s'.model_limits r id e err s')
    else retry (filter_provider entries id)
        (if e.is_remote then report_probe id err (block_provider r id err s') else s')

-- The error branch after `Stream`, which tells the report of no probe.
unfoldable pub after_stream_error :
    {A : Type 0} → Router → String → Entry → List Entry → Error → Services → Round A
unfolding record_failure block_provider cool_model
after_stream_error r id e entries err s =
    let s' = record_failure id err s in
    if is_model_level_error err && not e.is_remote
    then retry (filter_entry entries e.provider_id e.model_id)
        (cool_model s'.model_limits r id e err s')
    else retry (filter_provider entries id) (if e.is_remote then block_provider r id err s' else s')

-- The channel was closed before its first chunk.
unfoldable pub after_empty_stream : {A : Type 0} → String → List Entry → Services → Round A
unfolding record_failure
after_empty_stream id entries s =
    retry (filter_provider entries id) (record_failure id (other "empty response") s)

-- The first chunk carried an error, which the report counts as no failed request.
unfoldable pub after_chunk_error :
    {A : Type 0} → Router → String → Entry → List Entry → Error → Services → Round A
unfolding block_provider report_probe
after_chunk_error r id e entries err s =
    let s' = record s { metrics = count_failure s.metrics } in
    retry (filter_provider entries id)
      (if e.is_remote then report_probe id err (block_provider r id err s') else s')

unfoldable pub record_success : String → Entry → Services → Services
record_success id e s =
    let c = record s.metrics { requests = s.metrics.requests +ℤ pos 1 } in
    record s {
      report = map_report (record_request_success s.now id) s.report;
      metrics =
          if e.is_remote
          then record c { remote_requests = c.remote_requests +ℤ pos 1 }
          else record c { local_requests = c.local_requests +ℤ pos 1 };
    }
