-- ===== src/Server/Pages.antt =====
-- internal/server/handlers.go and the record of internal/server/server.go.
use Prim.Native.String.{◌++◌ as str_append}
use local_router.Prelude.{
  ℕ, String, Bool, true, false, Option, none, some, List, [], ◌∷◌, ◌++◌, if◌then◌else◌, or_zero,
  str_eq,
}
use local_router.Prelude.Int.{ℤ, pos}
use local_router.Prelude.Time.{Time, Duration, is_zero}
use local_router.GoMap
use local_router.GoMap.{GoMap}
use local_router.Limits.Window.{WindowState}
use local_router.Limits.Window
use local_router.Limits.Tracker.{
  Tracker, is_blocked, model_blocked_until, configs_for, window_states, concurrency_limit,
}
use local_router.Metrics.{Snapshot, ProviderSnapshot, snapshot}
use local_router.Registry.{Registry, Entry, global_list, for_provider_id}
use local_router.State.Manager.{State, available, state_string, blocked_until}
use local_router.State.Report.{
  StateManager, ProviderStatus, healthy, degraded, blocked, unreachable, misconfigured,
}
use local_router.State.Report.Status.{
  ProviderState, GlobalState, get_global_state, get_all_provider_states,
}
use local_router.Router.{Services}
use local_router.Router.Selection.{is_available, provider_state}
use local_router.Start.Boot.{remote_set}

-- The fields of `Server` beside the router, which are those of the start of the program. A nil
-- pointer is `none`.
pub record Server : Type 0 where
  pub registry : Registry
  pub report_state : Option StateManager
  pub limits : Option Tracker
  pub model_limits : Option Tracker
  pub addr : String

-- newWithReport
unfoldable pub new_with_report :
    Registry → Option StateManager → Option Tracker → Option Tracker → String → Server
new_with_report registry report limits model_limits addr = record {
  registry = registry;
  report_state = report;
  limits = limits;
  model_limits = model_limits;
  addr = if str_eq addr "" then ":8080" else addr;
}

-- ### /health

pub record ModelLimitWindow : Type 0 where
  pub requests : ℤ
  pub window : String
  pub used : ℕ
  pub reset_at : Option Time

pub record ModelHealthEntry : Type 0 where
  pub id : String
  pub priority : ℤ
  pub state : String
  pub blocked_until : Option Time
  pub limits : List ModelLimitWindow

pub record HealthProviderEntry : Type 0 where
  pub id : String
  pub is_remote : Bool
  pub state : String
  pub latency_ms : ℤ
  pub blocked_until : Option Time
  pub concurrent_active : ℤ
  pub concurrent_limit : ℤ
  pub models : List ModelHealthEntry

-- `show` is `Duration.String`.
unfoldable pub window_entry :
    (Duration → String) → Window.Config → Option WindowState → ModelLimitWindow
window_entry show cfg none = record {
  requests = cfg.requests;
  window = show cfg.window;
  used = 0;
  reset_at = none;
}
window_entry show cfg (some w) =
    if is_zero w.reset_at
    then record { requests = cfg.requests; window = show cfg.window; used = 0; reset_at = none }
    else record {
      requests = cfg.requests;
      window = show cfg.window;
      used = w.count;
      reset_at = some w.reset_at;
    }

-- `for i, cfg := range cfgs`
unfoldable pub window_entries :
    (Duration → String) → List Window.Config → List WindowState → List ModelLimitWindow
unfolding window_entry
window_entries show [] ws = []
window_entries show (cfg ∷ cfgs) [] = window_entry show cfg none ∷ window_entries show cfgs []
window_entries show (cfg ∷ cfgs) (w ∷ ws) =
    window_entry show cfg (some w) ∷ window_entries show cfgs ws

abbrev pub entry_key : String → Entry → String
entry_key id m = str_append id (str_append "/" m.model_id)

abbrev pub nonzero : Time → Option Time
nonzero t = if is_zero t then none else some t

abbrev pub or_no_windows :
    (Duration → String) → Option (List Window.Config) → List WindowState → List ModelLimitWindow
or_no_windows show none ws = []
or_no_windows show (some cfgs) ws = window_entries show cfgs ws

-- The entry of a model, from the answer of `IsBlocked` on.
unfoldable pub model_entry_of :
    (Duration → String) → String → Entry → Bool → Tracker → ModelHealthEntry
unfolding window_entries model_blocked_until
model_entry_of show id m is_held t = record {
  id = m.model_id;
  priority = m.priority;
  state = if is_held then "blocked" else "available";
  blocked_until = if is_held then nonzero (model_blocked_until t (entry_key id m)) else none;
  limits = or_no_windows show (configs_for t (entry_key id m)) (window_states t (entry_key id m));
}

-- `for _, m := range models`; `IsBlocked` may change the tracker.
unfoldable pub model_entries :
    (Duration → String) → Time → String → List Entry → Tracker → Tracker × List ModelHealthEntry
unfolding model_entry_of
model_entries show now id [] t = (t, [])
model_entries show now id (m ∷ ms) t =
    let (t', is_held) = is_blocked now (entry_key id m) t in
    let (t'', rest) = model_entries show now id ms t' in
    (t'', model_entry_of show id m is_held t' ∷ rest)

unfoldable pub models_of :
    (Duration → String)
    → Time
    → Registry
    → String
    → Option Tracker
    → Option Tracker × List ModelHealthEntry
unfolding model_entries
models_of show now registry id none = (none, [])
models_of show now registry id (some t) =
    let (t', entries) = model_entries show now id (for_provider_id registry id) t in
    (some t', entries)

abbrev pub limit_of : Option Tracker → String → ℤ
limit_of none id = pos 0
limit_of (some t) id = concurrency_limit t id

abbrev is_held_state : State → Bool
is_held_state available = false
is_held_state State.unhealthy = false
is_held_state State.exhausted = false
is_held_state State.blocked = true

abbrev measured : Option ProviderSnapshot → ℤ × ℤ
measured none = (pos 0, pos 0)
measured (some p) = (p.latency_ms, p.concurrent_active)

-- The entry of a provider, without the loop over its models.
unfoldable pub provider_entry_of :
    Server → Services → Snapshot → String → List ModelHealthEntry → HealthProviderEntry
provider_entry_of server s snap id models =
    let st = provider_state s id in
    let (latency, active) = measured (GoMap.get snap.providers id) in
    record {
      id = id;
      is_remote = or_zero false (GoMap.get (remote_set server.registry.remote_ids) id);
      state = state_string st;
      latency_ms = latency;
      blocked_until = if is_held_state st then some (blocked_until s.state id) else none;
      concurrent_active = active;
      concurrent_limit = limit_of server.limits id;
      models = models;
    }

-- `for _, id := range providerIDs`
unfoldable pub provider_entries :
    (Duration → String)
    → Server
    → Services
    → Snapshot
    → List String
    → Option Tracker
    → Option Tracker × List HealthProviderEntry
unfolding models_of provider_entry_of
provider_entries show server s snap [] t = (t, [])
provider_entries show server s snap (id ∷ ids) t =
    let (t', models) = models_of show s.now server.registry id t in
    let (t'', rest) = provider_entries show server s snap ids t' in
    (t'', provider_entry_of server s snap id models ∷ rest)

unfoldable pub handle_health :
    (Duration → String) → Services → Server → Server × List HealthProviderEntry
unfolding provider_entries
handle_health show s server =
    let (t, entries) =
      provider_entries show server s (snapshot s.metrics) server.registry.provider_order
        server.model_limits in
    (record server { model_limits = t }, entries)

unfoldable pub handle_metrics : Services → Snapshot
handle_metrics s = snapshot s.metrics

-- ### /models

pub record ModelEntry : Type 0 where
  pub id : String
  pub object : String
  pub priority : ℤ
  pub is_free : Bool
  pub state : String

abbrev pub auto_entry : ModelEntry
auto_entry = record { id = "auto"; object = "model"; priority = pos 0; is_free = false; state = "" }

abbrev pub listed_entry : Entry → ModelEntry
listed_entry e = record {
  id = e.model_id;
  object = "model";
  priority = e.priority;
  is_free = e.is_free;
  state = "available";
}

-- `for _, e := range s.registry.GlobalList()`
unfoldable pub append_models : Services → List Entry → List ModelEntry → List ModelEntry
append_models s [] data_ = data_
append_models s (e ∷ es) data_ =
    append_models s es (
      if is_available (provider_state s e.provider_id) then data_ ++ listed_entry e ∷ [] else data_)

unfoldable pub handle_models : Services → Server → List ModelEntry
unfolding append_models
handle_models s server = append_models s (global_list server.registry) (auto_entry ∷ [])

-- ### /report

pub record ReportData : Type 0 where
  pub global : GlobalState
  pub healthy_providers : List ProviderState
  pub degraded_blocked : List ProviderState
  pub unreachable_misconfigured : List ProviderState
  pub all_providers : List ProviderState

unfoldable pub file_state : ProviderState → ReportData → ProviderStatus → ReportData
file_state p d healthy = record d { healthy_providers = d.healthy_providers ++ p ∷ [] }
file_state p d degraded = record d { degraded_blocked = d.degraded_blocked ++ p ∷ [] }
file_state p d blocked = record d { degraded_blocked = d.degraded_blocked ++ p ∷ [] }
file_state p d unreachable = record d {
  unreachable_misconfigured = d.unreachable_misconfigured ++ p ∷ [];
}
file_state p d misconfigured = record d {
  unreachable_misconfigured = d.unreachable_misconfigured ++ p ∷ [];
}

-- `for _, p := range allStates`
unfoldable pub file_states : List ProviderState → ReportData → ReportData
unfolding file_state
file_states [] d = d
file_states (p ∷ ps) d = file_states ps (file_state p d p.status)

unfoldable pub report_data : Time → StateManager → ReportData
unfolding file_states
report_data now sm =
    let all = get_all_provider_states now sm in
    file_states all (record {
      global = get_global_state now sm;
      healthy_providers = [];
      degraded_blocked = [];
      unreachable_misconfigured = [];
      all_providers = all;
    })

pub data ReportAnswer : Type 0 where
  report_error : ℕ → String → ReportAnswer
  page : String → ReportAnswer

-- `render` reads and executes the template; `none` is an error of either step, with its text.
unfoldable pub report_answer :
    (ReportData → Option String) → String → Time → Option StateManager → ReportAnswer
unfolding report_data
report_answer render broken now none = report_error 500 "Reporting not available"
report_answer render broken now (some sm) = elim (render (report_data now sm)) [
  | none ↦ report_error 500 broken
  | some html ↦ page html
]

unfoldable pub handle_report : (ReportData → Option String) → String → Time → Server → ReportAnswer
unfolding report_answer
handle_report render broken now server = report_answer render broken now server.report_state
