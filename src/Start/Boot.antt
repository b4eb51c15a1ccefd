-- ===== src/Start/Boot.antt =====
-- `main`, `runStartupProbes` and `discoverModels` of cmd/localrouter/main.go. The saved states are
-- those that `LoadAllProviderStates` found; what is logged is left out.
use local_router.Prelude.{
  ℕ, String, Bool, true, false, ◌&&◌, Option, none, some, List, [], ◌∷◌, map, if◌then◌else◌,
  or_zero, str_eq, ltb,
}
use local_router.Prelude.Int.{ℤ, pos, pos_part, ltb_ℤ, leb_ℤ, eqb_ℤ}
use local_router.Prelude.Time.{Time, Duration, before}
use local_router.GoMap
use local_router.GoMap.{GoMap}
use local_router.Provider.{Provider, Error, Outcome, ok, err, decimal}
use local_router.Config.{Config}
use local_router.Limits.Window.{WindowState}
use local_router.Limits.Window
use local_router.Limits.Tracker.{
  Tracker, set_concurrency_limits, restore_windows, restore_active_requests,
}
use local_router.Limits.Tracker
use local_router.Health.{Monitor, set_ready}
use local_router.Health
use local_router.Metrics
use local_router.Registry.{Registry}
use local_router.Registry
use local_router.Registry.Discovery.{set_discovered_models}
use local_router.State.Manager.{Manager, block, block_until, set_exhausted}
use local_router.State.Manager as Providers
use local_router.State.Report.{StateManager, record_probe_result}
use local_router.State.Report
use local_router.State.Report.Status.{ProviderState, LimitWindowSave}
use local_router.Router.{Services, Router}
use local_router.Adapters.Http.{Send}
use local_router.Adapters.Factory.{Codecs}
use local_router.Start.Build.{build_providers, concurrency_limits, model_concurrency_limits}

abbrev pub latency_threshold : Config → ℤ
latency_threshold cfg =
    if eqb_ℤ cfg.latency_threshold_ms (pos 0) then pos 2000 else cfg.latency_threshold_ms

-- The entries of a map, as `range` goes through them.
unfoldable pub ranged : GoMap ℤ → List (String × ℤ)
ranged m = map (λ id. (id, or_zero (pos 0) (GoMap.get m id))) (GoMap.keys m)

unfoldable pub new_tracker : GoMap (List Window.Config) → GoMap ℤ → Tracker
unfolding ranged
new_tracker configs slots = set_concurrency_limits (ranged slots) (Tracker.new configs)

abbrev pub window_state : LimitWindowSave → WindowState
window_state w = record { count = w.count; reset_at = w.reset_at }

abbrev is_cons {ℓ} : {A : Type ℓ} → List A → Bool
is_cons [] = false
is_cons (x ∷ xs) = true

unfoldable pub restore_blocked : Time → String → Option Time → Manager → Manager
restore_blocked now id none st = st
restore_blocked now id (some until) st = if before now until then block_until id until st else st

unfoldable pub restore_exhausted : Time → String → Option Time → Manager → Manager
restore_exhausted now id none st = st
restore_exhausted now id (some until) st =
    if before now until then set_exhausted id until st else st

-- One round of the loop over the saved states.
unfoldable pub restore_state : Time → String → ProviderState → Manager × Tracker → Manager × Tracker
unfolding restore_blocked restore_exhausted
restore_state now id ps (st, lim) =
    let windows =
      if is_cons ps.limit_windows
      then restore_windows now id (map window_state ps.limit_windows) lim
      else lim in
    (
      restore_exhausted now id ps.exhausted_until (restore_blocked now id ps.blocked_until st),
      if ltb 0 ps.active_requests
          then restore_active_requests id (pos ps.active_requests) windows
          else windows,
    )

unfoldable pub restore_saved :
    Time → List (String × ProviderState) → Manager × Tracker → Manager × Tracker
unfolding restore_state
restore_saved now [] x = x
restore_saved now ((id, ps) ∷ saved) x = restore_saved now saved (restore_state now id ps x)

-- From the loaded configuration to the router: `none` where `main` ends with a fatal error.
unfoldable pub boot :
    Send Services
    → Codecs
    → (List ℕ → Option Duration)
    → Time
    → List (String × ProviderState)
    → Config
    → Option (Router × Services)
unfolding build_providers concurrency_limits model_concurrency_limits new_tracker restore_saved
boot send codecs parse_duration now saved cfg =
    let (built, mon) = build_providers send codecs cfg (Health.new (latency_threshold cfg)) in
    elim built [
      | none ↦ none
      | some b ↦
          let (st, lim) =
            restore_saved now saved
              (Providers.new, new_tracker b.limits (concurrency_limits cfg)) in
          some (
            record {
              providers = b.providers;
              registry = Registry.build cfg.providers cfg.default_model;
              default_model = cfg.default_model;
              recovery_windows = b.recovery_windows;
              parse_duration = parse_duration;
            },
            record {
              now = now;
              health = mon;
              state = Providers.set_save_hook st;
              report = some Report.new;
              limits = Tracker.set_save_hook lim;
              model_limits = some (new_tracker b.model_limits (model_concurrency_limits cfg));
              metrics = Metrics.new;
              generation = 0;
            },
          )
    ]

-- The port of the flag, else of the configuration, else 8080.
unfoldable pub listen_port : String → Config → String
unfolding decimal
listen_port port cfg =
    let configured =
      if str_eq port "" && ltb_ℤ (pos 0) cfg.port then decimal 20 (pos_part cfg.port) else port in
    if str_eq configured "" then "8080" else configured

unfoldable pub remote_set : List String → GoMap Bool
remote_set [] = GoMap.empty
remote_set (id ∷ ids) = GoMap.put (remote_set ids) id true

-- An hour for a provider without a recovery window.
unfoldable pub probe_window : GoMap Duration → String → Duration
probe_window windows id =
    let d = or_zero (pos 0) (GoMap.get windows id) in
    if leb_ℤ d (pos 0) then pos 3600000000000 else d

-- What the goroutine of `runStartupProbes` does with the result of its probe.
unfoldable pub after_probe :
    Time
    → GoMap Bool
    → GoMap Duration
    → String
    → Option Error
    → Monitor × Manager
    → Monitor × Manager
unfolding probe_window
after_probe now remotes windows id none (mon, st) = (set_ready id mon, st)
after_probe now remotes windows id (some e) (mon, st) = (
  mon,
  if or_zero false (GoMap.get remotes id) then block now id (probe_window windows id) st else st,
)

-- The goroutines' results in the order in which they come, each with the clock as it was then.
unfoldable pub after_probes :
    GoMap Bool
    → GoMap Duration
    → List (String × Time × Option Error)
    → Monitor × Manager
    → Monitor × Manager
unfolding after_probe
after_probes remotes windows [] x = x
after_probes remotes windows ((id, now, result) ∷ results) x =
    after_probes remotes windows results (after_probe now remotes windows id result x)

-- One goroutine of `runStartupProbes`.
unfoldable pub probe :
    GoMap Bool → GoMap Duration → String → Provider Services → Services → Services
unfolding after_probe
probe remotes windows id p s =
    let (result, s') = p.health_check s in
    let (mon, st) = after_probe s'.now remotes windows id result (s'.health, s'.state) in
    record s' { health = mon; state = st }

-- What the goroutine of `discoverModels` does with the models that its provider lists.
unfoldable pub after_listing : String → String → Outcome (List String) → Registry → Registry
after_listing default_model id (err e) reg = reg
after_listing default_model id (ok models) reg = set_discovered_models id models default_model reg

unfoldable pub discover :
    String → String → Provider Services → Registry × Services → Registry × Services
unfolding after_listing
discover default_model id p (reg, s) = elim p.list_models [
  | none ↦ (reg, s)
  | some list ↦ let (listed, s') = list s in (after_listing default_model id listed reg, s')
]

unfoldable pub update_provider_state :
    Time → String → Bool → ℕ → Option Error → StateManager → StateManager
update_provider_state now id success latency e sr = elim e [
  | none ↦ record_probe_result now id true latency none sr
  | some x ↦
      if success
      then record_probe_result now id true latency none sr
      else record_probe_result now id false latency (some x) sr
]
