-- ===== src/Start/Examples.antt =====
-- The theorems on the start and on reloads, at concrete configurations.
use local_router.Prelude.{
  ◌⊎◌, ℕ, zero, suc, ◌+◌, ◌≡◌, refl, String, true, false, ◌||◌, ◌&&◌, not, Option, none, some, List,
  [], ◌∷◌, All,
}
use local_router.Prelude.Int.{pos}
use local_router.Prelude.Time.{Duration}
use local_router.GoMap
use local_router.GoMap.{GoMap}
use local_router.Provider.{Provider, Request, Response, Error, other, err}
use local_router.Config.{LimitEntry, ProviderConfig, Config}
use local_router.Config.Checks.{
  zero_provider, validate, check_ids, check_providers, check_provider, check_type, check_priorities,
  check_limits, check_model_limits, check_default,
}
use local_router.Health.{Monitor, add_node, is_ready}
use local_router.Health
use local_router.State.Manager.{blocked_until}
use local_router.State.Manager
use local_router.Limits.Tracker
use local_router.Metrics
use local_router.Registry
use local_router.Registry.{Entry, zero_entry}
use local_router.Router.{retry, Services, Router, Routers, Reply}
use local_router.Router.Calls.{complete_attempt, route, stream, Streaming}
use local_router.Adapters.Http.{unreachable, replied, Body, Send}
use local_router.Adapters.Anthropic
use local_router.Adapters.Factory.{Codecs}
use local_router.Adapters.Factory
use local_router.Start.Build.{Built, build_providers, build_from, add_made}
use local_router.Start.Boot.{boot, after_probes, probe_window}
use local_router.Start.Reload.{reload}
use local_router.Start.Refused.{left_by, complete_attempt-refused}
use local_router.Router.Blocking.{services_of}
use local_router.State.Manager.{State, get_state}
use local_router.Start.Built.{Holds, build_providers-Holds}
use local_router.Start.Reloaded.{
  IsRunning, booted, reloaded, running_returns, HasLimits, IsRegistered, reload-HasLimits,
}
use local_router.Start.Watched.{watches, activates, names, reload-watches}
use local_router.Config.Load
use local_router.Config.Load.{
  Yaml, Loaded, loaded, failed, load, extract_raw_api_keys, put_keys, load_text, load_old_schema,
  mark_skipped, parse_durations, parse_provider, parse_recovery, parse_limits, parse_models,
  parse_window,
}
use local_router.Config.Checks.{is_new_schema}
use local_router.Config.Priorities.{fill_priorities, fill_providers}
use local_router.Start.Loaded.{HasWindows, load-builds}
use local_router.Start.Probed.{after_probes-results, result_of}

abbrev down : Error
down = other "connection refused"

abbrev send : {S : Type 0} → Send S
send r s = (unreachable down, s)

abbrev codecs : Codecs
codecs = record {
  open_ai = record {
    marshal = λ r. r.model;
    decode = λ s. err down;
    decode_chunk = λ s. err down;
    decode_models = λ s. err down;
  };
  decode_tags = λ s. err down;
  anthropic = record { marshal = λ r. ""; decode = λ s. err down; decode_delta = λ s. err down };
  google = record { marshal = λ r. ""; decode = λ s. err down };
  cohere = record { marshal = λ r. ""; decode = λ s. err down; decode_delta = λ s. err down };
}

abbrev limit : LimitEntry
limit = record {
  requests = pos 10;
  window = "1m";
  concurrent_requests = pos 2;
  window_dur = pos 60000000000;
}

abbrev near : ProviderConfig
near = record zero_provider { id = "near"; type = "ollama"; endpoint = "http://localhost:11434" }

abbrev far : ProviderConfig
far = record zero_provider { id = "far"; type = "google"; is_remote = true; limits = limit ∷ [] }

abbrev idle : ProviderConfig
idle = record zero_provider { id = "idle"; type = "cohere"; is_remote = true; skipped = true }

abbrev config : Config
config = record {
  version = pos 2;
  port = pos 8080;
  default_model = "";
  latency_threshold_ms = pos 0;
  fallback_enabled = true;
  level = "INFO";
  providers = near ∷ far ∷ idle ∷ [];
  nodes = [];
  remotes = [];
}

abbrev old_config : Config
old_config = record config {
  providers = near ∷ record near { id = "gone" } ∷ record idle { skipped = false } ∷ [];
}

abbrev trim : String → String
trim s = s

config-valid : validate trim config ≡ none
unfolding validate check_ids check_providers check_provider check_type check_priorities check_limits
    check_model_limits check_default GoMap.get GoMap.put GoMap.empty
config-valid = refl

build_providers-Holds_example :
    (b : Built (Unit {0})) × ((build_providers send codecs config (Health.new (pos 2000))).0
      ≡ some b)
    × All (Holds send codecs b) config.providers
build_providers-Holds_example =
    build_providers-Holds send codecs trim config (Health.new (pos 2000)) config-valid

abbrev parse_duration : List ℕ → Option Duration
parse_duration text = none

abbrev no_services : Services
no_services = record {
  now = 0;
  health = Health.new (pos 0);
  state = Manager.new;
  report = none;
  limits = Tracker.new GoMap.empty;
  model_limits = none;
  metrics = Metrics.new;
  generation = 0;
}

abbrev no_router : Router
no_router = record {
  providers = GoMap.empty;
  registry = Registry.build [] "";
  default_model = "";
  recovery_windows = GoMap.empty;
  parse_duration = parse_duration;
}

abbrev or_nothing : Option (Router × Services) → Router × Services
or_nothing none = (no_router, no_services)
or_nothing (some x) = x

abbrev running : Router × Services
running = or_nothing (boot send codecs parse_duration 100 [] old_config)

abbrev request : Request
request = record {
  model = "auto";
  messages = [];
  stream = false;
  api_key = "";
  temperature = none;
  top_p = none;
  max_tokens = none;
  seed = none;
}

-- The program starts with one configuration and is reloaded with another.
abbrev reloaded_router : Router
reloaded_router = (reload send codecs old_config config running).0

-- The reload comes in the middle of the request or before it.
abbrev routers : Routers
routers zero = running.0
routers (suc n) = reloaded_router

routers-IsRunning : (n : ℕ) → IsRunning send codecs (routers n)
unfolding boot build_providers build_from add_made Factory.new
routers-IsRunning zero = booted parse_duration 100 [] old_config running.0 running.1 refl
routers-IsRunning (suc n) =
    reloaded old_config config running.0 running.1
      (booted parse_duration 100 [] old_config running.0 running.1 refl)

running_returns_example :
    ((y : Reply Response × Services) × (route routers request no_services ≡ some y))
    × ((y : Reply Streaming × Services) × (stream routers request no_services ≡ some y))
running_returns_example = running_returns send codecs routers request no_services routers-IsRunning

reload-HasLimits_example :
    let after = reload send codecs old_config (record config { version = pos 4 }) running in
    All (λ c. IsRegistered send codecs after.0 c × HasLimits after.1 c) config.providers
unfolding Load.reload
reload-HasLimits_example =
    reload-HasLimits send codecs trim config old_config (record config { version = pos 4 })
      (record { version = 3; current = old_config }) running.0 running.1 config-valid refl

-- "gone" is watched no more; "idle", which is skipped now, still is.
reload-watches_example :
    watches (reload send codecs old_config config (running.0, running.1)).1.health "idle" ≡ (
      activates config.providers "idle"
      || (watches running.1.health "idle"
          && (names config.providers "idle" || not (names old_config.providers "idle"))))
reload-watches_example =
    let (b, built, holds) =
      build_providers-Holds send codecs trim config running.1.health config-valid in
    reload-watches send codecs old_config config running.0 running.1 b "idle" built

-- ### A service that refuses

abbrev refusal : Body
refusal = record { text = ""; head = "slow down"; lines = []; scan_error = none }

-- It answers a while later.
abbrev send_refusal : Send Services
send_refusal r s = (replied 429 refusal, record s { now = s.now + 7 })

abbrev claude : ProviderConfig
claude = record zero_provider { id = "c"; type = "anthropic"; api_key = "key"; is_remote = true }

abbrev refused : Provider Services
refused =
    Anthropic.as_provider send_refusal codecs.anthropic
      (Anthropic.new "c" "key" "" (Factory.timeout_of claude) (Factory.stream_timeout_of claude))

abbrev claude_entry : Entry
claude_entry = record zero_entry { provider_id = "c"; model_id = "m"; is_remote = true }

abbrev claude_router : Router
claude_router = record no_router { recovery_windows = GoMap.put GoMap.empty "c" (pos 50) }

complete_attempt-refused_example :
    let round =
      complete_attempt
        (λ n. claude_router)
        request
        refused
        claude_entry
        (claude_entry ∷ [])
        no_services in
    (round ≡ retry (left_by 429 "c" claude_entry (claude_entry ∷ [])) (services_of round))
    × (get_state 30 (Health.new (pos 0)) (services_of round).state "c" ≡ State.blocked)
unfolding Factory.new Anthropic.as_provider Anthropic.complete blocked_until Manager.new GoMap.get
    GoMap.put GoMap.empty
complete_attempt-refused_example =
    complete_attempt-refused send_refusal codecs claude refused (λ n. claude_router) request
      claude_entry (claude_entry ∷ []) no_services 429 refusal "c" 30 (Health.new (pos 0)) refl
      (λ r. refl) refl refl

abbrev monitor : Monitor
monitor = add_node "far" (add_node "near" (Health.new (pos 2000)))

after_probes-results_example :
    let after =
      after_probes
        (GoMap.put GoMap.empty "far" true)
        GoMap.empty
        (("far", 100, some down) ∷ ("near", 90, none) ∷ [])
        (monitor, Manager.new) in
    (is_ready after.0 "far" ≡ false) × (blocked_until after.1 "far" ≡ 3600000000100)
unfolding result_of probe_window is_ready add_node Health.new Manager.new blocked_until GoMap.get
    GoMap.put GoMap.empty
after_probes-results_example =
    after_probes-results (GoMap.put GoMap.empty "far" true) GoMap.empty
      (("far", 100, some down) ∷ ("near", 90, none) ∷ []) monitor Manager.new "far"
      ((refl, tt), (tt, tt))

abbrev yaml : Yaml
yaml = record {
  raw_keys = λ text. some (("far", "${FAR_KEY}") ∷ [], []);
  expand_env = λ text. text;
  decode = λ text. some config;
}

abbrev parse_text : String → Option Duration
parse_text text = some (pos 60000000000)

abbrev or_config : Loaded → Config
or_config (loaded cfg) = cfg
or_config (failed x) = config

-- The key of "far" expands to nothing, so that it is skipped.
abbrev loaded_config : Config
loaded_config = or_config (load yaml parse_text trim (some "version: 2"))

load-builds_example :
    ((b : Built (Unit {0})) × ((build_providers send codecs loaded_config (Health.new (pos 2000))).0
        ≡ some b))
    × ((is_new_schema loaded_config ≡ true) ⊎ All (HasWindows parse_text) loaded_config.providers)
unfolding load extract_raw_api_keys put_keys load_text load_old_schema mark_skipped parse_durations
    parse_provider parse_recovery parse_limits parse_models parse_window fill_priorities
    fill_providers is_new_schema validate check_ids check_providers check_provider check_type
    check_priorities check_limits check_model_limits check_default GoMap.get GoMap.put GoMap.empty
load-builds_example =
    load-builds send codecs yaml parse_text trim (some "version: 2") loaded_config
      (Health.new (pos 2000)) refl
