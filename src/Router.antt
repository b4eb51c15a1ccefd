-- ===== src/Router.antt =====
-- internal/router/router.go: the choice of a provider, failover, slots. `Services` is the state that
-- the router shares with the rest of the program and changes while it routes; `Router` is what only
-- `Update` replaces, with the registry that discovery fills. One clock reading serves for all steps between two waits for a provider.
pub mod Retry
pub mod Selection
pub mod Slots
pub mod Failover
pub mod Loop
pub mod Calls
pub mod Pump
pub mod Selected
pub mod Generation
pub mod Termination
pub mod Answers
pub mod Balance
pub mod Blocking
mod Examples
use Prim.Native.String.{◌++◌ as str_append}
use local_router.Prelude.{
  ℕ, ◌+◌, String, Bool, true, false, not, ◌&&◌, ◌||◌, Option, none, some, List, [], ◌∷◌, keep,
  str_eq, if◌then◌else◌, or_zero,
}
use local_router.Prelude.Int.{ℤ, pos, ◌+ℤ◌}
use local_router.Prelude.Time.{Time, Duration}
use local_router.GoMap
use local_router.GoMap.{GoMap}
use local_router.Provider.{Provider, Request}
use local_router.Health.{Monitor}
use local_router.State.Manager.{Manager}
use local_router.State.Report.{StateManager}
use local_router.Limits.Tracker.{Tracker}
use local_router.Metrics.{Collector}
use local_router.Registry.{Entry, Registry, global_list, for_model}

-- `generation` counts the reloads: a closure that keeps a pointer to `modelLimits` refers to the tracker
-- in the services as long as the generation is the same. A nil `reportState` or `modelLimits` is
-- `none`.
pub record Services : Type 0 where
  pub now : Time
  pub health : Monitor
  pub state : Manager
  pub report : Option StateManager
  pub limits : Tracker
  pub model_limits : Option Tracker
  pub metrics : Collector
  pub generation : ℕ

-- `parse_duration` stands for `time.ParseDuration` on the code points of a text.
pub record Router : Type 0 where
  pub providers : GoMap (Provider Services)
  pub registry : Registry
  pub default_model : String
  pub recovery_windows : GoMap Duration
  pub parse_duration : List ℕ → Option Duration

-- The router after each number of reloads. Where a reload runs while a request is served, the steps
-- behind it read the next one.
abbrev pub Routers : Type 0
Routers = ℕ → Router

pub data RouteError : Type 0 where
  model_not_found all_providers_failed : RouteError

-- resolve(model)
unfoldable pub resolve : Router → String → List Entry
resolve r model =
    if str_eq model ""
    then (if str_eq r.default_model ""
        then global_list r.registry
        else for_model r.registry r.default_model)
    else if str_eq model "auto"
    then global_list r.registry
    else for_model r.registry model

abbrev pub model_key : Entry → String
model_key e = str_append e.provider_id (str_append "/" e.model_id)

unfoldable pub filter_provider : List Entry → String → List Entry
filter_provider entries id = keep (λ e. not (str_eq e.provider_id id)) entries

unfoldable pub filter_entry : List Entry → String → String → List Entry
filter_entry entries id model_id =
    keep (λ e. not (str_eq e.provider_id id && str_eq e.model_id model_id)) entries

abbrev override {ℓ} : {A : Type ℓ} → Option A → Option A → Option A
override none old = old
override (some a) old = some a

-- `reqCopy.Model = entry.ModelID` and `applyModelParams`.
unfoldable pub apply_model_params : Request → Entry → Request
apply_model_params req e = record req {
  model = e.model_id;
  api_key = if str_eq e.api_key "" then req.api_key else e.api_key;
  temperature = override e.temperature req.temperature;
  top_p = override e.top_p req.top_p;
  max_tokens = override e.max_tokens req.max_tokens;
  seed = override e.seed req.seed;
}

-- One round of the loop of `Route` or `Stream`: go on with other entries, or return.
pub data Round {ℓ} (A : Type ℓ) : Type ℓ where
  retry : List Entry → Services → Round A
  done : A → Services → Round A
  give_up : RouteError → Services → Round A

pub data Reply {ℓ} (A : Type ℓ) : Type ℓ where
  answer : A → Reply A
  refuse : RouteError → Reply A

unfoldable pub count_no_capacity : Services → Services
count_no_capacity s = record s {
  metrics = record s.metrics { no_capacity = s.metrics.no_capacity +ℤ pos 1 };
}

-- Update: everything that a reload replaces, in the router and among the services.
unfoldable pub update :
    GoMap (Provider Services)
    → Registry
    → Option StateManager
    → Tracker
    → Option Tracker
    → String
    → GoMap Duration
    → Router × Services
    → Router × Services
update providers registry report limits model_limits default_model windows (r, s) = (
  record r {
    providers = providers;
    registry = registry;
    default_model = default_model;
    recovery_windows = windows;
  },
  record s {
    report = report;
    limits = limits;
    model_limits = model_limits;
    generation = s.generation + 1;
  },
)
