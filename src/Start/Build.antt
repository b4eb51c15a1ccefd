-- ===== src/Start/Build.antt =====
-- `buildProviders` and the small functions over a configuration in cmd/localrouter/main.go.
use Prim.Native.String.{◌++◌ as str_append}
use local_router.Prelude.{String, Bool, true, Option, none, some, List, [], ◌∷◌, map, if◌then◌else◌}
use local_router.Prelude.Int.{ℤ, pos, ltb_ℤ}
use local_router.Prelude.Time.{Duration}
use local_router.GoMap
use local_router.GoMap.{GoMap}
use local_router.Provider.{Provider}
use local_router.Config.{LimitEntry, ModelConfig, ProviderConfig, Config}
use local_router.Config.Checks.{recovery_window_or_default}
use local_router.Limits.Window
use local_router.Health.{Monitor}
use local_router.Health
use local_router.Adapters.Http.{Send}
use local_router.Adapters.Factory.{Codecs}
use local_router.Adapters.Factory

-- The maps that `buildProviders` returns.
pub record Built (S : Type 0) : Type 0 where
  pub providers : GoMap (Provider S)
  pub limits : GoMap (List Window.Config)
  pub model_limits : GoMap (List Window.Config)
  pub recovery_windows : GoMap Duration

abbrev pub no_providers : {S : Type 0} → Built S
no_providers = record {
  providers = GoMap.empty;
  limits = GoMap.empty;
  model_limits = GoMap.empty;
  recovery_windows = GoMap.empty;
}

abbrev pub limit_config : LimitEntry → Window.Config
limit_config e = record { requests = e.requests; window = e.window_dur }

-- `if len(entries) > 0 { m[key] = cfgs }`
unfoldable pub put_limits :
    String → List LimitEntry → GoMap (List Window.Config) → GoMap (List Window.Config)
put_limits key [] m = m
put_limits key (e ∷ es) m = GoMap.put m key (map limit_config (e ∷ es))

abbrev pub slash : String → String → String
slash id model = str_append id (str_append "/" model)

unfoldable pub put_model_limits :
    String → List ModelConfig → GoMap (List Window.Config) → GoMap (List Window.Config)
unfolding put_limits
put_model_limits id [] m = m
put_model_limits id (x ∷ xs) m = put_model_limits id xs (put_limits (slash id x.id) x.limits m)

unfoldable pub add_provider : {S : Type 0} → ProviderConfig → Provider S → Built S → Built S
unfolding put_limits put_model_limits
add_provider p made b = record {
  providers = GoMap.put b.providers p.id made;
  limits = put_limits p.id p.limits b.limits;
  model_limits = put_model_limits p.id p.models b.model_limits;
  recovery_windows = GoMap.put b.recovery_windows p.id (recovery_window_or_default p);
}

-- The body of the loop behind the call of the factory, where `rest` stands for the other rounds. An
-- unknown type ends the loop with an error; the nodes that were added to the monitor until then stay.
unfoldable pub add_made :
    {S : Type 0}
    → ProviderConfig
    → Option (Provider S)
    → (Built S → Monitor → Option (Built S) × Monitor)
    → Built S
    → Monitor
    → Option (Built S) × Monitor
unfolding add_provider Health.add_node
add_made p none rest b mon = (none, mon)
add_made p (some made) rest b mon = rest (add_provider p made b) (Health.add_node p.id mon)

-- The loop of `buildProviders`.
unfoldable pub build_from :
    {S : Type 0}
    → Send S
    → Codecs
    → List ProviderConfig
    → Built S
    → Monitor
    → Option (Built S) × Monitor
unfolding add_made
build_from send codecs [] b mon = (some b, mon)
build_from send codecs (p ∷ ps) b mon =
    let rest = build_from send codecs ps in
    if p.skipped then rest b mon else add_made p (Factory.new send codecs p) rest b mon

unfoldable pub build_providers :
    {S : Type 0} → Send S → Codecs → Config → Monitor → Option (Built S) × Monitor
unfolding build_from
build_providers send codecs cfg mon = build_from send codecs cfg.providers no_providers mon

unfoldable pub provider_ids : List ProviderConfig → GoMap Bool
provider_ids [] = GoMap.empty
provider_ids (p ∷ ps) = GoMap.put (provider_ids ps) p.id true

-- providerIDSet(cfg)
unfoldable pub provider_id_set : Config → GoMap Bool
unfolding provider_ids
provider_id_set cfg = provider_ids cfg.providers

unfoldable pub provider_timeout_ms : ProviderConfig → ℤ
provider_timeout_ms p = if ltb_ℤ (pos 0) p.timeout_ms then p.timeout_ms else pos 30000

-- The first positive `concurrent_requests`, where the loop stops.
unfoldable pub first_slots : List LimitEntry → Option ℤ
first_slots [] = none
first_slots (e ∷ es) =
    let rest = first_slots es in
    if ltb_ℤ (pos 0) e.concurrent_requests then some e.concurrent_requests else rest

unfoldable pub put_slots : String → List LimitEntry → GoMap ℤ → GoMap ℤ
unfolding first_slots
put_slots key es m = elim (first_slots es) [ none ↦ m | some n ↦ GoMap.put m key n ]

unfoldable pub slots_from : List ProviderConfig → GoMap ℤ → GoMap ℤ
unfolding put_slots
slots_from [] m = m
slots_from (p ∷ ps) m = slots_from ps (if p.skipped then m else put_slots p.id p.limits m)

unfoldable pub concurrency_limits : Config → GoMap ℤ
unfolding slots_from
concurrency_limits cfg = slots_from cfg.providers GoMap.empty

unfoldable pub put_model_slots : String → List ModelConfig → GoMap ℤ → GoMap ℤ
unfolding put_slots
put_model_slots id [] m = m
put_model_slots id (x ∷ xs) m = put_model_slots id xs (put_slots (slash id x.id) x.limits m)

unfoldable pub model_slots_from : List ProviderConfig → GoMap ℤ → GoMap ℤ
unfolding put_model_slots
model_slots_from [] m = m
model_slots_from (p ∷ ps) m =
    model_slots_from ps (if p.skipped then m else put_model_slots p.id p.models m)

unfoldable pub model_concurrency_limits : Config → GoMap ℤ
unfolding model_slots_from
model_concurrency_limits cfg = model_slots_from cfg.providers GoMap.empty
