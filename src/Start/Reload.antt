-- ===== src/Start/Reload.antt =====
-- The callback of the configuration's watcher in cmd/localrouter/main.go.
use local_router.Prelude.{
  String, Bool, false, ◌||◌, none, some, List, [], ◌∷◌, if◌then◌else◌, or_zero,
}
use local_router.GoMap
use local_router.GoMap.{GoMap}
use local_router.Config.{ProviderConfig, Config}
use local_router.Health.{Monitor, add_node, remove_node}
use local_router.Registry
use local_router.Router.{Services, Router, update}
use local_router.Adapters.Http.{Send}
use local_router.Adapters.Factory.{Codecs}
use local_router.Adapters.Factory
use local_router.Start.Build.{
  build_providers, provider_id_set, concurrency_limits, model_concurrency_limits,
}
use local_router.Start.Boot.{new_tracker}

abbrev pub has_id : GoMap Bool → String → Bool
has_id ids id = or_zero false (GoMap.get ids id)

-- `for _, p := range newCfg.Providers`
unfoldable pub add_new :
    {S : Type 0} → Send S → Codecs → GoMap Bool → List ProviderConfig → Monitor → Monitor
unfolding add_node
add_new send codecs old [] mon = mon
add_new send codecs old (p ∷ ps) mon = add_new send codecs old ps (
    if p.skipped || has_id old p.id
    then mon
    else (elim (Factory.new send codecs p) [ none ↦ mon | some made ↦ add_node p.id mon ]))

-- `for _, p := range oldCfg.Providers`
unfoldable pub remove_old : GoMap Bool → List ProviderConfig → Monitor → Monitor
unfolding remove_node
remove_old new [] mon = mon
remove_old new (p ∷ ps) mon =
    remove_old new ps (if has_id new p.id then mon else remove_node p.id mon)

unfoldable pub reload :
    Send Services → Codecs → Config → Config → Router × Services → Router × Services
unfolding build_providers provider_id_set concurrency_limits model_concurrency_limits new_tracker
    add_new remove_old
reload send codecs old_cfg new_cfg (r, s) =
    let (built, mon) = build_providers send codecs new_cfg s.health in
    elim built [
      | none ↦ (r, record s { health = mon })
      | some b ↦
          let added = add_new send codecs (provider_id_set old_cfg) new_cfg.providers mon in
          let mon' = remove_old (provider_id_set new_cfg) old_cfg.providers added in
          update b.providers (Registry.build new_cfg.providers new_cfg.default_model) s.report
            (new_tracker b.limits (concurrency_limits new_cfg))
            (some (new_tracker b.model_limits (model_concurrency_limits new_cfg)))
            new_cfg.default_model b.recovery_windows (r, record s { health = mon' })
    ]
