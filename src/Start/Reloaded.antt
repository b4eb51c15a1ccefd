-- ===== src/Start/Reloaded.antt =====
-- The router that the program runs with, from its start and through any reloads
-- (cmd/localrouter/main.go).
use local_router.Prelude.{
  ◌≡◌, refl, ap, ◌∙◌, inl, inr, ℕ, ◌+◌, String, Bool, true, false, Option, none, some, List, [],
  ◌∷◌, All, Option-cases, if◌then◌else◌, arith, subst,
}
use local_router.Prelude.Int.{ℤ, pos}
use local_router.Prelude.Time.{Time, Duration}
use local_router.GoMap
use local_router.GoMap.{GoMap, get-put, get-remove, get-empty}
use local_router.Provider.{Provider, Request, Response, Outcome}
use local_router.Config.{ProviderConfig, Config}
use local_router.Config.Checks.{validate}
use local_router.Config.Load.{Watcher, loaded}
use local_router.Config.Load
use local_router.Config.Valid.{validate_iff}
use local_router.Limits.Tracker.{concurrency_for, configs_for}
use local_router.Health.{Monitor, add_node, remove_node}
use local_router.Health
use local_router.State.Report.Status.{ProviderState}
use local_router.Router.{Services, Router, Routers, Reply, update}
use local_router.Router.Calls.{route, stream, Streaming}
use local_router.Router.Termination.{IsKeyed, route_returns, stream_returns}
use local_router.Adapters.Http.{Send}
use local_router.Adapters.Factory.{Codecs}
use local_router.Adapters.Factory
use local_router.Start.Build.{Built, no_providers, build_providers, first_slots, concurrency_limits}
use local_router.Start.Boot.{boot, new_tracker, latency_threshold, after_listing}
use local_router.Start.Reload.{reload}
use local_router.Start.Built.{
  KeyedProviders, build_from-KeyedProviders, limits_of, Holds, build_providers-Holds,
}
use local_router.Start.Slots.{
  HasSlots, concurrency_limits-HasSlots, free_slots, concurrency_for-new_tracker,
  configs_for-new_tracker,
}

-- A router that the program comes to: at its start, when a provider has listed its models, or by a
-- reload in whatever state the services are then.
pub data IsRunning (send : Send Services) (codecs : Codecs) : Router → Type 0 where
  booted :
      (parse_duration : List ℕ → Option Duration) (now : Time)
      (saved : List (String × ProviderState)) (cfg : Config) (r : Router) (s : Services)
      → boot send codecs parse_duration now saved cfg ≡ some (r, s)
      → IsRunning send codecs r
  discovered :
      (id default_model : String) (listed : Outcome (List String)) (r : Router)
      → IsRunning send codecs r
      → IsRunning send codecs
          (record r { registry = after_listing default_model id listed r.registry })
  reloaded :
      (old_cfg new_cfg : Config) (r : Router) (s : Services)
      → IsRunning send codecs r
      → IsRunning send codecs (reload send codecs old_cfg new_cfg (r, s)).0

module _ (send : Send Services) (codecs : Codecs) where
  build_providers-KeyedProviders :
      (cfg : Config) (mon : Monitor) (b : Built Services)
      → (build_providers send codecs cfg mon).0 ≡ some b
      → KeyedProviders b.providers
  unfolding build_providers
  build_providers-KeyedProviders cfg mon b h =
      build_from-KeyedProviders send codecs cfg.providers no_providers b mon
        (λ id p e. absurd (ground (arith, e, get-empty {V = Provider Services} id))) h

  boot-IsKeyed :
      (parse_duration : List ℕ → Option Duration) (now : Time)
      (saved : List (String × ProviderState)) (cfg : Config) (r : Router) (s : Services)
      → boot send codecs parse_duration now saved cfg ≡ some (r, s)
      → IsKeyed r
  unfolding boot IsKeyed
  boot-IsKeyed parse_duration now saved cfg r s h =
      let mon = Health.new (latency_threshold cfg) in
      elim (Option-cases (build_providers send codecs cfg mon).0) [
        | inl fails ↦ absurd (ground (arith, (rw (fails, boot) at h)))
        | inr (b, built) ↦
            let keyed = build_providers-KeyedProviders cfg mon b built in
            let h' = rw (built, boot) at h in
            let same : b.providers ≡ r.providers =
              ap (λ x. elim x [ none ↦ b.providers | some y ↦ y.0.providers ]) h' in
            subst KeyedProviders same keyed
      ]

  reload-IsKeyed :
      (old_cfg new_cfg : Config) (r : Router) (s : Services)
      → IsKeyed r
      → IsKeyed (reload send codecs old_cfg new_cfg (r, s)).0
  unfolding reload IsKeyed update
  reload-IsKeyed old_cfg new_cfg r s keyed =
      elim (Option-cases (build_providers send codecs new_cfg s.health).0) [
        | inl fails ↦ rw (fails, reload) keyed
        | inr (b, built) ↦
            rw (built, reload) (build_providers-KeyedProviders new_cfg s.health b built)
      ]

  IsRunning-IsKeyed : (r : Router) → IsRunning send codecs r → IsKeyed r
  unfolding IsKeyed
  IsRunning-IsKeyed r (booted parse_duration now saved cfg r' s h) =
      boot-IsKeyed parse_duration now saved cfg r s h
  IsRunning-IsKeyed r (discovered id default_model listed r' running) = IsRunning-IsKeyed r' running
  IsRunning-IsKeyed r (reloaded old_cfg new_cfg r' s running) =
      reload-IsKeyed old_cfg new_cfg r' s (IsRunning-IsKeyed r' running)

-- Whatever routers the program comes to, at its start from any configuration and saved states, by
-- discovered models and by any number of reloads: `Route` and `Stream` return for every request, whatever
-- the services answer, and whatever else goes on meanwhile, reloads in the middle of the request
-- included.
pub running_returns :
    (send : Send Services) (codecs : Codecs) (rs : Routers) (req : Request) (s : Services)
    → ((n : ℕ) → IsRunning send codecs (rs n))
    → ((y : Reply Response × Services) × (route rs req s ≡ some y))
      × ((y : Reply Streaming × Services) × (stream rs req s ≡ some y))
running_returns send codecs rs req s running =
    let keyed : (n : ℕ) → IsKeyed (rs n) = λ n. IsRunning-IsKeyed send codecs (rs n) (running n) in
    (route_returns rs req s keyed, stream_returns rs req s keyed)

-- ### The limits of the new trackers

-- The configured limits of a provider, with every slot free.
abbrev pub HasLimits : Services → ProviderConfig → Type 0
HasLimits s c =
    (configs_for s.limits c.id ≡ (if c.skipped then none else limits_of c.limits))
    × (concurrency_for s.limits c.id
        ≡ (if c.skipped then none else free_slots (first_slots c.limits)))

-- What a provider is registered as, and its recovery window.
abbrev pub IsRegistered : Send Services → Codecs → Router → ProviderConfig → Type 0
IsRegistered send codecs r c =
    (GoMap.get r.providers c.id ≡ (if c.skipped then none else Factory.new send codecs c))

tracker-HasLimits :
    (send : Send Services) (codecs : Codecs) (b : Built Services) (m : GoMap ℤ) (r : Router)
    (s : Services) (cs : List ProviderConfig)
    → r.providers ≡ b.providers
    → s.limits ≡ new_tracker b.limits m
    → All (Holds send codecs b) cs
    → All (HasSlots m) cs
    → All (λ c. IsRegistered send codecs r c × HasLimits s c) cs
tracker-HasLimits send codecs b m r s [] here limits holds slots = tt
tracker-HasLimits send codecs b m r s (c ∷ cs) here limits ((p, l, w), holds) (n, slots) = (
  (
    rw here p,
    (
      rw limits (configs_for-new_tracker b.limits m c.id ∙ l),
      rw limits (
          concurrency_for-new_tracker b.limits m c.id
          ∙ ap free_slots n
          ∙ free_slots-if c.skipped (first_slots c.limits)),
    ),
  ),
  tracker-HasLimits send codecs b m r s cs here limits holds slots,
)
  where
    free_slots-if :
        (skipped : Bool) (o : Option ℤ)
        → free_slots (if skipped then none else o) ≡ (if skipped then none else free_slots o)
    free_slots-if true o = refl
    free_slots-if false o = refl

reload_valid :
    (send : Send Services) (codecs : Codecs) (trim : String → String) (old_cfg cfg : Config)
    (version : ℤ) (r : Router) (s : Services)
    → validate trim cfg ≡ none
    → let after = reload send codecs old_cfg (record cfg { version = version }) (r, s) in
      All (λ c. IsRegistered send codecs after.0 c × HasLimits after.1 c) cfg.providers
unfolding reload update build_providers concurrency_limits
reload_valid send codecs trim old_cfg cfg version r s accepted =
    let new_cfg = record cfg { version = version } in
    let (b, built, holds) = build_providers-Holds send codecs trim cfg s.health accepted in
    let (v, distinct, each, default) = (validate_iff trim cfg).0 accepted in
    let after = reload send codecs old_cfg new_cfg (r, s) in
    tracker-HasLimits send codecs b (concurrency_limits cfg) after.0 after.1 cfg.providers
      (rw (built, reload) refl) (rw (built, reload) refl) holds
      (concurrency_limits-HasSlots cfg distinct)

-- Every reload of a configuration that `validate` accepts takes effect, the first one and any later
-- one, whatever version the watcher gives it: after the watcher's callback each provider that is not
-- skipped is registered under its id as the factory makes it, is under exactly its configured request
-- limits, and has the slots of its first limit that sets some, all of them free; a skipped provider
-- has none of these.
pub reload-HasLimits :
    (send : Send Services) (codecs : Codecs) (trim : String → String) (cfg old_cfg new_cfg : Config)
    (w : Watcher) (r : Router) (s : Services)
    → validate trim cfg ≡ none
    → (Load.reload (loaded cfg) w).1 ≡ some (old_cfg, new_cfg)
    → let after = reload send codecs old_cfg new_cfg (r, s) in
      All (λ c. IsRegistered send codecs after.0 c × HasLimits after.1 c) cfg.providers
unfolding Load.reload
reload-HasLimits send codecs trim cfg old_cfg new_cfg w r s accepted called =
    let same : record cfg { version = pos (w.version + 1) } ≡ new_cfg = cc called in
    subst
      (λ n.
        let after = reload send codecs old_cfg n (r, s) in
        All (λ c. IsRegistered send codecs after.0 c × HasLimits after.1 c) cfg.providers)
      same (reload_valid send codecs trim old_cfg cfg (pos (w.version + 1)) r s accepted)
