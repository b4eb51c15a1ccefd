-- ===== src/Start/Watched.antt =====
-- Which nodes the health monitor watches after a reload (cmd/localrouter/main.go).
use local_router.Prelude.{
  ◌≡◌, refl, ap, sym, ◌∙◌, inl, inr, String, Bool, true, false, not, ◌&&◌, ◌||◌, Option, none, some,
  List, [], ◌∷◌, any, Bool-cases, Option-cases, str_eq, eq_iff, arith,
}
use local_router.GoMap
use local_router.GoMap.{GoMap, get-put, get-remove, get-empty}
use local_router.Config.{ProviderConfig, Config}
use local_router.Health.{Monitor, add_node, remove_node}
use local_router.Router.{Services, Router, update}
use local_router.Adapters.Http.{Send}
use local_router.Adapters.Factory.{Codecs}
use local_router.Adapters.Factory
use local_router.Start.Build.{
  Built, no_providers, add_provider, add_made, build_from, build_providers, provider_ids,
  provider_id_set,
}
use local_router.Start.Reload.{reload, add_new, remove_old, has_id}
use local_router.Start.Built.{build_from-skipped, build_from-active, fails_not}

abbrev is_some : Option (Unit {0}) → Bool
is_some none = false
is_some (some w) = true

-- A worker checks the node.
abbrev pub watches : Monitor → String → Bool
watches mon id = is_some (GoMap.get mon.workers id)

abbrev pub names : List ProviderConfig → String → Bool
names ps id = any (λ c. str_eq c.id id) ps

abbrev pub activates : List ProviderConfig → String → Bool
activates ps id = any (λ c. not c.skipped && str_eq c.id id) ps

watches-add_node :
    (i id : String) (mon : Monitor) → watches (add_node i mon) id ≡ (str_eq i id || watches mon id)
unfolding add_node
watches-add_node i id mon = elim (Option-cases (GoMap.get mon.workers i)) [
  | inl e ↦ ground (arith, e, get-put mon.workers i id tt)
  | inr (w, e) ↦ ground (arith, e, eq_iff i id)
]

watches-remove_node :
    (i id : String) (mon : Monitor)
    → watches (remove_node i mon) id ≡ (not (str_eq i id) && watches mon id)
unfolding remove_node
watches-remove_node i id mon = ground (arith, get-remove mon.workers i id)

has_id-provider_ids :
    (ps : List ProviderConfig) (id : String) → has_id (provider_ids ps) id ≡ names ps id
unfolding provider_ids any
has_id-provider_ids [] id = ground (arith, get-empty {V = Bool} id)
has_id-provider_ids (p ∷ ps) id =
    ground (arith, get-put (provider_ids ps) p.id id true, has_id-provider_ids ps id)

module _ {S : Type 0} (send : Send S) (codecs : Codecs) where
  watches-build_from :
      (ps : List ProviderConfig) (b b' : Built S) (mon : Monitor) (id : String)
      → (build_from send codecs ps b mon).0 ≡ some b'
      → watches (build_from send codecs ps b mon).1 id ≡ (activates ps id || watches mon id)
  unfolding build_from add_made any
  watches-build_from [] b b' mon id h = refl
  watches-build_from (c ∷ cs) b b' mon id h = elim (Bool-cases c.skipped) [
    | inl skipped ↦
        let round = build_from-skipped send codecs c cs b mon skipped in
        ap (λ x. watches x.1 id) round
        ∙ ground (arith, skipped, watches-build_from cs b b' mon id (ap (λ x. x.0) (sym round) ∙ h))
    | inr active ↦ elim (Option-cases (Factory.new send codecs c)) [
      | inl fails ↦ fails_not send codecs c cs b b' mon active fails h
      | inr (made, new) ↦
          let round = build_from-active send codecs c cs b mon (some made) active new in
          ap (λ x. watches x.1 id) round
          ∙ ground (
            arith,
            active,
            watches-add_node c.id id mon,
            watches-build_from cs (add_provider c made b) b' (add_node c.id mon) id
                (ap (λ x. x.0) (sym round) ∙ h),
          )
    ]
  ]

  -- The nodes that `buildProviders` has added are all that this loop would add.
  watches-add_new :
      (old : GoMap Bool) (ps : List ProviderConfig) (mon : Monitor) (id : String)
      → (activates ps id ≡ true → watches mon id ≡ true)
      → watches (add_new send codecs old ps mon) id ≡ watches mon id
  unfolding add_new any
  watches-add_new old [] mon id h = refl
  watches-add_new old (c ∷ cs) mon id h = elim (Bool-cases (c.skipped || has_id old c.id)) [
    | inl passed ↦ rw (passed, add_new) (watches-add_new old cs mon id (λ a. h (ground (arith, a))))
    | inr new ↦ elim (Option-cases (Factory.new send codecs c)) [
      | inl fails ↦
          rw (new, fails, add_new) (watches-add_new old cs mon id (λ a. h (ground (arith, a))))
      | inr (made, e) ↦
          rw (new, e, add_new)
            (watches-add_new old cs (add_node c.id mon) id
                (λ a. ground (arith, watches-add_node c.id id mon, h (ground (arith, a))))
              ∙ ground (arith, new, watches-add_node c.id id mon, h))
    ]
  ]

watches-remove_old :
    (new : GoMap Bool) (ps : List ProviderConfig) (mon : Monitor) (id : String)
    → watches (remove_old new ps mon) id
      ≡ (not (names ps id && not (has_id new id)) && watches mon id)
unfolding remove_old any
watches-remove_old new [] mon id = refl
watches-remove_old new (c ∷ cs) mon id = elim (Bool-cases (has_id new c.id)) [
  | inl kept ↦ ground (arith, kept, eq_iff c.id id, watches-remove_old new cs mon id)
  | inr gone ↦ ground (
    arith,
    gone,
    eq_iff c.id id,
    watches-remove_old new cs (remove_node c.id mon) id,
    watches-remove_node c.id id mon,
  )
]

activates-names :
    (ps : List ProviderConfig) (id : String) → activates ps id ≡ true → names ps id ≡ true
unfolding any
activates-names [] id h = h
activates-names (c ∷ cs) id h = ground (arith, h, activates-names cs id)

-- After a reload whose providers could be built, the monitor watches exactly the providers of the new
-- configuration that are not skipped, and those of the nodes watched before that the new
-- configuration names (skipped or not) or that the old one did not name.
pub reload-watches :
    (send : Send Services) (codecs : Codecs) (old_cfg new_cfg : Config) (r : Router) (s : Services)
    (b : Built Services) (id : String)
    → (build_providers send codecs new_cfg s.health).0 ≡ some b
    → watches (reload send codecs old_cfg new_cfg (r, s)).1.health id ≡ (
        activates new_cfg.providers id
        || (watches s.health id
            && (names new_cfg.providers id || not (names old_cfg.providers id))))
unfolding reload update build_providers provider_id_set
reload-watches send codecs old_cfg new_cfg r s b id built =
    let mon = (build_providers send codecs new_cfg s.health).1 in
    let new = provider_id_set new_cfg in
    let old = provider_id_set old_cfg in
    let added = add_new send codecs old new_cfg.providers mon in
    let watched =
      watches-build_from send codecs new_cfg.providers no_providers b s.health id built in
    rw (built, reload)
      (watches-remove_old new old_cfg.providers added id
        ∙ ground (
          arith,
          watched,
          watches-add_new send codecs old new_cfg.providers mon id
              (λ a. ground (arith, watched, a)),
          has_id-provider_ids new_cfg.providers id,
          activates-names new_cfg.providers id,
        ))
