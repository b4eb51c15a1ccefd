-- ===== src/Start/Built.antt =====
-- What `buildProviders` (cmd/localrouter/main.go) makes of a configuration.
use local_router.Prelude.{
  ◌≡◌, refl, ap, sym, ◌∙◌, inl, inr, String, true, false, Option, none, some, List, [], ◌∷◌, All,
  map, Bool-cases, Option-cases, str_eq, eq_iff, if◌then◌else◌, arith,
}
use local_router.GoMap
use local_router.GoMap.{GoMap, get-put, get-empty}
use local_router.Provider.{Provider}
use local_router.Config.{LimitEntry, ProviderConfig, Config}
use local_router.Config.Checks.{valid_type, validate, recovery_window_or_default}
use local_router.Config.Schema.{Distinct}
use local_router.Config.Valid.{IsProvider, validate_iff}
use local_router.Limits.Window
use local_router.Health.{Monitor}
use local_router.Health
use local_router.Adapters.Http.{Send}
use local_router.Adapters.Factory.{Codecs}
use local_router.Adapters.Factory
use local_router.Adapters.Made.{new-IsAdapter, IsAdapter-id, new_iff}
use local_router.Start.Build.{
  Built, no_providers, limit_config, put_limits, add_provider, add_made, build_from,
  build_providers,
}

-- The map of providers is keyed by the ids that the providers report.
abbrev pub KeyedProviders : {S : Type 0} → GoMap (Provider S) → Type 0
KeyedProviders m = (id : String) (p : Provider _) → GoMap.get m id ≡ some p → p.id ≡ id

module _ {S : Type 0} (send : Send S) (codecs : Codecs) where
  -- One round of the loop.
  pub build_from-skipped :
      (c : ProviderConfig) (cs : List ProviderConfig) (b : Built S) (mon : Monitor)
      → c.skipped ≡ true
      → build_from send codecs (c ∷ cs) b mon ≡ build_from send codecs cs b mon
  unfolding build_from
  build_from-skipped c cs b mon skipped = rw skipped refl

  pub build_from-active :
      (c : ProviderConfig) (cs : List ProviderConfig) (b : Built S) (mon : Monitor)
      (made : Option (Provider S))
      → c.skipped ≡ false
      → Factory.new send codecs c ≡ made
      → build_from send codecs (c ∷ cs) b mon ≡ add_made c made (build_from send codecs cs) b mon
  unfolding build_from
  build_from-active c cs b mon made active new =
      rw active refl ∙ ap (λ x. add_made c x (build_from send codecs cs) b mon) new

  step_skipped :
      (c : ProviderConfig) (cs : List ProviderConfig) (b b' : Built S) (mon : Monitor)
      → c.skipped ≡ true
      → (build_from send codecs (c ∷ cs) b mon).0 ≡ some b'
      → (build_from send codecs cs b mon).0 ≡ some b'
  step_skipped c cs b b' mon skipped h =
      ap (λ x. x.0) (sym (build_from-skipped c cs b mon skipped)) ∙ h

  step_active :
      (c : ProviderConfig) (cs : List ProviderConfig) (b b' : Built S) (mon : Monitor)
      (made : Provider S)
      → c.skipped ≡ false
      → Factory.new send codecs c ≡ some made
      → (build_from send codecs (c ∷ cs) b mon).0 ≡ some b'
      → (build_from send codecs cs (add_provider c made b) (Health.add_node c.id mon)).0 ≡ some b'
  unfolding add_made
  step_active c cs b b' mon made active new h =
      ap (λ x. x.0) (sym (build_from-active c cs b mon (some made) active new)) ∙ h

  pub fails_not {ℓ} :
      {A : Type ℓ} (c : ProviderConfig) (cs : List ProviderConfig) (b b' : Built S) (mon : Monitor)
      → c.skipped ≡ false
      → Factory.new send codecs c ≡ none
      → (build_from send codecs (c ∷ cs) b mon).0 ≡ some b'
      → A
  unfolding add_made
  fails_not c cs b b' mon active fails h =
      let stuck = ap (λ x. x.0) (sym (build_from-active c cs b mon none active fails)) ∙ h in
      absurd (ground (arith, stuck))

  keyed-add_provider :
      (c : ProviderConfig) (made : Provider S) (b : Built S)
      → Factory.new send codecs c ≡ some made
      → KeyedProviders b.providers
      → KeyedProviders (add_provider c made b).providers
  unfolding add_provider
  keyed-add_provider c made b new keyed id p h = elim (Bool-cases (str_eq c.id id)) [
    | inl same ↦ ground (
      arith,
      h,
      same,
      eq_iff c.id id,
      get-put b.providers c.id id made,
      IsAdapter-id send codecs c.id made (new-IsAdapter send codecs c made new),
    )
    | inr differ ↦ keyed id p (ground (arith, h, differ, get-put b.providers c.id id made))
  ]

  pub build_from-KeyedProviders :
      (ps : List ProviderConfig) (b b' : Built S) (mon : Monitor)
      → KeyedProviders b.providers
      → (build_from send codecs ps b mon).0 ≡ some b'
      → KeyedProviders b'.providers
  unfolding build_from
  build_from-KeyedProviders [] b b' mon keyed h = λ id p e. keyed id p (cc (h, e))
  build_from-KeyedProviders (c ∷ cs) b b' mon keyed h = elim (Bool-cases c.skipped) [
    | inl skipped ↦
        build_from-KeyedProviders cs b b' mon keyed (step_skipped c cs b b' mon skipped h)
    | inr active ↦ elim (Option-cases (Factory.new send codecs c)) [
      | inl fails ↦ fails_not c cs b b' mon active fails h
      | inr (made, new) ↦
          build_from-KeyedProviders cs (add_provider c made b) b' (Health.add_node c.id mon)
            (keyed-add_provider c made b new keyed) (step_active c cs b b' mon made active new h)
    ]
  ]

abbrev pub limits_of : List LimitEntry → Option (List Window.Config)
limits_of [] = none
limits_of (e ∷ es) = some (map limit_config (e ∷ es))

-- Two results agree on an id.
abbrev SameAt : {S : Type 0} → String → Built S → Built S → Type 0
SameAt id b b' =
    (GoMap.get b'.providers id ≡ GoMap.get b.providers id)
    × (GoMap.get b'.limits id ≡ GoMap.get b.limits id)
    × (GoMap.get b'.recovery_windows id ≡ GoMap.get b.recovery_windows id)

-- Nothing is there for an id.
abbrev BlankAt : {S : Type 0} → String → Built S → Type 0
BlankAt id b =
    (GoMap.get b.providers id ≡ none)
    × (GoMap.get b.limits id ≡ none)
    × (GoMap.get b.recovery_windows id ≡ none)

put_limits-other :
    (key id : String) (es : List LimitEntry) (m : GoMap (List Window.Config))
    → str_eq key id ≡ false
    → GoMap.get (put_limits key es m) id ≡ GoMap.get m id
unfolding put_limits
put_limits-other key id [] m h = refl
put_limits-other key id (e ∷ es) m h =
    ground (arith, h, get-put m key id (map limit_config (e ∷ es)))

put_limits-same :
    (key : String) (es : List LimitEntry) (m : GoMap (List Window.Config))
    → GoMap.get m key ≡ none
    → GoMap.get (put_limits key es m) key ≡ limits_of es
unfolding put_limits
put_limits-same key [] m h = h
put_limits-same key (e ∷ es) m h =
    ground (arith, eq_iff key key, get-put m key key (map limit_config (e ∷ es)))

str_eq-sym : (s t : String) → str_eq s t ≡ false → str_eq t s ≡ false
str_eq-sym s t h = ground (arith, h, eq_iff s t, eq_iff t s)

add_provider-SameAt :
    {S : Type 0} (id : String) (c : ProviderConfig) (made : Provider S) (b : Built S)
    → str_eq id c.id ≡ false
    → SameAt id b (add_provider c made b)
unfolding add_provider
add_provider-SameAt id c made b h =
    let differ = str_eq-sym id c.id h in
    (
      ground (arith, differ, get-put b.providers c.id id made),
      put_limits-other c.id id c.limits b.limits differ,
      ground (arith, differ, get-put b.recovery_windows c.id id (recovery_window_or_default c)),
    )

module _ {S : Type 0} (send : Send S) (codecs : Codecs) where
  build_from-SameAt :
      (id : String) (ps : List ProviderConfig) (b b' : Built S) (mon : Monitor)
      → All (λ q. str_eq id q.id ≡ false) ps
      → (build_from send codecs ps b mon).0 ≡ some b'
      → SameAt id b b'
  unfolding build_from
  build_from-SameAt id [] b b' mon differ h =
      let same : b ≡ b' = cc h in
      (
        ap (λ x. GoMap.get x.providers id) (sym same),
        ap (λ x. GoMap.get x.limits id) (sym same),
        ap (λ x. GoMap.get x.recovery_windows id) (sym same),
      )
  build_from-SameAt id (c ∷ cs) b b' mon (here, later) h = elim (Bool-cases c.skipped) [
    | inl skipped ↦
        build_from-SameAt id cs b b' mon later (step_skipped send codecs c cs b b' mon skipped h)
    | inr active ↦ elim (Option-cases (Factory.new send codecs c)) [
      | inl fails ↦ fails_not send codecs c cs b b' mon active fails h
      | inr (made, new) ↦
          let (p, l, w) = add_provider-SameAt id c made b here in
          let (p', l', w') =
            build_from-SameAt id cs (add_provider c made b) b' (Health.add_node c.id mon) later
              (step_active send codecs c cs b b' mon made active new h) in
          (p' ∙ p, l' ∙ l, w' ∙ w)
    ]
  ]

  -- What the configuration of one provider comes to.
  abbrev pub Holds : Built S → ProviderConfig → Type 0
  Holds b c =
      (GoMap.get b.providers c.id ≡ (if c.skipped then none else Factory.new send codecs c))
      × (GoMap.get b.limits c.id ≡ (if c.skipped then none else limits_of c.limits))
      × (GoMap.get b.recovery_windows c.id
          ≡ (if c.skipped then none else some (recovery_window_or_default c)))

  BlankAt-add_provider :
      (c : ProviderConfig) (made : Provider S) (b : Built S) (ps : List ProviderConfig)
      → All (λ q. str_eq c.id q.id ≡ false) ps
      → All (λ q. BlankAt q.id b) ps
      → All (λ q. BlankAt q.id (add_provider c made b)) ps
  BlankAt-add_provider c made b [] differ blank = tt
  BlankAt-add_provider c made b (q ∷ qs) (d, differ) ((p, l, w), blank) =
      let (p', l', w') = add_provider-SameAt q.id c made b (str_eq-sym c.id q.id d) in
      ((p' ∙ p, l' ∙ l, w' ∙ w), BlankAt-add_provider c made b qs differ blank)

  build_from-Holds :
      (ps : List ProviderConfig) (b b' : Built S) (mon : Monitor)
      → Distinct ps
      → All (λ q. BlankAt q.id b) ps
      → (build_from send codecs ps b mon).0 ≡ some b'
      → All (Holds b') ps
  unfolding build_from add_provider
  build_from-Holds [] b b' mon distinct blank h = tt
  build_from-Holds (c ∷ cs) b b' mon distinct ((p, l, w), blank) h = elim (Bool-cases c.skipped) [
    | inl skipped ↦
        let h' = step_skipped send codecs c cs b b' mon skipped h in
        let (p', l', w') = build_from-SameAt c.id cs b b' mon distinct.1 h' in
        (rw skipped (p' ∙ p, l' ∙ l, w' ∙ w), build_from-Holds cs b b' mon distinct.2 blank h')
    | inr active ↦ elim (Option-cases (Factory.new send codecs c)) [
      | inl fails ↦ fails_not send codecs c cs b b' mon active fails h
      | inr (made, new) ↦
          let h' = step_active send codecs c cs b b' mon made active new h in
          let b₁ = add_provider c made b in
          let mon₁ = Health.add_node c.id mon in
          let (p', l', w') = build_from-SameAt c.id cs b₁ b' mon₁ distinct.1 h' in
          (
            rw active (
              p' ∙ ground (arith, eq_iff c.id c.id, get-put b.providers c.id c.id made, new),
              l' ∙ put_limits-same c.id c.limits b.limits l,
              w'
                  ∙ ground (
                    arith,
                    eq_iff c.id c.id,
                    get-put b.recovery_windows c.id c.id (recovery_window_or_default c),
                  ),
            ),
            build_from-Holds cs b₁ b' mon₁ distinct.2
                (BlankAt-add_provider c made b cs distinct.1 blank) h',
          )
    ]
  ]

  Blank-no_providers :
      (ps : List ProviderConfig) → All (λ q. BlankAt q.id (no_providers {S = S})) ps
  Blank-no_providers [] = tt
  Blank-no_providers (q ∷ qs) =
      ((get-empty q.id, get-empty q.id, get-empty q.id), Blank-no_providers qs)

  pub builds_from :
      (ps : List ProviderConfig) (b : Built S) (mon : Monitor)
      → All (λ c. valid_type c.type ≡ true) ps
      → (b' : Built S) × ((build_from send codecs ps b mon).0 ≡ some b')
  unfolding build_from add_made
  builds_from [] b mon typed = (b, refl)
  builds_from (c ∷ cs) b mon (here, later) = elim (Bool-cases c.skipped) [
    | inl skipped ↦
        let (b', built) = builds_from cs b mon later in
        (b', ap (λ x. x.0) (build_from-skipped send codecs c cs b mon skipped) ∙ built)
    | inr active ↦ elim (Option-cases (Factory.new send codecs c)) [
      | inl fails ↦ absurd (ground (arith, here, (new_iff send codecs c).0 fails))
      | inr (made, new) ↦
          let (b', built) =
            builds_from cs (add_provider c made b) (Health.add_node c.id mon) later in
          (
            b',
            ap (λ x. x.0) (build_from-active send codecs c cs b mon (some made) active new) ∙ built,
          )
    ]
  ]

pub All-typed :
    (ps : List ProviderConfig) → All IsProvider ps → All (λ c. valid_type c.type ≡ true) ps
All-typed [] h = tt
All-typed (p ∷ ps) (here, later) = (here.0.0, All-typed ps later)

-- A configuration that `validate` accepts is always built: `buildProviders` returns no error. Then
-- every provider of it that is not skipped is registered under its id as the factory makes it,
-- with its own recovery window and its own limits, which are absent where none are configured; nothing
-- is registered under the id of a skipped provider.
pub build_providers-Holds :
    {S : Type 0} (send : Send S) (codecs : Codecs) (trim : String → String) (cfg : Config)
    (mon : Monitor)
    → validate trim cfg ≡ none
    → (b : Built S) × ((build_providers send codecs cfg mon).0 ≡ some b)
      × All (Holds send codecs b) cfg.providers
unfolding build_providers
build_providers-Holds send codecs trim cfg mon accepted =
    let (version, distinct, each, default) = (validate_iff trim cfg).0 accepted in
    let (b, built) =
      builds_from send codecs cfg.providers no_providers mon (All-typed cfg.providers each) in
    (
      b,
      built,
      build_from-Holds send codecs cfg.providers no_providers b mon distinct
          (Blank-no_providers send codecs cfg.providers) built,
    )
