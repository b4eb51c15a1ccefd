-- ===== src/Start/Loaded.antt =====
-- What `Load` (internal/config/config.go) accepts can be built (cmd/localrouter/main.go).
use local_router.Prelude.{
  ◌≡◌, refl, inl, inr, ◌⊎◌, String, true, Option, none, some, List, [], ◌∷◌, All, map, Bool-cases,
  Option-cases, str_eq, arith, subst,
}
use local_router.Prelude.Time.{Duration}
use local_router.GoMap.{GoMap}
use local_router.Config.{LimitEntry, ModelConfig, ProviderConfig, Config}
use local_router.Config.Checks.{
  ConfigError, valid_type, is_new_schema, normalise_new_schema, validate_new_schema, validate,
}
use local_router.Config.Priorities.{fill_priorities}
use local_router.Config.Schema.{IsTyped, validate_new_schema_iff}
use local_router.Config.Valid.{validate_iff}
use local_router.Config.Load.{
  Yaml, loaded, extract_raw_api_keys, mark_skipped, parse_window, parse_limits, parse_models,
  parse_recovery, parse_provider, parse_durations, accepted, load_new_schema, load_old_schema,
  load_text, load,
}
use local_router.Health.{Monitor}
use local_router.Adapters.Http.{Send}
use local_router.Adapters.Factory.{Codecs}
use local_router.Start.Build.{Built, no_providers, build_providers}
use local_router.Start.Built.{builds_from, All-typed}

module _ (parse : String → Option Duration) where
  -- The duration of a window is what its text says.
  abbrev pub IsParsed : LimitEntry → Type 0
  IsParsed e = (str_eq e.window "" ≡ true) ⊎ (parse e.window ≡ some e.window_dur)

  abbrev pub HasWindows : ProviderConfig → Type 0
  HasWindows p = All IsParsed p.limits × All (λ m. All IsParsed m.limits) p.models

  parse_window-IsParsed : (e e' : LimitEntry) → parse_window parse e ≡ some e' → IsParsed e'
  unfolding parse_window
  parse_window-IsParsed e e' h = elim (Bool-cases (str_eq e.window "")) [
    | inl blank ↦ inl (ground (arith, h, blank))
    | inr written ↦ elim (Option-cases (parse e.window)) [
      | inl bad ↦ absurd (ground (arith, h, written, bad))
      | inr (d, good) ↦
          let same : record e { window_dur = d } ≡ e' = ground (arith, h, written, good) in
          inr (subst (λ x. parse x.window ≡ some x.window_dur) same good)
    ]
  ]

  parse_limits-IsParsed :
      (es es' : List LimitEntry) → parse_limits parse es ≡ some es' → All IsParsed es'
  unfolding parse_limits
  parse_limits-IsParsed [] es' h =
      let same : [] ≡ es' = ground (arith, h) in subst (All IsParsed) same tt
  parse_limits-IsParsed (e ∷ es) es' h = elim (Option-cases (parse_window parse e)) [
    | inl bad ↦ absurd (ground (arith, h, bad))
    | inr (x, good) ↦ elim (Option-cases (parse_limits parse es)) [
      | inl bad ↦ absurd (ground (arith, h, good, bad))
      | inr (xs, more) ↦
          let same : (x ∷ xs) ≡ es' = ground (arith, h, good, more) in
          subst (All IsParsed) same
            (parse_window-IsParsed e x good, parse_limits-IsParsed es xs more)
    ]
  ]

  parse_models-IsParsed :
      (ms ms' : List ModelConfig)
      → parse_models parse ms ≡ some ms'
      → All (λ m. All IsParsed m.limits) ms'
  unfolding parse_models
  parse_models-IsParsed [] ms' h =
      let same : [] ≡ ms' = ground (arith, h) in subst (All (λ m. All IsParsed m.limits)) same tt
  parse_models-IsParsed (m ∷ ms) ms' h = elim (Option-cases (parse_limits parse m.limits)) [
    | inl bad ↦ absurd (ground (arith, h, bad))
    | inr (x, good) ↦ elim (Option-cases (parse_models parse ms)) [
      | inl bad ↦ absurd (ground (arith, h, good, bad))
      | inr (xs, more) ↦
          let same : (record m { limits = x } ∷ xs) ≡ ms' = ground (arith, h, good, more) in
          subst (All (λ m. All IsParsed m.limits)) same
            (parse_limits-IsParsed m.limits x good, parse_models-IsParsed ms xs more)
    ]
  ]

  parse_provider-HasWindows :
      (p p' : ProviderConfig) → parse_provider parse p ≡ some p' → HasWindows p'
  unfolding parse_provider
  parse_provider-HasWindows p p' h = elim (Option-cases (parse_recovery parse p)) [
    | inl bad ↦ absurd (ground (arith, h, bad))
    | inr (q, good) ↦ elim (Option-cases (parse_limits parse p.limits)) [
      | inl bad ↦ absurd (ground (arith, h, good, bad))
      | inr (ls, limits) ↦ elim (Option-cases (parse_models parse p.models)) [
        | inl bad ↦ absurd (ground (arith, h, good, limits, bad))
        | inr (ms, models) ↦
            let same : record q { limits = ls; models = ms } ≡ p' =
              ground (arith, h, good, limits, models) in
            subst HasWindows same
              (parse_limits-IsParsed p.limits ls limits, parse_models-IsParsed p.models ms models)
      ]
    ]
  ]

  parse_durations-HasWindows :
      (ps ps' : List ProviderConfig) → parse_durations parse ps ≡ some ps' → All HasWindows ps'
  unfolding parse_durations
  parse_durations-HasWindows [] ps' h =
      let same : [] ≡ ps' = ground (arith, h) in subst (All HasWindows) same tt
  parse_durations-HasWindows (p ∷ ps) ps' h = elim (Option-cases (parse_provider parse p)) [
    | inl bad ↦ absurd (ground (arith, h, bad))
    | inr (x, good) ↦ elim (Option-cases (parse_durations parse ps)) [
      | inl bad ↦ absurd (ground (arith, h, good, bad))
      | inr (xs, more) ↦
          let same : (x ∷ xs) ≡ ps' = ground (arith, h, good, more) in
          subst (All HasWindows) same
            (parse_provider-HasWindows p x good, parse_durations-HasWindows ps xs more)
    ]
  ]

module _ (parse : String → Option Duration) (trim : String → String) where
  abbrev pub Windowed : Config → Type 0
  Windowed cfg = (is_new_schema cfg ≡ true) ⊎ All (HasWindows parse) cfg.providers

  abbrev Fine : Config → Type 0
  Fine cfg = All (λ c. valid_type c.type ≡ true) cfg.providers × Windowed cfg

  types_of : (ps : List ProviderConfig) → All IsTyped ps → All (λ c. valid_type c.type ≡ true) ps
  types_of [] h = tt
  types_of (p ∷ ps) (here, later) = (here.0, types_of ps later)

  accepted-loaded :
      (o : Option ConfigError) (cfg cfg' : Config)
      → accepted o cfg ≡ loaded cfg'
      → (o ≡ none) × (cfg ≡ cfg')
  accepted-loaded none cfg cfg' h = (refl, ground (arith, h))
  accepted-loaded (some x) cfg cfg' h = absurd (ground (arith, h))

  new-Fine :
      (cfg cfg' : Config) → is_new_schema cfg ≡ true → load_new_schema cfg ≡ loaded cfg' → Fine cfg'
  unfolding load_new_schema normalise_new_schema is_new_schema
  new-Fine cfg cfg' new h =
      let made = normalise_new_schema cfg in
      let (valid, same) = accepted-loaded (validate_new_schema made) made cfg' h in
      let (distinct, typed) = (validate_new_schema_iff made).0 valid in
      subst Fine same (types_of made.providers typed, inl new)

  old-Fine :
      (raw : GoMap String) (cfg cfg' : Config)
      → load_old_schema parse trim raw cfg ≡ loaded cfg'
      → Fine cfg'
  unfolding load_old_schema
  old-Fine raw cfg cfg' h =
      let filled = fill_priorities (map (mark_skipped raw) cfg.providers) in
      elim (Option-cases (parse_durations parse filled)) [
        | inl bad ↦ absurd (ground (arith, (rw (bad, load_old_schema) at h)))
        | inr (ps, good) ↦
            let made = record cfg { providers = ps } in
            let (valid, same) =
              accepted-loaded (validate trim made) made cfg' (rw (good, load_old_schema) at h) in
            let (version, distinct, each, default) = (validate_iff trim made).0 valid in
            subst Fine same
              (All-typed ps each, inr (parse_durations-HasWindows parse filled ps good))
      ]

  text-Fine :
      (raw : GoMap String) (decoded : Option Config) (cfg' : Config)
      → load_text parse trim raw decoded ≡ loaded cfg'
      → Fine cfg'
  unfolding load_text
  text-Fine raw none cfg' h = absurd (ground (arith, h))
  text-Fine raw (some cfg) cfg' h = elim (Bool-cases (is_new_schema cfg)) [
    | inl new ↦ new-Fine cfg cfg' new (rw (new, load_text) at h)
    | inr old ↦ old-Fine raw cfg cfg' (rw (old, load_text) at h)
  ]

  load-Fine :
      (yaml : Yaml) (file : Option String) (cfg : Config)
      → load yaml parse trim file ≡ loaded cfg
      → Fine cfg
  unfolding load
  load-Fine yaml none cfg h = absurd (ground (arith, h))
  load-Fine yaml (some text) cfg h = elim (Option-cases (extract_raw_api_keys yaml text)) [
    | inl bad ↦ absurd (ground (arith, (rw (bad, load) at h)))
    | inr (raw, good) ↦
        text-Fine raw (yaml.decode (yaml.expand_env text)) cfg (rw (good, load) at h)
  ]

-- A configuration that `Load` returns never makes the program's start or a reload fail: whatever the
-- file, `buildProviders` returns no error for it. Where it is not in the newer schema, the duration
-- of every window of its providers and their models is the one that its text says.
pub load-builds :
    {S : Type 0} (send : Send S) (codecs : Codecs) (yaml : Yaml) (parse : String → Option Duration)
    (trim : String → String) (file : Option String) (cfg : Config) (mon : Monitor)
    → load yaml parse trim file ≡ loaded cfg
    → ((b : Built S) × ((build_providers send codecs cfg mon).0 ≡ some b))
      × ((is_new_schema cfg ≡ true) ⊎ All (HasWindows parse) cfg.providers)
unfolding build_providers
load-builds send codecs yaml parse trim file cfg mon h =
    let (typed, windows) = load-Fine parse trim yaml file cfg h in
    (builds_from send codecs cfg.providers no_providers mon typed, windows)
