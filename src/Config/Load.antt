-- ===== src/Config/Load.antt =====
-- `Load` with `extractRawAPIKeys` and `parseDurations` of internal/config/config.go, and `reload` of
-- internal/config/watcher.go.
use local_router.Prelude.{
  ℕ, ◌+◌, String, true, not, ◌&&◌, Option, none, some, List, [], ◌∷◌, map, if◌then◌else◌, or_zero,
  str_eq,
}
use local_router.Prelude.Int.{pos}
use local_router.Prelude.Time.{Duration}
use local_router.GoMap
use local_router.GoMap.{GoMap}
use local_router.Config.{LimitEntry, ModelConfig, ProviderConfig, Config}
use local_router.Config.Checks.{
  ConfigError, is_new_schema, normalise_new_schema, validate_new_schema, validate,
}
use local_router.Config.Priorities.{fill_priorities}

-- The YAML decoder: the ids and keys of the two lists of providers in the text as it stands, and the
-- configuration in a text whose variables are expanded; and `os.ExpandEnv`.
pub record Yaml : Type 0 where
  pub raw_keys : String → Option (List (String × String) × List (String × String))
  pub expand_env : String → String
  pub decode : String → Option Config

pub data LoadError : Type 0 where
  unreadable not_yaml not_config bad_duration : LoadError
  invalid : ConfigError → LoadError

pub data Loaded : Type 0 where
  loaded : Config → Loaded
  failed : LoadError → Loaded

unfoldable pub put_keys : List (String × String) → GoMap String → GoMap String
put_keys [] m = m
put_keys ((id, key) ∷ more) m = put_keys more (GoMap.put m id key)

unfoldable pub extract_raw_api_keys : Yaml → String → Option (GoMap String)
unfolding put_keys
extract_raw_api_keys yaml text = elim (yaml.raw_keys text) [
  | none ↦ none
  | some (providers, remotes) ↦ some (put_keys remotes (put_keys providers GoMap.empty))
]

-- A key that is written in the file and expands to nothing.
unfoldable pub mark_skipped : GoMap String → ProviderConfig → ProviderConfig
mark_skipped raw p =
    if not (str_eq (or_zero "" (GoMap.get raw p.id)) "") && str_eq p.api_key ""
    then record p { skipped = true }
    else p

infixl 20 ◌>>=◌
abbrev ◌>>=◌ {ℓ κ} : {A : Type ℓ} {B : Type κ} → Option A → (A → Option B) → Option B
none >>= f = none
some a >>= f = f a

-- The bodies of the loops of `parseDurations`; `parse` is `time.ParseDuration`.
module _ (parse : String → Option Duration) where
  unfoldable pub parse_window : LimitEntry → Option LimitEntry
  parse_window e =
      if str_eq e.window ""
      then some e
      else (elim (parse e.window) [ none ↦ none | some d ↦ some (record e { window_dur = d }) ])

  unfoldable pub parse_limits : List LimitEntry → Option (List LimitEntry)
  unfolding parse_window
  parse_limits [] = some []
  parse_limits (e ∷ es) = do e' ← parse_window e; es' ← parse_limits es; some (e' ∷ es')

  unfoldable pub parse_models : List ModelConfig → Option (List ModelConfig)
  unfolding parse_limits
  parse_models [] = some []
  parse_models (m ∷ ms) = do
    limits ← parse_limits m.limits
    ms' ← parse_models ms
    some (record m { limits = limits } ∷ ms')

  unfoldable pub parse_recovery : ProviderConfig → Option ProviderConfig
  parse_recovery p =
      if str_eq p.recovery_window "" then some p else (elim (parse p.recovery_window) [
        | none ↦ none
        | some d ↦ some (record p { recovery_window_dur = d })
      ])

  unfoldable pub parse_provider : ProviderConfig → Option ProviderConfig
  unfolding parse_recovery parse_limits parse_models
  parse_provider p = do
    p' ← parse_recovery p
    limits ← parse_limits p.limits
    models ← parse_models p.models
    some (record p' { limits = limits; models = models })

  unfoldable pub parse_durations : List ProviderConfig → Option (List ProviderConfig)
  unfolding parse_provider
  parse_durations [] = some []
  parse_durations (p ∷ ps) = do p' ← parse_provider p; ps' ← parse_durations ps; some (p' ∷ ps')

abbrev pub accepted : Option ConfigError → Config → Loaded
accepted none cfg = loaded cfg
accepted (some x) cfg = failed (invalid x)

-- The two branches of `Load`. In the first one, neither are priorities filled in nor durations parsed.
unfoldable pub load_new_schema : Config → Loaded
unfolding normalise_new_schema validate_new_schema
load_new_schema cfg =
    let cfg' = normalise_new_schema cfg in accepted (validate_new_schema cfg') cfg'

abbrev pub with_durations : (String → String) → Config → Option (List ProviderConfig) → Loaded
with_durations trim cfg none = failed bad_duration
with_durations trim cfg (some ps) =
    accepted (validate trim (record cfg { providers = ps })) (record cfg { providers = ps })

unfoldable pub load_old_schema :
    (String → Option Duration) → (String → String) → GoMap String → Config → Loaded
unfolding mark_skipped parse_durations fill_priorities validate
load_old_schema parse trim raw cfg =
    with_durations trim cfg
      (parse_durations parse (fill_priorities (map (mark_skipped raw) cfg.providers)))

unfoldable pub load_text :
    (String → Option Duration) → (String → String) → GoMap String → Option Config → Loaded
unfolding load_new_schema load_old_schema is_new_schema
load_text parse trim raw none = failed not_config
load_text parse trim raw (some cfg) =
    if is_new_schema cfg then load_new_schema cfg else load_old_schema parse trim raw cfg

-- Load(path). The argument is the text of the file, if it can be read.
unfoldable pub load : Yaml → (String → Option Duration) → (String → String) → Option String → Loaded
unfolding extract_raw_api_keys load_text
load yaml parse trim none = failed unreadable
load yaml parse trim (some text) = elim (extract_raw_api_keys yaml text) [
  | none ↦ failed not_yaml
  | some raw ↦ load_text parse trim raw (yaml.decode (yaml.expand_env text))
]

-- ### The watcher

pub record Watcher : Type 0 where
  pub version : ℕ
  pub current : Config

-- NewWatcher
unfoldable pub new_watcher : Config → Watcher
new_watcher initial = record { version = 1; current = initial }

-- reload(). The second result is what the callback is called with.
unfoldable pub reload : Loaded → Watcher → Watcher × Option (Config × Config)
reload (failed x) w = (w, none)
reload (loaded cfg) w =
    let cfg' = record cfg { version = pos (w.version + 1) } in
    (record { version = w.version + 1; current = cfg' }, some (w.current, cfg'))
