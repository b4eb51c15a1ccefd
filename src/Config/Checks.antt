-- ===== src/Config/Checks.antt =====
-- `normaliseNewSchema`, `validateNewSchema`, `validate` and the accessors of internal/config/config.go.
-- `strings.TrimSpace` is the parameter `trim`.
use local_router.Prelude.{
  String, Bool, true, false, not, ◌&&◌, ◌||◌, Option, none, some, List, [], ◌∷◌, ◌++◌, any, map,
  if◌then◌else◌, str_eq, or_zero,
}
use local_router.Prelude.Int.{ℤ, pos, ltb_ℤ, leb_ℤ, eqb_ℤ}
use local_router.Prelude.Time.{Duration}
use local_router.GoMap
use local_router.GoMap.{GoMap, get-put, get-empty}
use local_router.Config.{
  LimitEntry, ModelConfig, ProviderConfig, LocalNodeConfig, RemoteProviderConfig, Config,
}

unfoldable pub stream_timeout_ms_or_default : ProviderConfig → ℤ
stream_timeout_ms_or_default p =
    if ltb_ℤ (pos 0) p.stream_timeout_ms then p.stream_timeout_ms else p.timeout_ms

-- One hour where none is configured.
unfoldable pub recovery_window_or_default : ProviderConfig → Duration
recovery_window_or_default p =
    if eqb_ℤ p.recovery_window_dur (pos 0) then pos 3600000000000 else p.recovery_window_dur

unfoldable pub redacted : ProviderConfig → ProviderConfig
redacted p = if str_eq p.api_key "" then p else record p { api_key = "[REDACTED]" }

abbrev pub is_cons : {A : Type 0} → List A → Bool
is_cons [] = false
is_cons (x ∷ xs) = true

unfoldable pub is_new_schema : Config → Bool
is_new_schema cfg = is_cons cfg.nodes || is_cons cfg.remotes

-- ProviderConfig{}
abbrev pub zero_provider : ProviderConfig
zero_provider = record {
  id = "";
  type = "";
  endpoint = "";
  api_key = "";
  timeout_ms = pos 0;
  stream_timeout_ms = pos 0;
  chat_path = "";
  health_check_path = "";
  recovery_window = "";
  limits = [];
  models = [];
  is_remote = false;
  skipped = false;
  recovery_window_dur = pos 0;
}

unfoldable pub of_node : LocalNodeConfig → ProviderConfig
of_node n = record zero_provider {
  id = n.id;
  type = n.type;
  endpoint = n.endpoint;
  timeout_ms = n.timeout_ms;
  api_key = n.api_key;
}

unfoldable pub of_remote : RemoteProviderConfig → ProviderConfig
of_remote r = record zero_provider {
  id = r.id;
  type = r.type;
  endpoint = r.endpoint;
  timeout_ms = r.timeout_ms;
  api_key = r.api_key;
  is_remote = true;
}

unfoldable pub normalise_new_schema : Config → Config
normalise_new_schema cfg = record cfg {
  providers = (cfg.providers ++ map of_node cfg.nodes) ++ map of_remote cfg.remotes;
}

-- The errors, by their texts.
pub data ConfigError : Type 0 where
  wrong_version : ℤ → ConfigError
  missing_id : ConfigError
  duplicate_id : String → ConfigError
  unknown_type missing_endpoint model_priority limit_requests limit_window limit_concurrency :
      String → ConfigError
  default_not_found : String → ConfigError

abbrev pub valid_type : String → Bool
valid_type t =
    str_eq t "ollama"
    || str_eq t "openai-compatible"
    || str_eq t "anthropic"
    || str_eq t "google"
    || str_eq t "cohere"
    || str_eq t "mistral"

abbrev pub needs_endpoint : String → Bool
needs_endpoint t = str_eq t "ollama" || str_eq t "openai-compatible" || str_eq t "mistral"

-- The first error of two checks.
abbrev pub first_error : Option ConfigError → Option ConfigError → Option ConfigError
first_error (some x) later = some x
first_error none later = later

-- Rule 2. `ids` is the set of the ids so far.
unfoldable pub check_ids : GoMap Bool → List ProviderConfig → Option ConfigError
check_ids ids [] = none
check_ids ids (p ∷ ps) =
    let rest = check_ids (GoMap.put ids p.id true) ps in
    if str_eq p.id ""
    then some missing_id
    else if or_zero false (GoMap.get ids p.id)
    then some (duplicate_id p.id)
    else rest

unfoldable pub check_type : ProviderConfig → Option ConfigError
check_type p =
    if not (valid_type p.type)
    then some (unknown_type p.id)
    else if needs_endpoint p.type && str_eq p.endpoint ""
    then some (missing_endpoint p.id)
    else none

unfoldable pub check_priorities : String → List ModelConfig → Option ConfigError
check_priorities id [] = none
check_priorities id (m ∷ ms) =
    let rest = check_priorities id ms in
    if leb_ℤ m.priority (pos 0) then some (model_priority id) else rest

unfoldable pub check_limits : String → List LimitEntry → Option ConfigError
check_limits id [] = none
check_limits id (e ∷ es) =
    let rest = check_limits id es in
    if leb_ℤ e.requests (pos 0)
    then some (limit_requests id)
    else if str_eq e.window ""
    then some (limit_window id)
    else if ltb_ℤ e.concurrent_requests (pos 0)
    then some (limit_concurrency id)
    else rest

-- The limits of a model, of which only the concurrency is looked at.
unfoldable pub check_concurrency : String → List LimitEntry → Option ConfigError
check_concurrency id [] = none
check_concurrency id (e ∷ es) =
    let rest = check_concurrency id es in
    if ltb_ℤ e.concurrent_requests (pos 0) then some (limit_concurrency id) else rest

unfoldable pub check_model_limits : String → List ModelConfig → Option ConfigError
unfolding check_concurrency
check_model_limits id [] = none
check_model_limits id (m ∷ ms) =
    first_error (check_concurrency id m.limits) (check_model_limits id ms)

unfoldable pub check_provider : ProviderConfig → Option ConfigError
unfolding check_type check_priorities check_limits check_model_limits
check_provider p = first_error (check_type p) (
    first_error (check_priorities p.id p.models)
      (first_error (check_limits p.id p.limits) (check_model_limits p.id p.models)))

unfoldable pub check_providers : List ProviderConfig → Option ConfigError
unfolding check_provider
check_providers [] = none
check_providers (p ∷ ps) = first_error (check_provider p) (check_providers ps)

abbrev pub offers : String → ProviderConfig → Bool
offers model p = not p.skipped && any (λ m. str_eq m.id model) p.models

-- Rule 5.
unfoldable pub check_default : String → List ProviderConfig → Option ConfigError
check_default model ps =
    if str_eq model ""
    then none
    else if any (offers model) ps
    then none
    else some (default_not_found model)

unfoldable pub validate : (String → String) → Config → Option ConfigError
unfolding check_ids check_providers check_default
validate trim cfg =
    if not (eqb_ℤ cfg.version (pos 2))
    then some (wrong_version cfg.version)
    else first_error (check_ids GoMap.empty cfg.providers) (
        first_error (check_providers cfg.providers)
          (check_default (trim cfg.default_model) cfg.providers))

-- The loop of `validateNewSchema`.
unfoldable pub check_new_schema : GoMap Bool → List ProviderConfig → Option ConfigError
unfolding check_type
check_new_schema ids [] = none
check_new_schema ids (p ∷ ps) =
    let rest = first_error (check_type p) (check_new_schema (GoMap.put ids p.id true) ps) in
    if str_eq p.id ""
    then some missing_id
    else if or_zero false (GoMap.get ids p.id)
    then some (duplicate_id p.id)
    else rest

unfoldable pub validate_new_schema : Config → Option ConfigError
unfolding check_new_schema
validate_new_schema cfg = check_new_schema GoMap.empty cfg.providers
