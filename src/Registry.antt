-- ===== src/Registry.antt =====
-- internal/registry/registry.go: the sorted index of (provider, model) pairs. Each method is one step
-- under the registry's lock.
pub mod Order
pub mod Discovery
pub mod Index
pub mod Lookup
mod Examples
use local_router.Prelude.{
  ℕ, ◌+◌, String, Bool, true, false, ◌&&◌, not, Option, none, some, List, [], ◌∷◌, ◌++◌, map,
  length, keep, any, str_eq, str_lt, if◌then◌else◌, or_zero,
}
use local_router.Prelude.Int.{ℤ, pos, ltb_ℤ, eqb_ℤ}
use local_router.Prelude.Sorting.{sort}
use local_router.GoMap
use local_router.GoMap.{GoMap}
use local_router.Provider.{Float64}
use local_router.Config.{ModelConfig, ProviderConfig}

pub record Entry : Type 0 where
  pub provider_id : String
  pub model_id : String
  pub priority : ℤ
  pub is_free : Bool
  pub is_default : Bool
  pub is_remote : Bool
  pub api_key : String
  pub temperature : Option Float64
  pub top_p : Option Float64
  pub max_tokens : Option ℤ
  pub seed : Option ℤ
  pub is_discovered : Bool

-- Entry{}
abbrev pub zero_entry : Entry
zero_entry = record {
  provider_id = "";
  model_id = "";
  priority = pos 0;
  is_free = false;
  is_default = false;
  is_remote = false;
  api_key = "";
  temperature = none;
  top_p = none;
  max_tokens = none;
  seed = none;
  is_discovered = false;
}

pub record AnyModelEntry : Type 0 where
  pub provider_id : String
  pub priority : ℤ
  pub is_free : Bool
  pub is_remote : Bool

pub record Registry : Type 0 where
  pub all : List Entry
  pub by_model : GoMap (List Entry)
  pub by_provider : GoMap (List Entry)
  pub provider_order : List String
  pub local_ids : List String
  pub remote_ids : List String
  pub any_model : List AnyModelEntry
  pub injected : GoMap Bool

-- entryLess
unfoldable pub entry_less : Entry → Entry → Bool
entry_less a b =
    if not (eqb_ℤ a.priority b.priority)
    then ltb_ℤ a.priority b.priority
    else if not (str_eq a.provider_id b.provider_id)
    then str_lt a.provider_id b.provider_id
    else str_lt a.model_id b.model_id

unfoldable pub any_less : AnyModelEntry → AnyModelEntry → Bool
any_less a b = ltb_ℤ a.priority b.priority

-- `for _, e := range all { m[key(e)] = append(m[key(e)], e) }`
unfoldable pub index_from : (Entry → String) → GoMap (List Entry) → List Entry → GoMap (List Entry)
index_from key m [] = m
index_from key m (e ∷ es) =
    index_from key (GoMap.put m (key e) (or_zero [] (GoMap.get m (key e)) ++ e ∷ [])) es

abbrev pub index_by : (Entry → String) → List Entry → GoMap (List Entry)
index_by key es = index_from key GoMap.empty es

abbrev pub model_key : Entry → String
model_key e = e.model_id

abbrev pub provider_key : Entry → String
provider_key e = e.provider_id

-- The variables of `Build` while it goes through the providers.
pub record Building : Type 0 where
  pub all : List Entry
  pub any_model : List AnyModelEntry
  pub seen_providers : GoMap Bool
  pub provider_order : List String
  pub local_ids : List String
  pub remote_ids : List String

abbrev start_building : Building
start_building = record {
  all = [];
  any_model = [];
  seen_providers = GoMap.empty;
  provider_order = [];
  local_ids = [];
  remote_ids = [];
}

unfoldable pub note_provider : ProviderConfig → Building → Building
note_provider p b = if or_zero false (GoMap.get b.seen_providers p.id) then b else record b {
  seen_providers = GoMap.put b.seen_providers p.id true;
  provider_order = b.provider_order ++ p.id ∷ [];
  remote_ids = if p.is_remote then b.remote_ids ++ p.id ∷ [] else b.remote_ids;
  local_ids = if p.is_remote then b.local_ids else b.local_ids ++ p.id ∷ [];
}

unfoldable pub config_entry : String → ProviderConfig → ModelConfig → Entry
config_entry default_model p m = record {
  provider_id = p.id;
  model_id = m.id;
  priority = m.priority;
  is_free = m.is_free;
  is_default = str_eq m.id default_model;
  is_remote = p.is_remote;
  api_key = m.api_key;
  temperature = m.temperature;
  top_p = m.top_p;
  max_tokens = m.max_tokens;
  seed = m.seed;
  is_discovered = false;
}

unfoldable pub add_models : String → ProviderConfig → List ModelConfig → Building → Building
add_models default_model p [] b = record b {
  any_model =
      b.any_model
      ++ record {
        provider_id = p.id;
        priority = pos (length b.any_model + length b.all + 1);
        is_free = false;
        is_remote = p.is_remote;
      }
        ∷ [];
}
add_models default_model p (m ∷ ms) b = record b {
  all = b.all ++ map (config_entry default_model p) (m ∷ ms);
}

-- `for _, p := range providers`
unfoldable pub add_providers : String → List ProviderConfig → Building → Building
add_providers default_model [] b = b
add_providers default_model (p ∷ ps) b =
    add_providers default_model ps
      (if p.skipped then b else add_models default_model p p.models (note_provider p b))

unfoldable pub finish_building : Building → Registry
finish_building b =
    let all = sort entry_less b.all in
    record {
      all = all;
      by_model = index_by model_key all;
      by_provider = index_by provider_key all;
      provider_order = b.provider_order;
      local_ids = b.local_ids;
      remote_ids = b.remote_ids;
      any_model = sort any_less b.any_model;
      injected = GoMap.empty;
    }

-- Build(providers, defaultModel)
unfoldable pub build : List ProviderConfig → String → Registry
unfolding finish_building
build providers default_model =
    finish_building (add_providers default_model providers start_building)

unfoldable pub global_list : Registry → List Entry
global_list r = r.all

-- The loop of `ForModel` over the providers that take any model. An injected provider that has an
-- explicit entry for the model is passed over.
unfoldable pub wildcard_entries : GoMap Bool → List Entry → String → List AnyModelEntry → List Entry
wildcard_entries injected explicit id [] = []
wildcard_entries injected explicit id (a ∷ anys) =
    let rest = wildcard_entries injected explicit id anys in
    if or_zero false (GoMap.get injected a.provider_id)
      && any (λ e. str_eq e.provider_id a.provider_id) explicit
    then rest
    else record zero_entry {
      provider_id = a.provider_id;
      model_id = id;
      priority = a.priority;
      is_remote = a.is_remote;
    }
      ∷ rest

-- ForModel(id). The source returns nil where there is no entry; callers take its length.
unfoldable pub for_model : Registry → String → List Entry
for_model r id =
    let explicit = or_zero [] (GoMap.get r.by_model id) in
    sort entry_less (explicit ++ wildcard_entries r.injected explicit id r.any_model)

unfoldable pub for_provider_id : Registry → String → List Entry
for_provider_id r provider_id = or_zero [] (GoMap.get r.by_provider provider_id)

unfoldable pub any_model_provider_ids : Registry → List String
any_model_provider_ids r = map (λ a. a.provider_id) r.any_model
