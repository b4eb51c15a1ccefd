-- ===== src/Registry/Discovery.antt =====
-- `SetDiscoveredModels` of internal/registry/registry.go.
use local_router.Prelude.{
  String, Bool, true, ◌&&◌, not, Option, none, some, List, [], ◌∷◌, ◌++◌, keep, any, str_eq,
  if◌then◌else◌, or_zero,
}
use local_router.Prelude.Int.{ℤ, pos, ◌+ℤ◌, ltb_ℤ}
use local_router.Prelude.Sorting.{sort}
use local_router.GoMap
use local_router.GoMap.{GoMap}
use local_router.Registry.{
  Entry, zero_entry, AnyModelEntry, Registry, entry_less, index_by, model_key, provider_key,
}

-- The first loop: the entry of a provider that takes any model.
unfoldable pub find_any : String → List AnyModelEntry → Option AnyModelEntry
find_any id [] = none
find_any id (a ∷ anys) =
    let rest = find_any id anys in if str_eq a.provider_id id then some a else rest

unfoldable pub max_config_priority : ℤ → List Entry → ℤ
max_config_priority top [] = top
max_config_priority top (e ∷ es) =
    max_config_priority (if not e.is_discovered && ltb_ℤ top e.priority then e.priority else top) es

unfoldable pub find_config : List Entry → Option Entry
find_config [] = none
find_config (e ∷ es) = let rest = find_config es in if e.is_discovered then rest else some e

-- `isRemote` and `basePriority`; `none` for an unknown provider.
unfoldable pub base_of : Registry → String → Option (Bool × ℤ)
base_of r id = elim (find_any id r.any_model) [
  | some a ↦ some (a.is_remote, a.priority)
  | none ↦ elim (find_config (or_zero [] (GoMap.get r.by_provider id))) [
    | none ↦ none
    | some e ↦ some (e.is_remote, max_config_priority (pos 0) r.all +ℤ pos 1)
  ]
]

-- configModels[modelID]
unfoldable pub in_config : List Entry → String → Bool
in_config entries model_id = any (λ e. not e.is_discovered && str_eq e.model_id model_id) entries

abbrev pub is_stale : String → Entry → Bool
is_stale id e = str_eq e.provider_id id && e.is_discovered

unfoldable pub discovered_entry : String → String → Bool → ℤ → String → Entry
discovered_entry id default_model is_remote priority model_id = record zero_entry {
  provider_id = id;
  model_id = model_id;
  priority = priority;
  is_default = str_eq model_id default_model;
  is_remote = is_remote;
  is_discovered = true;
}

-- The loop that makes `newEntries`; `priority` is `currentPriority`.
unfoldable pub new_entries : String → String → Bool → List Entry → ℤ → List String → List Entry
new_entries id default_model is_remote own priority [] = []
new_entries id default_model is_remote own priority (model_id ∷ ids) =
    let skipped = new_entries id default_model is_remote own priority ids in
    let rest = new_entries id default_model is_remote own (priority +ℤ pos 1) ids in
    if in_config own model_id
    then skipped
    else discovered_entry id default_model is_remote priority model_id ∷ rest

unfoldable pub install : String → List Entry → Registry → Registry
install id es r =
    let all = sort entry_less es in
    record r {
      all = all;
      by_model = index_by model_key all;
      by_provider = index_by provider_key all;
      injected = GoMap.put r.injected id true;
    }

unfoldable pub set_discovered_models : String → List String → String → Registry → Registry
set_discovered_models id model_ids default_model r = elim (base_of r id) [
  | none ↦ r
  | some (is_remote, base) ↦
      let own = or_zero [] (GoMap.get r.by_provider id) in
      install id
        (keep (λ e. not (is_stale id e)) r.all
          ++ new_entries id default_model is_remote own base model_ids)
        r
]
