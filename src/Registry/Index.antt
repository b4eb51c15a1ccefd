-- ===== src/Registry/Index.antt =====
-- The invariant of a registry (internal/registry/registry.go) between two calls.
use local_router.Prelude.{
  ◌≡◌, sym, ◌∙◌, ap, String, List, [], ◌∷◌, ◌++◌, keep, str_eq, eq_iff, if◌then◌else◌, or_zero,
  arith, Option-cases, inl, inr, Bool-cases,
}
use mathlib.Core.List.{append-nil, append_assoc}
use local_router.Prelude.Sorting.{IsSorted, sort-IsSorted}
use local_router.GoMap
use local_router.GoMap.{GoMap, get-put, get-empty}
use local_router.Config.{ProviderConfig}
use local_router.Registry.{
  Entry, Registry, entry_less, index_from, index_by, model_key, provider_key, build,
}
use local_router.Registry.Order.{entry_less-IsOrder}
use local_router.Registry.Discovery.{set_discovered_models, install, base_of}

-- The entries whose key is `k`, in order.
abbrev pub with_key : (Entry → String) → String → List Entry → List Entry
with_key key k es = keep (λ e. str_eq (key e) k) es

abbrev found : GoMap (List Entry) → String → List Entry
found m k = or_zero [] (GoMap.get m k)

-- One round of the loops that build the maps.
found-append :
    (m : GoMap (List Entry)) (j k : String) (v : List Entry)
    → found (GoMap.put m j (found m j ++ v)) k ≡ (if str_eq j k then found m k ++ v else found m k)
found-append m j k v = ground (arith, get-put m j k (found m j ++ v), eq_iff j k)

index_from-found :
    (key : Entry → String) (m : GoMap (List Entry)) (es : List Entry) (k : String)
    → found (index_from key m es) k ≡ found m k ++ with_key key k es
unfolding index_from keep
index_from-found key m [] k = sym (append-nil _)
index_from-found key m (e ∷ es) k =
    let m' = GoMap.put m (key e) (found m (key e) ++ e ∷ []) in
    let step = found-append m (key e) k (e ∷ []) in
    let ih = index_from-found key m' es k in
    elim (Bool-cases (str_eq (key e) k)) [
      | inl here ↦ rw here (
          ih
          ∙ ap (λ l. l ++ with_key key k es) (rw here at step)
          ∙ append_assoc (found m k) (e ∷ []) (with_key key k es))
      | inr there ↦ rw there (ih ∙ ap (λ l. l ++ with_key key k es) (rw there at step))
    ]

index_by-found :
    (key : Entry → String) (es : List Entry) (k : String)
    → or_zero [] (GoMap.get (index_by key es) k) ≡ with_key key k es
index_by-found key es k =
    index_from-found key GoMap.empty es k
    ∙ ap (λ o. or_zero [] o ++ with_key key k es) (get-empty {V = List Entry} k)

pub record IsIndexed (r : Registry) : Type 0 where
  pub sorted : IsSorted entry_less r.all
  pub models : (k : String) → or_zero [] (GoMap.get r.by_model k) ≡ with_key model_key k r.all
  pub providers :
      (k : String) → or_zero [] (GoMap.get r.by_provider k) ≡ with_key provider_key k r.all

-- A registry that `Build` makes is sorted by (priority, provider, model), and its two maps hold the
-- entries of each model and of each provider in that order.
pub build-IsIndexed : (ps : List ProviderConfig) (d : String) → IsIndexed (build ps d)
unfolding build
build-IsIndexed ps d = record {
  sorted = sort-IsSorted entry_less entry_less-IsOrder _;
  models = index_by-found model_key _;
  providers = index_by-found provider_key _;
}

-- `SetDiscoveredModels` keeps the registry sorted and its maps true to its list.
pub set_discovered_models-IsIndexed :
    (id : String) (ids : List String) (d : String) (r : Registry)
    → IsIndexed r
    → IsIndexed (set_discovered_models id ids d r)
unfolding set_discovered_models install
set_discovered_models-IsIndexed id ids d r v = elim (Option-cases (base_of r id)) [
  | inl unknown ↦ rw (unknown, set_discovered_models) v
  | inr (b, known) ↦
      rw (known, set_discovered_models)
        (record {
          sorted = sort-IsSorted entry_less entry_less-IsOrder _;
          models = index_by-found model_key _;
          providers = index_by-found provider_key _;
        })
]
