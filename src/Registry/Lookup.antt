-- ===== src/Registry/Lookup.antt =====
-- What the router gets from the registry, and what discovery adds to it.
use mathlib.Core.List.{Perm}
use local_router.Prelude.{
  ℕ, zero, suc, ◌≡◌, refl, ◌∙◌, ap, String, Bool, true, false, ◌||◌, not, map, some, List, [], ◌∷◌,
  ◌++◌, keep, any, str_eq, eq_iff, or_zero, arith, inl, inr, Bool-cases, All, Some, In, All-append,
  All-keep, In-keep_of_In, Some-append_left, Some-append_right, get_elem?, subst,
}
use local_router.Prelude.Int.{ℤ, pos, ◌+ℤ◌, +ℤ_parts, eq_of_parts}
use local_router.Prelude.Sorting.{IsSorted, sort-IsSorted, sort-perm, All-sort, Some-sort}
use local_router.GoMap
use local_router.GoMap.{GoMap}
use local_router.Registry.{
  Entry, zero_entry, AnyModelEntry, Registry, entry_less, model_key, for_model, wildcard_entries,
}
use local_router.Registry.Order.{entry_less-IsOrder}
use local_router.Registry.Index.{IsIndexed, with_key}
use local_router.Registry.Discovery.{
  set_discovered_models, install, base_of, new_entries, discovered_entry, in_config, is_stale,
}

-- A provider that takes any model gets an entry, unless it is injected and has one among `own`.
abbrev pub gets_entry : GoMap Bool → List Entry → AnyModelEntry → Bool
gets_entry injected own a =
    not (or_zero false (GoMap.get injected a.provider_id))
    || not (any (λ e. str_eq e.provider_id a.provider_id) own)

-- The entry that it gets: its own priority, no parameters and no key.
abbrev pub any_entry : String → AnyModelEntry → Entry
any_entry id a = record zero_entry {
  provider_id = a.provider_id;
  model_id = id;
  priority = a.priority;
  is_remote = a.is_remote;
}

wildcard_entries-keep :
    (injected : GoMap Bool) (own : List Entry) (id : String) (anys : List AnyModelEntry)
    → wildcard_entries injected own id anys
      ≡ map (any_entry id) (keep (gets_entry injected own) anys)
unfolding wildcard_entries keep
wildcard_entries-keep injected own id [] = refl
wildcard_entries-keep injected own id (a ∷ anys) =
    elim (Bool-cases (or_zero false (GoMap.get injected a.provider_id))) [
      | inl is_injected ↦ elim (Bool-cases (any (λ e. str_eq e.provider_id a.provider_id) own)) [
        | inl has ↦ rw (is_injected, has) (wildcard_entries-keep injected own id anys)
        | inr lacks ↦
            rw (is_injected, lacks)
              (ap (λ es. any_entry id a ∷ es) (wildcard_entries-keep injected own id anys))
      ]
      | inr configured ↦
          rw configured
            (ap (λ es. any_entry id a ∷ es) (wildcard_entries-keep injected own id anys))
    ]

any_entry-model :
    (id : String) (anys : List AnyModelEntry) → All (λ e. e.model_id ≡ id) (map (any_entry id) anys)
any_entry-model id [] = tt
any_entry-model id (a ∷ anys) = (refl, any_entry-model id anys)

-- On an indexed registry `ForModel` returns, in the order (priority, provider, model), the registry's
-- own entries for the model, and one with its priority for each provider that takes any model, save
-- those that were made so by discovery and are among the former; every one of them is for that model.
pub for_model-entries :
    (r : Registry) (id : String)
    → IsIndexed r
    → let own = with_key model_key id r.all in
      IsSorted entry_less (for_model r id)
      × All (λ e. e.model_id ≡ id) (for_model r id)
      × Perm
          (for_model r id)
          (own ++ map (any_entry id) (keep (gets_entry r.injected own) r.any_model))
unfolding for_model
for_model-entries r id v = rw (v.models id) (
    let own = with_key model_key id r.all in
    let wild = map (any_entry id) (keep (gets_entry r.injected own) r.any_model) in
    rw (wildcard_entries-keep r.injected own id r.any_model) (
      sort-IsSorted entry_less entry_less-IsOrder (own ++ wild),
      All-sort entry_less (λ e. e.model_id ≡ id) (own ++ wild)
          (All-append (λ e. e.model_id ≡ id) own wild
            (All-keep (λ e. e.model_id ≡ id) (λ e. str_eq e.model_id id) r.all
              (λ e h. (eq_iff e.model_id id).0 h))
            (any_entry-model id (keep (gets_entry r.injected own) r.any_model))),
      sort-perm entry_less (own ++ wild),
    ))

-- A discovered entry with the next free priority, for each model that the config does not name.
abbrev pub IsNew : String → List Entry → Entry → Type 0
IsNew id own e =
    (e.provider_id ≡ id) × (e.is_discovered ≡ true) × (in_config own e.model_id ≡ false)

plus_zero : (a : ℤ) → a ≡ a +ℤ pos 0
plus_zero a = eq_of_parts a (a +ℤ pos 0) (omega (arith, +ℤ_parts a (pos 0)))

plus_suc : (a : ℤ) (n : ℕ) → a +ℤ pos 1 +ℤ pos n ≡ a +ℤ pos (suc n)
plus_suc a n =
    eq_of_parts _ _
      (omega (arith, +ℤ_parts a (pos 1), +ℤ_parts (a +ℤ pos 1) (pos n), +ℤ_parts a (pos (suc n))))

-- The entries that discovery makes for a provider have the priorities `base`, `base + 1`, … in the
-- order in which the provider lists its models, and repeat no model that its config names.
pub new_entries-priorities :
    (id d : String) (remote : Bool) (own : List Entry) (base : ℤ) (ids : List String) (i : ℕ)
    (e : Entry)
    → get_elem? (new_entries id d remote own base ids) i ≡ some e
    → (e.priority ≡ base +ℤ pos i) × IsNew id own e
unfolding new_entries discovered_entry
new_entries-priorities id d remote own base [] i e h = cc
new_entries-priorities id d remote own base (m ∷ ids) zero e h =
    elim (Bool-cases (in_config own m)) [
      | inl named ↦ new_entries-priorities id d remote own base ids zero e (rw named at h)
      | inr fresh ↦
          let same : discovered_entry id d remote base m ≡ e = cc (rw fresh at h) in
          subst (λ x. (x.priority ≡ base +ℤ pos 0) × IsNew id own x) same
            (plus_zero base, (refl, refl, fresh))
    ]
new_entries-priorities id d remote own base (m ∷ ids) (suc i) e h =
    elim (Bool-cases (in_config own m)) [
      | inl named ↦ new_entries-priorities id d remote own base ids (suc i) e (rw named at h)
      | inr fresh ↦
          let (p, is_new) =
            new_entries-priorities id d remote own (base +ℤ pos 1) ids i e (rw fresh at h) in
          (p ∙ plus_suc base i, is_new)
    ]

Some-new_entries :
    (id d m : String) (remote : Bool) (own : List Entry) (base : ℤ) (ids : List String)
    → In m ids
    → in_config own m ≡ false
    → Some (λ e. (e.provider_id ≡ id) × (e.model_id ≡ m)) (new_entries id d remote own base ids)
unfolding new_entries discovered_entry
Some-new_entries id d m remote own base [] h new = absurd h
Some-new_entries id d m remote own base (x ∷ ids) (inl e) new =
    rw (ap (in_config own) e ∙ new) (inl (refl, e))
Some-new_entries id d m remote own base (x ∷ ids) (inr h) new =
    elim (Bool-cases (in_config own x)) [
      | inl named ↦ rw named (Some-new_entries id d m remote own base ids h new)
      | inr fresh ↦ rw fresh (inr (Some-new_entries id d m remote own (base +ℤ pos 1) ids h new))
    ]

-- For a known provider, every entry but the provider's earlier discoveries survives unchanged, and
-- every model that the provider lists is there afterwards, unless its config names it already.
pub set_discovered_models-all :
    (id d : String) (ids : List String) (r : Registry) (base : Bool × ℤ)
    → base_of r id ≡ some base
    → let all = (set_discovered_models id ids d r).all in
      let own = or_zero [] (GoMap.get r.by_provider id) in
      ((e : Entry) → In e r.all → is_stale id e ≡ false → In e all)
      × ((m : String)
          → In m ids
          → in_config own m ≡ false
          → Some (λ e. (e.provider_id ≡ id) × (e.model_id ≡ m)) all)
unfolding set_discovered_models install
set_discovered_models-all id d ids r (remote, base) known =
    let own = or_zero [] (GoMap.get r.by_provider id) in
    let old = keep (λ e. not (is_stale id e)) r.all in
    let new = new_entries id d remote own base ids in
    rw (known, set_discovered_models)
      (
        λ e m fresh.
            Some-sort entry_less (λ x. x ≡ e) (old ++ new)
              (Some-append_left (λ x. x ≡ e) old new
                (In-keep_of_In (λ x. not (is_stale id x)) e r.all m (ap not fresh))),
        λ m listed unnamed.
            Some-sort entry_less (λ e. (e.provider_id ≡ id) × (e.model_id ≡ m)) (old ++ new)
              (Some-append_right (λ e. (e.provider_id ≡ id) × (e.model_id ≡ m)) old new
                (Some-new_entries id d m remote own base ids listed unnamed)),
      )
