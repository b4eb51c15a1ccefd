-- ===== src/Start/Slots.antt =====
-- The slots that `concurrencyLimits` of cmd/localrouter/main.go gives the trackers.
use local_router.Prelude.{
  ◌≡◌, refl, ◌∙◌, inl, inr, String, false, Option, none, some, List, [], ◌∷◌, All, any, map,
  Bool-cases, Option-cases, str_eq, eq_iff, if◌then◌else◌, arith, or_zero,
}
use local_router.Prelude.Int.{ℤ, pos, ltb_ℤ}
use local_router.GoMap
use local_router.GoMap.{GoMap, get-put, get-empty, keys-get}
use local_router.Config.{LimitEntry, ProviderConfig, Config}
use local_router.Config.Schema.{Distinct}
use local_router.Limits.Window
use local_router.Limits.Concurrency.{ConcurrencyTracker}
use local_router.Limits.Tracker.{
  Tracker, concurrency_map, set_concurrency_limits, concurrency_for, configs_for,
}
use local_router.Limits.Tracker
use local_router.Start.Build.{first_slots, put_slots, slots_from, concurrency_limits}
use local_router.Start.Boot.{ranged, new_tracker}

put_slots-get :
    (key id : String) (es : List LimitEntry) (m : GoMap ℤ)
    → GoMap.get m key ≡ none
    → GoMap.get (put_slots key es m) id ≡ (if str_eq key id then first_slots es else GoMap.get m id)
unfolding put_slots
put_slots-get key id es m blank = elim (Option-cases (first_slots es)) [
  | inl e ↦ ground (arith, e, blank, eq_iff key id)
  | inr (n, e) ↦ ground (arith, e, eq_iff key id, get-put m key id n)
]

slots_step : ProviderConfig → GoMap ℤ → GoMap ℤ
slots_step c m = if c.skipped then m else put_slots c.id c.limits m

slots_step-get :
    (c : ProviderConfig) (id : String) (m : GoMap ℤ)
    → GoMap.get m c.id ≡ none
    → GoMap.get (slots_step c m) id ≡ (
        if str_eq c.id id
        then (if c.skipped then none else first_slots c.limits)
        else GoMap.get m id)
unfolding slots_step
slots_step-get c id m blank = elim (Bool-cases c.skipped) [
  | inl skipped ↦ ground (arith, skipped, blank, eq_iff c.id id)
  | inr active ↦ ground (arith, active, put_slots-get c.id id c.limits m blank)
]

slots_step-blank :
    (c : ProviderConfig) (m : GoMap ℤ) (cs : List ProviderConfig)
    → GoMap.get m c.id ≡ none
    → All (λ q. str_eq c.id q.id ≡ false) cs
    → All (λ q. GoMap.get m q.id ≡ none) cs
    → All (λ q. GoMap.get (slots_step c m) q.id ≡ none) cs
slots_step-blank c m [] blank differ all = tt
slots_step-blank c m (q ∷ qs) blank (d, differ) (n, all) =
    (ground (arith, d, n, slots_step-get c q.id m blank), slots_step-blank c m qs blank differ all)

slots_from-other :
    (id : String) (cs : List ProviderConfig) (m : GoMap ℤ)
    → Distinct cs
    → All (λ q. str_eq id q.id ≡ false) cs
    → All (λ q. GoMap.get m q.id ≡ none) cs
    → GoMap.get (slots_from cs m) id ≡ GoMap.get m id
unfolding slots_from slots_step
slots_from-other id [] m distinct differ blank = refl
slots_from-other id (c ∷ cs) m (named, apart, distinct) (here, later) (none_here, blank) =
    slots_from-other id cs (slots_step c m) distinct later
      (slots_step-blank c m cs none_here apart blank)
    ∙ ground (arith, here, eq_iff id c.id, eq_iff c.id id, slots_step-get c id m none_here)

-- The slots of a provider: those of its first limit that has a positive number of them.
abbrev pub HasSlots : GoMap ℤ → ProviderConfig → Type 0
HasSlots m c = GoMap.get m c.id ≡ (if c.skipped then none else first_slots c.limits)

slots_from-HasSlots :
    (cs : List ProviderConfig) (m : GoMap ℤ)
    → Distinct cs
    → All (λ q. GoMap.get m q.id ≡ none) cs
    → All (HasSlots (slots_from cs m)) cs
unfolding slots_from slots_step
slots_from-HasSlots [] m distinct blank = tt
slots_from-HasSlots (c ∷ cs) m (named, apart, distinct) (none_here, blank) =
    let blank' = slots_step-blank c m cs none_here apart blank in
    (
      slots_from-other c.id cs (slots_step c m) distinct apart blank'
          ∙ ground (arith, eq_iff c.id c.id, slots_step-get c c.id m none_here),
      slots_from-HasSlots cs (slots_step c m) distinct blank',
    )

All-empty : (cs : List ProviderConfig) → All (λ q. GoMap.get (GoMap.empty {V = ℤ}) q.id ≡ none) cs
All-empty [] = tt
All-empty (c ∷ cs) = (get-empty c.id, All-empty cs)

pub concurrency_limits-HasSlots :
    (cfg : Config) → Distinct cfg.providers → All (HasSlots (concurrency_limits cfg)) cfg.providers
unfolding concurrency_limits
concurrency_limits-HasSlots cfg distinct =
    slots_from-HasSlots cfg.providers GoMap.empty distinct (All-empty cfg.providers)

-- A counter with all its slots free, where there are any.
abbrev pub free_slots : Option ℤ → Option ConcurrencyTracker
free_slots none = none
free_slots (some n) = if ltb_ℤ (pos 0) n then some (record { active = pos 0; limit = n }) else none

value : GoMap ℤ → String → ℤ
value m id = or_zero (pos 0) (GoMap.get m id)

concurrency_map-get :
    (m : GoMap ℤ) (ids : List String) (id : String)
    → GoMap.get (concurrency_map (map (λ k. (k, or_zero (pos 0) (GoMap.get m k))) ids)) id ≡ (
        if any (λ k. str_eq k id) ids
        then free_slots (some (or_zero (pos 0) (GoMap.get m id)))
        else none)
unfolding concurrency_map any
concurrency_map-get m [] id = get-empty id
concurrency_map-get m (k ∷ ks) id =
    let rest = concurrency_map (map (λ j. (j, or_zero (pos 0) (GoMap.get m j))) ks) in
    let n = or_zero (pos 0) (GoMap.get m k) in
    elim (Bool-cases (ltb_ℤ (pos 0) n)) [
      | inl some_slots ↦ ground (
        arith,
        some_slots,
        eq_iff k id,
        concurrency_map-get m ks id,
        get-put rest k id (record { active = pos 0; limit = n }),
      )
      | inr no_slots ↦ ground (arith, no_slots, eq_iff k id, concurrency_map-get m ks id)
    ]

pub concurrency_for-new_tracker :
    (configs : GoMap (List Window.Config)) (m : GoMap ℤ) (id : String)
    → concurrency_for (new_tracker configs m) id ≡ free_slots (GoMap.get m id)
unfolding concurrency_for new_tracker set_concurrency_limits ranged
concurrency_for-new_tracker configs m id = elim (Option-cases (GoMap.get m id)) [
  | inl e ↦ concurrency_map-get m (GoMap.keys m) id ∙ ground (arith, e)
  | inr (n, e) ↦ concurrency_map-get m (GoMap.keys m) id ∙ ground (arith, e, keys-get m id n e)
]

pub configs_for-new_tracker :
    (configs : GoMap (List Window.Config)) (m : GoMap ℤ) (id : String)
    → configs_for (new_tracker configs m) id ≡ GoMap.get configs id
unfolding configs_for new_tracker set_concurrency_limits Tracker.new
configs_for-new_tracker configs m id = refl
