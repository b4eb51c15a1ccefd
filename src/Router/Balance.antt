-- ===== src/Router/Balance.antt =====
-- The slots that a round of the router takes and gives back (internal/router/router.go,
-- internal/limits/tracker.go).
use local_router.Prelude.{
  ◌≡◌, inl, inr, ap, String, false, Option, none, some, ◌∙◌, str_eq, eq_iff, if◌then◌else◌, arith,
  Option-cases, Bool-cases,
}
use local_router.GoMap.{get-put}
use local_router.Limits.Concurrency.{
  ConcurrencyTracker, IsBounded, try_acquire, release-try_acquire,
}
use local_router.Limits.Concurrency
use local_router.Limits.Tracker.{
  Tracker, concurrency_for, store_concurrency, try_acquire_concurrency, release_concurrency,
}
use local_router.Registry.{Entry}
use local_router.Router.{Services, model_key}
use local_router.Router.Slots.{acquire_model, acquire_concurrency, release_model, release}

-- Every count lies within its limit.
unfoldable pub HasBoundedSlots : Tracker → Type 0
HasBoundedSlots t =
    (id : String) (c : ConcurrencyTracker) → concurrency_for t id ≡ some c → IsBounded c

concurrency_for-store_concurrency :
    (t : Tracker) (id other : String) (c d : ConcurrencyTracker)
    → concurrency_for t id ≡ some d
    → concurrency_for (store_concurrency t id c) other
      ≡ (if str_eq id other then some c else concurrency_for t other)
unfolding concurrency_for store_concurrency
concurrency_for-store_concurrency t id other c d h = elim (Option-cases t.concurrency) [
  | inl off ↦ absurd (ground (arith, off))
  | inr (m, on) ↦ rw (on, concurrency_for, store_concurrency) (get-put m id other c)
]

stored :
    (t : Tracker) (id : String) (c d : ConcurrencyTracker)
    → concurrency_for t id ≡ some d
    → concurrency_for (store_concurrency t id c) id ≡ some c
stored t id c d h = ground (arith, concurrency_for-store_concurrency t id id c d h, eq_iff id id)

release_concurrency-stored :
    (t : Tracker) (id other : String) (c d : ConcurrencyTracker)
    → concurrency_for t id ≡ some d
    → Concurrency.release c ≡ d
    → concurrency_for (release_concurrency (store_concurrency t id c) id) other
      ≡ concurrency_for t other
unfolding release_concurrency
release_concurrency-stored t id other c d h undone =
    rw (stored t id c d h, release_concurrency)
      (ground (
        arith,
        concurrency_for-store_concurrency t id other c d h,
        eq_iff id other,
        concurrency_for-store_concurrency (store_concurrency t id c) id other
            (Concurrency.release c) c (stored t id c d h),
      ))

store_concurrency-same :
    (t : Tracker) (id other : String) (c : ConcurrencyTracker)
    → concurrency_for t id ≡ some c
    → concurrency_for (store_concurrency t id c) other ≡ concurrency_for t other
store_concurrency-same t id other c h =
    ground (arith, concurrency_for-store_concurrency t id other c c h, eq_iff id other)

try_acquire_refused : (c : ConcurrencyTracker) → (try_acquire c).1 ≡ false → (try_acquire c).0 ≡ c
unfolding try_acquire
try_acquire_refused c h = ground arith

-- What becomes of a tracker when a slot is asked for, and given back if it was granted.
unfoldable pub settled : Tracker → String → Tracker
settled t id =
    let (t', got) = try_acquire_concurrency t id in if got then release_concurrency t' id else t'

pub concurrency_for-settled :
    (t : Tracker) (id other : String)
    → HasBoundedSlots t
    → concurrency_for (settled t id) other ≡ concurrency_for t other
unfolding try_acquire_concurrency settled HasBoundedSlots release_concurrency
concurrency_for-settled t id other b = elim (Option-cases (concurrency_for t id)) [
  | inl free ↦ ground (arith, free)
  | inr (c, there) ↦ elim (Bool-cases (try_acquire c).1) [
    | inl got ↦ ground (
      arith,
      there,
      got,
      release_concurrency-stored t id other (try_acquire c).0 c there
          (release-try_acquire c (b id c there) got),
    )
    | inr full ↦
        ground (
          arith,
          there,
          full,
          try_acquire_refused c full,
          store_concurrency-same t id other c there,
        )
  ]
]

-- The services after a round has asked for the slots of an entry and given back what it got.
unfoldable pub settle : Entry → Services → Services
settle e s =
    let (s', got) = acquire_concurrency e s in if got then release s.generation e s' else s'

abbrev pub slot_of : Option Tracker → String → Option ConcurrencyTracker
slot_of none id = none
slot_of (some t) id = concurrency_for t id

abbrev pub ModelSlotsBounded : Option Tracker → Type 0
ModelSlotsBounded none = Unit
ModelSlotsBounded (some t) = HasBoundedSlots t

settle_limits : (e : Entry) (s : Services) → (settle e s).limits ≡ settled s.limits e.provider_id
unfolding settle acquire_concurrency acquire_model release settled
settle_limits e s = elim (Option-cases s.model_limits) [
  | inl off ↦ ground (arith, off)
  | inr (t, on) ↦ ground (arith, on)
]

settle_models :
    (e : Entry) (s : Services) (id : String)
    → ModelSlotsBounded s.model_limits
    → slot_of (settle e s).model_limits id ≡ slot_of s.model_limits id
unfolding settle acquire_concurrency acquire_model release release_model settled
settle_models e s id b = elim (Option-cases s.model_limits) [
  | inl off ↦ ground (arith, off)
  | inr (t, on) ↦ ground (arith, on, concurrency_for-settled t (model_key e) id (rw on at b))
]

-- Whether the slots are granted or refused, by the provider or by the model, a round that gives back
-- what it got leaves every count of both trackers as it was, if each count lies within its limit.
pub concurrency_for-settle :
    (e : Entry) (s : Services) (id : String)
    → HasBoundedSlots s.limits
    → ModelSlotsBounded s.model_limits
    → (concurrency_for (settle e s).limits id ≡ concurrency_for s.limits id)
      × (slot_of (settle e s).model_limits id ≡ slot_of s.model_limits id)
concurrency_for-settle e s id b m = (
  ap (λ t. concurrency_for t id) (settle_limits e s)
      ∙ concurrency_for-settled s.limits e.provider_id id b,
  settle_models e s id m,
)
