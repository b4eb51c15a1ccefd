-- ===== src/Router/Slots.antt =====
-- `acquireConcurrency` of internal/router/router.go and the closure that it returns. The closure reads
-- the provider's tracker when it runs, and keeps the tracker of model limits of its own generation:
-- after a reload nobody else sees what it does to that one.
use local_router.Prelude.{ℕ, ◌==◌, Bool, true, false, Option, none, some, if◌then◌else◌}
use local_router.Prelude.Int.{pos, negsuc}
use local_router.Limits.Tracker.{Tracker, try_acquire_concurrency, release_concurrency}
use local_router.Metrics.{add_concurrent_active, record_concurrency_rejected}
use local_router.Registry.{Entry}
use local_router.Router.{Services, model_key}

-- The second half, which gives the provider's slot back where the model has none.
unfoldable pub acquire_model : Entry → Option Tracker → Services → Services × Bool
acquire_model e none s = (s, true)
acquire_model e (some tracker) s =
    let (tracker', got) = try_acquire_concurrency tracker (model_key e) in
    if got then (record s { model_limits = some tracker' }, true) else (
      record s {
        model_limits = some tracker';
        limits = release_concurrency s.limits e.provider_id;
        metrics =
            record_concurrency_rejected e.provider_id
              (add_concurrent_active e.provider_id (negsuc 0) s.metrics);
      },
      false,
    )

-- True if both slots are taken.
unfoldable pub acquire_concurrency : Entry → Services → Services × Bool
unfolding acquire_model
acquire_concurrency e s =
    let (limits', got) = try_acquire_concurrency s.limits e.provider_id in
    if got
    then acquire_model e s.model_limits (record s {
      limits = limits';
      metrics = add_concurrent_active e.provider_id (pos 1) s.metrics;
    })
    else (
      record s { limits = limits'; metrics = record_concurrency_rejected e.provider_id s.metrics },
      false,
    )

unfoldable pub release_model : Entry → Option Tracker → Option Tracker
release_model e none = none
release_model e (some tracker) = some (release_concurrency tracker (model_key e))

-- The closure of an acquisition in the given generation.
unfoldable pub release : ℕ → Entry → Services → Services
unfolding release_model
release generation e s = record s {
  limits = release_concurrency s.limits e.provider_id;
  metrics = add_concurrent_active e.provider_id (negsuc 0) s.metrics;
  model_limits =
      if generation == s.generation then release_model e s.model_limits else s.model_limits;
}
