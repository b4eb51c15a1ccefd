-- ===== src/Metrics.antt =====
-- internal/metrics/metrics.go: the counters of the program. A counter that lives behind a pointer in
-- a map is the map's value; each method is one step, as its map accesses are under the lock and its
-- additions are atomic. Counters are signed and do not wrap.
pub mod Laws
use local_router.Prelude.{String, Option, none, some, List, [], ◌∷◌, or_zero}
use local_router.Prelude.Int.{ℤ, pos, ◌+ℤ◌}
use local_router.GoMap
use local_router.GoMap.{GoMap}

pub record Collector : Type 0 where
  pub requests : ℤ
  pub failures : ℤ
  pub no_capacity : ℤ
  pub streams_started : ℤ
  pub streams_completed : ℤ
  pub streams_disconnected : ℤ
  pub stream_duration : ℤ
  pub provider_block_events : ℤ
  pub provider_exhausted_events : ℤ
  pub local_requests : ℤ
  pub remote_requests : ℤ
  pub provider_checks_ok : GoMap ℤ
  pub provider_checks_fail : GoMap ℤ
  pub provider_latency_ms : GoMap ℤ
  pub concurrent_active : GoMap ℤ
  pub concurrent_rejected : GoMap ℤ

unfoldable pub new : Collector
new = record {
  requests = pos 0;
  failures = pos 0;
  no_capacity = pos 0;
  streams_started = pos 0;
  streams_completed = pos 0;
  streams_disconnected = pos 0;
  stream_duration = pos 0;
  provider_block_events = pos 0;
  provider_exhausted_events = pos 0;
  local_requests = pos 0;
  remote_requests = pos 0;
  provider_checks_ok = GoMap.empty;
  provider_checks_fail = GoMap.empty;
  provider_latency_ms = GoMap.empty;
  concurrent_active = GoMap.empty;
  concurrent_rejected = GoMap.empty;
}

unfoldable pub ensure_provider : String → Collector → Collector
ensure_provider id c = elim (GoMap.get c.provider_checks_ok id) [
  | some n ↦ c
  | none ↦ record c {
    provider_checks_ok = GoMap.put c.provider_checks_ok id (pos 0);
    provider_checks_fail = GoMap.put c.provider_checks_fail id (pos 0);
    provider_latency_ms = GoMap.put c.provider_latency_ms id (pos 0);
    concurrent_active = GoMap.put c.concurrent_active id (pos 0);
    concurrent_rejected = GoMap.put c.concurrent_rejected id (pos 0);
  }
]

-- m[id].Add(d). The program would fault on a missing key; Metrics/Laws is about the keys.
unfoldable pub add_at : GoMap ℤ → String → ℤ → GoMap ℤ
add_at m id d = GoMap.put m id (or_zero (pos 0) (GoMap.get m id) +ℤ d)

unfoldable pub provider_ok : String → ℤ → Collector → Collector
provider_ok id latency c =
    let c' = ensure_provider id c in
    record c' {
      provider_checks_ok = add_at c'.provider_checks_ok id (pos 1);
      provider_latency_ms = GoMap.put c'.provider_latency_ms id latency;
    }

unfoldable pub provider_fail : String → Collector → Collector
provider_fail id c =
    let c' = ensure_provider id c in
    record c' { provider_checks_fail = add_at c'.provider_checks_fail id (pos 1) }

unfoldable pub add_concurrent_active : String → ℤ → Collector → Collector
add_concurrent_active id delta c =
    let c' = ensure_provider id c in
    record c' { concurrent_active = add_at c'.concurrent_active id delta }

unfoldable pub record_concurrency_rejected : String → Collector → Collector
record_concurrency_rejected id c =
    let c' = ensure_provider id c in
    record c' { concurrent_rejected = add_at c'.concurrent_rejected id (pos 1) }

pub record ProviderSnapshot : Type 0 where
  pub checks_ok : ℤ
  pub checks_fail : ℤ
  pub latency_ms : ℤ
  pub concurrent_active : ℤ
  pub concurrent_rejected : ℤ

-- One entry of the map that `Snapshot` builds.
unfoldable pub provider_snapshot : Collector → String → ProviderSnapshot
provider_snapshot c id = record {
  checks_ok = or_zero (pos 0) (GoMap.get c.provider_checks_ok id);
  checks_fail = or_zero (pos 0) (GoMap.get c.provider_checks_fail id);
  latency_ms = or_zero (pos 0) (GoMap.get c.provider_latency_ms id);
  concurrent_active = or_zero (pos 0) (GoMap.get c.concurrent_active id);
  concurrent_rejected = or_zero (pos 0) (GoMap.get c.concurrent_rejected id);
}

-- `for id := range c.providerChecksOK`
unfoldable pub snapshot_each : Collector → List String → GoMap ProviderSnapshot
snapshot_each c [] = GoMap.empty
snapshot_each c (id ∷ ids) = GoMap.put (snapshot_each c ids) id (provider_snapshot c id)

pub record Snapshot : Type 0 where
  pub requests : ℤ
  pub failures : ℤ
  pub no_capacity : ℤ
  pub streams_started : ℤ
  pub streams_completed : ℤ
  pub streams_disconnected : ℤ
  pub stream_duration_ms : ℤ
  pub provider_block_events : ℤ
  pub provider_exhausted_events : ℤ
  pub local_requests : ℤ
  pub remote_requests : ℤ
  pub providers : GoMap ProviderSnapshot

unfoldable pub snapshot : Collector → Snapshot
snapshot c = record {
  requests = c.requests;
  failures = c.failures;
  no_capacity = c.no_capacity;
  streams_started = c.streams_started;
  streams_completed = c.streams_completed;
  streams_disconnected = c.streams_disconnected;
  stream_duration_ms = c.stream_duration;
  provider_block_events = c.provider_block_events;
  provider_exhausted_events = c.provider_exhausted_events;
  local_requests = c.local_requests;
  remote_requests = c.remote_requests;
  providers = snapshot_each c (GoMap.keys c.provider_checks_ok);
}
