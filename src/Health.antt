-- ===== src/Health.antt =====
-- internal/health/monitor.go: the health of each provider by hysteresis over its checks. A worker
-- goroutine is an entry of `workers`; `check_node` is one round of its loop after the wait. The
-- entries are changed under the monitor's lock, so each method is one step.
pub mod Hysteresis
pub mod Workers
pub mod Backoff
mod Examples
use Prim.Native.Nat.{min}
use local_router.Prelude.{
  ℕ, ◌+◌, ◌*◌, ◌/◌, String, Bool, true, false, ◌&&◌, Option, none, some, List, [], ◌∷◌, leb,
  if◌then◌else◌, or_zero,
}
use local_router.Prelude.Int.{ℤ, pos, ltb_ℤ}
use local_router.GoMap
use local_router.GoMap.{GoMap}
use local_router.Metrics.{Collector, provider_ok, provider_fail}

pub data NodeState : Type 0 where
  unavailable degraded ready : NodeState

abbrev pub fail_threshold : ℕ
fail_threshold = 3

abbrev pub success_threshold : ℕ
success_threshold = 2

abbrev pub latency_breach_threshold : ℕ
latency_breach_threshold = 3

pub record NodeStatus : Type 0 where
  pub state : NodeState
  pub latency_ms : ℕ
  pub success_run : ℕ
  pub failure_run : ℕ
  pub latency_breaches : ℕ

-- NodeStatus{}
abbrev pub zero_status : NodeStatus
zero_status = record {
  state = unavailable;
  latency_ms = 0;
  success_run = 0;
  failure_run = 0;
  latency_breaches = 0;
}

pub record Monitor : Type 0 where
  pub states : GoMap NodeStatus
  pub workers : GoMap (Unit {0})
  pub latency_threshold_ms : ℤ

unfoldable pub new : ℤ → Monitor
new latency_threshold_ms = record {
  states = GoMap.empty;
  workers = GoMap.empty;
  latency_threshold_ms = latency_threshold_ms;
}

unfoldable pub add_node : String → Monitor → Monitor
add_node id mon = elim (GoMap.get mon.workers id) [
  | some w ↦ mon
  | none ↦ record mon {
    states = GoMap.put mon.states id zero_status;
    workers = GoMap.put mon.workers id tt;
  }
]

-- Deleting an absent key changes nothing, so the test on `workers` needs no branch.
unfoldable pub remove_node : String → Monitor → Monitor
remove_node id mon = record mon {
  states = GoMap.remove mon.states id;
  workers = GoMap.remove mon.workers id;
}

abbrev pub is_ready_state : NodeState → Bool
is_ready_state ready = true
is_ready_state degraded = false
is_ready_state unavailable = false

unfoldable pub is_ready : Monitor → String → Bool
is_ready mon id = elim (GoMap.get mon.states id) [ none ↦ false | some s ↦ is_ready_state s.state ]

unfoldable pub snapshot : Monitor → GoMap NodeStatus
snapshot mon = mon.states

unfoldable pub stop : Monitor → Monitor
stop mon = record mon { workers = GoMap.empty }

abbrev pub made_ready : NodeStatus → NodeStatus
made_ready s = record s {
  state = ready;
  success_run = success_threshold;
  failure_run = 0;
  latency_breaches = 0;
}

unfoldable pub set_ready : String → Monitor → Monitor
set_ready id mon = elim (GoMap.get mon.states id) [
  | none ↦ mon
  | some s ↦ record mon { states = GoMap.put mon.states id (made_ready s) }
]

-- What `HealthCheck` reported: an error, or the latency in milliseconds.
pub data Check : Type 0 where
  failed : Check
  passed : ℕ → Check

unfoldable pub after_failure : NodeStatus → NodeStatus
after_failure s =
    let run = s.failure_run + 1 in
    record s {
      state = if leb fail_threshold run then unavailable else s.state;
      success_run = 0;
      failure_run = run;
      latency_breaches = 0;
    }

-- The branch `latency > mon.latencyThresholdMs`; the resulting run of successes starts again.
unfoldable pub after_breach : NodeStatus → NodeStatus
after_breach s =
    let breaches = s.latency_breaches + 1 in
    if leb latency_breach_threshold breaches
    then record s { state = degraded; latency_breaches = breaches; success_run = 0 }
    else record s { latency_breaches = breaches }

unfoldable pub after_fast : NodeStatus → NodeStatus
after_fast s = record s {
  state = if leb success_threshold s.success_run then ready else s.state;
  latency_breaches = 0;
}

unfoldable pub after_success : ℤ → ℕ → NodeStatus → NodeStatus
unfolding after_breach after_fast
after_success threshold latency s =
    let s' = record s { success_run = s.success_run + 1; failure_run = 0; latency_ms = latency } in
    if ltb_ℤ threshold (pos latency) then after_breach s' else after_fast s'

unfoldable pub after_check : ℤ → Check → NodeStatus → NodeStatus
unfolding after_failure after_success
after_check threshold failed s = after_failure s
after_check threshold (passed latency) s = after_success threshold latency s

-- The waits of `runNode`, in nanoseconds.
abbrev pub max_backoff : ℕ
max_backoff = 5 * 60 * 1000000000

unfoldable pub next_backoff : ℕ → Check → ℕ → ℕ
next_backoff base failed backoff = min (backoff * 2) max_backoff
next_backoff base (passed latency) backoff = base

-- `draw` is the value of `rand.Int63n(backoff/4 + 1)`.
unfoldable pub jittered : ℕ → ℕ → ℕ
jittered backoff draw = backoff + draw

abbrev pub count_check : String → Check → Collector → Collector
count_check id failed c = provider_fail id c
count_check id (passed latency) c = provider_ok id (pos latency) c

-- The loop body from the end of the check on. A missing entry reads as `NodeStatus{}`.
unfoldable pub check_node : String → Check → Monitor → Monitor
check_node id check mon = record mon {
  states =
      GoMap.put mon.states id (
        after_check mon.latency_threshold_ms check (or_zero zero_status (GoMap.get mon.states id)));
}

unfoldable pub run_round : String → Check → ℕ → Monitor × Collector × ℕ → Monitor × Collector × ℕ
unfolding check_node next_backoff
run_round id check base (mon, metrics, backoff) =
    (check_node id check mon, count_check id check metrics, next_backoff base check backoff)
