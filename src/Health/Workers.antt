-- ===== src/Health/Workers.antt =====
-- Nodes that come and go while checks are in flight.
use local_router.Prelude.{
  ◌≡◌, String, true, false, none, some, arith, str_eq, eq_iff, if◌then◌else◌, or_zero, Option-cases,
  inl, inr,
}
use local_router.Prelude.Int.{ℤ}
use local_router.GoMap
use local_router.GoMap.{get-put, get-remove}
use local_router.Health.{
  Monitor, Check, failed, passed, zero_status, remove_node, set_ready, is_ready, check_node,
  after_check, unavailable, made_ready,
}

-- One check never makes a new node ready.
after_check-zero :
    (threshold : ℤ) (check : Check) → (after_check threshold check zero_status).state ≡ unavailable
unfolding after_check
after_check-zero threshold failed = ground arith
after_check-zero threshold (passed latency) = ground arith

-- A check that was in flight when its node was removed writes the entry again. The node still does
-- not count as ready, and the readiness of every other node is as it was.
pub is_ready-check_removed :
    (mon : Monitor) (id other : String) (check : Check)
    → is_ready (check_node id check (remove_node id mon)) other
      ≡ (if str_eq id other then false else is_ready mon other)
unfolding is_ready check_node remove_node
is_ready-check_removed mon id other check = ground (
  arith,
  get-put (GoMap.remove mon.states id) id other (
      after_check mon.latency_threshold_ms check
        (or_zero zero_status (GoMap.get (GoMap.remove mon.states id) id))),
  get-remove mon.states id other,
  get-remove mon.states id id,
  eq_iff id id,
  after_check-zero mon.latency_threshold_ms check,
)

-- `SetReady` makes exactly the nodes ready that the monitor knows: the named node if it has an entry,
-- and no other.
pub is_ready-set_ready :
    (mon : Monitor) (id other : String)
    → is_ready (set_ready id mon) other ≡ (
        if str_eq id other
        then (elim (GoMap.get mon.states id) [ none ↦ false | some s ↦ true ])
        else is_ready mon other)
unfolding is_ready set_ready
is_ready-set_ready mon id other = elim (Option-cases (GoMap.get mon.states id)) [
  | inl e ↦ ground (arith, e, eq_iff id other)
  | inr (s, e) ↦ ground (arith, e, get-put mon.states id other (made_ready s), eq_iff id other)
]
