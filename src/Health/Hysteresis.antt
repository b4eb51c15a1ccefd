-- ===== src/Health/Hysteresis.antt =====
-- When the state of a provider changes.
use local_router.Prelude.{
  ℕ, ◌+◌, ◌≤◌, ◌<◌, ◌≡◌, ◌⊎◌, List, [], ◌∷◌, All, length, arith, leb, if◌then◌else◌,
}
use local_router.Prelude.Int.{ℤ, pos, ◌≤ℤ◌, ◌<ℤ◌}
use local_router.Health.{
  unavailable, degraded, ready, NodeState, NodeStatus, Check, failed, passed, after_check,
  fail_threshold, success_threshold, latency_breach_threshold,
}

-- Checks one after the other.
pub after_checks : ℤ → List Check → NodeStatus → NodeStatus
after_checks threshold [] s = s
after_checks threshold (check ∷ checks) s =
    after_checks threshold checks (after_check threshold check s)

pub data Ending : Type 0 where
  failing too_slow in_time : Ending

abbrev pub EndsSo : ℤ → Ending → Check → Type 0
EndsSo threshold failing failed = Unit
EndsSo threshold failing (passed latency) = ⊥
EndsSo threshold too_slow failed = ⊥
EndsSo threshold too_slow (passed latency) = threshold <ℤ pos latency
EndsSo threshold in_time failed = ⊥
EndsSo threshold in_time (passed latency) = pos latency ≤ℤ threshold

-- What the status counts of a run, the length that matters, and the state that the node comes to.
abbrev pub run_of : Ending → NodeStatus → ℕ
run_of failing s = s.failure_run
run_of too_slow s = s.latency_breaches
run_of in_time s = s.success_run

abbrev pub needed : Ending → ℕ
needed failing = fail_threshold
needed too_slow = latency_breach_threshold
needed in_time = success_threshold

abbrev pub turned : Ending → NodeState
turned failing = unavailable
turned too_slow = degraded
turned in_time = ready

-- Checks in a row, at least one, that all fail, or all pass too slowly, or all pass in time, whatever
-- their latencies: the node is unavailable from the third failure of its run on, degraded from the
-- third slow check, and ready from the first check in time that is at least the second success of its
-- run, in which slow checks count as successes; before that the state stays as it is. What the
-- status has counted so far is part of the run.
pub after_checks-runs :
    (threshold : ℤ) (ending : Ending) (check : Check) (checks : List Check) (s : NodeStatus)
    → All (EndsSo threshold ending) (check ∷ checks)
    → (after_checks threshold (check ∷ checks) s).state ≡ (
        if leb (needed ending) (run_of ending s + length (check ∷ checks))
        then turned ending
        else s.state)
unfolding after_checks after_check
after_checks-runs threshold failing failed [] s h = ground arith
after_checks-runs threshold failing failed (c ∷ cs) s (h, all) =
    ground (arith, after_checks-runs threshold failing c cs (after_check threshold failed s) all)
after_checks-runs threshold failing (passed latency) checks s (h, all) = absurd h
after_checks-runs threshold too_slow failed checks s (h, all) = absurd h
after_checks-runs threshold too_slow (passed latency) [] s (h, all) = ground (arith, h)
after_checks-runs threshold too_slow (passed latency) (c ∷ cs) s (h, all) = ground (
  arith,
  h,
  after_checks-runs threshold too_slow c cs (after_check threshold (passed latency) s) all,
)
after_checks-runs threshold in_time failed checks s (h, all) = absurd h
after_checks-runs threshold in_time (passed latency) [] s (h, all) = ground (arith, h)
after_checks-runs threshold in_time (passed latency) (c ∷ cs) s (h, all) = ground (
  arith,
  h,
  after_checks-runs threshold in_time c cs (after_check threshold (passed latency) s) all,
)

-- What holds of a status between two checks.
pub record Inv (s : NodeStatus) : Type 0 where
  pub one_run : (s.failure_run ≡ 0) ⊎ (s.success_run ≡ 0)
  pub failing : fail_threshold ≤ s.failure_run → s.state ≡ unavailable
  pub slow : latency_breach_threshold ≤ s.latency_breaches → s.state ≡ degraded
  pub breach_run : 0 < s.latency_breaches → s.failure_run ≡ 0

-- Every check keeps the runs exclusive, a run of three failures unavailable, and a run of three slow
-- checks degraded; so a ready node has fewer than three of either.
pub after_check-Inv :
    (threshold : ℤ) (check : Check) (s : NodeStatus) → Inv s → Inv (after_check threshold check s)
unfolding after_check
after_check-Inv threshold failed s v = ground arith
after_check-Inv threshold (passed latency) s v = ground arith
