-- ===== src/Health/Examples.antt =====
-- The monitor's theorems at concrete inputs.
use local_router.Prelude.{ℕ, ◌≡◌, refl, inl, arith, List, [], ◌∷◌}
use local_router.Prelude.Int.{pos}
use local_router.Health.{NodeStatus, ready, degraded, failed, passed, after_check, Check}
use local_router.Health.Hysteresis.{Inv, too_slow, after_checks, after_checks-runs, after_check-Inv}

abbrev steady : NodeStatus
steady = record {
  state = ready;
  latency_ms = 12;
  success_run = 5;
  failure_run = 0;
  latency_breaches = 0;
}

steady-Inv : Inv steady
steady-Inv = record {
  one_run = inl refl;
  failing = λ h. absurd (omega arith);
  slow = λ h. absurd (omega arith);
  breach_run = λ h. refl;
}

after_check-Inv_example : Inv (after_check (pos 2000) (passed 2500) steady)
after_check-Inv_example = after_check-Inv (pos 2000) (passed 2500) steady steady-Inv

abbrev rounds : List (Check × ℕ)
rounds = (failed, 10) ∷ (failed, 0) ∷ (passed 3, 7) ∷ []

-- Three slow checks of different latencies.
after_checks-runs_example :
    (after_checks (pos 2000) (passed 2500 ∷ passed 2001 ∷ passed 9000 ∷ []) steady).state ≡ degraded
after_checks-runs_example =
    after_checks-runs (pos 2000) too_slow (passed 2500) (passed 2001 ∷ passed 9000 ∷ []) steady
      (omega arith, (omega arith, (omega arith, tt)))
