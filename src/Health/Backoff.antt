-- ===== src/Health/Backoff.antt =====
-- The waits between checks.
use Prim.Native.Nat.{min}
use local_router.Prelude.{ℕ, ◌+◌, ◌*◌, ◌/◌, ◌≤◌, ◌<◌, arith, List, [], ◌∷◌, All}
use local_router.Health.{Check, failed, passed, max_backoff, next_backoff, jittered}

-- The waits of the worker, given the report and the random draw of each round.
pub waits : ℕ → ℕ → List (Check × ℕ) → List ℕ
waits base backoff [] = []
waits base backoff ((check, draw) ∷ rounds) =
    jittered backoff draw ∷ waits base (next_backoff base check backoff) rounds

-- `rand.Int63n(backoff/4 + 1)` is below its argument in every round.
unfoldable pub Drawn : ℕ → ℕ → List (Check × ℕ) → Type 0
Drawn base backoff [] = Unit {0}
Drawn base backoff ((check, draw) ∷ rounds) =
    (draw < backoff / 4 + 1) × Drawn base (next_backoff base check backoff) rounds

-- With a base interval of at most five minutes, every wait is at least the base interval and at most
-- a quarter more than five minutes, whatever the checks report.
pub waits_bounded :
    (base backoff : ℕ) (rounds : List (Check × ℕ))
    → base ≤ backoff
    → backoff ≤ max_backoff
    → Drawn base backoff rounds
    → All (λ w. (base ≤ w) × (w ≤ max_backoff + max_backoff / 4)) (waits base backoff rounds)
unfolding waits next_backoff jittered Drawn
waits_bounded base backoff [] h k d = tt
waits_bounded base backoff ((failed, draw) ∷ rounds) h k d = (
  (omega (arith, d.0), omega (arith, d.0)),
  waits_bounded base (min (backoff * 2) max_backoff) rounds (omega arith) (omega arith) d.1,
)
waits_bounded base backoff ((passed latency, draw) ∷ rounds) h k d = (
  (omega (arith, d.0), omega (arith, d.0)),
  waits_bounded base base rounds (omega arith) (omega arith) d.1,
)
