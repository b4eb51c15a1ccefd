-- ===== src/State/Manager/Laws.antt =====
-- How blocking and exhaustion show in the state of a provider.
use local_router.Prelude.{◌≡◌, String, false, arith, str_eq, eq_iff, if◌then◌else◌, not, ◌&&◌}
use local_router.Prelude.Time.{Time, Duration, before, add}
use local_router.GoMap.{get-put}
use local_router.Health.{Monitor}
use local_router.State.Manager.{
  State, Manager, get_state, block, set_exhausted, blocked_until, exhausted_until,
}

-- After `Block(id, d)` at `now`, the provider is blocked until `d` has passed, and from then on it is
-- in the state that exhaustion and health give it, if it was not blocked at `later` before. The state
-- of any other provider is unchanged.
pub get_state-block :
    (now later : Time) (d : Duration) (health : Monitor) (m : Manager) (id other : String)
    → before later (blocked_until m id) ≡ false
    → get_state later health (block now id d m) other ≡ (
        if str_eq id other && before later (add now d)
        then State.blocked
        else get_state later health m other)
unfolding get_state block
get_state-block now later d health m id other free =
    ground (arith, get-put m.blocked id other (add now d), eq_iff id other)

-- After `SetExhausted(id, t)` the provider is exhausted until `t` unless it is blocked, and from `t`
-- on it is as healthy as its checks say, if it was not exhausted at `later` before. The state of any other provider is unchanged.
pub get_state-set_exhausted :
    (later reset_at : Time) (health : Monitor) (m : Manager) (id other : String)
    → before later (exhausted_until m id) ≡ false
    → get_state later health (set_exhausted id reset_at m) other ≡ (
        if str_eq id other && before later reset_at && not (before later (blocked_until m other))
        then State.exhausted
        else get_state later health m other)
unfolding get_state set_exhausted
get_state-set_exhausted later reset_at health m id other free =
    ground (arith, get-put m.exhausted id other reset_at, eq_iff id other)
