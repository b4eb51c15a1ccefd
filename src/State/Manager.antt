-- ===== src/State/Manager.antt =====
-- internal/state/manager.go: the states that the router reads. Each method is one step under the
-- lock; the clock is an argument, and the save hook's calls are logged in the order of their start.
pub mod Laws
use local_router.Prelude.{
  String, Bool, true, false, Option, none, some, List, [], ◌∷◌, ◌++◌, if◌then◌else◌, or_zero, not,
}
use local_router.Prelude.Time.{Time, Duration, zero_time, before, add}
use local_router.GoMap
use local_router.GoMap.{GoMap}
use local_router.Health.{Monitor, is_ready}

pub data State : Type 0 where
  available unhealthy exhausted blocked : State

-- The default branch of the source has no value of the type to print.
unfoldable pub state_string : State → String
state_string available = "available"
state_string unhealthy = "unhealthy"
state_string exhausted = "exhausted"
state_string blocked = "blocked"

pub record Manager : Type 0 where
  pub blocked : GoMap Time
  pub exhausted : GoMap Time
  pub on_save : Bool
  pub saves : List (String × Time × Time)

unfoldable pub new : Manager
new = record { blocked = GoMap.empty; exhausted = GoMap.empty; on_save = false; saves = [] }

unfoldable pub set_save_hook : Manager → Manager
set_save_hook m = record m { on_save = true }

-- A missing time reads as the zero time, which no clock is before.
unfoldable pub blocked_until : Manager → String → Time
blocked_until m id = or_zero zero_time (GoMap.get m.blocked id)

unfoldable pub exhausted_until : Manager → String → Time
exhausted_until m id = or_zero zero_time (GoMap.get m.exhausted id)

unfoldable pub get_state : Time → Monitor → Manager → String → State
unfolding blocked_until exhausted_until
get_state now health m id =
    if before now (blocked_until m id)
    then State.blocked
    else if before now (exhausted_until m id)
    then State.exhausted
    else if not (is_ready health id)
    then unhealthy
    else available

abbrev pub call_hook : String → Time → Time → Manager → Manager
call_hook id bu eu m = if m.on_save then record m { saves = m.saves ++ (id, bu, eu) ∷ [] } else m

unfoldable pub block : Time → String → Duration → Manager → Manager
unfolding exhausted_until
block now id d m =
    call_hook id (add now d) (exhausted_until m id)
      (record m { blocked = GoMap.put m.blocked id (add now d) })

unfoldable pub block_until : String → Time → Manager → Manager
block_until id until m = record m { blocked = GoMap.put m.blocked id until }

unfoldable pub set_exhausted : String → Time → Manager → Manager
unfolding blocked_until
set_exhausted id reset_at m =
    call_hook id (blocked_until m id) reset_at
      (record m { exhausted = GoMap.put m.exhausted id reset_at })
