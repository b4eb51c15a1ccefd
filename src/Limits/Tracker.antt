-- ===== src/Limits/Tracker.antt =====
-- `Tracker` of internal/limits/tracker.go. A method that locks the mutex is one function of the
-- whole tracker; the clock is the argument `now`. A save hook is started as a goroutine: the model
-- logs the calls, in the order in which they are started.
use local_router.Prelude.{
  String, Bool, true, false, Option, none, some, List, [], ◌∷◌, ◌++◌, if◌then◌else◌, or_zero,
}
use local_router.Prelude.Int.{ℤ, pos, ltb_ℤ}
use local_router.Prelude.Time.{Time, zero_time, after}
use local_router.GoMap
use local_router.GoMap.{GoMap}
use local_router.Limits.Window.{
  Config, Window, WindowState, Verdict, record_windows, ensure_windows, snapshot_windows,
  restore_states, earliest_reset,
}
use local_router.Limits.Concurrency.{ConcurrencyTracker}
use local_router.Limits.Concurrency

pub record Tracker : Type 0 where
  pub configs : GoMap (List Config)
  pub windows : GoMap (List Window)
  pub blocked : GoMap Time
  pub on_save : Bool
  pub saves : List (String × List WindowState)
  pub concurrency : Option (GoMap ConcurrencyTracker)

unfoldable pub new : GoMap (List Config) → Tracker
new configs = record {
  configs = configs;
  windows = GoMap.empty;
  blocked = GoMap.empty;
  on_save = false;
  saves = [];
  concurrency = none;
}

-- The loop of `SetConcurrencyLimits`, over the entries of the argument.
unfoldable pub concurrency_map : List (String × ℤ) → GoMap ConcurrencyTracker
concurrency_map [] = GoMap.empty
concurrency_map ((id, lim) ∷ limits) =
    let rest = concurrency_map limits in
    if ltb_ℤ (pos 0) lim then GoMap.put rest id (record { active = pos 0; limit = lim }) else rest

unfoldable pub set_concurrency_limits : List (String × ℤ) → Tracker → Tracker
set_concurrency_limits limits t = record t { concurrency = some (concurrency_map limits) }

unfoldable pub concurrency_for : Tracker → String → Option ConcurrencyTracker
concurrency_for t id = elim t.concurrency [ none ↦ none | some m ↦ GoMap.get m id ]

-- A write through the pointer that `concurrencyFor` returns.
unfoldable pub store_concurrency : Tracker → String → ConcurrencyTracker → Tracker
store_concurrency t id c = elim t.concurrency [
  | none ↦ t
  | some m ↦ record t { concurrency = some (GoMap.put m id c) }
]

unfoldable pub try_acquire_concurrency : Tracker → String → Tracker × Bool
try_acquire_concurrency t id = elim (concurrency_for t id) [
  | none ↦ (t, true)
  | some c ↦ let (c', ok) = Concurrency.try_acquire c in (store_concurrency t id c', ok)
]

unfoldable pub release_concurrency : Tracker → String → Tracker
release_concurrency t id = elim (concurrency_for t id) [
  | none ↦ t
  | some c ↦ store_concurrency t id (Concurrency.release c)
]

unfoldable pub active_concurrency : Tracker → String → ℤ
active_concurrency t id = elim (concurrency_for t id) [ none ↦ pos 0 | some c ↦ c.active ]

unfoldable pub concurrency_limit : Tracker → String → ℤ
concurrency_limit t id = elim (concurrency_for t id) [ none ↦ pos 0 | some c ↦ c.limit ]

unfoldable pub restore_active_requests : String → ℤ → Tracker → Tracker
restore_active_requests id active t = elim (concurrency_for t id) [
  | none ↦ t
  | some c ↦ store_concurrency t id (Concurrency.restore_active active c)
]

unfoldable pub set_save_hook : Tracker → Tracker
set_save_hook t = record t { on_save = true }

unfoldable pub restore_windows : Time → String → List WindowState → Tracker → Tracker
restore_windows now id states t = elim (GoMap.get t.configs id) [
  | none ↦ t
  | some cfgs ↦
      let ws = ensure_windows cfgs (or_zero [] (GoMap.get t.windows id)) in
      record t { windows = GoMap.put t.windows id (restore_states now states ws) }
]

-- What `Record` returns: whether some window is exhausted, and when to come back.
pub record Answer : Type 0 where
  pub tracker : Tracker
  pub exhausted : Bool
  pub reset_at : Time

unfoldable pub start_hook : String → List Window → Tracker → Tracker
start_hook id ws t =
    if t.on_save then record t { saves = t.saves ++ (id, snapshot_windows ws) ∷ [] } else t

unfoldable pub finish_record : Tracker → String → Verdict → Answer
finish_record t id v = record {
  tracker = start_hook id v.windows (record t { windows = GoMap.put t.windows id v.windows });
  exhausted = v.exhausted;
  reset_at = if v.exhausted then v.reset_at else zero_time;
}

-- Record(id). (`record` is a keyword.)
unfoldable pub record_request : Time → String → Tracker → Answer
record_request now id t = elim (GoMap.get t.configs id) [
  | none ↦ record { tracker = t; exhausted = false; reset_at = zero_time }
  | some cfgs ↦ finish_record t id (
      record_windows now cfgs (ensure_windows cfgs (or_zero [] (GoMap.get t.windows id))) false
        zero_time)
]

unfoldable pub reset_at : Tracker → String → Time
reset_at t id = elim (GoMap.get t.windows id) [
  | none ↦ zero_time
  | some ws ↦ earliest_reset zero_time ws
]

unfoldable pub configs_for : Tracker → String → Option (List Config)
configs_for t id = GoMap.get t.configs id

unfoldable pub window_states : Tracker → String → List WindowState
window_states t id = elim (GoMap.get t.windows id) [ none ↦ [] | some ws ↦ snapshot_windows ws ]

unfoldable pub model_blocked_until : Tracker → String → Time
model_blocked_until t key = or_zero zero_time (GoMap.get t.blocked key)

unfoldable pub block : String → Time → Tracker → Tracker
block key until t = record t { blocked = GoMap.put t.blocked key until }

-- The expired entry is deleted.
unfoldable pub is_blocked : Time → String → Tracker → Tracker × Bool
is_blocked now key t = elim (GoMap.get t.blocked key) [
  | none ↦ (t, false)
  | some until ↦
      if after now until
      then (record t { blocked = GoMap.remove t.blocked key }, false)
      else (t, true)
]
