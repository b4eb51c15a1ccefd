-- ===== src/Limits/Window.antt =====
-- The windows of one id in internal/limits/tracker.go, and the loop of `Record` over them.
-- Counts are unbounded numbers: a Go int would need 2^63 requests in one window to wrap.
use local_router.Prelude.{ℕ, ◌+◌, Bool, ◌&&◌, ◌||◌, not, List, [], ◌∷◌, map, if◌then◌else◌}
use local_router.Prelude.Int.{ℤ, pos, ltb_ℤ}
use local_router.Prelude.Time.{Time, Duration, zero_time, is_zero, before, after, add}

pub record Config : Type 0 where
  pub requests : ℤ
  pub window : Duration

pub record WindowState : Type 0 where
  pub count : ℕ
  pub reset_at : Time

pub record Window : Type 0 where
  pub count : ℕ
  pub reset_at : Time

-- &window{}
abbrev pub new_window : Window
new_window = record { count = 0; reset_at = zero_time }

-- The two `if`s at the head of the loop body.
unfoldable pub lazy_reset : Time → Window → Window
lazy_reset now w =
    if not (is_zero w.reset_at) && after now w.reset_at
    then record { count = 0; reset_at = zero_time }
    else w

unfoldable pub open_window : Time → Config → Window → Window
open_window now cfg w = if is_zero w.reset_at then record w { reset_at = add now cfg.window } else w

-- One window after one request.
unfoldable pub count_request : Time → Config → Window → Window
unfolding lazy_reset open_window
count_request now cfg w =
    let opened = open_window now cfg (lazy_reset now w) in
    record opened { count = opened.count + 1 }

-- w.count > cfg.Requests
abbrev pub is_over : Config → Window → Bool
is_over cfg w = ltb_ℤ cfg.requests (pos w.count)

-- The named results of `Record`, with the windows that it leaves.
pub record Verdict : Type 0 where
  pub windows : List Window
  pub exhausted : Bool
  pub reset_at : Time

abbrev pub push_window : Window → Verdict → Verdict
push_window w v = record v { windows = w ∷ v.windows }

-- `for i, cfg := range cfgs`. There are as many windows as configs (`ensure_windows`).
unfoldable pub record_windows : Time → List Config → List Window → Bool → Time → Verdict
record_windows now [] ws exhausted reset_at = record {
  windows = ws;
  exhausted = exhausted;
  reset_at = reset_at;
}
record_windows now (cfg ∷ cfgs) [] exhausted reset_at = record {
  windows = [];
  exhausted = exhausted;
  reset_at = reset_at;
}
record_windows now (cfg ∷ cfgs) (w ∷ ws) exhausted reset_at =
    let w' = count_request now cfg w in
    let over = is_over cfg w' in
    let earlier = over && (not exhausted || before w'.reset_at reset_at) in
    push_window w'
      (record_windows now cfgs ws (exhausted || over) (if earlier then w'.reset_at else reset_at))

-- One new window for each config that has none yet.
unfoldable pub ensure_windows : List Config → List Window → List Window
ensure_windows [] ws = ws
ensure_windows (cfg ∷ cfgs) [] = new_window ∷ ensure_windows cfgs []
ensure_windows (cfg ∷ cfgs) (w ∷ ws) = w ∷ ensure_windows cfgs ws

unfoldable pub snapshot_windows : List Window → List WindowState
snapshot_windows = map (λ w. record { count = w.count; reset_at = w.reset_at })

-- The loop of `RestoreWindows`: a state whose reset time has passed is ignored.
unfoldable pub restore_states : Time → List WindowState → List Window → List Window
restore_states now [] ws = ws
restore_states now (s ∷ states) [] = []
restore_states now (s ∷ states) (w ∷ ws) =
    (if before now s.reset_at then record { count = s.count; reset_at = s.reset_at } else w)
    ∷ restore_states now states ws

-- The loop of `ResetAt`.
unfoldable pub earliest_reset : Time → List Window → Time
earliest_reset earliest [] = earliest
earliest_reset earliest (w ∷ ws) =
    earliest_reset
      (if not (is_zero w.reset_at) && (is_zero earliest || before w.reset_at earliest)
        then w.reset_at
        else earliest)
      ws
