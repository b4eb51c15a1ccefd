-- ===== src/Limits/Admission.antt =====
-- How many requests the windows of an id let through.
use Prim.Native.Nat.{max}
use mathlib.Core.Path.{ap₂}
use mathlib.Core.Bool.{false≢true}
use local_router.Prelude.{
  ℕ, zero, suc, ◌+◌, ◌≤◌, ◌≡◌, ◌≢◌, refl, ap, ◌∙◌, String, Bool, true, false, ◌||◌, some, List, [],
  ◌∷◌, arith, All, length, get_elem?, if◌then◌else◌, eq_iff, Bool-cases, inl, inr, sym, subst,
}
use local_router.Prelude.Int.{pos_part}
use local_router.Prelude.Time.{Time, zero_time}
use local_router.GoMap
use local_router.GoMap.{get-put}
use local_router.Limits.Window.{Config, Window, count_request, record_windows, is_over}
use local_router.Limits.Exhaustion.{ensure_windows_full}
use local_router.Limits.Tracker.{Tracker, record_request, finish_record, start_hook}

-- The requests for `id` at the given times that find no window exhausted.
pub admitted : String → List Time → Tracker → ℕ
admitted id [] t = 0
admitted id (now ∷ times) t =
    let a = record_request now id t in
    let rest = admitted id times a.tracker in if a.exhausted then rest else rest + 1

exhausted-stays :
    (now : Time) (cfgs : List Config) (ws : List Window) (r : Time)
    → (record_windows now cfgs ws true r).exhausted ≡ true
unfolding record_windows
exhausted-stays now [] ws r = refl
exhausted-stays now (cfg ∷ cfgs) [] r = refl
exhausted-stays now (cfg ∷ cfgs) (w ∷ ws) r = exhausted-stays now cfgs ws _

exhausted-over :
    (over e : Bool) (now : Time) (cfgs : List Config) (ws : List Window) (r : Time)
    → over ≡ true
    → (record_windows now cfgs ws (e || over) r).exhausted ≡ true
exhausted-over true true now cfgs ws r h = exhausted-stays now cfgs ws r
exhausted-over true false now cfgs ws r h = exhausted-stays now cfgs ws r
exhausted-over false e now cfgs ws r h = cc

length-record_windows :
    (now : Time) (cfgs : List Config) (ws : List Window) (e : Bool) (r : Time)
    → length (record_windows now cfgs ws e r).windows ≡ length ws
unfolding record_windows
length-record_windows now [] ws e r = refl
length-record_windows now (cfg ∷ cfgs) [] e r = refl
length-record_windows now (cfg ∷ cfgs) (w ∷ ws) e r = ap suc (length-record_windows now cfgs ws _ _)

-- The loop counts the request in every window, and a window over its limit makes it exhausted.
record_windows-at :
    (now : Time) (cfgs : List Config) (ws : List Window) (e : Bool) (r : Time) (i : ℕ) (c : Config)
    (w : Window)
    → get_elem? cfgs i ≡ some c
    → get_elem? ws i ≡ some w
    → let v = record_windows now cfgs ws e r in
      (get_elem? v.windows i ≡ some (count_request now c w))
      × (is_over c (count_request now c w) ≡ true → v.exhausted ≡ true)
unfolding record_windows
record_windows-at now [] ws e r i c w hc hw = cc
record_windows-at now (cfg ∷ cfgs) [] e r i c w hc hw = cc
record_windows-at now (cfg ∷ cfgs) (x ∷ ws) e r zero c w hc hw =
    let same_config : cfg ≡ c = cc in
    let same_window : x ≡ w = cc in
    (
      ap₂ (λ c' w'. some (count_request now c' w')) same_config same_window,
      λ over.
          exhausted-over (is_over cfg (count_request now cfg x)) e now cfgs ws _
            (ap₂ (λ c' w'. is_over c' (count_request now c' w')) same_config same_window ∙ over),
    )
record_windows-at now (cfg ∷ cfgs) (x ∷ ws) e r (suc i) c w hc hw =
    record_windows-at now cfgs ws _ _ i c w hc hw

-- A request no later than the reset time of an open window adds one to its count.
count_request_open :
    (now : Time) (c : Config) (w : Window)
    → w.reset_at ≢ zero_time
    → now ≤ w.reset_at
    → count_request now c w ≡ record w { count = w.count + 1 }
unfolding count_request
count_request_open now c w opened h = ground arith

-- What one call of `Record` leaves, and why it can only admit within the limit.
record_request-at :
    (t : Tracker) (id : String) (now : Time) (cfgs : List Config) (ws : List Window) (i : ℕ)
    (c : Config) (w : Window)
    → GoMap.get t.configs id ≡ some cfgs
    → GoMap.get t.windows id ≡ some ws
    → length ws ≡ length cfgs
    → get_elem? cfgs i ≡ some c
    → get_elem? ws i ≡ some w
    → let a = record_request now id t in
      let v = record_windows now cfgs ws false zero_time in
      (GoMap.get a.tracker.configs id ≡ some cfgs)
      × (GoMap.get a.tracker.windows id ≡ some v.windows)
      × (a.exhausted ≡ v.exhausted)
unfolding record_request finish_record start_hook
record_request-at t id now cfgs ws i c w known stored len hc hw =
    let v = record_windows now cfgs ws false zero_time in
    ground (arith, ensure_windows_full cfgs ws len, get-put t.windows id id v.windows, eq_iff id id)

within-limit :
    (c : Config) (w : Window)
    → is_over c (record w { count = w.count + 1 }) ≡ false
    → w.count + 1 ≤ pos_part c.requests
within-limit c w h = ground arith

not-over :
    (now : Time) (c : Config) (w : Window) {w' : Window} {e : Bool}
    → (is_over c (count_request now c w) ≡ true → e ≡ true)
    → e ≡ false
    → count_request now c w ≡ w'
    → is_over c w' ≡ false
not-over now c w over calm same = elim (Bool-cases (is_over c (count_request now c w))) [
  | inl hit ↦ absurd (false≢true (sym calm ∙ over hit))
  | inr clear ↦ subst (λ u. is_over c u ≡ false) same clear
]

-- While a window is open, the requests that `Record` admits and those that the window had counted
-- before stay within the limit of its config (or within the count that it began with).
pub admitted-le-requests :
    (id : String) (times : List Time) (t : Tracker) (cfgs : List Config) (ws : List Window) (i : ℕ)
    (c : Config) (w : Window)
    → GoMap.get t.configs id ≡ some cfgs
    → GoMap.get t.windows id ≡ some ws
    → length ws ≡ length cfgs
    → get_elem? cfgs i ≡ some c
    → get_elem? ws i ≡ some w
    → w.reset_at ≢ zero_time
    → All (λ now. now ≤ w.reset_at) times
    → w.count + admitted id times t ≤ max w.count (pos_part c.requests)
unfolding admitted
admitted-le-requests id [] t cfgs ws i c w known stored len hc hw opened live = omega arith
admitted-le-requests id (now ∷ times) t cfgs ws i c w known stored len hc hw opened live =
    let a = record_request now id t in
    let v = record_windows now cfgs ws false zero_time in
    let (known', stored', verdict) =
      record_request-at t id now cfgs ws i c w known stored len hc hw in
    let (kept, over) = record_windows-at now cfgs ws false zero_time i c w hc hw in
    let counted = count_request_open now c w opened live.0 in
    let rest =
      admitted-le-requests id times a.tracker cfgs v.windows i c (record w { count = w.count + 1 })
        known' stored' (length-record_windows now cfgs ws false zero_time ∙ len) hc
        (kept ∙ ap some counted) opened live.1 in
    elim (Bool-cases a.exhausted) [
      | inl full ↦ rw full (omega (arith, rest))
      | inr room ↦ rw room (
          omega
            (arith, rest, within-limit c w (not-over now c w over (sym verdict ∙ room) counted)))
    ]
