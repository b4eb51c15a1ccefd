-- ===== src/Limits/Examples.antt =====
-- Runs of the tracker, and its theorems at concrete inputs.
use Prim.Native.Nat.{max}
use local_router.Prelude.{◌+◌, ◌≤◌, ◌≡◌, ◌⊎◌, refl, true, false, List, [], ◌∷◌, arith, or_zero}
use local_router.Prelude.Int.{pos, ◌≤ℤ◌, ◌<ℤ◌}
use local_router.Prelude.Time.{zero_time}
use local_router.GoMap
use local_router.GoMap.{GoMap}
use local_router.Limits.Window.{Config, Window, record_windows, ensure_windows, count_request}
use local_router.Limits.Tracker.{
  Tracker, new, record_request, finish_record, start_hook, window_states, restore_windows,
}
use local_router.Limits.Concurrency.{ConcurrencyTracker}
use local_router.Limits.Exhaustion.{over_resets, IsEarliest, record_request-verdict}
use local_router.Limits.Admission.{admitted, admitted-le-requests}
use local_router.Limits.Restore.{record_request-restore_windows}
use local_router.Limits.Interleaving.{run, held, all_idle, run-slots}

-- Two requests in 100 time units, and three in 1000.
abbrev two_windows : List Config
two_windows =
    record { requests = pos 2; window = pos 100 }
    ∷ record { requests = pos 3; window = pos 1000 }
    ∷ []

abbrev running : List Window
running = record { count = 2; reset_at = 150 } ∷ record { count = 2; reset_at = 1050 } ∷ []

tracker : Tracker
tracker = record (new (GoMap.put GoMap.empty "p" two_windows)) {
  windows = GoMap.put GoMap.empty "p" running;
}

-- The third request in the short window is refused until that window resets.
third_refused : let a = record_request 60 "p" tracker in (a.exhausted ≡ true) × (a.reset_at ≡ 150)
unfolding tracker record_request finish_record start_hook record_windows ensure_windows
    count_request new GoMap.put GoMap.get GoMap.empty
third_refused = (refl, refl)

record_request-verdict_example :
    let a = record_request 60 "p" tracker in
    let resets =
      over_resets 60 two_windows
        (ensure_windows two_windows (or_zero [] (GoMap.get tracker.windows "p"))) in
    ((a.exhausted ≡ false) × (a.reset_at ≡ zero_time) × (resets ≡ []))
    ⊎ ((a.exhausted ≡ true) × IsEarliest a.reset_at resets)
unfolding tracker new GoMap.put GoMap.get GoMap.empty
record_request-verdict_example = record_request-verdict 60 "p" tracker two_windows refl

admitted-le-requests_example : 2 + admitted "p" (60 ∷ 70 ∷ 1000 ∷ []) tracker ≤ max 2 3
unfolding tracker new GoMap.put GoMap.get GoMap.empty
admitted-le-requests_example =
    admitted-le-requests "p" (60 ∷ 70 ∷ 1000 ∷ []) tracker two_windows running 1
      (record { requests = pos 3; window = pos 1000 }) (record { count = 2; reset_at = 1050 }) refl
      refl refl refl refl (omega arith) (omega arith)

record_request-restore_windows_example :
    let old = record_request 200 "p" tracker in
    let t' = restore_windows 160 "p" (window_states tracker "p") (new tracker.configs) in
    let fresh = record_request 200 "p" t' in
    (fresh.exhausted ≡ old.exhausted)
    × (fresh.reset_at ≡ old.reset_at)
    × (window_states fresh.tracker "p" ≡ window_states old.tracker "p")
unfolding tracker new GoMap.put GoMap.get GoMap.empty
record_request-restore_windows_example =
    record_request-restore_windows tracker "p" 160 200 two_windows running refl refl refl
      (omega arith) (omega arith)

abbrev one_slot : ConcurrencyTracker
one_slot = record { active = pos 0; limit = pos 1 }

-- Two threads race for one slot; both have read `active` before either swaps.
run-slots_example :
    let (threads, active) = run (pos 1) (0 ∷ 1 ∷ 0 ∷ 1 ∷ 0 ∷ 1 ∷ 1 ∷ []) (all_idle 2) (pos 0) in
    (active ≡ pos (held threads)) × (pos 0 <ℤ pos 1 → pos (held threads) ≤ℤ pos 1)
run-slots_example = run-slots (pos 1) 2 (0 ∷ 1 ∷ 0 ∷ 1 ∷ 0 ∷ 1 ∷ 1 ∷ []) (omega arith)
