-- ===== src/Limits/Restore.antt =====
-- Saving the windows of an id (`snapshotWindows`) and restoring them in a new process
-- (`RestoreWindows`).
use local_router.Prelude.{
  ◌<◌, ◌≡◌, refl, String, some, List, [], ◌∷◌, arith, All, if◌then◌else◌, ap, ◌∙◌, length, Bool,
  false, not, sym, eq_iff, ◌&&◌, ◌||◌,
}
use local_router.Prelude.Time.{Time, zero_time, before}
use local_router.GoMap
use local_router.GoMap.{GoMap, get-put, get-empty}
use local_router.Limits.Window.{
  Config, Window, WindowState, Verdict, new_window, count_request, record_windows, ensure_windows,
  snapshot_windows, restore_states, push_window, is_over,
}
use local_router.Limits.Exhaustion.{ensure_windows_full}
use local_router.Limits.Tracker.{
  Tracker, new, restore_windows, window_states, record_request, finish_record, start_hook,
}

-- A window that was never opened has counted nothing.
abbrev pub IsOpenedFirst : Window → Type 0
IsOpenedFirst w = w.reset_at ≡ zero_time → w.count ≡ 0

abbrev restored : Time → Window → Window
restored saved w = if before saved w.reset_at then w else new_window

-- A window restored at `saved` counts a later request as the original would.
count_request-restored :
    (saved now : Time) (cfg : Config) (w : Window)
    → IsOpenedFirst w
    → saved < now
    → count_request now cfg (restored saved w) ≡ count_request now cfg w
unfolding count_request
count_request-restored saved now cfg w opened h = ground arith

abbrev reborn : Time → List Config → List Window → List Window
reborn saved cfgs ws = restore_states saved (snapshot_windows ws) (ensure_windows cfgs [])

-- The rest of the loop once the window at hand has counted the request.
abbrev round : Time → Config → List Config → List Window → Bool → Time → Window → Verdict
round now cfg cfgs ws e r w = push_window w (
    record_windows now cfgs ws (e || is_over cfg w)
      (if is_over cfg w && (not e || before w.reset_at r) then w.reset_at else r))

record_windows-reborn :
    (saved now : Time) (cfgs : List Config) (ws : List Window) (e : Bool) (r : Time)
    → length ws ≡ length cfgs
    → All IsOpenedFirst ws
    → saved < now
    → record_windows now cfgs (reborn saved cfgs ws) e r ≡ record_windows now cfgs ws e r
unfolding record_windows restore_states snapshot_windows ensure_windows
record_windows-reborn saved now [] [] e r len opened h = refl
record_windows-reborn saved now [] (w ∷ ws) e r len opened h = absurd (omega arith)
record_windows-reborn saved now (cfg ∷ cfgs) [] e r len opened h = absurd (omega arith)
record_windows-reborn saved now (cfg ∷ cfgs) (w ∷ ws) e r len opened h =
    ap (round now cfg cfgs (reborn saved cfgs ws) e r)
      (count_request-restored saved now cfg w opened.0 h)
    ∙ ap (push_window (count_request now cfg w))
        (record_windows-reborn saved now cfgs ws _ _ (omega arith) opened.1 h)

ensure-restore :
    (saved : Time) (cfgs : List Config) (ws : List Window)
    → length ws ≡ length cfgs
    → ensure_windows cfgs (reborn saved cfgs ws) ≡ reborn saved cfgs ws
unfolding ensure_windows restore_states snapshot_windows
ensure-restore saved [] ws len = refl
ensure-restore saved (cfg ∷ cfgs) [] len = absurd (omega arith)
ensure-restore saved (cfg ∷ cfgs) (w ∷ ws) len =
    ap (◌∷◌ (restored saved w)) (ensure-restore saved cfgs ws (omega arith))

-- The answer of `Record` in terms of the loop.
record_request-loop :
    (t : Tracker) (id : String) (now : Time) (cfgs : List Config) (ws : List Window)
    → GoMap.get t.configs id ≡ some cfgs
    → GoMap.get t.windows id ≡ some ws
    → ensure_windows cfgs ws ≡ ws
    → let a = record_request now id t in
      let v = record_windows now cfgs ws false zero_time in
      (a.exhausted ≡ v.exhausted)
      × (a.reset_at ≡ (if v.exhausted then v.reset_at else zero_time))
      × (window_states a.tracker id ≡ snapshot_windows v.windows)
unfolding record_request window_states finish_record start_hook
record_request-loop t id now cfgs ws known stored full =
    let v = record_windows now cfgs ws false zero_time in
    ground (arith, get-put t.windows id id v.windows, eq_iff id id)

configs-restore :
    (t : Tracker) (id : String) (saved : Time) (states : List WindowState) (cfgs : List Config)
    → GoMap.get t.configs id ≡ some cfgs
    → let t' = restore_windows saved id states (new t.configs) in
      (GoMap.get t'.configs id ≡ some cfgs)
      × (GoMap.get t'.windows id ≡ some (restore_states saved states (ensure_windows cfgs [])))
unfolding restore_windows new
configs-restore t id saved states cfgs known =
    let ws = restore_states saved states (ensure_windows cfgs []) in
    ground (arith, get-put GoMap.empty id id ws, eq_iff id id, get-empty {V = List Window} id)

window_states-stored :
    (t : Tracker) (id : String) (ws : List Window)
    → GoMap.get t.windows id ≡ some ws
    → window_states t id ≡ snapshot_windows ws
unfolding window_states
window_states-stored t id ws stored = rw (stored, window_states)

-- A process saves the windows of `id` at `saved` and stops; a new process with the same configs
-- restores them. Every request that comes later than `saved` is answered as the old process would
-- have answered it, whether the windows have run out by then or not.
pub record_request-restore_windows :
    (t : Tracker) (id : String) (saved now : Time) (cfgs : List Config) (ws : List Window)
    → GoMap.get t.configs id ≡ some cfgs
    → GoMap.get t.windows id ≡ some ws
    → length ws ≡ length cfgs
    → All IsOpenedFirst ws
    → saved < now
    → let old = record_request now id t in
      let t' = restore_windows saved id (window_states t id) (new t.configs) in
      let fresh = record_request now id t' in
      (fresh.exhausted ≡ old.exhausted)
      × (fresh.reset_at ≡ old.reset_at)
      × (window_states fresh.tracker id ≡ window_states old.tracker id)
record_request-restore_windows t id saved now cfgs ws known stored len opened h =
    let t' = restore_windows saved id (snapshot_windows ws) (new t.configs) in
    let (known', stored') = configs-restore t id saved (snapshot_windows ws) cfgs known in
    let old = record_request-loop t id now cfgs ws known stored (ensure_windows_full cfgs ws len) in
    let fresh =
      record_request-loop t' id now cfgs (reborn saved cfgs ws) known' stored'
        (ensure-restore saved cfgs ws len) in
    rw (window_states-stored t id ws stored) (
      let same = record_windows-reborn saved now cfgs ws false zero_time len opened h in
      (
        fresh.0 ∙ ap (λ v. v.exhausted) same ∙ sym old.0,
        fresh.1 ∙ ap (λ v. if v.exhausted then v.reset_at else zero_time) same ∙ sym old.1,
        fresh.2 ∙ ap (λ v. snapshot_windows v.windows) same ∙ sym old.2,
      ))
