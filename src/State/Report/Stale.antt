-- ===== src/State/Report/Stale.antt =====
-- What the report's status forgets to forget.
use local_router.Prelude.{◌≡◌, String, false, none, some, arith}
use local_router.Prelude.Time.{Time}
use local_router.GoMap
use local_router.State.Report.{StateManager, HttpErrorInfo, healthy, unreachable}
use local_router.State.Report.Status.{get_provider_state, global_status, determine_status, is_held}
use local_router.State.Report.Counting.{outcome_of}

HasError : StateManager → String → Type 0
HasError sm id = (e : HttpErrorInfo) × ((outcome_of sm id).last_error ≡ some e)

-- A provider that was never probed, has no recorded failure and is not held back: its own entry in the
-- report says unreachable, and the global counters take it for healthy.
pub unprobed-statuses_differ :
    (now : Time) (sm : StateManager) (id : String)
    → GoMap.get sm.probe_results id ≡ none
    → (outcome_of sm id).last_error ≡ none
    → is_held now sm id ≡ false
    → ((get_provider_state now sm id).status ≡ unreachable) × (global_status now sm id ≡ healthy)
unfolding get_provider_state global_status determine_status outcome_of
unprobed-statuses_differ now sm id unprobed clean free = (ground arith, ground arith)
