-- ===== src/State/Report/Counting.antt =====
-- The counters of the report against the history of requests.
use local_router.Prelude.{
  ℕ, ◌+◌, ◌≡◌, String, Bool, true, false, Option, none, some, List, [], ◌∷◌, str_eq, if◌then◌else◌,
  or_zero,
}
use local_router.Prelude.Time.{Time}
use local_router.GoMap
use local_router.Provider.{Error}
use local_router.State.Report.{
  StateManager, RequestOutcome, zero_outcome, metrics_of, record_request_success,
  record_request_failure,
}

-- A request that the router reported: when, of which provider, and its error if it failed.
pub record Event : Type 0 where
  pub at : Time
  pub id : String
  pub error : Option Error

unfoldable pub report : Event → StateManager → StateManager
report v sm = elim v.error [
  | none ↦ record_request_success v.at v.id sm
  | some e ↦ record_request_failure v.at v.id e sm
]

unfoldable pub report_all : List Event → StateManager → StateManager
report_all [] sm = sm
report_all (v ∷ events) sm = report_all events (report v sm)

abbrev is_success : Event → Bool
is_success v = elim v.error [ none ↦ true | some e ↦ false ]

unfoldable pub successes : String → List Event → ℕ
successes id [] = 0
successes id (v ∷ events) =
    let rest = successes id events in
    if str_eq v.id id then (if is_success v then rest + 1 else rest) else rest

unfoldable pub failures : String → List Event → ℕ
failures id [] = 0
failures id (v ∷ events) =
    let rest = failures id events in
    if str_eq v.id id then (if is_success v then rest else rest + 1) else rest

-- The failures of `id` since its last success, with `run` of them before the events.
unfoldable pub failing_run : String → ℕ → List Event → ℕ
failing_run id run [] = run
failing_run id run (v ∷ events) =
    failing_run id (if str_eq v.id id then (if is_success v then 0 else run + 1) else run) events

unfoldable pub outcome_of : StateManager → String → RequestOutcome
outcome_of sm id = or_zero zero_outcome (GoMap.get sm.request_outcomes id)

record Counted (sm sm' : StateManager) (v : Event) (id : String) : Type 0 where
  requests :
      (metrics_of sm' id).total_requests ≡ (metrics_of sm id).total_requests + successes id (v ∷ [])
  fails :
      (metrics_of sm' id).total_failures ≡ (metrics_of sm id).total_failures + failures id (v ∷ [])
  run :
      (outcome_of sm' id).consecutive_failures
      ≡ failing_run id (outcome_of sm id).consecutive_failures (v ∷ [])
