-- ===== src/State/Examples.antt =====
-- The theorems on the two state managers, at concrete inputs.
use local_router.Prelude.{◌≡◌, refl, true, none, some, List, [], ◌∷◌, arith}
use local_router.Prelude.Int.{pos}
use local_router.GoMap
use local_router.Health.{Monitor, add_node, set_ready, is_ready}
use local_router.Health
use local_router.Provider.{Error, http, deadline_exceeded}
use local_router.State.Manager.{
  Manager, State, available, get_state, block, set_exhausted, blocked_until, exhausted_until,
}
use local_router.State.Manager as Providers
use local_router.State.Report.{StateManager, unreachable, record_request_success, succeeded}
use local_router.State.Report
use local_router.State.Report.Status.{ProviderState}
use local_router.State.Report.Counting.{Event, report_all}
use local_router.Limits.Tracker
use local_router.Start.Boot.{restore_state}
use local_router.State.Persistence.{
  Disk, Json, saved, load_provider_state, update_routing_state, save_provider_state, with_routing,
  empty_state,
}
use local_router.State.Persistence.Restart.{update_routing_state-load, restore_state-get_state}

-- A monitor that has seen node "a" answer.
abbrev monitor : Monitor
monitor = set_ready "a" (add_node "a" (Health.new (pos 2000)))

abbrev too_many : Error
too_many = http (record { status_code = 429; body = "slow down" })

abbrev history : List Event
history =
    record { at = 10; id = "a"; error = none }
    ∷ record { at = 20; id = "a"; error = some deadline_exceeded }
    ∷ record { at = 30; id = "b"; error = none }
    ∷ record { at = 40; id = "a"; error = some too_many }
    ∷ []

abbrev reported : StateManager
reported = report_all history Report.new

abbrev served : StateManager
served = record_request_success 10 "a" Report.new

-- ### The files

abbrev held_manager : Manager
held_manager = block 100 "a" (pos 50) Providers.new

abbrev disk : Disk
disk = record {
  states = GoMap.empty;
  temps = GoMap.empty;
  global = none;
  global_temp = none;
  requests = GoMap.empty;
  is_readable = λ id. true;
}

-- An encoder that keeps the name only, and a decoder that knows one state for each name.
abbrev json : Json ProviderState
json = record {
  encode = λ ps. ps.name;
  decode = λ text. some (with_routing 150 0 (empty_state text));
}

update_routing_state-load_example :
    load_provider_state json (update_routing_state json saved "a" 150 0 disk).0 "a"
    ≡ some (with_routing 150 0 (empty_state "a"))
unfolding update_routing_state load_provider_state save_provider_state GoMap.get GoMap.empty
update_routing_state-load_example =
    update_routing_state-load json saved "a" "a" 150 0 disk refl refl

restore_state-get_state_example :
    get_state 130 monitor
      (restore_state 120 "a"
        (with_routing 150 0 (empty_state "a"))
        (Providers.new, Tracker.new GoMap.empty)).0
      "a"
    ≡ get_state 130 monitor held_manager "a"
unfolding update_routing_state load_provider_state save_provider_state block blocked_until
    exhausted_until Providers.new GoMap.get GoMap.put GoMap.empty
restore_state-get_state_example =
    restore_state-get_state json disk held_manager "a" (with_routing 150 0 (empty_state "a"))
      monitor (Tracker.new GoMap.empty) 120 130 refl refl refl (omega arith)
