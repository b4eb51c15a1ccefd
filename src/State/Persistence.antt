-- ===== src/State/Persistence.antt =====
-- internal/state/persistence.go: the files below .settings. The directories are created by
-- `EnsureSettingsDir`, whose failure is one of the outcomes of a save.
pub mod Restart
pub mod Merged
use local_router.Prelude.{
  ℕ, ◌+◌, String, Bool, true, false, ◌||◌, Option, none, some, List, [], ◌∷◌, ◌++◌, if◌then◌else◌,
  or_zero, str_eq,
}
use local_router.Prelude.Time.{Time, is_zero, zero_time}
use local_router.GoMap
use local_router.GoMap.{GoMap}
use local_router.State.Report.{
  StateManager, healthy, zero_probe, zero_outcome, zero_metrics, zero_rate_limit, zero_models,
}
use local_router.State.Report.Status.{
  ProviderState, GlobalState, LimitWindowSave, get_all_provider_states, counts_as_blocked,
}

pub record RequestRecord : Type 0 where
  pub provider_id : String
  pub model_id : String
  pub status : String
  pub started_at : Time
  pub ended_at : Option Time

-- `providers/<id>.json` is the text of `states` under the id, `<id>.json.tmp` that of `temps`;
-- `requests/<id>.json` stands in `requests`. A file that is there may still be unreadable, until a
-- save has renamed its own file to that name.
pub record Disk : Type 0 where
  pub states : GoMap String
  pub temps : GoMap String
  pub global : Option String
  pub global_temp : Option String
  pub requests : GoMap String
  pub is_readable : String → Bool

-- The JSON encoder and decoder.
pub record Json (A : Type 0) : Type 0 where
  pub encode : A → String
  pub decode : String → Option A

-- What the operating system lets a save do: nothing, part of the temporary file, all of that file, or
-- the renaming as well.
pub data SaveOutcome : Type 0 where
  no_directory : SaveOutcome
  write_fails : String → SaveOutcome
  rename_fails saved : SaveOutcome

-- SaveProviderState. The Boolean says that there was no error.
unfoldable pub save_provider_state :
    Json ProviderState → SaveOutcome → ProviderState → Disk → Disk × Bool
save_provider_state json no_directory ps disk = (disk, false)
save_provider_state json (write_fails part) ps disk =
    (record disk { temps = GoMap.put disk.temps ps.name part }, false)
save_provider_state json rename_fails ps disk = (
  record disk { temps = GoMap.remove (GoMap.put disk.temps ps.name (json.encode ps)) ps.name },
  false,
)
save_provider_state json saved ps disk = (
  record disk {
    temps = GoMap.remove (GoMap.put disk.temps ps.name (json.encode ps)) ps.name;
    states = GoMap.put disk.states ps.name (json.encode ps);
    is_readable = λ id. str_eq ps.name id || disk.is_readable id;
  },
  true,
)

-- ProviderState{Name: id}
abbrev pub empty_state : String → ProviderState
empty_state id = record {
  name = id;
  status = healthy;
  probe = zero_probe;
  request = zero_outcome;
  metrics = zero_metrics;
  rate_limit = zero_rate_limit;
  models = zero_models;
  blocked_until = none;
  exhausted_until = none;
  limit_windows = [];
  active_requests = 0;
}

-- LoadProviderState; `none` is an error.
unfoldable pub load_provider_state : Json ProviderState → Disk → String → Option ProviderState
load_provider_state json disk id = elim (GoMap.get disk.states id) [
  | none ↦ some (empty_state id)
  | some text ↦ if disk.is_readable id then json.decode text else none
]

abbrev pub loaded_or_empty : Json ProviderState → Disk → String → ProviderState
loaded_or_empty json disk id = or_zero (empty_state id) (load_provider_state json disk id)

abbrev pub pointer : Time → Option Time
pointer t = if is_zero t then none else some t

abbrev pub with_routing : Time → Time → ProviderState → ProviderState
with_routing blocked exhausted ps = record ps {
  blocked_until = pointer blocked;
  exhausted_until = pointer exhausted;
}

unfoldable pub update_routing_state :
    Json ProviderState → SaveOutcome → String → Time → Time → Disk → Disk × Bool
unfolding load_provider_state save_provider_state
update_routing_state json outcome id blocked exhausted disk =
    save_provider_state json outcome (with_routing blocked exhausted (loaded_or_empty json disk id))
      disk

unfoldable pub update_active_requests :
    Json ProviderState → SaveOutcome → String → ℕ → Disk → Disk × Bool
unfolding load_provider_state save_provider_state
update_active_requests json outcome id active disk =
    save_provider_state json outcome
      (record (loaded_or_empty json disk id) { active_requests = active }) disk

unfoldable pub update_limit_windows :
    Json ProviderState → SaveOutcome → String → List LimitWindowSave → Disk → Disk × Bool
unfolding load_provider_state save_provider_state
update_limit_windows json outcome id windows disk =
    save_provider_state json outcome
      (record (loaded_or_empty json disk id) { limit_windows = windows }) disk

-- The loop of `LoadAllProviderStates` over the directory; the first error ends it.
unfoldable pub load_states : Json ProviderState → Disk → List String → Option (GoMap ProviderState)
unfolding load_provider_state
load_states json disk [] = some GoMap.empty
load_states json disk (id ∷ ids) = elim (load_provider_state json disk id) [
  | none ↦ none
  | some ps ↦ elim (load_states json disk ids) [
    | none ↦ none
    | some states ↦ some (GoMap.put states id ps)
  ]
]

unfoldable pub load_all_provider_states : Json ProviderState → Disk → Option (GoMap ProviderState)
unfolding load_states
load_all_provider_states json disk = load_states json disk (GoMap.keys disk.states)

-- SaveGlobalState
unfoldable pub save_global_state : Json GlobalState → SaveOutcome → GlobalState → Disk → Disk × Bool
save_global_state json no_directory g disk = (disk, false)
save_global_state json (write_fails part) g disk = (record disk { global_temp = some part }, false)
save_global_state json rename_fails g disk = (record disk { global_temp = none }, false)
save_global_state json saved g disk =
    (record disk { global_temp = none; global = some (json.encode g) }, true)

abbrev pub empty_global : GlobalState
empty_global = record {
  total_requests = 0;
  total_failures = 0;
  active_providers = 0;
  blocked_providers = 0;
  generated_at = zero_time;
}

-- LoadGlobalState. `readable` says whether the file can be read.
unfoldable pub load_global_state : Json GlobalState → Bool → Disk → Option GlobalState
load_global_state json readable disk = elim disk.global [
  | none ↦ some empty_global
  | some text ↦ if readable then json.decode text else none
]

-- SaveRequestRecord, where the directories are there and the file can be written.
unfoldable pub save_request_record :
    Json RequestRecord → Time → String → String → String → Disk → Disk
save_request_record json now id provider_id model_id disk = record disk {
  requests = GoMap.put disk.requests id (
      json.encode (record {
        provider_id = provider_id;
        model_id = model_id;
        status = "in_progress";
        started_at = now;
        ended_at = none;
      }));
}

-- CompleteRequestRecord: nothing happens where there is no record, or none that can be decoded.
unfoldable pub complete_request_record : Json RequestRecord → Time → String → Disk → Disk
complete_request_record json now id disk = elim (GoMap.get disk.requests id) [
  | none ↦ disk
  | some text ↦ elim (json.decode text) [
    | none ↦ disk
    | some rec ↦ record disk {
      requests =
          GoMap.put disk.requests id
            (json.encode (record rec { status = "completed"; ended_at = some now }));
    }
  ]
]

-- ### BuildReportData

-- `if state.Name == "" { state.Name = id }`
abbrev pub with_name : String → ProviderState → ProviderState
with_name id ps = if str_eq ps.name "" then record ps { name = id } else ps

unfoldable pub named_states : GoMap ProviderState → List String → List ProviderState
named_states states [] = []
named_states states (id ∷ ids) =
    with_name id (or_zero (empty_state id) (GoMap.get states id)) ∷ named_states states ids

-- The first state of the same name is replaced; where there is none, the state goes to the end.
unfoldable pub replace_state : ProviderState → List ProviderState → List ProviderState
replace_state ms [] = ms ∷ []
replace_state ms (p ∷ ps) =
    let rest = replace_state ms ps in if str_eq p.name ms.name then ms ∷ ps else p ∷ rest

unfoldable pub replace_states : List ProviderState → List ProviderState → List ProviderState
unfolding replace_state
replace_states [] ps = ps
replace_states (ms ∷ more) ps = replace_states more (replace_state ms ps)

unfoldable pub count_state : ProviderState → GlobalState → GlobalState
count_state p g = record g {
  total_requests = g.total_requests + p.metrics.total_requests;
  total_failures = g.total_failures + p.metrics.total_failures;
  blocked_providers =
      if counts_as_blocked p.status then g.blocked_providers + 1 else g.blocked_providers;
  active_providers =
      if counts_as_blocked p.status then g.active_providers else g.active_providers + 1;
}

unfoldable pub count_states : List ProviderState → GlobalState → GlobalState
unfolding count_state
count_states [] g = g
count_states (p ∷ ps) g = count_states ps (count_state p g)

pub record ReportData : Type 0 where
  pub global : GlobalState
  pub providers : List ProviderState

-- An error of the loading counts as no saved states.
unfoldable pub build_report_data : Json ProviderState → Time → StateManager → Disk → ReportData
unfolding load_all_provider_states named_states replace_states count_states
build_report_data json now sm disk =
    let states = or_zero GoMap.empty (load_all_provider_states json disk) in
    let providers =
      replace_states (get_all_provider_states now sm) (named_states states (GoMap.keys states)) in
    record {
      global = count_states providers (record empty_global { generated_at = now });
      providers = providers;
    }
