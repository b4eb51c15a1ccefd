-- ===== src/Router/Examples.antt =====
-- The router's theorems at a concrete configuration: a local provider that is out of quota for one
-- model, and a remote one that answers.
use local_router.Prelude.{
  ◌≡◌, ◌⊎◌, refl, true, false, Option, none, some, List, [], ◌∷◌, In, keep, subst, arith, eq_iff,
}
use local_router.Prelude.Int.{pos}
use local_router.GoMap
use local_router.GoMap.{GoMap, get-put, get-empty}
use local_router.Provider.{Chunk, Provider, Request, Response, Error, http, ok, err, as_http}
use local_router.Health.{Monitor, add_node, set_ready, is_ready}
use local_router.Health
use local_router.State.Manager.{State, get_state, blocked_until, exhausted_until}
use local_router.State.Manager
use local_router.State.Report
use local_router.Limits.Tracker.{
  Tracker, concurrency_for, record_request, try_acquire_concurrency, release_concurrency,
}
use local_router.Limits.Tracker
use local_router.Limits.Concurrency.{ConcurrencyTracker, IsBounded}
use local_router.Metrics
use local_router.Registry.{Entry, zero_entry, Registry, global_list}
use local_router.Router.{Services, Router, Reply, resolve, filter_entry}
use local_router.Router.Retry.{is_model_level_error, retry_after_duration}
use local_router.Router.Selection.{select_provider, try_entry, check_model, check_provider}
use local_router.Router.Slots.{acquire_concurrency, acquire_model, release, release_model}
use local_router.Router.Loop.{run, loop, next, round, attempt_selected}
use local_router.Router.Calls.{
  complete_attempt, after_complete, route, stream, Streaming, stream_attempt, after_stream,
  after_open, after_first,
}
use local_router.Router.Selected.{IsServing, select_provider-IsServing}
use local_router.Router.Termination.{IsKeyed, route_returns, stream_returns}
use local_router.Router.Answers.{IsResponse, route-IsResponse, IsStream, stream-IsStream}
use local_router.Router.Pump.{Pipe, Steps, GoesOn, IsStuck, chunks_arrive, slots_leak}
use local_router.Router.Pump
use local_router.Router.Balance.{HasBoundedSlots, settle, slot_of, concurrency_for-settle}
use local_router.Router.Failover.{
  cool_model, cooldown, record_success, after_complete_error, after_stream_error, after_chunk_error,
}
use local_router.Router.Blocking.{
  services_of, is_cooling, get_state-after_complete_error, get_state-after_stream_error,
  is_cooling-after_complete_error,
}

abbrev too_many : Error
too_many = http (record { status_code = 429; body = "please retry in 12s." })

abbrev response : Response
response = record {
  id = "1";
  model = "phi";
  content = "hello";
  usage = record { prompt_tokens = pos 3; completion_tokens = pos 1 };
}

-- Out of quota for its model.
abbrev near : Provider Services
near = record {
  id = "near";
  complete = λ req s. (err too_many, s);
  stream = λ req s. (err too_many, s);
  health_check = λ s. (none, s);
  list_models = none;
}

-- Answers at once; its streams are empty.
abbrev far : Provider Services
far = record {
  id = "far";
  complete = λ req s. (ok response, s);
  stream = λ req s. (ok (record { first = none; rest = [] }), s);
  health_check = λ s. (none, s);
  list_models = none;
}

abbrev near_phi : Entry
near_phi = record zero_entry { provider_id = "near"; model_id = "phi"; priority = pos 1 }

abbrev far_phi : Entry
far_phi = record zero_entry {
  provider_id = "far";
  model_id = "phi";
  priority = pos 2;
  is_remote = true;
}

abbrev entries : List Entry
entries = near_phi ∷ far_phi ∷ []

abbrev registry : Registry
registry = record {
  all = entries;
  by_model = GoMap.put GoMap.empty "phi" entries;
  by_provider = GoMap.empty;
  provider_order = "near" ∷ "far" ∷ [];
  local_ids = "near" ∷ [];
  remote_ids = "far" ∷ [];
  any_model = [];
  injected = GoMap.empty;
}

abbrev router : Router
router = record {
  providers = GoMap.put (GoMap.put GoMap.empty "near" near) "far" far;
  registry = registry;
  default_model = "phi";
  recovery_windows = GoMap.put GoMap.empty "far" (pos 3600);
  parse_duration = λ text. some (pos 12000000000);
}

abbrev services : Services
services = record {
  now = 100;
  health =
      set_ready "far" (set_ready "near" (add_node "far" (add_node "near" (Health.new (pos 2000)))));
  state = Manager.new;
  report = some Report.new;
  limits = Tracker.new GoMap.empty;
  model_limits = none;
  metrics = Metrics.new;
  generation = 0;
}

abbrev request : Request
request = record {
  model = "auto";
  messages = [];
  stream = false;
  api_key = "";
  temperature = none;
  top_p = none;
  max_tokens = none;
  seed = none;
}

router-IsKeyed : IsKeyed router
unfolding IsKeyed
router-IsKeyed id p h = ground (
  arith,
  h,
  get-put (GoMap.put GoMap.empty "near" near) "far" id far,
  get-put GoMap.empty "near" id near,
  get-empty {V = Provider Services} id,
  eq_iff "far" id,
  eq_iff "near" id,
)

route_returns_example :
    (y : Reply Response × Services) × (route (λ n. router) request services ≡ some y)
route_returns_example = route_returns (λ n. router) request services (λ n. router-IsKeyed)

stream_returns_example :
    (y : Reply Streaming × Services) × (stream (λ n. router) request services ≡ some y)
stream_returns_example = stream_returns (λ n. router) request services (λ n. router-IsKeyed)

abbrev services_after : Option (Reply Response × Services) → Services
services_after none = services
services_after (some (y, s)) = s

-- The first attempt ends in 429, the second in a response.
route-IsResponse_example : IsResponse (λ n. router) 0 request response
unfolding route run loop next round attempt_selected resolve global_list select_provider try_entry
    check_model check_provider get_state blocked_until exhausted_until is_ready set_ready add_node
    Health.new Manager.new Tracker.new Metrics.new GoMap.get GoMap.put GoMap.empty record_request
    acquire_concurrency acquire_model try_acquire_concurrency concurrency_for release release_model
    release_concurrency complete_attempt after_complete after_complete_error is_model_level_error
    as_http filter_entry keep cool_model record_success
route-IsResponse_example =
    route-IsResponse (λ n. router) request services
      (services_after (route (λ n. router) request services)) response refl

select_provider-IsServing_example :
    In near_phi entries × IsServing router (select_provider router entries services).0 near near_phi
unfolding select_provider try_entry check_model check_provider get_state blocked_until
    exhausted_until is_ready set_ready add_node Health.new Manager.new Tracker.new GoMap.get
    GoMap.put GoMap.empty record_request
select_provider-IsServing_example =
    select_provider-IsServing router entries services near near_phi refl

abbrev one_slot : ConcurrencyTracker
one_slot = record { active = pos 0; limit = pos 1 }

-- One slot for "near", and trackers for models too.
abbrev limited : Services
limited = record services {
  limits = record (Tracker.new GoMap.empty) {
    concurrency = some (GoMap.put GoMap.empty "near" one_slot);
  };
  model_limits = some (Tracker.new GoMap.empty);
}

limited-HasBoundedSlots : HasBoundedSlots limited.limits
unfolding HasBoundedSlots concurrency_for
limited-HasBoundedSlots id c h =
    let same : one_slot ≡ c = ground (
      arith,
      h,
      get-put GoMap.empty "near" id one_slot,
      get-empty {V = ConcurrencyTracker} id,
      eq_iff "near" id,
    ) in
    subst IsBounded same (omega arith)

no_model_slots : HasBoundedSlots (Tracker.new GoMap.empty)
unfolding HasBoundedSlots concurrency_for Tracker.new
no_model_slots id c h = absurd (ground (arith, h))

concurrency_for-settle_example :
    (concurrency_for (settle near_phi limited).limits "near"
      ≡ concurrency_for limited.limits "near")
    × (slot_of (settle near_phi limited).model_limits "near" ≡ slot_of limited.model_limits "near")
concurrency_for-settle_example =
    concurrency_for-settle near_phi limited "near" limited-HasBoundedSlots no_model_slots

get_state-after_complete_error_example :
    let s' =
      services_of
        (after_complete_error {A = Response} router "far" far_phi entries too_many services) in
    get_state 200 services.health s'.state "far" ≡ State.blocked
unfolding blocked_until Manager.new GoMap.get GoMap.put GoMap.empty
get_state-after_complete_error_example =
    get_state-after_complete_error Response router "far" "far" far_phi entries too_many services 200
      services.health refl

get_state-after_stream_error_example :
    let opened =
      services_of
        (after_stream_error {A = Streaming} router "far" far_phi entries too_many services) in
    let chunk =
      services_of
        (after_chunk_error {A = Streaming} router "far" far_phi entries too_many services) in
    (get_state 200 services.health opened.state "far" ≡ State.blocked)
    × (get_state 200 services.health chunk.state "far" ≡ State.blocked)
unfolding blocked_until Manager.new GoMap.get GoMap.put GoMap.empty
get_state-after_stream_error_example =
    get_state-after_stream_error Streaming router "far" "far" far_phi entries too_many services 200
      services.health refl

is_cooling-after_complete_error_example :
    let s' =
      services_of
        (after_complete_error {A = Response} router "near" near_phi entries too_many limited) in
    is_cooling 200 "near/phi" s'.model_limits ≡ true
unfolding is_model_level_error as_http cooldown retry_after_duration
is_cooling-after_complete_error_example =
    is_cooling-after_complete_error Response router "near" "near/phi" near_phi entries too_many
      limited (Tracker.new GoMap.empty) 200 refl

-- A chunk, and a provider whose streams begin with it.
abbrev hello : Chunk
hello = record { delta = "hello"; done = false; err = none }

abbrev talking : Provider Services
talking = record far { stream = λ req s. (ok (record { first = some hello; rest = [] }), s) }

abbrev talking_router : Router
talking_router = record router {
  providers = GoMap.put (GoMap.put GoMap.empty "near" near) "far" talking;
}

abbrev started : Streaming
started = record { model = "phi"; chunks = hello ∷ []; entry = far_phi; generation = 0 }

abbrev services_after_stream : Option (Reply Streaming × Services) → Services
services_after_stream none = services
services_after_stream (some (y, s)) = s

-- The local provider refuses to open a stream, the remote one begins to talk.
stream-IsStream_example : IsStream (λ n. talking_router) 0 request started
unfolding stream run loop next round attempt_selected resolve global_list select_provider try_entry
    check_model check_provider get_state blocked_until exhausted_until is_ready set_ready add_node
    Health.new Manager.new Tracker.new Metrics.new GoMap.get GoMap.put GoMap.empty record_request
    acquire_concurrency acquire_model try_acquire_concurrency concurrency_for release release_model
    release_concurrency stream_attempt after_stream after_open after_first after_stream_error
    is_model_level_error as_http filter_entry keep cool_model record_success
stream-IsStream_example =
    stream-IsStream (λ n. talking_router) request services
      (services_after_stream (stream (λ n. talking_router) request services)) started refl

abbrev begun : Pipe
begun = Pump.start hello (hello ∷ [])

chunks_arrive_example :
    ((begun.released ≡ true) × (begun.received ≡ hello ∷ hello ∷ [])) ⊎ GoesOn begun
unfolding Pump.start
chunks_arrive_example = chunks_arrive hello (hello ∷ []) begun (Steps.here begun) refl

slots_leak_example : (p : Pipe) × Steps begun p × IsStuck p
slots_leak_example = slots_leak hello hello []
