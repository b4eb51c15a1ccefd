-- ===== src/Server/Examples.antt =====
-- The theorems on the server, at a router with one provider that begins to talk.
use local_router.Prelude.{
  ◌≡◌, refl, true, false, Option, none, some, List, [], ◌∷◌, keep, arith, map,
}
use local_router.Prelude.Int.{pos}
use local_router.GoMap
use local_router.Provider.{Chunk, Provider, Request, deadline_exceeded, ok, err}
use local_router.Health.{add_node, set_ready, is_ready}
use local_router.Health
use local_router.State.Manager.{get_state, blocked_until, exhausted_until}
use local_router.State.Manager
use local_router.Limits.Tracker.{Tracker, record_request, concurrency_for, try_acquire_concurrency}
use local_router.Limits.Tracker
use local_router.Metrics
use local_router.Registry.{Entry, zero_entry, Registry, global_list}
use local_router.Registry
use local_router.Router.{Services, Router, Reply, resolve}
use local_router.Router.Selection.{select_provider, try_entry, check_model, check_provider}
use local_router.Router.Slots.{acquire_concurrency, acquire_model}
use local_router.Router.Loop.{run, loop, next, round, attempt_selected}
use local_router.Router.Calls.{
  Streaming, stream, stream_attempt, after_stream, after_open, after_first,
}
use local_router.Router.Failover.{record_success}
use local_router.Server.Incoming.{unix}
use local_router.Server.Relay.{
  Write, Pick, tick, closed, got, begin_stream, end_stream, handle_stream,
}
use local_router.Server.Relayed.{IsPicks, is_data, transcript, handle_stream-transcript}
use local_router.Server.Pages.{Server, handle_health}
use local_router.Server.Shown.{provider_view, holds_back, handle_health-view}

abbrev hello : Chunk
hello = record { delta = "hello"; done = false; err = none }

abbrev broken : Chunk
broken = record { delta = ""; done = false; err = some deadline_exceeded }

-- Its second chunk is an error.
abbrev talking : Provider Services
talking = record {
  id = "far";
  complete = λ req s. (err deadline_exceeded, s);
  stream = λ req s. (ok (record { first = some hello; rest = broken ∷ [] }), s);
  health_check = λ s. (none, s);
  list_models = none;
}

abbrev far_phi : Entry
far_phi = record zero_entry {
  provider_id = "far";
  model_id = "phi";
  priority = pos 2;
  is_remote = true;
}

abbrev registry : Registry
registry = record (Registry.build [] "") {
  all = far_phi ∷ [];
  by_provider = GoMap.put GoMap.empty "far" (far_phi ∷ []);
  provider_order = "far" ∷ [];
}

abbrev router : Router
router = record {
  providers = GoMap.put GoMap.empty "far" talking;
  registry = registry;
  default_model = "";
  recovery_windows = GoMap.empty;
  parse_duration = λ text. none;
}

abbrev services : Services
services = record {
  now = 100;
  health = set_ready "far" (add_node "far" (Health.new (pos 2000)));
  state = Manager.new;
  report = none;
  limits = Tracker.new GoMap.empty;
  model_limits = none;
  metrics = Metrics.new;
  generation = 0;
}

abbrev request : Request
request = record {
  model = "auto";
  messages = [];
  stream = true;
  api_key = "";
  temperature = none;
  top_p = none;
  max_tokens = none;
  seed = none;
}

abbrev started : Streaming
started = record { model = "phi"; chunks = hello ∷ broken ∷ []; entry = far_phi; generation = 0 }

abbrev services_after : Option (Reply Streaming × Services) → Services
services_after none = services
services_after (some (y, s)) = s

abbrev after : Services
after = services_after (stream (λ n. router) request (begin_stream services))

abbrev picks : Streaming → List Pick
picks begun = got hello ∷ tick ∷ got broken ∷ tick ∷ closed ∷ []

handle_stream-transcript_example :
    (ws : List Write) × (handle_stream picks (λ s. s) 7 (λ n. router) request services
      ≡ some (ws, end_stream false 7 after))
    × (keep is_data ws ≡ transcript (unix after.now) "phi" (hello ∷ broken ∷ []))
unfolding stream run loop next round attempt_selected resolve global_list select_provider try_entry
    check_model check_provider get_state blocked_until exhausted_until is_ready set_ready add_node
    Health.new Manager.new Tracker.new Metrics.new GoMap.get GoMap.put GoMap.empty record_request
    acquire_concurrency acquire_model try_acquire_concurrency concurrency_for stream_attempt
    after_stream after_open after_first record_success begin_stream
handle_stream-transcript_example =
    handle_stream-transcript picks (λ s. s) 7 (λ n. router) request services after started refl
      (IsPicks.received _ _ _
        (IsPicks.waited _ _ (IsPicks.received _ _ _ (IsPicks.waited _ _ (IsPicks.ended _)))))

abbrev server : Server
server = record {
  registry = registry;
  report_state = none;
  limits = some (Tracker.new GoMap.empty);
  model_limits =
      some (record (Tracker.new GoMap.empty) { blocked = GoMap.put GoMap.empty "far/phi" 90 });
  addr = ":8080";
}

-- The cooldown of the model has expired, and the page deletes it.
handle_health-view_example :
    let result = handle_health (λ d. "1m") services server in
    (result.1 ≡ map (provider_view (λ d. "1m") server services server.model_limits) ("far" ∷ []))
    × (holds_back result.0.model_limits 120 "far/phi"
        ≡ holds_back server.model_limits 120 "far/phi")
handle_health-view_example =
    handle_health-view (λ d. "1m") server services 120 "far/phi" (omega arith)
