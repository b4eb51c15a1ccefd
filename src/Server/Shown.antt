-- ===== src/Server/Shown.antt =====
-- What the pages of internal/server/handlers.go show of the program's state.
use local_router.Prelude.{
  ◌≡◌, refl, ap, sym, ◌∙◌, inl, inr, suc, ◌+◌, ◌≤◌, length, String, Bool, true, false, Option, none,
  some, List, [], ◌∷◌, ◌++◌, map, keep, In, In-keep, In-parts, Bool-cases, arith, eq_iff,
  if◌then◌else◌,
}
use local_router.Prelude.Time.{Time, Duration, after}
use local_router.GoMap
use local_router.GoMap.{get-remove}
use local_router.Provider.{Provider}
use local_router.Limits.Tracker.{
  Tracker, is_blocked, model_blocked_until, configs_for, window_states,
}
use local_router.Limits.Cooldown.{is_blocked-is_blocked}
use local_router.Metrics.{snapshot}
use local_router.Registry.{Registry, Entry, global_list, for_provider_id}
use local_router.State.Report.{
  StateManager, healthy, degraded, blocked, unreachable, misconfigured, ProviderStatus,
}
use local_router.State.Report.Status.{ProviderState, get_global_state, get_all_provider_states}
use local_router.Router.{Services, Router}
use local_router.Router.Selection.{is_available, provider_state, select_provider}
use local_router.Router.Selected.{select_provider_finds}
use local_router.Server.Pages.{
  Server, ModelHealthEntry, HealthProviderEntry, entry_key, model_entry_of, model_entries,
  models_of, provider_entry_of, provider_entries, handle_health, ModelEntry, auto_entry,
  listed_entry, append_models, handle_models, ReportData, file_state, file_states, report_data,
}

append_nil {ℓ} : {A : Type ℓ} (xs : List A) → xs ++ [] ≡ xs
append_nil [] = refl
append_nil (x ∷ xs) = ap (λ l. x ∷ l) (append_nil xs)

append_assoc {ℓ} : {A : Type ℓ} (xs ys zs : List A) → (xs ++ ys) ++ zs ≡ xs ++ (ys ++ zs)
append_assoc [] ys zs = refl
append_assoc (x ∷ xs) ys zs = ap (λ l. x ∷ l) (append_assoc xs ys zs)

-- ### /health

-- A tracker that no reader at `now` or later can tell from another one.
record IsSame (now : Time) (t u : Tracker) : Type 0 where
  later_blocked :
      (later : Time) (k : String)
      → now ≤ later
      → (is_blocked later k t).1 ≡ (is_blocked later k u).1
  until :
      (k : String)
      → (is_blocked now k u).1 ≡ true
      → model_blocked_until t k ≡ model_blocked_until u k
  configs : (k : String) → configs_for t k ≡ configs_for u k
  windows : (k : String) → window_states t k ≡ window_states u k

is_blocked-IsSame :
    (now : Time) (k : String) (t u : Tracker) → IsSame now t u → IsSame now (is_blocked now k t).0 u
unfolding is_blocked model_blocked_until configs_for window_states
is_blocked-IsSame now k t u same = record {
  later_blocked =
      λ later j h. is_blocked-is_blocked t k j now later h ∙ same.later_blocked later j h;
  until = λ j h.
      ground
        (arith, h, same.until j h, same.later_blocked now j, get-remove t.blocked k j, eq_iff k j);
  configs = λ j. ground (arith, same.configs j);
  windows = λ j. ground (arith, same.windows j);
}

-- The page as it would be if `IsBlocked` deleted nothing: each entry from one and the same tracker.
abbrev pub model_view : (Duration → String) → Time → String → Tracker → Entry → ModelHealthEntry
model_view show now id t m = model_entry_of show id m (is_blocked now (entry_key id m) t).1 t

abbrev pub models_view :
    (Duration → String) → Time → Registry → Option Tracker → String → List ModelHealthEntry
models_view show now registry none id = []
models_view show now registry (some t) id =
    map (model_view show now id t) (for_provider_id registry id)

model_entry_of-same :
    (show : Duration → String) (now : Time) (id : String) (m : Entry) (held : Bool) (t u : Tracker)
    → IsSame now t u
    → (is_blocked now (entry_key id m) u).1 ≡ held
    → model_entry_of show id m held t ≡ model_entry_of show id m held u
unfolding model_entry_of
model_entry_of-same show now id m true t u same h =
    rw (same.until (entry_key id m) h, same.configs (entry_key id m), same.windows (entry_key id m))
      refl
model_entry_of-same show now id m false t u same h =
    rw (same.configs (entry_key id m), same.windows (entry_key id m)) refl

model_entries-view :
    (show : Duration → String) (now : Time) (id : String) (ms : List Entry) (t u : Tracker)
    → IsSame now t u
    → let result = model_entries show now id ms t in
      IsSame now result.0 u × (result.1 ≡ map (model_view show now id u) ms)
unfolding model_entries
model_entries-view show now id [] t u same = (same, refl)
model_entries-view show now id (m ∷ ms) t u same =
    let key = entry_key id m in
    let t' = (is_blocked now key t).0 in
    let kept = is_blocked-IsSame now key t u same in
    let (after, rest) = model_entries-view show now id ms t' u kept in
    let answer = same.later_blocked now key (omega arith) in
    (
      after,
      rw (rest, answer)
          (ap (λ e. e ∷ map (model_view show now id u) ms)
            (model_entry_of-same show now id m (is_blocked now key u).1 t' u kept refl)),
    )

abbrev IsSameOption : Time → Option Tracker → Option Tracker → Type 0
IsSameOption now none none = Unit
IsSameOption now none (some u) = ⊥
IsSameOption now (some t) none = ⊥
IsSameOption now (some t) (some u) = IsSame now t u

models_of-view :
    (show : Duration → String) (now : Time) (registry : Registry) (id : String)
    (t u : Option Tracker)
    → IsSameOption now t u
    → let result = models_of show now registry id t in
      IsSameOption now result.0 u × (result.1 ≡ models_view show now registry u id)
unfolding models_of
models_of-view show now registry id none none same = (tt, refl)
models_of-view show now registry id none (some u) same = absurd same
models_of-view show now registry id (some t) none same = absurd same
models_of-view show now registry id (some t) (some u) same =
    model_entries-view show now id (for_provider_id registry id) t u same

-- Whether a model is held back.
abbrev pub holds_back : Option Tracker → Time → String → Bool
holds_back none later key = false
holds_back (some t) later key = (is_blocked later key t).1

module _ (show : Duration → String) (server : Server) (s : Services) where
  abbrev pub provider_view : Option Tracker → String → HealthProviderEntry
  provider_view u id =
      provider_entry_of server s (snapshot s.metrics) id
        (models_view show s.now server.registry u id)

  provider_entries-view :
      (ids : List String) (t u : Option Tracker)
      → IsSameOption s.now t u
      → let result = provider_entries show server s (snapshot s.metrics) ids t in
        IsSameOption s.now result.0 u × (result.1 ≡ map (provider_view u) ids)
  unfolding provider_entries
  provider_entries-view [] t u same = (same, refl)
  provider_entries-view (id ∷ ids) t u same =
      let (kept, models) = models_of-view show s.now server.registry id t u same in
      let t' = (models_of show s.now server.registry id t).0 in
      let (after, rest) = provider_entries-view ids t' u kept in (after, rw (rest, models) refl)

  same_option : (t : Option Tracker) → IsSameOption s.now t t
  same_option none = tt
  same_option (some t) = record {
    later_blocked = λ later k h. refl;
    until = λ k h. refl;
    configs = λ k. refl;
    windows = λ k. refl;
  }

  same-holds_back :
      (t u : Option Tracker) (later : Time) (key : String)
      → IsSameOption s.now t u
      → s.now ≤ later
      → holds_back t later key ≡ holds_back u later key
  same-holds_back none none later key same h = refl
  same-holds_back none (some u) later key same h = absurd same
  same-holds_back (some t) none later key same h = absurd same
  same-holds_back (some t) (some u) later key same h = same.later_blocked later key h

-- The health page does not depend on what it deletes on the way: although `IsBlocked` removes
-- expired cooldowns while the page is built, it shows for each provider of the registry, in the
-- registry's order, what the tracker said before; and afterwards no model is held back, or let go,
-- that would not have been without the visit.
pub handle_health-view :
    (show : Duration → String) (server : Server) (s : Services) (later : Time) (key : String)
    → s.now ≤ later
    → let result = handle_health show s server in
      (result.1
        ≡ map (provider_view show server s server.model_limits) server.registry.provider_order)
      × (holds_back result.0.model_limits later key ≡ holds_back server.model_limits later key)
unfolding handle_health
handle_health-view show server s later key h =
    let start = server.model_limits in
    let ids = server.registry.provider_order in
    let (after, view) =
      provider_entries-view show server s ids start start (same_option show server s start) in
    let t = (provider_entries show server s (snapshot s.metrics) ids start).0 in
    (view, same-holds_back show server s t start later key after h)

-- ### /models

append_models-keep :
    (s : Services) (es : List Entry) (shown : List ModelEntry)
    → append_models s es shown
      ≡ shown ++ map listed_entry (keep (λ e. is_available (provider_state s e.provider_id)) es)
unfolding append_models keep
append_models-keep s [] shown = sym (append_nil shown)
append_models-keep s (e ∷ es) shown =
    elim (Bool-cases (is_available (provider_state s e.provider_id))) [
      | inl yes_p ↦
          rw yes_p (append_models-keep s es (shown ++ listed_entry e ∷ []) ∙ append_assoc shown _ _)
      | inr no_p ↦ rw no_p (append_models-keep s es shown)
    ]

abbrev pub listed_entries : Services → Registry → List Entry
listed_entries s registry =
    keep (λ x. is_available (provider_state s x.provider_id)) (global_list registry)

-- The page of the models lists "auto" and then, in the registry's order, the entries whose providers
-- are available. What it lists is served: where no limits on models are configured, a request
-- that may go to a listed entry, with a registered provider that has no request limit, is given a
-- provider.
pub handle_models-served :
    (server : Server) (r : Router) (s : Services) (p : Provider Services) (e : Entry)
    → In e (listed_entries s server.registry)
    → GoMap.get r.providers e.provider_id ≡ some p
    → GoMap.get s.limits.configs e.provider_id ≡ none
    → s.model_limits ≡ none
    → (handle_models s server ≡ auto_entry ∷ map listed_entry (listed_entries s server.registry))
      × ((found : Provider Services × Entry) × ((select_provider r
              (global_list server.registry)
              s).1
            ≡ some found))
unfolding handle_models
handle_models-served server r s p e listed registered free model_free =
    let (present, ready) =
      In-keep (λ x. is_available (provider_state s x.provider_id)) e (global_list server.registry)
        listed in
    (
      append_models-keep s (global_list server.registry) (auto_entry ∷ []),
      let (front, behind, whole) = In-parts e (global_list server.registry) present in
          let (found, selected, near) = select_provider_finds r front behind s p e (record {
            serving = record { registered = registered; is_ready = ready };
            free = free;
            model_free = model_free;
          }) in
          (found, rw whole selected),
    )

-- ### /report

abbrev pub is_healthy : ProviderStatus → Bool
is_healthy healthy = true
is_healthy degraded = false
is_healthy blocked = false
is_healthy unreachable = false
is_healthy misconfigured = false

abbrev pub is_held_back : ProviderStatus → Bool
is_held_back healthy = false
is_held_back degraded = true
is_held_back blocked = true
is_held_back unreachable = false
is_held_back misconfigured = false

abbrev pub is_out : ProviderStatus → Bool
is_out healthy = false
is_out degraded = false
is_out blocked = false
is_out unreachable = true
is_out misconfigured = true

abbrev Groups : List ProviderState → ReportData → ReportData → Type 0
Groups ps d d' =
    (d'.healthy_providers ≡ d.healthy_providers ++ keep (λ p. is_healthy p.status) ps)
    × (d'.degraded_blocked ≡ d.degraded_blocked ++ keep (λ p. is_held_back p.status) ps)
    × (d'.unreachable_misconfigured ≡ d.unreachable_misconfigured ++ keep (λ p. is_out p.status) ps)
    × (d'.all_providers ≡ d.all_providers)
    × (d'.global ≡ d.global)

module _ (p : ProviderState) (ps : List ProviderState) (d : ReportData)
    (later : (d' : ReportData) → Groups ps d' (file_states ps d')) where
  abbrev also : Bool → (ProviderState → Bool) → List ProviderState
  also matches test = if matches then p ∷ keep test ps else keep test ps

  file_one :
      (st : ProviderStatus)
      → let d' = file_states ps (file_state p d st) in
        (d'.healthy_providers
          ≡ d.healthy_providers ++ also (is_healthy st) (λ q. is_healthy q.status))
        × (d'.degraded_blocked
            ≡ d.degraded_blocked ++ also (is_held_back st) (λ q. is_held_back q.status))
        × (d'.unreachable_misconfigured
            ≡ d.unreachable_misconfigured ++ also (is_out st) (λ q. is_out q.status))
        × (d'.all_providers ≡ d.all_providers)
        × (d'.global ≡ d.global)
  unfolding file_state file_states keep
  file_one healthy =
      let (h, b, o, a, g) = later (file_state p d healthy) in
      (h ∙ append_assoc d.healthy_providers (p ∷ []) _, b, o, a, g)
  file_one degraded =
      let (h, b, o, a, g) = later (file_state p d degraded) in
      (h, b ∙ append_assoc d.degraded_blocked (p ∷ []) _, o, a, g)
  file_one blocked =
      let (h, b, o, a, g) = later (file_state p d blocked) in
      (h, b ∙ append_assoc d.degraded_blocked (p ∷ []) _, o, a, g)
  file_one unreachable =
      let (h, b, o, a, g) = later (file_state p d unreachable) in
      (h, b, o ∙ append_assoc d.unreachable_misconfigured (p ∷ []) _, a, g)
  file_one misconfigured =
      let (h, b, o, a, g) = later (file_state p d misconfigured) in
      (h, b, o ∙ append_assoc d.unreachable_misconfigured (p ∷ []) _, a, g)

file_states-Groups : (ps : List ProviderState) (d : ReportData) → Groups ps d (file_states ps d)
unfolding file_states keep
file_states-Groups [] d = (
  sym (append_nil d.healthy_providers),
  sym (append_nil d.degraded_blocked),
  sym (append_nil d.unreachable_misconfigured),
  refl,
  refl,
)
file_states-Groups (p ∷ ps) d = file_one p ps d (file_states-Groups ps) p.status

three_groups :
    (ps : List ProviderState)
    → length (keep (λ p. is_healthy p.status) ps)
        + length (keep (λ p. is_held_back p.status) ps)
        + length (keep (λ p. is_out p.status) ps)
      ≡ length ps
unfolding keep
three_groups [] = refl
three_groups (p ∷ ps) = count p.status refl (three_groups ps)
  where
    count :
        (st : ProviderStatus)
        → p.status ≡ st
        → length (keep (λ p. is_healthy p.status) ps)
            + length (keep (λ p. is_held_back p.status) ps)
            + length (keep (λ p. is_out p.status) ps)
          ≡ length ps
        → length (keep (λ p. is_healthy p.status) (p ∷ ps))
            + length (keep (λ p. is_held_back p.status) (p ∷ ps))
            + length (keep (λ p. is_out p.status) (p ∷ ps))
          ≡ suc (length ps)
    count healthy e h = rw e (omega (arith, h))
    count degraded e h = rw e (omega (arith, h))
    count blocked e h = rw e (omega (arith, h))
    count unreachable e h = rw e (omega (arith, h))
    count misconfigured e h = rw e (omega (arith, h))

-- The report page shows every provider in exactly one of its three groups, in the order of the list of
-- all: the healthy ones, the degraded or blocked ones, and the unreachable or misconfigured ones.
pub report_data-groups :
    (now : Time) (sm : StateManager)
    → let d = report_data now sm in
      let all = get_all_provider_states now sm in
      (d.healthy_providers ≡ keep (λ p. is_healthy p.status) all)
      × (d.degraded_blocked ≡ keep (λ p. is_held_back p.status) all)
      × (d.unreachable_misconfigured ≡ keep (λ p. is_out p.status) all)
      × (length d.healthy_providers + length d.degraded_blocked + length d.unreachable_misconfigured
          ≡ length all)
unfolding report_data
report_data-groups now sm =
    let all = get_all_provider_states now sm in
    let (h, b, o, a, g) = file_states-Groups all (record {
      global = get_global_state now sm;
      healthy_providers = [];
      degraded_blocked = [];
      unreachable_misconfigured = [];
      all_providers = all;
    }) in
    (h, b, o, rw (h, b, o) (three_groups all))
