-- ===== src/Router/Selected.antt =====
-- `selectProvider` of internal/router/router.go: the entry it returns, and when it finds one.
use local_router.Prelude.{
  ◌≡◌, refl, ◌⊎◌, inl, inr, ap, subst, ◌∙◌, String, true, false, none, some, List, [], ◌∷◌, ◌++◌,
  In, str_eq, eq_iff, arith, Option-cases, Bool-cases,
}
use local_router.Prelude.Time.{Time}
use local_router.GoMap
use local_router.GoMap.{get-put}
use local_router.Provider.{Provider}
use local_router.State.Manager.{get_state, set_exhausted, exhausted_until, blocked_until}
use local_router.Limits.Tracker.{Tracker, record_request, finish_record, start_hook}
use local_router.Registry.{Entry}
use local_router.Router.{Services, Router}
use local_router.Router.Selection.{
  is_available, provider_state, check_model, check_provider, try_entry, select_provider,
}

-- The provider of the entry is registered and the state manager says that it is available.
pub record IsServing (r : Router) (s : Services) (p : Provider Services) (e : Entry) : Type 0 where
  pub registered : GoMap.get r.providers e.provider_id ≡ some p
  pub is_ready : is_available (provider_state s e.provider_id) ≡ true

-- The checks of the limits leave the states alone, unless they turn the provider away.
check_model_state :
    (e : Entry) (s : Services) (id : String)
    → provider_state (check_model e s).0 id ≡ provider_state s id
unfolding check_model
check_model_state e s id = ground arith

check_provider_state :
    (e : Entry) (s : Services) (id : String)
    → (check_provider e s).1 ≡ true
    → provider_state (check_provider e s).0 id ≡ provider_state s id
unfolding check_provider
check_provider_state e s id h = ground arith

try_entry-IsServing :
    (r : Router) (e : Entry) (s : Services) (p : Provider Services)
    → (try_entry r e s).1 ≡ some p
    → IsServing r (try_entry r e s).0 p e
unfolding try_entry
try_entry-IsServing r e s p h = ground (
  arith,
  check_model_state e s e.provider_id,
  check_provider_state e (check_model e s).0 e.provider_id,
)

-- An entry that is selected is one of those in question, its provider is registered under the
-- entry's id, and it is neither blocked, exhausted nor unhealthy when the selection ends.
pub select_provider-IsServing :
    (r : Router) (entries : List Entry) (s : Services) (p : Provider Services) (e : Entry)
    → (select_provider r entries s).1 ≡ some (p, e)
    → In e entries × IsServing r (select_provider r entries s).0 p e
unfolding select_provider
select_provider-IsServing r [] s p e h = ground arith
select_provider-IsServing r (x ∷ es) s p e h = elim (Option-cases (try_entry r x s).1) [
  | inl skipped ↦
      let (m, serving) =
        select_provider-IsServing r es (try_entry r x s).0 p e
          (rw (skipped, select_provider) at h) in
      rw (skipped, select_provider) (inr m, serving)
  | inr (q, found) ↦
      let same : some (q, x) ≡ some (p, e) = rw (found, select_provider) at h in
      let e_p : q ≡ p = cc same in
      let e_e : x ≡ e = cc same in
      rw (found, select_provider)
        (
          inl e_e,
          subst (λ y. IsServing r (try_entry r x s).0 p y) e_e
              (try_entry-IsServing r x s p (found ∙ ap some e_p)),
        )
]

-- A provider for which no request limit is configured, whose checks of a model cannot fail either.
pub record IsUnlimited (r : Router) (s : Services) (p : Provider Services) (e : Entry)
    : Type 0 where
  pub serving : IsServing r s p e
  pub free : GoMap.get s.limits.configs e.provider_id ≡ none
  pub model_free : s.model_limits ≡ none

try_entry_hit :
    (r : Router) (s : Services) (p : Provider Services) (e : Entry)
    → IsUnlimited r s p e
    → (try_entry r e s).1 ≡ some p
unfolding try_entry check_model check_provider record_request
try_entry_hit r s p e u =
    ground (arith, u.serving, u.serving.registered, u.serving.is_ready, u.free, u.model_free)

record_request-configs :
    (now : Time) (id : String) (t : Tracker) → (record_request now id t).tracker.configs ≡ t.configs
unfolding record_request finish_record start_hook
record_request-configs now id t = ground arith

-- Exhausting one provider leaves the state of another one alone.
get_state-other :
    (s : Services) (id other : String) (reset_at : Time)
    → str_eq id other ≡ false
    → get_state s.now s.health (set_exhausted id reset_at s.state) other ≡ provider_state s other
unfolding get_state set_exhausted exhausted_until blocked_until
get_state-other s id other reset_at h =
    ground (arith, h, get-put s.state.exhausted id other reset_at)

-- A request for an unlimited provider exhausts nothing, so an exhausted one is another one.
exhausted_differs :
    (s : Services) (id other : String)
    → GoMap.get s.limits.configs other ≡ none
    → (record_request s.now id s.limits).exhausted ≡ true
    → str_eq id other ≡ false
unfolding record_request
exhausted_differs s id other free h = ground (arith, free, h, eq_iff id other)

check_provider-states :
    (s : Services) (e : Entry) (id : String)
    → GoMap.get s.limits.configs id ≡ none
    → provider_state (check_provider e s).0 id ≡ provider_state s id
unfolding check_provider
check_provider-states s e id free =
    elim (Bool-cases (record_request s.now e.provider_id s.limits).exhausted) [
      | inl out ↦
          rw (out, check_provider)
            (get_state-other s e.provider_id id
              (record_request s.now e.provider_id s.limits).reset_at
              (exhausted_differs s e.provider_id id free out))
      | inr in_limits ↦ rw (in_limits, check_provider) refl
    ]

check_provider-configs :
    (s : Services) (e : Entry) → (check_provider e s).0.limits.configs ≡ s.limits.configs
unfolding check_provider
check_provider-configs s e = ground (arith, record_request-configs s.now e.provider_id s.limits)

check_provider-model_limits :
    (s : Services) (e : Entry) → (check_provider e s).0.model_limits ≡ s.model_limits
unfolding check_provider
check_provider-model_limits s e = ground arith

check_provider-IsUnlimited :
    (r : Router) (s : Services) (p : Provider Services) (e x : Entry)
    → IsUnlimited r s p e
    → IsUnlimited r (check_provider x s).0 p e
check_provider-IsUnlimited r s p e x u = record {
  serving = record {
    registered = u.serving.registered;
    is_ready =
        ap is_available (check_provider-states s x e.provider_id u.free) ∙ u.serving.is_ready;
  };
  free = ap (λ m. GoMap.get m e.provider_id) (check_provider-configs s x) ∙ u.free;
  model_free = check_provider-model_limits s x ∙ u.model_free;
}

-- A round leaves the services alone or with what `check_provider` makes of them.
try_entry-cases :
    (r : Router) (s : Services) (x : Entry)
    → s.model_limits ≡ none
    → ((try_entry r x s).0 ≡ s) ⊎ ((try_entry r x s).0 ≡ (check_provider x s).0)
unfolding try_entry check_model
try_entry-cases r s x off = ground (arith, off)

try_entry-IsUnlimited :
    (r : Router) (s : Services) (p : Provider Services) (e x : Entry)
    → IsUnlimited r s p e
    → IsUnlimited r (try_entry r x s).0 p e
try_entry-IsUnlimited r s p e x u = elim (try_entry-cases r s x u.model_free) [
  | inl same ↦ rw same u
  | inr checked ↦ rw checked (check_provider-IsUnlimited r s p e x u)
]

pub select_provider_finds :
    (r : Router) (front behind : List Entry) (s : Services) (p : Provider Services) (e : Entry)
    → IsUnlimited r s p e
    → (found : Provider Services × Entry) × ((select_provider r (front ++ e ∷ behind) s).1
        ≡ some found)
      × In found.1 (front ++ e ∷ [])
unfolding select_provider
select_provider_finds r [] behind s p e u =
    ((p, e), rw (try_entry_hit r s p e u, select_provider) refl, inl refl)
select_provider_finds r (x ∷ front) behind s p e u = elim (Option-cases (try_entry r x s).1) [
  | inr (q, found) ↦ ((q, x), rw (found, select_provider) refl, inl refl)
  | inl skipped ↦
      let (f, eq, m) =
        select_provider_finds r front behind (try_entry r x s).0 p e
          (try_entry-IsUnlimited r s p e x u) in
      (f, rw (skipped, select_provider) eq, inr m)
]
