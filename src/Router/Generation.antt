-- ===== src/Router/Generation.antt =====
-- What the router does between two calls of a provider (internal/router/router.go) is within one
-- generation: only a reload changes it.
use local_router.Prelude.{◌≡◌, refl, ◌∙◌, inl, inr, List, [], ◌∷◌, arith, Option-cases}
use local_router.Registry.{Entry}
use local_router.Router.{Services, Router}
use local_router.Router.Selection.{select_provider, try_entry, check_model, check_provider}
use local_router.Router.Slots.{acquire_concurrency, acquire_model}

try_entry-generation :
    (r : Router) (e : Entry) (s : Services) → (try_entry r e s).0.generation ≡ s.generation
unfolding try_entry check_model check_provider
try_entry-generation r e s = ground arith

pub select_provider-generation :
    (r : Router) (entries : List Entry) (s : Services)
    → (select_provider r entries s).0.generation ≡ s.generation
unfolding select_provider
select_provider-generation r [] s = refl
select_provider-generation r (e ∷ es) s = elim (Option-cases (try_entry r e s).1) [
  | inl skipped ↦
      rw (skipped, select_provider)
        (select_provider-generation r es (try_entry r e s).0 ∙ try_entry-generation r e s)
  | inr (p, found) ↦ rw (found, select_provider) (try_entry-generation r e s)
]

pub acquire_concurrency-generation :
    (e : Entry) (s : Services) → (acquire_concurrency e s).0.generation ≡ s.generation
unfolding acquire_concurrency acquire_model
acquire_concurrency-generation e s = elim (Option-cases s.model_limits) [
  | inl off ↦ ground (arith, off)
  | inr (t, on) ↦ ground (arith, on)
]
