-- ===== src/Router/Loop.antt =====
-- The loop that `Route` and `Stream` of internal/router/router.go share: select a provider, take its
-- slots, call it, and go on with fewer entries where that fails. What they do with the provider is
-- the parameter `attempt`; the router's fields are read anew in each round. One unit of fuel stands for a round.
use local_router.Prelude.{ℕ, zero, suc, Option, none, some, List, [], ◌∷◌, if◌then◌else◌, length}
use local_router.Provider.{Provider}
use local_router.Registry.{Entry}
use local_router.Router.{
  Services, Routers, all_providers_failed, model_not_found, Round, retry, done, give_up, Reply,
  answer, refuse, filter_provider, count_no_capacity,
}
use local_router.Router.Selection.{select_provider}
use local_router.Router.Slots.{acquire_concurrency}

-- What is done with a selected provider and its slots, given the entries in question.
abbrev pub Attempt : Type 0 → Type 0
Attempt A = Provider Services → Entry → List Entry → Services → Round A

module _ {A : Type 0} (attempt : Attempt A) (rs : Routers) where
  unfoldable pub attempt_selected :
      List Entry → Services → Option (Provider Services × Entry) → Round A
  attempt_selected entries s none = give_up all_providers_failed (count_no_capacity s)
  attempt_selected entries s (some (p, e)) =
      let (s', got) = acquire_concurrency e s in
      if got then attempt p e entries s' else retry (filter_provider entries e.provider_id) s'

  unfoldable pub round : List Entry → Services → Round A
  unfolding attempt_selected
  round entries s =
      let (s', found) = select_provider (rs s.generation) entries s in
      attempt_selected entries s' found

  -- What follows a round, where `go` stands for the rounds after it.
  unfoldable pub next :
      (List Entry → Services → Option (Reply A × Services)) → Round A → Option (Reply A × Services)
  next go (retry entries s) = go entries s
  next go (done a s) = some (answer a, s)
  next go (give_up x s) = some (refuse x, s)

  unfoldable pub loop : ℕ → List Entry → Services → Option (Reply A × Services)
  unfolding round next
  loop zero entries s = none
  loop (suc fuel) [] s = some (refuse all_providers_failed, count_no_capacity s)
  loop (suc fuel) (e ∷ es) s = next (loop fuel) (round (e ∷ es) s)

  -- From the resolved entries; a round for each of them, and one more to find that none is left.
  unfoldable pub run : List Entry → Services → Option (Reply A × Services)
  unfolding loop
  run [] s = some (refuse model_not_found, count_no_capacity s)
  run (e ∷ es) s = loop (suc (length (e ∷ es))) (e ∷ es) s
