-- ===== src/Config/Priorities.antt =====
-- `fillPriorities` of internal/config/config.go.
use local_router.Prelude.{
  ℕ, suc, ◌+◌, ◌-◌, ◌^◌, ◌≡◌, refl, ◌⊎◌, inl, inr, List, [], ◌∷◌, length, All, Bool-cases,
  if◌then◌else◌, arith,
}
use local_router.Prelude.Int.{ℤ, pos, negsuc, eqb_ℤ, ◌+ℤ◌, ◌≤ℤ◌, ◌<ℤ◌, ltb_ℤ, leb_ℤ, +ℤ_parts}
use local_router.Config.{ModelConfig, ProviderConfig}

-- The first pass.
unfoldable pub max_of_models : ℤ → List ModelConfig → ℤ
max_of_models top [] = top
max_of_models top (m ∷ ms) = max_of_models (if ltb_ℤ top m.priority then m.priority else top) ms

unfoldable pub max_priority : ℤ → List ProviderConfig → ℤ
unfolding max_of_models
max_priority top [] = top
max_priority top (p ∷ ps) = max_priority (max_of_models top p.models) ps

-- `counter + 1`, where Go's `int` has 64 bits: behind the greatest one comes the least one.
abbrev pub max_int : ℤ
max_int = pos (2 ^ 63 - 1)

unfoldable pub next_int : ℤ → ℤ
next_int n = if eqb_ℤ n max_int then negsuc (2 ^ 63 - 1) else n +ℤ pos 1

-- The second pass over one provider's models: the models, and the counter after them.
unfoldable pub fill_models : ℤ → List ModelConfig → List ModelConfig × ℤ
unfolding next_int
fill_models counter [] = ([], counter)
fill_models counter (m ∷ ms) =
    let (rest, last) = fill_models (next_int counter) ms in
    ((if leb_ℤ m.priority (pos 0) then record m { priority = counter } else m) ∷ rest, last)

unfoldable pub fill_providers : ℤ → List ProviderConfig → List ProviderConfig
unfolding fill_models
fill_providers counter [] = []
fill_providers counter (p ∷ ps) =
    let (models, next) = fill_models counter p.models in
    record p { models = models } ∷ fill_providers next ps

unfoldable pub fill_priorities : List ProviderConfig → List ProviderConfig
unfolding max_priority fill_providers next_int
fill_priorities ps = fill_providers (next_int (max_priority (pos 0) ps)) ps

-- What becomes of a model when `top` is the highest priority of the file: a valid priority stays, an
-- invalid one is replaced by one above `top`.
abbrev pub IsFilled : ℤ → ModelConfig → ModelConfig → Type 0
IsFilled top old new =
    ((pos 0 <ℤ old.priority) × (new ≡ old))
    ⊎ ((old.priority ≤ℤ pos 0) × (new.id ≡ old.id) × (top <ℤ new.priority))

abbrev pub AreFilled : ℤ → List ModelConfig → List ModelConfig → Type 0
AreFilled top [] new = new ≡ []
AreFilled top (m ∷ ms) [] = ⊥
AreFilled top (m ∷ ms) (n ∷ ns) = IsFilled top m n × AreFilled top ms ns

abbrev pub ProvidersFilled : ℤ → List ProviderConfig → List ProviderConfig → Type 0
ProvidersFilled top [] new = new ≡ []
ProvidersFilled top (p ∷ ps) [] = ⊥
ProvidersFilled top (p ∷ ps) (q ∷ qs) =
    (q.id ≡ p.id) × AreFilled top p.models q.models × ProvidersFilled top ps qs

fill_one-IsFilled :
    (top counter : ℤ) (m : ModelConfig)
    → top <ℤ counter
    → IsFilled top m (if leb_ℤ m.priority (pos 0) then record m { priority = counter } else m)
fill_one-IsFilled top counter m h = elim (Bool-cases (leb_ℤ m.priority (pos 0))) [
  | inl invalid ↦ rw invalid (inr (ground arith, refl, h))
  | inr valid ↦ rw valid (inl (ground arith, refl))
]

-- The number of models, for which the counter must suffice.
abbrev pub count_models : List ProviderConfig → ℕ
count_models [] = 0
count_models (p ∷ ps) = length p.models + count_models ps

next_int-above :
    (top counter : ℤ) (n : ℕ)
    → top ≤ℤ counter
    → counter +ℤ pos (suc n) ≤ℤ max_int
    → (top <ℤ next_int counter) × (next_int counter +ℤ pos n ≤ℤ max_int)
unfolding next_int
next_int-above top counter n h room = ground (
  arith,
  h,
  room,
  +ℤ_parts counter (pos (suc n)),
  +ℤ_parts counter (pos 1),
  +ℤ_parts (counter +ℤ pos 1) (pos n),
)

-- The counter stays above `top` while there is room for the models that are left and `n` more.
fill_models-AreFilled :
    (top counter : ℤ) (n : ℕ) (ms : List ModelConfig)
    → top <ℤ counter
    → counter +ℤ pos (length ms + n) ≤ℤ max_int
    → let (filled, last) = fill_models counter ms in
      AreFilled top ms filled × (top <ℤ last) × (last +ℤ pos n ≤ℤ max_int)
unfolding fill_models
fill_models-AreFilled top counter n [] h room =
    (refl, h, omega (arith, room, +ℤ_parts counter (pos n), +ℤ_parts counter (pos (0 + n))))
fill_models-AreFilled top counter n (m ∷ ms) h room =
    let (above, left) = next_int-above top counter (length ms + n) (omega (arith, h)) (
      omega (
        arith,
        room,
        +ℤ_parts counter (pos (suc (length ms) + n)),
        +ℤ_parts counter (pos (suc (length ms + n))),
      )) in
    let (rest, higher, space) = fill_models-AreFilled top (next_int counter) n ms above left in
    ((fill_one-IsFilled top counter m h, rest), higher, space)

fill_providers-Filled :
    (top counter : ℤ) (ps : List ProviderConfig)
    → top <ℤ counter
    → counter +ℤ pos (count_models ps) ≤ℤ max_int
    → ProvidersFilled top ps (fill_providers counter ps)
unfolding fill_providers
fill_providers-Filled top counter [] h room = refl
fill_providers-Filled top counter (p ∷ ps) h room =
    let (models, above, left) =
      fill_models-AreFilled top counter (count_models ps) p.models h room in
    (refl, models, fill_providers-Filled top (fill_models counter p.models).1 ps above left)

-- The highest priority, found in one list from a start value.
max_of_models_ge :
    (top : ℤ) (ms : List ModelConfig)
    → (top ≤ℤ max_of_models top ms) × All (λ m. m.priority ≤ℤ max_of_models top ms) ms
unfolding max_of_models
max_of_models_ge top [] = (omega arith, tt)
max_of_models_ge top (m ∷ ms) =
    let top' = if ltb_ℤ top m.priority then m.priority else top in
    let (start, rest) = max_of_models_ge top' ms in
    (ground (arith, start), (ground (arith, start), rest))

max_priority_ge : (top : ℤ) (ps : List ProviderConfig) → top ≤ℤ max_priority top ps
unfolding max_priority
max_priority_ge top [] = omega arith
max_priority_ge top (p ∷ ps) =
    omega
      (arith, (max_of_models_ge top p.models).0, max_priority_ge (max_of_models top p.models) ps)

-- Every model of every provider has a priority of at most `top`.
abbrev pub AllBelow : ℤ → List ProviderConfig → Type 0
AllBelow top ps = All (λ p. All (λ m. m.priority ≤ℤ top) p.models) ps

below_trans :
    (a b : ℤ) (ms : List ModelConfig)
    → a ≤ℤ b
    → All (λ m. m.priority ≤ℤ a) ms
    → All (λ m. m.priority ≤ℤ b) ms
below_trans a b [] h below = tt
below_trans a b (m ∷ ms) h (here, rest) = (omega (arith, h, here), below_trans a b ms h rest)

max_priority-AllBelow : (top : ℤ) (ps : List ProviderConfig) → AllBelow (max_priority top ps) ps
unfolding max_priority
max_priority-AllBelow top [] = tt
max_priority-AllBelow top (p ∷ ps) =
    let top' = max_of_models top p.models in
    (
      below_trans top' (max_priority top' ps) p.models (max_priority_ge top' ps)
          (max_of_models_ge top p.models).1,
      max_priority-AllBelow top' ps,
    )

-- Where the highest priority of the file leaves room for all models below the greatest `int`: after
-- `fillPriorities` every model has the positive priority that it had before, or, where that was not
-- positive, one above every priority of the file and above zero. The providers and the models keep
-- their ids and their order.
pub fill_priorities-Filled :
    (ps : List ProviderConfig)
    → max_priority (pos 0) ps +ℤ pos (suc (count_models ps)) ≤ℤ max_int
    → let top = max_priority (pos 0) ps in
      (pos 0 ≤ℤ top) × AllBelow top ps × ProvidersFilled top ps (fill_priorities ps)
unfolding fill_priorities next_int
fill_priorities-Filled ps room =
    let top = max_priority (pos 0) ps in
    let n = count_models ps in
    let (above, left) : (top <ℤ next_int top) × (next_int top +ℤ pos n ≤ℤ max_int) =
      next_int-above top top n (omega arith) room in
    (
      max_priority_ge (pos 0) ps,
      max_priority-AllBelow (pos 0) ps,
      fill_providers-Filled top (next_int top) ps above left,
    )
