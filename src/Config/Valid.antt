-- ===== src/Config/Valid.antt =====
-- What `validate` of internal/config/config.go accepts, against a description without loops.
use local_router.Prelude.{
  ◌≡◌, ◌↔◌, refl, ◌⊎◌, String, Bool, true, false, not, Option, none, some, List, [], ◌∷◌, All, any,
  if◌then◌else◌, arith, str_eq,
}
use local_router.Prelude.Int.{pos, ◌≤ℤ◌, ◌<ℤ◌, ltb_ℤ, leb_ℤ, eqb_ℤ}
use local_router.GoMap
use local_router.GoMap.{GoMap, get-put, get-empty}
use local_router.Config.{LimitEntry, ModelConfig, ProviderConfig, Config}
use local_router.Config.Checks.{
  ConfigError, limit_concurrency, first_error, check_ids, check_type, check_priorities,
  check_limits, check_concurrency, check_model_limits, check_provider, check_providers, offers,
  check_default, validate,
}
use local_router.Config.Schema.{
  Distinct, IsTyped, Unseen-empty, check_ids_iff, check_type_iff, first_error_iff,
}

-- The limits of a provider: a request count, a window, and no negative number of slots.
abbrev pub IsLimit : LimitEntry → Type 0
IsLimit e = (pos 0 <ℤ e.requests) × (str_eq e.window "" ≡ false) × (pos 0 ≤ℤ e.concurrent_requests)

abbrev pub IsModel : ModelConfig → Type 0
IsModel m = pos 0 <ℤ m.priority

abbrev pub HasSlots : LimitEntry → Type 0
HasSlots e = pos 0 ≤ℤ e.concurrent_requests

abbrev pub HasSlotLimits : ModelConfig → Type 0
HasSlotLimits m = All HasSlots m.limits

abbrev pub IsProvider : ProviderConfig → Type 0
IsProvider p = IsTyped p × All IsModel p.models × All IsLimit p.limits × All HasSlotLimits p.models

-- One round of a loop that returns an error where a test succeeds.
round_accepted :
    (bad : Bool) (rest : Option ConfigError) (x : ConfigError)
    → ((if bad then some x else rest) ≡ none) ↔ ((bad ≡ false) × (rest ≡ none))
round_accepted bad rest x = (λ h. ground (arith, h), λ h. ground (arith, h))

check_priorities_iff :
    (id : String) (ms : List ModelConfig) → (check_priorities id ms ≡ none) ↔ All IsModel ms
unfolding check_priorities
check_priorities_iff id [] = (λ h. tt, λ h. refl)
check_priorities_iff id (m ∷ ms) =
    let (there, back) = round_accepted (leb_ℤ m.priority (pos 0)) (check_priorities id ms) _ in
    let (split, join) = check_priorities_iff id ms in
    (
      λ h. let (b, r) = there h in (ground (arith, b), split r),
      λ h. back (ground (arith, h.0), join h.1),
    )

check_concurrency_iff :
    (id : String) (es : List LimitEntry) → (check_concurrency id es ≡ none) ↔ All HasSlots es
unfolding check_concurrency
check_concurrency_iff id [] = (λ h. tt, λ h. refl)
check_concurrency_iff id (e ∷ es) =
    let (there, back) =
      round_accepted (ltb_ℤ e.concurrent_requests (pos 0)) (check_concurrency id es) _ in
    let (split, join) = check_concurrency_iff id es in
    (
      λ h. let (b, r) = there h in (ground (arith, b), split r),
      λ h. back (ground (arith, h.0), join h.1),
    )

check_model_limits_iff :
    (id : String) (ms : List ModelConfig) → (check_model_limits id ms ≡ none) ↔ All HasSlotLimits ms
unfolding check_model_limits
check_model_limits_iff id [] = (λ h. tt, λ h. refl)
check_model_limits_iff id (m ∷ ms) =
    let (there, back) =
      first_error_iff (check_concurrency id m.limits) (check_model_limits id ms) in
    let (split, join) = check_model_limits_iff id ms in
    let (one, one') = check_concurrency_iff id m.limits in
    (λ h. let (b, r) = there h in (one b, split r), λ h. back (one' h.0, join h.1))

check_limits_iff :
    (id : String) (es : List LimitEntry) → (check_limits id es ≡ none) ↔ All IsLimit es
unfolding check_limits
check_limits_iff id [] = (λ h. tt, λ h. refl)
check_limits_iff id (e ∷ es) =
    let (t₁, b₁) = round_accepted (leb_ℤ e.requests (pos 0)) _ _ in
    let (t₂, b₂) = round_accepted (str_eq e.window "") _ _ in
    let (t₃, b₃) =
      round_accepted (ltb_ℤ e.concurrent_requests (pos 0)) (check_limits id es)
        (limit_concurrency id) in
    let (split, join) = check_limits_iff id es in
    (
      λ h.
          let (few, h₂) = t₁ h in
          let (window, h₃) = t₂ h₂ in
          let (neg, rest) = t₃ h₃ in
          ((ground (arith, few), window, ground (arith, neg)), split rest),
      λ h. b₁ (ground (arith, h.0.0), b₂ (h.0.1, b₃ (ground (arith, h.0.2), join h.1))),
    )

check_provider_iff : (p : ProviderConfig) → (check_provider p ≡ none) ↔ IsProvider p
unfolding check_provider
check_provider_iff p =
    let models = check_model_limits p.id p.models in
    let limits = first_error (check_limits p.id p.limits) models in
    let priorities = first_error (check_priorities p.id p.models) limits in
    (
      λ h.
          let (t, h₁) = (first_error_iff (check_type p) priorities).0 h in
          let (m, h₂) = (first_error_iff (check_priorities p.id p.models) limits).0 h₁ in
          let (l, s) = (first_error_iff (check_limits p.id p.limits) models).0 h₂ in
          (
            (check_type_iff p).0 t,
            (check_priorities_iff p.id p.models).0 m,
            (check_limits_iff p.id p.limits).0 l,
            (check_model_limits_iff p.id p.models).0 s,
          ),
      λ h. (first_error_iff (check_type p) priorities).1 (
        (check_type_iff p).1 h.0,
        (first_error_iff (check_priorities p.id p.models) limits).1 (
          (check_priorities_iff p.id p.models).1 h.1,
          (first_error_iff (check_limits p.id p.limits) models).1 (
            (check_limits_iff p.id p.limits).1 h.2,
            (check_model_limits_iff p.id p.models).1 h.3,
          ),
        ),
      ),
    )

check_providers_iff : (ps : List ProviderConfig) → (check_providers ps ≡ none) ↔ All IsProvider ps
unfolding check_providers
check_providers_iff [] = (λ h. tt, λ h. refl)
check_providers_iff (p ∷ ps) =
    let (there, back) = first_error_iff (check_provider p) (check_providers ps) in
    let (split, join) = check_providers_iff ps in
    let (one, one') = check_provider_iff p in
    (λ h. let (b, r) = there h in (one b, split r), λ h. back (one' h.0, join h.1))

-- No default model, or one that a provider which is not skipped offers.
abbrev pub HasDefault : String → List ProviderConfig → Type 0
HasDefault model ps = (str_eq model "" ≡ true) ⊎ (any (offers model) ps ≡ true)

check_default_iff :
    (model : String) (ps : List ProviderConfig)
    → (check_default model ps ≡ none) ↔ HasDefault model ps
unfolding check_default
check_default_iff model ps = (λ h. ground (arith, h), λ h. ground (arith, h))

-- `validate` accepts exactly the configurations of version 2 whose providers have pairwise distinct
-- ids and are valid each: a known type, an endpoint where the type needs one, positive priorities,
-- limits with a request count and a window, no negative slots; and whose default model, if there is
-- one after trimming, is offered by a provider that is not skipped.
pub validate_iff :
    (trim : String → String) (cfg : Config)
    → (validate trim cfg ≡ none) ↔ (
        (cfg.version ≡ pos 2)
        × Distinct cfg.providers
        × All IsProvider cfg.providers
        × HasDefault (trim cfg.default_model) cfg.providers)
unfolding validate
validate_iff trim cfg =
    let ps = cfg.providers in
    let def = check_default (trim cfg.default_model) ps in
    let each = first_error (check_providers ps) def in
    let (t, b) =
      round_accepted (not (eqb_ℤ cfg.version (pos 2))) (first_error (check_ids GoMap.empty ps) each)
        _ in
    (
      λ h.
          let (v, h₁) = t h in
          let (i, h₂) = (first_error_iff (check_ids GoMap.empty ps) each).0 h₁ in
          let (p, d) = (first_error_iff (check_providers ps) def).0 h₂ in
          (
            ground (arith, v),
            ((check_ids_iff GoMap.empty ps).0 i).0,
            (check_providers_iff ps).0 p,
            (check_default_iff (trim cfg.default_model) ps).0 d,
          ),
      λ h. b (
        ground (arith, h.0),
        (first_error_iff (check_ids GoMap.empty ps) each).1 (
          (check_ids_iff GoMap.empty ps).1 (h.1, Unseen-empty ps),
          (first_error_iff (check_providers ps) def).1 (
            (check_providers_iff ps).1 h.2,
            (check_default_iff (trim cfg.default_model) ps).1 h.3,
          ),
        ),
      ),
    )
