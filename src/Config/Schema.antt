-- ===== src/Config/Schema.antt =====
-- Ids and types of the providers: what `validateNewSchema` of internal/config/config.go accepts, against
-- a description without loops and sets.
use local_router.Prelude.{
  ◌≡◌, ◌↔◌, refl, String, Bool, true, false, ◌&&◌, Option, none, some, List, [], ◌∷◌, All,
  if◌then◌else◌, arith, str_eq, or_zero,
}
use local_router.GoMap
use local_router.GoMap.{GoMap, get-put, get-empty}
use local_router.Config.{ProviderConfig, Config}
use local_router.Config.Checks.{
  ConfigError, valid_type, needs_endpoint, first_error, check_ids, check_type, check_new_schema,
  validate_new_schema,
}

-- Every provider has an id, and no two have the same.
abbrev pub Distinct : List ProviderConfig → Type 0
Distinct [] = Unit
Distinct (p ∷ ps) = (str_eq p.id "" ≡ false) × All (λ q. str_eq p.id q.id ≡ false) ps × Distinct ps

abbrev pub Unseen : GoMap Bool → List ProviderConfig → Type 0
Unseen ids ps = All (λ q. or_zero false (GoMap.get ids q.id) ≡ false) ps

Unseen-put :
    (ids : GoMap Bool) (id : String) (ps : List ProviderConfig)
    → Unseen (GoMap.put ids id true) ps
    → All (λ q. str_eq id q.id ≡ false) ps × Unseen ids ps
Unseen-put ids id [] h = (tt, tt)
Unseen-put ids id (q ∷ qs) (here, later) =
    let (differ, unseen) = Unseen-put ids id qs later in
    (
      (ground (arith, here, get-put ids id q.id true), differ),
      (ground (arith, here, get-put ids id q.id true), unseen),
    )

put-Unseen :
    (ids : GoMap Bool) (id : String) (ps : List ProviderConfig)
    → All (λ q. str_eq id q.id ≡ false) ps
    → Unseen ids ps
    → Unseen (GoMap.put ids id true) ps
put-Unseen ids id [] differ unseen = tt
put-Unseen ids id (q ∷ qs) (d, differ) (u, unseen) =
    (ground (arith, d, u, get-put ids id q.id true), put-Unseen ids id qs differ unseen)

pub Unseen-empty : (ps : List ProviderConfig) → Unseen GoMap.empty ps
Unseen-empty [] = tt
Unseen-empty (p ∷ ps) = (ground (arith, get-empty {V = Bool} p.id), Unseen-empty ps)

-- One round of the check of the ids.
id_accepted :
    (seen : Bool) (id : String) (rest : Option ConfigError) (x y : ConfigError)
    → ((if str_eq id "" then some x else if seen then some y else rest) ≡ none)
      ↔ ((str_eq id "" ≡ false) × (seen ≡ false) × (rest ≡ none))
id_accepted seen id rest x y = (λ h. ground (arith, h), λ h. ground (arith, h))

pub check_ids_iff :
    (ids : GoMap Bool) (ps : List ProviderConfig)
    → (check_ids ids ps ≡ none) ↔ (Distinct ps × Unseen ids ps)
unfolding check_ids
check_ids_iff ids [] = (λ h. (tt, tt), λ h. refl)
check_ids_iff ids (p ∷ ps) =
    let (there, back) =
      id_accepted (or_zero false (GoMap.get ids p.id)) p.id (check_ids (GoMap.put ids p.id true) ps)
        _ _ in
    let (split, join) = check_ids_iff (GoMap.put ids p.id true) ps in
    (
      λ h.
          let (named, new, rest) = there h in
          let (distinct, unseen) = split rest in
          let (differ, older) = Unseen-put ids p.id ps unseen in
          ((named, differ, distinct), (new, older)),
      λ h. back (h.0.0, h.1.0, join (h.0.2, put-Unseen ids p.id ps h.0.1 h.1.1)),
    )

-- A known type, and an endpoint where the type needs one.
abbrev pub IsTyped : ProviderConfig → Type 0
IsTyped p = (valid_type p.type ≡ true) × ((needs_endpoint p.type && str_eq p.endpoint "") ≡ false)

pub check_type_iff : (p : ProviderConfig) → (check_type p ≡ none) ↔ IsTyped p
unfolding check_type
check_type_iff p = (λ h. ground (arith, h), λ h. ground (arith, h))

pub first_error_iff :
    (a b : Option ConfigError) → (first_error a b ≡ none) ↔ ((a ≡ none) × (b ≡ none))
first_error_iff none b = (λ h. (refl, h), λ h. h.1)
first_error_iff (some x) b = (λ h. absurd (ground (arith, h)), λ h. absurd (ground (arith, h.0)))

check_new_schema_iff :
    (ids : GoMap Bool) (ps : List ProviderConfig)
    → (check_new_schema ids ps ≡ none) ↔ (Distinct ps × All IsTyped ps × Unseen ids ps)
unfolding check_new_schema
check_new_schema_iff ids [] = (λ h. (tt, tt, tt), λ h. refl)
check_new_schema_iff ids (p ∷ ps) =
    let later = check_new_schema (GoMap.put ids p.id true) ps in
    let (there, back) =
      id_accepted (or_zero false (GoMap.get ids p.id)) p.id (first_error (check_type p) later) _
        _ in
    let (split, join) = check_new_schema_iff (GoMap.put ids p.id true) ps in
    (
      λ h.
          let (named, new, rest) = there h in
          let (typed, rest') = (first_error_iff (check_type p) later).0 rest in
          let (distinct, types, unseen) = split rest' in
          let (differ, older) = Unseen-put ids p.id ps unseen in
          ((named, differ, distinct), ((check_type_iff p).0 typed, types), (new, older)),
      λ h. back (
        h.0.0,
        h.2.0,
        (first_error_iff (check_type p) later).1
            ((check_type_iff p).1 h.1.0, join (h.0.2, h.1.1, put-Unseen ids p.id ps h.0.1 h.2.1)),
      ),
    )

-- `validateNewSchema` accepts exactly the configurations whose providers have ids, pairwise distinct
-- ones, and known types, with an endpoint wherever the type needs one.
pub validate_new_schema_iff :
    (cfg : Config)
    → (validate_new_schema cfg ≡ none) ↔ (Distinct cfg.providers × All IsTyped cfg.providers)
unfolding validate_new_schema
validate_new_schema_iff cfg =
    let (split, join) = check_new_schema_iff GoMap.empty cfg.providers in
    (λ h. let (d, t, u) = split h in (d, t), λ h. join (h.0, h.1, Unseen-empty cfg.providers))
