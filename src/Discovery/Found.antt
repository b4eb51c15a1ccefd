-- ===== src/Discovery/Found.antt =====
-- What is generated from the environment (internal/discovery/env.go, internal/discovery/config.go).
use local_router.Prelude.{
  ◌≡◌, refl, ap, sym, ◌∙◌, inl, inr, String, Bool, true, false, not, ◌&&◌, some, List, [], ◌∷◌,
  ◌++◌, map, keep, any, Bool-cases, str_eq, arith,
}
use local_router.Config.Checks.{valid_type, needs_endpoint}
use local_router.Provider.{Outcome, ok, err}
use local_router.Adapters.Http.{HttpReply, bind, decoded}
use local_router.Discovery.{
  EnvProvider, ProviderModels, env_providers, append_discovered, discover_from_env, Decoders,
  fetch_models, discover_models_for_providers, ConfigProvider, GeneratedConfig, new_config,
  env_provider_with_models, add_env_providers, add_env_provider_with_models, first_model,
  generate_config_from_env,
}

-- What the validation of a configuration asks of the providers: a name, a known type, an endpoint where
-- the type needs one, and pairwise distinct ids.
pub record Named : Type 0 where
  pub id : String
  pub type : String
  pub endpoint : String

abbrev is_fine : Named → Bool
is_fine p =
    not (str_eq p.id "")
    && (valid_type p.type && not (needs_endpoint p.type && str_eq p.endpoint ""))

unfoldable pub are_fine : List Named → Bool
are_fine [] = true
are_fine (p ∷ ps) = (is_fine p && not (any (λ q. str_eq p.id q.id) ps)) && are_fine ps

abbrev pub name_of : EnvProvider → Named
name_of p = record { id = p.id; type = p.type; endpoint = p.endpoint }

abbrev pub config_name : ConfigProvider → Named
config_name p = record { id = p.id; type = p.type; endpoint = p.endpoint }

append_nil {ℓ} : {A : Type ℓ} (xs : List A) → xs ++ [] ≡ xs
append_nil [] = refl
append_nil (x ∷ xs) = ap (λ l. x ∷ l) (append_nil xs)

append_assoc {ℓ} : {A : Type ℓ} (xs ys zs : List A) → (xs ++ ys) ++ zs ≡ xs ++ (ys ++ zs)
append_assoc [] ys zs = refl
append_assoc (x ∷ xs) ys zs = ap (λ l. x ∷ l) (append_assoc xs ys zs)

abbrev pub has_key : (String → String) → EnvProvider → Bool
has_key getenv p = not (str_eq (getenv p.env_var) "")

append_discovered-keep :
    (getenv : String → String) (ps found : List EnvProvider)
    → append_discovered getenv ps found ≡ found ++ keep (has_key getenv) ps
unfolding append_discovered keep
append_discovered-keep getenv [] found = sym (append_nil found)
append_discovered-keep getenv (p ∷ ps) found = elim (Bool-cases (str_eq (getenv p.env_var) "")) [
  | inl missing ↦ rw missing (append_discovered-keep getenv ps found)
  | inr present ↦ rw present (
      append_discovered-keep getenv ps (found ++ p ∷ [])
      ∙ append_assoc found (p ∷ []) (keep (has_key getenv) ps))
]

any-keep :
    (test : EnvProvider → Bool) (id : String) (ps : List EnvProvider)
    → any (λ q. str_eq id q.id) (map name_of ps) ≡ false
    → any (λ q. str_eq id q.id) (map name_of (keep test ps)) ≡ false
unfolding keep any
any-keep test id [] h = refl
any-keep test id (p ∷ ps) h = elim (Bool-cases (test p)) [
  | inl kept ↦ rw kept (ground (arith, h, any-keep test id ps))
  | inr gone ↦ rw gone (any-keep test id ps (ground (arith, h)))
]

are_fine-keep :
    (test : EnvProvider → Bool) (ps : List EnvProvider)
    → are_fine (map name_of ps) ≡ true
    → are_fine (map name_of (keep test ps)) ≡ true
unfolding are_fine keep
are_fine-keep test [] h = refl
are_fine-keep test (p ∷ ps) h = elim (Bool-cases (test p)) [
  | inl kept ↦ rw kept (ground (arith, h, any-keep test p.id ps, are_fine-keep test ps))
  | inr gone ↦ rw gone (are_fine-keep test ps (ground (arith, h)))
]

env_providers-are_fine : are_fine (map name_of env_providers) ≡ true
unfolding are_fine any
env_providers-are_fine = refl

abbrev owners : List ProviderModels → List EnvProvider
owners pms = map (λ pm. pm.provider) pms

-- One round of the loop over the providers.
one-owner :
    (p : EnvProvider) (ps : List EnvProvider) (label : String) (models : Outcome (List String))
    (rest : Outcome (List ProviderModels)) (pms : List ProviderModels)
    → ((xs : List ProviderModels) → rest ≡ ok xs → owners xs ≡ ps)
    → bind
        (decoded label models)
        (λ ms. bind rest (λ results. ok (record { provider = p; models = ms } ∷ results)))
      ≡ ok pms
    → owners pms ≡ p ∷ ps
unfolding bind decoded
one-owner p ps label (err e) rest pms ih h = absurd (ground (arith, h))
one-owner p ps label (ok ms) (err e) pms ih h = absurd (ground (arith, h))
one-owner p ps label (ok ms) (ok xs) pms ih h =
    let same : (record { provider = p; models = ms } ∷ xs) ≡ pms = cc h in
    ap owners (sym same) ∙ ap (λ l. p ∷ l) (ih xs refl)

-- The results are for the given providers, in their order.
discover_models-owners :
    (decoders : Decoders) (get : String → HttpReply) (ps : List EnvProvider)
    (pms : List ProviderModels)
    → discover_models_for_providers decoders get ps ≡ ok pms
    → owners pms ≡ ps
unfolding discover_models_for_providers
discover_models-owners decoders get [] pms h = let same : [] ≡ pms = cc h in ap owners (sym same)
discover_models-owners decoders get (p ∷ ps) pms h =
    one-owner p ps _ (fetch_models decoders get p) (discover_models_for_providers decoders get ps)
      pms (discover_models-owners decoders get ps) h

add_env_providers-names :
    (pms : List ProviderModels) (g : GeneratedConfig)
    → map config_name (add_env_providers pms g).providers
      ≡ map config_name g.providers ++ map name_of (owners pms)
unfolding add_env_providers add_env_provider_with_models
add_env_providers-names [] g = sym (append_nil (map config_name g.providers))
add_env_providers-names (pm ∷ pms) g =
    add_env_providers-names pms (add_env_provider_with_models pm g)
    ∙ ap (λ l. l ++ map name_of (owners pms))
        (map-append g.providers (env_provider_with_models pm ∷ []))
    ∙ append_assoc (map config_name g.providers) (name_of pm.provider ∷ [])
        (map name_of (owners pms))
  where
    map-append :
        (xs ys : List ConfigProvider)
        → map config_name (xs ++ ys) ≡ map config_name xs ++ map config_name ys
    map-append [] ys = refl
    map-append (x ∷ xs) ys = ap (λ l. config_name x ∷ l) (map-append xs ys)

generated-names :
    (pms : List ProviderModels) (g : GeneratedConfig)
    → generate_config_from_env pms ≡ some g
    → map config_name g.providers ≡ map name_of (owners pms)
unfolding generate_config_from_env
generated-names [] g h = absurd (ground (arith, h))
generated-names (pm ∷ pms) g h =
    let made = add_env_providers (pm ∷ pms) new_config in
    let same : record made { default_model = first_model pm.models made.default_model } ≡ g =
      cc h in
    ap (λ x. map config_name x.providers) (sym same) ∙ add_env_providers-names (pm ∷ pms) new_config

-- Whatever variables are set, and whatever models the services list: the configuration that is
-- generated from the environment has exactly one provider for each service whose variable holds
-- a key, in the order of the table; their ids are pairwise distinct and not empty, the types are known,
-- and an endpoint is there where the type needs one, as the validation of a configuration asks.
pub generate_config-are_fine :
    (getenv : String → String) (decoders : Decoders) (get : String → HttpReply)
    (pms : List ProviderModels) (g : GeneratedConfig)
    → discover_models_for_providers decoders get (discover_from_env getenv) ≡ ok pms
    → generate_config_from_env pms ≡ some g
    → (map config_name g.providers ≡ map name_of (keep (has_key getenv) env_providers))
      × (are_fine (map config_name g.providers) ≡ true)
unfolding discover_from_env
generate_config-are_fine getenv decoders get pms g found generated =
    let names : map config_name g.providers ≡ map name_of (keep (has_key getenv) env_providers) =
      generated-names pms g generated
      ∙ ap (map name_of) (
          discover_models-owners decoders get (discover_from_env getenv) pms found
          ∙ append_discovered-keep getenv env_providers []) in
    (names, ap are_fine names ∙ are_fine-keep (has_key getenv) env_providers env_providers-are_fine)
