-- ===== src/Routing/Keeps/Reads.antt =====
-- internal/providers/service.go: EnsureDefaults and the readings keep the catalogue intact.
use code_maintainer.Base.{String, Bool, List, any, find, Bool-cases, inl, inr, ◌is◌}
use code_maintainer.Base.Int.{ℤ, pos}
use code_maintainer.Routing.Profiles.{ProviderProfile, EndpointProfile, ModelProfile, RouteProfile}
use code_maintainer.Routing.Catalog.{
  RouteEnv, Catalog, Act, ◌>>=◌, ◌>>◌, list_providers, list_endpoints, list_models, list_routes,
}
use code_maintainer.Routing.Tables.{
  list_provider_profiles, list_endpoint_profiles, list_model_profiles, list_route_profiles,
  upsert_provider_profile, upsert_endpoint_profile, upsert_model_profile, upsert_route_profile,
}
use code_maintainer.Routing.Defaults.{store_missing, ensure_defaults, default_routes}
use code_maintainer.Routing.Presets.{default_providers, default_endpoints, default_models}
use code_maintainer.Routing.Simulate.{load}
use code_maintainer.Routing.Updates.{find_provider, find_endpoint, find_model, find_route}
use code_maintainer.Routing.Keeps.{Keeps, >>=-Keeps, or_fail-Keeps, store_missing-Keeps}
use code_maintainer.Routing.Keeps.Intact.{Intact}
use code_maintainer.Routing.Keeps.Writes.{
  upsert_provider_profile-Keeps, upsert_endpoint_profile-Keeps, upsert_model_profile-Keeps,
  upsert_route_profile-Keeps,
}

-- A listing reads.
module _ (I : Catalog → Type 0) (env : RouteEnv) where
  list_provider_profiles-Keeps : (n : ℤ) → Keeps I (list_provider_profiles env n)
  unfolding list_provider_profiles
  list_provider_profiles-Keeps n c i = elim (Bool-cases (env.fault list_providers)) [
    | inl failed ↦ rw failed i
    | inr ran ↦ rw ran i
  ]

  list_endpoint_profiles-Keeps : (n : ℤ) → Keeps I (list_endpoint_profiles env n)
  unfolding list_endpoint_profiles
  list_endpoint_profiles-Keeps n c i = elim (Bool-cases (env.fault list_endpoints)) [
    | inl failed ↦ rw failed i
    | inr ran ↦ rw ran i
  ]

  list_model_profiles-Keeps : (n : ℤ) → Keeps I (list_model_profiles env n)
  unfolding list_model_profiles
  list_model_profiles-Keeps n c i = elim (Bool-cases (env.fault list_models)) [
    | inl failed ↦ rw failed i
    | inr ran ↦ rw ran i
  ]

  list_route_profiles-Keeps : (n : ℤ) → Keeps I (list_route_profiles env n)
  unfolding list_route_profiles
  list_route_profiles-Keeps n c i = elim (Bool-cases (env.fault list_routes)) [
    | inl failed ↦ rw failed i
    | inr ran ↦ rw ran i
  ]

  pub load-Keeps : Keeps I (load env)
  unfolding load
  load-Keeps =
      >>=-Keeps I (list_provider_profiles env (pos 100)) _ (list_provider_profiles-Keeps (pos 100))
        (λ ps.
          >>=-Keeps I (list_endpoint_profiles env (pos 100)) _
            (list_endpoint_profiles-Keeps (pos 100))
            (λ es.
              >>=-Keeps I (list_model_profiles env (pos 200)) _
                (list_model_profiles-Keeps (pos 200))
                (λ ms.
                  >>=-Keeps I (list_route_profiles env (pos 100)) _
                    (list_route_profiles-Keeps (pos 100)) (λ rs c i. i))))

-- A round of EnsureDefaults: the profiles are listed, and those that are missing are stored.
seeding-Keeps :
    (I : Catalog → Type 0) {A : Type 0} (listing : Act (List A)) (known : List A → A → Bool)
    (upsert : A → Act A) (xs : List A) (rest : Act (Unit {0}))
    → Keeps I listing
    → ((a : A) → Keeps I (upsert a))
    → Keeps I rest
    → Keeps I (listing >>= λ items. (store_missing (known items) upsert xs >> rest))
seeding-Keeps I listing known upsert xs rest lists writes last =
    >>=-Keeps I listing _ lists (λ items.
      >>=-Keeps I (store_missing (known items) upsert xs) (λ _. rest)
        (store_missing-Keeps I (known items) upsert xs writes) (λ _. last))

module _ (env : RouteEnv) where
  abbrev I : Catalog → Type 0
  I = Intact env.parsers

  pub ensure_defaults-Keeps : Keeps I (ensure_defaults env)
  unfolding ensure_defaults
  ensure_defaults-Keeps =
      seeding-Keeps I (list_provider_profiles env (pos 500))
        (λ (xs : List ProviderProfile) a. any (λ (x : ProviderProfile). x.id is a.id) xs)
        (upsert_provider_profile env) (default_providers env.now) _
        (list_provider_profiles-Keeps I env (pos 500)) (upsert_provider_profile-Keeps env)
        (seeding-Keeps I (list_endpoint_profiles env (pos 500))
          (λ (xs : List EndpointProfile) a. any (λ (x : EndpointProfile). x.id is a.id) xs)
          (upsert_endpoint_profile env) (default_endpoints env.now) _
          (list_endpoint_profiles-Keeps I env (pos 500)) (upsert_endpoint_profile-Keeps env)
          (seeding-Keeps I (list_model_profiles env (pos 500))
            (λ (xs : List ModelProfile) a. any (λ (x : ModelProfile). x.id is a.id) xs)
            (upsert_model_profile env) (default_models env.now) _
            (list_model_profiles-Keeps I env (pos 500)) (upsert_model_profile-Keeps env)
            (>>=-Keeps I (list_route_profiles env (pos 500)) _
              (list_route_profiles-Keeps I env (pos 500))
              (λ rs.
                store_missing-Keeps I (λ a. any (λ (x : RouteProfile). x.id is a.id) rs)
                  (upsert_route_profile env) (default_routes env.now)
                  (upsert_route_profile-Keeps env)))))

  pub find_provider-Keeps : (k : String) → Keeps I (find_provider env k)
  unfolding find_provider
  find_provider-Keeps k =
      >>=-Keeps I (list_provider_profiles env (pos 500)) _
        (list_provider_profiles-Keeps I env (pos 500))
        (λ xs. or_fail-Keeps I (find (λ (x : ProviderProfile). x.id is k) xs) _)

  pub find_endpoint-Keeps : (k : String) → Keeps I (find_endpoint env k)
  unfolding find_endpoint
  find_endpoint-Keeps k =
      >>=-Keeps I (list_endpoint_profiles env (pos 500)) _
        (list_endpoint_profiles-Keeps I env (pos 500))
        (λ xs. or_fail-Keeps I (find (λ (x : EndpointProfile). x.id is k) xs) _)

  pub find_model-Keeps : (k : String) → Keeps I (find_model env k)
  unfolding find_model
  find_model-Keeps k =
      >>=-Keeps I (list_model_profiles env (pos 500)) _ (list_model_profiles-Keeps I env (pos 500))
        (λ xs. or_fail-Keeps I (find (λ (x : ModelProfile). x.id is k) xs) _)

  pub find_route-Keeps : (k : String) → Keeps I (find_route env k)
  unfolding find_route
  find_route-Keeps k =
      >>=-Keeps I (list_route_profiles env (pos 500)) _ (list_route_profiles-Keeps I env (pos 500))
        (λ xs. or_fail-Keeps I (find (λ (x : RouteProfile). x.id is k) xs) _)
