-- ===== src/Routing/Keeps/Writes.antt =====
-- internal/storage/sqlite/providers.go: each write of the catalogue keeps it intact.
use code_maintainer.Base.{◌≡◌, sym, String, true, All-map, any, inl, inr, ◌is◌, eq_iff, subst}
use code_maintainer.Routing.Profiles.{ProviderProfile, EndpointProfile, ModelProfile, RouteProfile}
use code_maintainer.Routing.Catalog.{RouteEnv, Catalog, upsert_row}
use code_maintainer.Routing.Tables.{
  stamp_provider, next_provider, upsert_provider_profile, stamp_endpoint, next_endpoint,
  upsert_endpoint_profile, stamp_model, next_model, upsert_model_profile, stamp_route, next_route,
  upsert_route_profile,
}
use code_maintainer.Routing.Keeps.{Keeps}
use code_maintainer.Routing.Keeps.Intact.{
  Intact, has_provider, has_endpoint, next_provider-valid, next_route-valid,
}
use code_maintainer.Routing.Keeps.Upserts.{upsert_row-All, upsert_row-any}
use code_maintainer.Routing.Keeps.States.{
  upsert_provider_profile-state, upsert_endpoint_profile-state, upsert_model_profile-state,
  upsert_route_profile-state,
}

same_id : (a b k : String) → a is b ≡ true → a is k ≡ true → b is k ≡ true
same_id a b k h g = subst (λ x. x is k ≡ true) ((eq_iff a b).0 h) g

-- Providers are never removed.
has_provider-upsert :
    (row : ProviderProfile) (c : Catalog) (k : String)
    → has_provider c k ≡ true
    → any
        (λ (p : ProviderProfile). p.id is k)
        (upsert_row (λ x. x.id is row.id) (next_provider row) row c.providers)
      ≡ true
has_provider-upsert row c k =
    upsert_row-any (λ x. x.id is row.id) (next_provider row) row
      (λ (p : ProviderProfile). p.id is k) c.providers (λ x h g. same_id x.id row.id k h g)

pub upsert_provider_profile-Keeps :
    (env : RouteEnv) (p : ProviderProfile)
    → Keeps (Intact env.parsers) (upsert_provider_profile env p)
upsert_provider_profile-Keeps env p c i =
    let row = stamp_provider env p in
    let stays = has_provider-upsert row c in
    elim (upsert_provider_profile-state env p c) [
      | inl same ↦ subst (Intact env.parsers) (sym same) i
      | inr (good, written) ↦ subst (Intact env.parsers) (sym written) (record {
        providers =
            upsert_row-All (λ x. x.id is row.id) (next_provider row) row c.providers good
              (λ x held. next_provider-valid row x good held) i.providers;
        endpoints =
            All-map (λ (e : EndpointProfile) held. stays e.provider_id held) c.endpoints
              i.endpoints;
        models =
            All-map (λ (m : ModelProfile) held. (stays m.provider_id held.0, held.1)) c.models
              i.models;
        routes = i.routes;
        manifests = i.manifests;
        probes = i.probes;
      })
    ]

pub upsert_route_profile-Keeps :
    (env : RouteEnv) (p : RouteProfile) → Keeps (Intact env.parsers) (upsert_route_profile env p)
upsert_route_profile-Keeps env p c i =
    let row = stamp_route env p in
    elim (upsert_route_profile-state env p c) [
      | inl same ↦ subst (Intact env.parsers) (sym same) i
      | inr (good, written) ↦ subst (Intact env.parsers) (sym written) (record {
        providers = i.providers;
        endpoints = i.endpoints;
        models = i.models;
        routes =
            upsert_row-All (λ x. x.id is row.id) (next_route row) row c.routes good
              (λ x held. next_route-valid env.parsers row x good held) i.routes;
        manifests = i.manifests;
        probes = i.probes;
      })
    ]

has_endpoint-upsert :
    (row : EndpointProfile) (c : Catalog) (k : String)
    → has_endpoint c k ≡ true
    → any
        (λ (e : EndpointProfile). e.id is k)
        (upsert_row (λ x. x.id is row.id) (next_endpoint row) row c.endpoints)
      ≡ true
has_endpoint-upsert row c k =
    upsert_row-any (λ x. x.id is row.id) (next_endpoint row) row
      (λ (e : EndpointProfile). e.id is k) c.endpoints (λ x h g. same_id x.id row.id k h g)

pub upsert_endpoint_profile-Keeps :
    (env : RouteEnv) (e : EndpointProfile)
    → Keeps (Intact env.parsers) (upsert_endpoint_profile env e)
upsert_endpoint_profile-Keeps env e c i =
    let row = stamp_endpoint env e in
    let stays = has_endpoint-upsert row c in
    elim (upsert_endpoint_profile-state env e c) [
      | inl same ↦ subst (Intact env.parsers) (sym same) i
      | inr (held, written) ↦ subst (Intact env.parsers) (sym written) (record {
        providers = i.providers;
        endpoints =
            upsert_row-All (λ x. x.id is row.id) (next_endpoint row) row
              {P = λ x. has_provider c x.provider_id ≡ true} c.endpoints held (λ x h. h)
              i.endpoints;
        models =
            All-map (λ (m : ModelProfile) held. (held.0, stays m.endpoint_id held.1)) c.models
              i.models;
        routes = i.routes;
        manifests = i.manifests;
        probes = i.probes;
      })
    ]

pub upsert_model_profile-Keeps :
    (env : RouteEnv) (m : ModelProfile) → Keeps (Intact env.parsers) (upsert_model_profile env m)
upsert_model_profile-Keeps env m c i =
    let row = stamp_model env m in
    elim (upsert_model_profile-state env m c) [
      | inl same ↦ subst (Intact env.parsers) (sym same) i
      | inr (provider, endpoint, written) ↦ subst (Intact env.parsers) (sym written) (record {
        providers = i.providers;
        endpoints = i.endpoints;
        models =
            upsert_row-All (λ x. x.id is row.id) (next_model row) row
              {P = λ x.
                (has_provider c x.provider_id ≡ true) × (has_endpoint c x.endpoint_id ≡ true)}
              c.models (provider, endpoint) (λ x h. h) i.models;
        routes = i.routes;
        manifests = i.manifests;
        probes = i.probes;
      })
    ]
