-- ===== src/Routing/Tables.antt =====
-- internal/storage/sqlite/providers.go: the tables of profiles, which are listed, read and upserted.
use code_maintainer.Base.{String, not, ◌&&◌, ◌||◌, List, find, take, ◌is◌}
use code_maintainer.Base.Int.{ℤ, pos, ◌+ℤ◌}
use code_maintainer.Base.Text.{codes, is_empty}
use code_maintainer.Base.Stamp.{text_before}
use code_maintainer.Scheduler.Order.{stable_sort}
use code_maintainer.Store.Tables.{bounded_limit}
use code_maintainer.Routing.Profiles.{ProviderProfile, EndpointProfile, ModelProfile, RouteProfile}
use code_maintainer.Routing.Checks.{
  refused, provider_valid, endpoint_error, model_error, route_valid,
}
use code_maintainer.Routing.Catalog.{
  RouteEnv, list_providers, list_endpoints, list_models, list_routes, read_provider, read_endpoint,
  read_model, read_route, write_provider, write_endpoint, write_model, write_route, invalid,
  not_found, Act, ◌>>=◌, ◌>>◌, reject_if, call, gets, modify, or_fail, newest_first, upsert_row,
  or_now, or_first,
}

-- ListProviderProfiles
unfoldable pub list_provider_profiles : RouteEnv → ℤ → Act (List ProviderProfile)
list_provider_profiles env limit = do
  call env list_providers
  gets λ c. take (bounded_limit limit 100 500) (
      stable_sort
        (λ (a : ProviderProfile) (b : ProviderProfile).
          newest_first a.updated_at a.id b.updated_at b.id)
        c.providers)

-- getProviderProfile
unfoldable pub get_provider_profile : RouteEnv → String → Act ProviderProfile
get_provider_profile env k = do
  call env read_provider
  found ← gets (λ c. find (λ (p : ProviderProfile). p.id is k) c.providers)
  or_fail found not_found

abbrev pub stamp_provider : RouteEnv → ProviderProfile → ProviderProfile
stamp_provider env p = record p {
  schema_version = or_first p.schema_version;
  created_at = or_now env p.created_at;
  updated_at = env.now;
  version = or_first p.version;
  credential_configured = not (is_empty p.credential_ref);
}

-- The row that a conflict leaves.
abbrev pub next_provider : ProviderProfile → ProviderProfile → ProviderProfile
next_provider row old = record row {
  schema_version = old.schema_version;
  version = old.version +ℤ pos 1;
  created_at = old.created_at;
}

-- UpsertProviderProfile
unfoldable pub upsert_provider_profile : RouteEnv → ProviderProfile → Act ProviderProfile
unfolding get_provider_profile
upsert_provider_profile env p = do
  let row = stamp_provider env p
  reject_if (not (provider_valid row)) invalid
  call env write_provider
  modify λ c. record c {
    providers = upsert_row (λ x. x.id is row.id) (next_provider row) row c.providers;
  }
  get_provider_profile env row.id

-- ListEndpointProfiles
unfoldable pub list_endpoint_profiles : RouteEnv → ℤ → Act (List EndpointProfile)
list_endpoint_profiles env limit = do
  call env list_endpoints
  gets λ c. take (bounded_limit limit 100 500) (
      stable_sort
        (λ (a : EndpointProfile) (b : EndpointProfile).
          newest_first a.updated_at a.id b.updated_at b.id)
        c.endpoints)

-- getEndpointProfile
unfoldable pub get_endpoint_profile : RouteEnv → String → Act EndpointProfile
get_endpoint_profile env k = do
  call env read_endpoint
  found ← gets (λ c. find (λ (e : EndpointProfile). e.id is k) c.endpoints)
  or_fail found not_found

abbrev pub stamp_endpoint : RouteEnv → EndpointProfile → EndpointProfile
stamp_endpoint env e = record e {
  created_at = or_now env e.created_at;
  updated_at = env.now;
  version = or_first e.version;
}

-- The row that a conflict leaves: it keeps its provider.
abbrev pub next_endpoint : EndpointProfile → EndpointProfile → EndpointProfile
next_endpoint row old = record row {
  provider_id = old.provider_id;
  version = old.version +ℤ pos 1;
  created_at = old.created_at;
}

-- UpsertEndpointProfile
unfoldable pub upsert_endpoint_profile : RouteEnv → EndpointProfile → Act EndpointProfile
unfolding get_endpoint_profile get_provider_profile
upsert_endpoint_profile env e = do
  provider ← get_provider_profile env e.provider_id
  let row = stamp_endpoint env e
  reject_if (refused (endpoint_error env.parsers row provider)) invalid
  call env write_endpoint
  modify λ c. record c {
    endpoints = upsert_row (λ x. x.id is row.id) (next_endpoint row) row c.endpoints;
  }
  get_endpoint_profile env row.id

-- ListModelProfiles
unfoldable pub list_model_profiles : RouteEnv → ℤ → Act (List ModelProfile)
list_model_profiles env limit = do
  call env list_models
  gets λ c. take (bounded_limit limit 100 500) (
      stable_sort
        (λ (a : ModelProfile) (b : ModelProfile). newest_first a.updated_at a.id b.updated_at b.id)
        c.models)

-- getModelProfile
unfoldable pub get_model_profile : RouteEnv → String → Act ModelProfile
get_model_profile env k = do
  call env read_model
  found ← gets (λ c. find (λ (m : ModelProfile). m.id is k) c.models)
  or_fail found not_found

abbrev pub stamp_model : RouteEnv → ModelProfile → ModelProfile
stamp_model env m = record m {
  created_at = or_now env m.created_at;
  updated_at = env.now;
  version = or_first m.version;
}

-- The row that a conflict leaves: it keeps its provider and its endpoint.
abbrev pub next_model : ModelProfile → ModelProfile → ModelProfile
next_model row old = record row {
  provider_id = old.provider_id;
  endpoint_id = old.endpoint_id;
  version = old.version +ℤ pos 1;
  created_at = old.created_at;
}

-- UpsertModelProfile
unfoldable pub upsert_model_profile : RouteEnv → ModelProfile → Act ModelProfile
unfolding get_provider_profile get_endpoint_profile get_model_profile
upsert_model_profile env m = do
  provider ← get_provider_profile env m.provider_id
  endpoint ← get_endpoint_profile env m.endpoint_id
  let row = stamp_model env m
  reject_if (refused (model_error env.parsers row provider endpoint)) invalid
  call env write_model
  modify λ c. record c { models = upsert_row (λ x. x.id is row.id) (next_model row) row c.models }
  get_model_profile env row.id

-- ListRouteProfiles
unfoldable pub list_route_profiles : RouteEnv → ℤ → Act (List RouteProfile)
list_route_profiles env limit = do
  call env list_routes
  gets λ c. take (bounded_limit limit 100 500) (
      stable_sort
        (λ (a : RouteProfile) (b : RouteProfile).
          text_before (codes a.role) (codes b.role)
          || (a.role is b.role && text_before (codes a.id) (codes b.id)))
        c.routes)

-- getRouteProfile
unfoldable pub get_route_profile : RouteEnv → String → Act RouteProfile
get_route_profile env k = do
  call env read_route
  found ← gets (λ c. find (λ (r : RouteProfile). r.id is k) c.routes)
  or_fail found not_found

abbrev pub stamp_route : RouteEnv → RouteProfile → RouteProfile
stamp_route env r = record r {
  created_at = or_now env r.created_at;
  updated_at = env.now;
  version = or_first r.version;
}

-- The row that a conflict leaves.
abbrev pub next_route : RouteProfile → RouteProfile → RouteProfile
next_route row old = record row { version = old.version +ℤ pos 1; created_at = old.created_at }

-- UpsertRouteProfile
unfoldable pub upsert_route_profile : RouteEnv → RouteProfile → Act RouteProfile
unfolding get_route_profile
upsert_route_profile env r = do
  let row = stamp_route env r
  reject_if (not (route_valid env.parsers row)) invalid
  call env write_route
  modify λ c. record c { routes = upsert_row (λ x. x.id is row.id) (next_route row) row c.routes }
  get_route_profile env row.id
