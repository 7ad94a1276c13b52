-- ===== src/Tests/RouteUpdates.antt =====
-- internal/providers/service.go: updates of the catalogue, and sequences of calls of the service.
use code_maintainer.Base.{◌≡◌, refl, String, true, false, [], ◌∷◌, not, ◌&&◌, arith, List}
use code_maintainer.Base.Int.{pos, ◌+ℤ◌, ◌-ℤ◌}
use code_maintainer.Routing.Profiles.{RouteProfile, UpdateRouteRequest}
use code_maintainer.Routing.Catalog.{Catalog, Reply, ok}
use code_maintainer.Routing.Updates.Laws.{Updated, update_route_ok}
use code_maintainer.Base.Patterns.{is_alnum}
use code_maintainer.Base.Stamp.{fraction_text, stamp_before}
use code_maintainer.Base.Text.{concat, is_blank, is_space}
use code_maintainer.Routing.Adapters.{capabilities_for_family}
use code_maintainer.Routing.Checks.{
  endpoint_error, endpoint_fields, endpoint_url_error, is_profile_id, model_error, model_fields,
  provider_valid, route_valid, valid_data_class, valid_network_zone, valid_trust_tier,
}
use code_maintainer.Routing.Defaults.{default_routes, ensure_defaults, local_route, remote_preview}
use code_maintainer.Routing.Parsers.{endpoint_host_is_private, fold_code, is_private_address}
use code_maintainer.Routing.Presets.{
  default_endpoints, default_models, default_providers, local_endpoint, local_model, provider_of,
}
use code_maintainer.Routing.Simulate.{load}
use code_maintainer.Routing.Tables.{
  get_endpoint_profile, get_model_profile, get_provider_profile, get_route_profile,
  list_endpoint_profiles, list_model_profiles, list_provider_profiles, list_route_profiles,
  upsert_endpoint_profile, upsert_model_profile, upsert_provider_profile, upsert_route_profile,
}
use code_maintainer.Routing.Updates.{after_found, find_route, update_route, uses_remote}
use code_maintainer.Scheduler.Order.{insert_all, insert_back, stable_sort}
use code_maintainer.Tests.Routes.{
  env, new_catalog, seeded, is_ok, value_or, is_ok-value, local_request,
}
use code_maintainer.Routing.Keeps.Intact.{Intact}
use code_maintainer.Routing.Keeps.History.{ServiceCall, ServiceStep, serve_all, serve_all-Intact}
use code_maintainer.Base.Clock.{Time}

-- The preview route is enabled with an approval.
abbrev enable_preview : UpdateRouteRequest
enable_preview = record {
  expected_version = pos 1;
  reason = "enable the documentation route";
  profile = record (remote_preview 1_000_000_000) { enabled = true };
  remote_egress_approved = true;
  remote_egress_approval_summary = "public documentation only";
}

abbrev preview_id : String
preview_id = "remote-documentation-ci-preview"

abbrev enabled_run : Reply RouteProfile × Catalog
enabled_run = update_route env preview_id enable_preview "operator" seeded

-- With the approval it is, and without it is not.
approval_counts :
    (is_ok enabled_run
      && not (
          is_ok (
            update_route env preview_id
              (record enable_preview { remote_egress_approved = false })
              "operator"
              seeded)))
    ≡ true
unfolding ◌+ℤ◌ ◌-ℤ◌ is_alnum fraction_text stamp_before concat is_blank is_space
    capabilities_for_family endpoint_error endpoint_fields endpoint_url_error is_profile_id
    model_error model_fields provider_valid route_valid valid_data_class valid_network_zone
    valid_trust_tier default_routes ensure_defaults local_route remote_preview
    endpoint_host_is_private fold_code is_private_address default_endpoints default_models
    default_providers local_endpoint local_model provider_of load get_endpoint_profile
    get_model_profile get_provider_profile get_route_profile list_endpoint_profiles
    list_model_profiles list_provider_profiles list_route_profiles upsert_endpoint_profile
    upsert_model_profile upsert_provider_profile upsert_route_profile after_found find_route
    update_route uses_remote insert_all insert_back stable_sort
approval_counts = refl

update_route_ok_example :
    (c1 : Catalog) × (ensure_defaults env seeded ≡ (ok tt, c1))
    × Updated env preview_id enable_preview "operator" c1 enabled_run.1
        (value_or enabled_run enable_preview.profile)
update_route_ok_example =
    update_route_ok env preview_id enable_preview "operator" seeded enabled_run.1
      (value_or enabled_run enable_preview.profile)
      (is_ok-value enabled_run enable_preview.profile (ground (arith, approval_counts)))

abbrev at_time : Time → ServiceCall → ServiceStep
at_time t a = record { now = t; fault = λ c. false; new_id = env.new_id; action = a }

-- A request is routed, a model probed, and the preview route enabled, on an empty catalogue.
abbrev session : List ServiceStep
session =
    at_time 1_000_000_000 (ServiceCall.simulate local_request)
    ∷ at_time 2_000_000_000 (ServiceCall.probe "local-implementation" "operator")
    ∷ at_time 3_000_000_000 (ServiceCall.set_route preview_id enable_preview "operator")
    ∷ []

empty-Intact : Intact env.parsers new_catalog
empty-Intact = record {
  providers = tt;
  endpoints = tt;
  models = tt;
  routes = tt;
  manifests = tt;
  probes = tt;
}

serve_all-Intact_example : Intact env.parsers (serve_all env session new_catalog)
serve_all-Intact_example = serve_all-Intact env session new_catalog empty-Intact
