-- ===== src/Routing/Updates.antt =====
-- internal/providers/service.go: the updates of profiles under an expected version, and ProbeModel.
pub mod Laws
use code_maintainer.Base.{
  String, Bool, true, false, not, ◌&&◌, ◌||◌, Option, none, some, List, [], ◌∷◌, find, ◌is◌,
  if◌then◌else◌,
}
use code_maintainer.Base.Int.{ℤ, pos, ltb_ℤ, eqb_ℤ}
use code_maintainer.Base.Text.{concat, is_blank, is_empty}
use code_maintainer.Providers.Stream.{valid_family}
use code_maintainer.Routing.Profiles.{
  CapabilityProbe, ProviderProfile, EndpointProfile, ModelProfile, RouteProfile,
  UpdateProviderRequest, UpdateEndpointRequest, UpdateModelRequest, UpdateRouteRequest,
}
use code_maintainer.Routing.Checks.{
  is_profile_id, refused, provider_valid, endpoint_error, model_error, route_valid,
}
use code_maintainer.Routing.Catalog.{
  RouteEnv, CatalogError, conflict, rejected, message, Act, ◌>>=◌, ◌>>◌, pure, fail, reject_if,
  or_fail,
}
use code_maintainer.Routing.Tables.{
  list_provider_profiles, list_endpoint_profiles, list_model_profiles, list_route_profiles,
  upsert_provider_profile, upsert_endpoint_profile, upsert_model_profile, upsert_route_profile,
}
use code_maintainer.Routing.Records.{record_capability_probe}
use code_maintainer.Routing.Adapters.{
  ProbeObservation, Probed, observed, failed, no_capabilities, native_shape_for_family,
  request_shape_for_family, response_shape_for_family, probe_fake,
}
use code_maintainer.Routing.Defaults.{ensure_defaults}
use code_maintainer.Routing.Scan.{Loaded, last_found}
use code_maintainer.Routing.Simulate.{load}

-- The common check of the four requests.
abbrev pub bad_update : String → String → String → String → ℤ → Bool
bad_update id profile_id actor reason expected =
    not (is_profile_id id)
    || not (profile_id is id)
    || is_empty actor
    || is_blank reason
    || ltb_ℤ expected (pos 1)

-- findProvider
unfoldable pub find_provider : RouteEnv → String → Act ProviderProfile
find_provider env k = do
  items ← list_provider_profiles env (pos 500)
  or_fail (find (λ (p : ProviderProfile). p.id is k) items) (message "provider profile not found")

-- findEndpoint
unfoldable pub find_endpoint : RouteEnv → String → Act EndpointProfile
find_endpoint env k = do
  items ← list_endpoint_profiles env (pos 500)
  or_fail (find (λ (e : EndpointProfile). e.id is k) items) (message "endpoint profile not found")

-- findModel
unfoldable pub find_model : RouteEnv → String → Act ModelProfile
find_model env k = do
  items ← list_model_profiles env (pos 500)
  or_fail (find (λ (m : ModelProfile). m.id is k) items) (message "model profile not found")

-- findRoute
unfoldable pub find_route : RouteEnv → String → Act RouteProfile
find_route env k = do
  items ← list_route_profiles env (pos 500)
  or_fail (find (λ (r : RouteProfile). r.id is k) items) (message "route profile not found")

abbrev pub provider_in : Loaded → String → Option ProviderProfile
provider_in l k = last_found (λ (p : ProviderProfile). p.id is k) l.providers

abbrev pub endpoint_in : Loaded → String → Option EndpointProfile
endpoint_in l k = last_found (λ (e : EndpointProfile). e.id is k) l.endpoints

abbrev pub model_in : Loaded → String → Option ModelProfile
model_in l k = last_found (λ (m : ModelProfile). m.id is k) l.models

-- UpdateProvider
unfoldable pub update_provider :
    RouteEnv → String → UpdateProviderRequest → String → Act ProviderProfile
unfolding find_provider
update_provider env id r actor = do
  ensure_defaults env
  reject_if (bad_update id r.profile.id actor r.reason r.expected_version) rejected
  current ← find_provider env id
  reject_if (not (eqb_ℤ current.version r.expected_version)) conflict
  let next = record r.profile {
    schema_version = pos 1;
    created_at = current.created_at;
    updated_at = current.updated_at;
    version = current.version;
  }
  reject_if (not (provider_valid next)) rejected
  upsert_provider_profile env next

-- UpdateEndpoint
unfoldable pub update_endpoint :
    RouteEnv → String → UpdateEndpointRequest → String → Act EndpointProfile
unfolding find_endpoint
update_endpoint env id r actor = do
  ensure_defaults env
  reject_if (bad_update id r.profile.id actor r.reason r.expected_version) rejected
  l ← load env
  current ← find_endpoint env id
  reject_if (not (eqb_ℤ current.version r.expected_version)) conflict
  provider ←
      or_fail (provider_in l r.profile.provider_id)
        (message "endpoint provider profile is not registered")
  let next = record r.profile {
    created_at = current.created_at;
    updated_at = current.updated_at;
    version = current.version;
  }
  reject_if (refused (endpoint_error env.parsers next provider)) rejected
  upsert_endpoint_profile env next

-- An endpoint of the provider.
abbrev pub endpoint_of : Option EndpointProfile → ProviderProfile → Option EndpointProfile
endpoint_of none p = none
endpoint_of (some e) p = if e.provider_id is p.id then some e else none

-- UpdateModel
unfoldable pub update_model : RouteEnv → String → UpdateModelRequest → String → Act ModelProfile
unfolding find_model
update_model env id r actor = do
  ensure_defaults env
  reject_if (bad_update id r.profile.id actor r.reason r.expected_version) rejected
  l ← load env
  current ← find_model env id
  reject_if (not (eqb_ℤ current.version r.expected_version)) conflict
  provider ←
      or_fail (provider_in l r.profile.provider_id)
        (message "model provider profile is not registered")
  endpoint ←
      or_fail (endpoint_of (endpoint_in l r.profile.endpoint_id) provider)
        (message "model endpoint profile is not registered for provider")
  let next = record r.profile {
    created_at = current.created_at;
    updated_at = current.updated_at;
    version = current.version;
  }
  reject_if (refused (model_error env.parsers next provider endpoint)) rejected
  upsert_model_profile env next

-- The loop over the models of a route: whether one of them has a remote provider.
unfoldable pub uses_remote : Loaded → List String → Act Bool
uses_remote l [] = pure false
uses_remote l (k ∷ ks) = do
  model ←
      or_fail (model_in l k)
        (message (concat ("route references unregistered model profile \"" ∷ k ∷ "\"" ∷ [])))
  provider ←
      or_fail (provider_in l model.provider_id)
        (message (concat ("route references model \"" ∷ k ∷ "\" with unregistered provider" ∷ [])))
  rest ← uses_remote l ks
  pure (provider.remote || rest)

-- An enabled route to a remote provider that was not approved with a rationale.
abbrev pub lacks_approval : UpdateRouteRequest → Bool → Bool
lacks_approval r remote =
    r.profile.enabled
    && remote
    && (not r.remote_egress_approved || is_blank r.remote_egress_approval_summary)

-- UpdateRoute, where the profiles have been read and the route found.
unfoldable pub after_found :
    RouteEnv → UpdateRouteRequest → Loaded → RouteProfile → Act RouteProfile
unfolding uses_remote
after_found env r l current = do
  reject_if (not (eqb_ℤ current.version r.expected_version)) conflict
  let next = record r.profile {
    created_at = current.created_at;
    updated_at = current.updated_at;
    version = current.version;
  }
  reject_if (not (route_valid env.parsers next)) rejected
  remote ← uses_remote l next.ordered_model_ids
  reject_if (lacks_approval r remote) (
      message
        "enabling a remote-capable route requires explicit egress preview approval and rationale")
  upsert_route_profile env next

-- UpdateRoute
unfoldable pub update_route : RouteEnv → String → UpdateRouteRequest → String → Act RouteProfile
unfolding find_route after_found
update_route env id r actor = do
  ensure_defaults env
  reject_if (bad_update id r.profile.id actor r.reason r.expected_version) rejected
  l ← load env
  current ← find_route env id
  after_found env r l current

-- The probe that is recorded of what the adapter answered, all in one reading of the clock.
abbrev pub probe_row :
    RouteEnv → String → ProviderProfile → EndpointProfile → ModelProfile → Probed → CapabilityProbe
probe_row env actor p e m (failed text) = record {
  id = "";
  provider_id = p.id;
  endpoint_id = e.id;
  model_profile_id = m.id;
  interface_family = p.interface_family;
  status = "failed";
  observed_model_id = m.model_id;
  native_api_shape = native_shape_for_family p.interface_family;
  capabilities = no_capabilities;
  request_schema_sha256 = env.text_digest (request_shape_for_family p.interface_family);
  response_schema_sha256 = env.text_digest (response_shape_for_family p.interface_family);
  latency_millis = pos 0;
  errors = text ∷ [];
  actor_id = actor;
  created_at = env.now;
}
probe_row env actor p e m (observed o) = record {
  id = "";
  provider_id = p.id;
  endpoint_id = e.id;
  model_profile_id = m.id;
  interface_family = p.interface_family;
  status = "passed";
  observed_model_id = o.observed_model_id;
  native_api_shape = o.native_api_shape;
  capabilities = o.capabilities;
  request_schema_sha256 = o.request_schema_sha256;
  response_schema_sha256 = o.response_schema_sha256;
  latency_millis = o.latency_millis;
  errors = [];
  actor_id = actor;
  created_at = env.now;
}

-- ProbeModel
unfoldable pub probe_model : RouteEnv → String → String → Act CapabilityProbe
probe_model env k actor = do
  ensure_defaults env
  reject_if (not (is_profile_id k) || is_empty actor) rejected
  l ← load env
  model ← or_fail (model_in l k) (message "model profile not found")
  provider ← or_fail (provider_in l model.provider_id) (message "provider profile not found")
  endpoint ← or_fail (endpoint_in l model.endpoint_id) (message "endpoint profile not found")
  reject_if (not (valid_family provider.interface_family))
      (message "provider adapter is not registered")
  record_capability_probe env (
      probe_row env actor provider endpoint model
        (probe_fake env provider.interface_family provider endpoint model))
