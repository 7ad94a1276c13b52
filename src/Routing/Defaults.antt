-- ===== src/Routing/Defaults.antt =====
-- internal/providers/types.go: the routes of DefaultProfiles, and EnsureDefaults of service.go, which stores them.
use code_maintainer.Base.{String, Bool, true, false, List, [], ◌∷◌, any, ◌is◌, if◌then◌else◌}
use code_maintainer.Base.Int.{pos}
use code_maintainer.Base.Clock.{Time}
use code_maintainer.Routing.Profiles.{ProviderProfile, EndpointProfile, ModelProfile, RouteProfile}
use code_maintainer.Routing.Checks.{all_data_classes}
use code_maintainer.Routing.Presets.{default_providers, default_endpoints, default_models}
use code_maintainer.Routing.Catalog.{RouteEnv, Act, ◌>>=◌, ◌>>◌, pure}
use code_maintainer.Routing.Tables.{
  list_provider_profiles, list_endpoint_profiles, list_model_profiles, list_route_profiles,
  upsert_provider_profile, upsert_endpoint_profile, upsert_model_profile, upsert_route_profile,
}

abbrev pub local_documentation_data_classes : List String
local_documentation_data_classes =
    "documentation_public_source" ∷ "selected_symbols_tests" ∷ "candidate_diff" ∷ "context_packet"
    ∷ []

unfoldable pub local_route : Time → String → String → List String → RouteProfile
local_route now id role classes = record {
  id = id;
  role = role;
  preference = "local_first";
  ordered_model_ids = "local-implementation" ∷ [];
  allowed_data_classes = classes;
  max_tokens_per_request = pos 32_768;
  max_cost_usd = 0;
  retry_budget = pos 2;
  fallback_policy = "same_trust_or_stricter";
  batch_policy = "disabled";
  enabled = true;
  version = pos 1;
  created_at = now;
  updated_at = now;
}

unfoldable pub remote_preview : Time → RouteProfile
remote_preview now = record {
  id = "remote-documentation-ci-preview";
  role = "documentation";
  preference = "remote_when_policy_allows";
  ordered_model_ids = "fake-remote-json" ∷ [];
  allowed_data_classes = "task_metadata" ∷ "documentation_public_source" ∷ [];
  max_tokens_per_request = pos 16_000;
  max_cost_usd = 4591870180066957722;
  retry_budget = pos 1;
  fallback_policy = "explicit_same_or_higher_trust_only";
  batch_policy = "project_isolated";
  enabled = false;
  version = pos 1;
  created_at = now;
  updated_at = now;
}

unfoldable pub default_routes : Time → List RouteProfile
unfolding local_route remote_preview
default_routes now =
    (local_route now "local-quality-default" "implementation" all_data_classes)
    ∷ (local_route now "local-repair-default" "repair" all_data_classes)
    ∷ (local_route now "local-test-designer-default" "test_designer" all_data_classes)
    ∷ (local_route now "local-documentation-default" "documentation"
        local_documentation_data_classes)
    ∷ (local_route now "local-qc-default" "qc" all_data_classes)
    ∷ remote_preview now
    ∷ []

-- The loop over default profiles: those whose id is not known yet are stored.
abbrev pub store_missing : {A B : Type 0} → (A → Bool) → (A → Act B) → List A → Act (Unit {0})
store_missing known upsert [] = pure tt
store_missing known upsert (x ∷ xs) = do
  if known x then pure tt else (upsert x >>= λ _. pure tt)
  store_missing known upsert xs

-- EnsureDefaults
unfoldable pub ensure_defaults : RouteEnv → Act (Unit {0})
ensure_defaults env = do
  providers ← list_provider_profiles env (pos 500)
  store_missing (λ (p : ProviderProfile). any (λ (x : ProviderProfile). x.id is p.id) providers)
      (upsert_provider_profile env) (default_providers env.now)
  endpoints ← list_endpoint_profiles env (pos 500)
  store_missing (λ (e : EndpointProfile). any (λ (x : EndpointProfile). x.id is e.id) endpoints)
      (upsert_endpoint_profile env) (default_endpoints env.now)
  models ← list_model_profiles env (pos 500)
  store_missing (λ (m : ModelProfile). any (λ (x : ModelProfile). x.id is m.id) models)
      (upsert_model_profile env) (default_models env.now)
  routes ← list_route_profiles env (pos 500)
  store_missing (λ (r : RouteProfile). any (λ (x : RouteProfile). x.id is r.id) routes)
      (upsert_route_profile env) (default_routes env.now)
