-- ===== src/Tests/Routes.antt =====
-- internal/providers/service.go: requests routed on a new catalogue, as in service_test.go.
use code_maintainer.Base.{
  ◌+◌, ◌≡◌, refl, String, Bool, true, false, ◌||◌, Option, none, some, [], ◌∷◌, ltb, ◌==◌, ◌is◌,
  if◌then◌else◌, perm_refl, not, ◌&&◌, arith,
}
use code_maintainer.Base.Int.{pos, pos_part, ◌+ℤ◌, ◌-ℤ◌}
use code_maintainer.Base.Text.{has_prefix, concat, is_blank, is_space}
use code_maintainer.Routing.Profiles.{RouteRequest}
use code_maintainer.Routing.Parsers.{
  Url, Parsers, endpoint_host_is_private, fold_code, is_private_address,
}
use code_maintainer.Routing.Catalog.{RouteEnv, Catalog, Reply, ok, err}
use code_maintainer.Routing.Scan.{
  Loaded, Choice, admit, candidate, consider, is_below_floor, is_over_cost, raise_floor,
  route_takes, scan_models, scan_route, scan_routes, trusted,
}
use code_maintainer.Routing.Simulate.{
  RouteDecision, allow_manifest, capability_summary, choose, deny_manifest, forbidden_class,
  hash_manifest, load, record_allowed, record_denied, retention_for, route_checked, settle_verdict,
  simulate_route, sorted_strings,
}
use code_maintainer.Routing.Simulate.Decides.{Decided, simulate_route_decides}
use mathlib.Core.List.{Permᴰ}
use code_maintainer.Routing.Simulate.Unordered.{reordered, simulate_route-unordered}
use code_maintainer.Routing.Simulate.Safe.{Safe, simulate_route-Safe}
use code_maintainer.Base.Patterns.{is_alnum, is_sha256}
use code_maintainer.Base.Stamp.{fraction_text, stamp_before}
use code_maintainer.Routing.Adapters.{capabilities_for_family}
use code_maintainer.Routing.Checks.{
  endpoint_error, endpoint_fields, endpoint_url_error, is_profile_id, manifest_valid, model_error,
  model_fields, provider_valid, request_valid, route_valid, valid_data_class, valid_network_zone,
  valid_trust_tier,
}
use code_maintainer.Routing.Defaults.{default_routes, ensure_defaults, local_route, remote_preview}
use code_maintainer.Routing.Presets.{
  default_endpoints, default_models, default_providers, local_endpoint, local_model, provider_of,
}
use code_maintainer.Routing.Records.{list_capability_probes, record_egress_manifest}
use code_maintainer.Routing.Select.{
  capability_set_covers, data_classes_allowed, eligible_routes, estimate_cost_usd,
  fallback_preserves_trust, probe_error, remote_probe_error, route_less, sort_routes, trust_rank,
}
use code_maintainer.Routing.Tables.{
  get_endpoint_profile, get_model_profile, get_provider_profile, get_route_profile,
  list_endpoint_profiles, list_model_profiles, list_provider_profiles, list_route_profiles,
  upsert_endpoint_profile, upsert_model_profile, upsert_provider_profile, upsert_route_profile,
}
use code_maintainer.Scheduler.Order.{insert_all, insert_back, stable_sort}
use code_maintainer.Store.Tables.{required}

abbrev parse_any : String → Option Url
parse_any s =
    if has_prefix s "https://"
    then some (record {
      scheme = "https";
      host = "providers.invalid";
      hostname = "providers.invalid";
      has_user = false;
      raw_query = "";
      fragment = "";
    })
    else some (record {
      scheme = "http";
      host = "127.0.0.1:11438";
      hostname = "127.0.0.1";
      has_user = false;
      raw_query = "";
      fragment = "";
    })

abbrev pub parsers : Parsers
parsers = record {
  parse_url = parse_any;
  parse_ip = λ s. if s is "127.0.0.1" then some (127 ∷ 0 ∷ 0 ∷ 1 ∷ []) else none;
  float_of = λ n. pos_part n;
  float_less = λ a b. ltb a b;
  float_add = λ a b. a + b;
  float_mul = λ a b. if a == 0 || b == 0 then 0 else a + b;
  float_div = λ a b. if ltb a b then 0 else 1;
  float_text = λ a. "0.000000";
}

abbrev digest : String
digest = "00112233445566778899aabbccddeeff00112233445566778899aabbccddeeff"

abbrev pub env : RouteEnv
env = record {
  parsers = parsers;
  now = 1_000_000_000;
  new_id = λ prefix. prefix;
  fault = λ c. false;
  driver_text = λ c. "driver";
  manifest_digest = λ m. digest;
  text_digest = λ s. digest;
  sort_long = λ rs. rs;
}

abbrev pub new_catalog : Catalog
new_catalog = record {
  providers = [];
  endpoints = [];
  models = [];
  routes = [];
  manifests = [];
  probes = [];
}

abbrev pub local_request : RouteRequest
local_request = record {
  job_id = "";
  project_id = "owner-repo";
  role = "implementation";
  purpose = "implementation structured JSON";
  data_classes = "task_metadata" ∷ "candidate_diff" ∷ [];
  artifact_ids = [];
  estimated_bytes = pos 4096;
  estimated_tokens = pos 1024;
  requires_structured_output = true;
}

-- The catalogue once the defaults are stored.
abbrev pub seeded : Catalog
seeded = record new_catalog {
  providers = default_providers 1_000_000_000;
  endpoints = default_endpoints 1_000_000_000;
  models = default_models 1_000_000_000;
  routes = default_routes 1_000_000_000;
}

abbrev pub is_ok : {A : Type 0} → Reply A × Catalog → Bool
is_ok (ok a, c) = true
is_ok (err e, c) = false

abbrev pub value_or : {A : Type 0} → Reply A × Catalog → A → A
value_or (ok a, c) other = a
value_or (err e, c) other = other

pub is_ok-value :
    {A : Type 0} (r : Reply A × Catalog) (a : A) → is_ok r ≡ true → r ≡ (ok (value_or r a), r.1)
is_ok-value (ok b, c) a h = refl
is_ok-value (err e, c) a h = absurd (cc)

abbrev has_value : {A : Type 0} → Option A → Bool
has_value none = false
has_value (some a) = true

abbrev option_or : {A : Type 0} → Option A → A → A
option_or none other = other
option_or (some a) other = a

has_value-some : {A : Type 0} (o : Option A) (a : A) → has_value o ≡ true → o ≡ some (option_or o a)
has_value-some none a h = absurd (cc)
has_value-some (some b) a h = refl

abbrev no_decision : RouteDecision
no_decision = record {
  status = "";
  reason = "";
  choice = none;
  egress_manifest = deny_manifest local_request "" "";
}

abbrev local_run : Reply RouteDecision × Catalog
local_run = simulate_route env local_request seeded

abbrev local_decision : RouteDecision
local_decision = value_or local_run no_decision

-- A request of the local role is allowed.
local_allowed :
    (is_ok local_run && has_value local_decision.choice && local_decision.status is "allowed")
    ≡ true
unfolding ◌+ℤ◌ ◌-ℤ◌ is_alnum is_sha256 fraction_text stamp_before concat is_blank is_space
    capabilities_for_family endpoint_error endpoint_fields endpoint_url_error is_profile_id
    manifest_valid model_error model_fields provider_valid request_valid route_valid
    valid_data_class valid_network_zone valid_trust_tier default_routes ensure_defaults local_route
    remote_preview endpoint_host_is_private fold_code is_private_address default_endpoints
    default_models default_providers local_endpoint local_model provider_of list_capability_probes
    record_egress_manifest admit candidate consider is_below_floor is_over_cost raise_floor
    route_takes scan_models scan_route scan_routes trusted capability_set_covers
    data_classes_allowed eligible_routes estimate_cost_usd fallback_preserves_trust probe_error
    remote_probe_error route_less sort_routes trust_rank allow_manifest capability_summary choose
    deny_manifest forbidden_class hash_manifest load record_allowed record_denied retention_for
    route_checked settle_verdict simulate_route sorted_strings get_endpoint_profile
    get_model_profile get_provider_profile get_route_profile list_endpoint_profiles
    list_model_profiles list_provider_profiles list_route_profiles upsert_endpoint_profile
    upsert_model_profile upsert_provider_profile upsert_route_profile insert_all insert_back
    stable_sort required
local_allowed = refl

abbrev memory_request : RouteRequest
memory_request = record local_request {
  role = "documentation";
  data_classes = "memory_excerpt" ∷ [];
}

-- No route of the role takes the data class; a request with secrets is refused before a manifest is
-- recorded.
memory_denied :
    ((value_or (simulate_route env memory_request seeded) no_decision).status is "denied"
      && not (
          is_ok
            (simulate_route env (record local_request { data_classes = "secrets" ∷ [] }) seeded)))
    ≡ true
unfolding ◌+ℤ◌ ◌-ℤ◌ is_alnum is_sha256 fraction_text stamp_before concat is_blank is_space
    capabilities_for_family endpoint_error endpoint_fields endpoint_url_error is_profile_id
    manifest_valid model_error model_fields provider_valid request_valid route_valid
    valid_data_class valid_network_zone valid_trust_tier default_routes ensure_defaults local_route
    remote_preview endpoint_host_is_private fold_code is_private_address default_endpoints
    default_models default_providers local_endpoint local_model provider_of list_capability_probes
    record_egress_manifest admit candidate consider is_below_floor is_over_cost raise_floor
    route_takes scan_models scan_route scan_routes trusted capability_set_covers
    data_classes_allowed eligible_routes estimate_cost_usd fallback_preserves_trust probe_error
    remote_probe_error route_less sort_routes trust_rank allow_manifest capability_summary choose
    deny_manifest forbidden_class hash_manifest load record_allowed record_denied retention_for
    route_checked settle_verdict simulate_route sorted_strings get_endpoint_profile
    get_model_profile get_provider_profile get_route_profile list_endpoint_profiles
    list_model_profiles list_provider_profiles list_route_profiles upsert_endpoint_profile
    upsert_model_profile upsert_provider_profile upsert_route_profile insert_all insert_back
    stable_sort required
memory_denied = refl

local_ok : local_run ≡ (ok local_decision, local_run.1)
local_ok = is_ok-value local_run no_decision (ground (arith, local_allowed))

simulate_route_decides_example :
    (c1 : Catalog) × (l : Loaded) × (o : Option Choice) × (ensure_defaults env seeded ≡ (ok tt, c1))
    × (request_valid local_request ≡ true)
    × (load env c1 ≡ (ok l, c1))
    × (local_decision.choice ≡ o)
    × Decided env local_request c1 local_run.1 l local_decision o
simulate_route_decides_example =
    simulate_route_decides env local_request seeded local_run.1 local_decision local_ok

abbrev other_choice : Choice
other_choice = record {
  route = local_route 0 "" "" [];
  provider = provider_of 0 "" "" "" "" false false [] [];
  endpoint = local_endpoint 0;
  model = local_model 0;
}

abbrev local_choice : Choice
local_choice = option_or local_decision.choice other_choice

simulate_route-Safe_example : Safe env local_request seeded local_choice
simulate_route-Safe_example =
    simulate_route-Safe env local_request seeded local_run.1 local_decision local_choice
      (λ rs. perm_refl rs) local_ok
      (has_value-some local_decision.choice other_choice (ground (arith, local_allowed)))

simulate_route-unordered_example :
    simulate_route env (reordered local_request ("candidate_diff" ∷ "task_metadata" ∷ []) [])
    ≡ simulate_route env local_request
simulate_route-unordered_example =
    simulate_route-unordered env local_request (Permᴰ.swap refl refl) Permᴰ.nil
