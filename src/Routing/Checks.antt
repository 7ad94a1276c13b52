-- ===== src/Routing/Checks.antt =====
-- internal/providers/types.go: the Validate methods.
use code_maintainer.Base.{
  ℕ, String, Bool, true, false, not, ◌&&◌, ◌||◌, Option, none, some, List, [], ◌∷◌, all, leb,
  length, ◌==◌, ◌is◌, if◌then◌else◌,
}
use code_maintainer.Base.Int.{ℤ, pos, leb_ℤ, eqb_ℤ}
use code_maintainer.Base.Text.{codes, is_blank, is_empty, byte_len}
use code_maintainer.Base.Patterns.{is_alnum, is_sha256}
use code_maintainer.Base.Clock.{is_zero}
use code_maintainer.Scheduler.Types.{one_of}
use code_maintainer.Providers.Stream.{valid_family}
use code_maintainer.Routing.Parsers.{Url, Parsers, endpoint_host_is_private}
use code_maintainer.Routing.Profiles.{
  Float, CapabilityProbe, ProviderProfile, EndpointProfile, ModelProfile, RouteProfile,
  EgressManifest, RouteRequest,
}

is_route_tail : ℕ → Bool
is_route_tail c = is_alnum c || c == b'.' || c == b'_' || c == b':' || c == b'-'

route_id_codes : List ℕ → Bool
unfolding is_route_tail
route_id_codes [] = false
route_id_codes (c ∷ cs) = is_alnum c && all is_route_tail cs && leb (length cs) 127

-- The pattern `^[A-Za-z0-9][A-Za-z0-9._:-]{0,127}$`, the safeID of this package.
unfoldable pub is_profile_id : String → Bool
unfolding is_alnum is_route_tail route_id_codes
is_profile_id s = route_id_codes (codes s)

-- An id that may be left out.
abbrev pub optional_profile_id : String → Bool
optional_profile_id s = is_empty s || is_profile_id s

-- A text that is not blank, of at most so many bytes.
abbrev pub short_text : ℕ → String → Bool
short_text most s = not (is_blank s) && leb (byte_len s) most

abbrev pub between : ℕ → ℤ → ℕ → Bool
between low n high = leb_ℤ (pos low) n && leb_ℤ n (pos high)

unfoldable pub valid_trust_tier : String → Bool
valid_trust_tier s =
    one_of ("local" ∷ "approved_private" ∷ "approved_enterprise" ∷ "public_remote" ∷ []) s

unfoldable pub valid_network_zone : String → Bool
valid_network_zone s =
    one_of ("local" ∷ "lan_private" ∷ "enterprise_private" ∷ "public_internet" ∷ []) s

abbrev pub all_data_classes : List String
all_data_classes =
    "task_metadata" ∷ "documentation_public_source" ∷ "selected_symbols_tests" ∷ "candidate_diff"
    ∷ "context_packet" ∷ "memory_excerpt" ∷ "security_findings" ∷ "sbom_data" ∷ "logs_artifacts"
    ∷ []

unfoldable pub valid_data_class : String → Bool
valid_data_class s = one_of all_data_classes s

-- An error text that a check gave.
abbrev pub refused : Option String → Bool
refused none = false
refused (some text) = true

-- ProviderProfile.Validate
unfoldable pub provider_valid : ProviderProfile → Bool
provider_valid p =
    eqb_ℤ p.schema_version (pos 1)
    && is_profile_id p.id
    && valid_family p.interface_family
    && short_text 160 p.display_name
    && valid_trust_tier p.trust_tier
    && leb 1 (length p.approved_data_classes)
    && leb (length p.approved_data_classes) 16
    && leb_ℤ (pos 0) p.version
    && all valid_data_class p.approved_data_classes
    && optional_profile_id p.credential_ref
    && all (short_text 500) p.operator_assertions

-- The checks of the fields of an endpoint.
unfoldable pub endpoint_fields : EndpointProfile → ProviderProfile → Bool
endpoint_fields e p =
    is_profile_id e.id
    && e.provider_id is p.id
    && valid_network_zone e.network_zone
    && one_of ("verify" ∷ "custom_ca" ∷ "mtls" ∷ "local_http" ∷ []) e.tls_mode
    && e.redirect_policy is "reject"
    && one_of ("public_only" ∷ "private_allowed" ∷ "loopback_only" ∷ []) e.dns_policy
    && between 1000 e.timeout_millis 1_800_000
    && leb_ℤ (pos 0) e.version

-- What its parsed URL is refused for.
unfoldable pub endpoint_url_error :
    Parsers → EndpointProfile → ProviderProfile → Url → Option String
endpoint_url_error parsers e p u =
    if is_empty u.host || u.has_user || not (is_empty u.raw_query) || not (is_empty u.fragment)
    then some "endpoint base URL is invalid"
    else if p.remote && (not (u.scheme is "https") || e.tls_mode is "local_http")
    then some "remote endpoints require HTTPS with certificate verification"
    else if not p.remote && not (u.scheme is "http") && not (u.scheme is "https")
    then some "local endpoint URL scheme is invalid"
    else if not e.allow_private_address && endpoint_host_is_private parsers u.hostname
    then some "endpoint profile rejects private, loopback, link-local, and metadata addresses"
    else if e.network_zone is "public_internet" && endpoint_host_is_private parsers u.hostname
    then some "public endpoint profile cannot target private addresses"
    else none

-- EndpointProfile.Validate: the text of its error.
unfoldable pub endpoint_error : Parsers → EndpointProfile → ProviderProfile → Option String
endpoint_error parsers e p =
    if not (endpoint_fields e p)
    then some "endpoint profile is invalid"
    else elim (parsers.parse_url e.base_url) [
      | none ↦ some "endpoint base URL is invalid"
      | some u ↦ endpoint_url_error parsers e p u
    ]

-- A price is not below zero.
abbrev pub price_valid : Parsers → Float → Bool
price_valid parsers price = not (parsers.float_less price (parsers.float_of (pos 0)))

-- The checks of the fields of a model.
unfoldable pub model_fields : Parsers → ModelProfile → ProviderProfile → EndpointProfile → Bool
model_fields parsers m p e =
    is_profile_id m.id
    && m.provider_id is p.id
    && m.endpoint_id is e.id
    && short_text 200 m.model_id
    && not (is_blank m.display_name)
    && leb 1 (length m.role_eligibility)
    && leb (length m.role_eligibility) 16
    && between 1024 m.context_limit 4_000_000
    && leb_ℤ (pos 1) m.output_limit
    && leb_ℤ m.output_limit m.context_limit
    && price_valid parsers m.input_price_per_mtok
    && price_valid parsers m.output_price_per_mtok
    && one_of ("accepted_local_default" ∷ "ci_fake_only" ∷ "experimental" ∷ "accepted" ∷ [])
        m.quality_status
    && leb_ℤ (pos 0) m.version

-- ModelProfile.Validate: the text of its error.
unfoldable pub model_error :
    Parsers → ModelProfile → ProviderProfile → EndpointProfile → Option String
model_error parsers m p e =
    if not (model_fields parsers m p e)
    then some "model profile is invalid"
    else if m.capability_override && (is_blank m.override_reason || is_zero m.override_expires_at)
    then some "model capability override requires reason and expiry"
    else if not (all is_profile_id m.role_eligibility)
    then some "model role eligibility is invalid"
    else none

-- RouteProfile.Validate
unfoldable pub route_valid : Parsers → RouteProfile → Bool
route_valid parsers r =
    is_profile_id r.id
    && is_profile_id r.role
    && one_of ("local_first" ∷ "remote_when_policy_allows" ∷ "measured_hybrid" ∷ []) r.preference
    && leb 1 (length r.ordered_model_ids)
    && leb (length r.ordered_model_ids) 32
    && leb 1 (length r.allowed_data_classes)
    && between 1 r.max_tokens_per_request 4_000_000
    && price_valid parsers r.max_cost_usd
    && between 0 r.retry_budget 10
    && one_of ("none" ∷ "same_trust_or_stricter" ∷ "explicit_same_or_higher_trust_only" ∷ [])
        r.fallback_policy
    && one_of ("disabled" ∷ "project_isolated" ∷ []) r.batch_policy
    && leb_ℤ (pos 0) r.version
    && all is_profile_id r.ordered_model_ids
    && all valid_data_class r.allowed_data_classes

-- EgressManifest.Validate
unfoldable pub manifest_valid : EgressManifest → Bool
manifest_valid m =
    optional_profile_id m.job_id
    && is_profile_id m.project_id
    && is_profile_id m.route_id
    && is_profile_id m.provider_id
    && is_profile_id m.endpoint_id
    && is_profile_id m.model_profile_id
    && short_text 500 m.purpose
    && leb 1 (length m.data_classes)
    && leb (length m.data_classes) 16
    && between 0 m.estimated_bytes 134_217_728
    && between 0 m.estimated_tokens 4_000_000
    && not (is_blank m.retention)
    && one_of ("allowed" ∷ "denied" ∷ []) m.policy_decision
    && short_text 1000 m.decision_reason
    && is_sha256 m.manifest_sha256
    && all valid_data_class m.data_classes
    && all is_profile_id m.artifact_ids
    && all (short_text 200) m.redactions

-- CapabilityProbe.Validate
unfoldable pub probe_valid : CapabilityProbe → Bool
probe_valid p =
    is_profile_id p.provider_id
    && is_profile_id p.endpoint_id
    && is_profile_id p.model_profile_id
    && valid_family p.interface_family
    && one_of ("passed" ∷ "failed" ∷ []) p.status
    && short_text 200 p.observed_model_id
    && short_text 200 p.native_api_shape
    && is_sha256 p.request_schema_sha256
    && is_sha256 p.response_schema_sha256
    && between 0 p.latency_millis 3_600_000
    && not (is_blank p.actor_id)
    && leb (length p.errors) 32
    && optional_profile_id p.id
    && all (short_text 1000) p.errors

-- RouteRequest.Validate
unfoldable pub request_valid : RouteRequest → Bool
request_valid r =
    optional_profile_id r.job_id
    && is_profile_id r.project_id
    && is_profile_id r.role
    && short_text 500 r.purpose
    && leb 1 (length r.data_classes)
    && between 0 r.estimated_bytes 134_217_728
    && between 0 r.estimated_tokens 4_000_000
    && all valid_data_class r.data_classes
    && all is_profile_id r.artifact_ids
