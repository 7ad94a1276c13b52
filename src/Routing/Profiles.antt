-- ===== src/Routing/Profiles.antt =====
-- internal/providers/types.go: the records of the provider catalogue. A float64 is its bit pattern.
use code_maintainer.Base.{String, Bool, List, ℕ}
use code_maintainer.Base.Int.{ℤ}
use code_maintainer.Base.Clock.{Time}

-- float64
abbrev pub Float : Type 0
Float = ℕ

pub record CapabilitySet : Type 0 where
  pub responses_api : Bool
  pub chat_completions : Bool
  pub streaming : Bool
  pub cancellation : Bool
  pub structured_outputs : Bool
  pub tool_calls : Bool
  pub parallel_tool_calls : Bool
  pub stable_tool_call_ids : Bool
  pub system_messages : Bool
  pub developer_messages : Bool
  pub usage_accounting : Bool
  pub reasoning_controls : Bool
  pub prompt_caching : Bool
  pub batch : Bool
  pub asynchronous : Bool
  pub model_listing : Bool
  pub immutable_model_ids : Bool

pub record CapabilityProbe : Type 0 where
  pub id : String
  pub provider_id : String
  pub endpoint_id : String
  pub model_profile_id : String
  pub interface_family : String
  pub status : String
  pub observed_model_id : String
  pub native_api_shape : String
  pub capabilities : CapabilitySet
  pub request_schema_sha256 : String
  pub response_schema_sha256 : String
  pub latency_millis : ℤ
  pub errors : List String
  pub actor_id : String
  pub created_at : Time

pub record ProviderProfile : Type 0 where
  pub id : String
  pub schema_version : ℤ
  pub interface_family : String
  pub display_name : String
  pub trust_tier : String
  pub remote : Bool
  pub enabled : Bool
  pub approved_data_classes : List String
  pub credential_ref : String
  pub credential_configured : Bool
  pub operator_assertions : List String
  pub version : ℤ
  pub created_at : Time
  pub updated_at : Time

pub record EndpointProfile : Type 0 where
  pub id : String
  pub provider_id : String
  pub base_url : String
  pub region : String
  pub network_zone : String
  pub allow_private_address : Bool
  pub tls_mode : String
  pub redirect_policy : String
  pub dns_policy : String
  pub timeout_millis : ℤ
  pub health_check_path : String
  pub version : ℤ
  pub created_at : Time
  pub updated_at : Time

pub record ModelProfile : Type 0 where
  pub id : String
  pub provider_id : String
  pub endpoint_id : String
  pub model_id : String
  pub display_name : String
  pub role_eligibility : List String
  pub capabilities : CapabilitySet
  pub context_limit : ℤ
  pub output_limit : ℤ
  pub input_price_per_mtok : Float
  pub output_price_per_mtok : Float
  pub quality_status : String
  pub capability_override : Bool
  pub override_reason : String
  pub override_expires_at : Time
  pub version : ℤ
  pub created_at : Time
  pub updated_at : Time

pub record RouteProfile : Type 0 where
  pub id : String
  pub role : String
  pub preference : String
  pub ordered_model_ids : List String
  pub allowed_data_classes : List String
  pub max_tokens_per_request : ℤ
  pub max_cost_usd : Float
  pub retry_budget : ℤ
  pub fallback_policy : String
  pub batch_policy : String
  pub enabled : Bool
  pub version : ℤ
  pub created_at : Time
  pub updated_at : Time

pub record EgressManifest : Type 0 where
  pub id : String
  pub job_id : String
  pub project_id : String
  pub route_id : String
  pub provider_id : String
  pub endpoint_id : String
  pub model_profile_id : String
  pub purpose : String
  pub data_classes : List String
  pub artifact_ids : List String
  pub redactions : List String
  pub estimated_bytes : ℤ
  pub estimated_tokens : ℤ
  pub retention : String
  pub policy_decision : String
  pub decision_reason : String
  pub manifest_sha256 : String
  pub created_at : Time

pub record RouteRequest : Type 0 where
  pub job_id : String
  pub project_id : String
  pub role : String
  pub purpose : String
  pub data_classes : List String
  pub artifact_ids : List String
  pub estimated_bytes : ℤ
  pub estimated_tokens : ℤ
  pub requires_structured_output : Bool

pub record UpdateProviderRequest : Type 0 where
  pub expected_version : ℤ
  pub reason : String
  pub profile : ProviderProfile

pub record UpdateEndpointRequest : Type 0 where
  pub expected_version : ℤ
  pub reason : String
  pub profile : EndpointProfile

pub record UpdateModelRequest : Type 0 where
  pub expected_version : ℤ
  pub reason : String
  pub profile : ModelProfile

pub record UpdateRouteRequest : Type 0 where
  pub expected_version : ℤ
  pub reason : String
  pub profile : RouteProfile
  pub remote_egress_approved : Bool
  pub remote_egress_approval_summary : String
