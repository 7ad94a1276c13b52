-- ===== src/Routing/Presets.antt =====
-- internal/providers/types.go: the providers, endpoints and models of DefaultProfiles. A price is the
-- bit pattern of its float64.
use code_maintainer.Base.{ℕ, String, Bool, true, false, List, [], ◌∷◌}
use code_maintainer.Base.Int.{pos}
use code_maintainer.Base.Clock.{Time}
use code_maintainer.Routing.Profiles.{
  Float, CapabilitySet, ProviderProfile, EndpointProfile, ModelProfile,
}
use code_maintainer.Routing.Checks.{all_data_classes}
use code_maintainer.Routing.Adapters.{no_capabilities, capabilities_for_family}

unfoldable pub provider_of :
    Time
    → String
    → String
    → String
    → String
    → Bool
    → Bool
    → List String
    → List String
    → ProviderProfile
provider_of now id family name tier remote enabled classes assertions = record {
  id = id;
  schema_version = pos 1;
  interface_family = family;
  display_name = name;
  trust_tier = tier;
  remote = remote;
  enabled = enabled;
  approved_data_classes = classes;
  credential_ref = "";
  credential_configured = false;
  operator_assertions = assertions;
  version = pos 1;
  created_at = now;
  updated_at = now;
}

unfoldable pub default_providers : Time → List ProviderProfile
unfolding provider_of
default_providers now =
    (provider_of now "local-llamacpp" "local_llamacpp" "Local llama.cpp supervisor" "local" false
      true all_data_classes ("local-only supervisor profile" ∷ []))
    ∷ (provider_of now "fake-openai-responses" "openai_responses" "CI fake OpenAI Responses"
        "approved_private" true false ("task_metadata" ∷ "documentation_public_source" ∷ [])
        ("protocol fake for CI conformance only" ∷ []))
    ∷ (provider_of now "fake-openai-chat" "openai_chat_completions"
        "CI fake OpenAI Chat Completions" "approved_private" true false ("task_metadata" ∷ [])
        ("protocol fake for CI conformance only" ∷ []))
    ∷ (provider_of now "fake-openai-compatible" "openai_compatible"
        "CI fake OpenAI-compatible LAN gateway" "approved_private" true false ("task_metadata" ∷ [])
        ("protocol fake for CI conformance only" ∷ []))
    ∷ (provider_of now "fake-azure-openai" "azure_openai" "CI fake Azure OpenAI"
        "approved_enterprise" true false ("task_metadata" ∷ [])
        ("protocol fake for CI conformance only" ∷ []))
    ∷ (provider_of now "fake-anthropic-messages" "anthropic_messages" "CI fake Anthropic Messages"
        "approved_private" true false ("task_metadata" ∷ [])
        ("protocol fake for CI conformance only" ∷ []))
    ∷ (provider_of now "fake-gemini" "gemini_generate_content" "CI fake Gemini generateContent"
        "approved_private" true false ("task_metadata" ∷ [])
        ("protocol fake for CI conformance only" ∷ []))
    ∷ (provider_of now "fake-vertex-gemini" "vertex_gemini" "CI fake Vertex Gemini"
        "approved_enterprise" true false ("task_metadata" ∷ [])
        ("protocol fake for CI conformance only" ∷ []))
    ∷ (provider_of now "fake-bedrock" "bedrock_converse" "CI fake Bedrock Converse"
        "approved_private" true false ("task_metadata" ∷ [])
        ("protocol fake for CI conformance only" ∷ []))
    ∷ (provider_of now "fake-bedrock-responses" "bedrock_responses_compatible"
        "CI fake Bedrock Responses-compatible" "approved_private" true false ("task_metadata" ∷ [])
        ("protocol fake for CI conformance only" ∷ []))
    ∷ []

unfoldable pub local_endpoint : Time → EndpointProfile
local_endpoint now = record {
  id = "local-llamacpp-endpoint";
  provider_id = "local-llamacpp";
  base_url = "http://127.0.0.1:11438/v1";
  region = "";
  network_zone = "local";
  allow_private_address = true;
  tls_mode = "local_http";
  redirect_policy = "reject";
  dns_policy = "loopback_only";
  timeout_millis = pos 1_800_000;
  health_check_path = "/healthz";
  version = pos 1;
  created_at = now;
  updated_at = now;
}

fake_endpoint : Time → String → String → String → String → EndpointProfile
fake_endpoint now id provider url region = record {
  id = id;
  provider_id = provider;
  base_url = url;
  region = region;
  network_zone = "public_internet";
  allow_private_address = false;
  tls_mode = "verify";
  redirect_policy = "reject";
  dns_policy = "public_only";
  timeout_millis = pos 30_000;
  health_check_path = "/healthz";
  version = pos 1;
  created_at = now;
  updated_at = now;
}

unfoldable pub default_endpoints : Time → List EndpointProfile
unfolding local_endpoint fake_endpoint
default_endpoints now =
    local_endpoint now
    ∷ (fake_endpoint now "fake-openai-responses-endpoint" "fake-openai-responses"
        "https://providers.invalid/openai-responses" "")
    ∷ (fake_endpoint now "fake-openai-chat-endpoint" "fake-openai-chat"
        "https://providers.invalid/openai-chat" "")
    ∷ (fake_endpoint now "fake-openai-compatible-endpoint" "fake-openai-compatible"
        "https://providers.invalid/openai-compatible" "")
    ∷ (fake_endpoint now "fake-azure-openai-endpoint" "fake-azure-openai"
        "https://providers.invalid/azure-openai" "westeurope")
    ∷ (fake_endpoint now "fake-anthropic-endpoint" "fake-anthropic-messages"
        "https://providers.invalid/anthropic" "")
    ∷ (fake_endpoint now "fake-gemini-endpoint" "fake-gemini" "https://providers.invalid/gemini" "")
    ∷ (fake_endpoint now "fake-vertex-gemini-endpoint" "fake-vertex-gemini"
        "https://providers.invalid/vertex-gemini" "europe-west4")
    ∷ (fake_endpoint now "fake-bedrock-endpoint" "fake-bedrock" "https://providers.invalid/bedrock"
        "")
    ∷ (fake_endpoint now "fake-bedrock-responses-endpoint" "fake-bedrock-responses"
        "https://providers.invalid/bedrock-responses" "eu-central-1")
    ∷ []

unfoldable pub local_model : Time → ModelProfile
local_model now = record {
  id = "local-implementation";
  provider_id = "local-llamacpp";
  endpoint_id = "local-llamacpp-endpoint";
  model_id = "active";
  display_name = "Local active implementation model";
  role_eligibility = ("implementation" ∷ "repair" ∷ "qc" ∷ "test_designer" ∷ "documentation" ∷ []);
  capabilities = record no_capabilities {
    chat_completions = true;
    cancellation = true;
    structured_outputs = true;
    system_messages = true;
    usage_accounting = true;
    immutable_model_ids = true;
  };
  context_limit = pos 32_768;
  output_limit = pos 16_384;
  input_price_per_mtok = 0;
  output_price_per_mtok = 0;
  quality_status = "accepted_local_default";
  capability_override = false;
  override_reason = "";
  override_expires_at = 0;
  version = pos 1;
  created_at = now;
  updated_at = now;
}

fake_model :
    Time
    → String
    → String
    → String
    → String
    → String
    → CapabilitySet
    → ℕ
    → ℕ
    → Float
    → Float
    → ModelProfile
fake_model now id provider endpoint model_id name capabilities context output input_price
      output_price =
    record {
      id = id;
      provider_id = provider;
      endpoint_id = endpoint;
      model_id = model_id;
      display_name = name;
      role_eligibility =
          ("clarifier" ∷ "test_designer" ∷ "documentation" ∷ "qc" ∷ "summarization" ∷ "evaluation"
            ∷ []);
      capabilities = capabilities;
      context_limit = pos context;
      output_limit = pos output;
      input_price_per_mtok = input_price;
      output_price_per_mtok = output_price;
      quality_status = "ci_fake_only";
      capability_override = false;
      override_reason = "";
      override_expires_at = 0;
      version = pos 1;
      created_at = now;
      updated_at = now;
    }

unfoldable pub default_models : Time → List ModelProfile
unfolding local_model fake_model
default_models now =
    local_model now
    ∷ (fake_model now "fake-remote-json" "fake-openai-responses" "fake-openai-responses-endpoint"
        "fake-openai-responses-json-2026-07" "Fake remote structured JSON model"
        (record no_capabilities {
          responses_api = true;
          streaming = true;
          cancellation = true;
          structured_outputs = true;
          tool_calls = true;
          stable_tool_call_ids = true;
          system_messages = true;
          developer_messages = true;
          usage_accounting = true;
          prompt_caching = true;
          batch = true;
          asynchronous = true;
          model_listing = true;
          immutable_model_ids = true;
        })
        128000 16384 4611686018427387904 4620693217682128896)
    ∷ (fake_model now "fake-openai-chat-json" "fake-openai-chat" "fake-openai-chat-endpoint"
        "fake-openai-chat-json-2026-07" "Fake OpenAI Chat JSON model"
        (capabilities_for_family "openai_chat_completions") 128000 16384 4611686018427387904
        4620693217682128896)
    ∷ (fake_model now "fake-openai-compatible-json" "fake-openai-compatible"
        "fake-openai-compatible-endpoint" "fake-compatible-json-2026-07"
        "Fake OpenAI-compatible JSON model" (capabilities_for_family "openai_compatible") 128000
        16384 0 0)
    ∷ (fake_model now "fake-azure-json" "fake-azure-openai" "fake-azure-openai-endpoint"
        "deployment/fake-json-2026-07" "Fake Azure OpenAI JSON deployment"
        (capabilities_for_family "azure_openai") 128000 16384 4611686018427387904
        4620693217682128896)
    ∷ (fake_model now "fake-anthropic-json" "fake-anthropic-messages" "fake-anthropic-endpoint"
        "fake-claude-json-2026-07" "Fake Anthropic Messages JSON model"
        (capabilities_for_family "anthropic_messages") 200000 16384 4613937818241073152
        4624633867356078080)
    ∷ (fake_model now "fake-gemini-json" "fake-gemini" "fake-gemini-endpoint"
        "fake-gemini-json-2026-07" "Fake Gemini JSON model"
        (capabilities_for_family "gemini_generate_content") 1000000 8192 4608308318706860032
        4617315517961601024)
    ∷ (fake_model now "fake-vertex-gemini-json" "fake-vertex-gemini" "fake-vertex-gemini-endpoint"
        "publishers/google/models/fake-gemini-json-2026-07" "Fake Vertex Gemini JSON model"
        (capabilities_for_family "vertex_gemini") 1000000 8192 4608308318706860032
        4617315517961601024)
    ∷ (fake_model now "fake-bedrock-json" "fake-bedrock" "fake-bedrock-endpoint"
        "bedrock/fake-converse-json-2026-07" "Fake Bedrock Converse JSON model"
        (capabilities_for_family "bedrock_converse") 200000 8192 4613937818241073152
        4624633867356078080)
    ∷ (fake_model now "fake-bedrock-responses-json" "fake-bedrock-responses"
        "fake-bedrock-responses-endpoint" "bedrock/fake-responses-json-2026-07"
        "Fake Bedrock Responses-compatible JSON model"
        (capabilities_for_family "bedrock_responses_compatible") 200000 8192 4613937818241073152
        4624633867356078080)
    ∷ []
