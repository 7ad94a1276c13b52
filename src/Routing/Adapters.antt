-- ===== src/Routing/Adapters.antt =====
-- internal/providers/adapters.go: what the fake adapters of the interface families answer.
use code_maintainer.Base.{
  ◌+◌, String, true, false, not, ◌&&◌, ◌||◌, none, some, ◌is◌, if◌then◌else◌,
}
use code_maintainer.Base.Int.{ℤ, pos}
use code_maintainer.Base.Text.{append, byte_len}
use code_maintainer.Routing.Profiles.{CapabilitySet, ProviderProfile, EndpointProfile, ModelProfile}
use code_maintainer.Routing.Checks.{endpoint_error, model_error}
use code_maintainer.Routing.Catalog.{RouteEnv}

abbrev pub no_capabilities : CapabilitySet
no_capabilities = record {
  responses_api = false;
  chat_completions = false;
  streaming = false;
  cancellation = false;
  structured_outputs = false;
  tool_calls = false;
  parallel_tool_calls = false;
  stable_tool_call_ids = false;
  system_messages = false;
  developer_messages = false;
  usage_accounting = false;
  reasoning_controls = false;
  prompt_caching = false;
  batch = false;
  asynchronous = false;
  model_listing = false;
  immutable_model_ids = false;
}

unfoldable pub capabilities_for_family : String → CapabilitySet
capabilities_for_family family =
    if family is "local_llamacpp"
    then record no_capabilities {
      chat_completions = true;
      streaming = true;
      cancellation = true;
      structured_outputs = true;
      system_messages = true;
      usage_accounting = true;
      immutable_model_ids = true;
    }
    else if family is "openai_responses"
    then record no_capabilities {
      responses_api = true;
      streaming = true;
      cancellation = true;
      structured_outputs = true;
      tool_calls = true;
      parallel_tool_calls = true;
      stable_tool_call_ids = true;
      system_messages = true;
      developer_messages = true;
      usage_accounting = true;
      reasoning_controls = true;
      prompt_caching = true;
      batch = true;
      asynchronous = true;
      model_listing = true;
      immutable_model_ids = true;
    }
    else if family is "openai_chat_completions" || family is "openai_compatible"
    then record no_capabilities {
      chat_completions = true;
      streaming = true;
      cancellation = true;
      structured_outputs = true;
      tool_calls = true;
      stable_tool_call_ids = true;
      system_messages = true;
      usage_accounting = true;
      model_listing = true;
      immutable_model_ids = true;
    }
    else if family is "azure_openai"
    then record no_capabilities {
      responses_api = true;
      chat_completions = true;
      streaming = true;
      cancellation = true;
      structured_outputs = true;
      tool_calls = true;
      stable_tool_call_ids = true;
      system_messages = true;
      developer_messages = true;
      usage_accounting = true;
      reasoning_controls = true;
      prompt_caching = true;
      batch = true;
      asynchronous = true;
      model_listing = true;
      immutable_model_ids = true;
    }
    else if family is "anthropic_messages"
    then record no_capabilities {
      streaming = true;
      cancellation = true;
      structured_outputs = true;
      tool_calls = true;
      parallel_tool_calls = true;
      stable_tool_call_ids = true;
      system_messages = true;
      usage_accounting = true;
      reasoning_controls = true;
      prompt_caching = true;
      batch = true;
      asynchronous = true;
      model_listing = true;
      immutable_model_ids = true;
    }
    else if family is "gemini_generate_content" || family is "vertex_gemini"
    then record no_capabilities {
      streaming = true;
      cancellation = true;
      structured_outputs = true;
      tool_calls = true;
      stable_tool_call_ids = true;
      system_messages = true;
      usage_accounting = true;
      reasoning_controls = true;
      prompt_caching = true;
      batch = true;
      asynchronous = true;
      model_listing = true;
      immutable_model_ids = true;
    }
    else if family is "bedrock_converse"
    then record no_capabilities {
      streaming = true;
      cancellation = true;
      structured_outputs = true;
      tool_calls = true;
      stable_tool_call_ids = true;
      system_messages = true;
      usage_accounting = true;
      reasoning_controls = true;
      batch = true;
      asynchronous = true;
      model_listing = true;
      immutable_model_ids = true;
    }
    else if family is "bedrock_responses_compatible"
    then record no_capabilities {
      responses_api = true;
      streaming = true;
      cancellation = true;
      structured_outputs = true;
      tool_calls = true;
      stable_tool_call_ids = true;
      system_messages = true;
      developer_messages = true;
      usage_accounting = true;
      reasoning_controls = true;
      batch = true;
      asynchronous = true;
      model_listing = true;
      immutable_model_ids = true;
    }
    else no_capabilities

unfoldable pub native_shape_for_family : String → String
native_shape_for_family family =
    if family is "openai_responses"
    then "openai.responses.create"
    else if family is "openai_chat_completions" || family is "openai_compatible"
    then "openai.chat.completions.create"
    else if family is "azure_openai"
    then "azure.openai.deployment.responses_or_chat"
    else if family is "anthropic_messages"
    then "anthropic.messages.create"
    else if family is "gemini_generate_content"
    then "google.generativeai.generateContent"
    else if family is "vertex_gemini"
    then "vertexai.generateContent"
    else if family is "bedrock_converse"
    then "bedrock.converse"
    else if family is "bedrock_responses_compatible"
    then "bedrock.responses_compatible"
    else "local.llamacpp.openai_compatible_chat"

unfoldable pub request_shape_for_family : String → String
request_shape_for_family family =
    append "codemaintainer/provider-probe-request/" (append family "/schema-v1")

unfoldable pub response_shape_for_family : String → String
response_shape_for_family family =
    append "codemaintainer/provider-probe-response/" (append family "/schema-v1")

pub record ProbeObservation : Type 0 where
  pub observed_model_id : String
  pub native_api_shape : String
  pub capabilities : CapabilitySet
  pub request_schema_sha256 : String
  pub response_schema_sha256 : String
  pub latency_millis : ℤ

-- What a probe gives: an observation, or the text of its error.
pub data Probed : Type 0 where
  observed : ProbeObservation → Probed
  failed : String → Probed

abbrev pub answer_of : RouteEnv → String → String → ProbeObservation
answer_of env family model_id = record {
  observed_model_id = model_id;
  native_api_shape = native_shape_for_family family;
  capabilities = capabilities_for_family family;
  request_schema_sha256 = env.text_digest (request_shape_for_family family);
  response_schema_sha256 = env.text_digest (response_shape_for_family family);
  latency_millis = pos (10 + byte_len family);
}

-- fakeAdapter.Probe, in a context that is not over.
unfoldable pub probe_fake :
    RouteEnv → String → ProviderProfile → EndpointProfile → ModelProfile → Probed
probe_fake env family p e m =
    if not (p.interface_family is family && m.provider_id is p.id && m.endpoint_id is e.id)
    then failed "provider, endpoint, and model do not match adapter family"
    else elim (endpoint_error env.parsers e p) [
      | some text ↦ failed text
      | none ↦ elim (model_error env.parsers m p e) [
        | some text ↦ failed text
        | none ↦ observed (answer_of env family m.model_id)
      ]
    ]
