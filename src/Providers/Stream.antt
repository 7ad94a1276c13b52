-- ===== src/Providers/Stream.antt =====
-- internal/providers/stream.go: ParseStreamEvents, which checks a recorded stream and reports what
-- it holds. Decoding a record is the call of encoding/json, and an argument.
pub mod Accounts
pub mod Sound
pub mod Laws
use code_maintainer.Base.{
  ℕ, zero, suc, ◌+◌, ◌*◌, String, Bool, true, false, not, ◌&&◌, ◌||◌, Option, none, some, List, [],
  ◌∷◌, ◌++◌, length, any, ltb, ◌==◌, ◌is◌, if◌then◌else◌,
}
use code_maintainer.Base.Int.{pos}
use code_maintainer.Base.Text.{is_empty, byte_len}
use code_maintainer.Scheduler.Types.{one_of}
use code_maintainer.Providers.Json.{Value, object, Members}
use code_maintainer.Providers.Records.{
  StreamError, Outcome, done, failed, bad_family, bad_chunk_count, bad_chunk, not_json,
  trailing_data, oversized_content, interleaved_tools, too_many_tools, too_many_events, truncated,
  unfinished, max_stream_chunk_bytes, stream_records,
}
use code_maintainer.Providers.Events.{
  StreamUsage, event_canceled, event_truncated, event_terminal, event_text_bytes, event_usage,
  merge_usage,
}
use code_maintainer.Providers.ToolKeys.{event_tool_keys}

-- MaxStreamChunks, MaxStreamContentBytes, MaxStreamToolCalls
abbrev pub max_stream_chunks : ℕ
max_stream_chunks = 4096

abbrev pub max_stream_content_bytes : ℕ
max_stream_content_bytes = 1024 * 1024

abbrev pub max_stream_tool_calls : ℕ
max_stream_tool_calls = 32

-- What the decoder makes of a record: an object, no JSON object, or more than one value.
pub data Decoded : Type 0 where
  event : Members → Decoded
  no_event : Decoded
  more_data : Decoded

-- StreamStep, by its type
pub data Step : Type 0 where
  done_step canceled_step usage_delta : Step
  content_delta : ℕ → Step
  tool_call_delta : String → Step

pub record StreamReport : Type 0 where
  pub family : String
  pub terminal : Bool
  pub canceled : Bool
  pub is_truncated : Bool
  pub content_bytes : ℕ
  pub tool_call_deltas : ℕ
  pub partial_usage_events : ℕ
  pub usage : StreamUsage
  pub events : List Step

-- The report so far, and the tool calls that were met.
pub record Parse : Type 0 where
  pub report : StreamReport
  pub active_tool_key : String
  pub tool_keys : List String

infixl 5 ◌then_parse◌
abbrev pub ◌then_parse◌ {ℓ κ} : {A : Type ℓ} {B : Type κ} → Outcome A → (A → Outcome B) → Outcome B
m then_parse f = elim m [ done a ↦ f a | failed e ↦ failed e ]

-- `report.Events = append(report.Events, step)`
abbrev pub push : Step → StreamReport → StreamReport
push s r = record r { events = r.events ++ (s ∷ []) }

abbrev pub finish : Parse → Parse
finish p = record p { report = push done_step (record p.report { terminal = true }) }

abbrev pub cancel : Parse → Parse
cancel p = record p {
  report = push canceled_step (record p.report { terminal = true; canceled = true });
}

unfoldable pub add_truncated : Value → Parse → Parse
add_truncated raw p =
    if event_truncated raw then record p { report = record p.report { is_truncated = true } } else p

unfoldable pub add_text : Value → Parse → Outcome Parse
add_text raw p =
    let bytes = event_text_bytes raw in
    let total = p.report.content_bytes + bytes in
    if ltb 0 bytes
    then (if ltb max_stream_content_bytes total
        then failed oversized_content
        else done (record p {
          report = push (content_delta bytes) (record p.report { content_bytes = total });
        }))
    else done p

-- `toolKeys[key] = struct{}{}`
abbrev pub add_key : String → List String → List String
add_key k ks = if any (λ l. l is k) ks then ks else k ∷ ks

abbrev pub tool_delta : String → Parse → Parse
tool_delta k p = record p {
  report =
      push (tool_call_delta k)
        (record p.report { tool_call_deltas = p.report.tool_call_deltas + 1 });
  active_tool_key = k;
  tool_keys = add_key k p.tool_keys;
}

unfoldable pub add_tool : String → Parse → Outcome Parse
add_tool k p =
    if not (is_empty p.active_tool_key) && not (p.active_tool_key is k)
    then failed interleaved_tools
    else if ltb max_stream_tool_calls (length (add_key k p.tool_keys))
    then failed too_many_tools
    else done (tool_delta k p)

unfoldable pub add_tools : List String → Parse → Outcome Parse
unfolding add_tool
add_tools [] p = done p
add_tools (k ∷ ks) p = add_tool k p then_parse λ q. add_tools ks q

unfoldable pub add_usage : Option StreamUsage → Parse → Parse
add_usage none p = p
add_usage (some u) p = record p {
  report = push usage_delta (record p.report {
    partial_usage_events = p.report.partial_usage_events + 1;
    usage = merge_usage p.report.usage u;
  });
}

unfoldable pub add_terminal : Value → Parse → Parse
add_terminal raw p = if event_terminal raw then finish p else p

unfoldable pub bounded : Parse → Outcome Parse
bounded p =
    if ltb max_stream_chunks (length p.report.events) then failed too_many_events else done p

-- One event.
unfoldable pub add_event : Value → Parse → Outcome Parse
unfolding bounded add_terminal
add_event raw p =
    if event_canceled raw
    then done (cancel p)
    else (add_text raw (add_truncated raw p)
        then_parse (λ q. add_tools (event_tool_keys raw) q)
        then_parse (λ q. bounded (add_terminal raw (add_usage (event_usage raw) q))))

unfoldable pub add_decoded : Decoded → Parse → Outcome Parse
add_decoded (event ms) p = add_event (object ms) p
add_decoded no_event p = failed not_json
add_decoded more_data p = failed trailing_data

module _ (decode : String → Decoded) where
  -- One record.
  unfoldable pub add_record : String → Parse → Outcome Parse
  add_record r p = if r is "[DONE]" then done (finish p) else add_decoded (decode r) p

  unfoldable pub add_records : List String → Parse → Outcome Parse
  unfolding add_record
  add_records [] p = done p
  add_records (r ∷ rs) p = add_record r p then_parse λ q. add_records rs q

  unfoldable pub add_chunk : String → Parse → Outcome Parse
  add_chunk c p =
      if byte_len c == 0 || ltb max_stream_chunk_bytes (byte_len c)
      then failed bad_chunk
      else (stream_records c then_parse λ rs. add_records rs p)

  unfoldable pub add_chunks : List String → Parse → Outcome Parse
  unfolding add_chunk
  add_chunks [] p = done p
  add_chunks (c ∷ cs) p = add_chunk c p then_parse λ q. add_chunks cs q

abbrev pub new_parse : String → Parse
new_parse family = record {
  report = record {
    family = family;
    terminal = false;
    canceled = false;
    is_truncated = false;
    content_bytes = 0;
    tool_call_deltas = 0;
    partial_usage_events = 0;
    usage = record { input_tokens = pos 0; output_tokens = pos 0; total_tokens = pos 0 };
    events = [];
  };
  active_tool_key = "";
  tool_keys = [];
}

-- RequiredFamilies
abbrev pub required_families : List String
required_families =
    "local_llamacpp" ∷ "openai_responses" ∷ "openai_chat_completions" ∷ "openai_compatible"
    ∷ "azure_openai" ∷ "anthropic_messages" ∷ "gemini_generate_content" ∷ "vertex_gemini"
    ∷ "bedrock_converse" ∷ "bedrock_responses_compatible" ∷ []

-- validFamily
abbrev pub valid_family : String → Bool
valid_family family = one_of required_families family

-- A report, with the error of a stream that was cut off or has no end; or no report.
pub data Parsed : Type 0 where
  reported : StreamReport → Option StreamError → Parsed
  refused : StreamError → Parsed

unfoldable pub settle_parse : Outcome Parse → Parsed
settle_parse (failed e) = refused e
settle_parse (done p) =
    if p.report.is_truncated
    then reported p.report (some truncated)
    else if not p.report.terminal
    then reported p.report (some unfinished)
    else reported p.report none

-- ParseStreamEvents
unfoldable pub parse_stream_events : (String → Decoded) → String → List String → Parsed
parse_stream_events decode family chunks =
    if not (valid_family family)
    then refused bad_family
    else if length chunks == 0 || ltb max_stream_chunks (length chunks)
    then refused bad_chunk_count
    else settle_parse (add_chunks decode chunks (new_parse family))
