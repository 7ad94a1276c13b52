-- ===== src/Tests/Streams.antt =====
-- internal/providers/stream.go: a stream of two records, and its report.
use code_maintainer.Base.{◌≡◌, refl, arith, String, true, false, none, some, List, [], ◌∷◌}
use code_maintainer.Base.Int.{pos}
use code_maintainer.Base.Text.{trim_space}
use code_maintainer.Providers.Json.{text, end, member, number}
use code_maintainer.Providers.Records.{
  done, split_lines, payload, line_record, line_records, some_records, stream_records,
}
use code_maintainer.Providers.Records.RoundTrip.{IsRecord, frames, stream_records-frames}
use code_maintainer.Providers.Events.{
  mentions, has_string_value, event_canceled, event_truncated, event_terminal, event_text_bytes,
  string_field, number_field, first_number, usage_from_map, event_usage, merge_usage,
}
use code_maintainer.Providers.ToolKeys.{object_key, own_keys, collect_tool_keys, event_tool_keys}
use code_maintainer.Providers.Stream
use code_maintainer.Providers.Stream.{
  Decoded, event, StreamReport, Parsed, reported, refused, parse_stream_events, settle_parse,
  add_chunks, add_chunk, add_records, add_decoded, add_event, add_text, add_tools, add_tool,
  add_truncated, add_usage, add_terminal, bounded, content_delta, done_step, usage_delta, push,
  new_parse,
}
use code_maintainer.Providers.Stream.Accounts.{Accounted}
use code_maintainer.Providers.Stream.Laws.{parse_stream_events_ok}

abbrev records : List String
records = "{\"text\": \"hi\"}" ∷ "[DONE]" ∷ []

first-IsRecord : IsRecord "{\"text\": \"hi\"}"
unfolding trim_space
first-IsRecord = record { nonempty = refl; trimmed = refl; whole = refl; fits = omega arith }

last-IsRecord : IsRecord "[DONE]"
unfolding trim_space
last-IsRecord = record { nonempty = refl; trimmed = refl; whole = refl; fits = omega arith }

stream_records-frames_example : stream_records (frames records) ≡ done records
stream_records-frames_example =
    stream_records-frames records (λ h. absurd (cc)) (first-IsRecord, (last-IsRecord, tt))

-- A decoder of the one event there is.
abbrev decode_hi : String → Decoded
decode_hi s = event (member "text" (text "hi") (member "prompt_tokens" (number (some (pos 7))) end))

abbrev report_hi : StreamReport
report_hi = record (new_parse "openai_responses").report {
  terminal = true;
  content_bytes = 2;
  partial_usage_events = 1;
  usage = record { input_tokens = pos 7; output_tokens = pos 0; total_tokens = pos 0 };
  events = content_delta 2 ∷ usage_delta ∷ done_step ∷ [];
}

parses :
    parse_stream_events decode_hi "openai_responses" (frames records ∷ []) ≡ reported report_hi none
unfolding parse_stream_events settle_parse add_chunks add_chunk Stream.add_records Stream.add_record
    add_decoded add_event add_text add_tools add_truncated add_usage add_terminal bounded
    event_canceled event_truncated event_terminal event_text_bytes mentions has_string_value
    string_field number_field first_number usage_from_map event_usage merge_usage object_key
    own_keys collect_tool_keys event_tool_keys stream_records some_records line_records line_record
    split_lines payload trim_space
parses = refl

parse_stream_events_ok_example :
    ((key : String) × Accounted key report_hi)
    × (report_hi.terminal ≡ true)
    × (report_hi.is_truncated ≡ false)
parse_stream_events_ok_example =
    parse_stream_events_ok decode_hi "openai_responses" (frames records ∷ []) report_hi parses
