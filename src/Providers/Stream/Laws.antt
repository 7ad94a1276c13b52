-- ===== src/Providers/Stream/Laws.antt =====
-- internal/providers/stream.go: what ParseStreamEvents reports of a stream.
use code_maintainer.Base.{
  ◌≡◌, ◌≢◌, refl, subst, String, Bool, true, false, not, ◌||◌, Option, none, some, List, [], ◌∷◌,
  length, arith, ltb, ◌==◌, Bool-cases, inl, inr, ◌is◌, if◌then◌else◌,
}
use code_maintainer.Base.Text.{byte_len, trim_space}
use code_maintainer.Providers.Records
use code_maintainer.Providers.Records.{
  StreamError, Outcome, done, failed, too_many_tools, truncated, unfinished, max_stream_chunk_bytes,
  line_record, line_records, split_lines, some_records, stream_records,
}
use code_maintainer.Providers.Stream.{
  Decoded, StreamReport, Parse, ◌then_parse◌, add_record, add_records, add_chunk, add_chunks,
  new_parse, Parsed, reported, refused, settle_parse, parse_stream_events, valid_family,
  max_stream_chunks,
}
use code_maintainer.Providers.Stream.Accounts.{Accounted}
use code_maintainer.Providers.Stream.Sound.{
  Sound, too_many, Kept, then_parse-Kept, finish-Sound, add_decoded-Kept,
}

-- Cutting a chunk into records never fails by the number of tool calls.
abbrev Readable : Outcome (List String) → Type 0
Readable (done rs) = Unit
Readable (failed e) = too_many e ≡ false

consed-Readable :
    (r : String) (m : Outcome (List String))
    → Readable m
    → Readable (elim m [ failed e ↦ failed e | done rs ↦ done (r ∷ rs) ])
consed-Readable r (done rs) h = tt
consed-Readable r (failed e) h = h

add_record-Readable :
    (r : Option String) (m : Outcome (List String)) → Readable m → Readable (Records.add_record r m)
unfolding Records.add_record
add_record-Readable none m h = h
add_record-Readable (some r) m h = elim (Bool-cases (ltb max_stream_chunk_bytes (byte_len r))) [
  | inl b ↦ rw (Records.add_record, b) refl
  | inr b ↦ rw (Records.add_record, b) (consed-Readable r m h)
]

line_records-Readable : (ls : List String) → Readable (line_records ls)
unfolding line_records
line_records-Readable [] = tt
line_records-Readable (l ∷ ls) =
    add_record-Readable (line_record (trim_space l)) (line_records ls) (line_records-Readable ls)

some_records-Readable : (m : Outcome (List String)) → Readable m → Readable (some_records m)
unfolding some_records
some_records-Readable (done []) h = refl
some_records-Readable (done (r ∷ rs)) h = tt
some_records-Readable (failed e) h = h

stream_records-Readable : (chunk : String) → Readable (stream_records chunk)
unfolding stream_records
stream_records-Readable chunk =
    some_records-Readable (line_records (split_lines chunk))
      (line_records-Readable (split_lines chunk))

module _ (decode : String → Decoded) where
  add_record-Kept : (r : String) (p : Parse) → Sound p → Kept (add_record decode r p)
  unfolding add_record
  add_record-Kept r p v = elim (Bool-cases (r is "[DONE]")) [
    | inl b ↦ rw (add_record, b) (finish-Sound p v)
    | inr b ↦ rw (add_record, b) (add_decoded-Kept (decode r) p v)
  ]

  add_records-Kept : (rs : List String) (p : Parse) → Sound p → Kept (add_records decode rs p)
  unfolding add_records
  add_records-Kept [] p v = v
  add_records-Kept (r ∷ rs) p v =
      then_parse-Kept (add_record decode r p) (add_records decode rs) (add_record-Kept r p v)
        (λ q w. add_records-Kept rs q w)

  read-Kept :
      (m : Outcome (List String)) (p : Parse)
      → Readable m
      → Sound p
      → Kept (m then_parse λ rs. add_records decode rs p)
  read-Kept (done rs) p h v = add_records-Kept rs p v
  read-Kept (failed e) p h v = h

  add_chunk-Kept : (c : String) (p : Parse) → Sound p → Kept (add_chunk decode c p)
  unfolding add_chunk
  add_chunk-Kept c p v =
      elim (Bool-cases (byte_len c == 0 || ltb max_stream_chunk_bytes (byte_len c))) [
        | inl b ↦ rw (add_chunk, b) refl
        | inr b ↦ rw (add_chunk, b) (read-Kept (stream_records c) p (stream_records-Readable c) v)
      ]

  add_chunks-Kept : (cs : List String) (p : Parse) → Sound p → Kept (add_chunks decode cs p)
  unfolding add_chunks
  add_chunks-Kept [] p v = v
  add_chunks-Kept (c ∷ cs) p v =
      then_parse-Kept (add_chunk decode c p) (add_chunks decode cs) (add_chunk-Kept c p v)
        (λ q w. add_chunks-Kept cs q w)

new_parse-Sound : (family : String) → Sound (new_parse family)
new_parse-Sound family = record {
  accounted = record {
    content = refl;
    within_bound = omega arith;
    tools = refl;
    usages = refl;
    ended = refl;
    one_tool = tt;
  };
  keys = inl (refl, refl, refl);
}

-- What the end of the stream makes of a parse.
abbrev Settled : Parsed → Type 0
Settled (refused e) = too_many e ≡ false
Settled (reported r (some e)) = (key : String) × Accounted key r
Settled (reported r none) =
    ((key : String) × Accounted key r) × (r.terminal ≡ true) × (r.is_truncated ≡ false)

ended-Settled :
    (p : Parse) (cut over : Bool)
    → p.report.is_truncated ≡ cut
    → p.report.terminal ≡ over
    → Sound p
    → Settled (
        if cut
        then reported p.report (some truncated)
        else if not over
        then reported p.report (some unfinished)
        else reported p.report none)
ended-Settled p true over b c v = (p.active_tool_key, v.accounted)
ended-Settled p false true b c v = ((p.active_tool_key, v.accounted), c, b)
ended-Settled p false false b c v = (p.active_tool_key, v.accounted)

settle_parse-Settled : (m : Outcome Parse) → Kept m → Settled (settle_parse m)
unfolding settle_parse
settle_parse-Settled (failed e) h = h
settle_parse-Settled (done p) v =
    ended-Settled p p.report.is_truncated p.report.terminal refl refl v

parse_stream_events-Settled :
    (decode : String → Decoded) (family : String) (chunks : List String)
    → Settled (parse_stream_events decode family chunks)
unfolding parse_stream_events
parse_stream_events-Settled decode family chunks =
    let run =
      settle_parse-Settled (add_chunks decode chunks (new_parse family))
        (add_chunks-Kept decode chunks (new_parse family) (new_parse-Sound family)) in
    elim (Bool-cases (not (valid_family family))) [
      | inl b ↦ rw (parse_stream_events, b) refl
      | inr b ↦ elim (Bool-cases (length chunks == 0 || ltb max_stream_chunks (length chunks))) [
        | inl c ↦ rw (parse_stream_events, b, c) refl
        | inr c ↦ rw (parse_stream_events, b, c) run
      ]
    ]

-- Whatever the decoder makes of the records, a stream that is parsed without an error has ended
-- and was not cut off. Its content bytes are the sum of those of its content events and at most
-- 1 MiB, its tool-call and usage totals are the numbers of those events, it is terminal because one
-- of its events is an end or a cancellation, and all its tool-call events are of one tool call.
pub parse_stream_events_ok :
    (decode : String → Decoded) (family : String) (chunks : List String) (r : StreamReport)
    → parse_stream_events decode family chunks ≡ reported r none
    → ((key : String) × Accounted key r) × (r.terminal ≡ true) × (r.is_truncated ≡ false)
parse_stream_events_ok decode family chunks r h =
    subst Settled h (parse_stream_events-Settled decode family chunks)

-- The limit on tool calls is never what refuses a stream.
parse_stream_events-one_tool :
    (decode : String → Decoded) (family : String) (chunks : List String)
    → parse_stream_events decode family chunks ≢ refused too_many_tools
parse_stream_events-one_tool decode family chunks h =
    let other : true ≡ false = subst Settled h (parse_stream_events-Settled decode family chunks) in
    absurd (cc)
