-- ===== src/Providers/Records.antt =====
-- internal/providers/stream.go: streamRecords, which cuts a chunk of server-sent events into its
-- records.
pub mod RoundTrip
use code_maintainer.Base.{
  ℕ, ◌*◌, String, Bool, true, false, not, ◌&&◌, ◌||◌, Option, none, some, List, [], ◌∷◌, ltb, ◌==◌,
  if◌then◌else◌,
}
use Prim.Native.Char.{Char, code}
use code_maintainer.Base.Text.{is_empty, byte_len, trim_space, has_prefix, drop_prefix}

pub data StreamError : Type 0 where
  bad_family bad_chunk_count bad_chunk oversized_line no_records : StreamError
  not_json trailing_data oversized_content interleaved_tools too_many_tools : StreamError
  too_many_events truncated unfinished : StreamError

pub data Outcome {ℓ} (A : Type ℓ) : Type ℓ where
  done : A → Outcome A
  failed : StreamError → Outcome A

-- MaxStreamChunkBytes
abbrev pub max_stream_chunk_bytes : ℕ
max_stream_chunk_bytes = 64 * 1024

-- One more character of the first line.
abbrev pub on_first : Char → List String → List String
on_first c [] = String.◌∷◌ c "" ∷ []
on_first c (l ∷ ls) = String.◌∷◌ c l ∷ ls

-- bytes.Split(chunk, "\n")
unfoldable pub split_lines : String → List String
split_lines String.[] = "" ∷ []
split_lines (String.◌∷◌ c s) =
    let rest = split_lines s in if code c == b'\n' then "" ∷ rest else on_first c rest

-- What a line is after its `data:` prefix and the spaces around.
unfoldable pub payload : String → String
payload line = if has_prefix line "data:" then trim_space (drop_prefix line "data:") else line

-- The record of a trimmed line, unless it is empty, a comment or the name of an event.
unfoldable pub line_record : String → Option String
unfolding payload
line_record line =
    if is_empty line || has_prefix line ":" || has_prefix line "event:"
    then none
    else if is_empty (payload line)
    then none
    else some (payload line)

unfoldable pub add_record : Option String → Outcome (List String) → Outcome (List String)
add_record none rest = rest
add_record (some r) rest =
    if ltb max_stream_chunk_bytes (byte_len r)
    then failed oversized_line
    else elim rest [ failed e ↦ failed e | done rs ↦ done (r ∷ rs) ]

-- The loop over the lines.
unfoldable pub line_records : List String → Outcome (List String)
unfolding add_record line_record
line_records [] = done []
line_records (l ∷ ls) = add_record (line_record (trim_space l)) (line_records ls)

unfoldable pub some_records : Outcome (List String) → Outcome (List String)
some_records (done []) = failed no_records
some_records (done (r ∷ rs)) = done (r ∷ rs)
some_records (failed e) = failed e

-- streamRecords
unfoldable pub stream_records : String → Outcome (List String)
unfolding line_records split_lines
stream_records chunk = some_records (line_records (split_lines chunk))
