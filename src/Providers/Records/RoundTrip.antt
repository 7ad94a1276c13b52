-- ===== src/Providers/Records/RoundTrip.antt =====
-- internal/providers/stream.go: what a server frames as `data:` lines is what streamRecords reads.
use code_maintainer.Base.{
  ℕ, suc, ◌≤◌, ◌≡◌, ◌≢◌, refl, ap, String, Bool, true, false, not, ◌&&◌, some, List, [], ◌∷◌, All,
  arith, ◌==◌, Bool-cases, inl, inr,
}
use Prim.Native.Char.{Char, code}
use code_maintainer.Base.Text.{
  is_empty, is_space, byte_len, trim_space, trim_left, trim_right, append,
}
use code_maintainer.Providers.Records.{
  done, max_stream_chunk_bytes, split_lines, payload, line_record, add_record, line_records,
  some_records, stream_records,
}

-- The characters of a text.
abbrev size : String → ℕ
size String.[] = 0
size (String.◌∷◌ c s) = suc (size s)

trim_left-le : (s : String) → size (trim_left s) ≤ size s
unfolding trim_left
trim_left-le String.[] = omega arith
trim_left-le (String.◌∷◌ c s) = ground (arith, trim_left-le s)

trim_right-le : (s : String) → size (trim_right s) ≤ size s
unfolding trim_right
trim_right-le String.[] = omega arith
trim_right-le (String.◌∷◌ c s) = ground (arith, trim_right-le s)

-- A text that trimming keeps does not begin with a space, and its end stays.
trimmed_head :
    (c : Char) (s : String)
    → trim_space (String.◌∷◌ c s) ≡ String.◌∷◌ c s
    → (is_space (code c) ≡ false) × (trim_right (String.◌∷◌ c s) ≡ String.◌∷◌ c s)
unfolding trim_space trim_left
trimmed_head c s h = elim (Bool-cases (is_space (code c))) [
  | inl b ↦
      let shorter : size (trim_right (trim_left s)) ≡ suc (size s) = ap size (rw b at h) in
      absurd (omega (arith, trim_right-le (trim_left s), trim_left-le s))
  | inr b ↦ (b, rw b at h)
]

-- No character of the text ends a line.
abbrev pub one_line : String → Bool
one_line String.[] = true
one_line (String.◌∷◌ c s) = let rest = one_line s in not (code c == b'\n') && rest

split_lines-append :
    (a rest : String)
    → one_line a ≡ true
    → split_lines (append a (append "\n" rest)) ≡ a ∷ split_lines rest
unfolding split_lines
split_lines-append String.[] rest h = refl
split_lines-append (String.◌∷◌ c s) rest h =
    let ih = split_lines-append s rest in ground (arith, ih)

-- A text that can be a record: not empty, with no space at its ends, on one line, not too long.
pub record IsRecord (r : String) : Type 0 where
  pub nonempty : is_empty r ≡ false
  pub trimmed : trim_space r ≡ r
  pub whole : one_line r ≡ true
  pub fits : byte_len r ≤ max_stream_chunk_bytes

-- The lines that a server sends for these records.
abbrev pub frames : List String → String
frames [] = ""
frames (r ∷ rs) = append (append "data: " r) (append "\n" (frames rs))

framed-trim :
    (c : Char) (s : String)
    → trim_right (String.◌∷◌ c s) ≡ String.◌∷◌ c s
    → trim_space (append "data: " (String.◌∷◌ c s)) ≡ append "data: " (String.◌∷◌ c s)
unfolding trim_space trim_left trim_right is_space
framed-trim c s h = ground (arith)

framed-payload :
    (c : Char) (s : String)
    → is_space (code c) ≡ false
    → trim_right (String.◌∷◌ c s) ≡ String.◌∷◌ c s
    → payload (append "data: " (String.◌∷◌ c s)) ≡ String.◌∷◌ c s
unfolding payload trim_space trim_left is_space
framed-payload c s b h = ground arith

framed-line_record :
    (c : Char) (s : String)
    → is_space (code c) ≡ false
    → trim_right (String.◌∷◌ c s) ≡ String.◌∷◌ c s
    → line_record (trim_space (append "data: " (String.◌∷◌ c s))) ≡ some (String.◌∷◌ c s)
unfolding line_record
framed-line_record c s b h = rw (framed-trim c s h) (rw (framed-payload c s b h) refl)

framed_record : (r : String) → IsRecord r → line_record (trim_space (append "data: " r)) ≡ some r
framed_record String.[] v = absurd (ground (arith, v.nonempty))
framed_record (String.◌∷◌ c s) v =
    let (b, h) = trimmed_head c s v.trimmed in framed-line_record c s b h

-- What is left after the last line end.
line_records_end : line_records (split_lines "") ≡ done []
unfolding line_records split_lines trim_space line_record
line_records_end = refl

line_records-frames :
    (rs : List String) → All IsRecord rs → line_records (split_lines (frames rs)) ≡ done rs
unfolding line_records split_lines add_record
line_records-frames [] vs = line_records_end
line_records-frames (r ∷ rs) (v, vs) =
    rw (split_lines-append (append "data: " r) (frames rs) (ground (arith, v.whole)))
      (rw (framed_record r v) (ground (arith, v.fits, line_records-frames rs vs)))

-- The records that a server frames as lines, each after `data: `, are read back as they were and
-- in their order, provided there is one, and each is not empty, has no space at its ends, stands
-- on one line and is at most 64 KiB long; whatever else the records hold.
pub stream_records-frames :
    (rs : List String) → rs ≢ [] → All IsRecord rs → stream_records (frames rs) ≡ done rs
unfolding stream_records some_records
stream_records-frames [] ne vs = absurd (ne refl)
stream_records-frames (r ∷ rs) ne vs = rw (line_records-frames (r ∷ rs) vs) refl
