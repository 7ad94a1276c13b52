-- ===== src/Base/Text.antt =====
-- Go strings: `String` for texts that are compared, their code points where they are walked.
use Prim.Native.Nat.{ℕ, zero, suc, ◌+◌, ◌/◌, ◌%◌}
use Prim.Native.Char.{code}
use Prim.Native.String.{String, len}
use mathlib.Core.Path.{◌≡◌, refl}
use mathlib.Core.Bool.{Bool, true, false, ◌&&◌, ◌||◌}
use mathlib.Core.List.{List, [], ◌∷◌}
use code_maintainer.Base.Tests.{leb, ◌==◌, if◌then◌else◌}
use code_maintainer.Base.Lists.{all}
use text.Mathlib.Text.{◌==◌ as ◌is◌}

abbrev pub codes : String → List ℕ
codes String.[] = []
codes (String.◌∷◌ c s) = code c ∷ codes s

-- `len(s)`: bytes of the UTF-8 encoding.
abbrev pub byte_len : String → ℕ
byte_len s = len s

-- `s == ""`
abbrev pub is_empty : String → Bool
is_empty String.[] = true
is_empty (String.◌∷◌ c s) = false

-- unicode.IsSpace
unfoldable pub is_space : ℕ → Bool
is_space c =
    (leb 9 c && leb c 13)
    || c == 32
    || c == 0x85
    || c == 0xa0
    || c == 0x1680
    || (leb 0x2000 c && leb c 0x200a)
    || c == 0x2028
    || c == 0x2029
    || c == 0x202f
    || c == 0x205f
    || c == 0x3000

-- `strings.TrimSpace(s) == ""`
unfoldable pub is_blank : String → Bool
unfolding is_space
is_blank s = all is_space (codes s)

unfoldable pub trim_left : String → String
unfolding is_space
trim_left String.[] = ""
trim_left (String.◌∷◌ c s) = if is_space (code c) then trim_left s else String.◌∷◌ c s

-- Drops the spaces at the end.
unfoldable pub trim_right : String → String
unfolding is_space
trim_right String.[] = ""
trim_right (String.◌∷◌ c s) =
    let rest = trim_right s in if is_empty rest && is_space (code c) then "" else String.◌∷◌ c rest

-- strings.TrimSpace
unfoldable pub trim_space : String → String
unfolding trim_left trim_right
trim_space s = trim_right (trim_left s)

trim_example : trim_space "  a b\n" ≡ "a b"
unfolding trim_space
trim_example = refl

-- strings.TrimPrefix(s, prefix), where the prefix is there
abbrev pub drop_prefix : String → String → String
drop_prefix s String.[] = s
drop_prefix String.[] (String.◌∷◌ d p) = String.[]
drop_prefix (String.◌∷◌ c s) (String.◌∷◌ d p) = drop_prefix s p

-- strings.HasPrefix(s, prefix)
abbrev pub has_prefix : String → String → Bool
has_prefix s String.[] = true
has_prefix String.[] (String.◌∷◌ d p) = false
has_prefix (String.◌∷◌ c s) (String.◌∷◌ d p) = let rest = has_prefix s p in code c == code d && rest

-- strings.HasSuffix(s, suffix)
abbrev pub has_suffix : String → String → Bool
has_suffix String.[] t = String.[] is t
has_suffix (String.◌∷◌ c s) t = let rest = has_suffix s t in String.◌∷◌ c s is t || rest

abbrev pub same_codes : List ℕ → List ℕ → Bool
same_codes [] [] = true
same_codes [] (d ∷ ds) = false
same_codes (c ∷ cs) [] = false
same_codes (c ∷ cs) (d ∷ ds) = let rest = same_codes cs ds in c == d && rest

prefix_codes : List ℕ → List ℕ → Bool
prefix_codes cs [] = true
prefix_codes [] (d ∷ ds) = false
prefix_codes (c ∷ cs) (d ∷ ds) = let rest = prefix_codes cs ds in c == d && rest

-- strings.Contains, on code points
unfoldable pub contains_codes : List ℕ → List ℕ → Bool
unfolding prefix_codes
contains_codes [] ds = prefix_codes [] ds
contains_codes (c ∷ cs) ds = let rest = contains_codes cs ds in prefix_codes (c ∷ cs) ds || rest

-- unicode.ToLower, as far as the result is in ASCII: two other characters have a lower case there.
unfoldable pub lower_code : ℕ → ℕ
lower_code c =
    if leb b'A' c && leb c b'Z'
    then c + 32
    else if c == 0x130
    then b'i'
    else if c == 0x212a
    then b'k'
    else c

-- `s + t`
abbrev pub append : String → String → String
append String.[] t = t
append (String.◌∷◌ c s) t = String.◌∷◌ c (append s t)

abbrev digit_text : ℕ → String
digit_text n =
    if n == 0
    then "0"
    else if n == 1
    then "1"
    else if n == 2
    then "2"
    else if n == 3
    then "3"
    else if n == 4
    then "4"
    else if n == 5
    then "5"
    else if n == 6
    then "6"
    else if n == 7
    then "7"
    else if n == 8
    then "8"
    else "9"

-- The decimal text of a number of at most as many digits as the fuel.
abbrev decimal_fuel : ℕ → ℕ → String
decimal_fuel zero n = ""
decimal_fuel (suc fuel) n =
    let rest = decimal_fuel fuel (n / 10) in
    if leb n 9 then digit_text n else append rest (digit_text (n % 10))

-- `%d` of a nonnegative integer of 64 bits, which has at most 19 digits
unfoldable pub decimal : ℕ → String
decimal n = decimal_fuel 20 n

decimal_example : decimal 128_050 ≡ "128050"
unfolding decimal
decimal_example = refl

-- The texts one after the other.
unfoldable pub concat : List String → String
concat [] = ""
concat (s ∷ ss) = append s (concat ss)
