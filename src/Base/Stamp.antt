-- ===== src/Base/Stamp.antt =====
-- Time stamps as internal/storage/sqlite/store.go writes them (`timestampFormat`, which is
-- time.RFC3339Nano) and as SQL compares them: as texts. The texts of two instants of the years 1 to
-- 9999 in UTC agree up to the second exactly when the seconds do, and order as these; the rest of
-- the text is the fraction without its trailing zeros, and a `Z`.
use Prim.Native.Nat.{ℕ, zero, suc, ◌+◌, ◌/◌, ◌%◌, ◌<◌}
use mathlib.Core.Path.{◌≡◌, refl}
use mathlib.Core.Bool.{Bool, true, false}
use mathlib.Core.List.{List, [], ◌∷◌, ◌++◌}
use native.Mathlib.Omega.{arith}
use code_maintainer.Base.Tests.{ltb, ◌==◌, if◌then◌else◌}
use code_maintainer.Base.Clock.{Time, second}

-- The decimal digits of a number below 10 to the count of digits, as characters, highest first.
abbrev digits : ℕ → ℕ → List ℕ
digits zero n = []
digits (suc count) n = digits count (n / 10) ++ ((n % 10 + b'0') ∷ [])

abbrev is_nil : List ℕ → Bool
is_nil [] = true
is_nil (c ∷ cs) = false

abbrev trim_zeros : List ℕ → List ℕ
trim_zeros [] = []
trim_zeros (c ∷ cs) =
    let rest = trim_zeros cs in if is_nil rest then (if c == b'0' then [] else c ∷ []) else c ∷ rest

-- What follows the seconds.
unfoldable pub fraction_text : Time → List ℕ
fraction_text t =
    let trimmed = trim_zeros (digits 9 (t % second)) in
    if is_nil trimmed then b'Z' ∷ [] else b'.' ∷ (trimmed ++ (b'Z' ∷ []))

abbrev pub text_before : List ℕ → List ℕ → Bool
text_before xs [] = false
text_before [] (y ∷ ys) = true
text_before (x ∷ xs) (y ∷ ys) = let rest = text_before xs ys in if x == y then rest else ltb x y

-- `a < b` on the texts of two instants
unfoldable pub stamp_before : Time → Time → Bool
stamp_before a b =
    if a / second == b / second
    then text_before (fraction_text a) (fraction_text b)
    else ltb (a / second) (b / second)

-- Instants of different seconds compare as they should.
pub stamp_before_seconds : (a b : Time) → a / second < b / second → stamp_before a b ≡ true
unfolding stamp_before
stamp_before_seconds a b h = ground arith

-- Half a second past ten seconds is before ten seconds in the order of the texts.
stamp_misorder : stamp_before 10_500_000_000 10_000_000_000 ≡ true
unfolding stamp_before fraction_text
stamp_misorder = refl
