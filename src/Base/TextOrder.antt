-- ===== src/Base/TextOrder.antt =====
-- The order of Go strings is total, and strings with the same code points are equal.
use Prim.Native.Nat.{ℕ}
use Prim.Native.String.{String}
use mathlib.Core.Path.{◌≡◌, refl}
use mathlib.Core.Bool.{true, false}
use mathlib.Core.List.{List, [], ◌∷◌}
use native.Mathlib.Omega.{arith}
use text.Mathlib.TextEquality.{Char-path}
use code_maintainer.Base.Text.{codes}
use code_maintainer.Base.Stamp.{text_before}

pub text_before_asym : (a b : List ℕ) → text_before a b ≡ true → text_before b a ≡ false
text_before_asym [] [] h = refl
text_before_asym [] (y ∷ ys) h = refl
text_before_asym (x ∷ xs) [] h = absurd (cc)
text_before_asym (x ∷ xs) (y ∷ ys) h = let rest = text_before_asym xs ys in ground arith

pub text_before_trans :
    (a b c : List ℕ) → text_before a b ≡ true → text_before b c ≡ true → text_before a c ≡ true
text_before_trans a [] c h k = absurd (ground arith)
text_before_trans a (y ∷ ys) [] h k = absurd (ground arith)
text_before_trans [] (y ∷ ys) (z ∷ zs) h k = refl
text_before_trans (x ∷ xs) (y ∷ ys) (z ∷ zs) h k =
    let rest = text_before_trans xs ys zs in ground arith

pub text_before_connected :
    (a b : List ℕ) → text_before a b ≡ false → text_before b a ≡ false → a ≡ b
text_before_connected [] [] h k = refl
text_before_connected [] (y ∷ ys) h k = absurd (cc)
text_before_connected (x ∷ xs) [] h k = absurd (cc)
text_before_connected (x ∷ xs) (y ∷ ys) h k = let rest = text_before_connected xs ys in ground arith

pub codes-injective : (s t : String) → codes s ≡ codes t → s ≡ t
codes-injective String.[] String.[] h = refl
codes-injective String.[] (String.◌∷◌ d t) h = absurd (cc)
codes-injective (String.◌∷◌ c s) String.[] h = absurd (cc)
codes-injective (String.◌∷◌ c s) (String.◌∷◌ d t) h =
    let same = Char-path c d (cc) in let rest = codes-injective s t (cc) in rw (same, rest) refl
