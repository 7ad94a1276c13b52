-- ===== src/Base/Patterns.antt =====
-- The patterns that the packages match their identifiers, digests and paths with.
use Prim.Native.Nat.{ℕ}
use Prim.Native.String.{String}
use mathlib.Core.Path.{◌≡◌, refl}
use mathlib.Core.Bool.{Bool, true, false, not, ◌&&◌, ◌||◌}
use mathlib.Core.List.{List, [], ◌∷◌, ◌++◌}
use code_maintainer.Base.Tests.{leb, ◌==◌, if◌then◌else◌}
use code_maintainer.Base.Lists.{length, all}
use code_maintainer.Base.Text.{codes}

unfoldable pub is_alnum : ℕ → Bool
is_alnum c = (leb b'A' c && leb c b'Z') || (leb b'a' c && leb c b'z') || (leb b'0' c && leb c b'9')

is_id_tail : ℕ → Bool
unfolding is_alnum
is_id_tail c = is_alnum c || c == b'.' || c == b'_' || c == b'-'

id_codes : List ℕ → Bool
id_codes [] = false
id_codes (c ∷ cs) = is_alnum c && all is_id_tail cs && leb (length cs) 127

-- The pattern `^[A-Za-z0-9][A-Za-z0-9._-]{0,127}$`, which several packages name safeID.
unfoldable pub safe_id : String → Bool
unfolding is_alnum is_id_tail id_codes
safe_id s = id_codes (codes s)

is_lower_hex : ℕ → Bool
is_lower_hex c = (leb b'a' c && leb c b'f') || (leb b'0' c && leb c b'9')

-- The pattern `^[a-f0-9]{40}(?:[a-f0-9]{24})?$` of a commit.
unfoldable pub is_commit : String → Bool
unfolding is_lower_hex
is_commit s = all is_lower_hex (codes s) && (length (codes s) == 40 || length (codes s) == 64)

is_finding_tail : ℕ → Bool
is_finding_tail c =
    (leb b'A' c && leb c b'Z') || (leb b'0' c && leb c b'9') || c == b'_' || c == b'-'

finding_codes : List ℕ → Bool
unfolding is_finding_tail
finding_codes [] = false
finding_codes (c ∷ cs) =
    is_finding_tail c
    && not (c == b'_' || c == b'-')
    && all is_finding_tail cs
    && leb 2 (length cs)
    && leb (length cs) 63

after_prefix : List ℕ → List ℕ → Bool
unfolding finding_codes
after_prefix [] cs = finding_codes cs
after_prefix (p ∷ ps) [] = false
after_prefix (p ∷ ps) (c ∷ cs) = let rest = after_prefix ps cs in p == c && rest

-- The pattern `^QC-[A-Z0-9][A-Z0-9_-]{2,63}$` of a finding.
unfoldable pub is_finding_id : String → Bool
unfolding after_prefix
is_finding_id s = after_prefix (codes "QC-") (codes s)

-- A component of a path that filepath.Clean keeps, other than `..`.
plain_part : List ℕ → Bool
plain_part cs =
    not (leb (length cs) 0)
    && all (λ c. not (c == 0)) cs
    && not (all (λ c. c == b'.') cs && leb (length cs) 2)

path_parts : List ℕ → List ℕ → Bool
unfolding plain_part
path_parts before [] = plain_part before
path_parts before (c ∷ cs) =
    let inside = path_parts (before ++ (c ∷ [])) cs in
    let next = path_parts [] cs in if c == b'/' then plain_part before && next else inside

-- safeRelativePath of internal/agents/contracts.go: filepath.Clean keeps a relative path that does
-- not begin with `..` exactly when each of its components is a name.
unfoldable pub is_safe_path : String → Bool
unfolding path_parts
is_safe_path s = path_parts [] (codes s)

-- The pattern `[A-Za-z0-9._-]{1,100}`
unfoldable pub is_part : List ℕ → Bool
unfolding is_alnum is_id_tail
is_part cs = all is_id_tail cs && leb 1 (length cs) && leb (length cs) 100

-- The text before the first `/` is given, the rest is walked.
unfoldable pub two_parts : List ℕ → List ℕ → Bool
unfolding is_part
two_parts before [] = false
two_parts before (c ∷ cs) =
    let rest = two_parts (before ++ (c ∷ [])) cs in
    if c == b'/' then is_part before && is_part cs else rest

-- The pattern `^[A-Za-z0-9._-]{1,100}/[A-Za-z0-9._-]{1,100}$` of a repository.
unfoldable pub is_repository : String → Bool
unfolding two_parts
is_repository s = two_parts [] (codes s)

-- The pattern `^[a-f0-9]{64}$` of a SHA-256 digest.
unfoldable pub is_sha256 : String → Bool
unfolding is_lower_hex
is_sha256 s = all is_lower_hex (codes s) && length (codes s) == 64

safe_id_example : safe_id "job_12.a-b" ≡ true
unfolding safe_id
safe_id_example = refl

repository_example : is_repository "owner/repo.name" ≡ true
unfolding is_repository
repository_example = refl

finding_id_example : is_finding_id "QC-A1_B" ≡ true
unfolding is_finding_id
finding_id_example = refl

safe_path_example : is_safe_path "internal/jobs/state.go" ≡ true
unfolding is_safe_path
safe_path_example = refl

escaping_path_example : is_safe_path "internal/../../etc" ≡ false
unfolding is_safe_path
escaping_path_example = refl
