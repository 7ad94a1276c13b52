-- ===== src/Routing/Parsers.antt =====
-- What internal/providers/types.go asks of url.Parse, net.ParseIP and float64, which are arguments,
-- and the addresses that it refuses.
use code_maintainer.Base.{
  ℕ, String, Bool, true, false, ◌&&◌, ◌||◌, Option, none, some, List, [], ◌∷◌, map, leb, ◌==◌,
  if◌then◌else◌,
}
use Prim.Native.Nat.{◌+◌, ◌/◌, ◌%◌}
use code_maintainer.Base.Int.{ℤ}
use code_maintainer.Base.Text.{codes, same_codes}
use code_maintainer.Routing.Profiles.{Float}

-- The fields of a url.URL that the checks read; `hostname` is the result of URL.Hostname.
pub record Url : Type 0 where
  pub scheme : String
  pub host : String
  pub hostname : String
  pub has_user : Bool
  pub raw_query : String
  pub fragment : String

-- url.Parse, and net.ParseIP: 4 bytes where To4 gives an address, 16 else. Then the arithmetic of
-- float64.
pub record Parsers : Type 0 where
  pub parse_url : String → Option Url
  pub parse_ip : String → Option (List ℕ)
  pub float_of : ℤ → Float
  pub float_less : Float → Float → Bool
  pub float_add : Float → Float → Float
  pub float_mul : Float → Float → Float
  pub float_div : Float → Float → Float
  -- `%.6f`
  pub float_text : Float → String

-- unicode.SimpleFold, as strings.EqualFold uses it against a text of small letters
unfoldable pub fold_code : ℕ → ℕ
fold_code c =
    if leb b'A' c && leb c b'Z'
    then c + 32
    else if c == 0x17f
    then b's'
    else if c == 0x212a
    then b'k'
    else c

abbrev pub equal_fold : String → String → Bool
equal_fold s small = same_codes (map fold_code (codes s)) (codes small)

-- IsLoopback, IsLinkLocalMulticast, IsLinkLocalUnicast or IsPrivate of net.IP, or the address
-- of the metadata service, which is one of the link-local addresses.
unfoldable pub is_private_address : List ℕ → Bool
is_private_address (a ∷ b ∷ c ∷ d ∷ []) =
    a == 127
    || (a == 224 && b == 0 && c == 0)
    || (a == 169 && b == 254)
    || a == 10
    || (a == 172 && b / 16 == 1)
    || (a == 192 && b == 168)
is_private_address (a ∷ b ∷ rest) =
    same_codes (a ∷ b ∷ rest) (0 ∷ 0 ∷ 0 ∷ 0 ∷ 0 ∷ 0 ∷ 0 ∷ 0 ∷ 0 ∷ 0 ∷ 0 ∷ 0 ∷ 0 ∷ 0 ∷ 0 ∷ 1 ∷ [])
    || (a == 0xff && b % 16 == 2)
    || (a == 0xfe && b / 64 == 2)
    || a / 2 == 126
is_private_address _ = false

unfoldable pub endpoint_host_is_private : Parsers → String → Bool
unfolding fold_code is_private_address
endpoint_host_is_private p host =
    if equal_fold host "localhost" || equal_fold host "metadata.google.internal"
    then true
    else elim (p.parse_ip host) [ none ↦ false | some address ↦ is_private_address address ]
