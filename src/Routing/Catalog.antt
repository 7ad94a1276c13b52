-- ===== src/Routing/Catalog.antt =====
-- internal/storage/sqlite/providers.go: the tables of the provider catalogue. Each call is a
-- statement of its own, so what a call wrote stays when a later one fails. A driver call may fail;
-- `RouteEnv.fault` says which do.
use code_maintainer.Base.{
  String, Bool, true, false, ◌&&◌, ◌||◌, Option, none, some, List, [], ◌∷◌, ◌==◌, if◌then◌else◌,
}
use code_maintainer.Base.Int.{ℤ, pos, eqb_ℤ}
use code_maintainer.Base.Text.{codes}
use code_maintainer.Base.Clock.{Time, is_zero}
use code_maintainer.Base.Stamp.{stamp_before, text_before}
use code_maintainer.Routing.Profiles.{
  CapabilityProbe, ProviderProfile, EndpointProfile, ModelProfile, RouteProfile, EgressManifest,
}
use code_maintainer.Routing.Parsers.{Parsers}

-- The driver's calls that can fail, by what they do.
pub data RouteCall : Type 0 where
  random list_providers list_endpoints list_models list_routes : RouteCall
  list_manifests list_probes : RouteCall
  read_provider read_endpoint read_model read_route : RouteCall
  write_provider write_endpoint write_model write_route : RouteCall
  insert_manifest insert_probe : RouteCall

-- The sentinel errors that the calls return, an error with its text, and the error of a Validate
-- method or of a malformed request, whose text is not modelled.
pub data CatalogError : Type 0 where
  invalid not_found conflict rejected : CatalogError
  driver : RouteCall → CatalogError
  message : String → CatalogError

pub data Reply {ℓ} (A : Type ℓ) : Type ℓ where
  ok : A → Reply A
  err : CatalogError → Reply A

pub record Catalog : Type 0 where
  pub providers : List ProviderProfile
  pub endpoints : List EndpointProfile
  pub models : List ModelProfile
  pub routes : List RouteProfile
  pub manifests : List EgressManifest
  pub probes : List CapabilityProbe

-- What a call meets: the clock, the identifiers that NewID draws for a prefix, the driver calls
-- that fail and their texts, the digests of a manifest and of a text, and the result of sort.Slice
-- on more than twelve routes.
pub record RouteEnv : Type 0 where
  pub parsers : Parsers
  pub now : Time
  pub new_id : String → String
  pub fault : RouteCall → Bool
  pub driver_text : RouteCall → String
  pub manifest_digest : EgressManifest → String
  pub text_digest : String → String
  pub sort_long : List RouteProfile → List RouteProfile

abbrev pub Act : Type 0 → Type 0
Act A = Catalog → Reply A × Catalog

module _ {A : Type 0} where
  abbrev pub pure : A → Act A
  pure a c = (ok a, c)

  abbrev pub fail : CatalogError → Act A
  fail e c = (err e, c)

  abbrev pub after : {B : Type 0} → Reply A × Catalog → (A → Act B) → Reply B × Catalog
  after (ok a, c) f = f a c
  after (err e, c) f = (err e, c)

infixl 5 ◌>>=◌ ◌>>◌
abbrev pub ◌>>=◌ : {A B : Type 0} → Act A → (A → Act B) → Act B
◌>>=◌ m f c = after (m c) f

abbrev pub ◌>>◌ : {B : Type 0} → Act (Unit {0}) → Act B → Act B
m >> k = m >>= λ _. k

abbrev pub reject_if : Bool → CatalogError → Act (Unit {0})
reject_if true e c = (err e, c)
reject_if false e c = (ok tt, c)

abbrev pub call : RouteEnv → RouteCall → Act (Unit {0})
call env c = reject_if (env.fault c) (driver c)

abbrev pub gets : {A : Type 0} → (Catalog → A) → Act A
gets f c = (ok (f c), c)

abbrev pub modify : (Catalog → Catalog) → Act (Unit {0})
modify f c = (ok tt, f c)

abbrev pub or_fail : {A : Type 0} → Option A → CatalogError → Act A
or_fail none e = fail e
or_fail (some a) e = pure a

-- `ORDER BY updated_at DESC, id`
abbrev pub newest_first : Time → String → Time → String → Bool
newest_first t k u j = stamp_before u t || (t == u && text_before (codes k) (codes j))

-- `ORDER BY created_at DESC, id DESC`
abbrev pub latest_first : Time → String → Time → String → Bool
latest_first t k u j = stamp_before u t || (t == u && text_before (codes j) (codes k))

-- `INSERT ... ON CONFLICT(id) DO UPDATE`: the row with the id, changed, or a new row.
abbrev pub upsert_row {ℓ} : {A : Type ℓ} → (A → Bool) → (A → A) → A → List A → List A
upsert_row same change row [] = row ∷ []
upsert_row same change row (x ∷ xs) =
    let rest = upsert_row same change row xs in if same x then change x ∷ xs else x ∷ rest

abbrev pub or_now : RouteEnv → Time → Time
or_now env t = if is_zero t then env.now else t

-- A version that is not set is the first.
abbrev pub or_first : ℤ → ℤ
or_first v = if eqb_ℤ v (pos 0) then pos 1 else v
