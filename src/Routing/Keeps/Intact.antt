-- ===== src/Routing/Keeps/Intact.antt =====
-- internal/storage/sqlite/providers.go: the rows of an intact catalogue are valid and refer to rows
-- that exist, as the foreign keys of migrations/035_provider_gateway.sql ask.
use code_maintainer.Base.{◌≡◌, refl, ◌∙◌, String, Bool, true, arith, All, any, ◌is◌}
use code_maintainer.Base.Int.{ℤ, pos, ◌+ℤ◌, leb_ℤ, +ℤ-parts}
use code_maintainer.Base.Clock.{Time}
use code_maintainer.Routing.Profiles.{ProviderProfile, EndpointProfile, ModelProfile, RouteProfile}
use code_maintainer.Routing.Parsers.{Parsers}
use code_maintainer.Routing.Checks.{provider_valid, route_valid, manifest_valid, probe_valid}
use code_maintainer.Routing.Catalog.{Catalog}
use code_maintainer.Routing.Tables.{next_provider, next_route}

abbrev pub has_provider : Catalog → String → Bool
has_provider c k = any (λ (p : ProviderProfile). p.id is k) c.providers

abbrev pub has_endpoint : Catalog → String → Bool
has_endpoint c k = any (λ (e : EndpointProfile). e.id is k) c.endpoints

pub record Intact (parsers : Parsers) (c : Catalog) : Type 0 where
  pub providers : All (λ p. provider_valid p ≡ true) c.providers
  pub endpoints : All (λ (e : EndpointProfile). has_provider c e.provider_id ≡ true) c.endpoints
  pub models :
      All
        (λ (m : ModelProfile).
          (has_provider c m.provider_id ≡ true) × (has_endpoint c m.endpoint_id ≡ true))
        c.models
  pub routes : All (λ r. route_valid parsers r ≡ true) c.routes
  pub manifests : All (λ m. manifest_valid m ≡ true) c.manifests
  pub probes : All (λ p. probe_valid p ≡ true) c.probes

next_version : (v : ℤ) → leb_ℤ (pos 0) v ≡ true → leb_ℤ (pos 0) (v +ℤ pos 1) ≡ true
next_version v h = let sum = +ℤ-parts v (pos 1) in ground arith

pub next_provider-valid :
    (row old : ProviderProfile)
    → provider_valid row ≡ true
    → provider_valid old ≡ true
    → provider_valid (next_provider row old) ≡ true
unfolding provider_valid
next_provider-valid row old new held = let v = next_version old.version in ground arith

route-version :
    (parsers : Parsers) (r : RouteProfile)
    → route_valid parsers r ≡ true
    → leb_ℤ (pos 0) r.version ≡ true
unfolding route_valid
route-version parsers r h = ground arith

-- Of the version, the check reads its sign only.
route_valid-version :
    (parsers : Parsers) (r : RouteProfile) (v : ℤ) (t : Time)
    → leb_ℤ (pos 0) r.version ≡ true
    → leb_ℤ (pos 0) v ≡ true
    → route_valid parsers (record r { version = v; created_at = t }) ≡ route_valid parsers r
unfolding route_valid
route_valid-version parsers r v t old new = rw (old, new) refl

pub next_route-valid :
    (parsers : Parsers) (row old : RouteProfile)
    → route_valid parsers row ≡ true
    → route_valid parsers old ≡ true
    → route_valid parsers (next_route row old) ≡ true
next_route-valid parsers row old new held =
    route_valid-version parsers row (old.version +ℤ pos 1) old.created_at
      (route-version parsers row new) (next_version old.version (route-version parsers old held))
    ∙ new
