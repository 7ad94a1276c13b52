-- ===== src/Routing/Simulate/Laws.antt =====
-- internal/providers/service.go: what SimulateRoute decides, and what it records of it.
use code_maintainer.Base.{
  ◌≡◌, refl, String, true, false, arith, Bool-cases, none, List, [], ◌∷◌, All, All-mem, keep,
  keep-All, perm_All, length, leb, inl, inr, ◌⊎◌, all, ◌is◌, eq_iff,
}
use mathlib.Core.List.{Memᴰ, Permᴰ}
use code_maintainer.Scheduler.Order.Laws.{stable_sort-perm}
use code_maintainer.Scheduler.Types.{one_of}
use code_maintainer.Routing.Profiles.{RouteProfile, RouteRequest, EgressManifest}
use code_maintainer.Routing.Checks.{
  request_valid, manifest_valid, valid_data_class, all_data_classes,
}
use code_maintainer.Routing.Catalog.{RouteEnv, CatalogError, Catalog, Reply, ok, err, or_now}
use code_maintainer.Routing.Tables.{
  list_provider_profiles, list_endpoint_profiles, list_model_profiles, list_route_profiles,
}
use code_maintainer.Routing.Records.{record_egress_manifest, drawn}
use code_maintainer.Routing.Select.{is_eligible, sort_routes, eligible_routes, route_less}
use code_maintainer.Routing.Scan.{Loaded}
use code_maintainer.Routing.Simulate.{load, forbidden_class, forbidden_classes}

pub Reply-cases :
    {A : Type 0} (r : Reply A × Catalog)
    → ((a : A) × (c : Catalog) × (r ≡ (ok a, c)))
      ⊎ ((e : CatalogError) × (c : Catalog) × (r ≡ (err e, c)))
Reply-cases (ok a, c) = inl (a, c, refl)
Reply-cases (err e, c) = inr (e, c, refl)

pub load-catalog : (env : RouteEnv) (c c' : Catalog) (l : Loaded) → load env c ≡ (ok l, c') → c' ≡ c
unfolding load list_provider_profiles list_endpoint_profiles list_model_profiles list_route_profiles
load-catalog env c c' l h = ground arith

one_of-Mem : (ts : List String) (s : String) → one_of ts s ≡ true → Memᴰ s ts
one_of-Mem [] s h = absurd (cc)
one_of-Mem (t ∷ ts) s h = elim (Bool-cases (s is t)) [
  | inl b ↦ Memᴰ.head ((eq_iff s t).0 b)
  | inr b ↦ Memᴰ.tail (one_of-Mem ts s (ground arith))
]

pub class_allowed : (s : String) → valid_data_class s ≡ true → one_of forbidden_classes s ≡ false
unfolding valid_data_class
class_allowed s h =
    All-mem (λ t. one_of forbidden_classes t ≡ false) all_data_classes
      (refl, (refl, (refl, (refl, (refl, (refl, (refl, (refl, (refl, tt)))))))))
      (one_of-Mem all_data_classes s h)

-- A list of valid data classes has none that EnsureNoSecrets refuses.
pub forbidden_class-valid :
    (ss : List String) → all valid_data_class ss ≡ true → forbidden_class ss ≡ none
unfolding forbidden_class
forbidden_class-valid [] h = refl
forbidden_class-valid (s ∷ ss) h =
    let out = class_allowed s (ground arith) in
    let rest = forbidden_class-valid ss (ground arith) in ground arith

-- Each route of the role is enabled, given that sort.Slice permutes.
pub eligible_routes-All :
    (env : RouteEnv) (rs : List RouteProfile) (role : String)
    → ((qs : List RouteProfile) → Permᴰ qs (env.sort_long qs))
    → All (λ r. is_eligible role r ≡ true) (eligible_routes env rs role)
unfolding eligible_routes sort_routes
eligible_routes-All env rs role permutes =
    let qs = keep (is_eligible role) rs in
    let kept = keep-All (is_eligible role) rs in
    elim (Bool-cases (leb (length qs) 12)) [
      | inl b ↦ rw b (perm_All _ (stable_sort-perm route_less qs) kept)
      | inr b ↦ rw b (perm_All _ (permutes qs) kept)
    ]

-- What a recorded manifest is.
pub record Recorded (env : RouteEnv) (c c' : Catalog) (m row : EgressManifest) : Type 0 where
  pub written :
      row ≡ record m { id = drawn env "egress" m.id; created_at = or_now env m.created_at }
  pub valid : manifest_valid row ≡ true
  pub stored : c' ≡ record c { manifests = row ∷ c.manifests }

pub record_egress_manifest-Recorded :
    (env : RouteEnv) (m row : EgressManifest) (c c' : Catalog)
    → record_egress_manifest env m c ≡ (ok row, c')
    → Recorded env c c' m row
unfolding record_egress_manifest
record_egress_manifest-Recorded env m row c c' h = ground arith

pub request_classes :
    (r : RouteRequest) → request_valid r ≡ true → forbidden_class r.data_classes ≡ none
unfolding request_valid
request_classes r h = forbidden_class-valid r.data_classes (ground arith)
