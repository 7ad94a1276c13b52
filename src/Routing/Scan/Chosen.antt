-- ===== src/Routing/Scan/Chosen.antt =====
-- What SimulateRoute chooses among the routes of a role, and what it means that it chooses nothing.
use code_maintainer.Base.{
  ◌≡◌, ◌≤◌, refl, String, true, false, arith, Bool-cases, List, [], ◌∷◌, All, inl, inr,
}
use mathlib.Core.List.{Memᴰ}
use code_maintainer.Routing.Profiles.{RouteProfile, RouteRequest}
use code_maintainer.Routing.Catalog.{RouteEnv, Catalog}
use code_maintainer.Routing.Select.{fallback_preserves_trust, trust_rank}
use code_maintainer.Routing.Scan.{
  Loaded, Denial, Floor, Choice, go, skip, no_floor, consider, scan_models, route_takes, scan_route,
  scan_routes,
}
use code_maintainer.Routing.Scan.Laws.{Fits, Admitted, fitting, consider-Fits, consider-go}
use code_maintainer.Routing.Scan.Trust.{
  Verdict-cases, first_trust, effective, consider-skip, consider-trust, consider-unkept,
}

-- What a choice that was made at a route satisfies.
pub record Routed (env : RouteEnv) (c : Catalog) (l : Loaded) (request : RouteRequest)
    (rs : List RouteProfile) (r : RouteProfile) (x : Choice) : Type 0 where
  pub member : Memᴰ r rs
  pub takes : route_takes request r ≡ true
  pub listed : (k : String) × Memᴰ k r.ordered_model_ids × Fits env l r request k x
  pub admitted : Admitted env c request x
  pub trust :
      fallback_preserves_trust r.fallback_policy ≡ true
      → first_trust env l r request r.ordered_model_ids ≤ trust_rank x.provider.trust_tier

module _ (env : RouteEnv) (c : Catalog) (l : Loaded) (request : RouteRequest) where
  scan_models-Fits :
      (r : RouteProfile) (ks : List String) (floor : Floor) (d : Denial) (x : Choice)
      → scan_models env c l r request ks floor d ≡ go x
      → ((k : String) × Memᴰ k ks × Fits env l r request k x) × Admitted env c request x
  unfolding scan_models
  scan_models-Fits r [] floor d x h = absurd (cc)
  scan_models-Fits r (k ∷ ks) floor d x h =
      elim (Verdict-cases (consider env c l r request k floor d)) [
        | inl (y, chosen) ↦
            let same : y ≡ x = ground arith in
            let (found, admitted, high) =
              consider-go env c l r request k floor d x (ground arith) in
            (
              (k, Memᴰ.head refl, consider-Fits env c l r request k floor d x (ground arith)),
              admitted,
            )
        | inr (f, d', skipped) ↦
            let ((j, m, fits), admitted) = scan_models-Fits r ks f d' x (ground arith) in
            ((j, Memᴰ.tail m, fits), admitted)
      ]

  scan_models-trust :
      (r : RouteProfile) (ks : List String) (floor : Floor) (d : Denial) (x : Choice)
      → fallback_preserves_trust r.fallback_policy ≡ true
      → scan_models env c l r request ks floor d ≡ go x
      → effective floor (first_trust env l r request ks) ≤ trust_rank x.provider.trust_tier
  unfolding scan_models
  scan_models-trust r [] floor d x keeps h = absurd (cc)
  scan_models-trust r (k ∷ ks) floor d x keeps h =
      let later = first_trust env l r request ks in
      elim (Verdict-cases (consider env c l r request k floor d)) [
        | inl (y, chosen) ↦ consider-trust env c l r request k floor d x later keeps (ground arith)
        | inr (f, d', skipped) ↦
            let rest = scan_models-trust r ks f d' x keeps (ground arith) in
            omega (arith, consider-skip env c l r request k floor f d d' later keeps skipped, rest)
      ]

  scan_route-Routed :
      (r : RouteProfile) (rs : List RouteProfile) (d : Denial) (x : Choice)
      → scan_route env c l request r d ≡ go x
      → Routed env c l request (r ∷ rs) r x
  unfolding scan_route
  scan_route-Routed r rs d x h = elim (Bool-cases (route_takes request r)) [
    | inr b ↦ absurd (ground arith)
    | inl b ↦
        let ran : scan_models env c l r request r.ordered_model_ids no_floor d ≡ go x =
          ground arith in
        let (listed, admitted) = scan_models-Fits r r.ordered_model_ids no_floor d x ran in
        record {
          member = Memᴰ.head refl;
          takes = b;
          listed = listed;
          admitted = admitted;
          trust = λ keeps. scan_models-trust r r.ordered_model_ids no_floor d x keeps ran;
        }
  ]

  -- A choice was made at one of the routes.
  pub scan_routes-Routed :
      (rs : List RouteProfile) (d : Denial) (x : Choice)
      → scan_routes env c l request rs d ≡ go x
      → (r : RouteProfile) × Routed env c l request rs r x
  unfolding scan_routes
  scan_routes-Routed [] d x h = absurd (cc)
  scan_routes-Routed (r ∷ rs) d x h = elim (Verdict-cases (scan_route env c l request r d)) [
    | inl (y, chosen) ↦ (r, scan_route-Routed r rs d x (ground arith))
    | inr (f, d', skipped) ↦
        let (s, rest) = scan_routes-Routed rs d' x (ground arith) in
        (
          s,
          record {
            member = Memᴰ.tail rest.member;
            takes = rest.takes;
            listed = rest.listed;
            admitted = rest.admitted;
            trust = rest.trust;
          },
        )
  ]

  -- No candidate of the route could be admitted.
  abbrev pub Exhausted : RouteProfile → Type 0
  Exhausted r =
      route_takes request r ≡ true
      → fallback_preserves_trust r.fallback_policy ≡ false
      → All (λ k. (x : Choice) → fitting env l r request k ≡ go x → ¬ Admitted env c request x)
          r.ordered_model_ids

  scan_models-Exhausted :
      (r : RouteProfile) (ks : List String) (floor f : Floor) (d d' : Denial)
      → fallback_preserves_trust r.fallback_policy ≡ false
      → scan_models env c l r request ks floor d ≡ skip f d'
      → All (λ k. (x : Choice) → fitting env l r request k ≡ go x → ¬ Admitted env c request x) ks
  unfolding scan_models
  scan_models-Exhausted r [] floor f d d' free h = tt
  scan_models-Exhausted r (k ∷ ks) floor f d d' free h =
      elim (Verdict-cases (consider env c l r request k floor d)) [
        | inl (y, chosen) ↦ absurd (ground arith)
        | inr (f', e, skipped) ↦ (
          λ x fits admitted.
              let kept = consider-unkept env c l r request k floor d x free fits admitted in cc,
          scan_models-Exhausted r ks f' f e d' free (ground arith),
        )
      ]

  -- When nothing is chosen, no candidate could be.
  pub scan_routes-Exhausted :
      (rs : List RouteProfile) (f : Floor) (d d' : Denial)
      → scan_routes env c l request rs d ≡ skip f d'
      → All Exhausted rs
  unfolding scan_routes scan_route
  scan_routes-Exhausted [] f d d' h = tt
  scan_routes-Exhausted (r ∷ rs) f d d' h = elim (Verdict-cases (scan_route env c l request r d)) [
    | inl (y, chosen) ↦ absurd (ground arith)
    | inr (f', e, skipped) ↦ (
      λ takes free. scan_models-Exhausted r r.ordered_model_ids no_floor f' d e free (ground arith),
      scan_routes-Exhausted rs f e d' (ground arith),
    )
  ]
