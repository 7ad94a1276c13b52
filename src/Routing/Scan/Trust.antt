-- ===== src/Routing/Scan/Trust.antt =====
-- On a route that keeps trust, no candidate is chosen below the first one.
use code_maintainer.Base.{
  ◌==◌, if◌then◌else◌, ℕ, ◌≡◌, ◌≤◌, refl, String, true, false, arith, Bool-cases, List, [], ◌∷◌,
  inl, inr, ◌⊎◌,
}
use code_maintainer.Routing.Profiles.{RouteProfile, RouteRequest}
use code_maintainer.Routing.Catalog.{RouteEnv, Catalog}
use code_maintainer.Routing.Select.{fallback_preserves_trust, trust_rank}
use code_maintainer.Routing.Scan.{
  Loaded, Denial, Floor, Choice, Verdict, go, skip, admit, trusted, consider, raise_floor,
  is_below_floor, no_floor,
}
use code_maintainer.Routing.Scan.Laws.{
  candidate-Fits, candidate-fitting, consider-go, fitting, no_denial, Admitted,
}

abbrev pub or_later : Verdict Choice → ℕ → ℕ
or_later (go x) later = trust_rank x.provider.trust_tier
or_later (skip _ _) later = later

-- The trust rank of the first candidate of a route.
abbrev pub first_trust : RouteEnv → Loaded → RouteProfile → RouteRequest → List String → ℕ
first_trust env l r request [] = 0
first_trust env l r request (k ∷ ks) =
    let later = first_trust env l r request ks in or_later (fitting env l r request k) later

pub Verdict-cases :
    {A : Type 0} (v : Verdict A)
    → ((a : A) × (v ≡ go a)) ⊎ ((floor : Floor) × (d : Denial) × (v ≡ skip floor d))
Verdict-cases (go a) = inl (a, refl)
Verdict-cases (skip floor d) = inr (floor, d, refl)

admit-skip :
    (env : RouteEnv) (c : Catalog) (request : RouteRequest) (x : Choice) (floor f : Floor)
    (d d' : Denial)
    → admit env c request x floor d ≡ skip f d'
    → f ≡ floor
unfolding admit
admit-skip env c request x floor f d d' h = ground arith

trusted-skip :
    (env : RouteEnv) (c : Catalog) (request : RouteRequest) (x : Choice) (floor f : Floor)
    (d d' : Denial)
    → trusted env c request floor d x ≡ skip f d'
    → f ≡ raise_floor x.route x.provider floor
unfolding trusted
trusted-skip env c request x floor f d d' h =
    let raised = raise_floor x.route x.provider floor in
    elim (Bool-cases (is_below_floor x.route x.provider raised)) [
      | inl low ↦ ground arith
      | inr high ↦ admit-skip env c request x raised f d d' (ground arith)
    ]

-- The rank that the rest of a route may not fall below.
abbrev pub effective : Floor → ℕ → ℕ
effective floor later = if floor.rank == 0 then later else floor.rank

pub consider-skip :
    (env : RouteEnv) (c : Catalog) (l : Loaded) (r : RouteProfile) (request : RouteRequest)
    (k : String) (floor f : Floor) (d d' : Denial) (later : ℕ)
    → fallback_preserves_trust r.fallback_policy ≡ true
    → consider env c l r request k floor d ≡ skip f d'
    → effective floor (or_later (fitting env l r request k) later) ≤ effective f later
unfolding consider raise_floor
consider-skip env c l r request k floor f d d' later keeps h =
    let same = candidate-fitting env l r request k floor d in
    elim (Verdict-cases (fitting env l r request k)) [
      | inl (x, fits) ↦
          let route = (candidate-Fits env l r request k no_floor no_denial x fits).route in
          let raised = trusted-skip env c request x floor f d d' (ground arith) in ground arith
      | inr (_, _, misses) ↦ ground arith
    ]

pub consider-trust :
    (env : RouteEnv) (c : Catalog) (l : Loaded) (r : RouteProfile) (request : RouteRequest)
    (k : String) (floor : Floor) (d : Denial) (x : Choice) (later : ℕ)
    → fallback_preserves_trust r.fallback_policy ≡ true
    → consider env c l r request k floor d ≡ go x
    → effective floor (or_later (fitting env l r request k) later)
      ≤ trust_rank x.provider.trust_tier
unfolding raise_floor is_below_floor
consider-trust env c l r request k floor d x later keeps h =
    let (found, admitted, high) = consider-go env c l r request k floor d x h in
    let same = candidate-fitting env l r request k floor d in
    let route = (candidate-Fits env l r request k floor d x found).route in
    elim (Verdict-cases (fitting env l r request k)) [
      | inl (y, fits) ↦ ground arith
      | inr (_, _, misses) ↦ absurd (ground arith)
    ]

-- Where a route does not keep the trust, every candidate that is admitted is chosen.
pub consider-unkept :
    (env : RouteEnv) (c : Catalog) (l : Loaded) (r : RouteProfile) (request : RouteRequest)
    (k : String) (floor : Floor) (d : Denial) (x : Choice)
    → fallback_preserves_trust r.fallback_policy ≡ false
    → fitting env l r request k ≡ go x
    → Admitted env c request x
    → consider env c l r request k floor d ≡ go x
unfolding consider trusted admit raise_floor is_below_floor
consider-unkept env c l r request k floor d x free fits admitted =
    let same = candidate-fitting env l r request k floor d in
    let route = (candidate-Fits env l r request k no_floor no_denial x fits).route in ground arith
