-- ===== src/Routing/Simulate/Safe.antt =====
-- internal/providers/service.go: what a request that SimulateRoute allows may send, and where.
use code_maintainer.Base.{
  ◌≡◌, ◌is◌, String, true, false, arith, some, none, List, [], ◌∷◌, sym, subst, ◌∙◌, All, All-mem,
  all,
}
use mathlib.Core.List.{Permᴰ}
use code_maintainer.Scheduler.Types.{one_of}
use code_maintainer.Routing.Profiles.{RouteProfile, RouteRequest}
use code_maintainer.Routing.Checks.{request_valid, valid_data_class}
use code_maintainer.Routing.Catalog.{RouteEnv, Catalog, ok}
use code_maintainer.Routing.Select.{data_classes_allowed, is_eligible, remote_probe_error}
use code_maintainer.Routing.Scan.{Loaded, Choice, route_takes}
use code_maintainer.Routing.Defaults.{ensure_defaults}
use code_maintainer.Routing.Simulate.{RouteDecision, forbidden_classes, simulate_route}
use code_maintainer.Routing.Simulate.Laws.{class_allowed, eligible_routes-All}
use code_maintainer.Routing.Simulate.Decides.{Allowed, Decided, simulate_route_decides}

-- A data class that may be sent to the provider by the route.
abbrev pub Sendable : Choice → String → Type 0
Sendable x s =
    (one_of forbidden_classes s ≡ false)
    × (one_of x.route.allowed_data_classes s ≡ true)
    × (one_of x.provider.approved_data_classes s ≡ true)

classes-Sendable :
    (x : Choice) (ss : List String)
    → all valid_data_class ss ≡ true
    → data_classes_allowed ss x.route.allowed_data_classes ≡ true
    → data_classes_allowed ss x.provider.approved_data_classes ≡ true
    → All (Sendable x) ss
unfolding data_classes_allowed
classes-Sendable x [] valid route provider = tt
classes-Sendable x (s ∷ ss) valid route provider = (
  (class_allowed s (ground arith), ground arith, ground arith),
  classes-Sendable x ss (ground arith) (ground arith) (ground arith),
)

-- What an allowed decision says of its choice.
abbrev pub Safe : RouteEnv → RouteRequest → Catalog → Choice → Type 0
Safe env request c x =
    (x.provider.enabled ≡ true)
    × (x.route.enabled ≡ true)
    × (x.route.role is request.role ≡ true)
    × All (Sendable x) request.data_classes
    × ((c1 : Catalog) × (ensure_defaults env c ≡ (ok tt, c1))
        × (x.provider.remote ≡ true
            → remote_probe_error env c1 x.provider x.endpoint x.model request ≡ none))

Allowed-Safe :
    (env : RouteEnv) (request : RouteRequest) (start c c' : Catalog) (l : Loaded)
    (d : RouteDecision) (x : Choice)
    → ((rs : List RouteProfile) → Permᴰ rs (env.sort_long rs))
    → ensure_defaults env start ≡ (ok tt, c)
    → request_valid request ≡ true
    → Allowed env request c c' l d x
    → Safe env request start x
unfolding request_valid route_takes
Allowed-Safe env request start c c' l d x permutes ready good allowed =
    let (r, routed) = allowed.chosen in
    let (k, m, fits) = routed.listed in
    let takes = routed.takes in
    let route = fits.route in
    let eligible =
      All-mem (λ q. is_eligible request.role q ≡ true) _
        (eligible_routes-All env l.routes request.role permutes) routed.member in
    (
      routed.admitted.enabled,
      rw route (ground arith),
      rw route (ground arith),
      classes-Sendable x request.data_classes (ground arith) (rw route (ground arith)) fits.classes,
      (c, ready, routed.admitted.probe),
    )

-- Given that sort.Slice permutes: a choice is an enabled provider on an enabled route of the role,
-- each data class of the request is allowed by the route and approved for the provider, none is
-- secret, and a remote provider has a latest probe, where the defaults are stored, that matches its
-- profiles.
pub simulate_route-Safe :
    (env : RouteEnv) (request : RouteRequest) (c c' : Catalog) (d : RouteDecision) (x : Choice)
    → ((rs : List RouteProfile) → Permᴰ rs (env.sort_long rs))
    → simulate_route env request c ≡ (ok d, c')
    → d.choice ≡ some x
    → Safe env request c x
simulate_route-Safe env request c c' d x permutes h choice =
    let (c1, l, o, ready, good, read, same, decided) =
      simulate_route_decides env request c c' d h in
    Allowed-Safe env request c c1 c' l d x permutes ready good
      (subst (λ q. Decided env request c1 c' l d q) (sym same ∙ choice) decided)
