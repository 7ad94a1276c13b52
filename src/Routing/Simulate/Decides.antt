-- ===== src/Routing/Simulate/Decides.antt =====
-- internal/providers/service.go: the decision of SimulateRoute, whichever it is.
use code_maintainer.Base.{
  ◌∙◌, ap, ◌≡◌, refl, String, true, arith, Bool-cases, Option, none, some, List, [], ◌∷◌, All, inl,
  inr, if◌then◌else◌,
}
use code_maintainer.Base.Text.{is_empty}
use code_maintainer.Routing.Profiles.{RouteProfile, RouteRequest}
use code_maintainer.Routing.Checks.{request_valid}
use code_maintainer.Routing.Catalog.{RouteEnv, Catalog, ok}
use code_maintainer.Routing.Records.{record_egress_manifest}
use code_maintainer.Routing.Defaults.{ensure_defaults}
use code_maintainer.Routing.Select.{eligible_routes}
use code_maintainer.Routing.Scan.{Loaded, Denial, Choice, scan_routes}
use code_maintainer.Routing.Scan.Trust.{Verdict-cases}
use code_maintainer.Routing.Scan.Chosen.{
  Routed, scan_routes-Routed, Exhausted, scan_routes-Exhausted,
}
use code_maintainer.Routing.Simulate.{
  RouteDecision, allow_manifest, deny_manifest, sealed, record_allowed, record_denied, load,
  settle_verdict, choose, route_checked, simulate_route,
}
use code_maintainer.Routing.Simulate.Laws.{
  Reply-cases, load-catalog, request_classes, Recorded, record_egress_manifest-Recorded,
}

-- How a decision with a choice, or without, came about at the profiles that were read.
pub record Allowed (env : RouteEnv) (request : RouteRequest) (c c' : Catalog) (l : Loaded)
    (d : RouteDecision) (x : Choice) : Type 0 where
  pub status : d.status ≡ "allowed"
  pub chosen :
      (r : RouteProfile) × Routed env c l request (eligible_routes env l.routes request.role) r x
  pub recorded : Recorded env c c' (sealed env (allow_manifest request x)) d.egress_manifest

pub record Denied (env : RouteEnv) (request : RouteRequest) (c c' : Catalog) (l : Loaded)
    (d : RouteDecision) : Type 0 where
  pub status : d.status ≡ "denied"
  pub exhausted : All (Exhausted env c l request) (eligible_routes env l.routes request.role)
  pub recorded :
      (k : String) × Recorded env c c'
        (sealed env (deny_manifest request k d.reason))
        d.egress_manifest

abbrev pub Decided :
    RouteEnv → RouteRequest → Catalog → Catalog → Loaded → RouteDecision → Option Choice → Type 0
Decided env request c c' l d none = Denied env request c c' l d
Decided env request c c' l d (some x) = Allowed env request c c' l d x

module _ (env : RouteEnv) (request : RouteRequest) (c c' : Catalog) (d : RouteDecision) where
  record_denied-Recorded :
      (k reason : String)
      → record_denied env request k reason c ≡ (ok d, c')
      → (d.status ≡ "denied")
        × (d.choice ≡ none)
        × ((j : String) × Recorded env c c'
              (sealed env (deny_manifest request j d.reason))
              d.egress_manifest)
  unfolding record_denied
  record_denied-Recorded k reason h =
      let j = if is_empty k then "unselected" else k in
      let m = sealed env (deny_manifest request j reason) in
      elim (Reply-cases (record_egress_manifest env m c)) [
        | inr (e, c1, failed) ↦ absurd (ground arith)
        | inl (row, c1, ran) ↦
            let same : d ≡ record {
              status = "denied";
              reason = reason;
              choice = none;
              egress_manifest = row;
            } =
              ground arith in
            let after : c' ≡ c1 = ground arith in
            let recorded = record_egress_manifest-Recorded env m row c c1 ran in
            (rw same refl, rw same refl, (j, rw (same, after) recorded))
      ]

  record_allowed-Allowed :
      (l : Loaded) (x : Choice)
      → ((r : RouteProfile) × Routed env c l request
            (eligible_routes env l.routes request.role)
            r
            x)
      → record_allowed env request x c ≡ (ok d, c')
      → (d.choice ≡ some x) × Allowed env request c c' l d x
  unfolding record_allowed
  record_allowed-Allowed l x routed h =
      let m = sealed env (allow_manifest request x) in
      elim (Reply-cases (record_egress_manifest env m c)) [
        | inr (e, c1, failed) ↦ absurd (ground arith)
        | inl (row, c1, ran) ↦
            let same : d ≡ record {
              status = "allowed";
              reason = row.decision_reason;
              choice = some x;
              egress_manifest = row;
            } =
              ground arith in
            let after : c' ≡ c1 = ground arith in
            let recorded = record_egress_manifest-Recorded env m row c c1 ran in
            (
              rw same refl,
              record {
                status = rw same refl;
                chosen = routed;
                recorded = rw (same, after) recorded;
              },
            )
      ]

  abbrev Settled : Loaded → Type 0
  Settled l = (o : Option Choice) × (d.choice ≡ o) × Decided env request c c' l d o

  settle_verdict-Settled :
      (l : Loaded) (start : Denial)
      → settle_verdict env request
          (scan_routes env c l request (eligible_routes env l.routes request.role) start)
          c
        ≡ (ok d, c')
      → Settled l
  unfolding settle_verdict
  settle_verdict-Settled l start h =
      let rs = eligible_routes env l.routes request.role in
      elim (Verdict-cases (scan_routes env c l request rs start)) [
        | inl (x, chosen) ↦
            let routed = scan_routes-Routed env c l request rs start x chosen in
            let (choice, allowed) = record_allowed-Allowed l x routed (rw chosen at h) in
            (some x, choice, allowed)
        | inr (f, e, skipped) ↦
            let (status, choice, recorded) =
              record_denied-Recorded e.route_id e.reason (rw skipped at h) in
            (
              none,
              choice,
              record {
                status = status;
                exhausted = scan_routes-Exhausted env c l request rs f start e skipped;
                recorded = recorded;
              },
            )
      ]

  choose-Settled :
      (l : Loaded) (rs : List RouteProfile)
      → eligible_routes env l.routes request.role ≡ rs
      → choose env request l rs c ≡ (ok d, c')
      → Settled l
  unfolding choose
  choose-Settled l [] e h =
      let (status, choice, recorded) =
        record_denied-Recorded "" "no route profile is enabled for the requested role" h in
      (none, choice, record { status = status; exhausted = rw e tt; recorded = recorded })
  choose-Settled l (first ∷ rest) e h =
      settle_verdict-Settled l
        (record {
          reason =
              "no enabled model satisfied route, data, capability, endpoint, cost, and trust constraints";
          route_id = first.id;
        })
        (rw e h)

-- A decision is made at the profiles that are stored when the defaults are. It allows a model of an
-- eligible route that takes the request's tokens and data classes: the model is listed by the
-- route and serves the role; its provider takes the data classes, is enabled, and has an endpoint
-- that passes its check; a remote model has a latest probe that passed and covers its
-- capabilities; the cost is not above the route's maximum; and on a route that keeps trust the
-- provider is trusted no less than that of the route's first candidate. Or it denies, and then on
-- no eligible route that takes the request and does not keep trust a candidate could have been
-- admitted. Either way one manifest is recorded, which is valid, is that of the decision, and
-- carries its digest, and nothing else is changed.
pub simulate_route_decides :
    (env : RouteEnv) (request : RouteRequest) (c c' : Catalog) (d : RouteDecision)
    → simulate_route env request c ≡ (ok d, c')
    → (c1 : Catalog) × (l : Loaded) × (o : Option Choice) × (ensure_defaults env c ≡ (ok tt, c1))
      × (request_valid request ≡ true)
      × (load env c1 ≡ (ok l, c1))
      × (d.choice ≡ o)
      × Decided env request c1 c' l d o
unfolding simulate_route route_checked
simulate_route_decides env request c c' d h = elim (Reply-cases (ensure_defaults env c)) [
  | inr (e, c1, failed) ↦ absurd (ground arith)
  | inl (u, c1, ready) ↦ elim (Bool-cases (request_valid request)) [
    | inr bad ↦ absurd (ground arith)
    | inl good ↦
        let classes = request_classes request good in
        elim (Reply-cases (load env c1)) [
          | inr (e, c2, failed) ↦ absurd (ground arith)
          | inl (l, c2, read) ↦
              let same = load-catalog env c1 c2 l read in
              let (o, choice, decided) =
                choose-Settled env request c1 c' d l _ refl (ground arith) in
              (c1, l, o, ready, good, read ∙ ap (λ z. (ok l, z)) same, choice, decided)
        ]
  ]
]
