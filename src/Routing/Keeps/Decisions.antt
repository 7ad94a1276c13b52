-- ===== src/Routing/Keeps/Decisions.antt =====
-- internal/providers/service.go: SimulateRoute keeps the catalogue intact.
use code_maintainer.Base.{String, not, Option, none, some, List, [], ◌∷◌, if◌then◌else◌}
use code_maintainer.Routing.Profiles.{RouteProfile, RouteRequest}
use code_maintainer.Routing.Catalog.{RouteEnv, Catalog}
use code_maintainer.Routing.Defaults.{ensure_defaults}
use code_maintainer.Routing.Simulate.{
  load, record_allowed, record_denied, settle_verdict, choose, route_checked, simulate_route,
  sealed, allow_manifest, deny_manifest, forbidden_class,
}
use code_maintainer.Routing.Select.{eligible_routes}
use code_maintainer.Routing.Scan.{Loaded, Choice, Verdict, go, skip}
use code_maintainer.Routing.Checks.{request_valid}
use code_maintainer.Base.Text.{is_empty}
use code_maintainer.Routing.Records.{record_egress_manifest}
use code_maintainer.Routing.Keeps.{Keeps, >>=-Keeps, reject_if-Keeps}
use code_maintainer.Routing.Keeps.Intact.{Intact}
use code_maintainer.Routing.Keeps.Logs.{record_egress_manifest-Keeps}
use code_maintainer.Routing.Keeps.Reads.{load-Keeps, ensure_defaults-Keeps}

module _ (env : RouteEnv) where
  abbrev I : Catalog → Type 0
  I = Intact env.parsers

  pub record_allowed-Keeps : (r : RouteRequest) (x : Choice) → Keeps I (record_allowed env r x)
  unfolding record_allowed
  record_allowed-Keeps r x =
      >>=-Keeps I (record_egress_manifest env (sealed env (allow_manifest r x))) _
        (record_egress_manifest-Keeps env _) (λ m c i. i)

  pub record_denied-Keeps :
      (r : RouteRequest) (k reason : String) → Keeps I (record_denied env r k reason)
  unfolding record_denied
  record_denied-Keeps r k reason =
      >>=-Keeps I
        (record_egress_manifest env
          (sealed env (deny_manifest r (if is_empty k then "unselected" else k) reason)))
        _ (record_egress_manifest-Keeps env _) (λ m c i. i)

  pub settle_verdict-Keeps :
      (r : RouteRequest) (v : Verdict Choice) → Keeps I (settle_verdict env r v)
  unfolding settle_verdict
  settle_verdict-Keeps r (go x) = record_allowed-Keeps r x
  settle_verdict-Keeps r (skip floor d) = record_denied-Keeps r d.route_id d.reason

  pub choose-Keeps :
      (r : RouteRequest) (l : Loaded) (rs : List RouteProfile) → Keeps I (choose env r l rs)
  unfolding choose
  choose-Keeps r l [] = record_denied-Keeps r "" _
  choose-Keeps r l (first ∷ rest) = λ c i. settle_verdict-Keeps r _ c i

  pub route_checked-Keeps : (r : RouteRequest) (o : Option String) → Keeps I (route_checked env r o)
  unfolding route_checked
  route_checked-Keeps r (some class) = record_denied-Keeps r "" _
  route_checked-Keeps r none =
      >>=-Keeps I (load env) _ (load-Keeps I env)
        (λ l. choose-Keeps r l (eligible_routes env l.routes r.role))

  pub simulate_route-Keeps : (r : RouteRequest) → Keeps I (simulate_route env r)
  unfolding simulate_route
  simulate_route-Keeps r = >>=-Keeps I (ensure_defaults env) _ (ensure_defaults-Keeps env) (λ _.
      reject_if-Keeps I (not (request_valid r)) _ _
        (route_checked-Keeps r (forbidden_class r.data_classes)))
