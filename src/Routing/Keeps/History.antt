-- ===== src/Routing/Keeps/History.antt =====
-- internal/providers/service.go: any sequence of calls of the service, each at its own time, with its
-- own driver failures and identifiers.
use code_maintainer.Base.{Bool, String, List, [], ◌∷◌}
use code_maintainer.Base.Clock.{Time}
use code_maintainer.Routing.Profiles.{
  RouteRequest, UpdateProviderRequest, UpdateEndpointRequest, UpdateModelRequest,
  UpdateRouteRequest,
}
use code_maintainer.Routing.Catalog.{RouteEnv, RouteCall, Catalog}
use code_maintainer.Routing.Defaults.{ensure_defaults}
use code_maintainer.Routing.Simulate.{simulate_route}
use code_maintainer.Routing.Updates.{
  update_provider, update_endpoint, update_model, update_route, probe_model,
}
use code_maintainer.Routing.Keeps.Intact.{Intact}
use code_maintainer.Routing.Keeps.Reads.{ensure_defaults-Keeps}
use code_maintainer.Routing.Keeps.Service.{
  update_provider-Keeps, update_endpoint-Keeps, update_model-Keeps, update_route-Keeps,
  probe_model-Keeps,
}
use code_maintainer.Routing.Keeps.Decisions.{simulate_route-Keeps}

pub data ServiceCall : Type 0 where
  defaults : ServiceCall
  simulate : RouteRequest → ServiceCall
  set_provider : String → UpdateProviderRequest → String → ServiceCall
  set_endpoint : String → UpdateEndpointRequest → String → ServiceCall
  set_model : String → UpdateModelRequest → String → ServiceCall
  set_route : String → UpdateRouteRequest → String → ServiceCall
  probe : String → String → ServiceCall

-- A call and what it meets.
pub record ServiceStep : Type 0 where
  pub now : Time
  pub fault : RouteCall → Bool
  pub new_id : String → String
  pub action : ServiceCall

unfoldable pub serve : RouteEnv → ServiceCall → Catalog → Catalog
serve env ServiceCall.defaults c = (ensure_defaults env c).1
serve env (ServiceCall.simulate r) c = (simulate_route env r c).1
serve env (ServiceCall.set_provider k r actor) c = (update_provider env k r actor c).1
serve env (ServiceCall.set_endpoint k r actor) c = (update_endpoint env k r actor c).1
serve env (ServiceCall.set_model k r actor) c = (update_model env k r actor c).1
serve env (ServiceCall.set_route k r actor) c = (update_route env k r actor c).1
serve env (ServiceCall.probe k actor) c = (probe_model env k actor c).1

abbrev pub at_step : RouteEnv → ServiceStep → RouteEnv
at_step env s = record env { now = s.now; fault = s.fault; new_id = s.new_id }

unfoldable pub serve_all : RouteEnv → List ServiceStep → Catalog → Catalog
unfolding serve
serve_all env [] c = c
serve_all env (s ∷ ss) c = serve_all env ss (serve (at_step env s) s.action c)

serve-Intact :
    (env : RouteEnv) (a : ServiceCall) (c : Catalog)
    → Intact env.parsers c
    → Intact env.parsers (serve env a c)
unfolding serve
serve-Intact env ServiceCall.defaults = ensure_defaults-Keeps env
serve-Intact env (ServiceCall.simulate r) = simulate_route-Keeps env r
serve-Intact env (ServiceCall.set_provider k r actor) = update_provider-Keeps env k r actor
serve-Intact env (ServiceCall.set_endpoint k r actor) = update_endpoint-Keeps env k r actor
serve-Intact env (ServiceCall.set_model k r actor) = update_model-Keeps env k r actor
serve-Intact env (ServiceCall.set_route k r actor) = update_route-Keeps env k r actor
serve-Intact env (ServiceCall.probe k actor) = probe_model-Keeps env k actor

-- Any sequence of calls, each at its own time, with its own driver failures and identifiers, keeps an
-- intact catalogue intact: its providers, routes, manifests and probes pass their Validate methods,
-- each endpoint's provider is stored, and each model's provider and endpoint are.
pub serve_all-Intact :
    (env : RouteEnv) (ss : List ServiceStep) (c : Catalog)
    → Intact env.parsers c
    → Intact env.parsers (serve_all env ss c)
unfolding serve_all
serve_all-Intact env [] c i = i
serve_all-Intact env (s ∷ ss) c i =
    serve_all-Intact env ss (serve (at_step env s) s.action c)
      (serve-Intact (at_step env s) s.action c i)
