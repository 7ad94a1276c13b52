-- ===== src/Routing/Simulate.antt =====
-- internal/providers/service.go: SimulateRoute, which routes a request and records the manifest of
-- its decision.
pub mod Laws
pub mod Decides
pub mod Safe
pub mod Unordered
use code_maintainer.Base.{
  String, Bool, true, false, not, Option, none, some, List, [], ◌∷◌, ◌++◌, ◌is◌, if◌then◌else◌,
}
use code_maintainer.Base.Int.{pos}
use code_maintainer.Base.Text.{codes, concat, is_empty}
use code_maintainer.Base.Stamp.{text_before}
use code_maintainer.Scheduler.Order.{stable_sort}
use code_maintainer.Scheduler.Types.{one_of}
use code_maintainer.Routing.Profiles.{CapabilitySet, RouteProfile, RouteRequest, EgressManifest}
use code_maintainer.Routing.Checks.{request_valid}
use code_maintainer.Routing.Catalog.{
  RouteEnv, Catalog, rejected, Act, ◌>>=◌, ◌>>◌, pure, reject_if, gets,
}
use code_maintainer.Routing.Tables.{
  list_provider_profiles, list_endpoint_profiles, list_model_profiles, list_route_profiles,
}
use code_maintainer.Routing.Records.{record_egress_manifest}
use code_maintainer.Routing.Defaults.{ensure_defaults}
use code_maintainer.Routing.Select.{eligible_routes}
use code_maintainer.Routing.Scan.{Loaded, Denial, Choice, Verdict, go, skip, scan_routes}

-- sortedStrings
unfoldable pub sorted_strings : List String → List String
sorted_strings ss = stable_sort (λ (s : String) (t : String). text_before (codes s) (codes t)) ss

abbrev pub redactions : List String
redactions = "secret_scan" ∷ "credential_patterns" ∷ "hidden_reasoning" ∷ "raw_environment" ∷ []

abbrev pub forbidden_classes : List String
forbidden_classes =
    "secrets" ∷ "credentials" ∷ "signing_material" ∷ "hidden_reasoning" ∷ "raw_environment" ∷ []

-- EnsureNoSecrets: the class that it refuses.
unfoldable pub forbidden_class : List String → Option String
forbidden_class [] = none
forbidden_class (s ∷ ss) =
    let rest = forbidden_class ss in if one_of forbidden_classes s then some s else rest

-- strings.Join(items, ", ")
abbrev pub join_commas : List String → String
join_commas [] = ""
join_commas (s ∷ []) = s
join_commas (s ∷ t ∷ ss) = concat (s ∷ ", " ∷ join_commas (t ∷ ss) ∷ [])

abbrev named_if : Bool → String → List String
named_if b s = if b then s ∷ [] else []

abbrev or_none_probed : List String → String
or_none_probed [] = "no probed capabilities"
or_none_probed (s ∷ ss) = join_commas (s ∷ ss)

-- CapabilitySummary
unfoldable pub capability_summary : CapabilitySet → String
capability_summary c = or_none_probed (
    named_if c.responses_api "responses"
    ++ (named_if c.chat_completions "chat"
        ++ (named_if c.structured_outputs "structured-json"
            ++ (named_if c.tool_calls "tools-proposed" ++ named_if c.batch "batch"))))

-- retentionFor
unfoldable pub retention_for : String → String
retention_for trust =
    if trust is "local"
    then "local-only; no remote retention"
    else if one_of ("approved_private" ∷ "approved_enterprise" ∷ []) trust
    then "operator-asserted private retention profile"
    else "remote retention requires explicit provider assertion review"

-- DenyManifest, before its digest
unfoldable pub deny_manifest : RouteRequest → String → String → EgressManifest
deny_manifest r route_id reason = record {
  id = "";
  job_id = r.job_id;
  project_id = r.project_id;
  route_id = route_id;
  provider_id = "unselected";
  endpoint_id = "unselected";
  model_profile_id = "unselected";
  purpose = r.purpose;
  data_classes = sorted_strings r.data_classes;
  artifact_ids = sorted_strings r.artifact_ids;
  redactions = redactions;
  estimated_bytes = r.estimated_bytes;
  estimated_tokens = r.estimated_tokens;
  retention = "none";
  policy_decision = "denied";
  decision_reason = reason;
  manifest_sha256 = "";
  created_at = 0;
}

-- The manifest of a choice, before its digest.
unfoldable pub allow_manifest : RouteRequest → Choice → EgressManifest
allow_manifest r x = record {
  id = "";
  job_id = r.job_id;
  project_id = r.project_id;
  route_id = x.route.id;
  provider_id = x.provider.id;
  endpoint_id = x.endpoint.id;
  model_profile_id = x.model.id;
  purpose = r.purpose;
  data_classes = sorted_strings r.data_classes;
  artifact_ids = sorted_strings r.artifact_ids;
  redactions = redactions;
  estimated_bytes = r.estimated_bytes;
  estimated_tokens = r.estimated_tokens;
  retention = retention_for x.provider.trust_tier;
  policy_decision = "allowed";
  decision_reason = concat (
      "selected "
      ∷ x.model.id
      ∷ " via "
      ∷ x.provider.interface_family
      ∷ "; capabilities: "
      ∷ capability_summary x.model.capabilities
      ∷ []);
  manifest_sha256 = "";
  created_at = 0;
}

-- HashManifest: the digest leaves out the id, the digest itself and the time.
unfoldable pub hash_manifest : RouteEnv → EgressManifest → String
hash_manifest env m =
    env.manifest_digest (record m { id = ""; manifest_sha256 = ""; created_at = 0 })

abbrev pub sealed : RouteEnv → EgressManifest → EgressManifest
sealed env m = record m {
  manifest_sha256 = hash_manifest env (record m { created_at = env.now });
  created_at = env.now;
}

-- A decision that allows has a choice.
pub record RouteDecision : Type 0 where
  pub status : String
  pub reason : String
  pub choice : Option Choice
  pub egress_manifest : EgressManifest

-- recordAllowed
unfoldable pub record_allowed : RouteEnv → RouteRequest → Choice → Act RouteDecision
record_allowed env r x = do
  m ← record_egress_manifest env (sealed env (allow_manifest r x))
  pure (record {
    status = "allowed";
    reason = m.decision_reason;
    choice = some x;
    egress_manifest = m;
  })

-- recordDenied
unfoldable pub record_denied : RouteEnv → RouteRequest → String → String → Act RouteDecision
record_denied env r route_id reason = do
  m ←
      record_egress_manifest env
        (sealed env (deny_manifest r (if is_empty route_id then "unselected" else route_id) reason))
  pure (record { status = "denied"; reason = reason; choice = none; egress_manifest = m })

-- load
unfoldable pub load : RouteEnv → Act Loaded
load env = do
  providers ← list_provider_profiles env (pos 100)
  endpoints ← list_endpoint_profiles env (pos 100)
  models ← list_model_profiles env (pos 200)
  routes ← list_route_profiles env (pos 100)
  pure (record { providers = providers; endpoints = endpoints; models = models; routes = routes })

unfoldable pub settle_verdict : RouteEnv → RouteRequest → Verdict Choice → Act RouteDecision
unfolding record_allowed record_denied
settle_verdict env r (go x) = record_allowed env r x
settle_verdict env r (skip floor d) = record_denied env r d.route_id d.reason

-- The choice among the routes of the role.
unfoldable pub choose : RouteEnv → RouteRequest → Loaded → List RouteProfile → Act RouteDecision
unfolding settle_verdict record_denied
choose env r l [] = record_denied env r "" "no route profile is enabled for the requested role"
choose env r l (first ∷ rest) = do
  c ← gets (λ c. c)
  settle_verdict env r (
      scan_routes env c l r (first ∷ rest) (record {
        reason =
            "no enabled model satisfied route, data, capability, endpoint, cost, and trust constraints";
        route_id = first.id;
      }))

unfoldable pub route_checked : RouteEnv → RouteRequest → Option String → Act RouteDecision
unfolding choose load
route_checked env r (some class) =
    record_denied env r "" (concat ("forbidden remote data class \"" ∷ class ∷ "\"" ∷ []))
route_checked env r none = do l ← load env; choose env r l (eligible_routes env l.routes r.role)

-- SimulateRoute
unfoldable pub simulate_route : RouteEnv → RouteRequest → Act RouteDecision
unfolding route_checked
simulate_route env r = do
  ensure_defaults env
  reject_if (not (request_valid r)) rejected
  route_checked env r (forbidden_class r.data_classes)
