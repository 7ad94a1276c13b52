-- ===== src/Routing/Select.antt =====
-- internal/providers/service.go: the loops of SimulateRoute over the routes of a role and the
-- models of a route, and what they ask of a candidate.
use code_maintainer.Base.{
  ℕ, String, Bool, true, not, ◌&&◌, ◌||◌, Option, none, some, List, [], ◌∷◌, all, keep, length, leb,
  ◌is◌, if◌then◌else◌,
}
use code_maintainer.Base.Int.{ℤ, pos, leb_ℤ}
use code_maintainer.Base.Text.{codes, concat}
use code_maintainer.Base.Stamp.{text_before}
use code_maintainer.Scheduler.Order.{stable_sort}
use code_maintainer.Scheduler.Types.{one_of}
use code_maintainer.Routing.Profiles.{
  Float, CapabilitySet, CapabilityProbe, ProviderProfile, EndpointProfile, ModelProfile,
  RouteProfile, RouteRequest,
}
use code_maintainer.Routing.Parsers.{Parsers}
use code_maintainer.Routing.Catalog.{RouteEnv, Catalog, Reply, ok, err, driver}
use code_maintainer.Routing.Records.{list_capability_probes}

-- The comparison that eligibleRoutes gives to sort.Slice.
unfoldable pub route_less : RouteProfile → RouteProfile → Bool
route_less a b =
    if a.preference is b.preference
    then text_before (codes a.id) (codes b.id)
    else if a.preference is "local_first"
    then true
    else not (b.preference is "local_first")

-- sort.Slice: an insertion sort of at most twelve elements.
unfoldable pub sort_routes : RouteEnv → List RouteProfile → List RouteProfile
sort_routes env rs = if leb (length rs) 12 then stable_sort route_less rs else env.sort_long rs

abbrev pub is_eligible : String → RouteProfile → Bool
is_eligible role r = r.enabled && r.role is role

-- eligibleRoutes
unfoldable pub eligible_routes : RouteEnv → List RouteProfile → String → List RouteProfile
unfolding sort_routes
eligible_routes env rs role = sort_routes env (keep (is_eligible role) rs)

-- dataClassesAllowed
unfoldable pub data_classes_allowed : List String → List String → Bool
data_classes_allowed requested allowed = all (one_of allowed) requested

-- fallbackPreservesTrust
unfoldable pub fallback_preserves_trust : String → Bool
fallback_preserves_trust policy =
    policy is "same_trust_or_stricter" || policy is "explicit_same_or_higher_trust_only"

-- trustRank
unfoldable pub trust_rank : String → ℕ
trust_rank trust =
    if trust is "local"
    then 4
    else if trust is "approved_enterprise"
    then 3
    else if trust is "approved_private"
    then 2
    else if trust is "public_remote"
    then 1
    else 0

abbrev implies : Bool → Bool → Bool
implies a b = not a || b

-- capabilitySetCovers
unfoldable pub capability_set_covers : CapabilitySet → CapabilitySet → Bool
capability_set_covers required observed =
    implies required.responses_api observed.responses_api
    && implies required.chat_completions observed.chat_completions
    && implies required.streaming observed.streaming
    && implies required.cancellation observed.cancellation
    && implies required.structured_outputs observed.structured_outputs
    && implies required.tool_calls observed.tool_calls
    && implies required.parallel_tool_calls observed.parallel_tool_calls
    && implies required.stable_tool_call_ids observed.stable_tool_call_ids
    && implies required.system_messages observed.system_messages
    && implies required.developer_messages observed.developer_messages
    && implies required.usage_accounting observed.usage_accounting
    && implies required.reasoning_controls observed.reasoning_controls
    && implies required.prompt_caching observed.prompt_caching
    && implies required.batch observed.batch
    && implies required.asynchronous observed.asynchronous
    && implies required.model_listing observed.model_listing
    && implies required.immutable_model_ids observed.immutable_model_ids

-- estimateCostUSD
unfoldable pub estimate_cost_usd : Parsers → ℤ → ModelProfile → Float
estimate_cost_usd p tokens m =
    if leb_ℤ tokens (pos 0)
    then p.float_of (pos 0)
    else let half = p.float_div (p.float_of tokens) (p.float_of (pos 2_000_000)) in
      p.float_add (p.float_mul half m.input_price_per_mtok)
        (p.float_mul half m.output_price_per_mtok)

-- What the latest probe of a remote model is refused for.
unfoldable pub probe_error :
    ProviderProfile → EndpointProfile → ModelProfile → Bool → CapabilityProbe → Option String
probe_error p e m structured probe =
    if not (probe.status is "passed")
    then some (concat ("remote model " ∷ m.id ∷ " latest capability probe failed" ∷ []))
    else if not (probe.provider_id is p.id)
        || not (probe.endpoint_id is e.id)
        || not (probe.interface_family is p.interface_family)
    then some (
        concat (
          "remote model " ∷ m.id ∷ " latest capability probe no longer matches provider endpoint"
          ∷ []))
    else if not (probe.observed_model_id is m.model_id)
    then some (
        concat (
          "remote model " ∷ m.id ∷ " observed model drift: probe saw " ∷ probe.observed_model_id
          ∷ ", profile pins " ∷ m.model_id ∷ []))
    else if structured && not probe.capabilities.structured_outputs
    then some (
        concat (
          "remote model " ∷ m.id ∷ " latest capability probe lacks structured output support" ∷ []))
    else if not (capability_set_covers m.capabilities probe.capabilities)
    then some (
        concat (
          "remote model " ∷ m.id
          ∷ " latest capability probe no longer covers pinned capability profile" ∷ []))
    else none

abbrev latest_error :
    RouteEnv
    → ProviderProfile
    → EndpointProfile
    → ModelProfile
    → Bool
    → Reply (List CapabilityProbe)
    → Option String
latest_error env p e m structured (err (driver k)) = some (env.driver_text k)
latest_error env p e m structured (err _) = some ""
latest_error env p e m structured (ok []) =
    some (concat ("remote model " ∷ m.id ∷ " has no retained successful capability probe" ∷ []))
latest_error env p e m structured (ok (probe ∷ _)) = probe_error p e m structured probe

-- remoteProbeAllows: the text of its error. The listing fails only by the driver.
unfoldable pub remote_probe_error :
    RouteEnv
    → Catalog
    → ProviderProfile
    → EndpointProfile
    → ModelProfile
    → RouteRequest
    → Option String
unfolding probe_error
remote_probe_error env c p e m request =
    latest_error env p e m request.requires_structured_output
      (list_capability_probes env m.id (pos 1) c).0
