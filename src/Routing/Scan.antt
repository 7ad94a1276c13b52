-- ===== src/Routing/Scan.antt =====
-- internal/providers/service.go: the loops of SimulateRoute. A verdict on a candidate is a choice,
-- or goes on with the trust floor of the route and the reason for a denial so far.
pub mod Laws
pub mod Trust
pub mod Chosen
use code_maintainer.Base.{
  ℕ, String, Bool, true, false, not, ◌&&◌, ◌||◌, Option, none, some, List, [], ◌∷◌, ltb, ◌==◌, ◌is◌,
  if◌then◌else◌,
}
use code_maintainer.Base.Int.{ℤ, pos, ltb_ℤ}
use code_maintainer.Base.Text.{concat}
use code_maintainer.Scheduler.Types.{one_of}
use code_maintainer.Routing.Profiles.{
  Float, ProviderProfile, EndpointProfile, ModelProfile, RouteProfile, RouteRequest,
}
use code_maintainer.Routing.Parsers.{Parsers}
use code_maintainer.Routing.Checks.{endpoint_error, refused}
use code_maintainer.Routing.Catalog.{RouteEnv, Catalog}
use code_maintainer.Routing.Select.{
  data_classes_allowed, fallback_preserves_trust, trust_rank, estimate_cost_usd, remote_probe_error,
}

-- The maps and the routes that `load` reads.
pub record Loaded : Type 0 where
  pub providers : List ProviderProfile
  pub endpoints : List EndpointProfile
  pub models : List ModelProfile
  pub routes : List RouteProfile

pub record Denial : Type 0 where
  pub reason : String
  pub route_id : String

-- trustFloor and trustFloorTier
pub record Floor : Type 0 where
  pub rank : ℕ
  pub tier : String

pub record Choice : Type 0 where
  pub route : RouteProfile
  pub provider : ProviderProfile
  pub endpoint : EndpointProfile
  pub model : ModelProfile

pub data Verdict {ℓ} (A : Type ℓ) : Type ℓ where
  go : A → Verdict A
  skip : Floor → Denial → Verdict A

infixl 5 ◌>>=◌ ◌>>◌
abbrev pub ◌>>=◌ : {A B : Type 0} → Verdict A → (A → Verdict B) → Verdict B
go a >>= f = f a
skip floor d >>= f = skip floor d

abbrev pub ◌>>◌ : {B : Type 0} → Verdict (Unit {0}) → Verdict B → Verdict B
m >> k = m >>= λ _. k

-- `if !test { continue }`
abbrev pub unless : Bool → Floor → Denial → Verdict (Unit {0})
unless true floor d = go tt
unless false floor d = skip floor d

abbrev pub present : {A : Type 0} → Option A → Floor → Denial → Verdict A
present none floor d = skip floor d
present (some a) floor d = go a

-- The entry of a map that is filled from a list: the last element of the key.
abbrev pub last_found {ℓ} : {A : Type ℓ} → (A → Bool) → List A → Option A
last_found p [] = none
last_found p (x ∷ xs) = elim (last_found p xs) [
  | some y ↦ some y
  | none ↦ (if p x then some x else none)
]

abbrev pub no_floor : Floor
no_floor = record { rank = 0; tier = "" }

-- The first candidate with a rank sets the floor.
unfoldable pub raise_floor : RouteProfile → ProviderProfile → Floor → Floor
raise_floor r p floor =
    if fallback_preserves_trust r.fallback_policy && floor.rank == 0
    then record { rank = trust_rank p.trust_tier; tier = p.trust_tier }
    else floor

unfoldable pub is_below_floor : RouteProfile → ProviderProfile → Floor → Bool
is_below_floor r p floor =
    fallback_preserves_trust r.fallback_policy
    && ltb 0 floor.rank
    && ltb (trust_rank p.trust_tier) floor.rank

abbrev pub lower_trust : RouteProfile → ProviderProfile → Floor → Denial
lower_trust r p floor = record {
  reason = concat (
      "route " ∷ r.id ∷ " rejected lower-trust fallback from " ∷ floor.tier ∷ " to " ∷ p.trust_tier
      ∷ []);
  route_id = r.id;
}

unfoldable pub is_over_cost : Parsers → RouteProfile → ModelProfile → ℤ → Bool
is_over_cost parsers r m tokens =
    parsers.float_less (parsers.float_of (pos 0)) r.max_cost_usd
    && parsers.float_less r.max_cost_usd (estimate_cost_usd parsers tokens m)

abbrev pub over_cost : Parsers → RouteProfile → ModelProfile → ℤ → Denial
over_cost parsers r m tokens = record {
  reason = concat (
      "route "
      ∷ r.id
      ∷ " rejected estimated cost "
      ∷ parsers.float_text (estimate_cost_usd parsers tokens m)
      ∷ " above maximum "
      ∷ parsers.float_text r.max_cost_usd
      ∷ []);
  route_id = r.id;
}

-- A remote candidate is asked for its latest probe.
abbrev pub probed : RouteEnv → Catalog → Choice → RouteRequest → Option String
probed env c x request =
    if x.provider.remote
    then remote_probe_error env c x.provider x.endpoint x.model request
    else none

abbrev pub or_skip : Option String → String → Floor → Denial → Verdict (Unit {0})
or_skip none route_id floor d = go tt
or_skip (some text) route_id floor d = skip floor (record { reason = text; route_id = route_id })

-- What is asked of a candidate after its trust.
unfoldable pub admit : RouteEnv → Catalog → RouteRequest → Choice → Floor → Denial → Verdict Choice
unfolding is_over_cost
admit env c request x floor d = do
  or_skip (probed env c x request) x.route.id floor d
  unless x.provider.enabled floor d
  unless (not request.requires_structured_output || x.model.capabilities.structured_outputs) floor d
  unless (not (is_over_cost env.parsers x.route x.model request.estimated_tokens)) floor
      (over_cost env.parsers x.route x.model request.estimated_tokens)
  go x

-- What is asked of a candidate before: its profiles, roles, data classes and endpoint.
unfoldable pub candidate :
    RouteEnv → Loaded → RouteProfile → RouteRequest → String → Floor → Denial → Verdict Choice
candidate env l r request k floor d = do
  model ← present (last_found (λ (m : ModelProfile). m.id is k) l.models) floor d
  unless (one_of model.role_eligibility request.role) floor d
  provider ←
      present (last_found (λ (p : ProviderProfile). p.id is model.provider_id) l.providers) floor d
  unless (data_classes_allowed request.data_classes provider.approved_data_classes) floor d
  endpoint ←
      present (last_found (λ (e : EndpointProfile). e.id is model.endpoint_id) l.endpoints) floor d
  unless (not (refused (endpoint_error env.parsers endpoint provider))) floor d
  go (record { route = r; provider = provider; endpoint = endpoint; model = model })

-- The trust check, and what follows it.
unfoldable pub trusted :
    RouteEnv → Catalog → RouteRequest → Floor → Denial → Choice → Verdict Choice
unfolding admit raise_floor is_below_floor
trusted env c request floor d x = do
  let raised = raise_floor x.route x.provider floor
  unless (not (is_below_floor x.route x.provider raised)) raised
      (lower_trust x.route x.provider raised)
  admit env c request x raised d

-- One round of the loop over the models of a route.
unfoldable pub consider :
    RouteEnv
    → Catalog
    → Loaded
    → RouteProfile
    → RouteRequest
    → String
    → Floor
    → Denial
    → Verdict Choice
unfolding candidate trusted
consider env c l r request k floor d =
    candidate env l r request k floor d >>= trusted env c request floor d

-- The loop over the models of a route.
unfoldable pub scan_models :
    RouteEnv
    → Catalog
    → Loaded
    → RouteProfile
    → RouteRequest
    → List String
    → Floor
    → Denial
    → Verdict Choice
unfolding consider
scan_models env c l r request [] floor d = skip floor d
scan_models env c l r request (k ∷ ks) floor d = elim (consider env c l r request k floor d) [
  | go x ↦ go x
  | skip floor' d' ↦ scan_models env c l r request ks floor' d'
]

-- A route takes the data classes and the tokens of the request.
unfoldable pub route_takes : RouteRequest → RouteProfile → Bool
route_takes request r =
    data_classes_allowed request.data_classes r.allowed_data_classes
    && not (ltb_ℤ r.max_tokens_per_request request.estimated_tokens)

-- One round of the loop over the routes.
unfoldable pub scan_route :
    RouteEnv → Catalog → Loaded → RouteRequest → RouteProfile → Denial → Verdict Choice
unfolding scan_models route_takes
scan_route env c l request r d =
    if route_takes request r
    then scan_models env c l r request r.ordered_model_ids no_floor d
    else skip no_floor d

-- The loop over the routes.
unfoldable pub scan_routes :
    RouteEnv → Catalog → Loaded → RouteRequest → List RouteProfile → Denial → Verdict Choice
unfolding scan_route
scan_routes env c l request [] d = skip no_floor d
scan_routes env c l request (r ∷ rs) d = elim (scan_route env c l request r d) [
  | go x ↦ go x
  | skip floor d' ↦ scan_routes env c l request rs d'
]
