-- ===== src/Routing/Scan/Laws.antt =====
-- What holds of the candidate that the loops of SimulateRoute choose.
use code_maintainer.Base.{
  ◌≡◌, refl, String, true, false, arith, none, some, Option-cases, Bool-cases, ◌is◌, inl, inr,
}
use code_maintainer.Scheduler.Types.{one_of}
use code_maintainer.Routing.Profiles.{
  ProviderProfile, EndpointProfile, ModelProfile, RouteProfile, RouteRequest,
}
use code_maintainer.Routing.Checks.{endpoint_error}
use code_maintainer.Routing.Catalog.{RouteEnv, Catalog}
use code_maintainer.Routing.Select.{data_classes_allowed, remote_probe_error}
use code_maintainer.Routing.Scan.{
  Loaded, Denial, Floor, Choice, Verdict, go, skip, ◌>>=◌, last_found, is_over_cost, admit,
  candidate, trusted, consider, raise_floor, is_below_floor, no_floor,
}

-- The profiles of a candidate belong together, and take the request.
pub record Fits (env : RouteEnv) (l : Loaded) (r : RouteProfile) (request : RouteRequest)
    (k : String) (x : Choice) : Type 0 where
  pub route : x.route ≡ r
  pub model : last_found (λ (m : ModelProfile). m.id is k) l.models ≡ some x.model
  pub provider :
      last_found (λ (p : ProviderProfile). p.id is x.model.provider_id) l.providers
      ≡ some x.provider
  pub endpoint :
      last_found (λ (e : EndpointProfile). e.id is x.model.endpoint_id) l.endpoints
      ≡ some x.endpoint
  pub role : one_of x.model.role_eligibility request.role ≡ true
  pub classes : data_classes_allowed request.data_classes x.provider.approved_data_classes ≡ true
  pub address : endpoint_error env.parsers x.endpoint x.provider ≡ none

-- A candidate that is admitted is enabled, has a probe if it is remote, and can be paid.
pub record Admitted (env : RouteEnv) (c : Catalog) (request : RouteRequest) (x : Choice)
    : Type 0 where
  pub enabled : x.provider.enabled ≡ true
  pub probe :
      x.provider.remote ≡ true
      → remote_probe_error env c x.provider x.endpoint x.model request ≡ none
  pub structured :
      request.requires_structured_output ≡ true → x.model.capabilities.structured_outputs ≡ true
  pub cost : is_over_cost env.parsers x.route x.model request.estimated_tokens ≡ false

pub >>=-go :
    {A B : Type 0} (m : Verdict A) (f : A → Verdict B) {b : B}
    → (m >>= f) ≡ go b
    → (a : A) × (m ≡ go a) × (f a ≡ go b)
>>=-go (go a) f h = (a, refl, h)
>>=-go (skip floor d) f h = absurd (cc)

pub candidate-Fits :
    (env : RouteEnv) (l : Loaded) (r : RouteProfile) (request : RouteRequest) (k : String)
    (floor : Floor) (d : Denial) (x : Choice)
    → candidate env l r request k floor d ≡ go x
    → Fits env l r request k x
unfolding candidate
candidate-Fits env l r request k floor d x h =
    elim (Option-cases (last_found (λ (m : ModelProfile). m.id is k) l.models)) [
      | inl missing ↦ absurd (ground arith)
      | inr (m, found) ↦
          elim (Option-cases
            (last_found (λ (p : ProviderProfile). p.id is m.provider_id) l.providers)) [
              | inl missing ↦ absurd (ground arith)
              | inr (p, held) ↦
                  elim (Option-cases
                    (last_found (λ (e : EndpointProfile). e.id is m.endpoint_id) l.endpoints)) [
                      | inl missing ↦ absurd (ground arith)
                      | inr (e, at) ↦ ground arith
                    ]
            ]
    ]

admit-Admitted :
    (env : RouteEnv) (c : Catalog) (request : RouteRequest) (x y : Choice) (floor : Floor)
    (d : Denial)
    → admit env c request x floor d ≡ go y
    → (y ≡ x) × Admitted env c request x
unfolding admit
admit-Admitted env c request x y floor d h = ground arith

trusted-Admitted :
    (env : RouteEnv) (c : Catalog) (request : RouteRequest) (x y : Choice) (floor : Floor)
    (d : Denial)
    → trusted env c request floor d x ≡ go y
    → (y ≡ x)
      × Admitted env c request x
      × (is_below_floor x.route x.provider (raise_floor x.route x.provider floor) ≡ false)
unfolding trusted
trusted-Admitted env c request x y floor d h =
    let raised = raise_floor x.route x.provider floor in
    elim (Bool-cases (is_below_floor x.route x.provider raised)) [
      | inl low ↦ absurd (ground arith)
      | inr high ↦
          let (same, admitted) = admit-Admitted env c request x y raised d (ground arith) in
          (same, admitted, high)
    ]

-- A round that chooses has chosen a candidate that fits and is admitted.
pub consider-go :
    (env : RouteEnv) (c : Catalog) (l : Loaded) (r : RouteProfile) (request : RouteRequest)
    (k : String) (floor : Floor) (d : Denial) (x : Choice)
    → consider env c l r request k floor d ≡ go x
    → (candidate env l r request k floor d ≡ go x)
      × Admitted env c request x
      × (is_below_floor x.route x.provider (raise_floor x.route x.provider floor) ≡ false)
unfolding consider
consider-go env c l r request k floor d x h =
    let (y, found, passed) =
      >>=-go (candidate env l r request k floor d) (trusted env c request floor d) h in
    let (same, admitted, high) = trusted-Admitted env c request y x floor d passed in
    (rw same found, rw same admitted, rw same high)

pub consider-Fits :
    (env : RouteEnv) (c : Catalog) (l : Loaded) (r : RouteProfile) (request : RouteRequest)
    (k : String) (floor : Floor) (d : Denial) (x : Choice)
    → consider env c l r request k floor d ≡ go x
    → Fits env l r request k x
consider-Fits env c l r request k floor d x h =
    candidate-Fits env l r request k floor d x (consider-go env c l r request k floor d x h).0

abbrev pub no_denial : Denial
no_denial = record { reason = ""; route_id = "" }

-- Whether a model is a candidate does not depend on the rounds before.
abbrev pub fitting : RouteEnv → Loaded → RouteProfile → RouteRequest → String → Verdict Choice
fitting env l r request k = candidate env l r request k no_floor no_denial

abbrev pub resumed : Verdict Choice → Floor → Denial → Verdict Choice
resumed (go x) floor d = go x
resumed (skip _ _) floor d = skip floor d

pub candidate-fitting :
    (env : RouteEnv) (l : Loaded) (r : RouteProfile) (request : RouteRequest) (k : String)
    (floor : Floor) (d : Denial)
    → candidate env l r request k floor d ≡ resumed (fitting env l r request k) floor d
unfolding candidate
candidate-fitting env l r request k floor d =
    elim (Option-cases (last_found (λ (m : ModelProfile). m.id is k) l.models)) [
      | inl missing ↦ ground arith
      | inr (m, found) ↦
          elim (Option-cases
            (last_found (λ (p : ProviderProfile). p.id is m.provider_id) l.providers)) [
              | inl missing ↦ ground arith
              | inr (p, held) ↦
                  elim (Option-cases
                    (last_found (λ (e : EndpointProfile). e.id is m.endpoint_id) l.endpoints)) [
                      | inl missing ↦ ground arith
                      | inr (e, stands) ↦ ground arith
                    ]
            ]
    ]
