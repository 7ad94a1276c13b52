-- ===== src/Routing/Keeps/States.antt =====
-- internal/storage/sqlite/providers.go: an upsert leaves the catalogue as it was, or writes a
-- row that its check passed.
use code_maintainer.Base.{
  ◌≡◌, refl, ◌∙◌, sym, ap, String, Bool, true, arith, some, List, [], ◌∷◌, any, find, Bool-cases,
  Option-cases, inl, inr, ◌⊎◌, ◌is◌,
}
use code_maintainer.Routing.Profiles.{ProviderProfile, EndpointProfile, ModelProfile, RouteProfile}
use code_maintainer.Routing.Checks.{
  refused, provider_valid, endpoint_error, model_error, route_valid,
}
use code_maintainer.Routing.Catalog.{
  RouteEnv, Catalog, ok, upsert_row, write_provider, write_endpoint, write_model, write_route,
}
use code_maintainer.Routing.Tables.{
  get_provider_profile, stamp_provider, next_provider, upsert_provider_profile, stamp_endpoint,
  next_endpoint, upsert_endpoint_profile, stamp_model, next_model, upsert_model_profile,
  stamp_route, next_route, upsert_route_profile, get_endpoint_profile, get_model_profile,
  get_route_profile,
}
use code_maintainer.Routing.Simulate.Laws.{Reply-cases}
use code_maintainer.Routing.Keeps.Intact.{has_provider, has_endpoint}

get_provider_profile-state :
    (env : RouteEnv) (k : String) (c : Catalog) → (get_provider_profile env k c).1 ≡ c
unfolding get_provider_profile
get_provider_profile-state env k c =
    elim (Option-cases (find (λ (x : ProviderProfile). x.id is k) c.providers)) [
      | inl missing ↦ ground arith
      | inr (x, held) ↦ ground arith
    ]

get_endpoint_profile-state :
    (env : RouteEnv) (k : String) (c : Catalog) → (get_endpoint_profile env k c).1 ≡ c
unfolding get_endpoint_profile
get_endpoint_profile-state env k c =
    elim (Option-cases (find (λ (x : EndpointProfile). x.id is k) c.endpoints)) [
      | inl missing ↦ ground arith
      | inr (x, held) ↦ ground arith
    ]

get_model_profile-state :
    (env : RouteEnv) (k : String) (c : Catalog) → (get_model_profile env k c).1 ≡ c
unfolding get_model_profile
get_model_profile-state env k c =
    elim (Option-cases (find (λ (x : ModelProfile). x.id is k) c.models)) [
      | inl missing ↦ ground arith
      | inr (x, held) ↦ ground arith
    ]

get_route_profile-state :
    (env : RouteEnv) (k : String) (c : Catalog) → (get_route_profile env k c).1 ≡ c
unfolding get_route_profile
get_route_profile-state env k c =
    elim (Option-cases (find (λ (x : RouteProfile). x.id is k) c.routes)) [
      | inl missing ↦ ground arith
      | inr (x, held) ↦ ground arith
    ]

find-any {ℓ} :
    {A : Type ℓ} (q : A → Bool) (xs : List A) (x : A) → find q xs ≡ some x → any q xs ≡ true
find-any q [] x h = absurd (cc)
find-any q (y ∷ xs) x h =
    let rest = find-any q xs x in
    elim (Bool-cases (q y)) [ inl here ↦ ground arith | inr there ↦ ground (arith, rest) ]

get_provider_profile-held :
    (env : RouteEnv) (k : String) (c c' : Catalog) (p : ProviderProfile)
    → get_provider_profile env k c ≡ (ok p, c')
    → (c' ≡ c) × (has_provider c k ≡ true)
unfolding get_provider_profile
get_provider_profile-held env k c c' p h =
    elim (Option-cases (find (λ (x : ProviderProfile). x.id is k) c.providers)) [
      | inl missing ↦ absurd (ground arith)
      | inr (x, held) ↦ let at = find-any _ c.providers x held in (ground arith, at)
    ]

get_endpoint_profile-held :
    (env : RouteEnv) (k : String) (c c' : Catalog) (p : EndpointProfile)
    → get_endpoint_profile env k c ≡ (ok p, c')
    → (c' ≡ c) × (has_endpoint c k ≡ true)
unfolding get_endpoint_profile
get_endpoint_profile-held env k c c' p h =
    elim (Option-cases (find (λ (x : EndpointProfile). x.id is k) c.endpoints)) [
      | inl missing ↦ absurd (ground arith)
      | inr (x, held) ↦ let at = find-any _ c.endpoints x held in (ground arith, at)
    ]

pub upsert_endpoint_profile-state :
    (env : RouteEnv) (e : EndpointProfile) (c : Catalog)
    → let row = stamp_endpoint env e in
      ((upsert_endpoint_profile env e c).1 ≡ c)
      ⊎ ((has_provider c e.provider_id ≡ true)
          × ((upsert_endpoint_profile env e c).1 ≡ record c {
            endpoints = upsert_row (λ x. x.id is row.id) (next_endpoint row) row c.endpoints;
          }))
unfolding upsert_endpoint_profile
upsert_endpoint_profile-state env e c =
    let row = stamp_endpoint env e in
    let last = get_endpoint_profile-state env row.id in
    let read = get_provider_profile-state env e.provider_id c in
    elim (Reply-cases (get_provider_profile env e.provider_id c)) [
      | inr (x, c1, lost) ↦ inl (rw lost (ap (λ r. r.1) (sym lost) ∙ read))
      | inl (p, c1, ran) ↦
          let (same, held) = get_provider_profile-held env e.provider_id c c1 p ran in
          let at = ran ∙ ap (λ x. (ok p, x)) same in
          elim (Bool-cases (refused (endpoint_error env.parsers row p))) [
            | inl bad ↦ inl (rw (at, bad) refl)
            | inr good ↦ elim (Bool-cases (env.fault write_endpoint)) [
              | inl failed ↦ inl (rw (at, good, failed) refl)
              | inr wrote ↦ inr (held, rw (at, good, wrote) (last _))
            ]
          ]
    ]

pub upsert_model_profile-state :
    (env : RouteEnv) (m : ModelProfile) (c : Catalog)
    → let row = stamp_model env m in
      ((upsert_model_profile env m c).1 ≡ c)
      ⊎ ((has_provider c m.provider_id ≡ true)
          × (has_endpoint c m.endpoint_id ≡ true)
          × ((upsert_model_profile env m c).1 ≡ record c {
            models = upsert_row (λ x. x.id is row.id) (next_model row) row c.models;
          }))
unfolding upsert_model_profile
upsert_model_profile-state env m c =
    let row = stamp_model env m in
    let last = get_model_profile-state env row.id in
    elim (Reply-cases (get_provider_profile env m.provider_id c)) [
      | inr (x, c1, lost) ↦
          inl (rw lost (ap (λ r. r.1) (sym lost) ∙ get_provider_profile-state env m.provider_id c))
      | inl (p, c1, ran) ↦
          let (same, held) = get_provider_profile-held env m.provider_id c c1 p ran in
          let at = ran ∙ ap (λ x. (ok p, x)) same in
          elim (Reply-cases (get_endpoint_profile env m.endpoint_id c)) [
            | inr (x, c2, lost) ↦ inl (
                rw (at, lost)
                  (ap (λ r. r.1) (sym lost) ∙ get_endpoint_profile-state env m.endpoint_id c))
            | inl (e, c2, ran2) ↦
                let (same2, held2) = get_endpoint_profile-held env m.endpoint_id c c2 e ran2 in
                let at2 = ran2 ∙ ap (λ x. (ok e, x)) same2 in
                elim (Bool-cases (refused (model_error env.parsers row p e))) [
                  | inl bad ↦ inl (rw (at, at2, bad) refl)
                  | inr good ↦ elim (Bool-cases (env.fault write_model)) [
                    | inl failed ↦ inl (rw (at, at2, good, failed) refl)
                    | inr wrote ↦ inr (held, held2, rw (at, at2, good, wrote) (last _))
                  ]
                ]
          ]
    ]

pub upsert_provider_profile-state :
    (env : RouteEnv) (p : ProviderProfile) (c : Catalog)
    → let row = stamp_provider env p in
      ((upsert_provider_profile env p c).1 ≡ c)
      ⊎ ((provider_valid row ≡ true)
          × ((upsert_provider_profile env p c).1 ≡ record c {
            providers = upsert_row (λ x. x.id is row.id) (next_provider row) row c.providers;
          }))
unfolding upsert_provider_profile
upsert_provider_profile-state env p c =
    let row = stamp_provider env p in
    let last = get_provider_profile-state env row.id in
    elim (Bool-cases (provider_valid row)) [
      | inr bad ↦ inl (ground arith)
      | inl good ↦ elim (Bool-cases (env.fault write_provider)) [
        | inl failed ↦ inl (ground arith)
        | inr ran ↦ inr (good, rw (good, ran) (last _))
      ]
    ]

pub upsert_route_profile-state :
    (env : RouteEnv) (p : RouteProfile) (c : Catalog)
    → let row = stamp_route env p in
      ((upsert_route_profile env p c).1 ≡ c)
      ⊎ ((route_valid env.parsers row ≡ true)
          × ((upsert_route_profile env p c).1 ≡ record c {
            routes = upsert_row (λ x. x.id is row.id) (next_route row) row c.routes;
          }))
unfolding upsert_route_profile
upsert_route_profile-state env p c =
    let row = stamp_route env p in
    let last = get_route_profile-state env row.id in
    elim (Bool-cases (route_valid env.parsers row)) [
      | inr bad ↦ inl (ground arith)
      | inl good ↦ elim (Bool-cases (env.fault write_route)) [
        | inl failed ↦ inl (ground arith)
        | inr ran ↦ inr (good, rw (good, ran) (last _))
      ]
    ]
