-- ===== src/Routing/Updates/Laws.antt =====
-- internal/providers/service.go: what an update of a route required, and what it stored.
use code_maintainer.Base.{
  ◌≡◌, refl, String, Bool, true, false, ◌||◌, arith, Bool-cases, Option, none, some, Option-cases,
  List, [], ◌∷◌, All, All-map, ◌∙◌, ap, inl, inr, find, ◌is◌, eq_iff,
}
use code_maintainer.Base.Int.{ℤ, pos, negsuc, eqb_ℤ}
use code_maintainer.Base.Text.{is_blank}
use code_maintainer.Routing.Profiles.{
  ProviderProfile, ModelProfile, RouteProfile, UpdateRouteRequest,
}
use code_maintainer.Routing.Checks.{route_valid}
use code_maintainer.Routing.Catalog.{RouteEnv, Catalog, ok, upsert_row}
use code_maintainer.Routing.Tables.{
  list_route_profiles, stamp_route, next_route, upsert_route_profile,
}
use code_maintainer.Routing.Defaults.{ensure_defaults}
use code_maintainer.Routing.Scan.{Loaded}
use code_maintainer.Routing.Simulate.{load}
use code_maintainer.Routing.Simulate.Laws.{Reply-cases, load-catalog}
use code_maintainer.Routing.Updates.{
  bad_update, find_route, provider_in, model_in, uses_remote, after_found, update_route,
}

eqb_ℤ-eq : (a b : ℤ) → eqb_ℤ a b ≡ true → a ≡ b
eqb_ℤ-eq (pos m) (pos n) h = ground arith
eqb_ℤ-eq (pos m) (negsuc n) h = ground arith
eqb_ℤ-eq (negsuc m) (pos n) h = ground arith
eqb_ℤ-eq (negsuc m) (negsuc n) h = ground arith

-- The row with a key after an upsert: the changed row, or the new one.
abbrev pub row_after {ℓ} : {A : Type ℓ} → (A → A) → A → Option A → A
row_after change row none = row
row_after change row (some x) = change x

find-upsert_row {ℓ} :
    {A : Type ℓ} (same : A → Bool) (change : A → A) (row : A) (xs : List A)
    → same row ≡ true
    → ((x : A) → same (change x) ≡ true)
    → find same (upsert_row same change row xs) ≡ some (row_after change row (find same xs))
find-upsert_row same change row [] r f = ground arith
find-upsert_row same change row (x ∷ xs) r f =
    let rest = find-upsert_row same change row xs r f in let kept = f x in ground arith

-- A model of the route is registered, with its provider; and if that is remote, so is the route.
abbrev pub Registered : Loaded → Bool → String → Type 0
Registered l remote k =
    (m : ModelProfile) × (p : ProviderProfile) × (model_in l k ≡ some m)
    × (provider_in l m.provider_id ≡ some p)
    × (p.remote ≡ true → remote ≡ true)

uses_remote-Registered :
    (l : Loaded) (ks : List String) (c c' : Catalog) (remote : Bool)
    → uses_remote l ks c ≡ (ok remote, c')
    → (c' ≡ c) × All (Registered l remote) ks
unfolding uses_remote
uses_remote-Registered l [] c c' remote h = (ground arith, tt)
uses_remote-Registered l (k ∷ ks) c c' remote h = elim (Option-cases (model_in l k)) [
  | inl missing ↦ absurd (ground arith)
  | inr (m, found) ↦ elim (Option-cases (provider_in l m.provider_id)) [
    | inl missing ↦ absurd (ground arith)
    | inr (p, held) ↦ elim (Reply-cases (uses_remote l ks c)) [
      | inr (e, c1, failed) ↦ absurd (ground arith)
      | inl (b, c1, ran) ↦
          let same : (p.remote || b) ≡ remote = ground arith in
          let (stays, rest) = uses_remote-Registered l ks c c1 b ran in
          (
            ground arith,
            (
              (m, p, found, held, λ far. ground arith),
              All-map (λ j (n, q, f, g, far). (n, q, f, g, λ h. let b' = far h in ground arith)) ks
                  rest,
            ),
          )
    ]
  ]
]

module _ (env : RouteEnv) (id : String) (r : UpdateRouteRequest) (actor : String) where
  -- The row that an update would write, before the upsert's stamps.
  abbrev pub updated_route : RouteProfile → RouteProfile
  updated_route current = record r.profile {
    created_at = current.created_at;
    updated_at = current.updated_at;
    version = current.version;
  }

  -- What a successful update of a route required and wrote.
  pub record Updated (c c' : Catalog) (row : RouteProfile) : Type 0 where
    pub loaded : Loaded
    pub current : RouteProfile
    pub remote : Bool
    pub read : load env c ≡ (ok loaded, c)
    pub found : find_route env id c ≡ (ok current, c)
    pub fresh : current.version ≡ r.expected_version
    pub valid : route_valid env.parsers (updated_route current) ≡ true
    pub registered : All (Registered loaded remote) r.profile.ordered_model_ids
    pub approved :
        r.profile.enabled ≡ true
        → remote ≡ true
        → (r.remote_egress_approved ≡ true) × (is_blank r.remote_egress_approval_summary ≡ false)
    pub identity : r.profile.id ≡ id
    pub written :
        let next = stamp_route env (updated_route current) in
        (row
          ≡ row_after
              (next_route next)
              next
              (find (λ (x : RouteProfile). x.id is r.profile.id) c.routes))
        × (c' ≡ record c {
          routes = upsert_row (λ x. x.id is r.profile.id) (next_route next) next c.routes;
        })

upsert_route_profile-written :
    (env : RouteEnv) (p row : RouteProfile) (c c' : Catalog)
    → upsert_route_profile env p c ≡ (ok row, c')
    → let next = stamp_route env p in
      (row ≡ row_after (next_route next) next (find (λ (x : RouteProfile). x.id is p.id) c.routes))
      × (c' ≡ record c { routes = upsert_row (λ x. x.id is p.id) (next_route next) next c.routes })
unfolding upsert_route_profile
upsert_route_profile-written env p row c c' h =
    let next = stamp_route env p in
    let held =
      find-upsert_row (λ (x : RouteProfile). x.id is p.id) (next_route next) next c.routes
        ((eq_iff p.id p.id).1 refl) (λ x. (eq_iff p.id p.id).1 refl) in
    elim (Bool-cases (route_valid env.parsers next)) [
      | inr bad ↦ absurd (ground arith)
      | inl good ↦ ground arith
    ]

list_route_profiles-catalog :
    (env : RouteEnv) (n : ℤ) (c c' : Catalog) (rows : List RouteProfile)
    → list_route_profiles env n c ≡ (ok rows, c')
    → c' ≡ c
unfolding list_route_profiles
list_route_profiles-catalog env n c c' rows h = ground arith

find_route-catalog :
    (env : RouteEnv) (k : String) (c c' : Catalog) (row : RouteProfile)
    → find_route env k c ≡ (ok row, c')
    → c' ≡ c
unfolding find_route
find_route-catalog env k c c' row h = elim (Reply-cases (list_route_profiles env (pos 500) c)) [
  | inr (e, c1, failed) ↦ absurd (ground arith)
  | inl (rows, c1, ran) ↦
      let stays = list_route_profiles-catalog env (pos 500) c c1 rows ran in
      elim (Option-cases (find (λ (r : RouteProfile). r.id is k) rows)) [
        | inl missing ↦ absurd (ground arith)
        | inr (found, held) ↦ ground arith
      ]
]

-- The rest of an update, where the route that it replaces has been found.
update_route_rest :
    (env : RouteEnv) (id : String) (r : UpdateRouteRequest) (actor : String) (c c' : Catalog)
    (row current : RouteProfile) (l : Loaded)
    → bad_update id r.profile.id actor r.reason r.expected_version ≡ false
    → load env c ≡ (ok l, c)
    → find_route env id c ≡ (ok current, c)
    → after_found env r l current c ≡ (ok row, c')
    → Updated env id r actor c c' row
unfolding after_found
update_route_rest env id r actor c c' row current l good read found h =
    let next = updated_route env id r actor current in
    elim (Reply-cases (uses_remote l r.profile.ordered_model_ids c)) [
      | inr (e, c1, failed) ↦ absurd (ground arith)
      | inl (remote, c1, ran) ↦
          let (stays, registered) =
            uses_remote-Registered l r.profile.ordered_model_ids c c1 remote ran in
          let written : upsert_route_profile env (updated_route env id r actor current) c1
              ≡ (ok row, c') =
            ground arith in
          let stored =
            upsert_route_profile-written env (updated_route env id r actor current) row c1 c'
              written in
          record {
            loaded = l;
            current = current;
            remote = remote;
            read = read;
            found = found;
            fresh = eqb_ℤ-eq current.version r.expected_version (ground arith);
            valid = ground arith;
            registered = registered;
            approved = λ enabled far. (ground arith, ground arith);
            identity = (eq_iff r.profile.id id).0 (ground arith);
            written = rw stays at stored;
          }
    ]

-- A successful update of a route had a fresh version, a valid profile and registered models; if it
-- leaves the route enabled and a model of it has a remote provider, it was approved with a
-- rationale. It changes the row of the route, to its next version, and nothing else but the
-- defaults.
pub update_route_ok :
    (env : RouteEnv) (id : String) (r : UpdateRouteRequest) (actor : String) (c c' : Catalog)
    (row : RouteProfile)
    → update_route env id r actor c ≡ (ok row, c')
    → (c1 : Catalog) × (ensure_defaults env c ≡ (ok tt, c1)) × Updated env id r actor c1 c' row
unfolding update_route
update_route_ok env id r actor c c' row h = elim (Reply-cases (ensure_defaults env c)) [
  | inr (e, c1, failed) ↦ absurd (ground arith)
  | inl (u, c1, ready) ↦
      elim (Bool-cases (bad_update id r.profile.id actor r.reason r.expected_version)) [
        | inl bad ↦ absurd (ground arith)
        | inr good ↦ elim (Reply-cases (load env c1)) [
          | inr (e, c2, failed) ↦ absurd (ground arith)
          | inl (l, c2, read) ↦
              let stays = load-catalog env c1 c2 l read in
              elim (Reply-cases (find_route env id c2)) [
                | inr (e, c3, failed) ↦ absurd (ground arith)
                | inl (current, c3, found) ↦
                    let left = find_route-catalog env id c2 c3 current found in
                    (
                      c1,
                      ready,
                      update_route_rest env id r actor c1 c' row current l good
                          (read ∙ ap (λ z. (ok l, z)) stays) (ground arith) (ground arith),
                    )
              ]
        ]
      ]
]
