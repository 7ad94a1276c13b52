-- ===== src/Routing/Keeps/Service.antt =====
-- internal/providers/service.go: the updates and ProbeModel keep the catalogue intact.
use code_maintainer.Base.{String, not, ◌||◌, List, [], ◌∷◌}
use code_maintainer.Base.Int.{eqb_ℤ}
use code_maintainer.Routing.Profiles.{
  UpdateProviderRequest, UpdateEndpointRequest, UpdateModelRequest, UpdateRouteRequest,
}
use code_maintainer.Routing.Catalog.{RouteEnv, Catalog}
use code_maintainer.Routing.Defaults.{ensure_defaults}
use code_maintainer.Routing.Simulate.{load}
use code_maintainer.Routing.Scan.{Loaded}
use code_maintainer.Routing.Checks.{is_profile_id}
use code_maintainer.Providers.Stream.{valid_family}
use code_maintainer.Base.Text.{is_empty}
use code_maintainer.Routing.Updates.{
  bad_update, lacks_approval, provider_in, endpoint_in, model_in, endpoint_of, probe_model,
  update_provider, update_endpoint, update_model, update_route, after_found, uses_remote,
  find_provider, find_endpoint, find_model, find_route,
}
use code_maintainer.Routing.Keeps.{Keeps, >>=-Keeps, reject_if-Keeps, or_fail-then-Keeps}
use code_maintainer.Routing.Keeps.Intact.{Intact}
use code_maintainer.Routing.Keeps.Writes.{
  upsert_provider_profile-Keeps, upsert_endpoint_profile-Keeps, upsert_model_profile-Keeps,
  upsert_route_profile-Keeps,
}
use code_maintainer.Routing.Keeps.Logs.{record_capability_probe-Keeps}
use code_maintainer.Routing.Keeps.Reads.{
  load-Keeps, ensure_defaults-Keeps, find_provider-Keeps, find_endpoint-Keeps, find_model-Keeps,
  find_route-Keeps,
}

module _ (env : RouteEnv) where
  abbrev I : Catalog → Type 0
  I = Intact env.parsers

  pub update_provider-Keeps :
      (id : String) (r : UpdateProviderRequest) (actor : String)
      → Keeps I (update_provider env id r actor)
  unfolding update_provider
  update_provider-Keeps id r actor =
      >>=-Keeps I (ensure_defaults env) _ (ensure_defaults-Keeps env) (λ _.
        reject_if-Keeps I (bad_update id r.profile.id actor r.reason r.expected_version) _ _ (
          >>=-Keeps I (find_provider env id) _ (find_provider-Keeps env id) (λ current.
            reject_if-Keeps I (not (eqb_ℤ current.version r.expected_version)) _ _
              (reject_if-Keeps I _ _ _ (upsert_provider_profile-Keeps env _)))))

  pub update_endpoint-Keeps :
      (id : String) (r : UpdateEndpointRequest) (actor : String)
      → Keeps I (update_endpoint env id r actor)
  unfolding update_endpoint
  update_endpoint-Keeps id r actor =
      >>=-Keeps I (ensure_defaults env) _ (ensure_defaults-Keeps env) (λ _.
        reject_if-Keeps I (bad_update id r.profile.id actor r.reason r.expected_version) _ _ (
          >>=-Keeps I (load env) _ (load-Keeps I env) (λ l.
            >>=-Keeps I (find_endpoint env id) _ (find_endpoint-Keeps env id) (λ current.
              reject_if-Keeps I (not (eqb_ℤ current.version r.expected_version)) _ _ (
                or_fail-then-Keeps I (provider_in l r.profile.provider_id) _ _
                  (λ provider. reject_if-Keeps I _ _ _ (upsert_endpoint_profile-Keeps env _)))))))

  pub update_model-Keeps :
      (id : String) (r : UpdateModelRequest) (actor : String)
      → Keeps I (update_model env id r actor)
  unfolding update_model
  update_model-Keeps id r actor =
      >>=-Keeps I (ensure_defaults env) _ (ensure_defaults-Keeps env) (λ _.
        reject_if-Keeps I (bad_update id r.profile.id actor r.reason r.expected_version) _ _ (
          >>=-Keeps I (load env) _ (load-Keeps I env) (λ l.
            >>=-Keeps I (find_model env id) _ (find_model-Keeps env id) (λ current.
              reject_if-Keeps I (not (eqb_ℤ current.version r.expected_version)) _ _ (
                or_fail-then-Keeps I (provider_in l r.profile.provider_id) _ _ (λ provider.
                  or_fail-then-Keeps I (endpoint_of (endpoint_in l r.profile.endpoint_id) provider)
                    _ _
                    (λ endpoint. reject_if-Keeps I _ _ _ (upsert_model_profile-Keeps env _))))))))

  pub uses_remote-Keeps : (l : Loaded) (ks : List String) → Keeps I (uses_remote l ks)
  unfolding uses_remote
  uses_remote-Keeps l [] = λ c i. i
  uses_remote-Keeps l (k ∷ ks) =
      let rest = uses_remote-Keeps l ks in
      or_fail-then-Keeps I (model_in l k) _ _ (λ model.
        or_fail-then-Keeps I (provider_in l model.provider_id) _ _
          (λ provider. >>=-Keeps I (uses_remote l ks) _ rest (λ b c i. i)))

  pub update_route-Keeps :
      (id : String) (r : UpdateRouteRequest) (actor : String)
      → Keeps I (update_route env id r actor)
  unfolding update_route after_found
  update_route-Keeps id r actor =
      >>=-Keeps I (ensure_defaults env) _ (ensure_defaults-Keeps env) (λ _.
        reject_if-Keeps I (bad_update id r.profile.id actor r.reason r.expected_version) _ _ (
          >>=-Keeps I (load env) _ (load-Keeps I env) (λ l.
            >>=-Keeps I (find_route env id) _ (find_route-Keeps env id) (λ current.
              reject_if-Keeps I (not (eqb_ℤ current.version r.expected_version)) _ _ (
                reject_if-Keeps I _ _ _ (
                  >>=-Keeps I (uses_remote l r.profile.ordered_model_ids) _
                    (uses_remote-Keeps l r.profile.ordered_model_ids)
                    (λ remote.
                      reject_if-Keeps I (lacks_approval r remote) _ _
                        (upsert_route_profile-Keeps env _))))))))

  pub probe_model-Keeps : (k actor : String) → Keeps I (probe_model env k actor)
  unfolding probe_model
  probe_model-Keeps k actor = >>=-Keeps I (ensure_defaults env) _ (ensure_defaults-Keeps env) (λ _.
      reject_if-Keeps I (not (is_profile_id k) || is_empty actor) _ _ (
        >>=-Keeps I (load env) _ (load-Keeps I env) (λ l.
          or_fail-then-Keeps I (model_in l k) _ _ (λ model.
            or_fail-then-Keeps I (provider_in l model.provider_id) _ _ (λ provider.
              or_fail-then-Keeps I (endpoint_in l model.endpoint_id) _ _ (λ endpoint.
                reject_if-Keeps I (not (valid_family provider.interface_family)) _ _
                  (record_capability_probe-Keeps env _)))))))
