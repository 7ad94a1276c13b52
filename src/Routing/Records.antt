-- ===== src/Routing/Records.antt =====
-- internal/storage/sqlite/providers.go: the logs of the provider catalogue, of egress manifests and
-- of capability probes.
use code_maintainer.Base.{String, true, not, ◌&&◌, List, ◌∷◌, any, keep, take, ◌is◌, if◌then◌else◌}
use code_maintainer.Base.Int.{ℤ}
use code_maintainer.Base.Text.{is_blank, is_empty}
use code_maintainer.Scheduler.Order.{stable_sort}
use code_maintainer.Store.Tables.{bounded_limit}
use code_maintainer.Routing.Profiles.{CapabilityProbe, EgressManifest}
use code_maintainer.Routing.Checks.{manifest_valid, probe_valid}
use code_maintainer.Routing.Catalog.{
  RouteEnv, list_manifests, list_probes, insert_manifest, insert_probe, random, driver, invalid,
  Act, ◌>>=◌, ◌>>◌, pure, reject_if, call, gets, modify, or_now, latest_first,
}

-- The id of a new row, if it has none.
abbrev pub drawn : RouteEnv → String → String → String
drawn env prefix k = if is_empty k then env.new_id prefix else k

-- RecordEgressManifest; the id column is unique.
unfoldable pub record_egress_manifest : RouteEnv → EgressManifest → Act EgressManifest
record_egress_manifest env m = do
  reject_if (is_empty m.id && env.fault random) (driver random)
  let row = record m { id = drawn env "egress" m.id; created_at = or_now env m.created_at }
  reject_if (not (manifest_valid row)) invalid
  call env insert_manifest
  taken ← gets (λ c. any (λ (x : EgressManifest). x.id is row.id) c.manifests)
  reject_if taken (driver insert_manifest)
  modify λ c. record c { manifests = row ∷ c.manifests }
  pure row

-- ListEgressManifests
unfoldable pub list_egress_manifests : RouteEnv → String → ℤ → Act (List EgressManifest)
list_egress_manifests env project limit = do
  call env list_manifests
  gets λ c. take (bounded_limit limit 100 500) (
      stable_sort
        (λ (a : EgressManifest) (b : EgressManifest).
          latest_first a.created_at a.id b.created_at b.id)
        (keep (λ (m : EgressManifest). if is_empty project then true else m.project_id is project)
          c.manifests))

-- RecordCapabilityProbe; the id column is unique.
unfoldable pub record_capability_probe : RouteEnv → CapabilityProbe → Act CapabilityProbe
record_capability_probe env p = do
  reject_if (is_empty p.id && env.fault random) (driver random)
  let row = record p { id = drawn env "probe" p.id; created_at = or_now env p.created_at }
  reject_if (not (probe_valid row)) invalid
  call env insert_probe
  taken ← gets (λ c. any (λ (x : CapabilityProbe). x.id is row.id) c.probes)
  reject_if taken (driver insert_probe)
  modify λ c. record c { probes = row ∷ c.probes }
  pure row

-- ListCapabilityProbes
unfoldable pub list_capability_probes : RouteEnv → String → ℤ → Act (List CapabilityProbe)
list_capability_probes env model limit = do
  call env list_probes
  gets λ c. take (bounded_limit limit 100 500) (
      stable_sort
        (λ (a : CapabilityProbe) (b : CapabilityProbe).
          latest_first a.created_at a.id b.created_at b.id)
        (keep
          (λ (p : CapabilityProbe). if is_blank model then true else p.model_profile_id is model)
          c.probes))
