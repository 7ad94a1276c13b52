-- ===== src/Routing/Keeps/Logs.antt =====
-- internal/storage/sqlite/providers.go: a manifest or probe that is recorded passed its check, which
-- keeps the catalogue intact.
use code_maintainer.Base.{
  ◌≡◌, refl, sym, true, ◌&&◌, ◌∷◌, any, Bool-cases, inl, inr, ◌⊎◌, ◌is◌, subst,
}
use code_maintainer.Routing.Profiles.{CapabilityProbe, EgressManifest}
use code_maintainer.Routing.Checks.{manifest_valid, probe_valid}
use code_maintainer.Routing.Catalog.{
  RouteEnv, Catalog, insert_manifest, insert_probe, random, or_now,
}
use code_maintainer.Base.Text.{is_empty}
use code_maintainer.Routing.Records.{drawn, record_egress_manifest, record_capability_probe}
use code_maintainer.Routing.Keeps.Intact.{Intact}
use code_maintainer.Routing.Keeps.{Keeps}

record_egress_manifest-state :
    (env : RouteEnv) (m : EgressManifest) (c : Catalog)
    → ((record_egress_manifest env m c).1 ≡ c)
      ⊎ ((row : EgressManifest) × (manifest_valid row ≡ true)
          × ((record_egress_manifest env m c).1 ≡ record c { manifests = row ∷ c.manifests }))
unfolding record_egress_manifest
record_egress_manifest-state env m c =
    let row : EgressManifest = record m {
      id = drawn env "egress" m.id;
      created_at = or_now env m.created_at;
    } in
    elim (Bool-cases (is_empty m.id && env.fault random)) [
      | inl failed ↦ inl (rw failed refl)
      | inr ran ↦ elim (Bool-cases (manifest_valid row)) [
        | inr bad ↦ inl (rw (ran, bad) refl)
        | inl good ↦ elim (Bool-cases (env.fault insert_manifest)) [
          | inl failed ↦ inl (rw (ran, good, failed) refl)
          | inr done ↦
              elim (Bool-cases (any (λ (x : EgressManifest). x.id is row.id) c.manifests)) [
                | inl taken ↦ inl (rw (ran, good, done, taken) refl)
                | inr free ↦ inr (row, good, rw (ran, good, done, free) refl)
              ]
        ]
      ]
    ]

record_capability_probe-state :
    (env : RouteEnv) (p : CapabilityProbe) (c : Catalog)
    → ((record_capability_probe env p c).1 ≡ c)
      ⊎ ((row : CapabilityProbe) × (probe_valid row ≡ true)
          × ((record_capability_probe env p c).1 ≡ record c { probes = row ∷ c.probes }))
unfolding record_capability_probe
record_capability_probe-state env m c =
    let row : CapabilityProbe = record m {
      id = drawn env "probe" m.id;
      created_at = or_now env m.created_at;
    } in
    elim (Bool-cases (is_empty m.id && env.fault random)) [
      | inl failed ↦ inl (rw failed refl)
      | inr ran ↦ elim (Bool-cases (probe_valid row)) [
        | inr bad ↦ inl (rw (ran, bad) refl)
        | inl good ↦ elim (Bool-cases (env.fault insert_probe)) [
          | inl failed ↦ inl (rw (ran, good, failed) refl)
          | inr done ↦ elim (Bool-cases (any (λ (x : CapabilityProbe). x.id is row.id) c.probes)) [
            | inl taken ↦ inl (rw (ran, good, done, taken) refl)
            | inr free ↦ inr (row, good, rw (ran, good, done, free) refl)
          ]
        ]
      ]
    ]

pub record_egress_manifest-Keeps :
    (env : RouteEnv) (m : EgressManifest)
    → Keeps (Intact env.parsers) (record_egress_manifest env m)
record_egress_manifest-Keeps env m c i = elim (record_egress_manifest-state env m c) [
  | inl same ↦ subst (Intact env.parsers) (sym same) i
  | inr (row, good, written) ↦ subst (Intact env.parsers) (sym written) (record {
    providers = i.providers;
    endpoints = i.endpoints;
    models = i.models;
    routes = i.routes;
    manifests = (good, i.manifests);
    probes = i.probes;
  })
]

pub record_capability_probe-Keeps :
    (env : RouteEnv) (p : CapabilityProbe)
    → Keeps (Intact env.parsers) (record_capability_probe env p)
record_capability_probe-Keeps env p c i = elim (record_capability_probe-state env p c) [
  | inl same ↦ subst (Intact env.parsers) (sym same) i
  | inr (row, good, written) ↦ subst (Intact env.parsers) (sym written) (record {
    providers = i.providers;
    endpoints = i.endpoints;
    models = i.models;
    routes = i.routes;
    manifests = i.manifests;
    probes = (good, i.probes);
  })
]
