-- ===== src/Routing/Simulate/Unordered.antt =====
-- internal/providers/types.go and service.go: the manifest of a decision is one of the set of data
-- classes and of artifacts, in whatever order the request lists them.
use code_maintainer.Base.{
  ◌≡◌, refl, ap, ◌∙◌, sym, String, Bool, true, arith, List, [], ◌∷◌, all, if◌then◌else◌, Option,
  none, some, fun_ext, perm_length, Bool-cases, inl, inr,
}
use code_maintainer.Base.Text.{is_empty, codes}
use code_maintainer.Base.Stamp.{text_before}
use code_maintainer.Base.TextOrder.{
  text_before_asym, text_before_trans, text_before_connected, codes-injective,
}
use code_maintainer.Scheduler.Order.Unique.{IsTotal, stable_sort-perm_eq}
use code_maintainer.Routing.Simulate.{
  sorted_strings, allow_manifest, deny_manifest, settle_verdict, record_allowed, record_denied,
  choose, route_checked, simulate_route, forbidden_class,
}
use code_maintainer.Routing.Simulate.Laws.{forbidden_class-valid}
use code_maintainer.Routing.Profiles.{RouteRequest, RouteProfile}
use code_maintainer.Routing.Catalog.{RouteEnv, Catalog}
use code_maintainer.Routing.Scan.{
  Loaded, Floor, Denial, Verdict, go, skip, Choice, candidate, consider, trusted, admit,
  scan_models, scan_route, scan_routes, route_takes, no_floor,
}
use code_maintainer.Scheduler.Types.{one_of}
use code_maintainer.Routing.Checks.{request_valid, is_profile_id, valid_data_class}
use code_maintainer.Routing.Select.{eligible_routes, data_classes_allowed, remote_probe_error}
use mathlib.Core.List.{Permᴰ}

text_before-IsTotal : IsTotal (λ (s : String) (t : String). text_before (codes s) (codes t))
text_before-IsTotal = record {
  asymmetric = λ s t. text_before_asym (codes s) (codes t);
  transitive = λ s t u. text_before_trans (codes s) (codes t) (codes u);
  connected = λ s t h k. codes-injective s t (text_before_connected (codes s) (codes t) h k);
}

sorted_strings-perm : {ss ts : List String} → Permᴰ ss ts → sorted_strings ss ≡ sorted_strings ts
unfolding sorted_strings
sorted_strings-perm p = stable_sort-perm_eq _ text_before-IsTotal p

-- The request with its data classes and artifacts in another order.
abbrev pub reordered : RouteRequest → List String → List String → RouteRequest
reordered r classes artifacts = record r { data_classes = classes; artifact_ids = artifacts }

all-perm : (f : String → Bool) {ss ts : List String} → Permᴰ ss ts → all f ss ≡ all f ts
all-perm f Permᴰ.nil = refl
all-perm f (Permᴰ.cons e p) = let rest = all-perm f p in rw (e, rest) refl
all-perm f (Permᴰ.swap {a} {b} {a'} {b'} {l} e f') = rw (e, f') (ground arith)
all-perm f (Permᴰ.trans p q) = all-perm f p ∙ all-perm f q

-- What a loop makes of a round, given how it goes on.
abbrev after_round : (Floor → Denial → Verdict Choice) → Verdict Choice → Verdict Choice
after_round next v = elim v [ go x ↦ go x | skip floor d ↦ next floor d ]

round-same :
    (v : Verdict Choice) (next next' : Floor → Denial → Verdict Choice)
    → ((floor : Floor) (d : Denial) → next floor d ≡ next' floor d)
    → after_round next v ≡ after_round next' v
round-same (go x) next next' same = refl
round-same (skip floor d) next next' same = same floor d

module _ (env : RouteEnv) (r : RouteRequest) {classes artifacts : List String}
    (p : Permᴰ r.data_classes classes) (q : Permᴰ r.artifact_ids artifacts) where
  abbrev other : RouteRequest
  other = reordered r classes artifacts

  request_valid-unordered : request_valid other ≡ request_valid r
  unfolding request_valid
  request_valid-unordered =
      rw (perm_length p, all-perm valid_data_class p, all-perm is_profile_id q) refl

  allowed-unordered :
      (allowed : List String)
      → data_classes_allowed classes allowed ≡ data_classes_allowed r.data_classes allowed
  unfolding data_classes_allowed
  allowed-unordered allowed = sym (all-perm (one_of allowed) p)

  candidate-unordered :
      (l : Loaded) (route : RouteProfile) (k : String) (floor : Floor) (d : Denial)
      → candidate env l route other k floor d ≡ candidate env l route r k floor d
  unfolding candidate
  candidate-unordered l route k floor d = rw (fun_ext allowed-unordered) refl

  consider-unordered :
      (c : Catalog) (l : Loaded) (route : RouteProfile) (k : String) (floor : Floor) (d : Denial)
      → consider env c l route other k floor d ≡ consider env c l route r k floor d
  unfolding consider trusted admit remote_probe_error
  consider-unordered c l route k floor d = rw (candidate-unordered l route k floor d) refl

  scan_models-unordered :
      (c : Catalog) (l : Loaded) (route : RouteProfile) (ks : List String) (floor : Floor)
      (d : Denial)
      → scan_models env c l route other ks floor d ≡ scan_models env c l route r ks floor d
  unfolding scan_models
  scan_models-unordered c l route [] floor d = refl
  scan_models-unordered c l route (k ∷ ks) floor d =
      let rest = scan_models-unordered c l route ks in
      ap (after_round (scan_models env c l route other ks)) (consider-unordered c l route k floor d)
      ∙ round-same (consider env c l route r k floor d) _ _ rest

  scan_route-unordered :
      (c : Catalog) (l : Loaded) (route : RouteProfile) (d : Denial)
      → scan_route env c l other route d ≡ scan_route env c l r route d
  unfolding scan_route route_takes
  scan_route-unordered c l route d =
      rw
        (
          allowed-unordered route.allowed_data_classes,
          scan_models-unordered c l route route.ordered_model_ids no_floor d,
        )
        refl

  scan_routes-unordered :
      (c : Catalog) (l : Loaded) (routes : List RouteProfile) (d : Denial)
      → scan_routes env c l other routes d ≡ scan_routes env c l r routes d
  unfolding scan_routes
  scan_routes-unordered c l [] d = refl
  scan_routes-unordered c l (route ∷ routes) d =
      let rest = scan_routes-unordered c l routes in
      ap (after_round (λ _ e. scan_routes env c l other routes e))
        (scan_route-unordered c l route d)
      ∙ round-same (scan_route env c l r route d) _ _ (λ _. rest)

  allow_manifest-unordered : (x : Choice) → allow_manifest other x ≡ allow_manifest r x
  unfolding allow_manifest
  allow_manifest-unordered x = rw (sym (sorted_strings-perm p), sym (sorted_strings-perm q)) refl

  deny_manifest-unordered :
      (k reason : String) → deny_manifest other k reason ≡ deny_manifest r k reason
  unfolding deny_manifest
  deny_manifest-unordered k reason =
      rw (sym (sorted_strings-perm p), sym (sorted_strings-perm q)) refl

  denied-unordered :
      (k reason : String) → record_denied env other k reason ≡ record_denied env r k reason
  unfolding record_denied
  denied-unordered k reason =
      rw (deny_manifest-unordered (if is_empty k then "unselected" else k) reason) refl

  settle_verdict-unordered :
      (v : Verdict Choice) → settle_verdict env other v ≡ settle_verdict env r v
  unfolding settle_verdict record_allowed
  settle_verdict-unordered (go x) = rw (allow_manifest-unordered x) refl
  settle_verdict-unordered (skip floor d) = denied-unordered d.route_id d.reason

  choose-unordered :
      (l : Loaded) (routes : List RouteProfile) → choose env other l routes ≡ choose env r l routes
  unfolding choose
  choose-unordered l [] = denied-unordered "" _
  choose-unordered l (first ∷ rest) = fun_ext λ c.
      ap (λ v. settle_verdict env other v c) (scan_routes-unordered c l (first ∷ rest) _)
      ∙ ap (λ m. m c) (settle_verdict-unordered _)

  route_checked-unordered : (o : Option String) → route_checked env other o ≡ route_checked env r o
  unfolding route_checked
  route_checked-unordered (some class) = denied-unordered "" _
  route_checked-unordered none =
      rw (fun_ext (λ l. choose-unordered l (eligible_routes env l.routes r.role))) refl

  valid-classes : request_valid r ≡ true → all valid_data_class r.data_classes ≡ true
  unfolding request_valid
  valid-classes h = ground arith

  none_forbidden :
      request_valid r ≡ true
      → (forbidden_class r.data_classes ≡ none) × (forbidden_class classes ≡ none)
  none_forbidden h =
      let valid = valid-classes h in
      (
        forbidden_class-valid r.data_classes valid,
        forbidden_class-valid classes (sym (all-perm valid_data_class p) ∙ valid),
      )

  -- Two requests that list the same data classes and the same artifacts in different orders, and else
  -- are equal, have the same reply, with the same manifest and digest, and leave the same tables.
  pub simulate_route-unordered :
      simulate_route env (reordered r classes artifacts) ≡ simulate_route env r
  unfolding simulate_route
  simulate_route-unordered = elim (Bool-cases (request_valid r)) [
    | inr bad ↦ rw (request_valid-unordered, bad) refl
    | inl good ↦
        let (first, second) = none_forbidden good in
        rw (request_valid-unordered, good, first, second, route_checked-unordered none) refl
  ]
