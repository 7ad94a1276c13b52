-- ===== src/Risk.antt =====
-- internal/risk/types.go: the risk of a task contract, and the routing that it requires.
-- strings.ToLower, whose tables are those of Unicode, and the object that encoding/json writes for
-- a decision are arguments.
pub mod Laws
pub mod Explained
use code_maintainer.Base.{
  ℕ, ◌+◌, String, Bool, true, false, not, ◌&&◌, ◌||◌, Option, none, some, List, [], ◌∷◌, ◌++◌, all,
  any, length, ltb, leb, ◌==◌, ◌is◌, if◌then◌else◌,
}
use code_maintainer.Base.Int.{ℤ, pos, ltb_ℤ}
use code_maintainer.Base.Text.{append, codes, is_empty, is_blank, byte_len}
use code_maintainer.Base.Patterns.{safe_id}
use code_maintainer.Base.Stamp.{text_before}
use code_maintainer.Scheduler.Order.{stable_sort}
use code_maintainer.Scheduler.Types.{one_of}

-- The constants, and any other text.
pub data Level : Type 0 where
  low medium high : Level
  other_level : String → Level

pub record Signal : Type 0 where
  pub id : String
  pub weight : ℕ
  pub matched : Bool
  pub explanation : String

pub record Routing : Type 0 where
  pub required_stages : List String
  pub manual_gates : List String
  pub full_verification : Bool
  pub documentation_review : Bool
  pub publish_allowed : Bool

-- The fields of a task contract that Assess reads; of the questions only how many there are.
pub record Contract : Type 0 where
  pub status : String
  pub job_id : String
  pub version : ℤ
  pub contract_sha256 : String
  pub requested_behavior : String
  pub likely_risks : List String
  pub likely_components : List String
  pub questions : ℕ
  pub assumptions : List String
  pub required_evidence : List String

-- The fields that Assess sets.
pub record Assessment : Type 0 where
  pub job_id : String
  pub schema_version : ℕ
  pub contract_version : ℤ
  pub contract_sha256 : String
  pub level : Level
  pub score : ℕ
  pub signals : List Signal
  pub routing : Routing
  pub policy_decision : String
  pub explanation : String
  pub requested_by_operator : Bool

unfoldable pub rank : Level → ℕ
rank high = 3
rank medium = 2
rank low = 1
rank (other_level s) = 0

unfoldable pub valid_level : Level → Bool
valid_level (other_level s) = false
valid_level _ = true

abbrev starts_with : List ℕ → List ℕ → Bool
starts_with [] ys = true
starts_with (x ∷ xs) [] = false
starts_with (x ∷ xs) (y ∷ ys) = x == y && starts_with xs ys

abbrev occurs : List ℕ → List ℕ → Bool
occurs xs [] = starts_with xs []
occurs xs (y ∷ ys) = starts_with xs (y ∷ ys) || occurs xs ys

-- strings.Contains
unfoldable pub contains : String → String → Bool
contains s needle = occurs (codes needle) (codes s)

-- strings.Join
unfoldable pub join : String → List String → String
join separator [] = ""
join separator (s ∷ ss) =
    let rest = join separator ss in elim ss [ [] ↦ s | _ ∷ _ ↦ append s (append separator rest) ]

unfoldable pub routing_for_level : Level → Routing
routing_for_level level =
    let stages =
      "clarifier" ∷ "implementation" ∷ "targeted_verification" ∷ "full_verification" ∷ "code_qc"
      ∷ [] in
    let review =
      "independent_test_designer" ∷ "documentation_agent" ∷ "documentation_qc" ∷ "opa_policy"
      ∷ [] in
    let reviewed =
      "task_contract_approval" ∷ "risk_waiver_review" ∷ "golden_update_approval" ∷ [] in
    elim level [
      | high ↦ record {
        required_stages = stages ++ review;
        manual_gates = reviewed ++ ("remote_egress_approval" ∷ "publication_reauthentication" ∷ []);
        full_verification = true;
        documentation_review = true;
        publish_allowed = true;
      }
      | medium ↦ record {
        required_stages = stages ++ review;
        manual_gates = reviewed;
        full_verification = true;
        documentation_review = true;
        publish_allowed = true;
      }
      | _ ↦ record {
        required_stages = stages;
        manual_gates = "task_contract_approval" ∷ [];
        full_verification = true;
        documentation_review = false;
        publish_allowed = true;
      }
    ]

-- The score of the signals that matched.
unfoldable pub score_of : List Signal → ℕ
score_of [] = 0
score_of (s ∷ ss) = (if s.matched then s.weight else 0) + score_of ss

abbrev pub matched_ids : List Signal → List String
matched_ids [] = []
matched_ids (s ∷ ss) = if s.matched then s.id ∷ matched_ids ss else matched_ids ss

unfoldable pub level_of_score : ℕ → Level
level_of_score score = if leb 90 score then high else if leb 35 score then medium else low

-- The operator's minimum where it is higher.
unfoldable pub raise : Level → Level → Level
raise minimum level = if ltb (rank level) (rank minimum) then minimum else level

abbrev level_text : Level → String
level_text low = "low"
level_text medium = "medium"
level_text high = "high"
level_text (other_level s) = s

abbrev pub signal : String → ℕ → Bool → String → Signal
signal id weight matched explanation = record {
  id = id;
  weight = weight;
  matched = matched;
  explanation = explanation;
}

module _ (lower : String → String) (marshal : List String → Level → String) where
  unfoldable pub contains_any : List String → List String → Bool
  contains_any paths needles =
      any (λ path. any (λ needle. contains (lower path) (lower needle)) needles) paths

  unfoldable pub text_contains : Contract → List String → Bool
  text_contains c needles =
      let blob = lower (
        append c.requested_behavior (
          append "\n"
            (append (join "\n" c.likely_risks) (append "\n" (join "\n" c.likely_components))))) in
      any (λ needle. contains blob (lower needle)) needles

  unfoldable pub has_evidence : Contract → String → Bool
  has_evidence c needle = any (λ item. contains (lower item) needle) c.required_evidence

  unfoldable pub signals_of : Contract → List String → List Signal
  signals_of c paths =
      signal "protected_paths" 45
        (contains_any paths
          (".github/" ∷ "CODEOWNERS" ∷ ".gitmodules" ∷ "migrations/" ∷ "database/migrations/" ∷ []))
        "Protected path, workflow, ownership, submodule, or migration path is in scope."
      ∷ signal "public_api_schema_database" 35
          (contains_any paths ("internal/api/" ∷ "openapi" ∷ "schema" ∷ "migrations/" ∷ []))
          "Public API, schema, or database behavior may change."
      ∷ signal "auth_secrets_crypto_network" 55
          (text_contains c (
            "auth" ∷ "authorization" ∷ "secret" ∷ "crypto" ∷ "network" ∷ "egress" ∷ "credential"
            ∷ []))
          "Authentication, secret, cryptography, or network exposure language appears in the contract."
      ∷ signal "dependency_supply_chain" 40
          (contains_any paths
            ("go.mod" ∷ "go.sum" ∷ "package-lock.json" ∷ "Dockerfile" ∷ "compose" ∷ []))
          "Dependency, image, or supply-chain identity may change."
      ∷ signal "installer_service_hardware" 50
          (text_contains c
            ("installer" ∷ "service" ∷ "signing" ∷ "hardware" ∷ "windows" ∷ "vpn" ∷ []))
          "Installer, service, signing, hardware, Windows, or VPN behavior is in scope."
      ∷ signal "numerical_statistical" 30
          (text_contains c ("r " ∷ "statistical" ∷ "numerical" ∷ "tolerance" ∷ "golden" ∷ []))
          "Numerical, statistical, tolerance, or golden-output behavior is in scope."
      ∷ signal "weak_or_missing_tests" 25 (not (has_evidence c "test"))
          "The contract does not yet cite concrete test evidence."
      ∷ signal "generated_or_binary_artifacts" 30
          (text_contains c ("generated" ∷ "binary" ∷ "screenshot" ∷ "artifact" ∷ []))
          "Generated or binary artifact behavior is in scope."
      ∷ signal "ambiguity" 35 (ltb 0 c.questions || ltb 0 (length c.assumptions))
          "Open questions or assumptions require explicit routing."
      ∷ []

  -- Assess; a contract in another status is an error.
  unfoldable pub assess : Contract → List String → Level → Option Assessment
  assess c paths minimum =
      let signals = signals_of c paths in
      let score = score_of signals in
      let level = raise minimum (level_of_score score) in
      let matched = stable_sort (λ a b. text_before (codes a) (codes b)) (matched_ids signals) in
      if not (one_of ("approved" ∷ "draft" ∷ []) c.status)
      then none
      else some (record {
        job_id = c.job_id;
        schema_version = 1;
        contract_version = c.version;
        contract_sha256 = c.contract_sha256;
        level = level;
        score = score;
        signals = signals;
        routing = routing_for_level level;
        policy_decision = marshal matched minimum;
        explanation = join ", " matched;
        requested_by_operator = not (is_empty (level_text minimum));
      })

abbrev pub good_signal : Signal → Bool
good_signal s = safe_id s.id && leb s.weight 100 && not (is_blank s.explanation)

-- Assessment.Validate
unfoldable pub assessment_valid : (String → Bool) → Assessment → Bool
assessment_valid json_valid a =
    safe_id a.job_id
    && a.schema_version == 1
    && not (ltb_ℤ a.contract_version (pos 1))
    && not (is_empty a.contract_sha256)
    && valid_level a.level
    && leb a.score 1000
    && not (length a.signals == 0)
    && leb (length a.signals) 64
    && leb (byte_len a.policy_decision) 65_536
    && json_valid a.policy_decision
    && all good_signal a.signals
