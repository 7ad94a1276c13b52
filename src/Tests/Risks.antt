-- ===== src/Tests/Risks.antt =====
-- internal/risk/types.go: an assessment of a contract that touches a workflow file.
use code_maintainer.Base.{◌≤◌, ◌≡◌, refl, String, true, some, List, [], ◌∷◌, arith}
use code_maintainer.Base.Int.{pos}
use code_maintainer.Base.Patterns.{safe_id}
use code_maintainer.Scheduler.Order.{insert_back, insert_all, stable_sort}
use code_maintainer.Risk.{
  Level, low, medium, high, Contract, Assessment, rank, routing_for_level, score_of, level_of_score,
  raise, contains, join, contains_any, text_contains, has_evidence, signals_of, assess,
}
use code_maintainer.Risk.Explained.{Explained, assess-Explained}

abbrev contract : Contract
contract = record {
  status = "approved";
  job_id = "job-1";
  version = pos 1;
  contract_sha256 = "abc";
  requested_behavior = "rename a flag";
  likely_risks = [];
  likely_components = [];
  questions = 1;
  assumptions = [];
  required_evidence = "unit test" ∷ [];
}

abbrev same_text : String → String
same_text s = s

abbrev empty_object : List String → Level → String
empty_object ids m = "{}"

abbrev paths : List String
paths = ".github/workflows/ci.yml" ∷ []

abbrev assessment : Assessment
assessment = record {
  job_id = "job-1";
  schema_version = 1;
  contract_version = pos 1;
  contract_sha256 = "abc";
  level = medium;
  score = 80;
  signals = signals_of same_text empty_object contract paths;
  routing = routing_for_level medium;
  policy_decision = "{}";
  explanation = "ambiguity, protected_paths";
  requested_by_operator = true;
}

assessed : assess same_text empty_object contract paths low ≡ some assessment
unfolding assess signals_of contains_any text_contains has_evidence contains join score_of
    level_of_score raise rank stable_sort insert_all insert_back
assessed = refl

assess-Explained_example : Explained same_text empty_object contract paths low assessment
assess-Explained_example =
    assess-Explained same_text empty_object contract paths low assessment assessed

job_safe : safe_id "job-1" ≡ true
unfolding safe_id
job_safe = refl

ranked : rank medium ≤ rank high
unfolding rank
ranked = omega arith
