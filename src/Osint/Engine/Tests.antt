-- ===== src/Osint/Engine/Tests.antt =====
-- A run of the engine: two sweeps find three items of two entities, and the critique is content.
use ocrowley_commons.Common.{
  All, DistinctKeys, List, Option, String, [], err, false, filter, if◌then◌else◌, includes,
  is_blank, length, map, none, ok, refl, some, true, ℕ, ◌*◌, ◌+◌, ◌==◌, ◌∷◌, ◌≡◌, ◌≤◌,
}
use ocrowley_commons.Osint.Policy.{policy_denied, scan_passive}
use ocrowley_commons.Osint.Policy.Decision.{ref_reason}
use ocrowley_commons.Osint.Refinement.{RefinementSeed, SweepResult}
use ocrowley_commons.Osint.Critique.{CritiqueInput, CritiqueReport, low}
use ocrowley_commons.Osint.Engine.{
  EngineOptions, EngineResult, EntityFindings, OsintEvidenceItem, add_seeds, push_item, push_items,
  run_recursive_osint, to_findings,
}
use ocrowley_commons.Osint.Engine.Deterministic.{
  critique_gaps, critique_score, deterministic_critique, empty_entities, is_hedged, is_silent,
  is_thin_entity, thin_entities,
}
use ocrowley_commons.Osint.Engine.Gaps.{deterministic_critique_lem}
use ocrowley_commons.Osint.Engine.Findings.{IsFinding, finding_entity, named_item, to_findings_lem}
use ocrowley_commons.Osint.Engine.Bounds.{IsRun, run_recursive_osint_lem}

abbrev item_of : String → String → OsintEvidenceItem
item_of key entity = record {
  key = key;
  entity = entity;
  title = key;
  source = "test";
  snippet = "";
  url = none;
  score = some 75;
}

abbrev seed_of : String → RefinementSeed
seed_of value = record { kind = "person"; value = value; confidence = 80; source = "test" }

abbrev test_discover : List RefinementSeed → ℕ → Option (SweepResult OsintEvidenceItem)
test_discover seeds sweep = some (record {
  items = item_of "k1" "Ada" ∷ item_of "k2" "*" ∷ item_of "k3" "Bob" ∷ item_of "k1" "Ada" ∷ [];
  item_keys = "k1" ∷ "k2" ∷ "k3" ∷ "k1" ∷ [];
  discovered_seeds = if sweep == 1 then seed_of "Bob" ∷ [] else [];
})

abbrev test_critique : CritiqueInput EntityFindings → CritiqueReport
test_critique input = record {
  round = input.at_round;
  score = 40 * input.at_round;
  gaps = [];
  risks = [];
  flags = [];
  next_queries = "more" ∷ [];
  overall_assessment = "";
  confidence_level = low;
}

abbrev test_enrich :
    CritiqueReport → List RefinementSeed → List OsintEvidenceItem → List OsintEvidenceItem
test_enrich report seeds evidence = item_of "k4" "Ada" ∷ []

abbrev engine_options : EngineOptions
engine_options = record {
  auth = record {
    actor_id = "me";
    roles = [];
    authorization_ref = "C1";
    purpose = "test";
    environment = none;
    scan_type = none;
    resource_classification = none;
  };
  initial_seeds = seed_of "Ada" ∷ [];
  max_discover_sweeps = none;
  max_critique_rounds = none;
  target_score = none;
}

run_recursive_osint_example :
    (is_blank engine_options.auth.authorization_ref ≡ false
      → (r : EngineResult) × (run_recursive_osint
            (λ s. s)
            (λ a b. true)
            test_discover
            (λ items seeds. [])
            test_critique
            test_enrich
            engine_options
          ≡ ok r)
        × IsRun (λ s. s) engine_options r)
    × (is_blank engine_options.auth.authorization_ref ≡ true
        → run_recursive_osint
            (λ s. s)
            (λ a b. true)
            test_discover
            (λ items seeds. [])
            test_critique
            test_enrich
            engine_options
          ≡ err (policy_denied scan_passive ref_reason))
run_recursive_osint_example =
    run_recursive_osint_lem (λ s. s) (λ a b. true) test_discover (λ items seeds. []) test_critique
      test_enrich engine_options

to_findings_example :
    DistinctKeys finding_entity
      (to_findings (item_of "k1" "Ada" ∷ item_of "k2" "*" ∷ []) (seed_of "Bob" ∷ []))
    × All
        (IsFinding (item_of "k1" "Ada" ∷ item_of "k2" "*" ∷ []))
        (to_findings (item_of "k1" "Ada" ∷ item_of "k2" "*" ∷ []) (seed_of "Bob" ∷ []))
    × All
        (λ i.
          includes
            (map finding_entity
              (to_findings (item_of "k1" "Ada" ∷ item_of "k2" "*" ∷ []) (seed_of "Bob" ∷ [])))
            i.entity
          ≡ true)
        (filter named_item (item_of "k1" "Ada" ∷ item_of "k2" "*" ∷ []))
to_findings_example =
    to_findings_lem (item_of "k1" "Ada" ∷ item_of "k2" "*" ∷ []) (seed_of "Bob" ∷ [])

abbrev expected_counts : List (String × ℕ)
expected_counts = ("Bob", 0) ∷ ("Ada", 2) ∷ ("Eve", 1) ∷ []

abbrev entity_count : EntityFindings → String × ℕ
entity_count f = (f.entity, f.kept_count)

groups_test :
    map entity_count (
      to_findings
        (item_of "k1" "Ada" ∷ item_of "k2" "*" ∷ item_of "k3" "Eve" ∷ item_of "k5" "Ada" ∷ [])
        (seed_of "Bob" ∷ []))
    ≡ expected_counts
unfolding to_findings push_items push_item add_seeds
groups_test = refl

abbrev thin_input : CritiqueInput EntityFindings
thin_input = record {
  at_round = 1;
  findings =
      record { entity = "@ada"; kept_count = 0; rejected_count = 0; query_count = 1; findings = [] }
      ∷ record {
        entity = "Bob";
        kept_count = 1;
        rejected_count = 0;
        query_count = 1;
        findings = [];
      }
      ∷ [];
  brief_text = "Bob was seen, a Source says.";
  previous_score = 0;
}

thin_input_test :
    (deterministic_critique thin_input).gaps
    ≡ "No findings for @ada" ∷ "Sparse evidence for Bob" ∷ []
unfolding deterministic_critique critique_gaps empty_entities thin_entities
thin_input_test = refl

-- `coverage` is 1/2 and `depth` is 1/2: 27.5 + 4 - 10 = 21.5, rounded to 22.
score_test : critique_score 2 1 1 ≡ 22
unfolding critique_score
score_test = refl

hedge_test : (is_hedged "a Source says" ≡ true) × (is_hedged "resourceful" ≡ false)
unfolding is_hedged
hedge_test = (refl, refl)

deterministic_critique_example :
    ((deterministic_critique thin_input).score ≤ 95)
    × (1 ≤ length (deterministic_critique thin_input).gaps)
    × (length (deterministic_critique thin_input).next_queries ≤ 8)
    × (length (deterministic_critique thin_input).flags
        ≡ length (filter is_thin_entity thin_input.findings)
          + (if is_silent thin_input.brief_text then 1 else 0))
deterministic_critique_example = deterministic_critique_lem thin_input
