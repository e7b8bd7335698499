-- ===== src/Osint/Critique/Tests.antt =====
-- The critique loop at concrete callbacks.
use ocrowley_commons.Common.{String, [], if◌then◌else◌, length, none, refl, ℕ, ◌==◌, ◌∷◌, ◌≡◌}
use ocrowley_commons.Osint.Critique.{
  CritiqueInput, CritiqueLoopOptions, CritiqueReport, CritiqueState, Snapshot, low, plateau,
  run_critique_loop,
}
use ocrowley_commons.Osint.Critique.Rounds.{Ends, score_after}
use ocrowley_commons.Osint.Critique.Loop.{run_critique_loop_lem}

abbrev snapshot : ℕ → Snapshot String
snapshot round = record { findings = "f" ∷ []; brief_text = "brief"; evidence_count = round }

-- A first score of 40, from then on 41.
abbrev scored : CritiqueInput String → CritiqueReport
scored input = record {
  round = input.at_round;
  score = if input.at_round == 1 then 40 else 41;
  gaps = [];
  risks = [];
  flags = [];
  next_queries = "q" ∷ [];
  overall_assessment = "";
  confidence_level = low;
}

abbrev one_more : ℕ → CritiqueReport → ℕ
one_more round report = 1

abbrev usual : CritiqueLoopOptions
usual = record {
  max_rounds = none;
  plateau_epsilon = none;
  plateau_rounds = none;
  target_score = none;
}

plateau_run : (run_critique_loop snapshot scored one_more usual).stop_reason ≡ plateau
unfolding run_critique_loop
plateau_run = refl

plateau_rounds_run : (run_critique_loop snapshot scored one_more usual).total_rounds ≡ 3
unfolding run_critique_loop
plateau_rounds_run = refl

run_critique_loop_lem_example :
    (last : CritiqueState) × ((run_critique_loop snapshot scored one_more usual).rounds
      ≡ last.rounds)
    × ((run_critique_loop snapshot scored one_more usual).total_rounds ≡ length last.rounds)
    × ((run_critique_loop snapshot scored one_more usual).final_score ≡ score_after 0 last.rounds)
    × Ends usual one_more (run_critique_loop snapshot scored one_more usual).stop_reason last
run_critique_loop_lem_example = run_critique_loop_lem usual snapshot scored one_more
