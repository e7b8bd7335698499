-- ===== src/Osint/Critique.antt =====
-- packages/osint/src/critiqueLoop.ts: the loop that scores a brief and asks for more evidence. The
-- callbacks are parameters and answer every round as they like, so each also takes the round;
-- `F` is the type of the findings, which the loop only hands on. Scores and counts are natural
-- numbers: a gain below epsilon is a score below the previous one plus epsilon.
pub mod Rounds
pub mod Loop
mod Tests
use ocrowley_commons.Common.{
  Bool, List, Option, String, [], false, get_or, if◌then◌else◌, last?, leb, length, ltb, none, some,
  suc, true, zero, ℕ, ◌&&◌, ◌++◌, ◌+◌, ◌==◌, ◌∷◌,
}

pub data Level : Type 0 where
  low medium high : Level

pub record CritiqueFinding : Type 0 where
  pub entity : String
  pub issue : String
  pub severity : Level
  pub recommendation : String
  pub suggested_seed : Option (String × String)

pub record CritiqueReport : Type 0 where
  pub round : ℕ
  pub score : ℕ
  pub gaps : List String
  pub risks : List String
  pub flags : List CritiqueFinding
  pub next_queries : List String
  pub overall_assessment : String
  pub confidence_level : Level

pub record Snapshot {ℓ} (F : Type ℓ) : Type ℓ where
  pub findings : List F
  pub brief_text : String
  pub evidence_count : ℕ

pub record CritiqueInput {ℓ} (F : Type ℓ) : Type ℓ where
  pub at_round : ℕ
  pub findings : List F
  pub brief_text : String
  pub previous_score : ℕ

pub record CritiqueLoopOptions : Type 0 where
  pub max_rounds : Option ℕ
  pub plateau_epsilon : Option ℕ
  pub plateau_rounds : Option ℕ
  pub target_score : Option ℕ

-- The options with the defaults of the source.
abbrev pub rounds_allowed : CritiqueLoopOptions → ℕ
rounds_allowed opts = get_or opts.max_rounds 5

abbrev pub epsilon : CritiqueLoopOptions → ℕ
epsilon opts = get_or opts.plateau_epsilon 3

abbrev pub flat_rounds_needed : CritiqueLoopOptions → ℕ
flat_rounds_needed opts = get_or opts.plateau_rounds 2

abbrev pub target : CritiqueLoopOptions → ℕ
target opts = get_or opts.target_score 85

pub data StopReason : Type 0 where
  target_reached plateau rounds_used_up no_new_evidence : StopReason

pub record CritiqueLoopResult : Type 0 where
  pub rounds : List CritiqueReport
  pub final_score : ℕ
  pub stop_reason : StopReason
  pub total_rounds : ℕ

-- The variables of the loop.
pub record CritiqueState : Type 0 where
  pub rounds : List CritiqueReport
  pub previous_score : ℕ
  pub plateau_streak : ℕ

-- A round breaks out of the loop or goes on.
pub data RoundOutcome : Type 0 where
  breaks : StopReason → CritiqueState → RoundOutcome
  continues : CritiqueState → RoundOutcome

abbrev pub is_nil {ℓ} : {A : Type ℓ} → List A → Bool
is_nil [] = true
is_nil (x ∷ xs) = false

-- `rounds.length ? rounds[rounds.length - 1].score : 0`.
abbrev pub score_at_end : List CritiqueReport → ℕ
score_at_end rounds = elim (last? rounds) [ none ↦ 0 | some report ↦ report.score ]

module _ {ℓ} {F : Type ℓ} (synthesise : ℕ → Snapshot F)
    (critique : CritiqueInput F → CritiqueReport) (enrich : ℕ → CritiqueReport → ℕ)
    (opts : CritiqueLoopOptions) where
  abbrev pub report_of : ℕ → CritiqueState → CritiqueReport
  report_of round st =
      let snap = synthesise round in
      critique (record {
        at_round = round;
        findings = snap.findings;
        brief_text = snap.brief_text;
        previous_score = st.previous_score;
      })

  -- The variables after a report below the target.
  unfoldable pub after_report : ℕ → CritiqueReport → CritiqueState → CritiqueState
  after_report round report st = record {
    rounds = st.rounds ++ report ∷ [];
    previous_score = report.score;
    plateau_streak =
        if ltb 1 round && ltb report.score (st.previous_score + epsilon opts)
        then st.plateau_streak + 1
        else 0;
  }

  -- A round after its report.
  unfoldable pub judge : ℕ → CritiqueReport → CritiqueState → RoundOutcome
  unfolding after_report
  judge round report st =
      let next = after_report round report st in
      if leb (target opts) report.score
      then breaks target_reached (record st { rounds = st.rounds ++ report ∷ [] })
      else if leb (flat_rounds_needed opts) next.plateau_streak
      then breaks plateau next
      else if enrich round report == 0 && is_nil report.next_queries
      then breaks no_new_evidence next
      else continues next

  -- The loop from `round` on, with `left` rounds to go.
  unfoldable pub run_rounds : (left round : ℕ) → CritiqueState → StopReason × CritiqueState
  unfolding judge
  run_rounds zero round st = (rounds_used_up, st)
  run_rounds (suc left) round st = elim (judge round (report_of round st) st) [
    | breaks reason last ↦ (reason, last)
    | continues next ↦ run_rounds left (round + 1) next
  ]

  unfoldable pub run_critique_loop : CritiqueLoopResult
  unfolding run_rounds
  run_critique_loop =
      let (reason, last) =
        run_rounds (rounds_allowed opts) 1
          (record { rounds = []; previous_score = 0; plateau_streak = 0 }) in
      record {
        rounds = last.rounds;
        final_score = score_at_end last.rounds;
        stop_reason = reason;
        total_rounds = length last.rounds;
      }
