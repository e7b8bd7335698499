-- ===== src/Osint/Critique/Loop.antt =====
-- How the critique loop ends: within its rounds, and for the reason it returns.
use ocrowley_commons.Common.{List, [], arith, length, refl, suc, zero, ℕ, ◌+◌, ◌∷◌, ◌≡◌}
use ocrowley_commons.Osint.Critique.{
  CritiqueInput, CritiqueLoopOptions, CritiqueReport, CritiqueState, RoundOutcome, Snapshot, breaks,
  continues, judge, report_of, rounds_allowed, run_critique_loop, run_rounds, score_at_end,
}
use ocrowley_commons.Osint.Critique.Rounds.{Below, Ends, Fine, RoundInv, judge-Fine, score_after}

last_score :
    (before : ℕ) (r : CritiqueReport) (rs : List CritiqueReport)
    → score_at_end (r ∷ rs) ≡ score_after before (r ∷ rs)
last_score before r [] = refl
last_score before r (s ∷ rs) = last_score r.score s rs

score_at_end_after : (rs : List CritiqueReport) → score_at_end rs ≡ score_after 0 rs
score_at_end_after [] = refl
score_at_end_after (r ∷ rs) = last_score 0 r rs

module _ {ℓ} {F : Type ℓ} (opts : CritiqueLoopOptions) (synthesise : ℕ → Snapshot F)
    (critique : CritiqueInput F → CritiqueReport) (enrich : ℕ → CritiqueReport → ℕ) where
  run_rounds-Ends :
      (left done round : ℕ) (st : CritiqueState)
      → round ≡ suc done
      → left + done ≡ rounds_allowed opts
      → RoundInv opts done st
      → Below opts st.rounds
      → Ends opts enrich
          (run_rounds synthesise critique enrich opts left round st).0
          (run_rounds synthesise critique enrich opts left round st).1
  unfolding run_rounds
  run_rounds-Ends zero done round st at total inv below = record {
    bounded = omega (arith, inv.counted, total);
    reached = (below, omega (arith, inv.counted, total));
  }
  run_rounds-Ends (suc left) done round st at total inv below =
      resume (judge synthesise critique enrich opts round report st) refl
        (rw at (
          judge-Fine opts synthesise critique enrich done
            (report_of synthesise critique enrich opts (suc done) st) st (omega (arith, total)) inv
            below))
        (λ next i q.
          run_rounds-Ends left (suc done) (round + 1) next (omega (arith, at))
            (omega (arith, total)) i q)
    where
      report : CritiqueReport
      report = report_of synthesise critique enrich opts round st

      resume :
          (o : RoundOutcome)
          → judge synthesise critique enrich opts round report st ≡ o
          → Fine opts synthesise critique enrich done o
          → ((next : CritiqueState)
              → RoundInv opts (suc done) next
              → Below opts next.rounds
              → Ends opts enrich
                  (run_rounds synthesise critique enrich opts left (round + 1) next).0
                  (run_rounds synthesise critique enrich opts left (round + 1) next).1)
          → Ends opts enrich
              (run_rounds synthesise critique enrich opts (suc left) round st).0
              (run_rounds synthesise critique enrich opts (suc left) round st).1
      resume (breaks reason last) out fine go_on = rw (run_rounds, out) fine
      resume (continues next) out fine go_on = rw (run_rounds, out) (go_on next fine.0 fine.1)

  -- Whatever the callbacks answer, the loop makes at most its number of rounds, counts them, gives
  -- the score of the last as the final one, and ends for the reason it returns: the last round is
  -- the first one to reach the target; or none reached it, and the last rounds, as many as the
  -- plateau needs and without the first one, each gained less than epsilon on the round before; or
  -- the last round found nothing new and asked no question; or all rounds were used up.
  pub run_critique_loop_lem :
      (last : CritiqueState) × ((run_critique_loop synthesise critique enrich opts).rounds
        ≡ last.rounds)
      × ((run_critique_loop synthesise critique enrich opts).total_rounds ≡ length last.rounds)
      × ((run_critique_loop synthesise critique enrich opts).final_score
          ≡ score_after 0 last.rounds)
      × Ends opts enrich (run_critique_loop synthesise critique enrich opts).stop_reason last
  unfolding run_critique_loop
  run_critique_loop_lem =
      let start : CritiqueState = record { rounds = []; previous_score = 0; plateau_streak = 0 } in
      let inv : RoundInv opts 0 start = record {
        counted = refl;
        previous = refl;
        front = [];
        tail = [];
        split = refl;
        streak = refl;
        flat = tt;
        first_in_front = λ h. h;
      } in
      (
        (run_rounds synthesise critique enrich opts (rounds_allowed opts) 1 start).1,
        refl,
        refl,
        score_at_end_after
            (run_rounds synthesise critique enrich opts (rounds_allowed opts) 1 start).1.rounds,
        run_rounds-Ends (rounds_allowed opts) 0 1 start refl (omega arith) inv tt,
      )
