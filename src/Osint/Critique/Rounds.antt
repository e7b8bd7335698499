-- ===== src/Osint/Critique/Rounds.antt =====
-- What a round of the critique loop keeps true, and what its reason to stop says.
use ocrowley_commons.Common.{
  All, All-append, Bool-cases, List, [], ap, append_assoc, append_nil, arith, inl, inr, leb, leb→le,
  length, length-append, ltb, refl, suc, sym, true, ℕ, ◌&&◌, ◌++◌, ◌+◌, ◌<◌, ◌==◌, ◌∙◌, ◌∷◌, ◌≡◌,
  ◌≤◌,
}
use ocrowley_commons.Osint.Critique.{
  CritiqueInput, CritiqueLoopOptions, CritiqueReport, CritiqueState, RoundOutcome, Snapshot,
  StopReason, after_report, breaks, continues, epsilon, flat_rounds_needed, is_nil, judge,
  no_new_evidence, plateau, rounds_allowed, rounds_used_up, target, target_reached,
}

-- The score after some rounds, `before` ahead of the first.
abbrev pub score_after : ℕ → List CritiqueReport → ℕ
score_after before [] = before
score_after before (r ∷ rs) = score_after r.score rs

score_after-append :
    (before : ℕ) (xs ys : List CritiqueReport)
    → score_after before (xs ++ ys) ≡ score_after (score_after before xs) ys
score_after-append before [] ys = refl
score_after-append before (x ∷ xs) ys = score_after-append x.score xs ys

-- Every round gains less than `eps` on the one before.
abbrev pub Flat : ℕ → ℕ → List CritiqueReport → Type 0
Flat eps before [] = Unit
Flat eps before (r ∷ rs) = (r.score < before + eps) × Flat eps r.score rs

Flat-append :
    (eps before : ℕ) (rs : List CritiqueReport) (r : CritiqueReport)
    → Flat eps before rs
    → r.score < score_after before rs + eps
    → Flat eps before (rs ++ r ∷ [])
Flat-append eps before [] r flat small = (small, tt)
Flat-append eps before (x ∷ xs) r flat small = (flat.0, Flat-append eps x.score xs r flat.1 small)

module _ (opts : CritiqueLoopOptions) where
  -- No round reached the target.
  abbrev pub Below : List CritiqueReport → Type 0
  Below rs = All (λ r. r.score < target opts) rs

  -- After `done` rounds: the streak counts the rounds of a flat tail, which never has the first one.
  pub record RoundInv (done : ℕ) (st : CritiqueState) : Type 0 where
    pub counted : length st.rounds ≡ done
    pub previous : st.previous_score ≡ score_after 0 st.rounds
    pub front : List CritiqueReport
    pub tail : List CritiqueReport
    pub split : st.rounds ≡ front ++ tail
    pub streak : length tail ≡ st.plateau_streak
    pub flat : Flat (epsilon opts) (score_after 0 front) tail
    pub first_in_front : 0 < done → 0 < length front

  -- What each reason says of the rounds; `last` is the state at the end.
  abbrev pub Reached : (enrich : ℕ → CritiqueReport → ℕ) → StopReason → CritiqueState → Type 0
  Reached enrich target_reached last =
      (earlier : List CritiqueReport) × (report : CritiqueReport) × (last.rounds
        ≡ earlier ++ report ∷ [])
      × (target opts ≤ report.score)
      × Below earlier
  Reached enrich plateau last =
      Below last.rounds
      × (front : List CritiqueReport) × (tail : List CritiqueReport) × (last.rounds ≡ front ++ tail)
      × (0 < length front)
      × (flat_rounds_needed opts ≤ length tail)
      × Flat (epsilon opts) (score_after 0 front) tail
  Reached enrich rounds_used_up last =
      Below last.rounds × (length last.rounds ≡ rounds_allowed opts)
  Reached enrich no_new_evidence last =
      Below last.rounds
      × (earlier : List CritiqueReport) × (report : CritiqueReport) × (last.rounds
          ≡ earlier ++ report ∷ [])
      × (enrich (length last.rounds) report ≡ 0)
      × (report.next_queries ≡ [])

  pub record Ends (enrich : ℕ → CritiqueReport → ℕ) (reason : StopReason) (last : CritiqueState)
      : Type 0 where
    pub bounded : length last.rounds ≤ rounds_allowed opts
    pub reached : Reached enrich reason last

  is_nil→nil {ℓ} : {A : Type ℓ} (xs : List A) → is_nil xs ≡ true → xs ≡ []
  is_nil→nil [] h = refl
  is_nil→nil (x ∷ xs) h = cc

  module _ {ℓ} {F : Type ℓ} (synthesise : ℕ → Snapshot F)
      (critique : CritiqueInput F → CritiqueReport) (enrich : ℕ → CritiqueReport → ℕ) where
    abbrev pub Fine : ℕ → RoundOutcome → Type 0
    Fine done (continues next) = RoundInv (suc done) next × Below next.rounds
    Fine done (breaks reason last) = Ends enrich reason last

    -- A low score leads on to the next round.
    judged-RoundInv :
        (done : ℕ) (st : CritiqueState) (report : CritiqueReport)
        → RoundInv done st
        → RoundInv (suc done) (after_report synthesise critique enrich opts (suc done) report st)
    unfolding after_report
    judged-RoundInv done st report inv =
        elim (Bool-cases
          (ltb 1 (suc done) && ltb report.score (st.previous_score + epsilon opts))) [
            | inl small ↦
                rw (after_report, small)
                  (record {
                    counted = rw length-append (omega (arith, inv.counted));
                    previous = sym (score_after-append 0 st.rounds (report ∷ []));
                    front = inv.front;
                    tail = inv.tail ++ report ∷ [];
                    split = rw (inv.split, append_assoc) refl;
                    streak = rw length-append (omega (arith, inv.streak));
                    flat = Flat-append _ _ inv.tail report inv.flat (
                        let at_end : st.previous_score
                            ≡ score_after (score_after 0 inv.front) inv.tail =
                          inv.previous
                          ∙ ap (score_after 0) inv.split
                          ∙ score_after-append 0 inv.front inv.tail in
                        let low_gain : report.score < st.previous_score + epsilon opts =
                          ground arith in
                        omega (arith, at_end, low_gain));
                    first_in_front = λ h. inv.first_in_front (ground arith);
                  })
            | inr large ↦
                rw (after_report, large)
                  (record {
                    counted = rw length-append (omega (arith, inv.counted));
                    previous = sym (score_after-append 0 st.rounds (report ∷ []));
                    front = st.rounds ++ report ∷ [];
                    tail = [];
                    split = sym (append_nil (st.rounds ++ report ∷ []));
                    streak = refl;
                    flat = tt;
                    first_in_front = λ h. rw length-append (omega arith);
                  })
          ]

    rounds_after :
        (round : ℕ) (report : CritiqueReport) (st : CritiqueState)
        → (after_report synthesise critique enrich opts round report st).rounds
          ≡ st.rounds ++ report ∷ []
    unfolding after_report
    rounds_after round report st = refl

    pub judge-Fine :
        (done : ℕ) (report : CritiqueReport) (st : CritiqueState)
        → suc done ≤ rounds_allowed opts
        → RoundInv done st
        → Below st.rounds
        → Fine done (judge synthesise critique enrich opts (suc done) report st)
    unfolding judge
    judge-Fine done report st left inv below =
        let next = after_report synthesise critique enrich opts (suc done) report st in
        let inv_next = judged-RoundInv done st report inv in
        let size : length (st.rounds ++ report ∷ []) ≡ suc done =
          rw length-append (omega (arith, inv.counted)) in
        let room : length next.rounds ≤ rounds_allowed opts =
          omega (arith, inv_next.counted, left) in
        elim (Bool-cases (leb (target opts) report.score)) [
          | inl hit ↦
              rw (judge, hit)
                (record {
                  bounded = omega (arith, size, left);
                  reached = (st.rounds, report, refl, leb→le _ _ hit, below);
                })
          | inr miss ↦
              let low : report.score < target opts = ground arith in
              let below_next : Below next.rounds =
                rw rounds_after (All-append _ st.rounds (report ∷ []) below (low, tt)) in
              elim (Bool-cases (leb (flat_rounds_needed opts) next.plateau_streak)) [
                | inl long ↦
                    rw (judge, miss, long)
                      (record {
                        bounded = room;
                        reached = (
                          below_next,
                          inv_next.front,
                          inv_next.tail,
                          inv_next.split,
                          inv_next.first_in_front (omega arith),
                          rw inv_next.streak (leb→le _ _ long),
                          inv_next.flat,
                        );
                      })
                | inr short ↦
                    elim (Bool-cases
                      (enrich (suc done) report == 0 && is_nil report.next_queries)) [
                        | inl dry ↦
                            rw (judge, miss, short, dry)
                              (record {
                                bounded = room;
                                reached = (
                                  below_next,
                                  st.rounds,
                                  report,
                                  rounds_after (suc done) report st,
                                  rw inv_next.counted (ground arith),
                                  is_nil→nil report.next_queries (ground arith),
                                );
                              })
                        | inr more ↦ rw (judge, miss, short, more) (inv_next, below_next)
                      ]
              ]
        ]
