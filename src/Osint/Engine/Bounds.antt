-- ===== src/Osint/Engine/Bounds.antt =====
-- The whole engine: its gate, its evidence and its bounds.
use ocrowley_commons.Common.{
  Bool, DistinctKeys, DistinctKeys-append, List, Option, String, [], ap, arith, count_from, err,
  false, get_or, if_false, if_true, is_blank, keep_new-DistinctKeys, keep_new-Fresh, length,
  length-map, map, ok, refl, some, suc, sym, true, zero, ℕ, ◌+◌, ◌-◌, ◌∙◌, ◌∷◌, ◌≡◌, ◌≤◌,
}
use ocrowley_commons.Osint.Policy.{assert_osint_allowed, policy_denied, scan_passive}
use ocrowley_commons.Osint.Policy.Decision.{assert_osint_allowed_lem, ref_reason}
use ocrowley_commons.Osint.Refinement.{
  ConvergenceReason, RefinementOptions, RefinementSeed, SweepResult, SweepSummary,
  run_refinement_loop, seed_key,
}
use ocrowley_commons.Osint.Refinement.Loop.{run_refinement_loop_lem}
use ocrowley_commons.Osint.Critique.{
  CritiqueInput, CritiqueLoopOptions, CritiqueReport, Snapshot, StopReason, no_new_evidence,
  plateau, rounds_allowed, rounds_used_up, run_critique_loop, target_reached,
}
use ocrowley_commons.Osint.Critique.Loop.{run_critique_loop_lem}
use ocrowley_commons.Osint.Engine.{
  EngineOptions, EngineResult, EntityFindings, OsintEvidenceItem, after_rounds, assemble,
  critique_evidence, critique_options, final_evidence, gain_at, keep_items, new_items,
  refinement_options, run_recursive_osint, snapshot_at, sweep_evidence, to_findings,
}

abbrev pub item_id : OsintEvidenceItem → String
item_id i = i.key

keep_items-DistinctKeys :
    (store added : List OsintEvidenceItem)
    → DistinctKeys item_id store
    → DistinctKeys item_id (keep_items store added)
unfolding new_items
keep_items-DistinctKeys store added d =
    DistinctKeys-append item_id store (new_items store added) d
      (keep_new-DistinctKeys item_id (map item_id store) added)
      (keep_new-Fresh item_id (map item_id store) added)

sweep_evidence-DistinctKeys :
    (sweeps : List (SweepSummary OsintEvidenceItem)) (store : List OsintEvidenceItem)
    → DistinctKeys item_id store
    → DistinctKeys item_id (sweep_evidence sweeps store)
unfolding sweep_evidence
sweep_evidence-DistinctKeys [] store d = d
sweep_evidence-DistinctKeys (s ∷ sweeps) store d =
    sweep_evidence-DistinctKeys sweeps (keep_items store s.result.items)
      (keep_items-DistinctKeys store s.result.items d)

count_from-length : (k n : ℕ) → length (count_from k n) ≡ n
count_from-length k zero = refl
count_from-length k (suc n) = ap suc (count_from-length (k + 1) n)

module _ (critique : CritiqueInput EntityFindings → CritiqueReport)
    (enrich : CritiqueReport
      → List RefinementSeed
      → List OsintEvidenceItem
      → List OsintEvidenceItem)
    (seeds : List RefinementSeed) (reason : ConvergenceReason) (start : List OsintEvidenceItem)
    (d : DistinctKeys item_id start) where
  after_rounds-DistinctKeys :
      (n : ℕ) → DistinctKeys item_id (after_rounds critique enrich seeds reason start n).0
  unfolding after_rounds
  after_rounds-DistinctKeys zero = d
  after_rounds-DistinctKeys (suc n) =
      keep_items-DistinctKeys (after_rounds critique enrich seeds reason start n).0 _
        (after_rounds-DistinctKeys n)

  final_evidence-DistinctKeys :
      (stop : StopReason) (n : ℕ)
      → DistinctKeys item_id (final_evidence critique enrich seeds reason start stop n)
  unfolding final_evidence
  final_evidence-DistinctKeys target_reached n = after_rounds-DistinctKeys (n - 1)
  final_evidence-DistinctKeys plateau n = after_rounds-DistinctKeys (n - 1)
  final_evidence-DistinctKeys rounds_used_up n = after_rounds-DistinctKeys n
  final_evidence-DistinctKeys no_new_evidence n = after_rounds-DistinctKeys n

rounds-le :
    {F : Type 0} (opts : CritiqueLoopOptions) (synthesise : ℕ → Snapshot F)
    (critique : CritiqueInput F → CritiqueReport) (enrich : ℕ → CritiqueReport → ℕ)
    → (run_critique_loop synthesise critique enrich opts).total_rounds ≤ rounds_allowed opts
rounds-le opts synthesise critique enrich =
    let (last, rounds, count, score, ends) =
      run_critique_loop_lem opts synthesise critique enrich in
    rw count ends.bounded

sweeps-le :
    (lower : String → String)
    (discover : List RefinementSeed → ℕ → Option (SweepResult OsintEvidenceItem))
    (extract : Option (List OsintEvidenceItem → List RefinementSeed → List RefinementSeed))
    (opts : RefinementOptions)
    → ((run_refinement_loop lower discover extract opts).total_sweeps ≤ opts.max_sweeps)
      × DistinctKeys (seed_key lower) (run_refinement_loop lower discover extract opts).all_seeds
sweeps-le lower discover extract opts =
    let (last, sweeps, items, seeds, total, ends) =
      run_refinement_loop_lem lower discover extract opts in
    let size : length last.sweeps ≡ ends.done =
      sym (length-map (λ (s : SweepSummary OsintEvidenceItem). s.sweep_number) last.sweeps)
      ∙ ap length ends.inv.numbered
      ∙ count_from-length 1 ends.done in
    (omega (arith, total, size, ends.bounded), rw seeds ends.inv.distinct)

-- What a run promises: no more sweeps and rounds than the options or their defaults say, no evidence
-- item twice by its key, the seeds of the discovery without two of one key, and the findings those of
-- the evidence.
pub record IsRun (lower : String → String) (opts : EngineOptions) (r : EngineResult) : Type 0 where
  pub sweeps : r.discovery.total_sweeps ≤ get_or opts.max_discover_sweeps 6
  pub rounds : r.critique.total_rounds ≤ get_or opts.max_critique_rounds 4
  pub distinct : DistinctKeys item_id r.evidence
  pub seeds : DistinctKeys (seed_key lower) r.seeds
  pub found : r.findings ≡ to_findings r.evidence r.seeds
  pub scored : r.score ≡ r.critique.final_score

module _ (lower : String → String) (id_le : String → String → Bool)
    (discover : List RefinementSeed → ℕ → Option (SweepResult OsintEvidenceItem))
    (extract : List OsintEvidenceItem → List RefinementSeed → List RefinementSeed)
    (critique : CritiqueInput EntityFindings → CritiqueReport)
    (enrich : CritiqueReport
      → List RefinementSeed
      → List OsintEvidenceItem
      → List OsintEvidenceItem)
    (opts : EngineOptions) where
  assemble-IsRun : IsRun lower opts (
      assemble lower id_le discover extract critique enrich
        (run_refinement_loop lower discover (some extract) (refinement_options opts))
        (critique_options opts))
  unfolding assemble critique_evidence
  assemble-IsRun =
      let r = run_refinement_loop lower discover (some extract) (refinement_options opts) in
      let start = sweep_evidence r.sweeps [] in
      let judged =
        critique_evidence critique enrich r.all_seeds r.reason start (critique_options opts) in
      let d = sweeps-le lower discover (some extract) (refinement_options opts) in
      record {
        sweeps = d.0;
        rounds =
            rounds-le (critique_options opts)
              (snapshot_at critique enrich r.all_seeds r.reason start) critique
              (gain_at critique enrich r.all_seeds r.reason start);
        distinct =
            final_evidence-DistinctKeys critique enrich r.all_seeds r.reason start
              (sweep_evidence-DistinctKeys r.sweeps [] tt) judged.stop_reason judged.total_rounds;
        seeds = d.1;
        found = refl;
        scored = refl;
      }

  -- The engine runs exactly where the authorization has a reference, whatever the tools answer, and a
  -- run keeps to its bounds: without options at most 6 sweeps and 4 rounds; no evidence item is there
  -- twice by its key and no seed twice by its own; the findings are those of the evidence. Otherwise
  -- it throws the denial.
  pub run_recursive_osint_lem :
      (is_blank opts.auth.authorization_ref ≡ false
        → (r : EngineResult) × (run_recursive_osint lower id_le discover extract critique enrich
              opts
            ≡ ok r)
          × IsRun lower opts r)
      × (is_blank opts.auth.authorization_ref ≡ true
          → run_recursive_osint lower id_le discover extract critique enrich opts
            ≡ err (policy_denied scan_passive ref_reason))
  unfolding run_recursive_osint
  run_recursive_osint_lem =
      let gate = assert_osint_allowed_lem id_le scan_passive opts.auth in
      (
        λ given.
            let passes : assert_osint_allowed id_le scan_passive opts.auth ≡ ok tt =
              gate ∙ if_false _ _ _ given in
            (
              assemble lower id_le discover extract critique enrich
                  (run_refinement_loop lower discover (some extract) (refinement_options opts))
                  (critique_options opts),
              rw (run_recursive_osint, passes) refl,
              assemble-IsRun,
            ),
        λ blank.
            let stops : assert_osint_allowed id_le scan_passive opts.auth
                ≡ err (policy_denied scan_passive ref_reason) =
              gate ∙ if_true _ _ _ blank in
            rw (run_recursive_osint, stops) refl,
      )
