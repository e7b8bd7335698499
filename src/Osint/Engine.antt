-- ===== src/Osint/Engine.antt =====
-- packages/osint/src/recursiveEngine.ts: the discovery loop, then the critique loop, over one store of
-- evidence. The toolkit, the critique and the extraction of seeds are parameters. The evidence is
-- written out as what the recorded sweeps and rounds leave: `queryFn` runs once for every sweep that
-- is recorded, and `enrich` once for every round that does not reach the target or a plateau. Progress
-- events, the list of tools and the first lines of the brief that the result repeats are left out.
pub mod Findings
pub mod Bounds
pub mod Deterministic
pub mod Gaps
mod Tests
use ocrowley_commons.Common.{
  Bool, List, Option, Result, String, [], decimal, err, get_or, if◌then◌else◌, includes, keep_new,
  leb, length, map, none, ok, some, str_eq, suc, take, zero, ℕ, ◌++◌, ◌+s◌, ◌-◌, ◌∷◌,
}
use ocrowley_commons.Osint.Policy.{
  OsintAuthorization, OsintError, assert_osint_allowed, scan_passive,
}
use ocrowley_commons.Osint.Refinement.{
  ConvergenceReason, RefinementLoopResult, RefinementOptions, RefinementSeed, SweepResult,
  SweepSummary, budget_exhausted, default_options, denied_by_policy, diminishing_returns,
  llm_converged, no_new_refinements, out_of_sweeps, query_error, run_refinement_loop,
}
use ocrowley_commons.Osint.Critique.{
  CritiqueInput, CritiqueLoopOptions, CritiqueLoopResult, CritiqueReport, Snapshot, StopReason,
  no_new_evidence, plateau, rounds_used_up, run_critique_loop, target_reached,
}

pub record OsintEvidenceItem : Type 0 where
  pub key : String
  pub entity : String
  pub title : String
  pub source : String
  pub snippet : String
  pub url : Option String
  pub score : Option ℕ

pub data Grade : Type 0 where
  grade_a grade_b : Grade

pub record FindingSnippet : Type 0 where
  pub title : String
  pub source : String
  pub snippet : String
  pub relevance_score : ℕ
  pub grade : Grade

pub record EntityFindings : Type 0 where
  pub entity : String
  pub kept_count : ℕ
  pub rejected_count : ℕ
  pub query_count : ℕ
  pub findings : List FindingSnippet

-- `byEntity`, in insertion order.
abbrev pub Groups : Type 0
Groups = List (String × List OsintEvidenceItem)

abbrev pub group_entity : String × List OsintEvidenceItem → String
group_entity g = g.0

-- `if (!byEntity.has(value)) byEntity.set(value, [])`, on the seeds.
unfoldable pub add_seeds : List RefinementSeed → Groups → Groups
add_seeds [] groups = groups
add_seeds (seed ∷ seeds) groups =
    let kept = add_seeds seeds groups in
    let grown = add_seeds seeds (groups ++ (seed.value, []) ∷ []) in
    if includes (map group_entity groups) seed.value then kept else grown

-- `get(entity) ?? []`, the push and the `set`, which keeps the place of an entity.
unfoldable pub push_item : OsintEvidenceItem → Groups → Groups
push_item item [] = (item.entity, item ∷ []) ∷ []
push_item item ((e, items) ∷ groups) =
    let rest = push_item item groups in
    if str_eq e item.entity then (e, items ++ item ∷ []) ∷ groups else (e, items) ∷ rest

unfoldable pub push_items : List OsintEvidenceItem → Groups → Groups
unfolding push_item
push_items [] groups = groups
push_items (item ∷ items) groups =
    let skipped = push_items items groups in
    let pushed = push_items items (push_item item groups) in
    if str_eq item.entity "*" then skipped else pushed

abbrev pub snippet_of : OsintEvidenceItem → FindingSnippet
snippet_of i = record {
  title = i.title;
  source = i.source;
  snippet = i.snippet;
  relevance_score = get_or i.score 50;
  grade = if leb 70 (get_or i.score 50) then grade_a else grade_b;
}

abbrev pub findings_of : String × List OsintEvidenceItem → EntityFindings
findings_of (entity, items) = record {
  entity = entity;
  kept_count = length items;
  rejected_count = 0;
  query_count = length items;
  findings = map snippet_of items;
}

unfoldable pub to_findings : List OsintEvidenceItem → List RefinementSeed → List EntityFindings
unfolding push_items add_seeds
to_findings evidence seeds = map findings_of (push_items evidence (add_seeds seeds []))

abbrev pub report_classification : String
report_classification = "UNCLASSIFIED - OPEN SOURCE LEADS ONLY"

abbrev pub evidential_warning : String
evidential_warning =
    "Generated output is analysis/control material, not primary evidence. All leads require verification against primary sources before use."

-- `lines.join('\n')`.
abbrev pub join_lines : List String → String
join_lines [] = ""
join_lines (line ∷ []) = line
join_lines (line ∷ next ∷ lines) = line +s "\n" +s join_lines (next ∷ lines)

abbrev pub brief_section : EntityFindings → String
brief_section f =
    "### "
    +s f.entity
    +s "\nKept: "
    +s decimal f.kept_count
    +s "\n"
    +s join_lines (
        map (λ (x : FindingSnippet). "- " +s x.title +s " (" +s x.source +s ")")
          (take 3 f.findings))

-- The text of a reason.
abbrev pub reason_name : ConvergenceReason → String
reason_name no_new_refinements = "no-new-refinements"
reason_name diminishing_returns = "diminishing-returns"
reason_name out_of_sweeps = "max-sweeps"
reason_name llm_converged = "llm-converged"
reason_name budget_exhausted = "budget-exhausted"
reason_name denied_by_policy = "policy-denied"
reason_name query_error = "error"

unfoldable pub synthesise_brief : List EntityFindings → ℕ → ConvergenceReason → String
unfolding decimal
synthesise_brief findings score reason = join_lines (
    ("Classification: " +s report_classification)
      ∷ ("Working score: " +s decimal score)
      ∷ ("Discovery stopped: " +s reason_name reason)
      ∷ ""
      ∷ map brief_section findings
    ++ "" ∷ evidential_warning ∷ [])

-- The items that are new to the store, and the store with them.
unfoldable pub new_items : List OsintEvidenceItem → List OsintEvidenceItem → List OsintEvidenceItem
new_items store added =
    keep_new (λ (i : OsintEvidenceItem). i.key) (map (λ (i : OsintEvidenceItem). i.key) store) added

abbrev pub keep_items : List OsintEvidenceItem → List OsintEvidenceItem → List OsintEvidenceItem
keep_items store added = store ++ new_items store added

-- What the recorded sweeps leave.
unfoldable pub sweep_evidence :
    List (SweepSummary OsintEvidenceItem) → List OsintEvidenceItem → List OsintEvidenceItem
unfolding new_items
sweep_evidence [] store = store
sweep_evidence (s ∷ sweeps) store = sweep_evidence sweeps (keep_items store s.result.items)

pub record EngineOptions : Type 0 where
  pub auth : OsintAuthorization
  pub initial_seeds : List RefinementSeed
  pub max_discover_sweeps : Option ℕ
  pub max_critique_rounds : Option ℕ
  pub target_score : Option ℕ

pub record EngineResult : Type 0 where
  pub discovery : RefinementLoopResult OsintEvidenceItem
  pub critique : CritiqueLoopResult
  pub evidence : List OsintEvidenceItem
  pub seeds : List RefinementSeed
  pub findings : List EntityFindings
  pub brief_text : String
  pub score : ℕ

abbrev pub refinement_options : EngineOptions → RefinementOptions
refinement_options opts = record (default_options opts.initial_seeds) {
  max_sweeps = get_or opts.max_discover_sweeps 6;
}

abbrev pub critique_options : EngineOptions → CritiqueLoopOptions
critique_options opts = record {
  max_rounds = some (get_or opts.max_critique_rounds 4);
  plateau_epsilon = none;
  plateau_rounds = none;
  target_score = some (get_or opts.target_score 80);
}

module _ (critique : CritiqueInput EntityFindings → CritiqueReport)
    (enrich : CritiqueReport
      → List RefinementSeed
      → List OsintEvidenceItem
      → List OsintEvidenceItem)
    (seeds : List RefinementSeed) (reason : ConvergenceReason)
    (start : List OsintEvidenceItem) where
  unfoldable pub evidence_snapshot : List OsintEvidenceItem → Snapshot EntityFindings
  unfolding to_findings synthesise_brief
  evidence_snapshot evidence =
      let findings = to_findings evidence seeds in
      record {
        findings = findings;
        brief_text = synthesise_brief findings 0 reason;
        evidence_count = length evidence;
      }

  abbrev pub report_on :
      (round : ℕ) → List OsintEvidenceItem → (previous_score : ℕ) → CritiqueReport
  report_on round evidence previous_score =
      let snap = evidence_snapshot evidence in
      critique (record {
        at_round = round;
        findings = snap.findings;
        brief_text = snap.brief_text;
        previous_score = previous_score;
      })

  -- The evidence and the previous score after so many rounds that all went on to `enrich`.
  unfoldable pub after_rounds : ℕ → List OsintEvidenceItem × ℕ
  unfolding evidence_snapshot new_items
  after_rounds zero = (start, 0)
  after_rounds (suc n) =
      let (evidence, previous_score) = after_rounds n in
      let report = report_on (suc n) evidence previous_score in
      (keep_items evidence (enrich report seeds evidence), report.score)

  -- A round that reaches the target or a plateau ends before `enrich`.
  unfoldable pub final_evidence : StopReason → (rounds : ℕ) → List OsintEvidenceItem
  unfolding after_rounds
  final_evidence target_reached rounds = (after_rounds (rounds - 1)).0
  final_evidence plateau rounds = (after_rounds (rounds - 1)).0
  final_evidence rounds_used_up rounds = (after_rounds rounds).0
  final_evidence no_new_evidence rounds = (after_rounds rounds).0

  -- What `synthesise` and `enrich` answer in a round.
  abbrev pub snapshot_at : ℕ → Snapshot EntityFindings
  snapshot_at round = evidence_snapshot (after_rounds (round - 1)).0

  abbrev pub gain_at : ℕ → CritiqueReport → ℕ
  gain_at round report =
      let evidence = (after_rounds (round - 1)).0 in
      length (new_items evidence (enrich report seeds evidence))

  unfoldable pub critique_evidence : CritiqueLoopOptions → CritiqueLoopResult
  unfolding run_critique_loop
  critique_evidence opts = run_critique_loop snapshot_at critique gain_at opts

module _ (lower : String → String) (id_le : String → String → Bool)
    (discover : List RefinementSeed → ℕ → Option (SweepResult OsintEvidenceItem))
    (extract : List OsintEvidenceItem → List RefinementSeed → List RefinementSeed)
    (critique : CritiqueInput EntityFindings → CritiqueReport)
    (enrich : CritiqueReport
      → List RefinementSeed
      → List OsintEvidenceItem
      → List OsintEvidenceItem) where
  unfoldable pub assemble :
      RefinementLoopResult OsintEvidenceItem → CritiqueLoopOptions → EngineResult
  unfolding critique_evidence final_evidence sweep_evidence to_findings synthesise_brief
  assemble discovery opts =
      let seeds = discovery.all_seeds in
      let start = sweep_evidence discovery.sweeps [] in
      let judged = critique_evidence critique enrich seeds discovery.reason start opts in
      let evidence =
        final_evidence critique enrich seeds discovery.reason start judged.stop_reason
          judged.total_rounds in
      let findings = to_findings evidence seeds in
      record {
        discovery = discovery;
        critique = judged;
        evidence = evidence;
        seeds = seeds;
        findings = findings;
        brief_text = synthesise_brief findings judged.final_score discovery.reason;
        score = judged.final_score;
      }

  unfoldable pub run_recursive_osint : EngineOptions → Result OsintError EngineResult
  unfolding assert_osint_allowed run_refinement_loop assemble
  run_recursive_osint opts = elim (assert_osint_allowed id_le scan_passive opts.auth) [
    | err e ↦ err e
    | ok _ ↦ ok (
        assemble (run_refinement_loop lower discover (some extract) (refinement_options opts))
          (critique_options opts))
  ]
