-- ===== src/Osint/Refinement.antt =====
-- packages/osint/src/refinementLoop.ts: the loop that queries, collects new seeds and queries again.
-- `toLowerCase` is the parameter `lower`; the injected `queryFn` and `extractFn` are parameters, a
-- query that throws returns none, and `extractFn` is one that returns. A query is a function of the seeds and of the sweep number, and no
-- sweep number is used twice, so it may answer every sweep as it likes. Durations are left out, and
-- `onSweepDone` sees the summaries in the order of the list. Confidences are natural numbers; a ratio
-- is kept as a fraction.
pub mod Invariant
pub mod Stopping
pub mod Loop
mod Tests
use ocrowley_commons.Common.{
  Bool, List, Option, String, [], decimal, false, filter, if◌then◌else◌, includes, is_some,
  keep_new, leb, length, ltb, map, none, not, some, suc, trim, true, zero, ℕ, ◌&&◌, ◌*◌, ◌++◌, ◌+s◌,
  ◌+◌, ◌==◌, ◌∷◌,
}

pub data ConvergenceReason : Type 0 where
  no_new_refinements diminishing_returns out_of_sweeps : ConvergenceReason
  llm_converged budget_exhausted denied_by_policy query_error : ConvergenceReason

pub record RefinementSeed : Type 0 where
  pub kind : String
  pub value : String
  pub confidence : ℕ
  pub source : String

pub record SweepResult {ℓ} (R : Type ℓ) : Type ℓ where
  pub items : List R
  pub item_keys : List String
  pub discovered_seeds : List RefinementSeed

-- `part / whole`.
pub record Ratio : Type 0 where
  pub part : ℕ
  pub whole : ℕ

abbrev pub at_least : Ratio → Ratio → Bool
at_least r t = leb (t.part * r.whole) (r.part * t.whole)

pub record SweepSummary {ℓ} (R : Type ℓ) : Type ℓ where
  pub sweep_number : ℕ
  pub seeds : List RefinementSeed
  pub result : SweepResult R
  pub new_seeds_count : ℕ
  pub overlap : Ratio
  pub converged : Bool
  pub convergence_reason : Option ConvergenceReason

pub record RefinementOptions : Type 0 where
  pub initial_seeds : List RefinementSeed
  pub max_sweeps : ℕ
  pub overlap_threshold : Ratio
  pub min_seed_confidence : ℕ
  pub max_items : ℕ

-- The options with the defaults of the source.
abbrev pub default_options : List RefinementSeed → RefinementOptions
default_options seeds = record {
  initial_seeds = seeds;
  max_sweeps = 8;
  overlap_threshold = record { part = 85; whole = 100 };
  min_seed_confidence = 60;
  max_items = 500;
}

pub record RefinementLoopResult {ℓ} (R : Type ℓ) : Type ℓ where
  pub sweeps : List (SweepSummary R)
  pub all_items : List R
  pub all_seeds : List RefinementSeed
  pub reason : ConvergenceReason
  pub total_sweeps : ℕ

-- `allItemsMap`, in insertion order.
abbrev pub ItemMap {ℓ} : Type ℓ → Type ℓ
ItemMap R = List (String × R)

abbrev pub item_key {ℓ} : {R : Type ℓ} → String × R → String
item_key e = e.0

-- `if (!map.has(key)) map.set(key, item)`.
unfoldable pub set_new {ℓ} : {R : Type ℓ} → String → R → ItemMap R → ItemMap R
set_new key item found =
    if includes (map item_key found) key then found else found ++ (key, item) ∷ []

-- The loop over the items; `keys` are the item keys from index `i` on.
unfoldable pub store_items {ℓ} :
    {R : Type ℓ} (sweep i : ℕ) → List R → List String → ItemMap R → ItemMap R
store_items sweep i [] keys found = found
store_items sweep i (item ∷ items) [] found =
    store_items sweep (i + 1) items [] (set_new (decimal sweep +s "-" +s decimal i) item found)
store_items sweep i (item ∷ items) (key ∷ keys) found =
    store_items sweep (i + 1) items keys (set_new key item found)

unfoldable pub overlap_ratio : List String → List String → Ratio
overlap_ratio prev_keys [] = record { part = 1; whole = 1 }
overlap_ratio prev_keys (key ∷ keys) = record {
  part = length (filter (includes prev_keys) (key ∷ keys));
  whole = length (key ∷ keys);
}

-- The variables of the loop; the sets are lists of which only the membership counts.
pub record LoopState {ℓ} (R : Type ℓ) : Type ℓ where
  pub sweeps : List (SweepSummary R)
  pub all_items : ItemMap R
  pub all_seeds : List RefinementSeed
  pub active_seeds : List RefinementSeed
  pub used_seed_keys : List String
  pub prev_item_keys : List String

-- A sweep breaks out of the loop or goes on.
pub data SweepOutcome {ℓ} (R : Type ℓ) : Type ℓ where
  stops : ConvergenceReason → LoopState R → SweepOutcome R
  goes_on : LoopState R → SweepOutcome R

-- Why a sweep converged, if it did.
abbrev pub sweep_reason : ℕ → ℕ → Bool → Option ConvergenceReason
sweep_reason sweep new_seeds similar =
    if new_seeds == 0
    then some no_new_refinements
    else if similar && ltb 1 sweep
    then some diminishing_returns
    else none

abbrev pub conclude_sweep {ℓ} :
    {R : Type ℓ} → Option ConvergenceReason → LoopState R → SweepOutcome R
conclude_sweep none st = goes_on st
conclude_sweep (some r) st = stops r st

module _ (lower : String → String) where
  unfoldable pub seed_key : RefinementSeed → String
  seed_key seed = seed.kind +s ":" +s trim (lower seed.value)

  unfoldable pub dedupe_seeds : List RefinementSeed → List RefinementSeed
  unfolding seed_key
  dedupe_seeds = keep_new seed_key []

  -- The seeds of a sweep that are used from then on: sure enough, not used before, no two alike.
  unfoldable pub filtered_new : ℕ → List String → List RefinementSeed → List RefinementSeed
  unfolding dedupe_seeds seed_key
  filtered_new min_confidence used new = dedupe_seeds (
      filter
        (λ s. if ltb s.confidence min_confidence then false else not (includes used (seed_key s)))
        new)

  module _ {ℓ} {R : Type ℓ} (query : List RefinementSeed → ℕ → Option (SweepResult R))
      (extract : Option (List R → List RefinementSeed → List RefinementSeed)) where
    -- `discoveredSeeds` if there are any, else what `extractFn` finds, if it is given.
    abbrev pub new_seeds : SweepResult R → List RefinementSeed → List RefinementSeed
    new_seeds result existing = elim result.discovered_seeds [
      | [] ↦ elim extract [ none ↦ [] | some f ↦ f result.items existing ]
      | s ∷ ss ↦ s ∷ ss
    ]

    -- The new seeds of a sweep, its summary and the variables after it; `st` has the items of the
    -- sweep already.
    unfoldable pub fresh_seeds :
        RefinementOptions → SweepResult R → LoopState R → List RefinementSeed
    unfolding filtered_new
    fresh_seeds opts result st =
        filtered_new opts.min_seed_confidence st.used_seed_keys (new_seeds result st.all_seeds)

    unfoldable pub summary_of : RefinementOptions → ℕ → SweepResult R → LoopState R → SweepSummary R
    unfolding fresh_seeds overlap_ratio
    summary_of opts sweep result st =
        let fresh = fresh_seeds opts result st in
        let overlap = overlap_ratio st.prev_item_keys result.item_keys in
        let reason = sweep_reason sweep (length fresh) (at_least overlap opts.overlap_threshold) in
        record {
          sweep_number = sweep;
          seeds = st.active_seeds ++ fresh;
          result = result;
          new_seeds_count = length fresh;
          overlap = overlap;
          converged = is_some reason;
          convergence_reason = reason;
        }

    unfoldable pub next_state : RefinementOptions → ℕ → SweepResult R → LoopState R → LoopState R
    unfolding summary_of fresh_seeds seed_key
    next_state opts sweep result st =
        let fresh = fresh_seeds opts result st in
        record {
          sweeps = st.sweeps ++ summary_of opts sweep result st ∷ [];
          all_items = st.all_items;
          all_seeds = st.all_seeds ++ fresh;
          active_seeds = st.active_seeds ++ fresh;
          used_seed_keys = st.used_seed_keys ++ map seed_key fresh;
          prev_item_keys = st.prev_item_keys ++ result.item_keys;
        }

    unfoldable pub finish_sweep :
        RefinementOptions → ℕ → SweepResult R → LoopState R → SweepOutcome R
    unfolding next_state summary_of
    finish_sweep opts sweep result st =
        conclude_sweep (summary_of opts sweep result st).convergence_reason
          (next_state opts sweep result st)

    unfoldable pub run_sweep : RefinementOptions → ℕ → LoopState R → SweepOutcome R
    unfolding finish_sweep store_items set_new overlap_ratio
    run_sweep opts sweep st = elim (query st.active_seeds sweep) [
      | none ↦ stops query_error st
      | some result ↦
          let items = store_items sweep 0 result.items result.item_keys st.all_items in
          let stored = record st { all_items = items } in
          if leb opts.max_items (length items)
          then stops budget_exhausted (record stored {
            sweeps =
                st.sweeps
                ++ (record {
                  sweep_number = sweep;
                  seeds = st.active_seeds;
                  result = result;
                  new_seeds_count = 0;
                  overlap = overlap_ratio st.prev_item_keys result.item_keys;
                  converged = true;
                  convergence_reason = some budget_exhausted;
                })
                  ∷ [];
          })
          else finish_sweep opts sweep result stored
    ]

    -- The loop from `sweep` on, with `left` sweeps to go.
    unfoldable pub run_sweeps :
        RefinementOptions → (left sweep : ℕ) → LoopState R → ConvergenceReason × LoopState R
    unfolding run_sweep
    run_sweeps opts zero sweep st = (out_of_sweeps, st)
    run_sweeps opts (suc left) sweep st = elim (run_sweep opts sweep st) [
      | stops reason last ↦ (reason, last)
      | goes_on next ↦ run_sweeps opts left (sweep + 1) next
    ]

    unfoldable pub initial_state : RefinementOptions → LoopState R
    unfolding dedupe_seeds seed_key
    initial_state opts =
        let seeds = dedupe_seeds opts.initial_seeds in
        record {
          sweeps = [];
          all_items = [];
          all_seeds = seeds;
          active_seeds = seeds;
          used_seed_keys = map seed_key seeds;
          prev_item_keys = [];
        }

    unfoldable pub run_refinement_loop : RefinementOptions → RefinementLoopResult R
    unfolding run_sweeps initial_state
    run_refinement_loop opts =
        let (reason, last) = run_sweeps opts opts.max_sweeps 1 (initial_state opts) in
        record {
          sweeps = last.sweeps;
          all_items = map (λ e. e.1) last.all_items;
          all_seeds = last.all_seeds;
          reason = reason;
          total_sweeps = length last.sweeps;
        }
