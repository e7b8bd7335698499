-- ===== src/Osint/Refinement/Tests.antt =====
-- The refinement loop at concrete queries.
use ocrowley_commons.Common.{
  List, Option, String, [], decimal, if◌then◌else◌, keep_new, length, map, none, refl, some, trim,
  ℕ, ◌==◌, ◌∷◌, ◌≡◌,
}
use ocrowley_commons.Osint.Refinement.{
  LoopState, RefinementOptions, RefinementSeed, SweepResult, default_options, no_new_refinements,
  run_refinement_loop,
}
use ocrowley_commons.Osint.Refinement.Stopping.{Ends}
use ocrowley_commons.Osint.Refinement.Loop.{run_refinement_loop_lem}

abbrev seed : String → ℕ → RefinementSeed
seed value confidence = record {
  kind = "email";
  value = value;
  confidence = confidence;
  source = "test";
}

-- The first sweep finds an address and a doubtful one, the second only the address again.
abbrev answers : List RefinementSeed → ℕ → Option (SweepResult ℕ)
answers seeds sweep =
    if sweep == 1
    then some (record {
      items = 10 ∷ 11 ∷ [];
      item_keys = "a" ∷ [];
      discovered_seeds = seed "b@x" 90 ∷ seed "c@x" 20 ∷ seed " b@x " 80 ∷ [];
    })
    else some
        (record { items = 12 ∷ []; item_keys = "a" ∷ []; discovered_seeds = seed "b@x" 99 ∷ [] })

abbrev same_case : String → String
same_case s = s

abbrev start_options : RefinementOptions
start_options = default_options (seed "a@x" 50 ∷ seed "a@x " 70 ∷ [])

loop_run : (run_refinement_loop same_case answers none start_options).reason ≡ no_new_refinements
unfolding run_refinement_loop decimal keep_new trim
loop_run = refl

loop_seeds :
    (run_refinement_loop same_case answers none start_options).all_seeds
    ≡ seed "a@x" 50 ∷ seed "b@x" 90 ∷ []
unfolding run_refinement_loop decimal keep_new trim
loop_seeds = refl

loop_items : (run_refinement_loop same_case answers none start_options).all_items ≡ 10 ∷ 11 ∷ []
unfolding run_refinement_loop decimal keep_new trim
loop_items = refl

run_refinement_loop_lem_example :
    (last : LoopState ℕ) × ((run_refinement_loop same_case answers none start_options).sweeps
      ≡ last.sweeps)
    × ((run_refinement_loop same_case answers none start_options).all_items
        ≡ map (λ e. e.1) last.all_items)
    × ((run_refinement_loop same_case answers none start_options).all_seeds ≡ last.all_seeds)
    × ((run_refinement_loop same_case answers none start_options).total_sweeps ≡ length last.sweeps)
    × Ends same_case answers none start_options
        (run_refinement_loop same_case answers none start_options).reason
        last
run_refinement_loop_lem_example = run_refinement_loop_lem same_case answers none start_options
