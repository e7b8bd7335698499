-- ===== src/Osint/Refinement/Loop.antt =====
-- How the refinement loop ends: within the sweeps it is given, and for the reason it returns.
use ocrowley_commons.Common.{
  Bool-cases, DistinctKeys, List, Memᴰ, Option, Option-cases, String, [], arith, count_from-suc,
  includes, inl, inr, keep_new-DistinctKeys, keep_new-Fresh, keep_new-covers, keep_new-id,
  keep_new-mem, leb, leb→le, length, map, map-append, refl, suc, true, zero, ℕ, ◌+◌, ◌≡◌, ◌≤◌,
}
use ocrowley_commons.Osint.Refinement.{
  LoopState, RefinementOptions, RefinementSeed, SweepOutcome, SweepResult, dedupe_seeds, goes_on,
  initial_state, run_refinement_loop, run_sweep, run_sweeps, seed_key, stops, store_items,
}
use ocrowley_commons.Osint.Refinement.Invariant.{
  LoopInv, initial_state-LoopInv, store_items-DistinctKeys,
}
use ocrowley_commons.Osint.Refinement.Stopping.{Ends, Fine, Quiet, finish_sweep-Fine, with_items}

-- `dedupeSeeds` keeps seeds of the list only, one for every key of the list and no two with one key;
-- to apply it again changes nothing.
pub dedupe_seeds_lem :
    (lower : String → String) (seeds : List RefinementSeed)
    → DistinctKeys (seed_key lower) (dedupe_seeds lower seeds)
      × ((s : RefinementSeed) → Memᴰ s (dedupe_seeds lower seeds) → Memᴰ s seeds)
      × ((s : RefinementSeed)
          → Memᴰ s seeds
          → includes (map (seed_key lower) (dedupe_seeds lower seeds)) (seed_key lower s) ≡ true)
      × (dedupe_seeds lower (dedupe_seeds lower seeds) ≡ dedupe_seeds lower seeds)
unfolding dedupe_seeds
dedupe_seeds_lem lower seeds = (
  keep_new-DistinctKeys (seed_key lower) [] seeds,
  keep_new-mem (seed_key lower) [] seeds,
  keep_new-covers (seed_key lower) [] seeds,
  keep_new-id (seed_key lower) [] _ (keep_new-DistinctKeys (seed_key lower) [] seeds)
      (keep_new-Fresh (seed_key lower) [] seeds),
)

module _ {ℓ} {R : Type ℓ} (lower : String → String)
    (query : List RefinementSeed → ℕ → Option (SweepResult R))
    (extract : Option (List R → List RefinementSeed → List RefinementSeed))
    (opts : RefinementOptions) where
  run_sweep-Fine :
      (done : ℕ) (st : LoopState R)
      → suc done ≤ opts.max_sweeps
      → LoopInv lower opts done st
      → Quiet lower query extract opts st
      → Fine lower query extract opts done (run_sweep lower query extract opts (suc done) st)
  unfolding run_sweep
  run_sweep-Fine done st left inv quiet = elim (Option-cases (query st.active_seeds (suc done))) [
    | inl thrown ↦
        rw (thrown, run_sweep)
          (record {
            done = done;
            bounded = omega (arith, left);
            inv = inv;
            reached = (rw thrown refl, quiet);
          })
    | inr (result, answered) ↦
        let items = store_items (suc done) 0 result.items result.item_keys st.all_items in
        let stored : LoopState R = record st { all_items = items } in
        let inv_stored : LoopInv lower opts done stored =
          with_items lower query extract opts done st items inv (
            store_items-DistinctKeys (suc done) 0 result.items result.item_keys st.all_items
              inv.unique_items) in
        elim (Bool-cases (leb opts.max_items (length items))) [
          | inl full ↦
              rw (answered, run_sweep, full)
                (record {
                  done = suc done;
                  bounded = left;
                  inv = record {
                    active = inv.active;
                    used = inv.used;
                    distinct = inv.distinct;
                    added = inv.added;
                    grown = inv.grown;
                    confident = inv.confident;
                    unique_items = inv_stored.unique_items;
                    numbered =
                        rw (map-append, inv.numbered) (ground (arith, count_from-suc 1 done));
                  };
                  reached = leb→le _ _ full;
                })
          | inr room ↦
              rw (answered, run_sweep, room)
                (finish_sweep-Fine lower query extract opts done result stored left inv_stored
                  quiet)
        ]
  ]

  -- From `done` sweeps on.
  run_sweeps-Ends :
      (left done sweep : ℕ) (st : LoopState R)
      → sweep ≡ suc done
      → left + done ≡ opts.max_sweeps
      → LoopInv lower opts done st
      → Quiet lower query extract opts st
      → Ends lower query extract opts
          (run_sweeps lower query extract opts left sweep st).0
          (run_sweeps lower query extract opts left sweep st).1
  unfolding run_sweeps
  run_sweeps-Ends zero done sweep st at total inv quiet = record {
    done = done;
    bounded = omega (arith, total);
    inv = inv;
    reached = (omega (arith, total), quiet);
  }
  run_sweeps-Ends (suc left) done sweep st at total inv quiet =
      resume (run_sweep lower query extract opts sweep st) refl
        (rw at (run_sweep-Fine done st (omega (arith, total)) inv quiet))
        (λ next i q.
          run_sweeps-Ends left (suc done) (sweep + 1) next (omega (arith, at))
            (omega (arith, total)) i q)
    where
      resume :
          (o : SweepOutcome R)
          → run_sweep lower query extract opts sweep st ≡ o
          → Fine lower query extract opts done o
          → ((next : LoopState R)
              → LoopInv lower opts (suc done) next
              → Quiet lower query extract opts next
              → Ends lower query extract opts
                  (run_sweeps lower query extract opts left (sweep + 1) next).0
                  (run_sweeps lower query extract opts left (sweep + 1) next).1)
          → Ends lower query extract opts
              (run_sweeps lower query extract opts (suc left) sweep st).0
              (run_sweeps lower query extract opts (suc left) sweep st).1
      resume (stops reason last) out fine go_on = rw (run_sweeps, out) fine
      resume (goes_on next) out fine go_on = rw (run_sweeps, out) (go_on next fine.0 fine.1)

  -- Whatever the query and the extraction answer, the loop makes at most `max_sweeps` sweeps,
  -- numbered from 1 on without a gap, and ends for the reason it returns: after no new seed; after
  -- a later sweep with new seeds whose overlap reaches the threshold; with the item map at its cap;
  -- at a query that throws, or after exactly `max_sweeps` sweeps, these two with no sweep converged.
  -- In the state that the result is read from, no two seeds have the same key, the seeds that were added to the initial ones have
  -- the least confidence at least, and no item key is twice in the map.
  pub run_refinement_loop_lem :
      (last : LoopState R) × ((run_refinement_loop lower query extract opts).sweeps ≡ last.sweeps)
      × ((run_refinement_loop lower query extract opts).all_items ≡ map (λ e. e.1) last.all_items)
      × ((run_refinement_loop lower query extract opts).all_seeds ≡ last.all_seeds)
      × ((run_refinement_loop lower query extract opts).total_sweeps ≡ length last.sweeps)
      × Ends lower query extract opts (run_refinement_loop lower query extract opts).reason last
  unfolding run_refinement_loop initial_state
  run_refinement_loop_lem = (
    (run_sweeps lower query extract opts opts.max_sweeps 1
        (initial_state lower query extract opts)).1,
    refl,
    refl,
    refl,
    refl,
    run_sweeps-Ends opts.max_sweeps 0 1 _ refl (omega arith)
        (initial_state-LoopInv lower query extract opts) tt,
  )
