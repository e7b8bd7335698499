-- ===== src/Osint/Refinement/Invariant.antt =====
-- What every sweep of the refinement loop keeps true of its variables.
use ocrowley_commons.Common.{
  All, All-append, All-tabulate, Bool-cases, DistinctKeys, DistinctKeys-append, Fresh, List, Memᴰ,
  Option, String, [], ap, append_assoc, append_nil, arith, count_from, count_from-suc, false,
  includes, inl, inr, keep_new-DistinctKeys, keep_new-mem, map, map-append, mem-filter, refl, suc,
  sym, ℕ, ◌++◌, ◌+◌, ◌∷◌, ◌≡◌, ◌≤◌,
}
use ocrowley_commons.Osint.Refinement.{
  ItemMap, LoopState, RefinementOptions, RefinementSeed, SweepResult, dedupe_seeds, filtered_new,
  fresh_seeds, initial_state, item_key, new_seeds, next_state, seed_key, set_new, store_items,
  summary_of,
}

module _ {ℓ} {R : Type ℓ} where
  set_new-DistinctKeys :
      (key : String) (item : R) (found : ItemMap R)
      → DistinctKeys item_key found
      → DistinctKeys item_key (set_new key item found)
  unfolding set_new
  set_new-DistinctKeys key item found d = elim (Bool-cases (includes (map item_key found) key)) [
    | inl old ↦ rw (set_new, old) d
    | inr new ↦
        rw (set_new, new)
          (DistinctKeys-append item_key found ((key, item) ∷ []) d (refl, tt) (new, tt))
  ]

  pub store_items-DistinctKeys :
      (sweep i : ℕ) (items : List R) (keys : List String) (found : ItemMap R)
      → DistinctKeys item_key found
      → DistinctKeys item_key (store_items sweep i items keys found)
  unfolding store_items
  store_items-DistinctKeys sweep i [] keys found d = d
  store_items-DistinctKeys sweep i (item ∷ items) [] found d =
      store_items-DistinctKeys sweep (i + 1) items [] _ (set_new-DistinctKeys _ item found d)
  store_items-DistinctKeys sweep i (item ∷ items) (key ∷ keys) found d =
      store_items-DistinctKeys sweep (i + 1) items keys _ (set_new-DistinctKeys key item found d)

module _ (lower : String → String) where
  -- What is new passes the two tests.
  filtered_new-passes :
      (min_confidence : ℕ) (used : List String) (new : List RefinementSeed) (s : RefinementSeed)
      → Memᴰ s (filtered_new lower min_confidence used new)
      → (min_confidence ≤ s.confidence) × (includes used (seed_key lower s) ≡ false)
  unfolding filtered_new dedupe_seeds
  filtered_new-passes min_confidence used new s m =
      let (listed, passed) = mem-filter _ new s (keep_new-mem (seed_key lower) [] _ s m) in
      (ground arith, ground arith)

  pub filtered_new-confident :
      (min_confidence : ℕ) (used : List String) (new : List RefinementSeed)
      → All (λ s. min_confidence ≤ s.confidence) (filtered_new lower min_confidence used new)
  filtered_new-confident min_confidence used new =
      All-tabulate _ _ (λ s m. (filtered_new-passes min_confidence used new s m).0)

  pub filtered_new-Fresh :
      (min_confidence : ℕ) (used : List String) (new : List RefinementSeed)
      → Fresh (seed_key lower) used (filtered_new lower min_confidence used new)
  filtered_new-Fresh min_confidence used new =
      All-tabulate _ _ (λ s m. (filtered_new-passes min_confidence used new s m).1)

  pub filtered_new-DistinctKeys :
      (min_confidence : ℕ) (used : List String) (new : List RefinementSeed)
      → DistinctKeys (seed_key lower) (filtered_new lower min_confidence used new)
  unfolding filtered_new dedupe_seeds
  filtered_new-DistinctKeys min_confidence used new = keep_new-DistinctKeys (seed_key lower) [] _

  -- After `done` sweeps: the active seeds are all seeds, and their keys the used ones, with no key
  -- twice; what was added to the initial seeds is sure enough; no item key is twice in the map; the
  -- summaries are numbered from 1 on.
  pub record LoopInv {ℓ} {R : Type ℓ} (opts : RefinementOptions) (done : ℕ) (st : LoopState R)
      : Type ℓ where
    pub active : st.active_seeds ≡ st.all_seeds
    pub used : st.used_seed_keys ≡ map (seed_key lower) st.all_seeds
    pub distinct : DistinctKeys (seed_key lower) st.all_seeds
    pub added : List RefinementSeed
    pub grown : st.all_seeds ≡ dedupe_seeds lower opts.initial_seeds ++ added
    pub confident : All (λ s. opts.min_seed_confidence ≤ s.confidence) added
    pub unique_items : DistinctKeys item_key st.all_items
    pub numbered : map (λ s. s.sweep_number) st.sweeps ≡ count_from 1 done

  module _ {ℓ} {R : Type ℓ} (query : List RefinementSeed → ℕ → Option (SweepResult R))
      (extract : Option (List R → List RefinementSeed → List RefinementSeed)) where
    pub initial_state-LoopInv :
        (opts : RefinementOptions) → LoopInv {R = R} opts 0 (initial_state lower query extract opts)
    unfolding initial_state dedupe_seeds
    initial_state-LoopInv opts = record {
      active = refl;
      used = refl;
      distinct = keep_new-DistinctKeys (seed_key lower) [] opts.initial_seeds;
      added = [];
      grown = sym (append_nil (dedupe_seeds lower opts.initial_seeds));
      confident = tt;
      unique_items = tt;
      numbered = refl;
    }

    pub next_state-LoopInv :
        (opts : RefinementOptions) (done : ℕ) (result : SweepResult R) (st : LoopState R)
        → LoopInv opts done st
        → LoopInv opts (suc done) (next_state lower query extract opts (suc done) result st)
    unfolding next_state summary_of fresh_seeds
    next_state-LoopInv opts done result st inv =
        let found = new_seeds lower query extract result st.all_seeds in
        let fresh = filtered_new lower opts.min_seed_confidence st.used_seed_keys found in
        record {
          active = ap (λ xs. xs ++ fresh) inv.active;
          used = rw (map-append, inv.used) refl;
          distinct =
              DistinctKeys-append (seed_key lower) st.all_seeds fresh inv.distinct
                (filtered_new-DistinctKeys opts.min_seed_confidence st.used_seed_keys found)
                (rw (← inv.used)
                  (filtered_new-Fresh opts.min_seed_confidence st.used_seed_keys found));
          added = inv.added ++ fresh;
          grown = rw (inv.grown, append_assoc) refl;
          confident =
              All-append _ inv.added fresh inv.confident
                (filtered_new-confident opts.min_seed_confidence st.used_seed_keys found);
          unique_items = inv.unique_items;
          numbered = rw (map-append, inv.numbered) (ground (arith, count_from-suc 1 done));
        }
