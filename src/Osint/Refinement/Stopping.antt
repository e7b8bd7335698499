-- ===== src/Osint/Refinement/Stopping.antt =====
-- What the reason of a sweep says of the loop's variables, and what a sweep hands on.
use ocrowley_commons.Common.{
  All, All-append, Bool, DistinctKeys, List, Option, String, [], arith, false, is_some, last?,
  length, ltb, none, refl, some, suc, true, ℕ, ◌&&◌, ◌++◌, ◌==◌, ◌∙◌, ◌∷◌, ◌≡◌, ◌≤◌,
}
use ocrowley_commons.Osint.Refinement.{
  ConvergenceReason, ItemMap, LoopState, RefinementOptions, RefinementSeed, SweepOutcome,
  SweepResult, at_least, budget_exhausted, conclude_sweep, denied_by_policy, diminishing_returns,
  finish_sweep, goes_on, item_key, llm_converged, next_state, no_new_refinements, out_of_sweeps,
  query_error, stops, summary_of, sweep_reason,
}
use ocrowley_commons.Osint.Refinement.Invariant.{LoopInv, next_state-LoopInv}

-- There is a last element, and it passes.
abbrev pub on_last {ℓ} : {A : Type ℓ} → (A → Bool) → List A → Bool
on_last p xs = elim (last? xs) [ none ↦ false | some x ↦ p x ]

on_last-append {ℓ} :
    {A : Type ℓ} (p : A → Bool) (xs : List A) (x : A) → on_last p (xs ++ x ∷ []) ≡ p x
on_last-append p [] x = refl
on_last-append p (y ∷ []) x = refl
on_last-append p (y ∷ z ∷ zs) x = on_last-append p (z ∷ zs) x

sweep_reason-no_new :
    (sweep n : ℕ) (similar : Bool)
    → sweep_reason sweep n similar ≡ some no_new_refinements
    → n == 0 ≡ true
sweep_reason-no_new sweep n similar h = ground arith

sweep_reason-diminishing :
    (sweep n : ℕ) (similar : Bool)
    → sweep_reason sweep n similar ≡ some diminishing_returns
    → (ltb 0 n && ltb 1 sweep && similar) ≡ true
sweep_reason-diminishing sweep n similar h = ground arith

-- The other reasons are none of a sweep's own.
abbrev is_own : ConvergenceReason → Bool
is_own no_new_refinements = true
is_own diminishing_returns = true
is_own _ = false

sweep_reason-own :
    (sweep n : ℕ) (similar : Bool) (r : ConvergenceReason)
    → sweep_reason sweep n similar ≡ some r
    → is_own r ≡ true
sweep_reason-own sweep n similar r h = ground arith

module _ {ℓ} {R : Type ℓ} (lower : String → String)
    (query : List RefinementSeed → ℕ → Option (SweepResult R))
    (extract : Option (List R → List RefinementSeed → List RefinementSeed))
    (opts : RefinementOptions) where
  -- No sweep so far converged.
  abbrev pub Quiet : LoopState R → Type 0
  Quiet st = All (λ s. s.converged ≡ false) st.sweeps

  -- What each reason says of the variables at the end, after `done` sweeps.
  abbrev pub Reached : ConvergenceReason → ℕ → LoopState R → Type 0
  Reached no_new_refinements done st = on_last (λ s. s.new_seeds_count == 0) st.sweeps ≡ true
  Reached diminishing_returns done st =
      on_last
        (λ s.
          ltb 0 s.new_seeds_count
          && ltb 1 s.sweep_number
          && at_least s.overlap opts.overlap_threshold)
        st.sweeps
      ≡ true
  Reached out_of_sweeps done st = (done ≡ opts.max_sweeps) × Quiet st
  Reached budget_exhausted done st = opts.max_items ≤ length st.all_items
  Reached query_error done st = (is_some (query st.active_seeds (suc done)) ≡ false) × Quiet st
  Reached llm_converged done st = false ≡ true
  Reached denied_by_policy done st = false ≡ true

  pub record Ends (reason : ConvergenceReason) (st : LoopState R) : Type ℓ where
    pub done : ℕ
    pub bounded : done ≤ opts.max_sweeps
    pub inv : LoopInv lower opts done st
    pub reached : Reached reason done st

  pub with_items :
      (done : ℕ) (st : LoopState R) (items : ItemMap R)
      → LoopInv lower opts done st
      → DistinctKeys item_key items
      → LoopInv lower opts done (record st { all_items = items })
  with_items done st items inv unique = record {
    active = inv.active;
    used = inv.used;
    distinct = inv.distinct;
    added = inv.added;
    grown = inv.grown;
    confident = inv.confident;
    unique_items = unique;
    numbered = inv.numbered;
  }

  -- What a sweep that follows `done` others may give.
  abbrev pub Fine : ℕ → SweepOutcome R → Type ℓ
  Fine done (goes_on next) = LoopInv lower opts (suc done) next × Quiet next
  Fine done (stops reason last) = Ends reason last

  conclude-Fine :
      (done : ℕ) (reason : Option ConvergenceReason) (st : LoopState R)
      → suc done ≤ opts.max_sweeps
      → LoopInv lower opts (suc done) st
      → (reason ≡ none → Quiet st)
      → ((r : ConvergenceReason) → reason ≡ some r → Reached r (suc done) st)
      → Fine done (conclude_sweep reason st)
  conclude-Fine done none st left inv quiet reached = (inv, quiet refl)
  conclude-Fine done (some r) st left inv quiet reached = record {
    done = suc done;
    bounded = left;
    inv = inv;
    reached = reached r refl;
  }

  reason-Reached :
      (done : ℕ) (result : SweepResult R) (st : LoopState R) (r : ConvergenceReason)
      → (summary_of lower query extract opts (suc done) result st).convergence_reason ≡ some r
      → Reached r (suc done) (next_state lower query extract opts (suc done) result st)
  unfolding next_state summary_of
  reason-Reached done result st no_new_refinements h =
      on_last-append _ st.sweeps _ ∙ sweep_reason-no_new (suc done) _ _ h
  reason-Reached done result st diminishing_returns h =
      on_last-append _ st.sweeps _ ∙ sweep_reason-diminishing (suc done) _ _ h
  reason-Reached done result st out_of_sweeps h = cc (sweep_reason-own (suc done) _ _ _ h)
  reason-Reached done result st budget_exhausted h = cc (sweep_reason-own (suc done) _ _ _ h)
  reason-Reached done result st query_error h = cc (sweep_reason-own (suc done) _ _ _ h)
  reason-Reached done result st llm_converged h = sweep_reason-own (suc done) _ _ _ h
  reason-Reached done result st denied_by_policy h = sweep_reason-own (suc done) _ _ _ h

  pub finish_sweep-Fine :
      (done : ℕ) (result : SweepResult R) (st : LoopState R)
      → suc done ≤ opts.max_sweeps
      → LoopInv lower opts done st
      → Quiet st
      → Fine done (finish_sweep lower query extract opts (suc done) result st)
  unfolding finish_sweep next_state summary_of
  finish_sweep-Fine done result st left inv quiet =
      conclude-Fine done _ (next_state lower query extract opts (suc done) result st) left
        (next_state-LoopInv lower query extract opts done result st inv) quiet_next
        (reason-Reached done result st)
    where
      quiet_next :
          (summary_of lower query extract opts (suc done) result st).convergence_reason ≡ none
          → Quiet (next_state lower query extract opts (suc done) result st)
      quiet_next h = All-append _ st.sweeps _ quiet (rw h refl, tt)
