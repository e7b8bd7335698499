-- ===== src/Workflow/Progress.antt =====
-- Where a project stands after any steps were completed.
use mathlib.Core.Path.{subst}
use ocrowley_commons.Common.{
  All, Bool-cases, DistinctKeys, DistinctKeys-append, List, String, [], ap, arith, eq_refl, false,
  includes-append, inl, inr, map, map-append, refl, str_eq, sym, true, ℕ, ◌++◌, ◌||◌, ◌∙◌, ◌∷◌, ◌≡◌,
  ◌⊎◌,
}
use ocrowley_commons.Workflow.{
  ProjectWorkflowState, WorkflowStepId, complete_step, create_workflow_state, draft, export,
  first_open, idle, improve, is_done, plan, step_name, steps, suggest_next_step,
}

-- The step `id` is the first of `ss` that is not done, or all are and it is `idle`.
abbrev pub IsFirstOpen : List WorkflowStepId → List WorkflowStepId → WorkflowStepId → Type 0
IsFirstOpen done ss id =
    ((id ≡ idle) × All (λ s. is_done done s ≡ true) ss)
    ⊎ ((before : List WorkflowStepId) × (after : List WorkflowStepId) × (ss ≡ before ++ id ∷ after)
        × (is_done done id ≡ false)
        × All (λ s. is_done done s ≡ true) before)

first_open_done :
    (done ss : List WorkflowStepId) (s : WorkflowStepId)
    → is_done done s ≡ true
    → first_open done (s ∷ ss) ≡ first_open done ss
unfolding first_open
first_open_done done ss s old = rw old refl

first_open_fresh :
    (done ss : List WorkflowStepId) (s : WorkflowStepId)
    → is_done done s ≡ false
    → first_open done (s ∷ ss) ≡ s
unfolding first_open
first_open_fresh done ss s fresh = rw fresh refl

first_open-nil : (done : List WorkflowStepId) → first_open done [] ≡ idle
unfolding first_open
first_open-nil done = refl

first_open-IsFirstOpen : (done ss : List WorkflowStepId) → IsFirstOpen done ss (first_open done ss)
first_open-IsFirstOpen done [] = inl (first_open-nil done, tt)
first_open-IsFirstOpen done (s ∷ ss) = elim (Bool-cases (is_done done s)) [
  | inr fresh ↦
      subst (IsFirstOpen done (s ∷ ss)) (sym (first_open_fresh done ss s fresh))
        (inr ([], ss, refl, fresh, tt))
  | inl old ↦
      subst (IsFirstOpen done (s ∷ ss)) (sym (first_open_done done ss s old))
        (elim (first_open-IsFirstOpen done ss) [
          | inl (e, all_done) ↦ inl (e, (old, all_done))
          | inr (before, after, e, fresh, all_done) ↦
              inr (s ∷ before, after, ap (λ xs. s ∷ xs) e, fresh, (old, all_done))
        ])
]

-- The current step is the first open one, and no step is completed twice.
pub record OnTrack (state : ProjectWorkflowState) : Type 0 where
  pub current : IsFirstOpen state.completed_steps steps state.current_step
  pub once : DistinctKeys step_name state.completed_steps

is_done-append :
    (done : List WorkflowStepId) (step id : WorkflowStepId)
    → is_done (done ++ step ∷ []) id
      ≡ (is_done done id || (str_eq (step_name step) (step_name id) || false))
is_done-append done step id =
    rw map-append (includes-append (map step_name done) (step_name step ∷ []) (step_name id))

complete_step-OnTrack :
    (state : ProjectWorkflowState) (id : WorkflowStepId) (now : ℕ)
    → OnTrack state
    → OnTrack (complete_step state id now)
unfolding complete_step suggest_next_step
complete_step-OnTrack state id now t = record {
  current = first_open-IsFirstOpen _ steps;
  once = elim (Bool-cases (is_done state.completed_steps id)) [
    | inl old ↦ rw old t.once
    | inr new ↦
        rw new (
          DistinctKeys-append step_name state.completed_steps (id ∷ []) t.once (refl, tt) (new, tt))
  ];
}

-- Completing steps one after the other, each at its time.
abbrev pub complete_steps : List (WorkflowStepId × ℕ) → ProjectWorkflowState → ProjectWorkflowState
complete_steps [] state = state
complete_steps ((id, now) ∷ rest) state = complete_steps rest (complete_step state id now)

complete_steps-kept :
    (todo : List (WorkflowStepId × ℕ)) (state : ProjectWorkflowState) (id : WorkflowStepId)
    → is_done state.completed_steps id ≡ true
    → is_done (complete_steps todo state).completed_steps id ≡ true
unfolding complete_step
complete_steps-kept [] state id h = h
complete_steps-kept ((step, now) ∷ rest) state id h =
    complete_steps-kept rest (complete_step state step now) id
      (elim (Bool-cases (is_done state.completed_steps step)) [
        | inl old ↦ rw old h
        | inr new ↦ rw new (is_done-append state.completed_steps step id ∙ rw h refl)
      ])

complete_steps-OnTrack :
    (todo : List (WorkflowStepId × ℕ)) (state : ProjectWorkflowState)
    → OnTrack state
    → OnTrack (complete_steps todo state)
complete_steps-OnTrack [] state t = t
complete_steps-OnTrack ((id, now) ∷ rest) state t =
    complete_steps-OnTrack rest (complete_step state id now) (complete_step-OnTrack state id now t)

completes :
    (todo : List (WorkflowStepId × ℕ)) (state : ProjectWorkflowState)
    → All (λ e. is_done (complete_steps todo state).completed_steps e.0 ≡ true) todo
unfolding complete_step
completes [] state = tt
completes ((id, now) ∷ rest) state = (
  complete_steps-kept rest (complete_step state id now) id
      (elim (Bool-cases (is_done state.completed_steps id)) [
        | inl old ↦ rw old old
        | inr new ↦
            rw new
              (is_done-append state.completed_steps id id ∙ ground (arith, eq_refl (step_name id)))
      ]),
  completes rest (complete_step state id now),
)

-- In a new project in which any steps were completed, in any order and with repetitions: each of
-- them is completed, none is listed twice, and the current step is the first one of the guide that
-- is not completed, or idle when all five are.
pub complete_steps_lem :
    (project_id : String) (start : ℕ) (todo : List (WorkflowStepId × ℕ))
    → OnTrack (complete_steps todo (create_workflow_state project_id start))
      × All
          (λ e.
            is_done
              (complete_steps todo (create_workflow_state project_id start)).completed_steps
              e.0
            ≡ true)
          todo
unfolding create_workflow_state
complete_steps_lem project_id start todo = (
  complete_steps-OnTrack todo _ (record {
    current = inr ([], plan ∷ draft ∷ improve ∷ export ∷ [], refl, refl, tt);
    once = tt;
  }),
  completes todo _,
)
