-- ===== src/Workflow.antt =====
-- packages/workflow/src: the guided steps of a project (projectWorkflowService.ts, types.ts) and the
-- minimal path of an author (minimalPath.ts). Texts of a step other than its id are left out; a time
-- is the number of its milliseconds.
pub mod Progress
mod Tests
use ocrowley_commons.Common.{
  Bool, List, String, [], find, get_or, if◌then◌else◌, includes, map, not, ℕ, ◌++◌, ◌∷◌,
}

pub data WorkflowStepId : Type 0 where
  intake plan draft improve export idle : WorkflowStepId

abbrev pub step_name : WorkflowStepId → String
step_name intake = "intake"
step_name plan = "plan"
step_name draft = "draft"
step_name improve = "improve"
step_name export = "export"
step_name idle = "idle"

pub record ProjectWorkflowState : Type 0 where
  pub project_id : String
  pub current_step : WorkflowStepId
  pub completed_steps : List WorkflowStepId
  pub updated_at : ℕ

abbrev pub steps : List WorkflowStepId
steps = intake ∷ plan ∷ draft ∷ improve ∷ export ∷ []

-- `state.completedSteps.includes(id)`.
abbrev pub is_done : List WorkflowStepId → WorkflowStepId → Bool
is_done done id = includes (map step_name done) (step_name id)

-- The loop of `suggestNextStep`, from some step on.
unfoldable pub first_open : List WorkflowStepId → List WorkflowStepId → WorkflowStepId
first_open done [] = idle
first_open done (s ∷ ss) = let later = first_open done ss in if is_done done s then later else s

unfoldable pub suggest_next_step : List WorkflowStepId → WorkflowStepId
unfolding first_open
suggest_next_step done = first_open done steps

unfoldable pub create_workflow_state : String → ℕ → ProjectWorkflowState
create_workflow_state project_id now = record {
  project_id = project_id;
  current_step = intake;
  completed_steps = [];
  updated_at = now;
}

unfoldable pub complete_step : ProjectWorkflowState → WorkflowStepId → ℕ → ProjectWorkflowState
unfolding suggest_next_step
complete_step state id now =
    let completed =
      if is_done state.completed_steps id
      then state.completed_steps
      else state.completed_steps ++ id ∷ [] in
    record state {
      completed_steps = completed;
      current_step = suggest_next_step completed;
      updated_at = now;
    }

pub data MinimalStepId : Type 0 where
  seed_step spine_step draft_step cut_step pack_step : MinimalStepId

abbrev pub minimal_name : MinimalStepId → String
minimal_name seed_step = "seed"
minimal_name spine_step = "spine"
minimal_name draft_step = "draft"
minimal_name cut_step = "cut"
minimal_name pack_step = "pack"

abbrev pub minimal_steps : List MinimalStepId
minimal_steps = seed_step ∷ spine_step ∷ draft_step ∷ cut_step ∷ pack_step ∷ []

-- The first step that is not done, or the last one.
unfoldable pub next_minimal_step : List MinimalStepId → MinimalStepId
next_minimal_step done =
    get_or (find (λ s. not (includes (map minimal_name done) (minimal_name s))) minimal_steps)
      pack_step
