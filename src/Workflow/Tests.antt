-- ===== src/Workflow/Tests.antt =====
-- The workflow at concrete steps.
use ocrowley_commons.Common.{All, List, [], refl, true, ℕ, ◌∷◌, ◌≡◌}
use ocrowley_commons.Workflow.{
  WorkflowStepId, complete_step, create_workflow_state, draft, intake, is_done, plan,
}
use ocrowley_commons.Workflow.Progress.{OnTrack, complete_steps, complete_steps_lem}

abbrev some_steps : List (WorkflowStepId × ℕ)
some_steps = (draft, 10) ∷ (intake, 20) ∷ (draft, 30) ∷ []

some_steps_run : (complete_steps some_steps (create_workflow_state "p" 0)).current_step ≡ plan
unfolding complete_step create_workflow_state
some_steps_run = refl

complete_steps_lem_example :
    OnTrack (complete_steps some_steps (create_workflow_state "p" 0))
    × All
        (λ e.
          is_done (complete_steps some_steps (create_workflow_state "p" 0)).completed_steps e.0
          ≡ true)
        some_steps
complete_steps_lem_example = complete_steps_lem "p" 0 some_steps
