-- ===== src/Osint/WhoJobs/Tests.antt =====
-- WHO jobs at concrete stores.
use ocrowley_commons.Common.{[], none, refl, some, true, ℕ, ◌||◌, ◌∷◌, ◌≡◌}
use ocrowley_commons.Jobs.{CaspaJob, completed, is_cancelled, is_queued, is_running}
use ocrowley_commons.Jobs.Service.{get}
use ocrowley_commons.Jobs.Outcome.{cancel, is_settled}
use ocrowley_commons.Persistence.{read_file, read_json_file}
use ocrowley_commons.Osint.WhoJobs.{
  WhoJobPayload, WhoState, cancel_who_job, get_who_job, job_cancelled, job_queued,
  publish_who_progress, retry_who_job,
}
use ocrowley_commons.Osint.WhoJobs.Events.{unchanged_but_published}

abbrev empty_state : WhoState ℕ
empty_state = record { store = []; published = [] }

-- The input of a job is the number of characters in its query and case.
abbrev ask : WhoJobPayload ℕ
ask = record { q = " ada "; case_ref = "C1"; actor_id = none; options = 7 }

abbrev input_of : WhoJobPayload ℕ → ℕ
input_of payload = payload.options

abbrev done_job : CaspaJob ℕ
done_job = record {
  id = "j1";
  user_id = none;
  project_id = some "C1";
  kind = "who.lookup";
  status = completed;
  current_stage = none;
  stages = [];
  input = 0;
  result = some 1;
  partial_result = none;
  error = none;
  retry_count = 0;
  resume_from_stage = none;
  created_at = 1;
  updated_at = 4;
  started_at = some 2;
  completed_at = some 3;
  cancelled_at = none;
  lease_owner = none;
  lease_until = none;
}

abbrev done_state : WhoState ℕ
done_state = record { store = ("j1.json", done_job) ∷ []; published = [] }

-- A completed job stays as it is, and yet an event says that it is cancelled.
cancel_run :
    cancel_who_job "j1" none 6 7 8 done_state
    ≡ (some done_job, publish_who_progress "j1" job_cancelled done_state)
unfolding cancel_who_job get cancel read_json_file read_file
cancel_run = refl

unchanged_but_published_example :
    (get_who_job "j1" done_state.store ≡ none
      → (retry_who_job "j1" 6 done_state ≡ (none, done_state))
        × (cancel_who_job "j1" none 6 7 8 done_state ≡ (none, done_state)))
    × ((job : CaspaJob ℕ)
        → get_who_job "j1" done_state.store ≡ some job
        → ((is_queued job.status || is_running job.status || is_cancelled job.status) ≡ true
            → retry_who_job "j1" 6 done_state
              ≡ (some job, publish_who_progress "j1" job_queued done_state))
          × (is_settled job.status ≡ true
              → cancel_who_job "j1" none 6 7 8 done_state
                ≡ (some job, publish_who_progress "j1" job_cancelled done_state)))
unchanged_but_published_example = unchanged_but_published "j1" none 6 7 8 done_state
