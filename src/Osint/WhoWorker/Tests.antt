-- ===== src/Osint/WhoWorker/Tests.antt =====
-- A worker on the sample buffers: one job with a case, one without, and a lookup that finds a name.
use ocrowley_commons.Common.{
  Result, String, [], decimal, err, false, inl, leb, map, none, ok, refl, some, trim, true, ℕ, ◌∷◌,
  ◌≡◌, ◌≤◌,
}
use ocrowley_commons.Audit.{who_denied}
use ocrowley_commons.Osint.WhoWorker.Loop.{WorkerOptions, start_who_worker, start_who_worker_lem}
use ocrowley_commons.Osint.WhoWorker.Completed.{IsCompleted, completed_lem}
use ocrowley_commons.Osint.WhoWorker.Cancelled.{cancelled_during}
use ocrowley_commons.Osint.WhoWorker.Denied.{denied_lem, who_error_lem}
use ocrowley_commons.Osint.WhoWorker.Refused.{IsRefused, at_who, at_who-HasJob}
use ocrowley_commons.Osint.WhoWorker.Stage.{HasJob}
use ocrowley_commons.Osint.WhoWorker.Process.{job_case, process_who_job}
use ocrowley_commons.Persistence.{read_file, read_json_file}
use ocrowley_commons.Crypto.Samples.{has_test_key, test_iv, test_key, text_node, text_node-IsLawful}
use ocrowley_commons.Jobs.{CaspaJob, CaspaJobStatus, cancelled, queued, running}
use ocrowley_commons.Jobs.Service.{get, queued_stage}
use ocrowley_commons.Policy.{development}
use ocrowley_commons.Osint.Dossiers.Samples.{sample_parse, sample_parse-to_json, sample_to_json}
use ocrowley_commons.Osint.WhoJobs.{job_cancelled, job_progress, who_job_kind, who_job_stages}
use ocrowley_commons.Osint.WhoWorker.{WhoResult, WhoValue, WorkerEnv, World, payload_value, publish}

abbrev found_ada : WhoResult (Unit {0})
found_ada = record {
  q = "ada";
  name = "Ada";
  next = "";
  stats = record { confirmed = 1; likely = 0; possible = 0; checked = 4 };
  tools_used = [];
  archive_id = none;
  warning = "";
  rest = tt;
}

-- `who` with a given answer; nobody else does anything.
abbrev env_of :
    (WhoValue (Unit {0})
      → String
      → World (Unit {0}) (Unit {0})
      → Result String (WhoResult (Unit {0})) × World (Unit {0}) (Unit {0}))
    → WorkerEnv (Unit {0}) (Unit {0}) (Unit {0}) String
env_of lookup = record {
  clock = λ n. n;
  iso = decimal;
  fresh_id = decimal;
  fresh_iv = λ n. test_iv;
  node = text_node;
  env_key = test_key;
  env_actor = none;
  env_purpose = none;
  environment = development;
  env_lease_ms = none;
  id_le = λ a b. true;
  entry_hash = λ e. "0123456789";
  lower = λ s. s;
  sha256 = λ s. s;
  to_json = sample_to_json;
  dossier_rest = λ r c. tt;
  auth_message = "";
  who = lookup;
  idle = λ w. w;
}

abbrev finding_env : WorkerEnv (Unit {0}) (Unit {0}) (Unit {0}) String
finding_env = env_of (λ input case_ref w. (ok found_ada, w))

abbrev throwing_env : WorkerEnv (Unit {0}) (Unit {0}) (Unit {0}) String
throwing_env = env_of (λ input case_ref w. (err "Unexpected lowercase token", w))

abbrev job_with : String → CaspaJobStatus → CaspaJob (WhoValue (Unit {0}))
job_with case_ref status = record {
  id = "j1";
  user_id = some "me";
  project_id = none;
  kind = who_job_kind;
  status = status;
  current_stage = none;
  stages = map queued_stage who_job_stages;
  input = payload_value (record { q = "ada"; case_ref = case_ref; actor_id = none; options = tt });
  result = none;
  partial_result = none;
  error = none;
  retry_count = 0;
  resume_from_stage = none;
  created_at = 5;
  updated_at = 5;
  started_at = none;
  completed_at = none;
  cancelled_at = none;
  lease_owner = none;
  lease_until = none;
}

abbrev world_with : CaspaJob (WhoValue (Unit {0})) → World (Unit {0}) (Unit {0})
world_with job = record {
  who = record { store = ("j1.json", job) ∷ []; published = [] };
  audit = [];
  dossiers = [];
  entities = [];
  reads = 0;
  worker_id = "w1";
  is_active = false;
  stop_requested = false;
}

job_there :
    (job : CaspaJob (WhoValue (Unit {0})))
    → job.id ≡ "j1"
    → HasJob "j1" job.status (world_with job).who.store
unfolding get read_json_file read_file
job_there job same = record { job = job; found = refl; same_id = same; has_status = refl }

abbrev no_case : CaspaJob (WhoValue (Unit {0}))
no_case = job_with " " queued

abbrev with_case : CaspaJob (WhoValue (Unit {0}))
with_case = job_with "C1" queued

denied_example :
    IsRefused finding_env "j1" who_denied
      (world_with no_case)
      (process_who_job finding_env no_case (world_with no_case)).1
    × ((other : WhoValue (Unit {0})
          → String
          → World (Unit {0}) (Unit {0})
          → Result String (WhoResult (Unit {0})) × World (Unit {0}) (Unit {0}))
        → process_who_job (record finding_env { who = other }) no_case (world_with no_case)
          ≡ process_who_job finding_env no_case (world_with no_case))
unfolding job_case trim
denied_example =
    denied_lem finding_env no_case queued (world_with no_case) (job_there no_case refl) refl refl

-- The word "case" in a message is enough for a denial.
who_error_example :
    IsRefused throwing_env "j1" who_denied
      (at_who throwing_env with_case queued (world_with with_case) (job_there with_case refl) refl)
      (process_who_job throwing_env with_case (world_with with_case)).1
unfolding job_case trim
who_error_example =
    who_error_lem throwing_env with_case queued running (world_with with_case)
      (at_who throwing_env with_case queued (world_with with_case) (job_there with_case refl) refl)
      (job_there with_case refl) refl "Unexpected lowercase token" refl refl
      (at_who-HasJob throwing_env with_case queued (world_with with_case) (job_there with_case refl)
        refl)

abbrev stopped_job : CaspaJob (WhoValue (Unit {0}))
stopped_job = job_with "C1" cancelled

-- A lookup during which the job is cancelled.
abbrev stopping_env : WorkerEnv (Unit {0}) (Unit {0}) (Unit {0}) String
stopping_env = env_of (λ input case_ref w. (ok found_ada, world_with stopped_job))

cancelled_during_example :
    process_who_job stopping_env with_case (world_with with_case)
    ≡ (stopped_job, publish "j1" job_cancelled (publish "j1" job_progress (world_with stopped_job)))
unfolding job_case trim job_there
cancelled_during_example =
    cancelled_during stopping_env with_case queued (world_with with_case) (world_with stopped_job)
      (job_there with_case refl) refl found_ada (job_there stopped_job refl) refl refl

completed_example :
    IsCompleted finding_env text_node-IsLawful sample_parse sample_parse-to_json with_case found_ada
      (inl has_test_key)
      (λ n. refl)
      (at_who finding_env with_case queued (world_with with_case) (job_there with_case refl) refl)
      (process_who_job finding_env with_case (world_with with_case)).1
unfolding job_case trim
completed_example =
    completed_lem finding_env text_node-IsLawful sample_parse sample_parse-to_json with_case
      found_ada (inl has_test_key) (λ n. refl) queued running (world_with with_case)
      (at_who finding_env with_case queued (world_with with_case) (job_there with_case refl) refl)
      (job_there with_case refl) refl refl refl
      (at_who-HasJob finding_env with_case queued (world_with with_case) (job_there with_case refl)
        refl)
      refl

abbrev one_job : WorkerOptions
one_job = record { max_jobs = some 1; worker_id = none; should_stop = λ turn. leb 3 turn }

start_who_worker_example :
    ((world_with with_case).is_active ≡ false
      → (count : ℕ) × (after : World (Unit {0}) (Unit {0})) × (start_who_worker finding_env one_job
            4
            (world_with with_case)
          ≡ some (count, after))
        × (count ≤ 1)
        × (after.is_active ≡ false))
    × ((world_with with_case).is_active ≡ true
        → start_who_worker finding_env one_job 4 (world_with with_case)
          ≡ some (0, world_with with_case))
start_who_worker_example =
    start_who_worker_lem finding_env one_job 1 3 (world_with with_case) refl refl
