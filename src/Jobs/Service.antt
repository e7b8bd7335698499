-- ===== src/Jobs/Service.antt =====
-- packages/jobs/src/CaspaJobService.ts: the store, its listing, and the steps of a job up to its
-- last stage. The store is the directory
-- `caspa-jobs`; every reading of the clock is an argument, `now`, and so is a fresh id. An operation
-- returns what the method resolves to and the store after it; the awaits of one call run in a row.
use ocrowley_commons.Common.{
  Bool, List, Option, String, [], get_or, if◌then◌else◌, is_empty, leb, map, none, some, sort_by,
  str_eq, true, ℕ, ◌&&◌, ◌+s◌, ◌||◌, ◌∷◌,
}
use ocrowley_commons.Persistence.{Dir, list_json_files, read_json_file, write_json_file}
use ocrowley_commons.Jobs.{CaspaJob, CaspaJobStage, completed, is_cancelled, queued, running}

abbrev pub job_file : String → String
job_file id = id +s ".json"

pub record CreateInput {ℓ} (V : Type ℓ) : Type ℓ where
  pub user_id : Option String
  pub project_id : Option String
  pub kind : String
  pub stages : List (String × String)
  pub payload : Option V

pub record ListOptions : Type 0 where
  pub project_id : Option String
  pub user_id : Option String
  pub kind : Option String

-- `opt && have !== opt` is false: the option is missing, empty or met.
abbrev pub passes : Option String → Option String → Bool
passes none have = true
passes (some want) none = is_empty want
passes (some want) (some have) = is_empty want || str_eq have want

-- What `patch` is given: the fields to change, as a function that changes them.
abbrev pub Patch {ℓ} : Type ℓ → Type ℓ
Patch V = CaspaJob V → CaspaJob V

abbrev pub Store {ℓ} : Type ℓ → Type ℓ
Store V = Dir (CaspaJob V)

module _ {ℓ} {V : Type ℓ} where
  abbrev pub queued_stage : String × String → CaspaJobStage V
  queued_stage (id, label) = record {
    id = id;
    label = label;
    status = queued;
    started_at = none;
    completed_at = none;
    partial_result = none;
  }

  -- `no_payload` is the empty object `{}`.
  unfoldable pub create :
      (new_id : String) (no_payload : V) (now : ℕ) → CreateInput V → Store V → CaspaJob V × Store V
  create new_id no_payload now input store =
      let job : CaspaJob V = record {
        id = new_id;
        user_id = input.user_id;
        project_id = input.project_id;
        kind = input.kind;
        status = queued;
        current_stage = none;
        stages = map queued_stage input.stages;
        input = get_or input.payload no_payload;
        result = none;
        partial_result = none;
        error = none;
        retry_count = 0;
        resume_from_stage = none;
        created_at = now;
        updated_at = now;
        started_at = none;
        completed_at = none;
        cancelled_at = none;
        lease_owner = none;
        lease_until = none;
      } in
      (job, write_json_file store (job_file job.id) job)

  unfoldable pub get : String → Store V → Option (CaspaJob V)
  get id store = read_json_file store (job_file id)

  -- The loop of `list` over the file names.
  unfoldable pub collect : ListOptions → Store V → List String → List (CaspaJob V)
  collect opts store [] = []
  collect opts store (file ∷ files) =
      let rest = collect opts store files in
      elim (read_json_file store file) [
        | none ↦ rest
        | some job ↦
            if passes opts.project_id job.project_id
              && passes opts.user_id job.user_id
              && passes opts.kind (some job.kind)
            then job ∷ rest
            else rest
      ]

  -- `b.updatedAt.localeCompare(a.updatedAt)` is at most 0.
  abbrev pub newer_first : CaspaJob V → CaspaJob V → Bool
  newer_first a b = leb b.updated_at a.updated_at

  unfoldable pub list : ListOptions → Store V → List (CaspaJob V)
  list opts store = sort_by newer_first (collect opts store (list_json_files store))

  unfoldable pub patch : String → Patch V → ℕ → Store V → Option (CaspaJob V) × Store V
  patch id change now store = elim (get id store) [
    | none ↦ (none, store)
    | some current ↦
        let updated = record (change current) { updated_at = now } in
        (some updated, write_json_file store (job_file updated.id) updated)
  ]

  -- A change of the stages with one id.
  abbrev pub on_stage :
      String → (CaspaJobStage V → CaspaJobStage V) → List (CaspaJobStage V) → List (CaspaJobStage V)
  on_stage stage_id f = map (λ s. if str_eq s.id stage_id then f s else s)

  -- The job that `startStage` writes.
  unfoldable pub stage_started : String → ℕ → CaspaJob V → CaspaJob V
  stage_started stage_id now job = record job {
    status = running;
    current_stage = some stage_id;
    started_at = some (get_or job.started_at now);
    stages =
        on_stage stage_id (λ s. record s { status = running; started_at = some now }) job.stages;
    updated_at = now;
  }

  unfoldable pub start_stage : String → String → ℕ → Store V → Option (CaspaJob V) × Store V
  start_stage id stage_id now store = elim (get id store) [
    | none ↦ (none, store)
    | some job ↦
        if is_cancelled job.status
        then (some job, store)
        else let next = stage_started stage_id now job in
          (some next, write_json_file store (job_file next.id) next)
  ]

  -- The job that `completeStage` writes; `a ?? b` keeps `b` where `a` is missing.
  unfoldable pub stage_completed : String → Option V → ℕ → CaspaJob V → CaspaJob V
  stage_completed stage_id partial_result now job = record job {
    stages =
        on_stage stage_id
          (λ s. record s {
            status = completed;
            completed_at = some now;
            partial_result = partial_result;
          })
          job.stages;
    partial_result = elim partial_result [ none ↦ job.partial_result | some v ↦ some v ];
    updated_at = now;
  }

  unfoldable pub complete_stage :
      String → String → Option V → ℕ → Store V → Option (CaspaJob V) × Store V
  complete_stage id stage_id partial_result now store = elim (get id store) [
    | none ↦ (none, store)
    | some job ↦
        if is_cancelled job.status
        then (some job, store)
        else let next = stage_completed stage_id partial_result now job in
          (some next, write_json_file store (job_file next.id) next)
  ]
