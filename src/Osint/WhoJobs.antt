-- ===== src/Osint/WhoJobs.antt =====
-- packages/osint/src/jobs/whoJobService.ts and whoJobTypes.ts: WHO jobs on the job service, and the
-- progress events that go with them (whoProgress.ts). The options of a payload that the code only
-- hands on are of any type `W`, and `to_input` is the payload as the input of a job; the data of an
-- event other than its job are left out, and its time.
pub mod Events
mod Tests
use ocrowley_commons.Common.{
  List, Option, String, [], filter, get_or, if◌then◌else◌, is_empty, none, some, str_eq, take, trim,
  ℕ, ◌++◌, ◌==◌, ◌∷◌,
}
use ocrowley_commons.Jobs.Service.{Store, create, get, list}
use ocrowley_commons.Jobs.Outcome.{cancel, retry}
use ocrowley_commons.Osint.Auth.{or_text}
use ocrowley_commons.Jobs.{CaspaJob}

abbrev pub who_job_kind : String
who_job_kind = "who.lookup"

abbrev pub who_job_stages : List (String × String)
who_job_stages =
    ("policy", "Authorize case")
    ∷ ("discover", "Run who()")
    ∷ ("dossier", "Write dossier")
    ∷ ("audit", "Append audit")
    ∷ []

pub record WhoJobPayload {ℓ} (W : Type ℓ) : Type ℓ where
  pub q : String
  pub case_ref : String
  pub actor_id : Option String
  pub options : W

pub data WhoProgressEvent : Type 0 where
  job_queued job_claimed job_stage job_progress job_completed job_failed job_cancelled :
      WhoProgressEvent

pub record Published : Type 0 where
  pub job_id : String
  pub event : WhoProgressEvent

-- The store of the jobs and the events that were published, in order.
pub record WhoState {ℓ} (V : Type ℓ) : Type ℓ where
  pub store : Store V
  pub published : List Published

-- The two errors of `enqueueWhoJob`, with their status codes 400 and 401.
pub data EnqueueError : Type 0 where
  missing_query case_required : EnqueueError

pub data EnqueueAnswer {ℓ} (V : Type ℓ) : Type ℓ where
  throws : EnqueueError → EnqueueAnswer V
  enqueued : CaspaJob V → EnqueueAnswer V

module _ {ℓ} {V : Type ℓ} where
  unfoldable pub publish_who_progress : String → WhoProgressEvent → WhoState V → WhoState V
  publish_who_progress job_id event st = record st {
    published = st.published ++ (record { job_id = job_id; event = event }) ∷ [];
  }

  unfoldable pub enqueue_who_job {κ} :
      {W : Type κ} (to_input : WhoJobPayload W → V) (no_payload : V) (env_actor : Option String)
      (new_id : String) (now : ℕ)
      → WhoJobPayload W
      → WhoState V
      → EnqueueAnswer V × WhoState V
  unfolding publish_who_progress trim
  enqueue_who_job to_input no_payload env_actor new_id now payload st =
      let q = trim payload.q in
      let case_ref = trim payload.case_ref in
      let (job, after) =
        create new_id no_payload now
          (record {
            user_id = some (or_text payload.actor_id (or_text env_actor "local"));
            project_id = some case_ref;
            kind = who_job_kind;
            stages = who_job_stages;
            payload = some (to_input (record payload { q = q; case_ref = case_ref }));
          })
          st.store in
      if is_empty q
      then (throws missing_query, st)
      else if is_empty case_ref
      then (throws case_required, st)
      else (enqueued job, publish_who_progress job.id job_queued (record st { store = after }))

  unfoldable pub get_who_job : String → Store V → Option (CaspaJob V)
  get_who_job id store = elim (get id store) [
    | none ↦ none
    | some job ↦ if str_eq job.kind who_job_kind then some job else none
  ]

  -- What `retryWhoJob` and `cancelWhoJob` do with the answer of the job service.
  unfoldable pub publish_answer :
      String
      → WhoProgressEvent
      → WhoState V
      → Option (CaspaJob V) × Store V
      → Option (CaspaJob V) × WhoState V
  unfolding publish_who_progress
  publish_answer id event st (answer, after) = elim answer [
    | none ↦ (none, record st { store = after })
    | some job ↦ (some job, publish_who_progress id event (record st { store = after }))
  ]

  unfoldable pub retry_who_job : String → (now : ℕ) → WhoState V → Option (CaspaJob V) × WhoState V
  unfolding publish_answer get_who_job
  retry_who_job id now st = elim (get_who_job id st.store) [
    | none ↦ (none, st)
    | some job ↦ publish_answer id job_queued st (retry id now st.store)
  ]

  unfoldable pub cancel_who_job :
      String
      → (reason : Option String) → (now now' later : ℕ) → WhoState V
      → Option (CaspaJob V) × WhoState V
  unfolding publish_answer get_who_job
  cancel_who_job id reason now now' later st = elim (get_who_job id st.store) [
    | none ↦ (none, st)
    | some job ↦
        publish_answer id job_cancelled st
          (cancel id (get_or reason "Cancelled by operator") now now' later st.store)
  ]

  -- The newest jobs, of one case if it is given; the limit is at least 1.
  unfoldable pub list_who_jobs : Option String → Option ℕ → Store V → List (CaspaJob V)
  list_who_jobs case_ref limit store =
      let found = list (record { project_id = case_ref; user_id = none; kind = none }) store in
      let size = get_or limit 40 in
      take (if size == 0 then 1 else size)
        (filter (λ (j : CaspaJob V). str_eq j.kind who_job_kind) found)
