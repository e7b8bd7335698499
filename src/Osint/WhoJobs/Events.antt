-- ===== src/Osint/WhoJobs/Events.antt =====
-- What the calls on WHO jobs write and publish.
use ocrowley_commons.Common.{
  Bool-cases, Option, Option-cases, String, [], ap, arith, eq_refl, false, get_or, inl, inr,
  is_blank, map, none, refl, some, str_eq, trim, true, ℕ, ◌++◌, ◌||◌, ◌∙◌, ◌∷◌, ◌≡◌,
}
use ocrowley_commons.Jobs.{CaspaJob, is_cancelled, is_queued, is_running, queued}
use ocrowley_commons.Jobs.Service.{Store, create, get, queued_stage}
use ocrowley_commons.Jobs.Outcome.{cancel, is_settled, retry}
use ocrowley_commons.Jobs.Store.{get-write_job}
use ocrowley_commons.Osint.Auth.{or_text}
use ocrowley_commons.Osint.WhoJobs.{
  EnqueueError, WhoJobPayload, WhoState, cancel_who_job, case_required, enqueue_who_job, enqueued,
  get_who_job, job_cancelled, job_queued, missing_query, publish_who_progress, publish_answer,
  retry_who_job, throws, who_job_kind, who_job_stages,
}

-- The payload as it is stored, with its query and its case trimmed.
abbrev pub trimmed {κ} : {W : Type κ} → WhoJobPayload W → WhoJobPayload W
trimmed payload = record payload { q = trim payload.q; case_ref = trim payload.case_ref }

module _ {ℓ} {V : Type ℓ} where
  who_job_get :
      (id : String) (store : Store V) (job : CaspaJob V)
      → get_who_job id store ≡ some job
      → get id store ≡ some job
  unfolding get_who_job
  who_job_get id store job h = elim (Option-cases (get id store)) [
    | inl gone ↦ cc (rw (get_who_job, gone) at h)
    | inr (j, found) ↦ let same : j ≡ job = ground arith in found ∙ ap some same
  ]

  retry-same :
      (id : String) (now : ℕ) (store : Store V) (job : CaspaJob V)
      → get id store ≡ some job
      → (is_queued job.status || is_running job.status || is_cancelled job.status) ≡ true
      → retry id now store ≡ (some job, store)
  unfolding retry
  retry-same id now store job stored same = rw (retry, stored) (ground arith)

  cancel-same :
      (id reason : String) (now now' later : ℕ) (store : Store V) (job : CaspaJob V)
      → get id store ≡ some job
      → is_settled job.status ≡ true
      → cancel id reason now now' later store ≡ (some job, store)
  unfolding cancel
  cancel-same id reason now now' later store job stored settled = rw (cancel, stored) (ground arith)

  -- A job that is not a WHO job, or not there, is left alone by both calls, and nothing is published.
  -- A retry of a WHO job that is queued, running or cancelled, and a cancellation of one that is
  -- completed or cancelled, change no job, return it as it is, and publish all the same that it is
  -- queued or cancelled.
  pub unchanged_but_published :
      (id : String) (reason : Option String) (now now' later : ℕ) (st : WhoState V)
      → (get_who_job id st.store ≡ none
          → (retry_who_job id now st ≡ (none, st))
            × (cancel_who_job id reason now now' later st ≡ (none, st)))
        × ((job : CaspaJob V)
            → get_who_job id st.store ≡ some job
            → ((is_queued job.status || is_running job.status || is_cancelled job.status) ≡ true
                → retry_who_job id now st ≡ (some job, publish_who_progress id job_queued st))
              × (is_settled job.status ≡ true
                  → cancel_who_job id reason now now' later st
                    ≡ (some job, publish_who_progress id job_cancelled st)))
  unfolding retry_who_job cancel_who_job publish_answer publish_who_progress
  unchanged_but_published id reason now now' later st = (
    λ gone. (rw (retry_who_job, gone) refl, rw (cancel_who_job, gone) refl),
    λ job found.
        let stored : get id st.store ≡ some job = who_job_get id st.store job found in
        (
          λ open_status.
              rw (retry_who_job, found)
                (ap (publish_answer id job_queued st)
                  (retry-same id now st.store job stored open_status)),
          λ settled.
              rw (cancel_who_job, found)
                (ap (publish_answer id job_cancelled st) (
                  cancel-same id (get_or reason "Cancelled by operator") now now' later st.store job
                    stored settled)),
        ),
  )

  -- A payload with a query and a case, neither of them blank, makes a queued job with the four
  -- stages, all queued, in their order, which is found under its id as a WHO job; the other jobs
  -- stay as they are, and one event says that it is queued. Without a query or without a case the
  -- call throws, changes nothing and publishes nothing.
  pub enqueue_who_job_lem {κ} :
      {W : Type κ} (to_input : WhoJobPayload W → V) (no_payload : V) (env_actor : Option String)
      (new_id : String) (now : ℕ) (payload : WhoJobPayload W) (st : WhoState V)
      → ((is_blank payload.q || is_blank payload.case_ref) ≡ true
          → (error : EnqueueError) × (enqueue_who_job to_input no_payload env_actor new_id now
                payload st
              ≡ (throws error, st)))
        × ((is_blank payload.q || is_blank payload.case_ref) ≡ false
            → (job : CaspaJob V) × (after : WhoState V) × (enqueue_who_job to_input no_payload
                  env_actor new_id now payload st
                ≡ (enqueued job, after))
              × (job.status ≡ queued)
              × (job.project_id ≡ some (trim payload.case_ref))
              × (job.input ≡ to_input (trimmed payload))
              × (job.stages ≡ map queued_stage who_job_stages)
              × (get_who_job new_id after.store ≡ some job)
              × ((j : String) → str_eq new_id j ≡ false → get j after.store ≡ get j st.store)
              × (after.published
                  ≡ st.published ++ record { job_id = new_id; event = job_queued } ∷ []))
  unfolding enqueue_who_job create publish_who_progress get_who_job
  enqueue_who_job_lem to_input no_payload env_actor new_id now payload st = (
    λ blank. elim (Bool-cases (is_blank payload.q)) [
      | inl no_query ↦ (missing_query, rw (enqueue_who_job, no_query) refl)
      | inr query ↦ (case_required, ground arith)
    ],
    λ given.
        let query : is_blank payload.q ≡ false = ground arith in
        let given_case : is_blank payload.case_ref ≡ false = ground arith in
        let made =
          create new_id no_payload now
            (record {
              user_id = some (or_text payload.actor_id (or_text env_actor "local"));
              project_id = some (trim payload.case_ref);
              kind = who_job_kind;
              stages = who_job_stages;
              payload = some (to_input (trimmed payload));
            })
            st.store in
        (
          made.0,
          publish_who_progress new_id job_queued (record st { store = made.1 }),
          rw (enqueue_who_job, query, given_case) refl,
          refl,
          refl,
          refl,
          refl,
          rw (get_who_job, get-write_job, eq_refl new_id) refl,
          λ j other. rw (get-write_job, other) refl,
          refl,
        ),
  )
