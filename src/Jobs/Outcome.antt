-- ===== src/Jobs/Outcome.antt =====
-- packages/jobs/src/CaspaJobService.ts: the operations that end a job or start it again.
use ocrowley_commons.Common.{
  Bool, Option, String, false, if◌then◌else◌, map, none, not, some, true, ℕ, ◌&&◌, ◌+◌, ◌||◌,
}
use ocrowley_commons.Jobs.{
  CaspaJob, CaspaJobStatus, cancelled, completed, failed, is_cancelled, is_queued, is_running,
  needs_review, partial, queued,
}
use ocrowley_commons.Jobs.Service.{Patch, Store, get, patch, queued_stage}

-- `['completed', 'cancelled'].includes(job.status)`.
abbrev pub is_settled : CaspaJobStatus → Bool
is_settled completed = true
is_settled cancelled = true
is_settled _ = false

-- `['failed', 'partial', 'completed'].includes(job.status) || job.status === 'needs-review'`.
abbrev pub is_retryable : CaspaJobStatus → Bool
is_retryable failed = true
is_retryable partial = true
is_retryable completed = true
is_retryable needs_review = true
is_retryable _ = false

module _ {ℓ} {V : Type ℓ} where
  unfoldable pub complete : String → V → (now later : ℕ) → Store V → Option (CaspaJob V) × Store V
  complete id result now later =
      patch id
        (λ job. record job {
          status = completed;
          result = some result;
          completed_at = some now;
          lease_owner = none;
          lease_until = none;
        })
        later

  -- `(await this.get(id))?.currentStage`.
  abbrev pub stage_of : Option (CaspaJob V) → Option String
  stage_of none = none
  stage_of (some job) = job.current_stage

  unfoldable pub fail : String → String → ℕ → Store V → Option (CaspaJob V) × Store V
  fail id error now store =
      let stage = stage_of (get id store) in
      patch id
        (λ job. record job {
          status = partial;
          error = some error;
          resume_from_stage = stage;
          lease_owner = none;
          lease_until = none;
        })
        now store

  unfoldable pub mark_failed :
      String → String → (now later : ℕ) → Store V → Option (CaspaJob V) × Store V
  mark_failed id error now later store =
      let stage = stage_of (get id store) in
      patch id
        (λ job. record job {
          status = failed;
          error = some error;
          resume_from_stage = stage;
          completed_at = some now;
          lease_owner = none;
          lease_until = none;
        })
        later store

  unfoldable pub cancel :
      String → String → (now now' later : ℕ) → Store V → Option (CaspaJob V) × Store V
  cancel id reason now now' later store = elim (get id store) [
    | none ↦ (none, store)
    | some job ↦
        if is_settled job.status
        then (some job, store)
        else patch id
            (λ j. record j {
              status = cancelled;
              error = some reason;
              cancelled_at = some now;
              completed_at = some now';
              lease_owner = none;
              lease_until = none;
            })
            later store
  ]

  -- What `retry` patches; `job` is the job as it was read.
  unfoldable pub requeued : CaspaJob V → Patch V
  requeued job j = record j {
    status = queued;
    error = none;
    retry_count = job.retry_count + 1;
    completed_at = none;
    cancelled_at = none;
    lease_owner = none;
    lease_until = none;
    current_stage = none;
    stages = map (λ s. queued_stage (s.id, s.label)) job.stages;
    result = none;
    partial_result = none;
    resume_from_stage = none;
  }

  unfoldable pub retry : String → ℕ → Store V → Option (CaspaJob V) × Store V
  retry id now store = elim (get id store) [
    | none ↦ (none, store)
    | some job ↦
        if is_cancelled job.status
        then (some job, store)
        else if not (is_retryable job.status) && (is_running job.status || is_queued job.status)
        then (some job, store)
        else patch id (requeued job) now store
  ]
