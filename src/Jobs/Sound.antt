-- ===== src/Jobs/Sound.antt =====
-- What every operation on one job keeps true of the jobs in the store.
use ocrowley_commons.Common.{
  All, Bool-cases, Option, Option-cases, String, arith, false, inl, inr, is_some, none, refl, some,
  true, ℕ, ◌≡◌,
}
use ocrowley_commons.Persistence.{read_json_file, write_json_file}
use ocrowley_commons.Persistence.Laws.{read_file-All, write_file-All}
use ocrowley_commons.Jobs.{CaspaJob, cancelled, completed, failed, is_cancelled, is_running, queued}
use ocrowley_commons.Jobs.Service.{
  CreateInput, Patch, Store, complete_stage, create, get, job_file, patch, stage_completed,
  stage_started, start_stage,
}
use ocrowley_commons.Jobs.Store.{IsKeyed, write_job, write_job-IsKeyed}
use ocrowley_commons.Jobs.Outcome.{cancel, complete, fail, is_settled, mark_failed, requeued, retry}

-- The state of a job, field by field: only a running job holds a lease; owner and expiry of a lease
-- come together; a queued job has no current stage, result, error, stage to resume from, or time of
-- completion or cancellation; a completed or failed job says when it ended, and a cancelled one when
-- it was cancelled.
pub record IsSound {ℓ} {V : Type ℓ} (job : CaspaJob V) : Type ℓ where
  pub lease_running :
      is_running job.status ≡ false → (job.lease_owner ≡ none) × (job.lease_until ≡ none)
  pub lease_whole : is_some job.lease_owner ≡ is_some job.lease_until
  pub queued_fresh :
      job.status ≡ queued
      → (job.current_stage ≡ none)
        × (job.result ≡ none)
        × (job.error ≡ none)
        × (job.resume_from_stage ≡ none)
        × (job.completed_at ≡ none)
        × (job.cancelled_at ≡ none)
  pub completed_timed : job.status ≡ completed → is_some job.completed_at ≡ true
  pub failed_timed : job.status ≡ failed → is_some job.completed_at ≡ true
  pub cancelled_timed : job.status ≡ cancelled → is_some job.cancelled_at ≡ true

-- Every file holds a sound job under the name that its id gives, and names are distinct.
pub record IsGood {ℓ} {V : Type ℓ} (store : Store V) : Type ℓ where
  pub placed : IsKeyed store
  pub sound : All (λ e. IsSound e.1) store

module _ {ℓ} {V : Type ℓ} where
  pub write_sound :
      (store : Store V) (id : String) (job : CaspaJob V)
      → IsGood store
      → job.id ≡ id
      → IsSound job
      → IsGood (write_json_file store (job_file id) job)
  write_sound store id job g same s = record {
    placed = rw (← same) (write_job-IsKeyed store job g.placed);
    sound =
        rw (write_job store id job g.placed)
          (write_file-All (λ e. IsSound e.1) store (job_file id) job g.sound s);
  }

  pub get-IsSound :
      (store : Store V) (id : String) (job : CaspaJob V)
      → IsGood store
      → get id store ≡ some job
      → IsSound job
  unfolding get read_json_file
  get-IsSound store id job g h = read_file-All (λ e. IsSound e.1) store (job_file id) job g.sound h

  -- A patch that keeps the id and soundness keeps the store good.
  pub patch-IsGood :
      (id : String) (change : Patch V) (now : ℕ) (store : Store V)
      → IsGood store
      → ((job : CaspaJob V) → get id store ≡ some job → (change job).id ≡ job.id)
      → ((job : CaspaJob V)
          → get id store ≡ some job
          → IsSound job
          → IsSound (record (change job) { updated_at = now }))
      → IsGood (patch id change now store).1
  unfolding patch
  patch-IsGood id change now store g same keep = elim (Option-cases (get id store)) [
    | inl gone ↦ rw (gone, patch) g
    | inr (job, found) ↦
        rw (found, patch)
          (write_sound store _ _ g refl (keep job found (get-IsSound store id job g found)))
  ]

  pub create-IsGood :
      (new_id : String) (no_payload : V) (now : ℕ) (input : CreateInput V) (store : Store V)
      → IsGood store
      → IsGood (create new_id no_payload now input store).1
  unfolding create
  create-IsGood new_id no_payload now input store g =
      write_sound store new_id _ g refl (ground arith)

  pub start_stage-IsGood :
      (id stage_id : String) (now : ℕ) (store : Store V)
      → IsGood store
      → IsGood (start_stage id stage_id now store).1
  unfolding start_stage stage_started
  start_stage-IsGood id stage_id now store g = elim (Option-cases (get id store)) [
    | inl gone ↦ rw (gone, start_stage) g
    | inr (job, found) ↦ elim (Bool-cases (is_cancelled job.status)) [
      | inl stop ↦ rw (found, start_stage, stop) g
      | inr go ↦
          let s = get-IsSound store id job g found in
          rw (found, start_stage, go) (write_sound store _ _ g refl (ground arith))
    ]
  ]

  pub complete_stage-IsGood :
      (id stage_id : String) (partial_result : Option V) (now : ℕ) (store : Store V)
      → IsGood store
      → IsGood (complete_stage id stage_id partial_result now store).1
  unfolding complete_stage stage_completed
  complete_stage-IsGood id stage_id partial_result now store g =
      elim (Option-cases (get id store)) [
        | inl gone ↦ rw (gone, complete_stage) g
        | inr (job, found) ↦ elim (Bool-cases (is_cancelled job.status)) [
          | inl stop ↦ rw (found, complete_stage, stop) g
          | inr go ↦
              let s = get-IsSound store id job g found in
              rw (found, complete_stage, go) (write_sound store _ _ g refl (ground arith))
        ]
      ]

  pub complete-IsGood :
      (id : String) (result : V) (now later : ℕ) (store : Store V)
      → IsGood store
      → IsGood (complete id result now later store).1
  unfolding complete
  complete-IsGood id result now later store g =
      patch-IsGood id _ later store g (λ j f. refl) (λ j f s. ground arith)

  pub fail-IsGood :
      (id error : String) (now : ℕ) (store : Store V)
      → IsGood store
      → IsGood (fail id error now store).1
  unfolding fail
  fail-IsGood id error now store g =
      patch-IsGood id _ now store g (λ j f. refl) (λ j f s. ground arith)

  pub mark_failed-IsGood :
      (id error : String) (now later : ℕ) (store : Store V)
      → IsGood store
      → IsGood (mark_failed id error now later store).1
  unfolding mark_failed
  mark_failed-IsGood id error now later store g =
      patch-IsGood id _ later store g (λ j f. refl) (λ j f s. ground arith)

  pub cancel-IsGood :
      (id reason : String) (now now' later : ℕ) (store : Store V)
      → IsGood store
      → IsGood (cancel id reason now now' later store).1
  unfolding cancel
  cancel-IsGood id reason now now' later store g = elim (Option-cases (get id store)) [
    | inl gone ↦ rw (gone, cancel) g
    | inr (job, found) ↦ elim (Bool-cases (is_settled job.status)) [
      | inl stop ↦ rw (found, cancel, stop) g
      | inr go ↦
          rw (found, cancel, go)
            (patch-IsGood id _ later store g (λ j f. refl) (λ j f s. ground arith))
    ]
  ]

  pub retry-IsGood :
      (id : String) (now : ℕ) (store : Store V) → IsGood store → IsGood (retry id now store).1
  unfolding retry requeued
  retry-IsGood id now store g = elim (Option-cases (get id store)) [
    | inl gone ↦ rw (gone, retry) g
    | inr (job, found) ↦
        let patched =
          patch-IsGood id (requeued job) now store g (λ j f. refl) (λ j f s. ground arith) in
        ground arith
  ]
