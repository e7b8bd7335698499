-- ===== src/Jobs/Stages.antt =====
-- What cancellation, retry and the stage calls do to a stored job.
use ocrowley_commons.Common.{
  All, List, Option, String, [], ap, arith, eq_refl, false, if◌then◌else◌, map, none, refl, some,
  str_eq, true, ℕ, ◌+◌, ◌||◌, ◌∙◌, ◌∷◌, ◌≡◌,
}
use ocrowley_commons.Persistence.{write_json_file}
use ocrowley_commons.Jobs.{
  CaspaJob, CaspaJobStage, CaspaJobStatus, cancelled, completed, failed, is_cancelled, is_queued,
  is_running, partial, queued,
}
use ocrowley_commons.Jobs.Service.{
  Patch, Store, complete_stage, get, job_file, on_stage, patch, queued_stage, stage_completed,
  stage_started, start_stage,
}
use ocrowley_commons.Jobs.Lease.{heartbeat_lease}
use ocrowley_commons.Jobs.Store.{IsKeyed, get-id, get-patch, get-write_job}
use ocrowley_commons.Jobs.Outcome.{cancel, complete, fail, mark_failed, requeued, retry}

module _ {ℓ} {V : Type ℓ} where
  -- What starting and completing a stage, cancelling, retrying and a heartbeat do to a cancelled job.
  pub cancelled_kept :
      (id : String) (store : Store V) (job : CaspaJob V)
      → get id store ≡ some job
      → job.status ≡ cancelled
      → ((stage_id : String) (now : ℕ) → start_stage id stage_id now store ≡ (some job, store))
        × ((stage_id : String) (partial_result : Option V) (now : ℕ)
            → complete_stage id stage_id partial_result now store ≡ (some job, store))
        × ((reason : String) (now now' later : ℕ)
            → cancel id reason now now' later store ≡ (some job, store))
        × ((now : ℕ) → retry id now store ≡ (some job, store))
        × ((owner : String) (lease_ms now later : ℕ)
            → heartbeat_lease id owner lease_ms now later store ≡ (some job, store))
  unfolding start_stage complete_stage cancel retry heartbeat_lease
  cancelled_kept id store job found stop = (
    λ stage_id now. ground arith,
    λ stage_id partial_result now. ground arith,
    λ reason now now' later. ground arith,
    λ now. ground arith,
    λ owner lease_ms now later. ground arith,
  )

  -- A stored status after a call, where there is a job.
  abbrev pub status_of : Option (CaspaJob V) → Option CaspaJobStatus
  status_of none = none
  status_of (some job) = some job.status

  -- `complete`, `fail` and `markFailed` do not look at the status: on a keyed store they make a
  -- cancelled job completed, partial and failed.
  pub cancelled_overwritten :
      (id : String) (store : Store V) (job : CaspaJob V)
      → IsKeyed store
      → get id store ≡ some job
      → job.status ≡ cancelled
      → ((result : V) (now later : ℕ)
          → status_of (get id (complete id result now later store).1) ≡ some completed)
        × ((error : String) (now : ℕ)
            → status_of (get id (fail id error now store).1) ≡ some partial)
        × ((error : String) (now later : ℕ)
            → status_of (get id (mark_failed id error now later store).1) ≡ some failed)
  unfolding complete fail mark_failed
  cancelled_overwritten id store job k found stop =
      let same = get-id store id job k found in
      let self = λ (change : Patch V) (now : ℕ) (keeps : (change job).id ≡ id).
        get-patch id id change now store job found keeps
        ∙ ap (λ b. if b then some (record (change job) { updated_at = now }) else get id store)
            (eq_refl id) in
      (
        λ result now later. ap status_of (self _ later same),
        λ error now. ap status_of (self _ now same),
        λ error now later. ap status_of (self _ later same),
      )

  -- The ids and labels of the stages.
  abbrev pub stage_names : List (CaspaJobStage V) → List (String × String)
  stage_names = map (λ s. (s.id, s.label))

  on_stage_names :
      (stage_id : String) (f : CaspaJobStage V → CaspaJobStage V) (stages : List (CaspaJobStage V))
      → ((s : CaspaJobStage V) → ((f s).id ≡ s.id) × ((f s).label ≡ s.label))
      → stage_names (on_stage stage_id f stages) ≡ stage_names stages
  on_stage_names stage_id f [] h = refl
  on_stage_names stage_id f (s ∷ stages) h = ground (arith, h s, on_stage_names stage_id f stages h)

  requeued_names :
      (stages : List (CaspaJobStage V))
      → stage_names (map (λ s. queued_stage (s.id, s.label)) stages) ≡ stage_names stages
  requeued_names [] = refl
  requeued_names (s ∷ stages) = ap (◌∷◌ (s.id, s.label)) (requeued_names stages)

  -- A job after a retry: back in the queue, counted, with every stage queued and nothing left of the
  -- run before.
  pub record IsRequeued (now : ℕ) (job next : CaspaJob V) : Type ℓ where
    pub status : next.status ≡ queued
    pub counted : next.retry_count ≡ job.retry_count + 1
    pub same_stages : stage_names next.stages ≡ stage_names job.stages
    pub stages_queued : All (λ s. s ≡ queued_stage {V = V} (s.id, s.label)) next.stages
    pub same_input : next.input ≡ job.input
    pub same_kind : next.kind ≡ job.kind
    pub no_result : (next.result ≡ none) × (next.partial_result ≡ none) × (next.error ≡ none)
    pub no_lease : (next.lease_owner ≡ none) × (next.lease_until ≡ none)
    pub stamped : (next.updated_at ≡ now) × (next.created_at ≡ job.created_at)

  All-queued :
      (stages : List (CaspaJobStage V))
      → All
          (λ s. s ≡ queued_stage {V = V} (s.id, s.label))
          (map (λ s. queued_stage (s.id, s.label)) stages)
  All-queued [] = tt
  All-queued (s ∷ stages) = (refl, All-queued stages)

  -- On a keyed store, a retry of a queued, running or cancelled job returns it and leaves the store
  -- alone; a retry of any other job returns that job requeued, and the store has it under its id
  -- and every other job as before.
  pub retry_lem :
      (id : String) (now : ℕ) (store : Store V) (job : CaspaJob V)
      → IsKeyed store
      → get id store ≡ some job
      → ((is_queued job.status || is_running job.status || is_cancelled job.status) ≡ true
          → retry id now store ≡ (some job, store))
        × ((is_queued job.status || is_running job.status || is_cancelled job.status) ≡ false
            → (next : CaspaJob V) × (after : Store V) × (retry id now store ≡ (some next, after))
              × IsRequeued now job next
              × ((j : String) → get j after ≡ (if str_eq id j then some next else get j store)))
  unfolding retry patch requeued
  retry_lem id now store job k found = (
    λ kept. ground arith,
    λ again.
        let next : CaspaJob V = record (requeued job job) { updated_at = now } in
        (
          next,
          write_json_file store (job_file job.id) next,
          ground arith,
          record {
            status = refl;
            counted = refl;
            same_stages = requeued_names job.stages;
            stages_queued = All-queued job.stages;
            same_input = refl;
            same_kind = refl;
            no_result = (refl, refl, refl);
            no_lease = (refl, refl);
            stamped = (refl, refl);
          },
          λ j. rw (get-write_job, get-id store id job k found),
        ),
  )

  -- Starting or completing a stage keeps the ids and labels of all stages, and their order.
  pub stage_names_kept :
      (stage_id : String) (partial_result : Option V) (now : ℕ) (job : CaspaJob V)
      → (stage_names (stage_started stage_id now job).stages ≡ stage_names job.stages)
        × (stage_names (stage_completed stage_id partial_result now job).stages
            ≡ stage_names job.stages)
  unfolding stage_started stage_completed
  stage_names_kept stage_id partial_result now job = (
    on_stage_names stage_id _ job.stages (λ s. (refl, refl)),
    on_stage_names stage_id _ job.stages (λ s. (refl, refl)),
  )
