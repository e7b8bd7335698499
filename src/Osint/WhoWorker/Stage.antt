-- ===== src/Osint/WhoWorker/Stage.antt =====
-- A stage on each of its ways, and the job that the stages work on.
use ocrowley_commons.Common.{
  Bool-cases, Option, String, ap, eq_refl, err, false, if_false, if_true, inl, inr, ok, refl, some,
  str_eq, true, ℕ, ◌∙◌, ◌≡◌,
}
use ocrowley_commons.Persistence.{write_json_file}
use ocrowley_commons.Jobs.{
  CaspaJob, CaspaJobStatus, completed, failed, is_cancelled, is_running, running,
}
use ocrowley_commons.Jobs.Service.{
  Patch, Store, complete_stage, get, job_file, patch, stage_completed, stage_started, start_stage,
}
use ocrowley_commons.Jobs.Lease.{heartbeat_lease, held_by_other}
use ocrowley_commons.Jobs.Outcome.{complete, mark_failed}
use ocrowley_commons.Jobs.Store.{get-patch, get-write_job}
use ocrowley_commons.Osint.WhoWorker.{
  Action, StageError, WhoValue, WorkerEnv, World, beat, begin_stage, close_stage, end_stage,
  job_cancelled_error, job_is_cancelled, stage, ◌>>>◌,
}

-- The store has a job under its id, in the given status.
pub record HasJob {V : Type 0} (id : String) (status : CaspaJobStatus) (store : Store V)
    : Type 0 where
  pub job : CaspaJob V
  pub found : get id store ≡ some job
  pub same_id : job.id ≡ id
  pub has_status : job.status ≡ status

module _ {V : Type 0} (id : String) (status : CaspaJobStatus) (store : Store V)
    (h : HasJob id status store) where
  get-written :
      (next : CaspaJob V)
      → next.id ≡ id
      → get id (write_json_file store (job_file next.id) next) ≡ some next
  get-written next same =
      get-write_job store next.id id next ∙ if_true (str_eq next.id id) _ _ (rw same (eq_refl id))

  pub start_stage-HasJob :
      (stage_id : String) (now : ℕ)
      → is_cancelled status ≡ false
      → HasJob id running (start_stage id stage_id now store).1
  unfolding start_stage stage_started
  start_stage-HasJob stage_id now go =
      let open_job : is_cancelled h.job.status ≡ false = rw h.has_status go in
      rw (start_stage, h.found, open_job)
        (record {
          job = stage_started stage_id now h.job;
          found = get-written (stage_started stage_id now h.job) h.same_id;
          same_id = h.same_id;
          has_status = refl;
        })

  pub complete_stage-HasJob :
      (stage_id : String) (partial_result : Option V) (now : ℕ)
      → is_cancelled status ≡ false
      → HasJob id status (complete_stage id stage_id partial_result now store).1
  unfolding complete_stage stage_completed
  complete_stage-HasJob stage_id partial_result now go =
      let open_job : is_cancelled h.job.status ≡ false = rw h.has_status go in
      rw (complete_stage, h.found, open_job)
        (record {
          job = stage_completed stage_id partial_result now h.job;
          found = get-written (stage_completed stage_id partial_result now h.job) h.same_id;
          same_id = h.same_id;
          has_status = h.has_status;
        })

  pub patch-HasJob :
      (change : Patch V) (now : ℕ) (next : CaspaJobStatus)
      → (change h.job).id ≡ h.job.id
      → (change h.job).status ≡ next
      → HasJob id next (patch id change now store).1
  patch-HasJob change now next same moved = record {
    job = record (change h.job) { updated_at = now };
    found =
        get-patch id id change now store h.job h.found (same ∙ h.same_id)
        ∙ if_true _ _ _ (eq_refl id);
    same_id = same ∙ h.same_id;
    has_status = moved;
  }

  pub heartbeat_lease-HasJob :
      (owner : String) (lease_ms now later : ℕ)
      → HasJob id status (heartbeat_lease id owner lease_ms now later store).1
  unfolding heartbeat_lease
  heartbeat_lease-HasJob owner lease_ms now later = elim (Bool-cases (is_running h.job.status)) [
    | inl run ↦ elim (Bool-cases (held_by_other h.job.lease_owner owner)) [
      | inl taken ↦ rw (heartbeat_lease, h.found, run, taken) h
      | inr free ↦
          rw (heartbeat_lease, h.found, run, free) (patch-HasJob _ later status refl h.has_status)
    ]
    | inr idle ↦ rw (heartbeat_lease, h.found, idle) h
  ]

  pub mark_failed-HasJob :
      (why : String) (now later : ℕ) → HasJob id failed (mark_failed id why now later store).1
  unfolding mark_failed
  mark_failed-HasJob why now later = patch-HasJob _ later failed refl refl

  pub complete-HasJob :
      (result : V) (now later : ℕ) → HasJob id completed (complete id result now later store).1
  unfolding complete
  complete-HasJob result now later = patch-HasJob _ later completed refl refl

module _ {W R : Type 0} where
  pub job_is_cancelled-HasJob :
      (id : String) (status : CaspaJobStatus) (w : World W R)
      → HasJob id status w.who.store
      → job_is_cancelled id w ≡ is_cancelled status
  unfolding job_is_cancelled
  job_is_cancelled-HasJob id status w h =
      rw (job_is_cancelled, h.found) (ap is_cancelled h.has_status)

  pub >>>-err :
      {A B : Type 0} (m : Action W R A) (f : A → Action W R B) (w next : World W R) (e : StageError)
      → m w ≡ (err e, next)
      → (m >>> f) w ≡ (err e, next)
  >>>-err m f w next e h = rw h refl

  pub >>>-ok :
      {A B : Type 0} (m : Action W R A) (f : A → Action W R B) (w next : World W R) (a : A)
      → m w ≡ (ok a, next)
      → (m >>> f) w ≡ f a next
  >>>-ok m f w next a h = rw h refl

  module _ {T B A : Type 0} (env : WorkerEnv W T R B) (job_id stage_id : String)
      (work : Action W R (A × WhoValue W)) (w : World W R) where
    abbrev pub working : World W R
    working = beat env job_id (begin_stage env job_id stage_id w)

    pub stage-stop :
        job_is_cancelled job_id w ≡ true
        → stage env job_id stage_id work w ≡ (err job_cancelled_error, w)
    unfolding stage
    stage-stop h = if_true _ _ _ h

    pub stage-err :
        (e : StageError) (next : World W R)
        → job_is_cancelled job_id w ≡ false
        → work working ≡ (err e, next)
        → stage env job_id stage_id work w ≡ (err e, next)
    unfolding stage
    stage-err e next go h =
        if_false _ _ _ go ∙ >>>-err work (close_stage env job_id stage_id) working next e h

    pub stage-late :
        (a : A) (v : WhoValue W) (next : World W R)
        → job_is_cancelled job_id w ≡ false
        → work working ≡ (ok (a, v), next)
        → job_is_cancelled job_id next ≡ true
        → stage env job_id stage_id work w ≡ (err job_cancelled_error, next)
    unfolding stage close_stage
    stage-late a v next go h late =
        if_false _ _ _ go
        ∙ >>>-ok work (close_stage env job_id stage_id) working next (a, v) h
        ∙ if_true _ _ _ late

    pub stage-ok :
        (a : A) (v : WhoValue W) (next : World W R)
        → job_is_cancelled job_id w ≡ false
        → work working ≡ (ok (a, v), next)
        → job_is_cancelled job_id next ≡ false
        → stage env job_id stage_id work w ≡ (ok a, end_stage env job_id stage_id v next)
    unfolding stage close_stage
    stage-ok a v next go h kept =
        if_false _ _ _ go
        ∙ >>>-ok work (close_stage env job_id stage_id) working next (a, v) h
        ∙ if_false _ _ _ kept
