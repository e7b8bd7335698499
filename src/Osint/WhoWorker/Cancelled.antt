-- ===== src/Osint/WhoWorker/Cancelled.antt =====
-- WHO jobs that are cancelled before the worker starts on them, and while the lookup runs.
use ocrowley_commons.Common.{ap, err, false, is_blank, ok, refl, ◌∙◌, ◌≡◌}
use ocrowley_commons.Jobs.{CaspaJob, CaspaJobStatus, cancelled, is_cancelled, running}
use ocrowley_commons.Osint.WhoJobs.{job_cancelled, job_progress, publish_who_progress}
use ocrowley_commons.Osint.WhoWorker.{
  WhoResult, WhoValue, WorkerEnv, World, beat, begin_stage, discover_value, job_cancelled_error,
  publish, stage,
}
use ocrowley_commons.Osint.WhoWorker.Process.{
  attempt_job, caught, discover_work, discovered, job_case, policy_work, process_who_job,
  recover_job,
}
use ocrowley_commons.Osint.WhoWorker.Stage.{
  >>>-err, HasJob, job_is_cancelled-HasJob, stage-late, stage-stop,
}
use ocrowley_commons.Osint.WhoWorker.Refused.{
  at_who, before_discover, before_discover-HasJob, from_found, open_at, policy-passed,
}

module _ {W R T B : Type 0} (env : WorkerEnv W T R B) (job : CaspaJob (WhoValue W)) where
  recovered-HasJob :
      (w : World W R) (h : HasJob job.id cancelled w.who.store)
      → recover_job env job job_cancelled_error w ≡ (h.job, publish job.id job_cancelled w)
  unfolding recover_job
  recovered-HasJob w h = rw h.found refl

  -- A job that is cancelled when the worker starts on it is returned as it is stored, and nothing is
  -- done but to publish that it is cancelled.
  pub cancelled_before :
      (w : World W R) (h : HasJob job.id cancelled w.who.store)
      → process_who_job env job w ≡ (h.job, publish job.id job_cancelled w)
  unfolding process_who_job attempt_job
  cancelled_before w h =
      ap (caught env job) (
        >>>-err (stage env job.id "policy" (policy_work env job)) _ w w job_cancelled_error (
          stage-stop env job.id "policy" (policy_work env job) w
            (job_is_cancelled-HasJob job.id cancelled w h)))
      ∙ recovered-HasJob w h

  -- A job that is cancelled while the lookup runs, which then gives its result, is returned as it is
  -- stored: from the end of the lookup on, no store changes, and only the progress and the cancellation
  -- are published, so no dossier is written.
  pub cancelled_during :
      (status : CaspaJobStatus) (w v : World W R) (start : HasJob job.id status w.who.store)
      (go : is_cancelled status ≡ false) (found : WhoResult T)
      (h : HasJob job.id cancelled v.who.store)
      → is_blank (job_case env job) ≡ false
      → env.who job.input (job_case env job) (at_who env job status w start go) ≡ (ok found, v)
      → process_who_job env job w
        ≡ (h.job, publish job.id job_cancelled (publish job.id job_progress v))
  unfolding process_who_job discover_work publish publish_who_progress
  cancelled_during status w v start go found h given looked =
      let before = before_discover env job status w start go in
      let after = publish job.id job_progress v in
      let work : discover_work env job (beat env job.id (begin_stage env job.id "discover" before))
          ≡ (ok (found, discover_value found.name found.stats found.tools_used), after) =
        ap (discovered env job) looked in
      let stopped : stage env job.id "discover" (discover_work env job) before
          ≡ (err job_cancelled_error, after) =
        stage-late env job.id "discover" (discover_work env job) before found _ after
          (open_at env job running before (before_discover-HasJob env job status w start go) refl)
          work (job_is_cancelled-HasJob job.id cancelled after h) in
      ap (caught env job) (
        policy-passed env job status w start go given
        ∙ >>>-err (stage env job.id "discover" (discover_work env job))
            (from_found env job status w start go) before after job_cancelled_error stopped)
      ∙ recovered-HasJob after h
