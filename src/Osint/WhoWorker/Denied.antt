-- ===== src/Osint/WhoWorker/Denied.antt =====
-- A WHO job that the policy refuses, and one whose lookup throws.
use ocrowley_commons.Common.{Result, String, ap, err, false, is_blank, refl, sym, true, ◌∙◌, ◌≡◌}
use ocrowley_commons.Audit.{who_denied}
use ocrowley_commons.Jobs.{CaspaJob, CaspaJobStatus, is_cancelled, running}
use ocrowley_commons.Osint.Policy.{enrich_person, policy_denied}
use ocrowley_commons.Osint.Policy.Decision.{ref_reason}
use ocrowley_commons.Osint.WhoJobs.{publish_who_progress}
use ocrowley_commons.Osint.WhoWorker.{
  WhoResult, WhoValue, WorkerEnv, World, append_audit, beat, begin_stage, message, policy_refused,
  publish, stage, who_threw,
}
use ocrowley_commons.Osint.WhoWorker.Process.{
  attempt_job, caught, discover_work, discovered, job_case, process_who_job, recover_job,
  refuse_job,
}
use ocrowley_commons.Osint.WhoWorker.Stage.{>>>-err, HasJob, stage-err}
use ocrowley_commons.Osint.WhoWorker.Refused.{
  IsRefused, at_who, before_discover, before_discover-HasJob, from_found, open_at, policy-denied,
  policy-passed, refusal, refuse_job-IsRefused, working-HasJob,
}

module _ {W R T B : Type 0} (env : WorkerEnv W T R B) (job : CaspaJob (WhoValue W))
    (status : CaspaJobStatus) (w : World W R) (h : HasJob job.id status w.who.store)
    (go : is_cancelled status ≡ false) where
  denied-eq :
      is_blank (job_case env job) ≡ true
      → process_who_job env job w
        ≡ refuse_job env job
            (message env (policy_refused (policy_denied enrich_person ref_reason)))
            (beat env job.id (begin_stage env job.id "policy" w))
  unfolding process_who_job recover_job
  denied-eq blank = ap (caught env job) (policy-denied env job status w h go blank)

  denied-IsRefused :
      IsRefused env job.id who_denied w
        (refuse_job env job
          (message env (policy_refused (policy_denied enrich_person ref_reason)))
          (beat env job.id (begin_stage env job.id "policy" w))).1
  unfolding message beat begin_stage publish publish_who_progress
  denied-IsRefused =
      let r =
        refuse_job-IsRefused env job
          (message env (policy_refused (policy_denied enrich_person ref_reason))) running
          (beat env job.id (begin_stage env job.id "policy" w))
          (working-HasJob env job status w h go "policy") in
      record {
        failed_job = r.failed_job;
        audited = r.audited;
        no_dossier = r.no_dossier;
        told = r.told;
      }

-- A job that is not cancelled and has no case reference, in its payload or as its project, is refused
-- before the lookup: it fails, the chain has one entry more, which says that it was denied, no dossier
-- and no entity is written, the failure is published, and what the lookup would do makes no difference.
pub denied_lem :
    {W R T B : Type 0} (env : WorkerEnv W T R B) (job : CaspaJob (WhoValue W))
    (status : CaspaJobStatus) (w : World W R)
    → HasJob job.id status w.who.store
    → is_cancelled status ≡ false
    → is_blank (job_case env job) ≡ true
    → IsRefused env job.id who_denied w (process_who_job env job w).1
      × ((other : WhoValue W → String → World W R → Result String (WhoResult T) × World W R)
          → process_who_job (record env { who = other }) job w ≡ process_who_job env job w)
unfolding job_case message begin_stage beat refuse_job append_audit process_who_job
denied_lem env job status w h go blank = (
  rw (denied-eq env job status w h go blank) (denied-IsRefused env job status w h go),
  λ other.
      denied-eq (record env { who = other }) job status w h go blank
      ∙ sym (denied-eq env job status w h go blank),
)

-- Where the lookup throws, the job fails in the world that the lookup left, whatever its status is by
-- then, cancelled included; the chain has one entry more, a denial or a failure by the words of the
-- message, and no dossier and no entity is written.
pub who_error_lem :
    {W R T B : Type 0} (env : WorkerEnv W T R B) (job : CaspaJob (WhoValue W))
    (status later : CaspaJobStatus) (w v : World W R) (h : HasJob job.id status w.who.store)
    (go : is_cancelled status ≡ false) (why : String)
    → is_blank (job_case env job) ≡ false
    → env.who job.input (job_case env job) (at_who env job status w h go) ≡ (err why, v)
    → HasJob job.id later v.who.store
    → IsRefused env job.id (refusal env why) v (process_who_job env job w).1
unfolding process_who_job recover_job message discover_work
who_error_lem env job status later w v h go why given threw after =
    let stops : discover_work env job (
          beat env job.id
            (begin_stage env job.id "discover" (before_discover env job status w h go)))
        ≡ (err (who_threw why), v) =
      ap (discovered env job) threw in
    let tried : attempt_job env job w ≡ (err (who_threw why), v) =
      policy-passed env job status w h go given
      ∙ >>>-err (stage env job.id "discover" (discover_work env job))
          (from_found env job status w h go) (before_discover env job status w h go) v
          (who_threw why)
          (stage-err env job.id "discover" (discover_work env job)
            (before_discover env job status w h go) (who_threw why) v
            (open_at env job running (before_discover env job status w h go)
              (before_discover-HasJob env job status w h go) refl)
            stops) in
    rw (ap (caught env job) tried) (refuse_job-IsRefused env job why later v after)
