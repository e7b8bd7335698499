-- ===== src/Osint/WhoWorker/Refused.antt =====
-- WHO jobs that fail: the way to the lookup, and what follows an error.
use ocrowley_commons.Common.{
  List, String, [], ap, err, false, if_false, if_true, if◌then◌else◌, is_blank, last?, last?-append,
  map, map-append, ok, refl, some, true, ◌++◌, ◌∙◌, ◌∷◌, ◌≡◌,
}
use ocrowley_commons.Persistence.{Dir}
use ocrowley_commons.Audit.{
  AuditAction, AuditEntry, append, next_entry, who_denied, who_failed, who_requested,
}
use ocrowley_commons.Jobs.{CaspaJob, CaspaJobStatus, failed, is_cancelled, running}
use ocrowley_commons.Osint.Policy.{assert_osint_allowed, enrich_person, policy_denied}
use ocrowley_commons.Osint.Policy.Decision.{assert_osint_allowed_lem, ref_reason}
use ocrowley_commons.Osint.WhoAudit.{WhoFile, entry_trip, load_chain}
use ocrowley_commons.Osint.WhoAudit.Ledger.{load-append}
use ocrowley_commons.Osint.WhoJobs.{job_failed, job_progress, publish_who_progress}
use ocrowley_commons.Osint.WhoWorker.{
  Action, WhoMetadata, WhoResult, WhoValue, WorkerEnv, World, append_audit, beat, begin_stage,
  case_value, end_stage, job_is_cancelled, metadata_json, policy_refused, publish, reads_as_denial,
  requested_metadata, stage, worker_lease_ms, ◌>>>◌,
}
use ocrowley_commons.Osint.WhoWorker.Process.{
  attempt_job, audit_job, audit_work, discover_work, dossier_work, finish_job, job_actor, job_auth,
  job_case, note_progress, policy_work, q_of, refuse_job,
}
use ocrowley_commons.Osint.WhoWorker.Stage.{
  >>>-err, >>>-ok, HasJob, complete_stage-HasJob, heartbeat_lease-HasJob, job_is_cancelled-HasJob,
  mark_failed-HasJob, stage-err, stage-ok, start_stage-HasJob,
}

-- The actions of the audit chain, in order.
abbrev pub actions : Dir (WhoFile WhoMetadata) → List AuditAction
actions dir = map (λ (e : AuditEntry WhoMetadata). e.unsigned.input.action) (load_chain dir)

trip-actions :
    (entries : List (AuditEntry WhoMetadata))
    → map
        (λ (e : AuditEntry WhoMetadata). e.unsigned.input.action)
        (map (entry_trip metadata_json) entries)
      ≡ map (λ (e : AuditEntry WhoMetadata). e.unsigned.input.action) entries
trip-actions [] = refl
trip-actions (e ∷ es) = ap (◌∷◌ e.unsigned.input.action) (trip-actions es)

module _ {W R T B : Type 0} (env : WorkerEnv W T R B) where
  pub append_audit-actions :
      (actor : String) (action : AuditAction) (resource_type resource_id : String)
      (metadata : WhoMetadata) (w : World W R)
      → actions (append_audit env actor action resource_type resource_id metadata w).1.audit
        ≡ actions w.audit ++ action ∷ []
  unfolding append_audit append next_entry
  append_audit-actions actor action resource_type resource_id metadata w =
      ap (map (λ (e : AuditEntry WhoMetadata). e.unsigned.input.action))
        (load-append metadata_json env.entry_hash _ _ w.audit)
      ∙ trip-actions _
      ∙ map-append _ (load_chain w.audit) _

  -- What a refusal leaves: a failed job, one audit entry more, and no dossier.
  pub record IsRefused (job_id : String) (action : AuditAction) (before after : World W R)
      : Type 0 where
    pub failed_job : HasJob job_id failed after.who.store
    pub audited : actions after.audit ≡ actions before.audit ++ action ∷ []
    pub no_dossier : (after.dossiers ≡ before.dossiers) × (after.entities ≡ before.entities)
    pub told : last? after.who.published ≡ some (record { job_id = job_id; event = job_failed })

  abbrev pub refusal : String → AuditAction
  refusal why = if reads_as_denial why then who_denied else who_failed

  audit-store :
      (actor : String) (action : AuditAction) (resource_type resource_id : String)
      (metadata : WhoMetadata) (w : World W R)
      → (append_audit env actor action resource_type resource_id metadata w).1.who ≡ w.who
  unfolding append_audit
  audit-store actor action resource_type resource_id metadata w = refl

  pub refuse_job-IsRefused :
      (job : CaspaJob (WhoValue W)) (why : String) (status : CaspaJobStatus) (w : World W R)
      → HasJob job.id status w.who.store
      → IsRefused job.id (refusal why) w (refuse_job env job why w).1
  unfolding refuse_job append_audit publish publish_who_progress
  refuse_job-IsRefused job why status w h = record {
    failed_job = mark_failed-HasJob job.id status w.who.store h why _ _;
    audited = append_audit-actions (job_actor env job) (refusal why) "who.job" job.id _ w;
    no_dossier = (refl, refl);
    told = last?-append w.who.published _;
  }

  module _ (job : CaspaJob (WhoValue W)) (status : CaspaJobStatus) (w : World W R)
      (h : HasJob job.id status w.who.store) (go : is_cancelled status ≡ false) where
    pub open_at : job_is_cancelled job.id w ≡ false
    open_at = job_is_cancelled-HasJob job.id status w h ∙ go

    pub working-HasJob :
        (stage_id : String)
        → HasJob job.id running (beat env job.id (begin_stage env job.id stage_id w)).who.store
    unfolding beat begin_stage publish publish_who_progress
    working-HasJob stage_id =
        heartbeat_lease-HasJob job.id running _
          (start_stage-HasJob job.id status w.who.store h stage_id _ go) w.worker_id worker_lease_ms
          _ _

    pub policy-denied :
        is_blank (job_case env job) ≡ true
        → attempt_job env job w ≡ (
          err (policy_refused (policy_denied enrich_person ref_reason)),
          beat env job.id (begin_stage env job.id "policy" w),
        )
    unfolding attempt_job policy_work
    policy-denied blank =
        let gate : assert_osint_allowed env.id_le enrich_person (job_auth env job)
            ≡ err (policy_denied enrich_person ref_reason) =
          assert_osint_allowed_lem env.id_le enrich_person (job_auth env job)
          ∙ if_true _ _ _ blank in
        >>>-err (stage env job.id "policy" (policy_work env job)) _ w _ _ (
          stage-err env job.id "policy" (policy_work env job) w _ _ open_at
            (rw (policy_work, gate) refl))

    -- The world in which the lookup of a job with a case reference starts.
    abbrev pub requested : World W R
    requested =
        (audit_job env job who_requested (requested_metadata (q_of job.input) (job_case env job))
          (beat env job.id (begin_stage env job.id "policy" w))).1

    abbrev pub before_discover : World W R
    before_discover =
        publish job.id job_progress
          (end_stage env job.id "policy" (case_value (job_case env job)) requested)

    abbrev pub at_who : World W R
    at_who = beat env job.id (beat env job.id (begin_stage env job.id "discover" before_discover))

    -- What follows the lookup, the dossier, and the last audit entry.
    abbrev pub from_dossier : WhoResult T → String → Action W R (CaspaJob (WhoValue W))
    from_dossier found dossier_id =
        stage env job.id "audit" (audit_work env job found dossier_id) >>> λ sequence.
        finish_job env job found dossier_id sequence

    abbrev pub from_found : WhoResult T → Action W R (CaspaJob (WhoValue W))
    from_found found = note_progress env job.id >>> λ _.
        stage env job.id "dossier" (dossier_work env job found) >>> λ dossier_id.
        from_dossier found dossier_id

    abbrev pub from_discover : Action W R (CaspaJob (WhoValue W))
    from_discover = stage env job.id "discover" (discover_work env job) >>> from_found

    pub requested-HasJob : HasJob job.id running requested.who.store
    unfolding append_audit
    requested-HasJob = working-HasJob "policy"

    pub before_discover-HasJob : HasJob job.id running before_discover.who.store
    unfolding end_stage publish publish_who_progress
    before_discover-HasJob =
        complete_stage-HasJob job.id running requested.who.store requested-HasJob "policy" _ _ refl

    pub at_who-HasJob : HasJob job.id running at_who.who.store
    unfolding beat begin_stage publish publish_who_progress
    at_who-HasJob =
        heartbeat_lease-HasJob job.id running _
          (heartbeat_lease-HasJob job.id running _
            (start_stage-HasJob job.id running before_discover.who.store before_discover-HasJob
              "discover" _ refl)
            _ worker_lease_ms _ _)
          _ worker_lease_ms _ _

    pub policy-passed :
        is_blank (job_case env job) ≡ false → attempt_job env job w ≡ from_discover before_discover
    unfolding attempt_job policy_work
    policy-passed given =
        let gate : assert_osint_allowed env.id_le enrich_person (job_auth env job) ≡ ok tt =
          assert_osint_allowed_lem env.id_le enrich_person (job_auth env job)
          ∙ if_false _ _ _ given in
        >>>-ok (stage env job.id "policy" (policy_work env job)) _ w _ tt (
          stage-ok env job.id "policy" (policy_work env job) w tt (case_value (job_case env job))
            requested open_at (rw (policy_work, gate) refl)
            (job_is_cancelled-HasJob job.id running requested requested-HasJob))
