-- ===== src/Osint/WhoWorker/Process.antt =====
-- packages/osint/src/jobs/whoWorker.ts: the four stages of a WHO job, what follows an error, the
-- claim of a job, and one turn of the worker.
use ocrowley_commons.Common.{
  Option, Result, String, [], err, first_chars, get_or, if◌then◌else◌, is_empty, none, ok, some,
  trim, ℕ, ◌+s◌, ◌+◌, ◌∷◌,
}
use ocrowley_commons.Audit.{
  AuditAction, AuditEntry, dossier_written, who_completed, who_denied, who_failed, who_requested,
}
use ocrowley_commons.Jobs.{CaspaJob}
use ocrowley_commons.Jobs.Service.{get}
use ocrowley_commons.Jobs.Lease.{claim_next_job_with_lease}
use ocrowley_commons.Jobs.Outcome.{complete, mark_failed}
use ocrowley_commons.Osint.Auth.{or_text}
use ocrowley_commons.Osint.Policy.{OsintAuthorization, assert_osint_allowed, enrich_person}
use ocrowley_commons.Osint.Cases.{dossier_entity_id, text_or}
use ocrowley_commons.Osint.Dossiers.{Dossier, StoredDossier, write_dossier}
use ocrowley_commons.Osint.EntityIndex.{UpsertInput, upsert_entity_index}
use ocrowley_commons.Osint.WhoJobs.{
  job_cancelled, job_claimed, job_completed, job_failed, job_progress, who_job_kind,
}
use ocrowley_commons.Osint.WhoWorker.{
  Action, StageError, WhoJobResult, WhoMetadata, WhoResult, WhoStats, WhoValue, WorkerEnv, World,
  append_audit, audit_value, beat, case_value, completed_metadata, discover_value, dossier_refused,
  dossier_value, job_cancelled_error, message, payload_value, policy_refused, publish,
  reads_as_denial, refused_metadata, requested_metadata, result_value, stage, who_threw, with_store,
  worker_lease_ms, written_metadata, ◌>>>◌,
}

-- The fields of the payload that the worker reads itself; a job with no payload has none.
abbrev pub q_of : {W : Type 0} → WhoValue W → String
q_of (payload_value p) = p.q
q_of _ = ""

abbrev pub case_ref_of : {W : Type 0} → WhoValue W → String
case_ref_of (payload_value p) = p.case_ref
case_ref_of _ = ""

abbrev pub actor_id_of : {W : Type 0} → WhoValue W → Option String
actor_id_of (payload_value p) = p.actor_id
actor_id_of _ = none

module _ {W R T B : Type 0} (env : WorkerEnv W T R B) where
  -- `payload.actorId || job.userId || process.env.OCROWLEY_OSINT_ACTOR || 'local'`.
  abbrev pub job_actor : CaspaJob (WhoValue W) → String
  job_actor job =
      or_text (actor_id_of job.input) (or_text job.user_id (or_text env.env_actor "local"))

  -- `String(payload.caseRef || job.projectId || '').trim()`.
  unfoldable pub job_case : CaspaJob (WhoValue W) → String
  unfolding trim
  job_case job = trim (text_or (case_ref_of job.input) (get_or job.project_id ""))

  abbrev pub job_auth : CaspaJob (WhoValue W) → OsintAuthorization
  job_auth job = record {
    actor_id = job_actor job;
    roles = "osint-operator" ∷ [];
    authorization_ref = job_case job;
    purpose = or_text env.env_purpose "authorised people research";
    environment = some env.environment;
    scan_type = none;
    resource_classification = none;
  }

  -- Not a method of its own: `appendWhoAudit` with the worker's actor, on the job.
  abbrev pub audit_job :
      CaspaJob (WhoValue W)
      → AuditAction
      → WhoMetadata
      → World W R
      → AuditEntry WhoMetadata × World W R
  audit_job job action metadata = append_audit env (job_actor job) action "who.job" job.id metadata

  unfoldable pub policy_work : CaspaJob (WhoValue W) → Action W R (Unit {0} × WhoValue W)
  unfolding assert_osint_allowed
  policy_work job w = elim (assert_osint_allowed env.id_le enrich_person (job_auth job)) [
    | err e ↦ (err (policy_refused e), w)
    | ok _ ↦
        let (entry, next) =
          audit_job job who_requested (requested_metadata (q_of job.input) (job_case job)) w in
        (ok (tt, case_value (job_case job)), next)
  ]

  abbrev pub discovered :
      CaspaJob (WhoValue W)
      → Result String (WhoResult T) × World W R
      → Result StageError (WhoResult T × WhoValue W) × World W R
  discovered job (err why, w) = (err (who_threw why), w)
  discovered job (ok found, w) = (
    ok (found, discover_value found.name found.stats found.tools_used),
    publish job.id job_progress w,
  )

  unfoldable pub discover_work : CaspaJob (WhoValue W) → Action W R (WhoResult T × WhoValue W)
  unfolding beat
  discover_work job w = discovered job (env.who job.input (job_case job) (beat env job.id w))

  -- The entity of `dossierFromWhoResult`.
  unfoldable pub dossier_of : WhoResult T → String → Dossier R
  unfolding dossier_entity_id
  dossier_of found case_ref = record {
    entity_id = some (dossier_entity_id env.lower env.sha256 case_ref found.name found.q);
    entity_value = text_or found.name found.q;
    rest = env.dossier_rest found case_ref;
  }

  abbrev pub index_input :
      CaspaJob (WhoValue W) → WhoResult T → StoredDossier R → UpsertInput WhoStats
  index_input job found written = record {
    case_ref = job_case job;
    entity_id = written.entity_id;
    value = text_or found.name found.q;
    kind = "person";
    dossier_id = written.id;
    job_id = some job.id;
    stats = some found.stats;
  }

  abbrev pub with_entity :
      CaspaJob (WhoValue W) → WhoResult T → StoredDossier R → World W R → World W R
  with_entity job found written w = record w {
    entities =
        (upsert_entity_index (index_input job found written) (env.clock w.reads) w.entities).1;
    reads = w.reads + 1;
  }

  -- The index and the audit entry for a dossier that was written.
  unfoldable pub index_dossier :
      CaspaJob (WhoValue W) → WhoResult T → StoredDossier R → World W R → World W R
  unfolding append_audit
  index_dossier job found written w =
      (append_audit env (job_actor job) dossier_written "who.dossier" written.id
        (written_metadata (job_case job) written.entity_id job.id)
        (with_entity job found written w)).1

  unfoldable pub dossier_work :
      CaspaJob (WhoValue W) → WhoResult T → Action W R (String × WhoValue W)
  unfolding write_dossier dossier_of index_dossier
  dossier_work job found w =
      elim (write_dossier env.node env.env_key env.lower env.sha256 env.to_json
        (env.fresh_id w.reads) (env.clock w.reads) (env.fresh_iv w.reads)
        (record {
          case_ref = job_case job;
          dossier = dossier_of found (job_case job);
          job_id = some job.id;
          archive_id = found.archive_id;
        })
        w.dossiers) [
          | err e ↦ (err (dossier_refused e), w)
          | ok (written, dossiers) ↦ (
            ok (written.id, dossier_value written.id written.entity_id),
            index_dossier job found written (record w { dossiers = dossiers; reads = w.reads + 1 }),
          )
        ]

  unfoldable pub audit_work :
      CaspaJob (WhoValue W) → WhoResult T → (dossier_id : String) → Action W R (ℕ × WhoValue W)
  audit_work job found dossier_id w =
      let (entry, next) =
        audit_job job who_completed
          (completed_metadata (job_case job) dossier_id found.archive_id found.stats.confirmed
            found.stats.checked)
          w in
      (ok (entry.unsigned.sequence, audit_value entry.unsigned.sequence), next)

  abbrev pub job_result : WhoResult T → String → ℕ → WhoJobResult
  job_result found dossier_id sequence = record {
    q = found.q;
    name = found.name;
    next = found.next;
    stats = found.stats;
    tools_used = found.tools_used;
    archive_id = found.archive_id;
    dossier_id = dossier_id;
    audit_sequence = sequence;
    warning = found.warning;
  }

  unfoldable pub finish_job :
      CaspaJob (WhoValue W) → WhoResult T → String → ℕ → Action W R (CaspaJob (WhoValue W))
  finish_job job found dossier_id sequence w =
      let (done, store) =
        complete job.id (result_value (job_result found dossier_id sequence)) (env.clock w.reads)
          (env.clock (w.reads + 1)) w.who.store in
      (ok (get_or done job), publish job.id job_completed (with_store store 2 w))

  -- Progress of 25 and of 80 per cent.
  abbrev pub note_progress : String → Action W R (Unit {0})
  note_progress job_id w = (ok tt, publish job_id job_progress w)

  -- The body of the `try`.
  unfoldable pub attempt_job : CaspaJob (WhoValue W) → Action W R (CaspaJob (WhoValue W))
  unfolding stage policy_work discover_work dossier_work audit_work finish_job
  attempt_job job = stage env job.id "policy" (policy_work job) >>> λ _.
      note_progress job.id >>> λ _. stage env job.id "discover" (discover_work job) >>> λ found.
      note_progress job.id >>> λ _.
      stage env job.id "dossier" (dossier_work job found) >>> λ dossier_id.
      stage env job.id "audit" (audit_work job found dossier_id) >>> λ sequence.
      finish_job job found dossier_id sequence

  -- The audit entry, the failure of the job and the event, in that order.
  unfoldable pub refuse_job :
      CaspaJob (WhoValue W) → String → World W R → CaspaJob (WhoValue W) × World W R
  unfolding append_audit
  refuse_job job why w =
      let action = if reads_as_denial why then who_denied else who_failed in
      let audited = (audit_job job action (refused_metadata (job_case job) why) w).1 in
      let (failed_job, store) =
        mark_failed job.id why (env.clock audited.reads) (env.clock (audited.reads + 1))
          audited.who.store in
      (get_or failed_job job, publish job.id job_failed (with_store store 2 audited))

  -- The `catch`.
  unfoldable pub recover_job :
      CaspaJob (WhoValue W) → StageError → World W R → CaspaJob (WhoValue W) × World W R
  unfolding message refuse_job
  recover_job job job_cancelled_error w =
      (get_or (get job.id w.who.store) job, publish job.id job_cancelled w)
  recover_job job (policy_refused e) w = refuse_job job (message env (policy_refused e)) w
  recover_job job (dossier_refused e) w = refuse_job job (message env (dossier_refused e)) w
  recover_job job (who_threw why) w = refuse_job job (message env (who_threw why)) w

  abbrev pub caught :
      CaspaJob (WhoValue W)
      → Result StageError (CaspaJob (WhoValue W)) × World W R
      → CaspaJob (WhoValue W) × World W R
  caught job (ok done, w) = (done, w)
  caught job (err e, w) = recover_job job e w

  unfoldable pub process_who_job :
      CaspaJob (WhoValue W) → World W R → CaspaJob (WhoValue W) × World W R
  unfolding attempt_job recover_job
  process_who_job job w = caught job (attempt_job job w)

  unfoldable pub claim_next_who_job :
      (owner : String) → World W R → Option (CaspaJob (WhoValue W)) × World W R
  unfolding publish
  claim_next_who_job owner w =
      let (claimed_job, store) =
        claim_next_job_with_lease
          (record {
            owner = text_or owner "who-worker";
            lease_ms = some (get_or env.env_lease_ms worker_lease_ms);
            kind = some who_job_kind;
          })
          (env.clock w.reads) (env.clock (w.reads + 1)) w.who.store in
      let next = with_store store 2 w in
      elim claimed_job [
        | none ↦ (none, next)
        | some job ↦ (some job, publish job.id job_claimed next)
      ]

  -- The worker's name, made up at its first turn.
  unfoldable pub with_worker_id : World W R → World W R
  unfolding first_chars
  with_worker_id w =
      if is_empty w.worker_id
      then record w {
        worker_id = "who-" +s first_chars 10 (env.fresh_id w.reads);
        reads = w.reads + 1;
      }
      else w

  unfoldable pub run_who_worker_once : World W R → Option (CaspaJob (WhoValue W)) × World W R
  unfolding with_worker_id claim_next_who_job process_who_job
  run_who_worker_once w =
      let (claimed_job, next) =
        claim_next_who_job (with_worker_id w).worker_id (with_worker_id w) in
      elim claimed_job [
        | none ↦ (none, next)
        | some job ↦ let (done, after) = process_who_job job next in (some done, after)
      ]
