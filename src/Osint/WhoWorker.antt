-- ===== src/Osint/WhoWorker.antt =====
-- packages/osint/src/jobs/whoWorker.ts: what a WHO worker works on, and one stage of a job. `World` has
-- the stores that the worker shares with others and its own module variables; every reading of the
-- clock is the next of `clock`. `who` is the lookup of who.ts, with whatever others do to the world
-- while it runs, and `idle` what they do while the worker sleeps.
pub mod Process
pub mod Stage
pub mod Refused
pub mod Denied
pub mod Cancelled
pub mod Completed
pub mod Loop
mod Tests
use ocrowley_commons.Common.{
  Bool, List, Option, Result, String, contains_fold, err, false, if◌then◌else◌, none, ok, some, ℕ,
  ◌+s◌, ◌+◌, ◌||◌,
}
use ocrowley_commons.Persistence.{Dir}
use ocrowley_commons.Audit.{AuditAction, AuditEntry, UnsignedEntry}
use ocrowley_commons.Crypto.{
  CryptoError, Node, invalid_format, invalid_key_length, missing_key, unauthentic,
}
use ocrowley_commons.Jobs.{is_cancelled}
use ocrowley_commons.Jobs.Service.{Store, complete_stage, get, start_stage}
use ocrowley_commons.Jobs.Lease.{heartbeat_lease}
use ocrowley_commons.Policy.{Environment, duplicate_policy_rule}
use ocrowley_commons.Osint.Policy.{OsintError, action_name, policy_denied, policy_error}
use ocrowley_commons.Osint.Cases.{Cases}
use ocrowley_commons.Osint.Dossiers.{Dossier, StoredDossier}
use ocrowley_commons.Osint.EntityIndex.{EntityIndexEntry}
use ocrowley_commons.Osint.WhoAudit.{WhoFile, append_who_audit}
use ocrowley_commons.Osint.WhoJobs.{
  WhoJobPayload, WhoProgressEvent, WhoState, job_stage, publish_who_progress,
}

pub record WhoStats : Type 0 where
  pub confirmed : ℕ
  pub likely : ℕ
  pub possible : ℕ
  pub checked : ℕ

-- The result of `who`; `rest` is what only the dossier takes over.
pub record WhoResult (T : Type 0) : Type 0 where
  pub q : String
  pub name : String
  pub next : String
  pub stats : WhoStats
  pub tools_used : List String
  pub archive_id : Option String
  pub warning : String
  pub rest : T

-- Less the summary of a recursive run.
pub record WhoJobResult : Type 0 where
  pub q : String
  pub name : String
  pub next : String
  pub stats : WhoStats
  pub tools_used : List String
  pub archive_id : Option String
  pub dossier_id : String
  pub audit_sequence : ℕ
  pub warning : String

-- The values of a WHO job: its input, the partial results of the stages, and its result.
pub data WhoValue (W : Type 0) : Type 0 where
  payload_value : WhoJobPayload W → WhoValue W
  no_payload_value : WhoValue W
  case_value : String → WhoValue W
  discover_value : (name : String) → WhoStats → List String → WhoValue W
  dossier_value : (dossier_id entity_id : String) → WhoValue W
  audit_value : ℕ → WhoValue W
  result_value : WhoJobResult → WhoValue W

-- The metadata of the audit entries that the worker writes.
pub data WhoMetadata : Type 0 where
  requested_metadata : (q case_ref : String) → WhoMetadata
  written_metadata : (case_ref entity_id job_id : String) → WhoMetadata
  completed_metadata :
      (case_ref dossier_id : String) (archive_id : Option String) (confirmed checked : ℕ)
      → WhoMetadata
  refused_metadata : (case_ref error : String) → WhoMetadata
  unarchived_metadata : (case_ref dossier_id : String) (confirmed checked : ℕ) → WhoMetadata

-- JSON.stringify leaves out a field that is undefined, as archiveId is where nothing was archived. The
-- metadata that has no such field at all is unarchived_metadata.
abbrev pub metadata_json : WhoMetadata → WhoMetadata
metadata_json (requested_metadata q case_ref) = requested_metadata q case_ref
metadata_json (written_metadata case_ref entity_id job_id) =
    written_metadata case_ref entity_id job_id
metadata_json (completed_metadata case_ref dossier_id none confirmed checked) =
    unarchived_metadata case_ref dossier_id confirmed checked
metadata_json (completed_metadata case_ref dossier_id (some archive_id) confirmed checked) =
    completed_metadata case_ref dossier_id (some archive_id) confirmed checked
metadata_json (refused_metadata case_ref error) = refused_metadata case_ref error
metadata_json (unarchived_metadata case_ref dossier_id confirmed checked) =
    unarchived_metadata case_ref dossier_id confirmed checked

-- What is thrown in a stage.
pub data StageError : Type 0 where
  job_cancelled_error : StageError
  policy_refused : OsintError → StageError
  dossier_refused : CryptoError → StageError
  who_threw : String → StageError

pub record World (W R : Type 0) : Type 0 where
  pub who : WhoState (WhoValue W)
  pub audit : Dir (WhoFile WhoMetadata)
  pub dossiers : Cases (StoredDossier R)
  pub entities : Cases (EntityIndexEntry WhoStats)
  pub reads : ℕ
  pub worker_id : String
  pub is_active : Bool
  pub stop_requested : Bool

-- The environment variables, the libraries and the parts that are taken as they are.
pub record WorkerEnv (W T R B : Type 0) : Type 0 where
  pub clock : ℕ → ℕ
  pub iso : ℕ → String
  pub fresh_id : ℕ → String
  pub fresh_iv : ℕ → B
  pub node : Node B
  pub env_key : Option String
  pub env_actor : Option String
  pub env_purpose : Option String
  pub environment : Environment
  pub env_lease_ms : Option ℕ
  pub id_le : String → String → Bool
  pub entry_hash : UnsignedEntry WhoMetadata → String
  pub lower : String → String
  pub sha256 : String → String
  pub to_json : Dossier R → String
  pub dossier_rest : WhoResult T → String → R
  pub auth_message : String
  pub who : WhoValue W → String → World W R → Result String (WhoResult T) × World W R
  pub idle : World W R → World W R

-- DEFAULT_LEASE_MS of the worker.
abbrev pub worker_lease_ms : ℕ
worker_lease_ms = 90000

-- A step that may throw.
abbrev pub Action : (W R : Type 0) → Type 0 → Type 0
Action W R A = World W R → Result StageError A × World W R

abbrev pub after_result :
    {W R A B : Type 0}
    → (A → Action W R B)
    → Result StageError A × World W R
    → Result StageError B × World W R
after_result f (ok a, next) = f a next
after_result f (err e, next) = (err e, next)

infixl 5 ◌>>>◌
abbrev pub ◌>>>◌ : {W R A B : Type 0} → Action W R A → (A → Action W R B) → Action W R B
◌>>>◌ m f w = after_result f (m w)

module _ {W R : Type 0} where
  abbrev pub with_store : Store (WhoValue W) → ℕ → World W R → World W R
  with_store store ticks w = record w {
    who = record w.who { store = store };
    reads = w.reads + ticks;
  }

  unfoldable pub publish : String → WhoProgressEvent → World W R → World W R
  unfolding publish_who_progress
  publish job_id event w = record w { who = publish_who_progress job_id event w.who }

  -- `current?.status === 'cancelled'`.
  unfoldable pub job_is_cancelled : String → World W R → Bool
  job_is_cancelled job_id w = elim (get job_id w.who.store) [
    | none ↦ false
    | some job ↦ is_cancelled job.status
  ]

  module _ {T B : Type 0} (env : WorkerEnv W T R B) where
    unfoldable pub begin_stage : (job_id stage_id : String) → World W R → World W R
    unfolding publish
    begin_stage job_id stage_id w =
        publish job_id job_stage
          (with_store (start_stage job_id stage_id (env.clock w.reads) w.who.store).1 1 w)

    -- The answer of `heartbeatLease` is not looked at.
    unfoldable pub beat : String → World W R → World W R
    beat job_id w =
        with_store
          (heartbeat_lease job_id w.worker_id worker_lease_ms (env.clock w.reads)
            (env.clock (w.reads + 1)) w.who.store).1
          2 w

    unfoldable pub end_stage : (job_id stage_id : String) → WhoValue W → World W R → World W R
    unfolding publish
    end_stage job_id stage_id partial_result w = publish job_id job_stage (
        with_store
          (complete_stage job_id stage_id (some partial_result) (env.clock w.reads) w.who.store).1 1
          w)

    -- What follows the work of a stage.
    unfoldable pub close_stage :
        {A : Type 0} → (job_id stage_id : String) → A × WhoValue W → Action W R A
    unfolding end_stage job_is_cancelled
    close_stage job_id stage_id (a, partial_result) w =
        if job_is_cancelled job_id w
        then (err job_cancelled_error, w)
        else (ok a, end_stage job_id stage_id partial_result w)

    -- `work` returns what the code keeps of it, and the partial result.
    unfoldable pub stage :
        {A : Type 0} → (job_id stage_id : String) → Action W R (A × WhoValue W) → Action W R A
    unfolding begin_stage beat close_stage job_is_cancelled
    stage job_id stage_id work w =
        let body =
          (work >>> close_stage job_id stage_id) (beat job_id (begin_stage job_id stage_id w)) in
        if job_is_cancelled job_id w then (err job_cancelled_error, w) else body

    unfoldable pub append_audit :
        (actor : String)
        → AuditAction
        → (resource_type resource_id : String) → WhoMetadata
        → World W R
        → AuditEntry WhoMetadata × World W R
    unfolding append_who_audit
    append_audit actor action resource_type resource_id metadata w =
        let at = env.iso (env.clock w.reads) in
        let (entry, audit) =
          append_who_audit metadata_json env.entry_hash
            (record {
              actor_id = actor;
              action = action;
              resource_type = resource_type;
              resource_id = resource_id;
              occurred_at = at;
              metadata = some metadata;
            })
            (env.iso (env.clock (w.reads + 1))) w.audit in
        (entry, record w { audit = audit; reads = w.reads + 2 })

    -- The messages of what is thrown.
    unfoldable pub message : StageError → String
    message job_cancelled_error = "Job cancelled"
    message (policy_refused (policy_denied action reason)) =
        "OSINT policy denied " +s action_name action +s ": " +s reason
    message (policy_refused (policy_error (duplicate_policy_rule id))) =
        "Duplicate policy rule: " +s id
    message (dossier_refused missing_key) =
        "[Encryption] ENCRYPTION_MASTER_KEY is missing or too short. Must be 64 hex chars."
    message (dossier_refused invalid_key_length) = "Invalid key length"
    message (dossier_refused invalid_format) = "[Encryption] Invalid ciphertext format."
    message (dossier_refused unauthentic) = env.auth_message
    message (who_threw why) = why

-- `/denied|authorization|case/i.test(message)`.
abbrev pub reads_as_denial : String → Bool
reads_as_denial why =
    contains_fold "denied" why || contains_fold "authorization" why || contains_fold "case" why
