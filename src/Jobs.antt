-- ===== src/Jobs.antt =====
-- packages/jobs/src/CaspaJobService.ts: the jobs and their fields. An ISO time text stands for its
-- milliseconds: `Date.parse` inverts `toISOString`, and `localeCompare` orders such texts of the
-- years 0 to 9999 as their milliseconds. Values of type `unknown` are of any type `V`.
pub mod Service
pub mod Outcome
pub mod Lease
pub mod Store
pub mod Stages
pub mod Sound
pub mod Lifecycle
pub mod Cancelled
pub mod Claim
pub mod Heartbeat
pub mod Recover
pub mod Race
mod Tests
use ocrowley_commons.Common.{Bool, List, Option, String, false, true, ℕ}

pub data CaspaJobStatus : Type 0 where
  queued running waiting completed failed cancelled partial needs_review : CaspaJobStatus

pub record CaspaJobStage {ℓ} (V : Type ℓ) : Type ℓ where
  pub id : String
  pub label : String
  pub status : CaspaJobStatus
  pub started_at : Option ℕ
  pub completed_at : Option ℕ
  pub partial_result : Option V

-- `kind` is the field `type`.
pub record CaspaJob {ℓ} (V : Type ℓ) : Type ℓ where
  pub id : String
  pub user_id : Option String
  pub project_id : Option String
  pub kind : String
  pub status : CaspaJobStatus
  pub current_stage : Option String
  pub stages : List (CaspaJobStage V)
  pub input : V
  pub result : Option V
  pub partial_result : Option V
  pub error : Option String
  pub retry_count : ℕ
  pub resume_from_stage : Option String
  pub created_at : ℕ
  pub updated_at : ℕ
  pub started_at : Option ℕ
  pub completed_at : Option ℕ
  pub cancelled_at : Option ℕ
  pub lease_owner : Option String
  pub lease_until : Option ℕ

-- DEFAULT_LEASE_MS.
abbrev pub default_lease_ms : ℕ
default_lease_ms = 60000

abbrev pub is_queued : CaspaJobStatus → Bool
is_queued queued = true
is_queued _ = false

abbrev pub is_running : CaspaJobStatus → Bool
is_running running = true
is_running _ = false

abbrev pub is_cancelled : CaspaJobStatus → Bool
is_cancelled cancelled = true
is_cancelled _ = false
