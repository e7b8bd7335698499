-- ===== src/Audit.antt =====
-- packages/audit/src/index.ts: the hash-chained ledger. The metadata is of any type `M`, and `hash`
-- stands for `hashAuditEntry`, the SHA-256 of node:crypto over the entry's serialization.
pub mod Chain
pub mod Tamper
pub mod Verify
mod Tests
use Prim.Native.Char.{code}
use Prim.Native.String.{len}
use ocrowley_commons.Common.{
  Bool, List, Option, Result, String, [], err, false, if◌then◌else◌, last?, length, none, not, ok,
  some, str_eq, utf16_length, ℕ, ◌++◌, ◌+◌, ◌==◌, ◌||◌, ◌∷◌,
}

pub data AuditAction : Type 0 where
  snapshot_opened snapshot_closed migration_started migration_committed : AuditAction
  migration_rolled_back record_quarantined backup_created restore_verified : AuditAction
  promotion_requested promotion_approved promotion_denied emergency_rollback : AuditAction
  who_requested who_completed who_denied who_failed dossier_written : AuditAction

pub record AuditEntryInput {ℓ} (M : Type ℓ) : Type ℓ where
  pub actor_id : String
  pub action : AuditAction
  pub resource_type : String
  pub resource_id : String
  pub occurred_at : String
  pub metadata : Option M

-- `Omit<AuditEntry, 'hash'>`.
pub record UnsignedEntry {ℓ} (M : Type ℓ) : Type ℓ where
  pub input : AuditEntryInput M
  pub sequence : ℕ
  pub previous_hash : String

pub record AuditEntry {ℓ} (M : Type ℓ) : Type ℓ where
  pub unsigned : UnsignedEntry M
  pub hash : String

abbrev pub genesis : String
genesis = "GENESIS"

-- `entries.at(-1)?.hash ?? 'GENESIS'`.
abbrev pub last_hash {ℓ} : {M : Type ℓ} → List (AuditEntry M) → String
last_hash entries = elim (last? entries) [ none ↦ genesis | some e ↦ e.hash ]

-- `timingSafeEqual` throws a RangeError on buffers of different byte lengths.
pub data AuditError : Type 0 where
  range_error : AuditError

pub data Verdict : Type 0 where
  valid : Verdict
  broken_at : ℕ → Verdict

-- `expected.length === hash.length && timingSafeEqual(Buffer.from(expected), Buffer.from(hash))`,
-- on the UTF-8 bytes of the two.
unfoldable pub hashes_match : String → String → Result AuditError Bool
unfolding utf16_length
hashes_match expected hash =
    if utf16_length expected == utf16_length hash
    then (if len expected == len hash then ok (str_eq expected hash) else err range_error)
    else ok false

module _ {ℓ} {M : Type ℓ} (hash : UnsignedEntry M → String) where
  unfoldable pub next_entry : List (AuditEntry M) → AuditEntryInput M → AuditEntry M
  next_entry entries input =
      let unsigned : UnsignedEntry M = record {
        input = input;
        sequence = length entries + 1;
        previous_hash = last_hash entries;
      } in
      record { unsigned = unsigned; hash = hash unsigned }

  -- `append` returns the entry that it has pushed.
  unfoldable pub append :
      List (AuditEntry M) → AuditEntryInput M → List (AuditEntry M) × AuditEntry M
  unfolding next_entry
  append entries input = let entry = next_entry entries input in (entries ++ entry ∷ [], entry)

  -- The loop of `verify`, with the hash that the next entry must name.
  unfoldable pub verify_from : String → List (AuditEntry M) → Result AuditError Verdict
  verify_from previous [] = ok valid
  verify_from previous (entry ∷ rest) =
      let later = verify_from entry.hash rest in
      elim (hashes_match (hash entry.unsigned) entry.hash) [
        | err e ↦ err e
        | ok same ↦
            if not same || not (str_eq entry.unsigned.previous_hash previous)
            then ok (broken_at entry.unsigned.sequence)
            else later
      ]

  unfoldable pub verify : List (AuditEntry M) → Result AuditError Verdict
  unfolding verify_from
  verify entries = verify_from genesis entries

  -- The ledger after a row of appends.
  unfoldable pub append_all : List (AuditEntry M) → List (AuditEntryInput M) → List (AuditEntry M)
  unfolding append
  append_all entries [] = entries
  append_all entries (input ∷ inputs) = append_all (append entries input).0 inputs
