-- ===== src/Osint/WhoAudit.antt =====
-- packages/osint/src/audit/whoAudit.ts: the WHO audit chain, on disk. The directory `who-audit` has
-- the chain file and one shard for every entry; `hash` is hashAuditEntry, and the ISO times of an
-- entry and of the chain file are arguments. `json_trip` is what JSON.stringify and then JSON.parse make
-- of the metadata of an entry; the other fields are texts and numbers, which they keep. An action is one of the five that the code names.
use Prim.Native.String.{len}
use mathlib.Core.List.{reverse}
use text.Mathlib.TextPositions.{len-append}
pub mod Ledger
pub mod Lost
mod Tests
use ocrowley_commons.Common.{
  List, Option, Result, String, [], arith, decimal, filter, first_chars, if◌then◌else◌, length, map,
  none, not, ok, refl, some, str_eq, suc, take, zero, ℕ, ◌++◌, ◌+s◌, ◌-◌, ◌==◌, ◌>>=◌, ◌∷◌, ◌≡◌,
  ◌≤◌,
}
use ocrowley_commons.Persistence.{Dir, list_json_files, read_json_file, write_json_file}
use ocrowley_commons.Audit.{
  AuditEntry, AuditEntryInput, AuditError, UnsignedEntry, Verdict, next_entry, verify,
}

-- What a file of the directory has.
pub data WhoFile {ℓ} (M : Type ℓ) : Type ℓ where
  chain_file : (entries : List (AuditEntry M)) (updated_at : String) → WhoFile M
  shard_file : AuditEntry M → WhoFile M

abbrev pub chain_name : String
chain_name = "chain.json"

zeros : ℕ → String
zeros zero = ""
zeros (suc n) = "0" +s zeros n

-- `s.padStart(width, '0')`, on digits.
unfoldable pub pad_start : ℕ → String → String
unfolding zeros
pad_start width s = zeros (width - len s) +s s

unfoldable pub shard_name : ℕ → String → String
unfolding pad_start first_chars decimal
shard_name sequence hash = pad_start 6 (decimal sequence) +s "-" +s first_chars 8 hash +s ".json"

-- `String(sequence).padStart(6, '0')` has at least six characters.
zeros-len : (n : ℕ) → len (zeros n) ≡ n
unfolding zeros
zeros-len zero = refl
zeros-len (suc n) = rw len-append (omega (arith, zeros-len n))

pub pad_start-len : (width : ℕ) (s : String) → width ≤ len (pad_start width s)
unfolding pad_start
pad_start-len width s = rw len-append (omega (arith, zeros-len (width - len s)))

module _ {ℓ} {M : Type ℓ} where
  unfoldable pub load_chain : Dir (WhoFile M) → List (AuditEntry M)
  load_chain dir = elim (read_json_file dir chain_name) [
    | none ↦ []
    | some (chain_file entries updated_at) ↦ entries
    | some (shard_file entry) ↦ []
  ]

  -- An entry as a file gives it back.
  abbrev pub metadata_trip : (json_trip : M → M) → Option M → Option M
  metadata_trip json_trip none = none
  metadata_trip json_trip (some m) = some (json_trip m)

  abbrev pub entry_trip : (json_trip : M → M) → AuditEntry M → AuditEntry M
  entry_trip json_trip e = record e {
    unsigned = record e.unsigned {
      input = record e.unsigned.input {
        metadata = metadata_trip json_trip e.unsigned.input.metadata;
      };
    };
  }

  unfoldable pub save_chain :
      (json_trip : M → M) → List (AuditEntry M) → String → Dir (WhoFile M) → Dir (WhoFile M)
  save_chain json_trip entries now dir =
      write_json_file dir chain_name (chain_file (map (entry_trip json_trip) entries) now)

  -- `n` elements from the end, the last one first.
  unfoldable pub list_who_audit : ℕ → Dir (WhoFile M) → List (AuditEntry M)
  unfolding load_chain
  list_who_audit limit dir = take (if limit == 0 then 1 else limit) (reverse (load_chain dir))

  unfoldable pub who_audit_shard_count : Dir (WhoFile M) → ℕ
  who_audit_shard_count dir = length (filter (λ f. not (str_eq f chain_name)) (list_json_files dir))

  module _ (json_trip : M → M) (hash : UnsignedEntry M → String) where
    unfoldable pub append_who_audit :
        AuditEntryInput M → (now : String) → Dir (WhoFile M) → AuditEntry M × Dir (WhoFile M)
    unfolding load_chain save_chain next_entry shard_name
    append_who_audit input now dir =
        let existing = load_chain dir in
        let entry = next_entry hash existing input in
        let saved = save_chain json_trip (existing ++ entry ∷ []) now dir in
        (
          entry,
          write_json_file saved (shard_name entry.unsigned.sequence entry.hash)
              (shard_file (entry_trip json_trip entry)),
        )

  module _ (hash : UnsignedEntry M → String) where
    -- The verdict and the number of entries.
    unfoldable pub verify_who_audit : Dir (WhoFile M) → Result AuditError (Verdict × ℕ)
    unfolding load_chain verify
    verify_who_audit dir =
        let entries = load_chain dir in
        verify hash entries >>= λ verdict. ok (verdict, length entries)
