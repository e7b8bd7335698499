-- ===== src/Osint/WhoAudit/Tests.antt =====
-- The chain on disk at concrete entries.
use ocrowley_commons.Common.{
  List, Option, String, [], arith, decimal, eq_iff, false, length, map, none, ok, refl, some,
  str_eq, suc, utf16_length, zero, ℕ, ◌+◌, ◌∷◌, ◌≡◌, ◌≢◌,
}
use ocrowley_commons.Persistence.{
  list_json_files, read_file, read_json_file, rename, unlink, write_file, write_json_file,
}
use ocrowley_commons.Audit.{
  AuditEntryInput, UnsignedEntry, append_all, broken_at, next_entry, valid, who_requested,
}
use ocrowley_commons.Osint.WhoAudit.{append_who_audit, entry_trip, load_chain, verify_who_audit}
use ocrowley_commons.Osint.WhoAudit.Lost.{added, after_lost, lost_metadata_lem}
use ocrowley_commons.Osint.WhoAudit.Ledger.{append_who_all, append_who_all_lem}
use Prim.Native.String.{len}

-- A hash that every entry has.
abbrev constant_hash : UnsignedEntry ℕ → String
constant_hash entry = "0123456789"

abbrev asked : AuditEntryInput ℕ
asked = record {
  actor_id = "op";
  action = who_requested;
  resource_type = "who.job";
  resource_id = "j1";
  occurred_at = "2026-01-01T00:00:00.000Z";
  metadata = none;
}

abbrev two_appends : List (AuditEntryInput ℕ × String)
two_appends = (asked, "t1") ∷ (asked, "t2") ∷ []

shard_names :
    list_json_files (append_who_all (λ m. m) constant_hash two_appends [])
    ≡ "chain.json" ∷ "000001-01234567.json" ∷ "000002-01234567.json" ∷ []
unfolding append_who_audit list_json_files write_json_file load_chain decimal rename read_file
    write_file unlink read_json_file
shard_names = refl

-- A plain hash of 64 characters, which is one for missing or zero metadata and another for the rest.
abbrev plain_digest : String
plain_digest = "aaaaaaaaaaaaaaaaaaaaaaaaaaaaaaaaaaaaaaaaaaaaaaaaaaaaaaaaaaaaaaaa"

abbrev other_digest : String
other_digest = "bbbbbbbbbbbbbbbbbbbbbbbbbbbbbbbbbbbbbbbbbbbbbbbbbbbbbbbbbbbbbbbb"

abbrev digest : Option ℕ → String
digest none = plain_digest
digest (some zero) = plain_digest
digest (some (suc n)) = other_digest

abbrev metadata_hash : UnsignedEntry ℕ → String
metadata_hash u = digest u.input.metadata

digest-sizes : (m : Option ℕ) → (utf16_length (digest m) ≡ 64) × (len (digest m) ≡ 64)
unfolding utf16_length
digest-sizes none = (refl, refl)
digest-sizes (some zero) = (refl, refl)
digest-sizes (some (suc n)) = (refl, refl)

-- Metadata of which the file gives back another value.
abbrev noted : AuditEntryInput ℕ
noted = record asked { metadata = some 3 }

digests_differ : ◌≢◌ {A = String} plain_digest other_digest
digests_differ e =
    let apart : str_eq plain_digest other_digest ≡ false = refl in
    ground (arith, eq_iff plain_digest other_digest)

other_hash :
    metadata_hash (entry_trip (λ m. 0) (added (λ m. 0) metadata_hash two_appends noted)).unsigned
    ≢ metadata_hash (added (λ m. 0) metadata_hash two_appends noted).unsigned
unfolding next_entry
other_hash = digests_differ

lost_metadata_example :
    verify_who_audit metadata_hash (after_lost (λ m. 0) metadata_hash two_appends noted "t3")
    ≡ ok (broken_at (length two_appends + 1), length two_appends + 1)
lost_metadata_example =
    lost_metadata_lem (λ m. 0) metadata_hash two_appends noted "t3"
      (λ u. digest-sizes u.input.metadata) (refl, (refl, tt)) other_hash

append_who_all_lem_example :
    (load_chain (append_who_all (λ m. m) constant_hash two_appends [])
      ≡ append_all constant_hash [] (map (λ e. e.0) two_appends))
    × (verify_who_audit constant_hash (append_who_all (λ m. m) constant_hash two_appends [])
        ≡ ok (valid, length two_appends))
append_who_all_lem_example =
    append_who_all_lem (λ m. m) constant_hash two_appends (refl, (refl, tt))
