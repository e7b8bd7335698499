-- ===== src/Osint/WhoAudit/Ledger.antt =====
-- The chain on disk holds the entries of the in-memory ledger.
use Prim.Native.String.{len}
use text.Mathlib.TextPositions.{len-append}
use ocrowley_commons.Common.{
  All, All-append, List, Option, String, [], ap, arith, decimal, eq_refl, false, first_chars,
  length, length-append, length-map, map, ok, refl, some, str_eq, str_ne, ℕ, ◌+s◌, ◌+◌, ◌<◌, ◌∙◌,
  ◌∷◌, ◌≡◌, ◌≤◌,
}
use ocrowley_commons.Persistence.{Dir, read_file, read_json_file, tmp_name, write_json_file}
use ocrowley_commons.Audit.{
  AuditEntry, AuditEntryInput, UnsignedEntry, append, append_all, next_entry, valid,
}
use ocrowley_commons.Persistence.Laws.{read-write_json_file}
use ocrowley_commons.Audit.Chain.{verify-append_all}
use ocrowley_commons.Osint.WhoAudit.{
  WhoFile, append_who_audit, chain_file, chain_name, entry_trip, load_chain, metadata_trip,
  pad_start, pad_start-len, save_chain, shard_name, verify_who_audit,
}

longer_ne : (s t : String) → len t < len s → str_eq s t ≡ false
longer_ne s t h = str_ne s t (λ e. omega (arith, h, ap len e))

joined-len : (a b : String) → 6 ≤ len a → 10 < len (a +s "-" +s b +s ".json")
joined-len a b h = rw len-append (rw len-append (rw len-append (omega (arith, h))))

-- A shard has a longer name than the chain file.
shard_name-len : (sequence : ℕ) (hash : String) → 10 < len (shard_name sequence hash)
unfolding shard_name
shard_name-len sequence hash =
    joined-len (pad_start 6 (decimal sequence)) (first_chars 8 hash)
      (pad_start-len 6 (decimal sequence))

module _ {ℓ} {M : Type ℓ} (json_trip : M → M) (hash : UnsignedEntry M → String) where
  load-read :
      (dir : Dir (WhoFile M)) (entries : List (AuditEntry M)) (now : String)
      → read_json_file dir chain_name ≡ some (chain_file entries now)
      → load_chain dir ≡ entries
  unfolding load_chain
  load-read dir entries now h = rw (load_chain, h) refl

  -- A write under a longer name leaves the chain file.
  chain_file_kept :
      (dir : Dir (WhoFile M)) (name : String) (file : WhoFile M)
      → 10 < len name
      → read_json_file (write_json_file dir name file) chain_name ≡ read_json_file dir chain_name
  chain_file_kept dir name file long =
      let longer : 10 < len (tmp_name name) = rw len-append (omega (arith, long)) in
      ground (
        arith,
        read-write_json_file dir name chain_name file,
        longer_ne name chain_name long,
        longer_ne (tmp_name name) chain_name longer,
      )

  chain_file_read :
      (dir : Dir (WhoFile M)) (file : WhoFile M)
      → read_json_file (write_json_file dir chain_name file) chain_name ≡ some file
  chain_file_read dir file =
      ground (arith, read-write_json_file dir chain_name chain_name file, eq_refl chain_name)

  -- Appending to the directory is appending to the ledger, and then one more trip through JSON.
  pub load-append :
      (input : AuditEntryInput M) (now : String) (dir : Dir (WhoFile M))
      → load_chain (append_who_audit json_trip hash input now dir).1
        ≡ map (entry_trip json_trip) (append hash (load_chain dir) input).0
  unfolding append_who_audit load_chain save_chain append
  load-append input now dir =
      let entries = (append hash (load_chain dir) input).0 in
      let entry = next_entry hash (load_chain dir) input in
      load-read _ (map (entry_trip json_trip) entries) now (
        chain_file_kept (save_chain json_trip entries now dir) _ _
          (shard_name-len entry.unsigned.sequence entry.hash)
        ∙ chain_file_read dir (chain_file (map (entry_trip json_trip) entries) now))

  -- Metadata that comes back from a file as it was.
  abbrev pub Survives : AuditEntryInput M → Type ℓ
  Survives input = metadata_trip json_trip input.metadata ≡ input.metadata

  abbrev pub AllSurvive : List (AuditEntry M) → Type ℓ
  AllSurvive entries = All (λ (e : AuditEntry M). Survives e.unsigned.input) entries

  entry_trip-Survives : (e : AuditEntry M) → Survives e.unsigned.input → entry_trip json_trip e ≡ e
  entry_trip-Survives e h =
      ap
        (λ (m : Option M). record e {
          unsigned = record e.unsigned { input = record e.unsigned.input { metadata = m } };
        })
        h

  pub trip_all :
      (entries : List (AuditEntry M))
      → AllSurvive entries
      → map (entry_trip json_trip) entries ≡ entries
  trip_all [] h = refl
  trip_all (e ∷ es) h = ground (arith, entry_trip-Survives e h.0, trip_all es h.1)

  -- A row of appends, each with the time of its chain file.
  abbrev pub append_who_all : List (AuditEntryInput M × String) → Dir (WhoFile M) → Dir (WhoFile M)
  append_who_all [] dir = dir
  append_who_all ((input, now) ∷ inputs) dir =
      append_who_all inputs (append_who_audit json_trip hash input now dir).1

  pub append-AllSurvive :
      (entries : List (AuditEntry M)) (input : AuditEntryInput M)
      → AllSurvive entries
      → Survives input
      → AllSurvive (append hash entries input).0
  unfolding append next_entry
  append-AllSurvive entries input h k =
      All-append (λ (e : AuditEntry M). Survives e.unsigned.input) entries _ h (k, tt)

  pub load-append_all :
      (inputs : List (AuditEntryInput M × String)) (dir : Dir (WhoFile M))
      → All (λ e. Survives e.0) inputs
      → AllSurvive (load_chain dir)
      → load_chain (append_who_all inputs dir)
        ≡ append_all hash (load_chain dir) (map (λ e. e.0) inputs)
  unfolding append_all
  load-append_all [] dir k h = refl
  load-append_all ((input, now) ∷ inputs) dir k h =
      let more = append-AllSurvive (load_chain dir) input h k.0 in
      let same = load-append input now dir ∙ trip_all _ more in
      load-append_all inputs (append_who_audit json_trip hash input now dir).1 k.1 (rw same more)
      ∙ ap (λ es. append_all hash es (map (λ e. e.0) inputs)) same

  pub length-append_all :
      (entries : List (AuditEntry M)) (inputs : List (AuditEntryInput M))
      → length (append_all hash entries inputs) ≡ length entries + length inputs
  unfolding append_all append
  length-append_all entries [] = omega arith
  length-append_all entries (input ∷ inputs) =
      length-append_all (append hash entries input).0 inputs ∙ rw length-append (omega arith)

  -- The chain on disk is the ledger of packages/audit: after any appends to an empty directory whose
  -- metadata all survive JSON.stringify and JSON.parse, the entries that are read back are those of a
  -- new ledger with the same appends, and the check of the chain finds them valid and gives their number.
  pub append_who_all_lem :
      (inputs : List (AuditEntryInput M × String))
      → All (λ e. Survives e.0) inputs
      → (load_chain (append_who_all inputs []) ≡ append_all hash [] (map (λ e. e.0) inputs))
        × (verify_who_audit hash (append_who_all inputs []) ≡ ok (valid, length inputs))
  unfolding verify_who_audit read_json_file read_file
  append_who_all_lem inputs k =
      let same = load-append_all inputs [] k tt in
      let size : length (append_all hash [] (map (λ e. e.0) inputs)) ≡ length inputs = omega (
        arith,
        length-append_all [] (map (λ e. e.0) inputs),
        length-map {A = AuditEntryInput M × String} (λ e. e.0) inputs,
      ) in
      (
        same,
        rw (verify_who_audit, same, (verify-append_all hash (map (λ e. e.0) inputs)).0, size) refl,
      )
