-- ===== src/Osint/WhoAudit/Lost.antt =====
-- An entry whose metadata does not come back from the file as it was.
use Prim.Native.String.{len}
use ocrowley_commons.Common.{
  All, List, String, [], ap, arith, eq_iff, false, length, length-append, length-map, map,
  map-append, ok, refl, sym, utf16_length, ◌++◌, ◌+◌, ◌∙◌, ◌∷◌, ◌≡◌, ◌≢◌,
}
use ocrowley_commons.Persistence.{Dir, read_file, read_json_file}
use ocrowley_commons.Audit.{
  AuditEntry, AuditEntryInput, UnsignedEntry, append, append_all, broken_at, genesis, hashes_match,
  next_entry, verify, verify_from,
}
use ocrowley_commons.Audit.Chain.{IsChained, hashes_match_self, verify-append_all, verify_iff}
use ocrowley_commons.Osint.WhoAudit.{
  WhoFile, append_who_audit, entry_trip, load_chain, verify_who_audit,
}
use ocrowley_commons.Osint.WhoAudit.Ledger.{
  AllSurvive, Survives, append-AllSurvive, append_who_all, length-append_all, load-append,
  load-append_all, trip_all,
}

module _ {ℓ} {M : Type ℓ} (json_trip : M → M) (hash : UnsignedEntry M → String) where
  -- A chain with one entry more, which has not the hash of its content.
  verify_from-last :
      (previous : String) (es : List (AuditEntry M)) (e : AuditEntry M)
      → IsChained hash previous es
      → hashes_match (hash e.unsigned) e.hash ≡ ok false
      → verify_from hash previous (es ++ e ∷ []) ≡ ok (broken_at e.unsigned.sequence)
  unfolding verify_from
  verify_from-last previous [] e h differs = ground arith
  verify_from-last previous (x ∷ es) e h differs = ground (
    arith,
    hashes_match_self x.hash,
    eq_iff x.unsigned.previous_hash previous,
    verify_from-last x.hash es e h.2 differs,
  )

  differing :
      (s t : String)
      → len s ≡ len t
      → utf16_length s ≡ utf16_length t
      → s ≢ t
      → hashes_match s t ≡ ok false
  unfolding hashes_match
  differing s t bytes units h = ground (arith, eq_iff s t)

  -- The entry as it is returned, and as the file gives it back.
  abbrev pub added : List (AuditEntryInput M × String) → AuditEntryInput M → AuditEntry M
  added inputs input = next_entry hash (append_all hash [] (map (λ e. e.0) inputs)) input

  abbrev pub after_lost :
      List (AuditEntryInput M × String) → AuditEntryInput M → (now : String) → Dir (WhoFile M)
  after_lost inputs input now =
      (append_who_audit json_trip hash input now (append_who_all json_trip hash inputs [])).1

  append_all-AllSurvive :
      (entries : List (AuditEntry M)) (inputs : List (AuditEntryInput M × String))
      → AllSurvive json_trip hash entries
      → All (λ e. Survives json_trip hash e.0) inputs
      → AllSurvive json_trip hash (append_all hash entries (map (λ e. e.0) inputs))
  unfolding append_all
  append_all-AllSurvive entries [] h k = h
  append_all-AllSurvive entries ((input, now) ∷ inputs) h k =
      append_all-AllSurvive (append hash entries input).0 inputs
        (append-AllSurvive json_trip hash entries input h k.0) k.1

  load-lost :
      (inputs : List (AuditEntryInput M × String)) (input : AuditEntryInput M) (now : String)
      → All (λ e. Survives json_trip hash e.0) inputs
      → load_chain (after_lost inputs input now)
        ≡ append_all hash [] (map (λ e. e.0) inputs)
          ++ entry_trip json_trip (added inputs input) ∷ []
  unfolding load_chain read_json_file read_file append
  load-lost inputs input now k =
      let base = append_all hash [] (map (λ e. e.0) inputs) in
      let dir = append_who_all json_trip hash inputs [] in
      load-append json_trip hash input now dir
      ∙ ap (λ es. map (entry_trip json_trip) (append hash es input).0)
          (load-append_all json_trip hash inputs [] k tt)
      ∙ map-append (entry_trip json_trip) base (added inputs input ∷ [])
      ∙ ap (λ es. es ++ entry_trip json_trip (added inputs input) ∷ [])
          (trip_all json_trip hash base (append_all-AllSurvive [] inputs tt k))

  count_lem :
      (inputs : List (AuditEntryInput M × String))
      → length (append_all hash [] (map (λ e. e.0) inputs)) ≡ length inputs
  count_lem inputs = omega (
    arith,
    length-append_all json_trip hash [] (map (λ e. e.0) inputs),
    length-map {A = AuditEntryInput M × String} (λ e. e.0) inputs,
  )

  -- Where every hash has 64 characters, of one byte each: if an entry is appended after any others whose
  -- metadata survive JSON, and its own metadata come back so that its hash is another one, then the
  -- check of the chain reports it as broken at that entry, the last, though nothing was tampered with.
  pub lost_metadata_lem :
      (inputs : List (AuditEntryInput M × String)) (input : AuditEntryInput M) (now : String)
      → ((u : UnsignedEntry M) → (utf16_length (hash u) ≡ 64) × (len (hash u) ≡ 64))
      → All (λ e. Survives json_trip hash e.0) inputs
      → hash (entry_trip json_trip (added inputs input)).unsigned
        ≢ hash (added inputs input).unsigned
      → verify_who_audit hash (after_lost inputs input now)
        ≡ ok (broken_at (length inputs + 1), length inputs + 1)
  unfolding verify_who_audit verify next_entry
  lost_metadata_lem inputs input now sizes k other =
      let base = append_all hash [] (map (λ e. e.0) inputs) in
      let last = entry_trip json_trip (added inputs input) in
      let chained = (verify_iff hash base).0 (verify-append_all hash (map (λ e. e.0) inputs)).0 in
      let differs =
        differing (hash last.unsigned) last.hash
          ((sizes last.unsigned).1 ∙ sym (sizes (added inputs input).unsigned).1)
          ((sizes last.unsigned).0 ∙ sym (sizes (added inputs input).unsigned).0) other in
      let count : length (base ++ last ∷ []) ≡ length inputs + 1 =
        length-append base (last ∷ []) ∙ omega (arith, count_lem inputs) in
      let number : last.unsigned.sequence ≡ length inputs + 1 = omega (arith, count_lem inputs) in
      let found = verify_from-last genesis base last chained differs in
      rw (verify_who_audit, load-lost inputs input now k, found, count, number) refl
