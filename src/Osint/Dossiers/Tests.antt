-- ===== src/Osint/Dossiers/Tests.antt =====
-- Runs of the dossier store on the sample buffers.

use ocrowley_commons.Common.{
  All, Memᴰ, String, [], err, false, insert_sorted, length, map, none, ok, refl, some, sort_by,
  trim, ◌∷◌, ◌≡◌, ◌≤◌, ◌⊎◌,
}
use ocrowley_commons.Osint.Dossiers.Samples.{sample_parse, sample_parse-to_json, sample_to_json}
use ocrowley_commons.Osint.Cases.{Cases, read_case_file, sanitize_case_path, write_case_file}
use ocrowley_commons.Osint.Dossiers.Listing.{Holds, IsHeld, NewestFirst, list_dossiers_lem, size_of}
use ocrowley_commons.Osint.Dossiers.RoundTrip.{IsReadable, read-write_dossier}
use ocrowley_commons.Crypto.{invalid_key_length}
use ocrowley_commons.Crypto.RoundTrip.{HasBadKey}
use ocrowley_commons.Persistence.{
  list_json_files, read_file, read_json_file, rename, unlink, write_file, write_json_file,
}
use ocrowley_commons.Crypto.Samples.{test_iv, test_key, text_node, text_node-IsLawful}
use ocrowley_commons.Osint.Dossiers.{
  DossierSummary, StoredDossier, WriteInput, all_summaries, blank_record, list_dossiers,
  summaries_of, summary, write_dossier,
}

abbrev ada : WriteInput (Unit {0})
ada = record {
  case_ref = "CASE 1";
  dossier = record { entity_id = some "e1"; entity_value = "Ada"; rest = tt };
  job_id = none;
  archive_id = none;
}

read-write_dossier_example :
    (HasBadKey text_node test_key
      × (write_dossier text_node test_key
            (λ s. s)
            (λ s. s)
            sample_to_json
            "12345678-9"
            5
            test_iv
            ada
            []
          ≡ err invalid_key_length))
    ⊎ ((stored : StoredDossier (Unit {0})) × (after : Cases (StoredDossier (Unit {0})))
        × (write_dossier text_node test_key
              (λ s. s)
              (λ s. s)
              sample_to_json
              "12345678-9"
              5
              test_iv
              ada
              []
            ≡ ok (stored, after))
        × IsReadable text_node text_node-IsLawful test_key sample_to_json sample_parse
            sample_parse-to_json ada [] stored after)
read-write_dossier_example =
    read-write_dossier text_node text_node-IsLawful test_key sample_to_json sample_parse
      sample_parse-to_json (λ s. s) (λ s. s) "12345678-9" 5 test_iv refl ada []

abbrev stored_twice : Cases (StoredDossier (Unit {0}))
stored_twice =
    write_case_file
      (write_case_file [] "CASE_1" "a.json"
        (record (blank_record ada "a" "e1" 5 false) { dossier = some ada.dossier }))
      "CASE_1" "b.json" (record (blank_record ada "b" "e1" 9 false) { case_ref = "CASE/1" })

-- The other case of the directory is left out.
list_dossiers_example :
    (length (list_dossiers (some "CASE 1") (some 3) stored_twice) ≤ size_of 3)
    × NewestFirst (list_dossiers (some "CASE 1") (some 3) stored_twice)
    × All (IsHeld "CASE 1" refl stored_twice) (list_dossiers (some "CASE 1") (some 3) stored_twice)
    × ((file : String) (entry : StoredDossier (Unit {0}))
        → Holds "CASE 1" refl stored_twice file entry
        → Memᴰ (summary entry) (list_dossiers (some "CASE 1") (some 3) stored_twice)
          ⊎ ((length (list_dossiers (some "CASE 1") (some 3) stored_twice) ≡ size_of 3)
              × All
                  (λ (t : DossierSummary). entry.saved_at ≤ t.saved_at)
                  (list_dossiers (some "CASE 1") (some 3) stored_twice)))
list_dossiers_example = list_dossiers_lem "CASE 1" refl stored_twice 3

list_test :
    map (λ (s : DossierSummary). s.id) (list_dossiers (some "CASE 1") none stored_twice) ≡ "a" ∷ []
unfolding list_dossiers all_summaries summaries_of read_case_file write_case_file read_json_file
    write_json_file read_file write_file rename unlink list_json_files sanitize_case_path trim
    sort_by insert_sorted
list_test = refl
