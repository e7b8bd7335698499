-- ===== src/Osint/EntityIndex/Tests.antt =====
-- Runs of the entity index.
use ocrowley_commons.Common.{List, Option, String, [], filter, none, refl, some, trim, ℕ, ◌∷◌, ◌≡◌}
use ocrowley_commons.Persistence.{
  read_file, read_json_file, rename, unlink, write_file, write_json_file,
}
use ocrowley_commons.Osint.Cases.{read_case_file, sanitize_case_path, write_case_file}
use ocrowley_commons.Osint.EntityIndex.{
  UpsertInput, add_id, add_job, get_entity_index, upsert_entity_index, upserted,
}
use ocrowley_commons.Osint.EntityIndex.History.{
  Describes, concerns, latest_of, upsert_all, upsert_history,
}

sanitize_test : sanitize_case_path " _Case #12 / a.b " ≡ "Case_12_a.b"
unfolding sanitize_case_path trim
sanitize_test = refl

sanitize_empty_test : sanitize_case_path " ## " ≡ "case"
unfolding sanitize_case_path trim
sanitize_empty_test = refl

abbrev upsert_of : String → String → Option String → UpsertInput ℕ
upsert_of entity_id dossier_id job_id = record {
  case_ref = "CASE-1";
  entity_id = entity_id;
  value = "Ada";
  kind = "person";
  dossier_id = dossier_id;
  job_id = job_id;
  stats = none;
}

abbrev three_upserts : List (UpsertInput ℕ × ℕ)
three_upserts =
    (upsert_of "e1" "d1" (some "j1"), 10)
    ∷ (upsert_of "e2" "d2" none, 20)
    ∷ (upsert_of "e1" "d3" (some "j1"), 30)
    ∷ []

upsert_history_example :
    Describes
      (filter (concerns "CASE-1" "e1") three_upserts)
      (get_entity_index "CASE-1" "e1" (upsert_all three_upserts []))
upsert_history_example = upsert_history three_upserts "CASE-1" "e1"

latest_test :
    latest_of (get_entity_index "CASE-1" "e1" (upsert_all three_upserts [])) ≡ some ("d3", 30)
unfolding get_entity_index upsert_entity_index upserted read_case_file write_case_file
    read_json_file write_json_file read_file write_file rename unlink sanitize_case_path trim add_id
    add_job
latest_test = refl
