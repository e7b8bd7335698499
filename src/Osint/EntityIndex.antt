-- ===== src/Osint/EntityIndex.antt =====
-- packages/osint/src/dossier/entityIndex.ts: the latest dossier of every entity of a case. The ISO
-- time of an entry is an argument, in milliseconds; statistics are of any type `S`.
pub mod History
mod Tests
use ocrowley_commons.Common.{
  Bool, List, Option, String, [], get_or, if◌then◌else◌, includes, is_empty, leb, none, some,
  sort_by, str_eq, take, trim, true, ℕ, ◌&&◌, ◌++◌, ◌+s◌, ◌==◌, ◌||◌, ◌∷◌,
}
use ocrowley_commons.Osint.Cases.{
  Cases, case_dir, list_case_dirs, read_case_file, sanitize_case_path, write_case_file,
}
use ocrowley_commons.Persistence.{list_json_files}

pub record EntityIndexEntry {ℓ} (S : Type ℓ) : Type ℓ where
  pub entity_id : String
  pub case_ref : String
  pub value : String
  pub kind : String
  pub latest_dossier_id : String
  pub dossier_ids : List String
  pub job_ids : List String
  pub updated_at : ℕ
  pub stats : Option S

pub record UpsertInput {ℓ} (S : Type ℓ) : Type ℓ where
  pub case_ref : String
  pub entity_id : String
  pub value : String
  pub kind : String
  pub dossier_id : String
  pub job_id : Option String
  pub stats : Option S

pub record ListInput : Type 0 where
  pub case_ref : Option String
  pub limit : Option ℕ
  pub q : Option String

abbrev pub index_file : String → String
index_file entity_id = entity_id +s ".json"

-- `xs.includes(x) ? xs : [...xs, x]`.
unfoldable pub add_id : List String → String → List String
add_id xs x = if includes xs x then xs else xs ++ x ∷ []

-- `input.jobId && !prev?.jobIds?.includes(input.jobId)` is false for a missing and an empty id.
unfoldable pub add_job : List String → Option String → List String
add_job xs none = xs
add_job xs (some x) = if is_empty x then xs else if includes xs x then xs else xs ++ x ∷ []

-- `opts?.q?.trim().toLowerCase()`.
abbrev pub search_text : (lower : String → String) → Option String → Option String
unfolding trim
search_text lower none = none
search_text lower (some q) = some (lower (trim q))

module _ {ℓ} {S : Type ℓ} where
  abbrev pub ids_of : Option (EntityIndexEntry S) → List String
  ids_of none = []
  ids_of (some prev) = prev.dossier_ids

  abbrev pub jobs_of : Option (EntityIndexEntry S) → List String
  jobs_of none = []
  jobs_of (some prev) = prev.job_ids

  abbrev pub stats_of : Option (EntityIndexEntry S) → Option S
  stats_of none = none
  stats_of (some prev) = prev.stats

  unfoldable pub upserted :
      Option (EntityIndexEntry S) → UpsertInput S → (now : ℕ) → EntityIndexEntry S
  unfolding add_id add_job
  upserted prev input now = record {
    entity_id = input.entity_id;
    case_ref = input.case_ref;
    value = input.value;
    kind = input.kind;
    latest_dossier_id = input.dossier_id;
    dossier_ids = add_id (ids_of prev) input.dossier_id;
    job_ids = add_job (jobs_of prev) input.job_id;
    updated_at = now;
    stats = elim input.stats [ none ↦ stats_of prev | some stats ↦ some stats ];
  }

  unfoldable pub get_entity_index :
      (case_ref entity_id : String) → Cases (EntityIndexEntry S) → Option (EntityIndexEntry S)
  unfolding read_case_file sanitize_case_path
  get_entity_index case_ref entity_id tree =
      read_case_file tree (sanitize_case_path case_ref) (index_file entity_id)

  unfoldable pub upsert_entity_index :
      UpsertInput S
      → (now : ℕ) → Cases (EntityIndexEntry S)
      → EntityIndexEntry S × Cases (EntityIndexEntry S)
  unfolding upserted read_case_file write_case_file sanitize_case_path
  upsert_entity_index input now tree =
      let dir = sanitize_case_path input.case_ref in
      let entry = upserted (read_case_file tree dir (index_file input.entity_id)) input now in
      (entry, write_case_file tree dir (index_file input.entity_id) entry)

  module _ (lower : String → String) (contains : String → String → Bool) where
    -- `q && !value.includes(q) && !id.includes(q)` is false.
    abbrev pub matches_search : Option String → EntityIndexEntry S → Bool
    matches_search none entry = true
    matches_search (some q) entry =
        is_empty q || contains (lower entry.value) q || contains entry.entity_id q

    -- `caseRef && entry.caseRef !== caseRef` is false.
    abbrev pub of_case : Option String → EntityIndexEntry S → Bool
    of_case none entry = true
    of_case (some case_ref) entry = is_empty case_ref || str_eq entry.case_ref case_ref

    -- The two loops of `listEntityIndex`, over the directories and over the files of one.
    unfoldable pub collect_files :
        ListInput
        → Option String
        → (dir : String) → List String
        → Cases (EntityIndexEntry S)
        → List (EntityIndexEntry S)
    unfolding read_case_file
    collect_files opts q dir [] tree = []
    collect_files opts q dir (file ∷ files) tree =
        let rest = collect_files opts q dir files tree in
        elim (read_case_file tree dir file) [
          | none ↦ rest
          | some entry ↦
              if of_case opts.case_ref entry && matches_search q entry then entry ∷ rest else rest
        ]

    unfoldable pub collect_dirs :
        ListInput
        → Option String
        → List String
        → Cases (EntityIndexEntry S)
        → List (EntityIndexEntry S)
    unfolding collect_files
    collect_dirs opts q [] tree = []
    collect_dirs opts q (dir ∷ dirs) tree =
        collect_files opts q dir (list_json_files (case_dir tree dir)) tree
        ++ collect_dirs opts q dirs tree

    -- `opts?.caseRef ? [sanitizeCasePath(opts.caseRef)] : await listEntityCaseDirs()`.
    abbrev pub dirs_of : Option String → Cases (EntityIndexEntry S) → List String
    dirs_of none tree = list_case_dirs tree
    dirs_of (some case_ref) tree =
        if is_empty case_ref then list_case_dirs tree else sanitize_case_path case_ref ∷ []

    abbrev pub newer_entry : EntityIndexEntry S → EntityIndexEntry S → Bool
    newer_entry a b = leb b.updated_at a.updated_at

    unfoldable pub list_entity_index :
        ListInput → Cases (EntityIndexEntry S) → List (EntityIndexEntry S)
    unfolding collect_dirs trim
    list_entity_index opts tree =
        let size = get_or opts.limit 40 in
        let q = search_text lower opts.q in
        take (if size == 0 then 1 else size)
          (sort_by newer_entry (collect_dirs opts q (dirs_of opts.case_ref tree) tree))
