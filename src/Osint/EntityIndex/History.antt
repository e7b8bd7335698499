-- ===== src/Osint/EntityIndex/History.antt =====
-- What the index has of an entity after any upserts, in terms of their history.
use mathlib.Core.Path.{subst}
use ocrowley_commons.Common.{
  Bool, Bool-cases, List, Option, String, [], ap, append_assoc, append_nil, arith, eq_refl, filter,
  if_true, if◌then◌else◌, inl, inr, is_empty, keep_new, keep_new-snoc, last?, last?-append, map,
  map-append, none, refl, some, str_cases, str_eq, sym, ℕ, ◌&&◌, ◌++◌, ◌∙◌, ◌∷◌, ◌≡◌,
}
use ocrowley_commons.Persistence.{read_file, read_json_file}
use ocrowley_commons.Osint.Cases.{Cases, read-write_case_json, read_case_file, sanitize_case_path}
use ocrowley_commons.Osint.EntityIndex.{
  EntityIndexEntry, UpsertInput, add_id, add_job, get_entity_index, ids_of, index_file, jobs_of,
  upsert_entity_index, upserted,
}

abbrev pub given_job : Option String → List String
given_job none = []
given_job (some x) = if is_empty x then [] else x ∷ []

add_id-keep_new :
    (xs : List String) (x : String)
    → add_id (keep_new (λ s. s) [] xs) x ≡ keep_new (λ s. s) [] (xs ++ x ∷ [])
unfolding add_id
add_id-keep_new xs x = sym (keep_new-snoc [] xs x)

add_job-keep_new :
    (xs : List String) (job : Option String)
    → add_job (keep_new (λ s. s) [] xs) job ≡ keep_new (λ s. s) [] (xs ++ given_job job)
unfolding add_job
add_job-keep_new xs none = rw append_nil refl
add_job-keep_new xs (some x) = elim (Bool-cases (is_empty x)) [
  | inl empty ↦ rw (empty, append_nil) refl
  | inr given ↦ rw given (sym (keep_new-snoc [] xs x))
]

where_same {κ} :
    {B : Type κ} (c d s t : String) (f : String → String → B) (z : B)
    → (if str_eq c d && str_eq s t then f c s else z)
      ≡ (if str_eq c d && str_eq s t then f d t else z)
where_same c d s t f z = elim (str_cases c d) [
  | inl e ↦ elim (str_cases s t) [ inl h ↦ rw (e, h) refl | inr h ↦ rw (e, h) (ground arith) ]
  | inr e ↦ rw e refl
]

module _ {ℓ} {S : Type ℓ} where
  -- Upserts in a row, each with the time of its entry.
  abbrev pub upsert_all :
      List (UpsertInput S × ℕ) → Cases (EntityIndexEntry S) → Cases (EntityIndexEntry S)
  upsert_all [] tree = tree
  upsert_all ((input, now) ∷ inputs) tree = upsert_all inputs (upsert_entity_index input now tree).1

  -- The upserts that concern one entity of one case directory.
  abbrev pub concerns : (case_ref entity_id : String) → UpsertInput S × ℕ → Bool
  concerns case_ref entity_id (input, now) =
      str_eq (sanitize_case_path input.case_ref) (sanitize_case_path case_ref)
      && str_eq input.entity_id entity_id

  abbrev pub given_jobs : List (UpsertInput S × ℕ) → List String
  given_jobs [] = []
  given_jobs ((input, now) ∷ inputs) = given_job input.job_id ++ given_jobs inputs

  abbrev pub latest_of : Option (EntityIndexEntry S) → Option (String × ℕ)
  latest_of none = none
  latest_of (some entry) = some (entry.latest_dossier_id, entry.updated_at)

  -- What an entry is for a history of upserts: every dossier and every job once, in the order of
  -- their first upserts, and the dossier and the time of the last upsert.
  pub record Describes (history : List (UpsertInput S × ℕ)) (entry : Option (EntityIndexEntry S))
      : Type 0 where
    pub dossiers : ids_of entry ≡ keep_new (λ s. s) [] (map (λ h. h.0.dossier_id) history)
    pub jobs : jobs_of entry ≡ keep_new (λ s. s) [] (given_jobs history)
    pub latest : latest_of entry ≡ last? (map (λ h. (h.0.dossier_id, h.1)) history)

  given_jobs-snoc :
      (history : List (UpsertInput S × ℕ)) (input : UpsertInput S) (now : ℕ)
      → given_jobs (history ++ (input, now) ∷ []) ≡ given_jobs history ++ given_job input.job_id
  given_jobs-snoc [] input now = append_nil (given_job input.job_id)
  given_jobs-snoc ((i, t) ∷ history) input now =
      ap (λ js. given_job i.job_id ++ js) (given_jobs-snoc history input now)
      ∙ sym (append_assoc (given_job i.job_id) (given_jobs history) (given_job input.job_id))

  upserted-Describes :
      (history : List (UpsertInput S × ℕ)) (prev : Option (EntityIndexEntry S))
      (input : UpsertInput S) (now : ℕ)
      → Describes history prev
      → Describes (history ++ (input, now) ∷ []) (some (upserted prev input now))
  unfolding upserted
  upserted-Describes history prev input now d = record {
    dossiers =
        ap (λ ids. add_id ids input.dossier_id) d.dossiers
        ∙ add_id-keep_new (map (λ h. h.0.dossier_id) history) input.dossier_id
        ∙ ap (keep_new (λ s. s) []) (sym (map-append (λ h. h.0.dossier_id) history _));
    jobs =
        ap (λ ids. add_job ids input.job_id) d.jobs
        ∙ add_job-keep_new (given_jobs history) input.job_id
        ∙ ap (keep_new (λ s. s) []) (sym (given_jobs-snoc history input now));
    latest = sym (
        ap last? (map-append (λ h. (h.0.dossier_id, h.1)) history _)
        ∙ last?-append (map (λ h. (h.0.dossier_id, h.1)) history) (input.dossier_id, now));
  }

  pub get-upsert :
      (input : UpsertInput S) (now : ℕ) (tree : Cases (EntityIndexEntry S))
      (case_ref entity_id : String)
      → get_entity_index case_ref entity_id (upsert_entity_index input now tree).1 ≡ (
          if concerns case_ref entity_id (input, now)
          then some (upserted (get_entity_index case_ref entity_id tree) input now)
          else get_entity_index case_ref entity_id tree)
  unfolding get_entity_index upsert_entity_index
  get-upsert input now tree case_ref entity_id =
      let dir = sanitize_case_path input.case_ref in
      let read : String → String → Option (EntityIndexEntry S) =
        λ d e. read_case_file tree d (index_file e) in
      read-write_case_json tree dir (sanitize_case_path case_ref) input.entity_id entity_id
        (upserted (read dir input.entity_id) input now)
      ∙ where_same dir (sanitize_case_path case_ref) input.entity_id entity_id
          (λ d e. some (upserted (read d e) input now))
          (read (sanitize_case_path case_ref) entity_id)

  -- What was upserted last is the latest dossier.
  pub latest-upsert :
      (input : UpsertInput S) (now : ℕ) (tree : Cases (EntityIndexEntry S))
      → latest_of
          (get_entity_index input.case_ref input.entity_id (upsert_entity_index input now tree).1)
        ≡ some (input.dossier_id, now)
  unfolding upserted
  latest-upsert input now tree = ap latest_of (
      get-upsert input now tree input.case_ref input.entity_id
      ∙ if_true (concerns input.case_ref input.entity_id (input, now)) _ _
          (ground (arith, eq_refl (sanitize_case_path input.case_ref), eq_refl input.entity_id)))

  -- The index after upserts, from where it describes what came before.
  upsert_all-Describes :
      (done inputs : List (UpsertInput S × ℕ)) (tree : Cases (EntityIndexEntry S))
      (case_ref entity_id : String)
      → Describes done (get_entity_index case_ref entity_id tree)
      → Describes
          (done ++ filter (concerns case_ref entity_id) inputs)
          (get_entity_index case_ref entity_id (upsert_all inputs tree))
  upsert_all-Describes done [] tree case_ref entity_id d = rw append_nil d
  upsert_all-Describes done ((input, now) ∷ inputs) tree case_ref entity_id d =
      let next = (upsert_entity_index input now tree).1 in
      let rest = λ (more : List (UpsertInput S × ℕ)).
        upsert_all-Describes more inputs next case_ref entity_id in
      elim (Bool-cases (concerns case_ref entity_id (input, now))) [
        | inl hit ↦ rw hit (
            subst (λ h. Describes h (get_entity_index case_ref entity_id (upsert_all inputs next)))
              (append_assoc done ((input, now) ∷ []) (filter (concerns case_ref entity_id) inputs))
              (rest (done ++ (input, now) ∷ []) (
                rw (get-upsert, hit)
                  (upserted-Describes done (get_entity_index case_ref entity_id tree) input now
                    d))))
        | inr miss ↦ rw miss (rest done (rw (get-upsert, miss) d))
      ]

  empty_index :
      (case_ref entity_id : String) → Describes [] (get_entity_index {S = S} case_ref entity_id [])
  unfolding get_entity_index keep_new read_json_file read_file read_case_file
  empty_index case_ref entity_id = record { dossiers = refl; jobs = refl; latest = refl }

  -- After any upserts into an empty index, what it has of an entity of a case is described by the
  -- upserts of that entity into that case's directory, in their order, and by no others.
  pub upsert_history :
      (inputs : List (UpsertInput S × ℕ)) (case_ref entity_id : String)
      → Describes
          (filter (concerns case_ref entity_id) inputs)
          (get_entity_index case_ref entity_id (upsert_all inputs []))
  upsert_history inputs case_ref entity_id =
      upsert_all-Describes [] inputs [] case_ref entity_id (empty_index case_ref entity_id)
