-- ===== src/Jobs/Store.antt =====
-- The store of the jobs: what it always satisfies, and what `get` and `list` read in it.
use ocrowley_commons.Common.{
  All, Bool, Bool-cases, List, Memᴰ, String, [], ap, arith, ends_with, false, filter, filter-mem,
  if◌then◌else◌, includes, inl, inr, map, mem-filter, mem-sort_by, refl, some, sort_by, sort_by-mem,
  str_eq, str_ne, sym, true, ℕ, ◌&&◌, ◌∷◌, ◌≡◌,
}
use ocrowley_commons.Persistence.{
  list_json_files, read_file, read_json_file, tmp_name, write_file, write_json_file,
}
use ocrowley_commons.Persistence.Laws.{
  DistinctNames, ends_with-json, json-ne-tmp, json_name-injective, names, read-write_json,
  read_file-All, read_file_entries, write_file-All, write_file-DistinctNames, write_json_file-eq,
}
use ocrowley_commons.Jobs.{CaspaJob}
use ocrowley_commons.Jobs.Service.{
  ListOptions, Patch, Store, collect, get, job_file, list, newer_first, passes, patch,
}

module _ {ℓ} {V : Type ℓ} where
  -- Every job lies in the file that its id names, and no two files share a name.
  pub record IsKeyed (store : Store V) : Type ℓ where
    pub keyed : All (λ e. e.0 ≡ job_file e.1.id) store
    pub distinct : DistinctNames store

  pub get-id :
      (store : Store V) (id : String) (job : CaspaJob V)
      → IsKeyed store
      → get id store ≡ some job
      → job.id ≡ id
  unfolding get read_json_file
  get-id store id job k h = sym (
      json_name-injective id job.id
        (read_file-All (λ e. e.0 ≡ job_file e.1.id) store (job_file id) job k.keyed h))

  no_tmp :
      (store : Store V) (id : String)
      → All (λ e. e.0 ≡ job_file e.1.id) store
      → includes (names store) (tmp_name (job_file id)) ≡ false
  no_tmp [] id k = refl
  no_tmp ((n, job) ∷ store) id k =
      let other : str_eq n (tmp_name (job_file id)) ≡ false =
        rw k.0 (str_ne _ _ (json-ne-tmp job.id (job_file id))) in
      ground (arith, no_tmp store id k.1)

  -- In a keyed store a job is written by a plain write.
  pub write_job :
      (store : Store V) (id : String) (job : CaspaJob V)
      → IsKeyed store
      → write_json_file store (job_file id) job ≡ write_file store (job_file id) job
  write_job store id job k = write_json_file-eq store (job_file id) job (no_tmp store id k.keyed)

  pub write_job-IsKeyed :
      (store : Store V) (job : CaspaJob V)
      → IsKeyed store
      → IsKeyed (write_json_file store (job_file job.id) job)
  write_job-IsKeyed store job k = rw (write_job store job.id job k) (record {
    keyed = write_file-All (λ e. e.0 ≡ job_file e.1.id) store (job_file job.id) job k.keyed refl;
    distinct = write_file-DistinctNames store (job_file job.id) job k.distinct;
  })

  pub get-write_job :
      (store : Store V) (id j : String) (job : CaspaJob V)
      → get j (write_json_file store (job_file id) job)
        ≡ (if str_eq id j then some job else get j store)
  unfolding get
  get-write_job store id j job = read-write_json store id j job

  -- The jobs of a store, in the order of the directory.
  abbrev pub jobs : Store V → List (CaspaJob V)
  jobs store = map (λ e. e.1) store

  abbrev pub selects : ListOptions → CaspaJob V → Bool
  selects opts job =
      passes opts.project_id job.project_id
      && passes opts.user_id job.user_id
      && passes opts.kind (some job.kind)

  collect-eq-filter :
      (opts : ListOptions) (store part : Store V)
      → All (λ e. read_file store e.0 ≡ some e.1) part
      → All (λ e. e.0 ≡ job_file e.1.id) part
      → collect opts store (list_json_files part) ≡ filter (selects opts) (jobs part)
  unfolding collect list_json_files read_json_file
  collect-eq-filter opts store [] r k = refl
  collect-eq-filter opts store ((n, job) ∷ part) r k =
      let json : ends_with n ".json" ≡ true = rw k.0 (ends_with-json job.id) in
      ground (arith, collect-eq-filter opts store part)

  -- `list` gives the selected jobs, the most recently updated first.
  pub list-eq-sort_by :
      (opts : ListOptions) (store : Store V)
      → IsKeyed store
      → list opts store ≡ sort_by newer_first (filter (selects opts) (jobs store))
  unfolding list
  list-eq-sort_by opts store k =
      ap (sort_by newer_first)
        (collect-eq-filter opts store store (read_file_entries store k.distinct) k.keyed)

  pub mem-list :
      (opts : ListOptions) (store : Store V) (job : CaspaJob V)
      → IsKeyed store
      → Memᴰ job (list opts store)
      → Memᴰ job (jobs store) × (selects opts job ≡ true)
  mem-list opts store job k m =
      mem-filter (selects opts) (jobs store) job
        (mem-sort_by newer_first _ job (rw (list-eq-sort_by opts store k) at m))

  pub list-mem :
      (opts : ListOptions) (store : Store V) (job : CaspaJob V)
      → IsKeyed store
      → Memᴰ job (jobs store)
      → selects opts job ≡ true
      → Memᴰ job (list opts store)
  list-mem opts store job k m h =
      rw (list-eq-sort_by opts store k)
        (sort_by-mem newer_first _ job (filter-mem (selects opts) (jobs store) job m h))

  get-mem_part :
      (store part : Store V) (job : CaspaJob V)
      → All (λ e. read_file store e.0 ≡ some e.1) part
      → All (λ e. e.0 ≡ job_file e.1.id) part
      → Memᴰ job (jobs part)
      → get job.id store ≡ some job
  unfolding get read_json_file
  get-mem_part store [] job r k m = elim m [ ]
  get-mem_part store ((n, j) ∷ part) job r k (Memᴰ.head e) = rw (e, ← k.0) r.0
  get-mem_part store ((n, j) ∷ part) job r k (Memᴰ.tail m) = get-mem_part store part job r.1 k.1 m

  -- A job of the store is what `get` finds under its id.
  pub get-mem :
      (store : Store V) (job : CaspaJob V)
      → IsKeyed store
      → Memᴰ job (jobs store)
      → get job.id store ≡ some job
  get-mem store job k m =
      get-mem_part store store job (read_file_entries store k.distinct) k.keyed m

  mem-read :
      (store : Store V) (n : String) (job : CaspaJob V)
      → read_file store n ≡ some job
      → Memᴰ job (jobs store)
  unfolding read_file
  mem-read [] n job h = cc
  mem-read ((m, j) ∷ store) n job h = elim (Bool-cases (str_eq m n)) [
    | inl same ↦ let value : j ≡ job = ground arith in Memᴰ.head (sym value)
    | inr other ↦ Memᴰ.tail (mem-read store n job (ground arith))
  ]

  pub mem-get :
      (store : Store V) (id : String) (job : CaspaJob V)
      → get id store ≡ some job
      → Memᴰ job (jobs store)
  unfolding get read_json_file
  mem-get store id job h = mem-read store (job_file id) job h

  -- What a patch of a stored job leaves in the store.
  pub get-patch :
      (id j : String) (change : Patch V) (now : ℕ) (store : Store V) (job : CaspaJob V)
      → get id store ≡ some job
      → (change job).id ≡ id
      → get j (patch id change now store).1
        ≡ (if str_eq id j then some (record (change job) { updated_at = now }) else get j store)
  unfolding patch
  get-patch id j change now store job found same = rw (found, patch, get-write_job, same)

  pub patch_lem :
      (id : String) (change : Patch V) (now : ℕ) (store : Store V) (job : CaspaJob V)
      → get id store ≡ some job
      → patch id change now store ≡ (
        some (record (change job) { updated_at = now }),
        write_json_file store (job_file (change job).id) (record (change job) { updated_at = now }),
      )
  unfolding patch
  patch_lem id change now store job found = rw (found, patch)
