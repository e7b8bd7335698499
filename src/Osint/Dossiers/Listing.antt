-- ===== src/Osint/Dossiers/Listing.antt =====
-- What a listing of dossiers has.
use ocrowley_commons.Common.{
  All, All-append, All-of_mem, All-tabulate, Bool, Bool-cases, IsOrder, IsSortedBy, List, Memᴰ,
  Option-cases, String, [], ap, arith, eq_iff, false, if◌then◌else◌, inl, inr, is_empty, length,
  length-take, refl, some, sort_by, sort_by-All, sort_by-IsSortedBy, sort_by-mem, str_eq, suc, sym,
  take, take-All, take-IsSortedBy, true, zero, ℕ, ◌++◌, ◌==◌, ◌∙◌, ◌∷◌, ◌≡◌, ◌≤◌, ◌⊎◌,
}
use ocrowley_commons.Osint.Cases.{Cases, case_dir, read_case_file, sanitize_case_path}
use ocrowley_commons.Persistence.{list_json_files}
use ocrowley_commons.Osint.Dossiers.{
  DossierSummary, StoredDossier, all_summaries, case_dirs, list_dossiers, newer_summary,
  summaries_of, summary,
}

newer_summary-IsOrder : IsOrder newer_summary
newer_summary-IsOrder = record { total = λ a b h. ground arith; trans = λ a b c h k. ground arith }

-- The newest first.
abbrev pub NewestFirst : List DossierSummary → Type 0
NewestFirst [] = Unit
NewestFirst (s ∷ ss) = All (λ (t : DossierSummary). t.saved_at ≤ s.saved_at) ss × NewestFirst ss

older-All :
    (s : DossierSummary) (ss : List DossierSummary)
    → All (λ t. newer_summary s t ≡ true) ss
    → All (λ (t : DossierSummary). t.saved_at ≤ s.saved_at) ss
older-All s [] h = tt
older-All s (t ∷ ss) h = (ground arith, older-All s ss h.1)

sorted-NewestFirst : (ss : List DossierSummary) → IsSortedBy newer_summary ss → NewestFirst ss
sorted-NewestFirst [] h = tt
sorted-NewestFirst (s ∷ ss) h = (older-All s ss h.0, sorted-NewestFirst ss h.1)

newer-All :
    (s : DossierSummary) (ss : List DossierSummary)
    → All (λ t. newer_summary t s ≡ true) ss
    → All (λ (t : DossierSummary). s.saved_at ≤ t.saved_at) ss
newer-All s [] h = tt
newer-All s (t ∷ ss) h = (ground arith, newer-All s ss h.1)

module _ {ℓ} {A : Type ℓ} where
  append-mem : (xs ys : List A) (a : A) → Memᴰ a xs → Memᴰ a (xs ++ ys)
  append-mem [] ys a m = elim m [ ]
  append-mem (x ∷ xs) ys a (Memᴰ.head e) = Memᴰ.head e
  append-mem (x ∷ xs) ys a (Memᴰ.tail m) = Memᴰ.tail (append-mem xs ys a m)

  -- An element of a sorted list is among the first `n`, or there are `n` that go before it.
  take-mem_or :
      (le : A → A → Bool) (n : ℕ) (xs : List A) (a : A)
      → IsSortedBy le xs
      → Memᴰ a xs
      → Memᴰ a (take n xs) ⊎ ((length (take n xs) ≡ n) × All (λ x. le x a ≡ true) (take n xs))
  take-mem_or le zero xs a h m = inr (refl, tt)
  take-mem_or le (suc n) [] a h m = elim m [ ]
  take-mem_or le (suc n) (x ∷ xs) a h (Memᴰ.head e) = inl (Memᴰ.head e)
  take-mem_or le (suc n) (x ∷ xs) a h (Memᴰ.tail m) = elim (take-mem_or le n xs a h.1 m) [
    | inl kept ↦ inl (Memᴰ.tail kept)
    | inr (size, before) ↦ inr (ap suc size, (All-of_mem (λ y. le x y ≡ true) xs h.0 a m, before))
  ]

-- How many dossiers a limit allows.
abbrev pub size_of : (limit : ℕ) → ℕ
size_of limit = if limit == 0 then 1 else limit

module _ {R : Type 0} (case_ref : String) (given : is_empty case_ref ≡ false)
    (tree : Cases (StoredDossier R)) where
  -- A dossier of that case reference in a JSON file of its directory.
  abbrev pub Holds : (file : String) → StoredDossier R → Type 0
  Holds file entry =
      Memᴰ file (list_json_files (case_dir tree (sanitize_case_path case_ref)))
      × (read_case_file tree (sanitize_case_path case_ref) file ≡ some entry)
      × (entry.case_ref ≡ case_ref)

  abbrev pub IsHeld : DossierSummary → Type 0
  IsHeld s = (file : String) × (entry : StoredDossier R) × Holds file entry × (s ≡ summary entry)

  module _ (all_files : List String)
      (named : list_json_files (case_dir tree (sanitize_case_path case_ref)) ≡ all_files) where
    summaries_of-IsHeld :
        (files : List String)
        → All (λ f. Memᴰ f all_files) files
        → All IsHeld (summaries_of (some case_ref) (sanitize_case_path case_ref) files tree)
    unfolding summaries_of
    summaries_of-IsHeld [] h = tt
    summaries_of-IsHeld (file ∷ files) h =
        let rest = summaries_of-IsHeld files h.1 in
        let dir = sanitize_case_path case_ref in
        elim (Option-cases (read_case_file tree dir file)) [
          | inl gone ↦ rw (summaries_of, gone) rest
          | inr (entry, found) ↦ elim (Bool-cases (str_eq entry.case_ref case_ref)) [
            | inl same ↦
                rw (summaries_of, found, given, same)
                  (
                    (
                      file,
                      entry,
                      (rw named h.0, found, (eq_iff entry.case_ref case_ref).0 same),
                      refl,
                    ),
                    rest,
                  )
            | inr other ↦ rw (summaries_of, found, given, other) rest
          ]
        ]

  mem-summaries_of :
      (files : List String) (file : String) (entry : StoredDossier R)
      → Memᴰ file files
      → read_case_file tree (sanitize_case_path case_ref) file ≡ some entry
      → entry.case_ref ≡ case_ref
      → Memᴰ (summary entry) (summaries_of (some case_ref) (sanitize_case_path case_ref) files tree)
  unfolding summaries_of
  mem-summaries_of [] file entry m found same = elim m [ ]
  mem-summaries_of (f ∷ files) file entry (Memᴰ.head e) found same =
      let here = ap (read_case_file tree (sanitize_case_path case_ref)) (sym e) ∙ found in
      let is : str_eq entry.case_ref case_ref ≡ true = (eq_iff entry.case_ref case_ref).1 same in
      rw (summaries_of, here, given, is) (Memᴰ.head refl)
  mem-summaries_of (f ∷ files) file entry (Memᴰ.tail m) found same =
      let rest = mem-summaries_of files file entry m found same in
      elim (Option-cases (read_case_file tree (sanitize_case_path case_ref) f)) [
        | inl gone ↦ rw (summaries_of, gone) rest
        | inr (other, there) ↦ elim (Bool-cases (str_eq other.case_ref case_ref)) [
          | inl listed ↦ rw (summaries_of, there, given, listed) (Memᴰ.tail rest)
          | inr not_listed ↦ rw (summaries_of, there, given, not_listed) rest
        ]
      ]

  all_found : List DossierSummary
  all_found = all_summaries (some case_ref) (case_dirs (some case_ref) tree) tree

  in_one_dir :
      all_found
      ≡ summaries_of
          (some case_ref)
          (sanitize_case_path case_ref)
          (list_json_files (case_dir tree (sanitize_case_path case_ref)))
          tree
        ++ []
  unfolding all_found all_summaries
  in_one_dir = rw given refl

  All-self : (files : List String) → All (λ f. Memᴰ f files) files
  All-self files = All-tabulate _ files (λ f m. m)

  all_found-IsHeld : All IsHeld all_found
  all_found-IsHeld = rw in_one_dir (
      All-append IsHeld _ []
        (summaries_of-IsHeld (list_json_files (case_dir tree (sanitize_case_path case_ref))) refl _
          (All-self _))
        tt)

  all_found-mem :
      (file : String) (entry : StoredDossier R) → Holds file entry → Memᴰ (summary entry) all_found
  all_found-mem file entry (m, found, same) =
      rw in_one_dir (append-mem _ [] (summary entry) (mem-summaries_of _ file entry m found same))

  -- A listing of one case, by a reference that is not empty, has at most as many dossiers as the limit says, and at most one where it says 0,
  -- the latest saved first; each is that of a JSON file in the directory of the case whose record has
  -- that very case reference, which may share its directory with others; and of every such file the
  -- dossier is listed, or there are as many as the limit allows and none of them was saved earlier.
  pub list_dossiers_lem :
      (limit : ℕ)
      → (length (list_dossiers (some case_ref) (some limit) tree) ≤ size_of limit)
        × NewestFirst (list_dossiers (some case_ref) (some limit) tree)
        × All IsHeld (list_dossiers (some case_ref) (some limit) tree)
        × ((file : String) (entry : StoredDossier R)
            → Holds file entry
            → Memᴰ (summary entry) (list_dossiers (some case_ref) (some limit) tree)
              ⊎ ((length (list_dossiers (some case_ref) (some limit) tree) ≡ size_of limit)
                  × All
                      (λ (t : DossierSummary). entry.saved_at ≤ t.saved_at)
                      (list_dossiers (some case_ref) (some limit) tree)))
  unfolding list_dossiers all_found
  list_dossiers_lem limit =
      let sorted = sort_by newer_summary all_found in
      let in_order = sort_by-IsSortedBy newer_summary newer_summary-IsOrder all_found in
      (
        length-take (size_of limit) sorted,
        sorted-NewestFirst _ (take-IsSortedBy newer_summary (size_of limit) sorted in_order),
        take-All IsHeld (size_of limit) sorted
            (sort_by-All newer_summary IsHeld all_found all_found-IsHeld),
        λ file entry h.
            elim (take-mem_or newer_summary (size_of limit) sorted (summary entry) in_order
              (sort_by-mem newer_summary all_found (summary entry) (all_found-mem file entry h))) [
                | inl listed ↦ inl listed
                | inr (size, before) ↦ inr (size, newer-All (summary entry) _ before)
              ],
      )
