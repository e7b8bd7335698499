-- ===== src/Persistence/LocalStore/Update.antt =====
-- The collections as maps of ids to documents.
use ocrowley_commons.Common.{
  Bool, Bool-cases, List, Option, String, [], arith, eq_refl, false, filter, if◌then◌else◌,
  includes, inl, inr, none, not, some, str_eq, str_ne, true, ◌++◌, ◌∙◌, ◌∷◌, ◌≡◌, ◌≢◌,
}
use ocrowley_commons.Persistence.{read_file, unlink, write_file}
use ocrowley_commons.Persistence.Laws.{read-unlink, read-write_file}
use ocrowley_commons.Persistence.LocalStore.{
  Storage, Stored, collection, doc_key, get_index, index_key, ls_delete_doc, ls_upsert_doc,
  set_item,
}
use ocrowley_commons.Persistence.LocalStore.Documents.{
  IsCollection, doc_key-eq, get_index-set, get_index-write, included_other, includes-snoc,
  includes-without, pushed, read-collection, read-written, read_new, upsert_new, upsert_old,
}

pushed_index-ordinary :
    (ids : List String) (id : String)
    → includes ids "__index" ≡ false
    → id ≢ "__index"
    → includes (ids ++ id ∷ []) "__index" ≡ false
pushed_index-ordinary ids id ordinary h =
    ground (arith, includes-snoc ids id "__index", str_ne id "__index" h)

module _ {ℓ} {A : Type ℓ} where
  -- The collection of `t` is that of `s` with `found` under `id`, and `t` is fit for more calls.
  abbrev pub IsEdit : (s t : Storage A) (coll id : String) (found : Option (Stored A)) → Type ℓ
  IsEdit s t coll id found =
      IsCollection t coll
      × ((m : String)
          → read_file (collection t coll) m
            ≡ (if str_eq id m then found else read_file (collection s coll) m))

  read_old :
      (s : Storage A) (coll id m : String) (ids : List String) (v : Stored A)
      → id ≢ "__index"
      → get_index s coll ≡ some ids
      → includes ids id ≡ true
      → read_file (collection (write_file s (doc_key coll id) v) coll) m
        ≡ (if str_eq id m then some v else read_file (collection s coll) m)
  read_old s coll id m ids v h index old =
      ground (arith, read-written s coll id m ids v h index old, read-collection s coll ids m index)

  module _ (fits : Storage A → String → Stored A → Bool)
      (room : (s : Storage A) (name : String) (v : Stored A) → fits s name v ≡ true) where
    upsert_doc_lem :
        (s : Storage A) (coll id : String) (doc : A)
        → IsCollection s coll
        → id ≢ "__index"
        → (t : Storage A) × (ls_upsert_doc fits s coll id doc ≡ some t)
          × IsEdit s t coll id (some (Stored.doc_value doc))
    upsert_doc_lem s coll id doc (ids, index, ordinary) h = elim (Bool-cases (includes ids id)) [
      | inl old ↦ (
        write_file s (doc_key coll id) (Stored.doc_value doc),
        upsert_old fits room s coll id doc ids index old,
        (
          (ids, get_index-write s coll id (Stored.doc_value doc) h ∙ index, ordinary),
          λ m. read_old s coll id m ids (Stored.doc_value doc) h index old,
        ),
      )
      | inr new ↦
          let kept =
            get_index-write (pushed fits room s coll id ids) coll id (Stored.doc_value doc) h
            ∙ get_index-set s coll (ids ++ id ∷ []) in
          (
            write_file (pushed fits room s coll id ids) (doc_key coll id) (Stored.doc_value doc),
            upsert_new fits room s coll id doc ids index new,
            (
              (ids ++ id ∷ [], kept, pushed_index-ordinary ids id ordinary h),
              λ m. read_new fits room s coll id m ids (Stored.doc_value doc) h index ordinary,
            ),
          )
    ]

    abbrev without : (id : String) → List String → List String
    without id ids = filter (λ i. not (str_eq i id)) ids

    abbrev shrunk : Storage A → (coll id : String) → List String → Storage A
    shrunk s coll id ids = write_file s (index_key coll) (Stored.index_value (without id ids))

    delete_result :
        (s : Storage A) (coll id : String) (ids : List String)
        → get_index s coll ≡ some ids
        → ls_delete_doc fits s coll id ≡ some (unlink (shrunk s coll id ids) (doc_key coll id))
    unfolding ls_delete_doc set_item
    delete_result s coll id ids index =
        ground (arith, index, room s (index_key coll) (Stored.index_value (without id ids)))

    deleted_index :
        (s : Storage A) (coll id : String) (ids : List String)
        → id ≢ "__index"
        → get_index (unlink (shrunk s coll id ids) (doc_key coll id)) coll ≡ some (without id ids)
    unfolding get_index
    deleted_index s coll id ids h = ground (
      arith,
      read-unlink (shrunk s coll id ids) (doc_key coll id) (index_key coll),
      doc_key-eq coll id "__index",
      str_ne id "__index" h,
      read-write_file s (index_key coll) (index_key coll) (Stored.index_value (without id ids)),
      eq_refl (index_key coll),
    )

    read_deleted :
        (s : Storage A) (coll id m : String) (ids : List String)
        → id ≢ "__index"
        → get_index s coll ≡ some ids
        → includes ids "__index" ≡ false
        → read_file (collection (unlink (shrunk s coll id ids) (doc_key coll id)) coll) m
          ≡ (if str_eq id m then none else read_file (collection s coll) m)
    read_deleted s coll id m ids h index ordinary = ground (
      arith,
      read-collection (unlink (shrunk s coll id ids) (doc_key coll id)) coll (without id ids) m
          (deleted_index s coll id ids h),
      includes-without ids id m,
      read-collection s coll ids m index,
      included_other ids m ordinary,
      read-unlink (shrunk s coll id ids) (doc_key coll id) (doc_key coll m),
      doc_key-eq coll id m,
      read-write_file s (index_key coll) (doc_key coll m) (Stored.index_value (without id ids)),
      doc_key-eq coll "__index" m,
    )

    -- Where every write has room, and the index of a collection is a list without the id "__index":
    -- for every other id, lsUpsertDoc and lsDeleteDoc return, the index stays such a list, and the
    -- collection then has the document, or nothing, under that id, and under every other id what it had.
    pub update_doc_lem :
        (s : Storage A) (coll id : String) (doc : A)
        → IsCollection s coll
        → id ≢ "__index"
        → ((t : Storage A) × (ls_upsert_doc fits s coll id doc ≡ some t)
            × IsEdit s t coll id (some (Stored.doc_value doc)))
          × ((t : Storage A) × (ls_delete_doc fits s coll id ≡ some t) × IsEdit s t coll id none)
    update_doc_lem s coll id doc (ids, index, ordinary) h = (
      upsert_doc_lem s coll id doc (ids, index, ordinary) h,
      (
        unlink (shrunk s coll id ids) (doc_key coll id),
        delete_result s coll id ids index,
        (
          (
            without id ids,
            deleted_index s coll id ids h,
            ground (arith, includes-without ids id "__index"),
          ),
          λ m. read_deleted s coll id m ids h index ordinary,
        ),
      ),
    )
