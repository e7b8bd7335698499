-- ===== src/Persistence/LocalStore/Documents.antt =====
-- What a collection holds after a document is written or deleted.
use text.Mathlib.TextLemmas.{append_cancel_left}
use ocrowley_commons.Common.{
  Bool, List, String, [], ap, arith, eq_iff, eq_refl, false, filter, if◌then◌else◌, includes, inl,
  inr, none, not, refl, some, str_cases, str_eq, str_ne, sym, true, ◌&&◌, ◌++◌, ◌+s◌, ◌||◌, ◌∙◌,
  ◌∷◌, ◌≡◌, ◌≢◌,
}
use ocrowley_commons.Persistence.LocalStore.{
  Storage, Stored, collection, doc_key, entries_of, get_index, index_key, ls_set, ls_upsert_doc,
  push_index, set_item,
}
use ocrowley_commons.Persistence.{read_file, write_file}
use ocrowley_commons.Persistence.Laws.{read-write_file}

-- Within a collection, documents have the same key only if they have the same id.
pub doc_key-eq : (coll i j : String) → str_eq (doc_key coll i) (doc_key coll j) ≡ str_eq i j
doc_key-eq coll i j = elim (str_cases i j) [
  | inl same ↦ rw (same, eq_refl j) (eq_refl (doc_key coll j))
  | inr other ↦
      str_ne (doc_key coll i) (doc_key coll j) (λ e.
        let same =
          append_cancel_left (coll +s "/") i j
            (append_cancel_left "nw_" (coll +s "/" +s i) (coll +s "/" +s j) e) in
        ground (arith, eq_iff i j))
      ∙ sym other
]

index_key-other :
    (coll id : String) → id ≢ "__index" → str_eq (index_key coll) (doc_key coll id) ≡ false
index_key-other coll id h = doc_key-eq coll "__index" id ∙ str_ne "__index" id (λ e. h (sym e))

pub includes-snoc :
    (ids : List String) (i m : String) → includes (ids ++ i ∷ []) m ≡ includes ids m || str_eq i m
includes-snoc [] i m = ground arith
includes-snoc (x ∷ ids) i m = ground (arith, includes-snoc ids i m)

pub includes-without :
    (ids : List String) (i m : String)
    → includes (filter (λ j. not (str_eq j i)) ids) m ≡ includes ids m && not (str_eq i m)
includes-without [] i m = refl
includes-without (x ∷ ids) i m =
    ground (arith, includes-without ids i m, eq_iff x i, eq_iff x m, eq_iff i m)

same_included :
    (ids : List String) (i m : String) → str_eq i m ≡ true → includes ids i ≡ includes ids m
same_included ids i m e = ap (includes ids) ((eq_iff i m).0 e)

-- An id that the index includes is not the index's own.
pub included_other :
    (ids : List String) (m : String)
    → includes ids "__index" ≡ false
    → includes ids m ≡ true
    → str_eq "__index" m ≡ false
included_other ids m ordinary h = ground (arith, same_included ids "__index" m)

module _ {ℓ} {A : Type ℓ} where
  same_key :
      (s : Storage A) (coll i m : String)
      → str_eq i m ≡ true
      → read_file s (doc_key coll i) ≡ read_file s (doc_key coll m)
  same_key s coll i m e = ap (λ j. read_file s (doc_key coll j)) ((eq_iff i m).0 e)

  read-entries_of :
      (s : Storage A) (coll : String) (ids : List String) (m : String)
      → read_file (entries_of s coll ids) m
        ≡ (if includes ids m then read_file s (doc_key coll m) else none)
  unfolding entries_of read_file
  read-entries_of s coll [] m = refl
  read-entries_of s coll (i ∷ ids) m =
      ground (arith, read-entries_of s coll ids m, eq_iff i m, same_key s coll i m)

  pub read-collection :
      (s : Storage A) (coll : String) (ids : List String) (m : String)
      → get_index s coll ≡ some ids
      → read_file (collection s coll) m
        ≡ (if includes ids m then read_file s (doc_key coll m) else none)
  unfolding collection
  read-collection s coll ids m h = ground (arith, read-entries_of s coll ids m, h)

  pub get_index-write :
      (s : Storage A) (coll id : String) (v : Stored A)
      → id ≢ "__index"
      → get_index (write_file s (doc_key coll id) v) coll ≡ get_index s coll
  unfolding get_index
  get_index-write s coll id v h = ground (
    arith,
    read-write_file s (doc_key coll id) (index_key coll) v,
    doc_key-eq coll id "__index",
    str_ne id "__index" h,
  )

  pub get_index-set :
      (s : Storage A) (coll : String) (ids : List String)
      → get_index (write_file s (index_key coll) (Stored.index_value ids)) coll ≡ some ids
  unfolding get_index
  get_index-set s coll ids = ground (
    arith,
    read-write_file s (index_key coll) (index_key coll) (Stored.index_value ids),
    eq_refl (index_key coll),
  )

  pub read-written :
      (s : Storage A) (coll id m : String) (ids : List String) (v : Stored A)
      → id ≢ "__index"
      → get_index s coll ≡ some ids
      → includes ids id ≡ true
      → read_file (collection (write_file s (doc_key coll id) v) coll) m ≡ (
          if str_eq id m
          then some v
          else if includes ids m
          then read_file s (doc_key coll m)
          else none)
  read-written s coll id m ids v h index there = ground (
    arith,
    read-collection (write_file s (doc_key coll id) v) coll ids m
        (get_index-write s coll id v h ∙ index),
    read-write_file s (doc_key coll id) (doc_key coll m) v,
    doc_key-eq coll id m,
    same_included ids id m,
  )

  -- The index of the collection is a list, and its own name is no id.
  abbrev pub IsCollection : Storage A → (coll : String) → Type 0
  IsCollection s coll =
      (ids : List String) × (get_index s coll ≡ some ids) × (includes ids "__index" ≡ false)

  module _ (fits : Storage A → String → Stored A → Bool)
      (room : (s : Storage A) (name : String) (v : Stored A) → fits s name v ≡ true) where
    pub upsert_old :
        (s : Storage A) (coll id : String) (doc : A) (ids : List String)
        → get_index s coll ≡ some ids
        → includes ids id ≡ true
        → ls_upsert_doc fits s coll id doc
          ≡ some (write_file s (doc_key coll id) (Stored.doc_value doc))
    unfolding ls_upsert_doc push_index ls_set set_item
    upsert_old s coll id doc ids index old =
        ground (arith, index, old, room s (doc_key coll id) (Stored.doc_value doc))

    abbrev pub pushed : Storage A → (coll id : String) → List String → Storage A
    pushed s coll id ids = write_file s (index_key coll) (Stored.index_value (ids ++ id ∷ []))

    pub upsert_new :
        (s : Storage A) (coll id : String) (doc : A) (ids : List String)
        → get_index s coll ≡ some ids
        → includes ids id ≡ false
        → ls_upsert_doc fits s coll id doc
          ≡ some (write_file (pushed s coll id ids) (doc_key coll id) (Stored.doc_value doc))
    unfolding ls_upsert_doc push_index ls_set set_item
    upsert_new s coll id doc ids index new = ground (
      arith,
      index,
      new,
      room s (index_key coll) (Stored.index_value (ids ++ id ∷ [])),
      room (pushed s coll id ids) (doc_key coll id) (Stored.doc_value doc),
    )

    pub read_new :
        (s : Storage A) (coll id m : String) (ids : List String) (v : Stored A)
        → id ≢ "__index"
        → get_index s coll ≡ some ids
        → includes ids "__index" ≡ false
        → read_file (collection (write_file (pushed s coll id ids) (doc_key coll id) v) coll) m
          ≡ (if str_eq id m then some v else read_file (collection s coll) m)
    read_new s coll id m ids v h index ordinary = ground (
      arith,
      read-written (pushed s coll id ids) coll id m (ids ++ id ∷ []) v h
          (get_index-set s coll (ids ++ id ∷ [])),
      includes-snoc ids id id,
      eq_refl id,
      includes-snoc ids id m,
      read-collection s coll ids m index,
      included_other ids m ordinary,
      read-write_file s (index_key coll) (doc_key coll m) (Stored.index_value (ids ++ id ∷ [])),
      doc_key-eq coll "__index" m,
    )
