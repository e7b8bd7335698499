-- ===== src/Persistence/LocalStore/Tests.antt =====
-- A collection of two documents in the browser's storage.
use ocrowley_commons.Common.{
  Bool, String, [], arith, eq_iff, false, get_or, none, refl, some, true, ℕ, ◌∷◌, ◌≡◌, ◌≢◌,
}
use ocrowley_commons.Persistence.{read_file, write_file}
use ocrowley_commons.Persistence.LocalStore.{
  Storage, Stored, collection, entries_of, get_index, ls_delete_doc, ls_get_collection, ls_set,
  ls_upsert_doc, push_index, set_item,
}
use ocrowley_commons.Persistence.LocalStore.Documents.{IsCollection}
use ocrowley_commons.Persistence.LocalStore.Update.{IsEdit, update_doc_lem}

abbrev roomy : Storage ℕ → String → Stored ℕ → Bool
roomy s name v = true

-- No room for documents, so that only an index is written.
abbrev full : Storage ℕ → String → Stored ℕ → Bool
full s name (Stored.index_value ids) = true
full s name (Stored.doc_value v) = false

abbrev two_docs : Storage ℕ
two_docs =
    ("nw_books/__index", Stored.index_value ("a" ∷ "b" ∷ []))
    ∷ ("nw_books/a", Stored.doc_value 1)
    ∷ ("nw_books/b", Stored.doc_value 2)
    ∷ []

two_docs-IsCollection : IsCollection two_docs "books"
unfolding get_index read_file
two_docs-IsCollection = ("a" ∷ "b" ∷ [], refl, refl)

abbrev other_id : String
other_id = "c"

other_id-ne-index : other_id ≢ "__index"
other_id-ne-index e = ground (arith, eq_iff "c" "__index")

listing : ls_get_collection two_docs "books" ≡ Stored.doc_value 1 ∷ Stored.doc_value 2 ∷ []
unfolding ls_get_collection collection entries_of get_index read_file
listing = refl

-- The id of the document is pushed, and the document is lost.
lost_document :
    ls_upsert_doc full [] "books" "a" 1
    ≡ some (("nw_books/__index", Stored.index_value ("a" ∷ [])) ∷ [])
unfolding ls_upsert_doc push_index set_item ls_set get_index read_file write_file
lost_document = refl

-- A document with the id of the index takes its place, and a later call throws.
index_lost :
    ls_upsert_doc roomy
      (get_or (ls_upsert_doc roomy two_docs "books" "__index" 3) two_docs)
      "books"
      "c"
      4
    ≡ none
unfolding ls_upsert_doc push_index set_item ls_set get_index read_file write_file
index_lost = refl

update_doc_example :
    ((t : Storage ℕ) × (ls_upsert_doc roomy two_docs "books" "c" 3 ≡ some t)
      × IsEdit two_docs t "books" "c" (some (Stored.doc_value 3)))
    × ((t : Storage ℕ) × (ls_delete_doc roomy two_docs "books" "c" ≡ some t)
        × IsEdit two_docs t "books" "c" none)
update_doc_example =
    update_doc_lem roomy (λ s name v. refl) two_docs "books" "c" 3 two_docs-IsCollection
      other_id-ne-index
