-- ===== src/Persistence/LocalStore.antt =====
-- packages/persistence/src/localStore.ts: collections of documents in the browser's storage. A storage
-- is a map of keys to what JSON.parse gives back, an index of a collection or a document, with the
-- reading and writing of Persistence. `fits` says whether setItem has the room for a write; where it
-- has not, setItem throws and the storage is as before. `none` is a call that throws.
pub mod Documents
pub mod Update
mod Tests
use ocrowley_commons.Common.{
  Bool, List, Option, String, [], filter, get_or, if◌then◌else◌, includes, map, none, not, some,
  str_eq, ◌++◌, ◌+s◌, ◌∷◌,
}
use ocrowley_commons.Persistence.{Dir, read_file, unlink, write_file}

pub data Stored {ℓ} (A : Type ℓ) : Type ℓ where
  index_value : List String → Stored A
  doc_value : A → Stored A

abbrev pub storage_key : String → String
storage_key path = "nw_" +s path

abbrev pub doc_key : (coll id : String) → String
doc_key coll id = storage_key (coll +s "/" +s id)

abbrev pub index_key : String → String
index_key coll = doc_key coll "__index"

abbrev pub Storage {ℓ} : Type ℓ → Type ℓ
Storage A = Dir (Stored A)

module _ {ℓ} {A : Type ℓ} where
  abbrev pub ls_get : Storage A → (path : String) → Option (Stored A)
  ls_get s path = read_file s (storage_key path)

  abbrev pub ls_del : Storage A → (path : String) → Storage A
  ls_del s path = unlink s (storage_key path)

  -- `JSON.parse(localStorage.getItem(indexKey) || '[]')`; `none` for what is not an array, on which
  -- `map`, `includes`, `filter` and `forEach` are not functions.
  abbrev index_of : Option (Stored A) → Option (List String)
  index_of none = some []
  index_of (some (Stored.index_value ids)) = some ids
  index_of (some (Stored.doc_value a)) = none

  unfoldable pub get_index : Storage A → (coll : String) → Option (List String)
  get_index s coll = index_of (read_file s (index_key coll))

  -- `index.map(id => lsGet(...)).filter(Boolean)`, each value with its id.
  unfoldable pub entries_of : Storage A → (coll : String) → List String → Storage A
  entries_of s coll [] = []
  entries_of s coll (id ∷ ids) =
      let rest = entries_of s coll ids in
      elim (ls_get s (coll +s "/" +s id)) [ none ↦ rest | some v ↦ (id, v) ∷ rest ]

  unfoldable pub collection : Storage A → (coll : String) → Dir (Stored A)
  unfolding entries_of get_index
  collection s coll = elim (get_index s coll) [ none ↦ [] | some ids ↦ entries_of s coll ids ]

  unfoldable pub ls_get_collection : Storage A → (coll : String) → List (Stored A)
  unfolding collection
  ls_get_collection s coll = map (λ e. e.1) (collection s coll)

  unfoldable pub remove_docs : Storage A → (coll : String) → List String → Storage A
  remove_docs s coll [] = s
  remove_docs s coll (id ∷ ids) = remove_docs (ls_del s (coll +s "/" +s id)) coll ids

  unfoldable pub ls_delete_collection : Storage A → (coll : String) → Option (Storage A)
  unfolding get_index remove_docs
  ls_delete_collection s coll = elim (get_index s coll) [
    | none ↦ none
    | some ids ↦ some (unlink (remove_docs s coll ids) (index_key coll))
  ]

  module _ (fits : Storage A → String → Stored A → Bool) where
    unfoldable pub set_item : Storage A → (name : String) → Stored A → Option (Storage A)
    set_item s name v = if fits s name v then some (write_file s name v) else none

    -- An error of setItem is ignored.
    unfoldable pub ls_set : Storage A → (path : String) → Stored A → Storage A
    unfolding set_item
    ls_set s path v = get_or (set_item s (storage_key path) v) s

    -- The id is pushed where the index does not include it.
    unfoldable pub push_index : Storage A → (coll id : String) → List String → Option (Storage A)
    unfolding set_item
    push_index s coll id ids =
        if includes ids id
        then some s
        else set_item s (index_key coll) (Stored.index_value (ids ++ id ∷ []))

    -- `id` is `doc.id`.
    unfoldable pub ls_upsert_doc : Storage A → (coll id : String) → A → Option (Storage A)
    unfolding get_index push_index ls_set
    ls_upsert_doc s coll id doc = elim (get_index s coll) [
      | none ↦ none
      | some ids ↦ elim (push_index s coll id ids) [
        | none ↦ none
        | some t ↦ some (ls_set t (coll +s "/" +s id) (Stored.doc_value doc))
      ]
    ]

    unfoldable pub ls_delete_doc : Storage A → (coll id : String) → Option (Storage A)
    unfolding get_index set_item
    ls_delete_doc s coll id = elim (get_index s coll) [
      | none ↦ none
      | some ids ↦
          elim (set_item s (index_key coll)
            (Stored.index_value (filter (λ i. not (str_eq i id)) ids))) [
              | none ↦ none
              | some t ↦ some (ls_del t (coll +s "/" +s id))
            ]
    ]
