-- ===== src/Persistence.antt =====
-- packages/persistence/src/fileStore.ts: JSON files in one subdirectory of the data directory. A
-- directory is the list of its entries, in the order in which `readdir` gives them; the contents are
-- the values that JSON.parse gives back. Failures of the file system other than ENOENT are left out.
pub mod Laws
pub mod Crash
pub mod LocalStore
mod Tests
use ocrowley_commons.Common.{
  Bool, List, Option, String, [], ends_with, false, filter, if◌then◌else◌, map, none, some, str_eq,
  true, ◌+s◌, ◌∷◌,
}

abbrev pub Dir {ℓ} : Type ℓ → Type ℓ
Dir V = List (String × V)

abbrev pub tmp_name : String → String
tmp_name filename = filename +s ".tmp"

-- The calls of the file system that change it.
pub data FileCall {ℓ} (V : Type ℓ) : Type ℓ where
  writes_file : (name : String) → V → FileCall V
  renames : (from to : String) → FileCall V

module _ {ℓ} {V : Type ℓ} where
  -- The file system: reading a name, writing a whole file, and unlinking one.
  unfoldable pub read_file : Dir V → String → Option V
  read_file [] name = none
  read_file ((n, v) ∷ d) name = if str_eq n name then some v else read_file d name

  unfoldable pub write_file : Dir V → String → V → Dir V
  write_file [] name v = (name, v) ∷ []
  write_file ((n, w) ∷ d) name v =
      if str_eq n name then (n, v) ∷ d else (n, w) ∷ write_file d name v

  unfoldable pub unlink : Dir V → String → Dir V
  unlink [] name = []
  unlink ((n, v) ∷ d) name = if str_eq n name then unlink d name else (n, v) ∷ unlink d name

  -- `fs.rename`: the target takes the source's content, and the source is gone.
  unfoldable pub rename : Dir V → String → String → Dir V
  rename d from to = elim (read_file d from) [ none ↦ d | some v ↦ write_file (unlink d from) to v ]

  -- `null` where there is no such file.
  unfoldable pub read_json_file : Dir V → String → Option V
  read_json_file d filename = read_file d filename

  -- The content goes to a temporary file, which is renamed.
  abbrev pub write_calls : String → V → List (FileCall V)
  write_calls filename v =
      FileCall.writes_file (tmp_name filename) v
      ∷ FileCall.renames (tmp_name filename) filename
      ∷ []

  abbrev pub run_file_call : FileCall V → Dir V → Dir V
  run_file_call (FileCall.writes_file name v) d = write_file d name v
  run_file_call (FileCall.renames from to) d = rename d from to

  abbrev pub run_file_calls : List (FileCall V) → Dir V → Dir V
  run_file_calls [] d = d
  run_file_calls (c ∷ cs) d = run_file_calls cs (run_file_call c d)

  unfoldable pub write_json_file : Dir V → String → V → Dir V
  write_json_file d filename v = run_file_calls (write_calls filename v) d

  unfoldable pub list_json_files : Dir V → List String
  list_json_files d = filter (λ f. ends_with f ".json") (map (λ e. e.0) d)

  -- Whether there was such a file, and the directory after it.
  unfoldable pub delete_json_file : Dir V → String → Bool × Dir V
  delete_json_file d filename = elim (read_file d filename) [
    | none ↦ (false, d)
    | some v ↦ (true, unlink d filename)
  ]
