-- ===== src/Persistence/Tests.antt =====
-- The file store at concrete directories.
use ocrowley_commons.Common.{All, [], refl, ℕ, ◌+s◌, ◌∷◌, ◌≡◌}
use ocrowley_commons.Persistence.{
  Dir, list_json_files, read_file, rename, unlink, write_calls, write_file, write_json_file,
}
use ocrowley_commons.Persistence.Crash.{Content, OldOrNew, crash_states, crash_states-write, whole}

abbrev two_files : Dir ℕ
two_files = ("a.json", 1) ∷ ("b.json", 2) ∷ []

overwrite : write_json_file two_files "b.json" 7 ≡ ("a.json", 1) ∷ ("b.json", 7) ∷ []
unfolding write_json_file rename write_file unlink read_file
overwrite = refl

listing : list_json_files (("notes.txt", 0) ∷ two_files) ≡ "a.json" ∷ "b.json" ∷ []
unfolding list_json_files
listing = refl

abbrev whole_files : Dir (Content ℕ)
whole_files = ("a.json", whole 1) ∷ []

crash_states-write_example :
    All
      (OldOrNew whole_files "a" "a" 7)
      (crash_states (write_calls ("a" +s ".json") (whole 7)) whole_files)
crash_states-write_example = crash_states-write whole_files "a" "a" 7
