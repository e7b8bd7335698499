-- ===== src/Osint/Cases.antt =====
-- packages/osint/src/dossier: the directories of the cases, one below a root for every case, and the
-- names that the code makes for them (fromWhoResult.ts). `lower` is `toLowerCase`, and `sha256` gives
-- hex digits.
use Prim.Native.Char.{code}
use ocrowley_commons.Common.{
  Bool, List, Option, String, [], arith, eq_refl, false, first_chars, get_or, if◌then◌else◌, inl,
  inr, is_empty, leb, map, refl, some, str_cases, str_eq, trim, true, ℕ, ◌&&◌, ◌+s◌, ◌==◌, ◌||◌,
  ◌≡◌,
}
use ocrowley_commons.Persistence.{Dir, read_file, read_json_file, write_file, write_json_file}
use ocrowley_commons.Persistence.Laws.{read-write_file, read-write_json}

-- `[A-Za-z0-9._-]`.
abbrev pub is_path_char : ℕ → Bool
is_path_char c =
    (leb 65 c && leb c 90)
    || (leb 97 c && leb c 122)
    || (leb 48 c && leb c 57)
    || c == 46
    || c == 95
    || c == 45

-- `s.replace(/[^A-Za-z0-9._-]+/g, '_')`; `in_run` says that the run has its underscore.
abbrev pub replace_runs : (in_run : Bool) → String → String
replace_runs in_run String.[] = String.[]
replace_runs in_run (String.◌∷◌ c s) =
    let kept = replace_runs false s in
    let replaced = replace_runs true s in
    if is_path_char (code c)
    then String.◌∷◌ c kept
    else if in_run
    then replaced
    else String.◌∷◌ "_" replaced

-- `s.replace(/^_+|_+$/g, '')`.
abbrev pub strip_start : String → String
strip_start String.[] = String.[]
strip_start (String.◌∷◌ c s) =
    let rest = strip_start s in if code c == 95 then rest else String.◌∷◌ c s

abbrev pub strip_end : String → String
strip_end String.[] = String.[]
strip_end (String.◌∷◌ c s) =
    let rest = strip_end s in if is_empty rest && code c == 95 then String.[] else String.◌∷◌ c rest

unfoldable pub sanitize_case_path : String → String
unfolding trim
sanitize_case_path case_ref =
    let cleaned = strip_end (strip_start (replace_runs false (trim case_ref))) in
    if is_empty cleaned then "case" else cleaned

-- `a || b` on texts.
abbrev pub text_or : String → String → String
text_or a b = if is_empty a then b else a

unfoldable pub dossier_entity_id :
    (lower sha256 : String → String) → (case_ref name q : String) → String
unfolding trim first_chars
dossier_entity_id lower sha256 case_ref name q =
    first_chars 24 (sha256 (lower (trim case_ref) +s "|" +s lower (trim (text_or name q))))

-- The directories below one root, by name.
abbrev pub Cases {ℓ} : Type ℓ → Type ℓ
Cases V = Dir (Dir V)

module _ {ℓ} {V : Type ℓ} where
  abbrev pub case_dir : Cases V → String → Dir V
  case_dir tree name = get_or (read_file tree name) []

  unfoldable pub read_case_file : Cases V → (dir filename : String) → Option V
  read_case_file tree dir filename = read_json_file (case_dir tree dir) filename

  -- `writeJsonFile` makes the directory where it is missing.
  unfoldable pub write_case_file : Cases V → (dir filename : String) → V → Cases V
  write_case_file tree dir filename v =
      write_file tree dir (write_json_file (case_dir tree dir) filename v)

  -- `entries.filter(e => e.isDirectory()).map(e => e.name)`.
  abbrev pub list_case_dirs : Cases V → List String
  list_case_dirs tree = map (λ e. e.0) tree

  -- Files below a root are a map from the directory and the name.
  pub read-write_case_json :
      (tree : Cases V) (c d s t : String) (v : V)
      → read_case_file (write_case_file tree c (s +s ".json") v) d (t +s ".json")
        ≡ (if str_eq c d && str_eq s t then some v else read_case_file tree d (t +s ".json"))
  unfolding read_case_file write_case_file
  read-write_case_json tree c d s t v = elim (str_cases c d) [
    | inl same ↦ rw (same, read-write_file, eq_refl d, read-write_json) (ground arith)
    | inr other ↦ rw (read-write_file, other) refl
  ]
