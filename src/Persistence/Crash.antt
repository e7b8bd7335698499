-- ===== src/Persistence/Crash.antt =====
-- `writeJsonFile` call by call, for a process that may stop before, between and after its calls of the
-- file system, or inside the writing of a file.
use ocrowley_commons.Common.{
  All, List, String, [], arith, eq_refl, false, inl, inr, refl, some, str_cases, str_eq, str_ne,
  sym, ◌+s◌, ◌∷◌, ◌≡◌, ◌⊎◌,
}
use ocrowley_commons.Persistence.Laws.{json-ne-tmp, read-write_file, read-write_json}
use ocrowley_commons.Persistence.{
  Dir, FileCall, read_json_file, rename, tmp_name, write_calls, write_file, write_json_file,
}

-- A file's content: a whole value, or the beginning of one, which JSON.parse refuses.
pub data Content {ℓ} (V : Type ℓ) : Type ℓ where
  whole : V → Content V
  torn : Content V

module _ {ℓ} {V : Type ℓ} where
  -- The directories that a process leaves which may stop anywhere in a row of calls: whatever file
  -- it was writing is torn, and a rename is done or not.
  pub crash_states : List (FileCall (Content V)) → Dir (Content V) → List (Dir (Content V))
  crash_states [] d = d ∷ []
  crash_states (FileCall.writes_file name v ∷ cs) d =
      d ∷ write_file d name torn ∷ crash_states cs (write_file d name v)
  crash_states (FileCall.renames from to ∷ cs) d = d ∷ crash_states cs (rename d from to)

  -- A reader of the JSON file `t` finds what it found in `d`, or `t` is `s`, and it finds all of `v`.
  abbrev pub OldOrNew : (d : Dir (Content V)) (s t : String) (v : V) (e : Dir (Content V)) → Type ℓ
  OldOrNew d s t v e =
      (read_json_file e (t +s ".json") ≡ read_json_file d (t +s ".json"))
      ⊎ ((t ≡ s) × (read_json_file e (t +s ".json") ≡ some (whole v)))

  tmp_unread :
      (d : Dir (Content V)) (c : Content V) (s t : String)
      → read_json_file (write_file d (tmp_name (s +s ".json")) c) (t +s ".json")
        ≡ read_json_file d (t +s ".json")
  unfolding read_json_file
  tmp_unread d c s t =
      let other : str_eq (tmp_name (s +s ".json")) (t +s ".json") ≡ false =
        str_ne _ _ (λ e. json-ne-tmp t (s +s ".json") (sym e)) in
      ground (arith, read-write_file d (tmp_name (s +s ".json")) (t +s ".json") c)

  write-OldOrNew :
      (d : Dir (Content V)) (s t : String) (v : V)
      → OldOrNew d s t v (write_json_file d (s +s ".json") (whole v))
  write-OldOrNew d s t v = elim (str_cases s t) [
    | inl same ↦ inr (sym same, rw (read-write_json, same, eq_refl))
    | inr other ↦ inl (rw (read-write_json, other))
  ]

  -- Wherever a process stops in the file system's calls of a write of a JSON file, even inside the
  -- writing of a file: a reader of any JSON file finds what was there before the write, or, in the
  -- written file and only there, the whole new value; never the beginning of one.
  pub crash_states-write :
      (d : Dir (Content V)) (s t : String) (v : V)
      → All (OldOrNew d s t v) (crash_states (write_calls (s +s ".json") (whole v)) d)
  unfolding crash_states write_json_file
  crash_states-write d s t v = (
    inl refl,
    (inl (tmp_unread d torn s t), (inl (tmp_unread d (whole v) s t), (write-OldOrNew d s t v, tt))),
  )
