-- ===== src/Persistence/Laws.antt =====
-- What a reader finds after a write or a deletion.
use Prim.Native.Char.{code}
use text.Mathlib.TextLemmas.{nil-append, cons-append, append_cancel_right}
use ocrowley_commons.Common.{
  All, List, Option-cases, String, [], ap, arith, ends_with, eq_iff, eq_refl, false, if◌then◌else◌,
  includes, inl, inr, map, none, refl, some, str_cases, str_eq, str_ne, sym, true, ℕ, ◌+s◌, ◌||◌,
  ◌∷◌, ◌≡◌, ◌≢◌, ◌⊎◌,
}
use ocrowley_commons.Persistence.{
  Dir, read_file, read_json_file, rename, tmp_name, unlink, write_file, write_json_file,
}

-- The code point of the last character, and `d` for the empty text.
last_code : ℕ → String → ℕ
last_code d String.[] = d
last_code d (String.◌∷◌ c s) = last_code (code c) s

last_code-append : (d : ℕ) (s t : String) → last_code d (s +s t) ≡ last_code (last_code d s) t
unfolding last_code
last_code-append d String.[] t = rw nil-append
last_code-append d (String.◌∷◌ c s) t = rw cons-append (last_code-append (code c) s t)

-- The name of a JSON file is no temporary name.
pub json-ne-tmp : (s t : String) → (s +s ".json") ≢ tmp_name t
unfolding last_code
json-ne-tmp s t e =
    let n : last_code 0 (s +s ".json") ≡ b'n' = last_code-append 0 s ".json" in
    let p : last_code 0 (t +s ".tmp") ≡ b'p' = last_code-append 0 t ".tmp" in
    absurd (omega (arith, n, p, ap (last_code 0) e))

pub json_name-injective : (s t : String) → (s +s ".json") ≡ (t +s ".json") → s ≡ t
json_name-injective s t e = append_cancel_right s t ".json" e

module _ {ℓ} {V : Type ℓ} where
  pub read-write_file :
      (d : Dir V) (n m : String) (v : V)
      → read_file (write_file d n v) m ≡ (if str_eq n m then some v else read_file d m)
  unfolding read_file write_file
  read-write_file [] n m v = refl
  read-write_file ((k, w) ∷ d) n m v =
      ground (arith, eq_iff k n, eq_iff k m, eq_iff n m, read-write_file d n m v)

  pub read-unlink :
      (d : Dir V) (n m : String)
      → read_file (unlink d n) m ≡ (if str_eq n m then none else read_file d m)
  unfolding read_file unlink
  read-unlink [] n m = ground arith
  read-unlink ((k, w) ∷ d) n m =
      ground (arith, eq_iff k n, eq_iff k m, eq_iff n m, read-unlink d n m)

  pub read-rename :
      (d : Dir V) (from to m : String) (v : V)
      → read_file d from ≡ some v
      → read_file (rename d from to) m
        ≡ (if str_eq to m then some v else if str_eq from m then none else read_file d m)
  unfolding rename
  read-rename d from to m v h =
      ground (arith, read-write_file (unlink d from) to m v, read-unlink d from m)

  -- After a write, a reader finds the new value under the written name, nothing under its temporary
  -- name, and under every other name what was there before.
  pub read-write_json_file :
      (d : Dir V) (n m : String) (v : V)
      → read_json_file (write_json_file d n v) m ≡ (
          if str_eq n m then some v else if str_eq (tmp_name n) m then none else read_json_file d m)
  unfolding read_json_file write_json_file
  read-write_json_file d n m v =
      let written : read_file (write_file d (tmp_name n) v) (tmp_name n) ≡ some v =
        rw (read-write_file d (tmp_name n) (tmp_name n) v, eq_refl (tmp_name n)) in
      ground (
        arith,
        read-rename (write_file d (tmp_name n) v) (tmp_name n) n m v written,
        read-write_file d (tmp_name n) m v,
      )

  -- Writes to and reads from JSON names are those of a map.
  pub read-write_json :
      (d : Dir V) (s t : String) (v : V)
      → read_json_file (write_json_file d (s +s ".json") v) (t +s ".json")
        ≡ (if str_eq s t then some v else read_json_file d (t +s ".json"))
  read-write_json d s t v =
      let other : str_eq (tmp_name (s +s ".json")) (t +s ".json") ≡ false =
        str_ne _ _ (λ e. json-ne-tmp t (s +s ".json") (sym e)) in
      ground (
        arith,
        read-write_json_file d (s +s ".json") (t +s ".json") v,
        eq_iff (s +s ".json") (t +s ".json"),
        eq_iff s t,
        json_name-injective s t,
        ap (λ (u : String). u +s ".json") {x = s} {y = t},
      )

  -- The names of a directory, which no two entries share.
  abbrev pub names : Dir V → List String
  names d = map (λ e. e.0) d

  abbrev pub DistinctNames : Dir V → Type 0
  DistinctNames [] = Unit
  DistinctNames ((n, v) ∷ d) = (includes (names d) n ≡ false) × DistinctNames d

  includes-write_file :
      (d : Dir V) (n m : String) (v : V)
      → includes (names (write_file d n v)) m ≡ (str_eq n m || includes (names d) m)
  unfolding write_file
  includes-write_file [] n m v = ground arith
  includes-write_file ((k, w) ∷ d) n m v =
      ground (arith, eq_iff k n, eq_iff k m, eq_iff n m, includes-write_file d n m v)

  pub write_file-DistinctNames :
      (d : Dir V) (n : String) (v : V) → DistinctNames d → DistinctNames (write_file d n v)
  unfolding write_file
  write_file-DistinctNames [] n v h = (refl, tt)
  write_file-DistinctNames ((k, w) ∷ d) n v h =
      ground
        (arith, eq_iff k n, eq_iff n k, includes-write_file d n k v, write_file-DistinctNames d n v)

  includes-unlink :
      (d : Dir V) (n m : String)
      → includes (names d) m ≡ false
      → includes (names (unlink d n)) m ≡ false
  unfolding unlink
  includes-unlink [] n m h = refl
  includes-unlink ((k, w) ∷ d) n m h = ground (arith, includes-unlink d n m)

  unlink-DistinctNames : (d : Dir V) (n : String) → DistinctNames d → DistinctNames (unlink d n)
  unfolding unlink
  unlink-DistinctNames [] n h = tt
  unlink-DistinctNames ((k, w) ∷ d) n h =
      ground (arith, includes-unlink d n k, unlink-DistinctNames d n)

  rename-cases :
      (d : Dir V) (a b : String)
      → (rename d a b ≡ d) ⊎ ((v : V) × (rename d a b ≡ write_file (unlink d a) b v))
  unfolding rename
  rename-cases d a b = elim (Option-cases (read_file d a)) [
    | inl gone ↦ inl (ground arith)
    | inr (v, found) ↦ inr (v, ground arith)
  ]

  pub write_json_file-DistinctNames :
      (d : Dir V) (n : String) (v : V) → DistinctNames d → DistinctNames (write_json_file d n v)
  unfolding write_json_file
  write_json_file-DistinctNames d n v h =
      let e = write_file d (tmp_name n) v in
      let he : DistinctNames e = write_file-DistinctNames d (tmp_name n) v h in
      elim (rename-cases e (tmp_name n) n) [
        | inl same ↦ rw same he
        | inr (w, moved) ↦ rw moved (
            write_file-DistinctNames (unlink e (tmp_name n)) n w
              (unlink-DistinctNames e (tmp_name n) he))
      ]

module _ {ℓ} {V : Type ℓ} where
  -- With no temporary file about, the detour over one is a plain write.
  write_file-fresh :
      (d : Dir V) (n : String) (v : V)
      → includes (names d) n ≡ false
      → unlink (write_file d n v) n ≡ d
  unfolding write_file unlink
  write_file-fresh [] n v h = ground (arith, eq_refl n)
  write_file-fresh ((k, w) ∷ d) n v h = ground (arith, write_file-fresh d n v)

  pub write_json_file-eq :
      (d : Dir V) (n : String) (v : V)
      → includes (names d) (tmp_name n) ≡ false
      → write_json_file d n v ≡ write_file d n v
  unfolding write_json_file rename
  write_json_file-eq d n v h =
      let written : read_file (write_file d (tmp_name n) v) (tmp_name n) ≡ some v =
        rw (read-write_file d (tmp_name n) (tmp_name n) v, eq_refl (tmp_name n)) in
      ground (arith, write_file-fresh d (tmp_name n) v h)

  pub write_file-All {κ} :
      (P : String × V → Type κ) (d : Dir V) (n : String) (v : V)
      → All P d
      → P (n, v)
      → All P (write_file d n v)
  unfolding write_file
  write_file-All P [] n v h p = (p, tt)
  write_file-All P ((k, w) ∷ d) n v h p = elim (str_cases k n) [
    | inl same ↦ rw (same, eq_refl n) (p, h.1)
    | inr other ↦ rw other (h.0, write_file-All P d n v h.1 p)
  ]

  pub read_file-All {κ} :
      (P : String × V → Type κ) (d : Dir V) (n : String) (v : V)
      → All P d
      → read_file d n ≡ some v
      → P (n, v)
  unfolding read_file
  read_file-All P [] n v h e = cc
  read_file-All P ((k, w) ∷ d) n v h e = elim (str_cases k n) [
    | inl same ↦ let value : w ≡ v = ground (arith, eq_iff k n) in rw (← same, ← value) h.0
    | inr other ↦ read_file-All P d n v h.1 (ground arith)
  ]

  absent :
      (d : Dir V) (n : String) → includes (names d) n ≡ false → All (λ e. str_eq n e.0 ≡ false) d
  absent [] n h = tt
  absent ((k, w) ∷ d) n h = (ground (arith, eq_iff k n, eq_iff n k), absent d n (ground arith))

  read_file-cons :
      (d e : Dir V) (n : String) (v : V)
      → All (λ x. str_eq n x.0 ≡ false) e
      → All (λ x. read_file d x.0 ≡ some x.1) e
      → All (λ x. read_file ((n, v) ∷ d) x.0 ≡ some x.1) e
  unfolding read_file
  read_file-cons d [] n v a r = tt
  read_file-cons d ((k, w) ∷ e) n v a r = (ground arith, read_file-cons d e n v a.1 r.1)

  -- Every entry is read under its name.
  pub read_file_entries : (d : Dir V) → DistinctNames d → All (λ x. read_file d x.0 ≡ some x.1) d
  unfolding read_file
  read_file_entries [] h = tt
  read_file_entries ((n, v) ∷ d) h =
      (rw (eq_refl n), read_file-cons d d n v (absent d n h.0) (read_file_entries d h.1))

ends_with-append : (s t : String) → ends_with t t ≡ true → ends_with (s +s t) t ≡ true
ends_with-append String.[] t h = rw nil-append h
ends_with-append (String.◌∷◌ c s) t h = rw cons-append (ground (arith, ends_with-append s t h))

pub ends_with-json : (s : String) → ends_with (s +s ".json") ".json" ≡ true
ends_with-json s = ends_with-append s ".json" refl
