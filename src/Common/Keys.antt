-- ===== src/Common/Keys.antt =====
-- Lists without repetition by a key, and the filter that keeps the first element of every key.
use Prim.Native.String.{String}
use mathlib.Core.Path.{◌≡◌, refl, ap}
use mathlib.Core.Logic.{inl, inr}
use mathlib.Core.Bool.{true, false, ◌||◌}
use mathlib.Core.List.{List, [], ◌∷◌, ◌++◌, map, Memᴰ}
use native.Mathlib.Omega.{arith}
use text.Mathlib.Text.{◌==◌ as str_eq}
use text.Mathlib.TextEquality.{eq_iff}
use text.Mathlib.TextPositions.{eq_refl}
use ocrowley_commons.Common.Tests.{Bool-cases, if◌then◌else◌}
use ocrowley_commons.Common.Lists.{All, DistinctKeys, includes}

pub includes-append :
    (xs ys : List String) (s : String) → includes (xs ++ ys) s ≡ (includes xs s || includes ys s)
includes-append [] ys s = refl
includes-append (x ∷ xs) ys s = ground (arith, includes-append xs ys s)

module _ {ℓ} {A : Type ℓ} (key : A → String) where
  -- `seen` starts as the set of the keys that do not count as new, and every key is added to it:
  -- `xs.filter(x => { if (seen.has(key(x))) return false; seen.add(key(x)); return true; })`.
  unfoldable pub keep_new : List String → List A → List A
  keep_new seen [] = []
  keep_new seen (x ∷ xs) = elim (includes seen (key x)) [
    | true ↦ keep_new seen xs
    | false ↦ x ∷ keep_new (key x ∷ seen) xs
  ]

  pub keep_new-mem :
      (seen : List String) (xs : List A) (a : A) → Memᴰ a (keep_new seen xs) → Memᴰ a xs
  unfolding keep_new
  keep_new-mem seen [] a m = m
  keep_new-mem seen (x ∷ xs) a m = elim (Bool-cases (includes seen (key x))) [
    | inl old ↦ Memᴰ.tail (keep_new-mem seen xs a (rw (keep_new, old) at m))
    | inr new ↦ split_mem (keep_new-mem (key x ∷ seen) xs a) (rw (keep_new, new) at m)
  ]
    where
      split_mem :
          (Memᴰ a (keep_new (key x ∷ seen) xs) → Memᴰ a xs)
          → Memᴰ a (x ∷ keep_new (key x ∷ seen) xs)
          → Memᴰ a (x ∷ xs)
      split_mem ih (Memᴰ.head e) = Memᴰ.head e
      split_mem ih (Memᴰ.tail t) = Memᴰ.tail (ih t)

  -- No key of `ys` is one of `seen`.
  abbrev pub Fresh : List String → List A → Type 0
  Fresh seen ys = All (λ y. includes seen (key y) ≡ false) ys

  Fresh-weaken :
      (k : String) (seen : List String) (ys : List A) → Fresh (k ∷ seen) ys → Fresh seen ys
  Fresh-weaken k seen [] h = tt
  Fresh-weaken k seen (y ∷ ys) h = (ground arith, Fresh-weaken k seen ys h.1)

  Fresh-key :
      (k : String) (seen : List String) (ys : List A)
      → Fresh (k ∷ seen) ys
      → includes (map key ys) k ≡ false
  Fresh-key k seen [] h = refl
  Fresh-key k seen (y ∷ ys) h =
      let rest = Fresh-key k seen ys h.1 in ground (arith, eq_iff k (key y), eq_iff (key y) k)

  pub keep_new-Fresh : (seen : List String) (xs : List A) → Fresh seen (keep_new seen xs)
  unfolding keep_new
  keep_new-Fresh seen [] = tt
  keep_new-Fresh seen (x ∷ xs) = elim (Bool-cases (includes seen (key x))) [
    | inl old ↦ rw (keep_new, old) (keep_new-Fresh seen xs)
    | inr new ↦
        rw (keep_new, new) (new, Fresh-weaken (key x) seen _ (keep_new-Fresh (key x ∷ seen) xs))
  ]

  pub keep_new-DistinctKeys :
      (seen : List String) (xs : List A) → DistinctKeys key (keep_new seen xs)
  unfolding keep_new
  keep_new-DistinctKeys seen [] = tt
  keep_new-DistinctKeys seen (x ∷ xs) = elim (Bool-cases (includes seen (key x))) [
    | inl old ↦ rw (keep_new, old) (keep_new-DistinctKeys seen xs)
    | inr new ↦
        rw (keep_new, new)
          (
            Fresh-key (key x) seen _ (keep_new-Fresh (key x ∷ seen) xs),
            keep_new-DistinctKeys (key x ∷ seen) xs,
          )
  ]

  -- Every key is seen before or kept.
  pub keep_new-covers :
      (seen : List String) (xs : List A) (a : A)
      → Memᴰ a xs
      → (includes seen (key a) || includes (map key (keep_new seen xs)) (key a)) ≡ true
  unfolding keep_new
  keep_new-covers seen [] a m = elim m [ ]
  keep_new-covers seen (x ∷ xs) a (Memᴰ.head e) = elim (Bool-cases (includes seen (key x))) [
    | inl old ↦ let same : includes seen (key a) ≡ true = rw e old in ground arith
    | inr new ↦
        rw (keep_new, new)
          (let same : str_eq (key x) (key a) ≡ true = rw e (eq_refl (key x)) in ground arith)
  ]
  keep_new-covers seen (x ∷ xs) a (Memᴰ.tail m) = elim (Bool-cases (includes seen (key x))) [
    | inl old ↦ rw (keep_new, old) (keep_new-covers seen xs a m)
    | inr new ↦ rw (keep_new, new) (ground (arith, keep_new-covers (key x ∷ seen) xs a m))
  ]

  -- A list with distinct, fresh keys is kept as it is.
  pub keep_new-id :
      (seen : List String) (xs : List A)
      → DistinctKeys key xs
      → Fresh seen xs
      → keep_new seen xs ≡ xs
  unfolding keep_new
  keep_new-id seen [] d f = refl
  keep_new-id seen (x ∷ xs) d f =
      rw (keep_new, f.0) (ap (λ ys. x ∷ ys) (keep_new-id (key x ∷ seen) xs d.1 (grow xs d.0 f.1)))
    where
      grow :
          (ys : List A)
          → includes (map key ys) (key x) ≡ false
          → Fresh seen ys
          → Fresh (key x ∷ seen) ys
      grow [] apart h = tt
      grow (y ∷ ys) apart h = (
        ground (arith, eq_iff (key x) (key y), eq_iff (key y) (key x)),
        grow ys (ground arith) h.1,
      )

  pub DistinctKeys-append :
      (xs ys : List A)
      → DistinctKeys key xs
      → DistinctKeys key ys
      → Fresh (map key xs) ys
      → DistinctKeys key (xs ++ ys)
  DistinctKeys-append [] ys dx dy f = dy
  DistinctKeys-append (x ∷ xs) ys dx dy f = (
    apart xs dx.0 (Fresh-key (key x) (map key xs) ys f),
    DistinctKeys-append xs ys dx.1 dy (Fresh-weaken (key x) (map key xs) ys f),
  )
    where
      apart :
          (zs : List A)
          → includes (map key zs) (key x) ≡ false
          → includes (map key ys) (key x) ≡ false
          → includes (map key (zs ++ ys)) (key x) ≡ false
      apart [] hz hy = hy
      apart (z ∷ zs) hz hy = ground (arith, apart zs (ground arith) hy)

-- One element more, at the end.
pub keep_new-snoc :
    (seen xs : List String) (x : String)
    → keep_new (λ s. s) seen (xs ++ x ∷ []) ≡ (
        if includes seen x || includes (keep_new (λ s. s) seen xs) x
        then keep_new (λ s. s) seen xs
        else keep_new (λ s. s) seen xs ++ x ∷ [])
unfolding keep_new
keep_new-snoc seen [] x = ground arith
keep_new-snoc seen (y ∷ ys) x = elim (Bool-cases (includes seen y)) [
  | inl old ↦ rw (keep_new, old) (keep_new-snoc seen ys x)
  | inr new ↦ rw (keep_new, new) (ground (arith, keep_new-snoc (y ∷ seen) ys x))
]
