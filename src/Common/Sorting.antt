-- ===== src/Common/Sorting.antt =====
-- `Array.prototype.sort`, which is stable: a stable insertion sort by a test `le x y` that says
-- that x may stand in front of y.
use Prim.Native.Nat.{ℕ, zero, suc}
use mathlib.Core.Path.{◌≡◌, sym}
use mathlib.Core.Logic.{inl, inr}
use mathlib.Core.Bool.{Bool, true, false}
use mathlib.Core.List.{List, [], ◌∷◌, Memᴰ, Perm}
use mathlib.Core.List.Perm
use mathlib.Core.Option.{some, none}
use native.Mathlib.Omega.{arith}
use ocrowley_commons.Common.Tests.{Bool-cases, if◌then◌else◌}
use ocrowley_commons.Common.Lists.{
  All, All-of_mem, All-tabulate, filter, find, head?, mem-filter, take, take-All,
}

module _ {ℓ} {A : Type ℓ} (le : A → A → Bool) where
  unfoldable pub insert_sorted : A → List A → List A
  insert_sorted x [] = x ∷ []
  insert_sorted x (y ∷ ys) =
      let later = insert_sorted x ys in if le x y then x ∷ y ∷ ys else y ∷ later

  unfoldable pub sort_by : List A → List A
  unfolding insert_sorted
  sort_by [] = []
  sort_by (x ∷ xs) = insert_sorted x (sort_by xs)

  -- Every element may stand in front of all that follow it.
  abbrev pub IsSortedBy : List A → Type ℓ
  IsSortedBy [] = Unit
  IsSortedBy (x ∷ xs) = All (λ y. le x y ≡ true) xs × IsSortedBy xs

  insert_sorted-perm : (x : A) (ys : List A) → Perm (insert_sorted x ys) (x ∷ ys)
  unfolding insert_sorted
  insert_sorted-perm x [] = Perm.refl (x ∷ [])
  insert_sorted-perm x (y ∷ ys) = elim (Bool-cases (le x y)) [
    | inl first ↦ rw first (Perm.refl (x ∷ y ∷ ys))
    | inr later ↦ rw later (Perm.trans (Perm.cons y (insert_sorted-perm x ys)) (Perm.swap x y ys))
  ]

  pub sort_by-perm : (xs : List A) → Perm (sort_by xs) xs
  unfolding sort_by
  sort_by-perm [] = Perm.refl []
  sort_by-perm (x ∷ xs) =
      Perm.trans (insert_sorted-perm x (sort_by xs)) (Perm.cons x (sort_by-perm xs))

  mem-insert_sorted : (x : A) (ys : List A) (a : A) → Memᴰ a (insert_sorted x ys) → Memᴰ a (x ∷ ys)
  unfolding insert_sorted
  mem-insert_sorted x [] a m = m
  mem-insert_sorted x (y ∷ ys) a m = elim (Bool-cases (le x y)) [
    | inl first ↦ rw first at m
    | inr later ↦ past (mem-insert_sorted x ys a) (rw later at m)
  ]
    where
      swap_head : Memᴰ a (x ∷ ys) → Memᴰ a (x ∷ y ∷ ys)
      swap_head (Memᴰ.head e) = Memᴰ.head e
      swap_head (Memᴰ.tail m) = Memᴰ.tail (Memᴰ.tail m)

      past :
          (Memᴰ a (insert_sorted x ys) → Memᴰ a (x ∷ ys))
          → Memᴰ a (y ∷ insert_sorted x ys)
          → Memᴰ a (x ∷ y ∷ ys)
      past ih (Memᴰ.head e) = Memᴰ.tail (Memᴰ.head e)
      past ih (Memᴰ.tail m) = swap_head (ih m)

  insert_sorted-mem : (x : A) (ys : List A) (a : A) → Memᴰ a (x ∷ ys) → Memᴰ a (insert_sorted x ys)
  unfolding insert_sorted
  insert_sorted-mem x [] a m = m
  insert_sorted-mem x (y ∷ ys) a m = elim (Bool-cases (le x y)) [
    | inl first ↦ rw first m
    | inr later ↦ rw later (past (insert_sorted-mem x ys a) m)
  ]
    where
      past :
          (Memᴰ a (x ∷ ys) → Memᴰ a (insert_sorted x ys))
          → Memᴰ a (x ∷ y ∷ ys)
          → Memᴰ a (y ∷ insert_sorted x ys)
      past ih (Memᴰ.head e) = Memᴰ.tail (ih (Memᴰ.head e))
      past ih (Memᴰ.tail (Memᴰ.head e)) = Memᴰ.head e
      past ih (Memᴰ.tail (Memᴰ.tail m)) = Memᴰ.tail (ih (Memᴰ.tail m))

  pub mem-sort_by : (xs : List A) (a : A) → Memᴰ a (sort_by xs) → Memᴰ a xs
  unfolding sort_by
  mem-sort_by [] a m = elim m [ ]
  mem-sort_by (x ∷ xs) a m = later (mem-sort_by xs a) (mem-insert_sorted x (sort_by xs) a m)
    where
      later : (Memᴰ a (sort_by xs) → Memᴰ a xs) → Memᴰ a (x ∷ sort_by xs) → Memᴰ a (x ∷ xs)
      later ih (Memᴰ.head e) = Memᴰ.head e
      later ih (Memᴰ.tail m) = Memᴰ.tail (ih m)

  pub sort_by-mem : (xs : List A) (a : A) → Memᴰ a xs → Memᴰ a (sort_by xs)
  unfolding sort_by
  sort_by-mem [] a m = elim m [ ]
  sort_by-mem (x ∷ xs) a (Memᴰ.head e) = insert_sorted-mem x (sort_by xs) a (Memᴰ.head e)
  sort_by-mem (x ∷ xs) a (Memᴰ.tail m) =
      insert_sorted-mem x (sort_by xs) a (Memᴰ.tail (sort_by-mem xs a m))

-- What a comparison has to satisfy for the result to be in order.
pub record IsOrder {ℓ} {A : Type ℓ} (le : A → A → Bool) : Type ℓ where
  pub total : (x y : A) → le x y ≡ false → le y x ≡ true
  pub trans : (x y z : A) → le x y ≡ true → le y z ≡ true → le x z ≡ true

module _ {ℓ} {A : Type ℓ} (le : A → A → Bool) (o : IsOrder le) where
  insert_sorted-IsSortedBy :
      (x : A) (ys : List A) → IsSortedBy le ys → IsSortedBy le (insert_sorted le x ys)
  unfolding insert_sorted
  insert_sorted-IsSortedBy x [] s = (tt, tt)
  insert_sorted-IsSortedBy x (y ∷ ys) s = elim (Bool-cases (le x y)) [
    | inl first ↦ rw first (
      (
        first,
        All-tabulate _ ys (λ z m. o.trans x y z first (All-of_mem (λ w. le y w ≡ true) ys s.0 z m)),
      ),
      s,
    )
    | inr later ↦ rw later (
      All-tabulate _ (insert_sorted le x ys) (λ z m. below later z (mem-insert_sorted le x ys z m)),
      insert_sorted-IsSortedBy x ys s.1,
    )
  ]
    where
      below : le x y ≡ false → (z : A) → Memᴰ z (x ∷ ys) → le y z ≡ true
      below later z (Memᴰ.head e) = rw e (o.total x y later)
      below later z (Memᴰ.tail m) = All-of_mem (λ w. le y w ≡ true) ys s.0 z m

  pub sort_by-IsSortedBy : (xs : List A) → IsSortedBy le (sort_by le xs)
  unfolding sort_by
  sort_by-IsSortedBy [] = tt
  sort_by-IsSortedBy (x ∷ xs) = insert_sorted-IsSortedBy x (sort_by le xs) (sort_by-IsSortedBy xs)

pub sort_by-All {ℓ κ} :
    {A : Type ℓ} (le : A → A → Bool) (P : A → Type κ) (xs : List A)
    → All P xs
    → All P (sort_by le xs)
sort_by-All le P xs h =
    All-tabulate P (sort_by le xs) (λ x m. All-of_mem P xs h x (mem-sort_by le xs x m))

pub take-IsSortedBy {ℓ} :
    {A : Type ℓ} (le : A → A → Bool) (n : ℕ) (xs : List A)
    → IsSortedBy le xs
    → IsSortedBy le (take n xs)
take-IsSortedBy le zero xs h = tt
take-IsSortedBy le (suc n) [] h = tt
take-IsSortedBy le (suc n) (x ∷ xs) h = (take-All _ n xs h.0, take-IsSortedBy le n xs h.1)

-- The first of the sorted elements that pass `p` may stand in front of every one that passes.
pub find-IsSortedBy {ℓ} :
    {A : Type ℓ} (le : A → A → Bool) (refl_le : (x : A) → le x x ≡ true) (p : A → Bool)
    (xs : List A) (a b : A)
    → IsSortedBy le xs
    → find p xs ≡ some a
    → Memᴰ b xs
    → p b ≡ true
    → le a b ≡ true
find-IsSortedBy le refl_le p [] a b s f m h = elim m [ ]
find-IsSortedBy le refl_le p (x ∷ xs) a b s f (Memᴰ.head e) h =
    let same : x ≡ a = first (rw e at h) in rw (e, ← same) (refl_le x)
  where
    first : p x ≡ true → x ≡ a
    first k = ground arith
find-IsSortedBy le refl_le p (x ∷ xs) a b s f (Memᴰ.tail m) h = elim (Bool-cases (p x)) [
  | inl hit ↦
      let same : x ≡ a = ground arith in rw (← same) (All-of_mem (λ w. le x w ≡ true) xs s.0 b m)
  | inr miss ↦ find-IsSortedBy le refl_le p xs a b s.1 (rw miss at f) m h
]

pub IsOrder-refl {ℓ} : {A : Type ℓ} (le : A → A → Bool) (o : IsOrder le) (x : A) → le x x ≡ true
IsOrder-refl le o x = elim (Bool-cases (le x x)) [ inl h ↦ h | inr h ↦ o.total x x h ]

pub filter-IsSortedBy {ℓ} :
    {A : Type ℓ} (le : A → A → Bool) (p : A → Bool) (xs : List A)
    → IsSortedBy le xs
    → IsSortedBy le (filter p xs)
filter-IsSortedBy le p [] s = tt
filter-IsSortedBy le p (x ∷ xs) s = elim (Bool-cases (p x)) [
  | inl kept ↦ rw kept (
    All-tabulate _ (filter p xs)
        (λ z m. All-of_mem (λ w. le x w ≡ true) xs s.0 z (mem-filter p xs z m).0),
    filter-IsSortedBy le p xs s.1,
  )
  | inr gone ↦ rw gone (filter-IsSortedBy le p xs s.1)
]

-- The head of a sorted list may stand in front of every element.
pub head?-IsSortedBy {ℓ} :
    {A : Type ℓ} (le : A → A → Bool) (refl_le : (x : A) → le x x ≡ true) (xs : List A) (a b : A)
    → IsSortedBy le xs
    → head? xs ≡ some a
    → Memᴰ b xs
    → le a b ≡ true
head?-IsSortedBy le refl_le [] a b s h m = elim m [ ]
head?-IsSortedBy le refl_le (x ∷ xs) a b s h (Memᴰ.head e) =
    let same : x ≡ a = ground arith in rw (e, ← same) (refl_le x)
head?-IsSortedBy le refl_le (x ∷ xs) a b s h (Memᴰ.tail m) =
    let same : x ≡ a = ground arith in rw (← same) (All-of_mem (λ w. le x w ≡ true) xs s.0 b m)

pub head?-mem {ℓ} : {A : Type ℓ} (xs : List A) (a : A) → head? xs ≡ some a → Memᴰ a xs
head?-mem [] a h = cc
head?-mem (x ∷ xs) a h = let same : x ≡ a = ground arith in Memᴰ.head (sym same)

pub head?-none {ℓ} : {A : Type ℓ} (xs : List A) (a : A) → head? xs ≡ none → ¬ (Memᴰ a xs)
head?-none [] a h m = elim m [ ]
head?-none (x ∷ xs) a h m = cc
