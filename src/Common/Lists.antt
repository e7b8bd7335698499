-- ===== src/Common/Lists.antt =====
-- Lists: the array operations that the packages use, and membership and universal predicates.
use Prim.Native.Nat.{ℕ, zero, suc, ◌+◌, ◌≤◌}
use Prim.Native.String.{String}
use mathlib.Core.Path.{◌≡◌, refl, ap, sym}
use mathlib.Core.Logic.{◌↔◌, inl, inr}
use mathlib.Core.Bool.{Bool, true, false, ◌&&◌, ◌||◌}
use mathlib.Core.Option.{Option, none, some}
use mathlib.Core.List.{List, [], ◌∷◌, ◌++◌, map, Memᴰ}
use native.Mathlib.Omega.{arith}
use text.Mathlib.Text.{◌==◌ as str_eq}
use text.Mathlib.TextEquality.{eq_iff}
use ocrowley_commons.Common.Tests.{Bool-cases, if◌then◌else◌}

module _ {ℓ} {A : Type ℓ} where
  abbrev pub length : List A → ℕ
  length [] = 0
  length (x ∷ xs) = suc (length xs)

  -- `xs.filter(p)`, `xs.find(p)`, `xs.some(p)`, `xs.every(p)`.
  abbrev pub filter : (A → Bool) → List A → List A
  filter p [] = []
  filter p (x ∷ xs) = let rest = filter p xs in if p x then x ∷ rest else rest

  abbrev pub find : (A → Bool) → List A → Option A
  find p [] = none
  find p (x ∷ xs) = let rest = find p xs in if p x then some x else rest

  abbrev pub any : (A → Bool) → List A → Bool
  any p [] = false
  any p (x ∷ xs) = p x || any p xs

  abbrev pub all : (A → Bool) → List A → Bool
  all p [] = true
  all p (x ∷ xs) = p x && all p xs

  -- `xs.at(-1)`.
  abbrev pub last? : List A → Option A
  last? [] = none
  last? (x ∷ []) = some x
  last? (x ∷ y ∷ ys) = last? (y ∷ ys)

  abbrev pub head? : List A → Option A
  head? [] = none
  head? (x ∷ xs) = some x

  pub length-append : (xs ys : List A) → length (xs ++ ys) ≡ length xs + length ys
  length-append [] ys = omega arith
  length-append (x ∷ xs) ys = omega (arith, length-append xs ys)

  pub last?-append : (xs : List A) (x : A) → last? (xs ++ x ∷ []) ≡ some x
  last?-append [] x = refl
  last?-append (y ∷ []) x = refl
  last?-append (y ∷ z ∷ zs) x = last?-append (z ∷ zs) x

  pub length-filter : (p : A → Bool) (xs : List A) → length (filter p xs) ≤ length xs
  length-filter p [] = omega arith
  length-filter p (x ∷ xs) = ground (arith, length-filter p xs)

pub length-map {ℓ κ} :
    {A : Type ℓ} {B : Type κ} (f : A → B) (xs : List A) → length (map f xs) ≡ length xs
length-map f [] = refl
length-map f (x ∷ xs) = ap suc (length-map f xs)

-- A predicate of every element, by recursion.
module _ {ℓ κ} {A : Type ℓ} (P : A → Type κ) where
  abbrev pub All : List A → Type κ
  All [] = Unit
  All (x ∷ xs) = P x × All xs

module _ {ℓ κ} {A : Type ℓ} (P : A → Type κ) where
  pub All-append : (xs ys : List A) → All P xs → All P ys → All P (xs ++ ys)
  All-append [] ys hx hy = hy
  All-append (x ∷ xs) ys hx hy = (hx.0, All-append xs ys hx.1 hy)

  pub All-of_mem : (xs : List A) → All P xs → (x : A) → Memᴰ x xs → P x
  All-of_mem [] h y m = elim m [ ]
  All-of_mem (x ∷ xs) h y (Memᴰ.head e) = rw e h.0
  All-of_mem (x ∷ xs) h y (Memᴰ.tail m) = All-of_mem xs h.1 y m

  pub All-tabulate : (xs : List A) → ((x : A) → Memᴰ x xs → P x) → All P xs
  All-tabulate [] f = tt
  All-tabulate (x ∷ xs) f = (f x (Memᴰ.head refl), All-tabulate xs (λ y m. f y (Memᴰ.tail m)))

module _ {ℓ} {A : Type ℓ} (p : A → Bool) where
  pub mem-filter : (xs : List A) (a : A) → Memᴰ a (filter p xs) → Memᴰ a xs × (p a ≡ true)
  mem-filter [] a m = elim m [ ]
  mem-filter (x ∷ xs) a m = elim (Bool-cases (p x)) [
    | inl kept ↦ mem_kept x xs a kept (mem-filter xs a) (rw kept at m)
    | inr gone ↦ let r = mem-filter xs a (rw gone at m) in (Memᴰ.tail r.0, r.1)
  ]
    where
      mem_kept :
          (x : A) (xs : List A) (a : A)
          → p x ≡ true
          → (Memᴰ a (filter p xs) → Memᴰ a xs × (p a ≡ true))
          → Memᴰ a (x ∷ filter p xs)
          → Memᴰ a (x ∷ xs) × (p a ≡ true)
      mem_kept x xs a kept ih (Memᴰ.head e) = (Memᴰ.head e, rw e kept)
      mem_kept x xs a kept ih (Memᴰ.tail m) = let r = ih m in (Memᴰ.tail r.0, r.1)

  pub filter-mem : (xs : List A) (a : A) → Memᴰ a xs → p a ≡ true → Memᴰ a (filter p xs)
  filter-mem [] a m h = elim m [ ]
  filter-mem (x ∷ xs) a (Memᴰ.head e) h = rw (← e, h) (Memᴰ.head refl)
  filter-mem (x ∷ xs) a (Memᴰ.tail m) h = elim (Bool-cases (p x)) [
    | inl kept ↦ rw kept (Memᴰ.tail (filter-mem xs a m h))
    | inr gone ↦ rw gone (filter-mem xs a m h)
  ]

  -- What `find` returns is an element that passes, and all before it fail.
  pub find-mem : (xs : List A) (a : A) → find p xs ≡ some a → Memᴰ a xs × (p a ≡ true)
  find-mem [] a h = cc
  find-mem (x ∷ xs) a h = elim (Bool-cases (p x)) [
    | inl hit ↦ let same : x ≡ a = ground arith in (Memᴰ.head (sym same), rw (← same) hit)
    | inr miss ↦ let r = find-mem xs a (rw miss at h) in (Memᴰ.tail r.0, r.1)
  ]

  pub find-none : (xs : List A) → find p xs ≡ none → (a : A) → Memᴰ a xs → p a ≡ false
  find-none [] h a m = elim m [ ]
  find-none (x ∷ xs) h a (Memᴰ.head e) = rw e (ground arith)
  find-none (x ∷ xs) h a (Memᴰ.tail m) = find-none xs (ground arith) a m

  pub any-mem : (xs : List A) (a : A) → Memᴰ a xs → p a ≡ true → any p xs ≡ true
  any-mem [] a m h = elim m [ ]
  any-mem (x ∷ xs) a (Memᴰ.head e) h = rw (← e, h)
  any-mem (x ∷ xs) a (Memᴰ.tail m) h = ground (arith, any-mem xs a m h)

  pub mem-any : (xs : List A) → any p xs ≡ true → (a : A) × Memᴰ a xs × (p a ≡ true)
  mem-any [] h = cc
  mem-any (x ∷ xs) h = elim (Bool-cases (p x)) [
    | inl hit ↦ (x, Memᴰ.head refl, hit)
    | inr miss ↦ let (a, m, e) = mem-any xs (rw miss at h) in (a, Memᴰ.tail m, e)
  ]

-- `xs.includes(s)` and `set.has(s)` on texts.
abbrev pub includes : List String → String → Bool
includes xs s = any (λ x. str_eq x s) xs

pub includes_iff : (xs : List String) (s : String) → (includes xs s ≡ true) ↔ Memᴰ s xs
includes_iff xs s = (to, λ m. any-mem (λ x. str_eq x s) xs s m ((eq_iff s s).1 refl))
  where
    to : includes xs s ≡ true → Memᴰ s xs
    to h = let (a, m, e) = mem-any (λ x. str_eq x s) xs h in rw (← ((eq_iff a s).0 e)) m

-- No element stands twice, by the texts that `key` gives.
module _ {ℓ} {A : Type ℓ} (key : A → String) where
  abbrev pub DistinctKeys : List A → Type 0
  DistinctKeys [] = Unit
  DistinctKeys (x ∷ xs) = (includes (map key xs) (key x) ≡ false) × DistinctKeys xs

-- The `n` numbers from `k` on.
abbrev pub count_from : ℕ → ℕ → List ℕ
count_from k zero = []
count_from k (suc n) = k ∷ count_from (k + 1) n

pub count_from-suc : (k n : ℕ) → count_from k n ++ (k + n) ∷ [] ≡ count_from k (suc n)
count_from-suc k zero = ground arith
count_from-suc k (suc n) = ground (arith, count_from-suc (k + 1) n)

pub map-append {ℓ κ} :
    {A : Type ℓ} {B : Type κ} (f : A → B) (xs ys : List A) → map f (xs ++ ys) ≡ map f xs ++ map f ys
map-append f [] ys = refl
map-append f (x ∷ xs) ys = ap (λ zs. f x ∷ zs) (map-append f xs ys)

pub append_assoc {ℓ} : {A : Type ℓ} (xs ys zs : List A) → (xs ++ ys) ++ zs ≡ xs ++ (ys ++ zs)
append_assoc [] ys zs = refl
append_assoc (x ∷ xs) ys zs = ap (λ us. x ∷ us) (append_assoc xs ys zs)

pub append_nil {ℓ} : {A : Type ℓ} (xs : List A) → xs ++ [] ≡ xs
append_nil [] = refl
append_nil (x ∷ xs) = ap (λ us. x ∷ us) (append_nil xs)

-- The first `n` elements, or all if there are fewer.
abbrev pub take {ℓ} : {A : Type ℓ} → ℕ → List A → List A
take zero xs = []
take (suc n) [] = []
take (suc n) (x ∷ xs) = x ∷ take n xs

pub length-take {ℓ} : {A : Type ℓ} (n : ℕ) (xs : List A) → length (take n xs) ≤ n
length-take zero xs = omega arith
length-take (suc n) [] = omega arith
length-take (suc n) (x ∷ xs) = omega (arith, length-take n xs)

pub take-All {ℓ κ} :
    {A : Type ℓ} (P : A → Type κ) (n : ℕ) (xs : List A) → All P xs → All P (take n xs)
take-All P zero xs h = tt
take-All P (suc n) [] h = tt
take-All P (suc n) (x ∷ xs) h = (h.0, take-All P n xs h.1)
