-- ===== src/Osint/Engine/Gaps.antt =====
-- What the critique without a model reports: its bounds, and one flag for each thin entity.
use ocrowley_commons.Common.{
  Bool, Bool-cases, List, String, [], ap, arith, false, filter, if◌then◌else◌, inl, inr, length,
  length-take, map, not, refl, suc, true, zero, ℕ, ◌++◌, ◌+◌, ◌∙◌, ◌∷◌, ◌≡◌, ◌≤◌,
}
use ocrowley_commons.Osint.Critique.{CritiqueInput}
use ocrowley_commons.Osint.Engine.{EntityFindings}
use ocrowley_commons.Osint.Engine.Deterministic.{
  critique_flags, critique_gaps, critique_score, deterministic_critique, empty_entities, empty_flag,
  hedge_flag, is_empty_entity, is_silent, is_thin_entity, kept_total, lesser, or_list,
  thin_entities, thin_flag,
}

lesser-le : (m n : ℕ) → lesser m n ≤ m
lesser-le m n = ground arith

critique_score-le : (n e k : ℕ) → critique_score n e k ≤ 95
unfolding critique_score
critique_score-le zero e k = omega arith
critique_score-le (suc m) e k = search lesser-le

or_list-length : (xs ys : List String) → 1 ≤ length ys → 1 ≤ length (or_list xs ys)
or_list-length [] ys h = h
or_list-length (x ∷ xs) ys h = omega arith

module _ {ℓ} {A : Type ℓ} (p q : A → Bool) (imp : (x : A) → p x ≡ true → q x ≡ true) where
  split_count :
      (xs : List A)
      → length (filter p xs) + length (filter (λ x. not (p x)) (filter q xs)) ≡ length (filter q xs)
  split_count [] = refl
  split_count (x ∷ xs) = elim (Bool-cases (p x)) [
    | inl first ↦ rw (first, imp x first, first) (omega (arith, split_count xs))
    | inr other ↦ elim (Bool-cases (q x)) [
      | inl thin ↦ rw (other, thin, other) (omega (arith, split_count xs))
      | inr full ↦ rw (other, full) (split_count xs)
    ]
  ]

is_empty-thin : (f : EntityFindings) → is_empty_entity f ≡ true → is_thin_entity f ≡ true
is_empty-thin f h = ground arith

-- An empty entity is thin, so that the empty and the other thin entities are the thin ones.
thin_count :
    (fs : List EntityFindings)
    → length (empty_entities fs) + length (thin_entities fs) ≡ length (filter is_thin_entity fs)
unfolding empty_entities thin_entities
thin_count fs = split_count is_empty_entity is_thin_entity is_empty-thin fs

flag_count :
    (es ts : List EntityFindings) (b : Bool)
    → length (map empty_flag es ++ map thin_flag ts ++ (if b then hedge_flag ∷ [] else []))
      ≡ length es + length ts + (if b then 1 else 0)
flag_count [] [] true = refl
flag_count [] [] false = refl
flag_count [] (t ∷ ts) b = omega (arith, flag_count [] ts b)
flag_count (e ∷ es) ts b = omega (arith, flag_count es ts b)

critique_flags-length :
    (fs : List EntityFindings) (brief_text : String)
    → length (critique_flags fs brief_text)
      ≡ length (filter is_thin_entity fs) + (if is_silent brief_text then 1 else 0)
unfolding critique_flags
critique_flags-length fs b =
    flag_count (empty_entities fs) (thin_entities fs) (is_silent b)
    ∙ ap (λ n. n + (if is_silent b then 1 else 0)) (thin_count fs)

-- For every input, deterministicCritique reports a score of at most 95, at least one gap, at most eight
-- queries, and one flag for each entity with fewer than two kept items, with one more when the brief
-- has more than 80 code units and none of the four hedging words.
pub deterministic_critique_lem :
    (input : CritiqueInput EntityFindings)
    → ((deterministic_critique input).score ≤ 95)
      × (1 ≤ length (deterministic_critique input).gaps)
      × (length (deterministic_critique input).next_queries ≤ 8)
      × (length (deterministic_critique input).flags
          ≡ length (filter is_thin_entity input.findings)
            + (if is_silent input.brief_text then 1 else 0))
unfolding deterministic_critique
deterministic_critique_lem input = (
  critique_score-le (length input.findings) (length (empty_entities input.findings))
      (kept_total input.findings),
  or_list-length (critique_gaps input.findings) _ (omega arith),
  length-take 8 _,
  critique_flags-length input.findings input.brief_text,
)
