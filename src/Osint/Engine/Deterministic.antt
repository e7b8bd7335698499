-- ===== src/Osint/Engine/Deterministic.antt =====
-- packages/osint/src/critiqueLoop.ts, deterministicCritique: the critique where no model is wired, on
-- findings as toFindings makes them, which have all their fields. The score is computed exactly: on
-- floating-point numbers a score that lies half-way between two integers may be rounded the other way.
use Prim.Native.Char.{code}
use ocrowley_commons.Common.{
  Bool, List, String, [], filter, if◌then◌else◌, false, fold_code, suc, true, zero, leb, length,
  ltb, map, none, not, some, take, utf16_length, ℕ, ◌&&◌, ◌++◌, ◌+s◌, ◌+◌, ◌-◌, ◌*◌, ◌/◌, ◌||◌,
  ◌==◌, ◌∷◌,
}
use ocrowley_commons.Osint.Critique.{
  CritiqueFinding, CritiqueInput, CritiqueReport, high, low, medium,
}
use ocrowley_commons.Osint.Engine.{EntityFindings}

-- staticRiskReviewFallback.
abbrev pub fallback_risks : List String
fallback_risks =
    "Check every factual assertion against primary evidence"
    ∷ "Do not blur allegation and established fact" ∷ "Preserve uncertainty and contradictions"
    ∷ "Avoid overclaiming causation or intent" ∷ []

abbrev pub fallback_gaps : List String
fallback_gaps = []

-- `!(f.findings?.length) && (f.keptCount ?? 0) === 0`, and fewer than two items.
abbrev pub is_empty_entity : EntityFindings → Bool
is_empty_entity f = length f.findings == 0 && f.kept_count == 0

abbrev pub is_thin_entity : EntityFindings → Bool
is_thin_entity f = ltb f.kept_count 2

-- `value.replace(/^@/, '')`.
abbrev pub without_at : String → String
without_at String.[] = String.[]
without_at (String.◌∷◌ c s) = if code c == 64 then s else String.◌∷◌ c s

abbrev pub empty_flag : EntityFindings → CritiqueFinding
empty_flag e = record {
  entity = e.entity;
  issue = "Empty result set";
  severity = high;
  recommendation = "Run passive archive + username/domain probes";
  suggested_seed = some ("username", without_at e.entity);
}

abbrev pub thin_flag : EntityFindings → CritiqueFinding
thin_flag e = record {
  entity = e.entity;
  issue = "Fewer than two corroborating findings";
  severity = medium;
  recommendation = "Seek second independent source; check web archive";
  suggested_seed = none;
}

abbrev pub hedge_flag : CritiqueFinding
hedge_flag = record {
  entity = "*";
  issue = "Brief may overstate confidence (missing evidential hedges)";
  severity = medium;
  recommendation = "Rewrite with alleged/reported language and citations";
  suggested_seed = none;
}

abbrev pub kept_total : List EntityFindings → ℕ
kept_total [] = 0
kept_total (f ∷ fs) = f.kept_count + kept_total fs

-- `xs.length ? xs : ys`.
abbrev pub or_list : List String → List String → List String
or_list [] ys = ys
or_list (x ∷ xs) ys = x ∷ xs

abbrev pub is_word_char : ℕ → Bool
is_word_char c =
    (leb 65 c && leb c 90) || (leb 97 c && leb c 122) || (leb 48 c && leb c 57) || c == 95

-- The word stands here, in any case, and no word character follows.
abbrev pub word_at : (word s : String) → Bool
word_at String.[] String.[] = true
word_at String.[] (String.◌∷◌ d s) = not (is_word_char (code d))
word_at (String.◌∷◌ c word) String.[] = false
word_at (String.◌∷◌ c word) (String.◌∷◌ d s) =
    fold_code (code c) == fold_code (code d) && word_at word s

abbrev pub has_word : (after_word_char : Bool) (word s : String) → Bool
has_word after_word_char word String.[] = false
has_word after_word_char word (String.◌∷◌ d s) =
    (not after_word_char && word_at word (String.◌∷◌ d s))
    || has_word (is_word_char (code d)) word s

-- `/\b(alleged|reported|unverified|source)\b/i.test(briefText)`.
unfoldable pub is_hedged : String → Bool
is_hedged s =
    has_word false "alleged" s
    || has_word false "reported" s
    || has_word false "unverified" s
    || has_word false "source" s

abbrev pub lesser : ℕ → ℕ → ℕ
lesser m n = if leb m n then m else n

-- The score: `coverage * 55 + Math.min(depth, 5) * 8` less 10 for every empty entity, over the common
-- denominator `entities`, rounded half up and kept between 0 and 95.
unfoldable pub critique_score : (entities empty kept : ℕ) → ℕ
critique_score zero empty kept = 0
critique_score (suc m) empty kept =
    let entities = suc m in
    let total = 55 * (entities - empty) + 8 * lesser kept (5 * entities) - 10 * empty * entities in
    lesser 95 ((2 * total + entities) / (2 * entities))

unfoldable pub empty_entities : List EntityFindings → List EntityFindings
empty_entities findings = filter is_empty_entity findings

-- The thin entities that are not empty.
unfoldable pub thin_entities : List EntityFindings → List EntityFindings
thin_entities findings = filter (λ f. not (is_empty_entity f)) (filter is_thin_entity findings)

unfoldable pub critique_gaps : List EntityFindings → List String
unfolding empty_entities thin_entities
critique_gaps findings =
    (if length findings == 0 then "No entities under investigation" ∷ [] else [])
    ++ map (λ (e : EntityFindings). "No findings for " +s e.entity) (empty_entities findings)
    ++ map (λ (e : EntityFindings). "Sparse evidence for " +s e.entity) (thin_entities findings)

-- Whether the brief is flagged as a whole.
unfoldable pub is_silent : (brief_text : String) → Bool
unfolding is_hedged utf16_length
is_silent brief_text = not (is_hedged brief_text) && ltb 80 (utf16_length brief_text)

unfoldable pub critique_flags : List EntityFindings → (brief_text : String) → List CritiqueFinding
unfolding empty_entities thin_entities is_silent
critique_flags findings brief_text =
    map empty_flag (empty_entities findings)
    ++ map thin_flag (thin_entities findings)
    ++ (if is_silent brief_text then hedge_flag ∷ [] else [])

unfoldable pub critique_queries : List EntityFindings → List String
unfolding empty_entities thin_entities
critique_queries findings =
    (if length findings == 0 then "Confirm primary seed (email, domain, or username)" ∷ [] else [])
    ++ map (λ (e : EntityFindings). "passive footprint for " +s e.entity) (empty_entities findings)
    ++ map (λ (e : EntityFindings). "archive recovery for " +s e.entity) (thin_entities findings)

unfoldable pub deterministic_critique : CritiqueInput EntityFindings → CritiqueReport
unfolding critique_score critique_gaps critique_flags critique_queries
deterministic_critique input =
    let score =
      critique_score (length input.findings) (length (empty_entities input.findings))
        (kept_total input.findings) in
    record {
      round = input.at_round;
      score = score;
      gaps =
          or_list (critique_gaps input.findings)
            (or_list fallback_gaps ("No critical gaps detected" ∷ []));
      risks = fallback_risks;
      flags = critique_flags input.findings input.brief_text;
      next_queries = take 8 (critique_queries input.findings);
      overall_assessment =
          if leb 75 score
          then "Coverage acceptable for a passive lead pack; verify before operational use."
          else "Material gaps remain — further passive sweeps recommended.";
      confidence_level = if leb 75 score then medium else low;
    }
