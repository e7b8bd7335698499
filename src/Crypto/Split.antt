-- ===== src/Crypto/Split.antt =====
-- Splitting a framed text gives its parts back.
use Prim.Native.Char.{code}
use text.Mathlib.TextLemmas.{nil-append, cons-append}
use ocrowley_commons.Common.{Bool, String, [], ap, arith, false, refl, ◌+s◌, ◌||◌, ◌∙◌, ◌∷◌, ◌≡◌}
use ocrowley_commons.Crypto.{is_separator, separator, split_parts}

-- Whether a text has the separator.
abbrev pub has_separator : String → Bool
has_separator String.[] = false
has_separator (String.◌∷◌ c s) = is_separator (code c) || has_separator s

pub split_parts-part : (s : String) → has_separator s ≡ false → split_parts s ≡ s ∷ []
unfolding split_parts
split_parts-part String.[] h = refl
split_parts-part (String.◌∷◌ c s) h = rw (split_parts-part s (ground arith)) (ground arith)

pub split_parts-framed :
    (s t : String)
    → has_separator s ≡ false
    → split_parts (s +s (separator +s t)) ≡ s ∷ split_parts t
unfolding split_parts
split_parts-framed String.[] t h = rw (nil-append, cons-append, nil-append) refl
split_parts-framed (String.◌∷◌ c s) t h =
    rw (cons-append c s) (rw (split_parts-framed s t (ground arith)) (ground arith))

-- Three parts without separators, framed.
pub split_parts-three :
    (s t u : String)
    → has_separator s ≡ false
    → has_separator t ≡ false
    → has_separator u ≡ false
    → split_parts (s +s (separator +s (t +s (separator +s u)))) ≡ s ∷ t ∷ u ∷ []
split_parts-three s t u hs ht hu =
    split_parts-framed s _ hs
    ∙ ap (◌∷◌ s) (split_parts-framed t u ht ∙ ap (◌∷◌ t) (split_parts-part u hu))
