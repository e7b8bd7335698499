-- ===== src/Osint/Dossiers/Samples.antt =====
-- Dossiers with nothing but an entity, as texts and back.
use Prim.Native.Char.{code}
use ocrowley_commons.Common.{
  List, Option, String, [], ap, arith, false, if◌then◌else◌, none, refl, some, ◌+s◌, ◌==◌, ◌∙◌, ◌∷◌,
  ◌≡◌,
}
use ocrowley_commons.Crypto.{separator, split_parts}
use ocrowley_commons.Crypto.Split.{has_separator, split_parts-framed, split_parts-part}
use ocrowley_commons.Crypto.Samples.{digits, digits-alphabet, undigits, undigits-digits}
use ocrowley_commons.Osint.Dossiers.{Dossier}

-- A text for a dossier with nothing but an entity, and the dossier back.
abbrev id_text : Option String → String
id_text none = "n"
id_text (some id) = String.◌∷◌ "s" (digits id)

abbrev pub sample_to_json : Dossier (Unit {0}) → String
sample_to_json d = id_text d.entity_id +s (separator +s digits d.entity_value)

abbrev id_of_text : String → Option String
id_of_text String.[] = none
id_of_text (String.◌∷◌ c s) = if code c == 115 then some (undigits s) else none

abbrev sample_dossier : List String → Option (Dossier (Unit {0}))
sample_dossier (a ∷ b ∷ []) =
    some (record { entity_id = id_of_text a; entity_value = undigits b; rest = tt })
sample_dossier _ = none

pub sample_parse : String → Option (Dossier (Unit {0}))
sample_parse s = sample_dossier (split_parts s)

id_text-alphabet : (id : Option String) → has_separator (id_text id) ≡ false
id_text-alphabet none = refl
id_text-alphabet (some id) = digits-alphabet id

id_of_text-text : (id : Option String) → id_of_text (id_text id) ≡ id
id_of_text-text none = refl
id_of_text-text (some id) = ap some (undigits-digits id)

pub sample_parse-to_json : (d : Dossier (Unit {0})) → sample_parse (sample_to_json d) ≡ some d
unfolding sample_parse
sample_parse-to_json d =
    ap sample_dossier (
      split_parts-framed (id_text d.entity_id) (digits d.entity_value)
        (id_text-alphabet d.entity_id)
      ∙ ap (◌∷◌ (id_text d.entity_id))
          (split_parts-part (digits d.entity_value) (digits-alphabet d.entity_value)))
    ∙ ground (arith, id_of_text-text d.entity_id, undigits-digits d.entity_value)
